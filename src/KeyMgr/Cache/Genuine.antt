-- ===== src/KeyMgr/Cache/Genuine.antt =====
-- internal/keymgr/repo_cache.go: each operation on the caches, and the signing keys that it leaves.
use referendum_services.Prelude.{
  ℕ, ◌+◌, String, String_discrete, [], ◌∷◌, Option, none, some, Bool, true, false, ltb, is_some,
  ◌≡◌, ◌∙◌, sym, subst, arith, Bool-cases, Option-cases, inl, inr, ite,
}
use referendum_services.Prelude.Dict.{Dict, get, put, del, get-put, get-del}
use referendum_services.KeyMgr.Cache.{
  Bytes, Entry, Outcome, KeyCache, Keys, Files, done, failed, panicked, set, is_done, refreshed,
  has, remove, stop, expire_one, expire_encrypted, expire_signing, cleanup_tick, fetched,
  unless_has, update_key_cache,
}

module _ {P : Type 0} (keys : Keys P) where
  -- The KMS decrypts some bytes for this actor to this key.
  abbrev pub IsKeyOf : String → P → Type 0
  IsKeyOf did sk =
      (ek : Bytes) × (pt : Bytes) × (keys.kms_decrypt did ek ≡ some pt)
      × (keys.parse_key pt ≡ some sk)

  abbrev pub Genuine : Dict String (Entry P) → Type 0
  Genuine sc =
      (did : String) (e : Entry P) → get String_discrete sc did ≡ some e → IsKeyOf did e.value

  abbrev pub MaybeGenuine : Option (Dict String (Entry P)) → Type 0
  MaybeGenuine none = Unit
  MaybeGenuine (some sc) = Genuine sc

  -- Every cached signing key is a key of its actor.
  abbrev pub IsGenuine : KeyCache P → Type 0
  IsGenuine kc = MaybeGenuine kc.sign

  put-Genuine :
      (sc : Dict String (Entry P)) (did : String) (e : Entry P)
      → Genuine sc
      → IsKeyOf did e.value
      → Genuine (put String_discrete sc did e)
  put-Genuine sc did e g k j x q =
      at_key (String_discrete did j) (sym (get-put String_discrete sc did j e) ∙ q)
    where
      at_key :
          (d : Dec (did ≡ j))
          → ite d (some e) (get String_discrete sc j) ≡ some x
          → IsKeyOf j x.value
      at_key (yes p) r =
          let same : e ≡ x = ground (arith, r) in
          subst (λ i. IsKeyOf i x.value) p (subst (λ (y : Entry P). IsKeyOf did y.value) same k)
      at_key (no p) r = g j x r

  del-Genuine :
      (sc : Dict String (Entry P)) (did : String)
      → Genuine sc
      → Genuine (del String_discrete sc did)
  del-Genuine sc did g j x q =
      at_key (String_discrete did j) (sym (get-del String_discrete sc did j) ∙ q)
    where
      at_key :
          (d : Dec (did ≡ j)) → ite d none (get String_discrete sc j) ≡ some x → IsKeyOf j x.value
      at_key (yes p) r = ground (arith, r)
      at_key (no p) r = g j x r

  set-IsGenuine :
      (now : ℕ) (did : String) (key : Bytes) (kc : KeyCache P)
      → IsGenuine kc
      → IsGenuine (set keys now did key kc).1
  unfolding set
  set-IsGenuine now did key kc g = elim (Option-cases (keys.kms_decrypt did key)) [
    | inl q ↦ rw q g
    | inr (pt, q) ↦ elim (Option-cases kc.encrypt) [
      | inl a ↦ rw (q, a) g
      | inr (ec, a) ↦ elim (Option-cases kc.sign) [
        | inl b ↦ rw (q, a, b) tt
        | inr (sc, b) ↦ elim (Option-cases (keys.parse_key pt)) [
          | inl c ↦ rw (q, a, b, c) (rw b at g)
          | inr (sk, c) ↦
              rw (q, a, b, c)
                (put-Genuine sc did (record { value = sk; expires_at = now + kc.sign_timeout })
                  (rw b at g) (key, pt, q, c))
        ]
      ]
    ]
  ]

  is_done-state :
      {A : Type 0} (r : Outcome A × KeyCache P) → IsGenuine r.1 → IsGenuine (is_done keys r).1
  is_done-state (done a, kc) g = g
  is_done-state (failed x, kc) g = g
  is_done-state (panicked, kc) g = g

  refreshed-IsGenuine :
      (now : ℕ) (did : String) (kc : KeyCache P) (o : Option (Entry Bytes))
      → IsGenuine kc
      → IsGenuine (refreshed keys now did kc o).1
  refreshed-IsGenuine now did kc none g = g
  refreshed-IsGenuine now did kc (some ek) g =
      is_done-state (set keys now did ek.value kc) (set-IsGenuine now did ek.value kc g)

  has-IsGenuine :
      (now : ℕ) (did : String) (kc : KeyCache P) → IsGenuine kc → IsGenuine (has keys now did kc).1
  unfolding has
  has-IsGenuine now did kc g = elim (Option-cases kc.encrypt) [
    | inl a ↦ rw a g
    | inr (ec, a) ↦ elim (Option-cases kc.sign) [
      | inl b ↦ rw (a, b) tt
      | inr (sc, b) ↦ elim (Bool-cases (is_some (get String_discrete sc did))) [
        | inl t ↦ rw (a, b, t) (rw b at g)
        | inr f ↦
            rw (a, b, f)
              (refreshed-IsGenuine now did (record kc { encrypt = some ec; sign = some sc })
                (get String_discrete ec did) (rw b at g))
      ]
    ]
  ]

  pub update_key_cache-IsGenuine :
      (now : ℕ) (files : Files) (did : String) (kc : KeyCache P)
      → IsGenuine kc
      → IsGenuine (update_key_cache keys now files did kc).1
  unfolding update_key_cache
  update_key_cache-IsGenuine now files did kc g =
      each (has keys now did kc) (has-IsGenuine now did kc g)
    where
      asked :
          (kc' : KeyCache P) (o : Option Bytes)
          → IsGenuine kc'
          → IsGenuine (fetched keys now did kc' o).1
      asked kc' none h = h
      asked kc' (some ek) h = set-IsGenuine now did ek kc' h

      each :
          (r : Outcome Bool × KeyCache P)
          → IsGenuine r.1
          → IsGenuine (unless_has keys now files did r).1
      each (done true, kc') h = h
      each (done false, kc') h = asked kc' (get String_discrete files did) h
      each (failed x, kc') h = h
      each (panicked, kc') h = h

  pub remove-IsGenuine :
      (did : String) (kc : KeyCache P) → IsGenuine kc → IsGenuine (remove keys did kc).1
  unfolding remove
  remove-IsGenuine did kc g = elim (Option-cases kc.encrypt) [
    | inl a ↦ rw a g
    | inr (ec, a) ↦ elim (Option-cases kc.sign) [
      | inl b ↦ rw (a, b) tt
      | inr (sc, b) ↦ elim (Bool-cases (is_some (get String_discrete sc did))) [
        | inl t ↦ rw (a, b, t) (del-Genuine sc did (rw b at g))
        | inr f ↦ rw (a, b, f) (del-Genuine sc did (rw b at g))
      ]
    ]
  ]

  expire_one-Genuine :
      (now : ℕ) (did : String) (e : Entry Bytes)
      (s : Dict String (Entry Bytes) × Dict String (Entry P))
      → Genuine s.1
      → Genuine (expire_one keys now did e s).1
  expire_one-Genuine now did e (ec, sc) g = elim (Bool-cases (ltb e.expires_at now)) [
    | inl t ↦ rw t (del-Genuine sc did g)
    | inr f ↦ rw f g
  ]

  expire_encrypted-Genuine :
      (now : ℕ) (es : Dict String (Entry Bytes))
      (s : Dict String (Entry Bytes) × Dict String (Entry P))
      → Genuine s.1
      → Genuine (expire_encrypted keys now es s).1
  unfolding expire_encrypted
  expire_encrypted-Genuine now [] s g = g
  expire_encrypted-Genuine now ((did, e) ∷ es) s g =
      expire_encrypted-Genuine now es (expire_one keys now did e s)
        (expire_one-Genuine now did e s g)

  expire_signing-Genuine :
      (now : ℕ) (es sc : Dict String (Entry P))
      → Genuine sc
      → Genuine (expire_signing keys now es sc)
  unfolding expire_signing
  expire_signing-Genuine now [] sc g = g
  expire_signing-Genuine now ((did, e) ∷ es) sc g = elim (Bool-cases (ltb e.expires_at now)) [
    | inl t ↦
        rw t (expire_signing-Genuine now es (del String_discrete sc did) (del-Genuine sc did g))
    | inr f ↦ rw f (expire_signing-Genuine now es sc g)
  ]

  pub cleanup_tick-IsGenuine :
      (now : ℕ) (kc : KeyCache P) → IsGenuine kc → IsGenuine (cleanup_tick keys now kc).1
  unfolding cleanup_tick
  cleanup_tick-IsGenuine now kc g = elim (Bool-cases kc.stopped) [
    | inl t ↦ rw t g
    | inr f ↦ elim (Option-cases kc.encrypt) [
      | inl a ↦ rw (f, a) g
      | inr (ec, a) ↦ elim (Option-cases kc.sign) [
        | inl b ↦ rw (f, a, b) tt
        | inr (sc, b) ↦
            rw (f, a, b)
              (let s1 : Dict String (Entry P) = (expire_encrypted keys now ec (ec, sc)).1 in
                expire_signing-Genuine now s1 s1
                  (expire_encrypted-Genuine now ec (ec, sc) (rw b at g)))
      ]
    ]
  ]

  pub stop-IsGenuine : (kc : KeyCache P) → IsGenuine kc → IsGenuine (stop keys kc).1
  unfolding stop
  stop-IsGenuine kc g = elim (Bool-cases kc.stopped) [ inl t ↦ rw t g | inr f ↦ rw f tt ]
