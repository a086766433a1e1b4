-- ===== src/KeyMgr/Cache/Stopped.antt =====
-- The key caches after Stop, and what a tick of the clean-up leaves.
use referendum_services.Prelude.{
  ℕ, ◌≤◌, ◌<◌, String, String_discrete, [], ◌∷◌, Option, none, some, true, false, ltb, ◌≡◌, refl,
  ap, ◌∙◌, sym, subst, arith, dec_lt, Bool-cases, Option-cases, inl, inr, ite, if◌then◌else◌,
}
use referendum_services.Prelude.Dict.{Dict, get, del, get-del, get-del_self}
use referendum_services.KeyMgr.Cache.{
  Bytes, Entry, KeyCache, Keys, Files, done, panicked, stop, sign_for_actor, cleanup_tick,
  expire_one, expire_encrypted, expire_signing,
}
use mathlib.Core.List.Memᴰ.{Memᴰ, head, tail}

module _ {P : Type 0} (keys : Keys P) where
  -- After Stop another Stop panics, and if it was the first Stop, SignForActor panics, whatever the
  -- actor, the commit and the key store.
  pub stop-panicked :
      (kc : KeyCache P) (now : ℕ) (files : Files) (did : String) (cmt : Bytes)
      → ((stop keys (stop keys kc).1).0 ≡ panicked)
        × (kc.stopped ≡ false
            → (sign_for_actor keys now files did cmt (stop keys kc).1).0 ≡ panicked)
  unfolding stop sign_for_actor
  stop-panicked kc now files did cmt = elim (Bool-cases kc.stopped) [
    | inl t ↦ (rw t refl, λ f. absurd (ground (arith, t, f)))
    | inr f ↦ (rw f refl, λ _. rw f refl)
  ]

  get-mem :
      {V : Type 0} (d : Dict String V) (k : String) (v : V)
      → get String_discrete d k ≡ some v
      → Memᴰ (k, v) d
  unfolding get
  get-mem [] k v e = absurd (ground (arith, e))
  get-mem ((j, w) ∷ d) k v e = at_key (get-mem d k v) (String_discrete j k) e
    where
      at_key :
          (get String_discrete d k ≡ some v → Memᴰ (k, v) d)
          → (t : Dec (j ≡ k)) → ite t (some w) (get String_discrete d k) ≡ some v
          → Memᴰ (k, v) ((j, w) ∷ d)
      at_key next (yes p) q = head (sym (ap (λ x. (x, w)) p ∙ ap (λ x. (k, x)) (ground (arith, q))))
      at_key next (no p) q = tail (next q)

  -- `d'` has some of the entries of `d`.
  abbrev Within : {V : Type 0} → Dict String V → Dict String V → Type 0
  Within {V} d' d =
      (k : String) (v : V) → get String_discrete d' k ≡ some v → get String_discrete d k ≡ some v

  del-Within : {V : Type 0} (d : Dict String V) (j : String) → Within (del String_discrete d j) d
  del-Within d j k v e = at_key (String_discrete j k) (sym (get-del String_discrete d j k) ∙ e)
    where
      at_key :
          (t : Dec (j ≡ k))
          → ite t none (get String_discrete d k) ≡ some v
          → get String_discrete d k ≡ some v
      at_key (yes p) q = ground (arith, q)
      at_key (no p) q = q

  abbrev Both : Type 0
  Both = Dict String (Entry Bytes) × Dict String (Entry P)

  expire_one-Within :
      (now : ℕ) (did : String) (e : Entry Bytes) (s : Both)
      → Within (expire_one keys now did e s).0 s.0 × Within (expire_one keys now did e s).1 s.1
  expire_one-Within now did e (ec, sc) = elim (Bool-cases (ltb e.expires_at now)) [
    | inl t ↦ rw t (del-Within ec did, del-Within sc did)
    | inr f ↦ rw f (λ k v q. q, λ k v q. q)
  ]

  expire_encrypted-Within :
      (now : ℕ) (es : Dict String (Entry Bytes)) (s : Both)
      → Within (expire_encrypted keys now es s).0 s.0
        × Within (expire_encrypted keys now es s).1 s.1
  unfolding expire_encrypted
  expire_encrypted-Within now [] s = (λ k v q. q, λ k v q. q)
  expire_encrypted-Within now ((did, e) ∷ es) s =
      let (a, b) = expire_one-Within now did e s in
      let (c, d) = expire_encrypted-Within now es (expire_one keys now did e s) in
      (λ k v q. a k v (c k v q), λ k v q. b k v (d k v q))

  none-Within :
      {V : Type 0} (d' d : Dict String V) (k : String)
      → Within d' d
      → get String_discrete d k ≡ none
      → get String_discrete d' k ≡ none
  none-Within d' d k w n = elim (Option-cases (get String_discrete d' k)) [
    | inl e ↦ e
    | inr (v, e) ↦ absurd (ground (arith, n, w k v e))
  ]

  expired-none :
      (now : ℕ) (es : Dict String (Entry Bytes)) (s : Both) (did : String) (e : Entry Bytes)
      → Memᴰ (did, e) es
      → e.expires_at < now
      → (get String_discrete (expire_encrypted keys now es s).0 did ≡ none)
        × (get String_discrete (expire_encrypted keys now es s).1 did ≡ none)
  unfolding expire_encrypted
  expired-none now [] s did e m lt = elim m [ ]
  expired-none now ((j, x) ∷ es) s did e (tail m) lt =
      expired-none now es (expire_one keys now j x s) did e m lt
  expired-none now ((j, x) ∷ es) s did e (head p) lt =
      let t : ltb x.expires_at now ≡ true =
        subst (λ y. ltb y.1.expires_at now ≡ true) p (ground (arith, lt)) in
      let s' : Both = expire_one keys now j x s in
      let (a, b) = expire_encrypted-Within now es s' in
      let (c, d) = wiped j x s t in
      let q : did ≡ j = ap (λ y. y.0) p in
      (
        none-Within (expire_encrypted keys now es s').0 s'.0 did a (rw q c),
        none-Within (expire_encrypted keys now es s').1 s'.1 did b (rw q d),
      )
    where
      wiped :
          (j : String) (x : Entry Bytes) (s : Both)
          → ltb x.expires_at now ≡ true
          → (get String_discrete (expire_one keys now j x s).0 j ≡ none)
            × (get String_discrete (expire_one keys now j x s).1 j ≡ none)
      wiped j x (ec, sc) t =
          rw t (get-del_self String_discrete ec j, get-del_self String_discrete sc j)

  expire_signing-Within :
      (now : ℕ) (es sc : Dict String (Entry P)) → Within (expire_signing keys now es sc) sc
  unfolding expire_signing
  expire_signing-Within now [] sc = λ k v q. q
  expire_signing-Within now ((did, e) ∷ es) sc = elim (Bool-cases (ltb e.expires_at now)) [
    | inl t ↦ rw t (λ k v q.
        del-Within sc did k v (expire_signing-Within now es (del String_discrete sc did) k v q))
    | inr f ↦ rw f (expire_signing-Within now es sc)
  ]

  expired_signing-none :
      (now : ℕ) (es sc : Dict String (Entry P)) (did : String) (e : Entry P)
      → Memᴰ (did, e) es
      → e.expires_at < now
      → get String_discrete (expire_signing keys now es sc) did ≡ none
  unfolding expire_signing
  expired_signing-none now [] sc did e m lt = elim m [ ]
  expired_signing-none now ((j, x) ∷ es) sc did e (tail m) lt =
      expired_signing-none now es (if ltb x.expires_at now then del String_discrete sc j else sc)
        did e m lt
  expired_signing-none now ((j, x) ∷ es) sc did e (head p) lt =
      let t : ltb x.expires_at now ≡ true =
        subst (λ y. ltb y.1.expires_at now ≡ true) p (ground (arith, lt)) in
      let q : did ≡ j = ap (λ y. y.0) p in
      rw (t, q)
        (none-Within (expire_signing keys now es (del String_discrete sc j))
          (del String_discrete sc j) j (expire_signing-Within now es (del String_discrete sc j))
          (get-del_self String_discrete sc j))

  -- Before Stop, a tick of the clean-up ends without a panic, and every entry that either cache still
  -- has is an old one that has not expired.
  pub cleanup_tick-unexpired :
      (now : ℕ) (kc : KeyCache P) (ec : Dict String (Entry Bytes)) (sc : Dict String (Entry P))
      → kc.stopped ≡ false
      → kc.encrypt ≡ some ec
      → kc.sign ≡ some sc
      → (ec' : Dict String (Entry Bytes)) × (sc' : Dict String (Entry P)) × (cleanup_tick keys now
            kc
          ≡ (done tt, record kc { encrypt = some ec'; sign = some sc' }))
        × ((did : String) (e : Entry Bytes)
            → get String_discrete ec' did ≡ some e
            → (get String_discrete ec did ≡ some e) × (now ≤ e.expires_at))
        × ((did : String) (e : Entry P)
            → get String_discrete sc' did ≡ some e
            → (get String_discrete sc did ≡ some e) × (now ≤ e.expires_at))
  unfolding cleanup_tick
  cleanup_tick-unexpired now kc ec sc f a b =
      let s : Both = expire_encrypted keys now ec (ec, sc) in
      let (within_ec, within_sc) = expire_encrypted-Within now ec (ec, sc) in
      (
        s.0,
        expire_signing keys now s.1 s.1,
        rw (f, a, b) refl,
        λ did e q. (
          within_ec did e q,
          unexpired e
              (λ lt.
                (expired-none now ec (ec, sc) did e (get-mem ec did e (within_ec did e q)) lt).0)
              q,
        ),
        λ did e q.
            let kept : get String_discrete s.1 did ≡ some e =
              expire_signing-Within now s.1 s.1 did e q in
            (
              within_sc did e kept,
              unexpired e (λ lt. expired_signing-none now s.1 s.1 did e (get-mem s.1 did e kept) lt)
                  q,
            ),
      )
    where
      unexpired :
          {V : Type 0} {o : Option (Entry V)} (e : Entry V)
          → (e.expires_at < now → o ≡ none)
          → o ≡ some e
          → now ≤ e.expires_at
      unexpired e gone q = elim (dec_lt e.expires_at now) [
        | yes lt ↦ absurd (ground (arith, gone lt, q))
        | no ge ↦ omega (arith, ge)
      ]
