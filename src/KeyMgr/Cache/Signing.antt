-- ===== src/KeyMgr/Cache/Signing.antt =====
-- Which key signs: whatever the history of the caches, a commit of an actor is signed with a key that
-- the KMS decrypted for that actor; and after an invalidation with the key in the store.
use referendum_services.Prelude.{
  ℕ, ◌+◌, String, String_discrete, List, [], ◌∷◌, none, some, Bool, true, false, is_some, ◌≡◌, refl,
  ap, ◌∙◌, arith, Option-cases, inl, inr,
}
use referendum_services.Prelude.Dict.{Dict, get, put, del, get-put_self, get-del_self}
use referendum_services.KeyMgr.Cache.{
  Bytes, Entry, Outcome, KeyCache, Keys, Files, done, failed, panicked, new_key_cache, removed,
  signature, sign_commit, stop, cleanup_tick, update_key_cache, then_sign, sign_for_actor,
  invalidate_keys, create_encrypted_key,
}
use referendum_services.KeyMgr.Cache.Genuine.{
  IsKeyOf, IsGenuine, update_key_cache-IsGenuine, remove-IsGenuine, cleanup_tick-IsGenuine,
  stop-IsGenuine,
}

module _ {P : Type 0} (keys : Keys P) where
  -- What may happen to the caches: signing for an actor against some key store, an invalidation, a tick
  -- of the clean-up, Stop.
  pub data Event : Type 0 where
    signing : ℕ → Files → String → Bytes → Event
    invalidating : String → Event
    tick : ℕ → Event
    stopping : Event

  abbrev pub after_event : Event → KeyCache P → KeyCache P
  after_event (signing now files did cmt) kc = (sign_for_actor keys now files did cmt kc).1
  after_event (invalidating did) kc = invalidate_keys keys did kc
  after_event (tick now) kc = (cleanup_tick keys now kc).1
  after_event stopping kc = (stop keys kc).1

  abbrev pub after_events : List Event → KeyCache P → KeyCache P
  after_events [] kc = kc
  after_events (v ∷ vs) kc = after_events vs (after_event v kc)

  then_sign-state :
      (did : String) (cmt : Bytes) (r : Outcome Unit × KeyCache P)
      → IsGenuine keys r.1
      → IsGenuine keys (then_sign keys did cmt r).1
  then_sign-state did cmt (done u, kc) g = g
  then_sign-state did cmt (failed x, kc) g = g
  then_sign-state did cmt (panicked, kc) g = g

  after_event-IsGenuine :
      (v : Event) (kc : KeyCache P) → IsGenuine keys kc → IsGenuine keys (after_event v kc)
  unfolding sign_for_actor invalidate_keys
  after_event-IsGenuine (signing now files did cmt) kc g =
      then_sign-state did cmt (update_key_cache keys now files did kc)
        (update_key_cache-IsGenuine keys now files did kc g)
  after_event-IsGenuine (invalidating did) kc g = remove-IsGenuine keys did kc g
  after_event-IsGenuine (tick now) kc g = cleanup_tick-IsGenuine keys now kc g
  after_event-IsGenuine stopping kc g = stop-IsGenuine keys kc g

  after_events-IsGenuine :
      (vs : List Event) (kc : KeyCache P) → IsGenuine keys kc → IsGenuine keys (after_events vs kc)
  after_events-IsGenuine [] kc g = g
  after_events-IsGenuine (v ∷ vs) kc g =
      after_events-IsGenuine vs (after_event v kc) (after_event-IsGenuine v kc g)

  sign_commit-key :
      (did : String) (cmt sig : Bytes) (kc : KeyCache P)
      → IsGenuine keys kc
      → sign_commit keys did cmt kc ≡ done sig
      → (sk : P) × IsKeyOf keys did sk × (keys.sign_with sk cmt ≡ some sig)
  unfolding sign_commit
  sign_commit-key did cmt sig kc g e = elim (Option-cases kc.sign) [
    | inl b ↦ absurd (ground (arith, rw b at e))
    | inr (sc, b) ↦ elim (Option-cases (get String_discrete sc did)) [
      | inl q ↦ absurd (ground (arith, rw (b, q) at e))
      | inr (x, q) ↦ elim (Option-cases (keys.sign_with x.value cmt)) [
        | inl r ↦ absurd (ground (arith, rw (b, q, r) at e))
        | inr (s, r) ↦ (x.value, (rw b at g) did x q, ground (arith, r, rw (b, q, r) at e))
      ]
    ]
  ]

  -- After any history of a new key manager's caches, a signature that SignForActor returns for an
  -- actor was made with a key that the KMS decrypts, for that actor, from some bytes.
  pub sign_for_actor-IsKeyOf :
      (eto sto : ℕ) (vs : List Event) (now : ℕ) (files : Files) (did : String) (cmt sig : Bytes)
      → (sign_for_actor keys now files did cmt (after_events vs (new_key_cache keys eto sto))).0
        ≡ done sig
      → (sk : P) × IsKeyOf keys did sk × (keys.sign_with sk cmt ≡ some sig)
  unfolding sign_for_actor get
  sign_for_actor-IsKeyOf eto sto vs now files did cmt sig e =
      let kc : KeyCache P = after_events vs (new_key_cache keys eto sto) in
      let g : IsGenuine keys kc =
        after_events-IsGenuine vs (new_key_cache keys eto sto)
          (λ did' x q. absurd (ground (arith, q))) in
      each (update_key_cache keys now files did kc)
        (update_key_cache-IsGenuine keys now files did kc g) e
    where
      each :
          (r : Outcome Unit × KeyCache P)
          → IsGenuine keys r.1
          → (then_sign keys did cmt r).0 ≡ done sig
          → (sk : P) × IsKeyOf keys did sk × (keys.sign_with sk cmt ≡ some sig)
      each (done u, kc) h q = sign_commit-key did cmt sig kc h q
      each (failed x, kc) h q = absurd (ground (arith, q))
      each (panicked, kc) h q = absurd (ground (arith, q))

  removed_state : (t : Bool) (kc : KeyCache P) → (removed keys t kc).1 ≡ kc
  removed_state true kc = refl
  removed_state false kc = refl

  -- With no key in the caches, the key in the store signs.
  sign_stored :
      (did : String) (sk : P) (files : Files) (ek pt cmt : Bytes) (now : ℕ) (kc : KeyCache P)
      (ec : Dict String (Entry Bytes)) (sc : Dict String (Entry P))
      → get String_discrete ec did ≡ none
      → get String_discrete sc did ≡ none
      → get String_discrete files did ≡ some ek
      → keys.kms_decrypt did ek ≡ some pt
      → keys.parse_key pt ≡ some sk
      → (sign_for_actor keys now files did cmt (record kc { encrypt = some ec; sign = some sc })).0
        ≡ signature keys (keys.sign_with sk cmt)
  unfolding sign_for_actor
  sign_stored did sk files ek pt cmt now kc ec sc no_ek no_sk f q r =
      rw
        (
          no_sk,
          no_ek,
          f,
          q,
          r,
          get-put_self String_discrete sc did
              (record { value = sk; expires_at = now + kc.sign_timeout }),
        )
        refl

  -- If what the KMS encrypted for an actor it decrypts to the same bytes, and they parse to the key
  -- they came from, then after CreateEncryptedKey, whose file the key store takes, and an
  -- invalidation of the actor in any caches that were not stopped, SignForActor signs with that key.
  pub create-sign_for_actor :
      (did : String) (sk : P) (files : Files) (ek : Bytes) (cmt : Bytes) (now : ℕ) (kc : KeyCache P)
      (ec : Dict String (Entry Bytes)) (sc : Dict String (Entry P))
      → kc.encrypt ≡ some ec
      → kc.sign ≡ some sc
      → keys.kms_encrypt did (keys.key_bytes sk) ≡ some ek
      → keys.kms_decrypt did ek ≡ some (keys.key_bytes sk)
      → keys.parse_key (keys.key_bytes sk) ≡ some sk
      → (sign_for_actor keys now
          (create_encrypted_key keys true did sk files).1
          did
          cmt
          (invalidate_keys keys did kc)).0
        ≡ signature keys (keys.sign_with sk cmt)
  unfolding sign_for_actor create_encrypted_key invalidate_keys
  create-sign_for_actor did sk files ek cmt now kc ec sc a b p q r =
      let emptied : KeyCache P = record kc {
        encrypt = some (del String_discrete ec did);
        sign = some (del String_discrete sc did);
      } in
      let state : invalidate_keys keys did kc ≡ emptied =
        rw (a, b) (removed_state (is_some (get String_discrete sc did)) _) in
      let stored : (create_encrypted_key keys true did sk files).1
          ≡ put String_discrete files did ek =
        rw p refl in
      ap (λ fs. (sign_for_actor keys now fs did cmt (invalidate_keys keys did kc)).0) stored
      ∙ ap (λ k. (sign_for_actor keys now (put String_discrete files did ek) did cmt k).0) state
      ∙ sign_stored did sk (put String_discrete files did ek) ek (keys.key_bytes sk) cmt now kc
          (del String_discrete ec did) (del String_discrete sc did)
          (get-del_self String_discrete ec did) (get-del_self String_discrete sc did)
          (get-put_self String_discrete files did ek) q r
