-- ===== src/Car/Session/Head.antt =====
-- Sessions one after another: closing a session makes its root and revision the actor's head, on
-- which alone the next session can be opened.
use referendum_services.Prelude.{
  ℕ, String, [], Option, none, some, Bool, true, false, ◌≡◌, refl, ap, ◌∙◌, subst, str_eq, ◌≢◌, inl,
  inr, arith, Bool-cases, Option-cases, eq_iff,
}
use referendum_services.Prelude.Int.{ℤ, inc_int64}
use referendum_services.Prelude.Dict.{Dict, get, put, get-put_self}
use referendum_services.Car.Shard.{Bytes, Shard, Written, shard_file}
use referendum_services.Car.Session.{
  DeltaSession, Store, Backend, revision_mismatch, put_shard_and_refs, put_shard, new_delta_session,
  write_new_shard, close_with_root, shard_done, file_done, committed, refs_after, commit_done,
  begun,
}

module _ {Cid S : Type 0} (back : Backend Cid S) (aid_dec : Discrete ℕ) {Block : Type 0}
    (cid_bytes : Cid → Bytes) (raw : Block → Bytes) (dump_header : Cid → Option Bytes) where
  -- The database gave this id to a new shard.
  abbrev pub IsCreated : ℕ → Type 0
  IsCreated n = (sh : Shard Cid) × (s : S) × (s' : S) × (back.create_shard sh s ≡ (some n, s'))

  -- The cached last shard of the actor has this root, revision and sequence number.
  abbrev pub IsHead : Cid → String → ℕ → ℤ → Store Cid S → Type 0
  IsHead root rev actor seq st =
      (sh : Shard Cid) × (get aid_dec st.cache actor ≡ some sh)
      × (sh.root ≡ root)
      × (sh.rev ≡ rev)
      × (sh.seq ≡ seq)
      × IsCreated sh.id

  committed_id : (n m : ℕ) (s s' : S) (r : Bool × S) → committed back m s r ≡ (some n, s') → m ≡ n
  committed_id n m s s' (true, t) e = go (back.commit_tx t) e
    where
      go : (o : Option S) → commit_done back m s o ≡ (some n, s') → m ≡ n
      go none d = absurd (ground (arith, d))
      go (some u) d = ground (arith, d)
  committed_id n m s s' (false, t) e = absurd (ground (arith, e))

  put_shard_and_refs-IsCreated :
      (sh : Shard Cid) (refs : _) (s s' : S) (n : ℕ)
      → put_shard_and_refs back sh refs s ≡ (some n, s')
      → IsCreated n
  unfolding put_shard_and_refs
  put_shard_and_refs-IsCreated sh refs s s' n e = of_begin (back.begin_tx s) e
    where
      of_row :
          (s1 : S) (r : Option ℕ × S)
          → back.create_shard sh s1 ≡ r
          → refs_after back refs s r ≡ (some n, s')
          → IsCreated n
      of_row s1 (none, t) q d = absurd (ground (arith, d))
      of_row s1 (some m, t) q d = subst IsCreated (committed_id n m s s' _ d) (sh, s1, t, q)

      of_begin : (o : Option S) → begun back sh refs s o ≡ (some n, s') → IsCreated n
      of_begin none d = absurd (ground (arith, d))
      of_begin (some s1) d = of_row s1 (back.create_shard sh s1) refl d

  put_shard-IsHead :
      (sh : Shard Cid) (refs : _) (st st' : Store Cid S)
      → put_shard back aid_dec sh refs st ≡ (true, st')
      → IsHead sh.root sh.rev sh.aid sh.seq st'
  unfolding put_shard
  put_shard-IsHead sh refs st st' e = done (put_shard_and_refs back sh refs st.db) refl
    where
      done :
          (r : Option ℕ × S)
          → put_shard_and_refs back sh refs st.db ≡ r
          → IsHead sh.root sh.rev sh.aid sh.seq st'
      done (none, s) q = absurd (ground (arith, rw q at e))
      done (some n, s) q =
          let same : record { cache = put aid_dec st.cache sh.aid (record sh { id = n }); db = s }
              ≡ st' =
            ground (arith, rw q at e) in
          subst (λ t. IsHead sh.root sh.rev sh.aid sh.seq t) same
            (
              record sh { id = n },
              get-put_self aid_dec st.cache sh.aid (record sh { id = n }),
              refl,
              refl,
              refl,
              put_shard_and_refs-IsCreated sh refs st.db s n q,
            )

  write_new_shard-IsHead :
      (root : Cid) (rev : String) (actor : ℕ) (seq : ℤ) (blks : Dict Cid Block)
      (rmcids : Dict Cid Bool) (st st' : Store Cid S) (buf : Bytes)
      → write_new_shard back aid_dec cid_bytes raw dump_header root rev actor seq blks rmcids st
        ≡ (inr buf, st')
      → IsHead root rev actor seq st'
  unfolding write_new_shard
  write_new_shard-IsHead root rev actor seq blks rmcids st st' buf e =
      elim (Option-cases (shard_file cid_bytes raw dump_header actor root blks)) [
        | inl q ↦ absurd (ground (arith, rw q at e))
        | inr (f, q) ↦ filed f (back.put_file actor seq f.buf st.db) (rw q at e)
      ]
    where
      rowed :
          (sh : Shard Cid) (refs : _) (s : Store Cid S) (b : Bytes) (r : Bool × Store Cid S)
          → put_shard back aid_dec sh refs s ≡ r
          → shard_done back aid_dec cid_bytes raw dump_header b r ≡ (inr buf, st')
          → IsHead sh.root sh.rev sh.aid sh.seq st'
      rowed sh refs s b (true, t) q d =
          put_shard-IsHead sh refs s st' (q ∙ ap (λ x. (true, x)) (ground (arith, d)))
      rowed sh refs s b (false, t) q d = absurd (ground (arith, d))

      filed :
          (f : Written cid_bytes raw dump_header) (r : Option String × S)
          → file_done back aid_dec cid_bytes raw dump_header root rev actor seq f st r
            ≡ (inr buf, st')
          → IsHead root rev actor seq st'
      filed f (none, s) d = absurd (ground (arith, d))
      filed f (some path, s) d = rowed _ f.brefs (record st { db = s }) f.buf _ refl d

  pub close_with_root-IsHead :
      (root : Cid) (rev : String) (ds : DeltaSession Cid Block) (st st' : Store Cid S) (buf : Bytes)
      → close_with_root back aid_dec cid_bytes raw dump_header root rev ds st ≡ (inr buf, st')
      → IsHead root rev ds.actor ds.seq st'
  unfolding close_with_root
  close_with_root-IsHead root rev ds st st' buf e = elim (Bool-cases ds.readonly) [
    | inl q ↦ absurd (ground (arith, rw q at e))
    | inr q ↦
        write_new_shard-IsHead root rev ds.actor ds.seq ds.blks ds.rmcids st st' buf (rw q at e)
  ]

  str_eq_refl : (r : String) → str_eq r r ≡ true
  str_eq_refl r = (eq_iff r r).1 refl

  -- If closing a session with a root and a revision succeeds, the next session for the actor on that
  -- revision is opened with that root as its base, no blocks, and the next sequence number; a session
  -- on another revision is refused; neither changes the store.
  pub close_with_root-new_delta_session :
      (root : Cid) (rev : String) (ds : DeltaSession Cid Block) (st st' : Store Cid S) (buf : Bytes)
      → close_with_root back aid_dec cid_bytes raw dump_header root rev ds st ≡ (inr buf, st')
      → (new_delta_session back aid_dec {Block = Block} ds.actor (some rev) st' ≡ (
        inr (record {
          blks = [];
          rmcids = [];
          actor = ds.actor;
          base_cid = root;
          seq = inc_int64 ds.seq;
          readonly = false;
          last_rev = rev;
        }),
        st',
      ))
        × ((other : String)
            → other ≢ rev
            → new_delta_session back aid_dec {Block = Block} ds.actor (some other) st'
              ≡ (inl revision_mismatch, st'))
  unfolding close_with_root new_delta_session
  close_with_root-new_delta_session root rev ds st st' buf e = elim (Bool-cases ds.readonly) [
    | inl q ↦ absurd (ground (arith, rw q at e))
    | inr q ↦
        let (sh, cached, r1, r2, r3, made) =
          write_new_shard-IsHead root rev ds.actor ds.seq ds.blks ds.rmcids st st' buf
            (rw q at e) in
        (
          rw (cached, r1, r2, r3, str_eq_refl rev) refl,
          λ other ne. rw (cached, r2, not_eq other ne) refl,
        )
  ]
    where
      not_eq : (other : String) → other ≢ rev → str_eq other rev ≡ false
      not_eq other ne = elim (Bool-cases (str_eq other rev)) [
        | inl t ↦ absurd (ne ((eq_iff other rev).0 t))
        | inr f ↦ f
      ]
