-- ===== src/Car/Session/Keeps.antt =====
-- What the operations of one actor leave of the cache of last shards: the entries of the others, and
-- every entry where they fail.
use referendum_services.Prelude.{
  ℕ, String, Option, none, some, true, false, ◌≡◌, refl, sym, ap, ◌∙◌, ◌≢◌, ◌⊎◌, inl, inr, arith,
  Bool-cases,
}
use referendum_services.Prelude.Int.{ℤ}
use referendum_services.Prelude.Dict.{Dict, get, get-put_ne}
use referendum_services.Car.Shard.{Bytes, Shard, Written, shard_file}
use referendum_services.Car.Session.{
  DeltaSession, Store, Backend, put_shard_and_refs, put_shard, put_done, get_last_shard, checked,
  last_shard, row_or_zero, zero_shard, cached, write_new_shard, close_with_root, shard_done,
  file_done, car_done, read_only,
}

module _ {Cid S : Type 0} (back : Backend Cid S) (aid_dec : Discrete ℕ) where
  -- A row that the database returns for an actor is that actor's; it may return none.
  abbrev pub IsOwn : Type 0
  IsOwn =
      (actor : ℕ) (s : S) (sh : Shard Cid) → back.last_row actor s ≡ some (some sh) → sh.aid ≡ actor

  last_shard_aid :
      IsOwn
      → (actor : ℕ) (s : S) (sh : Shard Cid) → last_shard back actor s ≡ some sh
      → (sh.aid ≡ actor) ⊎ (sh.aid ≡ 0)
  last_shard_aid own actor s sh e = go (back.last_row actor s) refl e
    where
      go :
          (o : Option (Option (Shard Cid)))
          → back.last_row actor s ≡ o
          → row_or_zero back o ≡ some sh
          → (sh.aid ≡ actor) ⊎ (sh.aid ≡ 0)
      go none q d = absurd (ground (arith, d))
      go (some none) q d =
          let same : zero_shard back ≡ sh = ground (arith, d) in inr (ap (λ x. x.aid) (sym same))
      go (some (some r)) q d =
          let same : r ≡ sh = ground (arith, d) in
          inl (own actor s sh (q ∙ ap (λ x. some (some x)) same))

  pub get_last_shard_cached :
      (actor : ℕ) (st : Store Cid S) (sh : Shard Cid)
      → get aid_dec st.cache actor ≡ some sh
      → get_last_shard back aid_dec actor st ≡ (some sh, st)
  unfolding get_last_shard
  get_last_shard_cached actor st sh e = ap (checked back aid_dec actor st) e

  pub get_last_shard_keeps :
      IsOwn
      → (actor other : ℕ) (st : Store Cid S) → other ≢ actor
      → other ≢ 0
      → get aid_dec (get_last_shard back aid_dec actor st).1.cache other
        ≡ get aid_dec st.cache other
  unfolding get_last_shard
  get_last_shard_keeps own actor other st ne nz = from_cache (get aid_dec st.cache actor)
    where
      from_db :
          (o : Option (Shard Cid))
          → last_shard back actor st.db ≡ o
          → get aid_dec (cached back aid_dec st o).1.cache other ≡ get aid_dec st.cache other
      from_db none e = refl
      from_db (some sh) e = get-put_ne aid_dec st.cache sh.aid other sh (λ p.
          elim (last_shard_aid own actor st.db sh e) [
            | inl q ↦ ne (sym p ∙ q)
            | inr q ↦ nz (sym p ∙ q)
          ])

      from_cache :
          (o : Option (Shard Cid))
          → get aid_dec (checked back aid_dec actor st o).1.cache other ≡ get aid_dec st.cache other
      from_cache none = from_db (last_shard back actor st.db) refl
      from_cache (some sh) = refl

  put_shard_keeps :
      (sh : Shard Cid) (refs : _) (st : Store Cid S) (other : ℕ)
      → other ≢ sh.aid
      → get aid_dec (put_shard back aid_dec sh refs st).1.cache other ≡ get aid_dec st.cache other
  unfolding put_shard
  put_shard_keeps sh refs st other ne = done (put_shard_and_refs back sh refs st.db)
    where
      done :
          (r : Option ℕ × S)
          → get aid_dec (put_done back aid_dec sh st.cache r).1.cache other
            ≡ get aid_dec st.cache other
      done (none, s) = refl
      done (some n, s) =
          get-put_ne aid_dec st.cache sh.aid other (record sh { id = n }) (λ p. ne (sym p))

  put_shard_fails :
      (sh : Shard Cid) (refs : _) (st st' : Store Cid S)
      → put_shard back aid_dec sh refs st ≡ (false, st')
      → st'.cache ≡ st.cache
  unfolding put_shard
  put_shard_fails sh refs st st' e = done (put_shard_and_refs back sh refs st.db) e
    where
      done :
          (r : Option ℕ × S)
          → put_done back aid_dec sh st.cache r ≡ (false, st')
          → st'.cache ≡ st.cache
      done (none, s) d = ap (λ p. p.1.cache) (sym d)
      done (some n, s) d = absurd (ground (arith, d))

  module _ {Block : Type 0} (cid_bytes : Cid → Bytes) (raw : Block → Bytes)
      (dump_header : Cid → Option Bytes) where
    write_new_shard_keeps :
        (root : Cid) (rev : String) (actor : ℕ) (seq : ℤ) (blks : Dict Cid Block) (rmcids : _)
        (st : Store Cid S) (other : ℕ)
        → other ≢ actor
        → get aid_dec
            (write_new_shard back aid_dec cid_bytes raw dump_header root rev actor seq blks rmcids
              st).1.cache
            other
          ≡ get aid_dec st.cache other
    unfolding write_new_shard
    write_new_shard_keeps root rev actor seq blks rmcids st other ne =
        of_file (shard_file cid_bytes raw dump_header actor root blks)
      where
        of_row :
            (b : Bytes) (r : _) → (shard_done back aid_dec cid_bytes raw dump_header b r).1 ≡ r.1
        of_row b (true, t) = refl
        of_row b (false, t) = refl

        of_put :
            (f : Written cid_bytes raw dump_header) (r : Option String × S)
            → get aid_dec
                (file_done back aid_dec cid_bytes raw dump_header root rev actor seq f st r).1.cache
                other
              ≡ get aid_dec st.cache other
        of_put f (none, s) = refl
        of_put f (some path, s) =
            ap (λ t. get aid_dec t.cache other) (of_row f.buf _)
            ∙ put_shard_keeps _ f.brefs (record st { db = s }) other ne

        of_file :
            (o : Option (Written cid_bytes raw dump_header))
            → get aid_dec
                (car_done back aid_dec cid_bytes raw dump_header root rev actor seq st o).1.cache
                other
              ≡ get aid_dec st.cache other
        of_file none = refl
        of_file (some f) = of_put f (back.put_file actor seq f.buf st.db)

    pub close_with_root_keeps :
        (root : Cid) (rev : String) (ds : DeltaSession Cid Block) (st : Store Cid S) (other : ℕ)
        → other ≢ ds.actor
        → get aid_dec
            (close_with_root back aid_dec cid_bytes raw dump_header root rev ds st).1.cache
            other
          ≡ get aid_dec st.cache other
    unfolding close_with_root
    close_with_root_keeps root rev ds st other ne = elim (Bool-cases ds.readonly) [
      | inl q ↦ rw q refl
      | inr q ↦ rw q (write_new_shard_keeps root rev ds.actor ds.seq ds.blks ds.rmcids st other ne)
    ]

    write_new_shard_fails :
        (root : Cid) (rev : String) (actor : ℕ) (seq : ℤ) (blks : Dict Cid Block) (rmcids : _)
        (st st' : Store Cid S) (x : _)
        → write_new_shard back aid_dec cid_bytes raw dump_header root rev actor seq blks rmcids st
          ≡ (inl x, st')
        → st'.cache ≡ st.cache
    unfolding write_new_shard
    write_new_shard_fails root rev actor seq blks rmcids st st' x =
        of_file (shard_file cid_bytes raw dump_header actor root blks)
      where
        of_row :
            (sh : Shard Cid) (refs : _) (b : Bytes) (s : Store Cid S) (r : _)
            → put_shard back aid_dec sh refs s ≡ r
            → shard_done back aid_dec cid_bytes raw dump_header b r ≡ (inl x, st')
            → st'.cache ≡ s.cache
        of_row sh refs b s (true, t) q d = absurd (ground (arith, d))
        of_row sh refs b s (false, t) q d =
            ap (λ p. p.1.cache) (sym d) ∙ put_shard_fails sh refs s t q

        of_put :
            (f : Written cid_bytes raw dump_header) (r : Option String × S)
            → file_done back aid_dec cid_bytes raw dump_header root rev actor seq f st r
              ≡ (inl x, st')
            → st'.cache ≡ st.cache
        of_put f (none, s) d = ap (λ p. p.1.cache) (sym d)
        of_put f (some path, s) d = of_row _ f.brefs f.buf (record st { db = s }) _ refl d

        of_file :
            (o : Option (Written cid_bytes raw dump_header))
            → car_done back aid_dec cid_bytes raw dump_header root rev actor seq st o ≡ (inl x, st')
            → st'.cache ≡ st.cache
        of_file none d = ap (λ p. p.1.cache) (sym d)
        of_file (some f) d = of_put f (back.put_file actor seq f.buf st.db) d

    pub close_with_root_fails :
        (root : Cid) (rev : String) (ds : DeltaSession Cid Block) (st st' : Store Cid S) (x : _)
        → close_with_root back aid_dec cid_bytes raw dump_header root rev ds st ≡ (inl x, st')
        → st'.cache ≡ st.cache
    unfolding close_with_root
    close_with_root_fails root rev ds st st' x e = elim (Bool-cases ds.readonly) [
      | inl q ↦
          let closed : (inl read_only, st) ≡ (inl x, st') = rw q at e in
          ap (λ p. p.1.cache) (sym closed)
      | inr q ↦
          write_new_shard_fails root rev ds.actor ds.seq ds.blks ds.rmcids st st' x (rw q at e)
    ]
