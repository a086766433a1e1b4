-- ===== src/Car/Compact/Queue.antt =====
-- How the queue of buckets divides the shards.
use referendum_services.Prelude.{
  ℕ, suc, ◌+◌, List, [], ◌∷◌, ◌++◌, append-nil, append_assoc, true, false, ◌≡◌, refl, sym, ap, ◌∙◌,
  arith, ltb, length, length-append, if◌then◌else◌, Bool-cases, inl, inr,
}
use referendum_services.Car.Compact.{
  ShardStat, CompBucket, add_shard_stat, new_bucket, is_full, threshold_for_position, thresholds,
  fill_buckets, compaction_queue,
}

module _ {Cid : Type 0} where
  abbrev pub shards_of : List (CompBucket Cid) → List (ShardStat Cid)
  shards_of [] = []
  shards_of (b ∷ bs) = b.shards ++ shards_of bs

  shards_of-append :
      (q : List (CompBucket Cid)) (b : CompBucket Cid)
      → shards_of (q ++ (b ∷ [])) ≡ shards_of q ++ b.shards
  shards_of-append [] b = append-nil b.shards
  shards_of-append (x ∷ q) b =
      ap (λ l. x.shards ++ l) (shards_of-append q b)
      ∙ sym (append_assoc x.shards (shards_of q) b.shards)

  shards_of-fill_buckets :
      (threshs : List ℕ) (count i : ℕ) (rs : List (ShardStat Cid)) (cur : CompBucket Cid)
      (q : List (CompBucket Cid))
      → shards_of (fill_buckets threshs count i rs cur q) ≡ shards_of q ++ (cur.shards ++ rs)
  unfolding fill_buckets add_shard_stat
  shards_of-fill_buckets threshs count i [] cur q = go cur.shards refl
    where
      go :
          (l : List (ShardStat Cid))
          → cur.shards ≡ l
          → shards_of (if ltb (length l) 1 then q else q ++ (cur ∷ []))
            ≡ shards_of q ++ (cur.shards ++ [])
      go [] e = sym (append-nil (shards_of q)) ∙ ap (λ l. shards_of q ++ (l ++ [])) (sym e)
      go (s ∷ ss) e =
          let many : ltb (length (s ∷ ss)) 1 ≡ false = ground arith in
          rw many
            (shards_of-append q cur ∙ ap (λ l. shards_of q ++ l) (sym (append-nil cur.shards)))
  shards_of-fill_buckets threshs count i (r ∷ rs) cur q =
      elim (Bool-cases (is_full count i (add_shard_stat r cur))) [
        | inl t ↦ rw t (
            shards_of-fill_buckets threshs count (i + 1) rs
              (new_bucket
                (threshold_for_position threshs (length (q ++ (add_shard_stat r cur ∷ [])))))
              (q ++ (add_shard_stat r cur ∷ []))
            ∙ ap (λ l. l ++ rs) (shards_of-append q (add_shard_stat r cur))
            ∙ append_assoc (shards_of q) (cur.shards ++ (r ∷ [])) rs
            ∙ ap (λ l. shards_of q ++ l) (append_assoc cur.shards (r ∷ []) rs))
        | inr f ↦ rw f (
            shards_of-fill_buckets threshs count (i + 1) rs (add_shard_stat r cur) q
            ∙ ap (λ l. shards_of q ++ l) (append_assoc cur.shards (r ∷ []) rs))
      ]

  -- The queue ends with a bucket of this shard alone.
  abbrev pub EndsAlone : ShardStat Cid → List (CompBucket Cid) → Type 0
  EndsAlone z q =
      (front : List (CompBucket Cid)) × (b : CompBucket Cid) × (q ≡ front ++ (b ∷ []))
      × (b.shards ≡ z ∷ [])

  fill_buckets-EndsAlone :
      (threshs : List ℕ) (count i : ℕ) (xs : List (ShardStat Cid)) (z : ShardStat Cid)
      (cur : CompBucket Cid) (q : List (CompBucket Cid))
      → i + suc (length xs) ≡ count
      → (xs ≡ [] → cur.shards ≡ [])
      → EndsAlone z (fill_buckets threshs count i (xs ++ (z ∷ [])) cur q)
  unfolding fill_buckets add_shard_stat
  fill_buckets-EndsAlone threshs count i [] z cur q at_end empty =
      let closes : ltb count (i + 3) ≡ true = ground (arith, at_end) in
      let full : is_full count i (add_shard_stat z cur) ≡ true = ground (arith, closes) in
      rw full (q, add_shard_stat z cur, refl, ap (λ l. l ++ (z ∷ [])) (empty refl))
  fill_buckets-EndsAlone threshs count i (x ∷ xs) z cur q at_end empty =
      elim (Bool-cases (is_full count i (add_shard_stat x cur))) [
        | inl t ↦ rw t (
            fill_buckets-EndsAlone threshs count (i + 1) xs z
              (new_bucket
                (threshold_for_position threshs (length (q ++ (add_shard_stat x cur ∷ [])))))
              (q ++ (add_shard_stat x cur ∷ [])) (omega (arith, at_end)) (λ e. refl))
        | inr f ↦ rw f (
            fill_buckets-EndsAlone threshs count (i + 1) xs z (add_shard_stat x cur) q
              (omega (arith, at_end)) (λ e. absurd (not_last e f)))
      ]
    where
      not_last : xs ≡ [] → is_full count i (add_shard_stat x cur) ≡ false → ⊥
      not_last e f =
          let short : length xs ≡ 0 = ap length e in
          let closes : ltb count (i + 3) ≡ true = ground (arith, at_end, short) in
          ground (arith, closes, f)

  -- For any statistics of at least one shard, the buckets of the queue have the shards in their order,
  -- each once, and the last shard is the only one of the last bucket.
  pub compaction_queue-EndsAlone :
      (tot : ℕ) (xs : List (ShardStat Cid)) (z : ShardStat Cid)
      → (shards_of (compaction_queue tot (xs ++ (z ∷ []))) ≡ xs ++ (z ∷ []))
        × EndsAlone z (compaction_queue tot (xs ++ (z ∷ [])))
  unfolding compaction_queue
  compaction_queue-EndsAlone tot xs z = (
    shards_of-fill_buckets (thresholds 10 tot) (length (xs ++ (z ∷ []))) 0 (xs ++ (z ∷ []))
        (new_bucket (threshold_for_position (thresholds 10 tot) 0)) [],
    fill_buckets-EndsAlone (thresholds 10 tot) (length (xs ++ (z ∷ []))) 0 xs z
        (new_bucket (threshold_for_position (thresholds 10 tot) 0)) []
        (omega (arith, length-append xs (z ∷ []))) (λ e. refl),
  )
