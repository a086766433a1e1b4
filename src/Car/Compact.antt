-- ===== src/Car/Compact.antt =====
-- internal/car/store.go: how CompactActorShards plans its work: the shards that it skips, the statistics of
-- the rest, the thresholds, the queue of buckets, and which of them are compacted. The division of the
-- floats is a parameter.
pub mod Queue
mod Examples
use referendum_services.Prelude.{
  ℕ, zero, suc, ◌+◌, ◌/◌, List, [], ◌∷◌, ◌++◌, Option, none, some, Bool, true, false, ◌&&◌, ◌||◌,
  max, ltb, length, get_elem?, if◌then◌else◌, map, ℕ_discrete,
}
use referendum_services.Prelude.Int.{ℤ, ltb_ℤ}
use referendum_services.Prelude.Dict.{Dict, get, put}
use referendum_services.Car.Shard.{Shard, BlockRef}

pub record ShardStat (Cid : Type 0) : Type 0 where
  pub id : ℕ
  pub dirty : ℕ
  pub seq : ℤ
  pub total : ℕ
  pub refs : List (BlockRef Cid)

-- `cleanBlocks` is `blocks` less `dirty_blocks`.
pub record CompBucket (Cid : Type 0) : Type 0 where
  pub shards : List (ShardStat Cid)
  pub blocks : ℕ
  pub dirty_blocks : ℕ
  pub exp_size : ℕ

abbrev pub low_bound : ℕ
low_bound = 20

-- `n` thresholds, from half the number of references on down.
abbrev pub thresholds : ℕ → ℕ → List ℕ
thresholds zero tot = []
thresholds (suc n) tot = max (tot / 2) low_bound ∷ thresholds n (tot / 2)

abbrev pub or_low : Option ℕ → ℕ
or_low none = low_bound
or_low (some v) = v

abbrev pub threshold_for_position : List ℕ → ℕ → ℕ
threshold_for_position threshs i = or_low (get_elem? threshs i)

module _ {Cid : Type 0} where
  abbrev pub counted : BlockRef Cid → ShardStat Cid → ShardStat Cid
  counted br s = record s { total = s.total + 1; refs = s.refs ++ (br ∷ []) }

  abbrev pub new_stat : BlockRef Cid → Option (Shard Cid) → Option (ShardStat Cid)
  new_stat br none = none
  new_stat br (some sh) =
      some (record { id = br.shard; dirty = 0; seq = sh.seq; total = 0; refs = [] })

  abbrev pub stat_of :
      Dict ℕ (Shard Cid) → BlockRef Cid → Option (ShardStat Cid) → Option (ShardStat Cid)
  stat_of shards br (some s) = some s
  stat_of shards br none = new_stat br (get ℕ_discrete shards br.shard)

  abbrev pub stats_after :
      (Dict ℕ (ShardStat Cid) → Option (Dict ℕ (ShardStat Cid)))
      → BlockRef Cid
      → Dict ℕ (ShardStat Cid)
      → Option (ShardStat Cid)
      → Option (Dict ℕ (ShardStat Cid))
  stats_after next br d none = none
  stats_after next br d (some s) = next (put ℕ_discrete d br.shard (counted br s))

  -- The loop of aggrRefs; a reference to a shard that is not in the map is a panic, `none`.
  unfoldable pub stats_by_id :
      Dict ℕ (Shard Cid)
      → List (BlockRef Cid)
      → Dict ℕ (ShardStat Cid)
      → Option (Dict ℕ (ShardStat Cid))
  unfolding get put ℕ_discrete
  stats_by_id shards [] d = some d
  stats_by_id shards (br ∷ brs) d =
      stats_after (λ e. stats_by_id shards brs e) br d
        (stat_of shards br (get ℕ_discrete d br.shard))

  abbrev pub insert_stat : ShardStat Cid → List (ShardStat Cid) → List (ShardStat Cid)
  insert_stat s [] = s ∷ []
  insert_stat s (t ∷ ts) = if ltb_ℤ t.seq s.seq then t ∷ insert_stat s ts else s ∷ t ∷ ts

  -- sort.Slice by sequence number
  abbrev pub sort_stats : List (ShardStat Cid) → List (ShardStat Cid)
  sort_stats [] = []
  sort_stats (s ∷ ss) = insert_stat s (sort_stats ss)

  abbrev pub values : Dict ℕ (ShardStat Cid) → List (ShardStat Cid)
  values [] = []
  values ((k, s) ∷ d) = s ∷ values d

  abbrev pub sorted : Option (Dict ℕ (ShardStat Cid)) → Option (List (ShardStat Cid))
  sorted none = none
  sorted (some d) = some (sort_stats (values d))

  -- `aggrRefs`
  unfoldable pub aggr_refs :
      List (BlockRef Cid) → Dict ℕ (Shard Cid) → Option (List (ShardStat Cid))
  unfolding stats_by_id
  aggr_refs brefs shards = sorted (stats_by_id shards brefs [])

  -- `addShardStat`
  unfoldable pub add_shard_stat : ShardStat Cid → CompBucket Cid → CompBucket Cid
  add_shard_stat s cb = record cb {
    shards = cb.shards ++ (s ∷ []);
    blocks = cb.blocks + s.total;
    dirty_blocks = cb.dirty_blocks + s.dirty;
  }

  abbrev pub new_bucket : ℕ → CompBucket Cid
  new_bucket size = record { shards = []; blocks = 0; dirty_blocks = 0; exp_size = size }

  abbrev pub is_empty : CompBucket Cid → Bool
  is_empty cb = ltb (length cb.shards) 1

  -- A bucket is closed when it is full, and at each of the last two shards.
  abbrev pub is_full : ℕ → ℕ → CompBucket Cid → Bool
  is_full count i cb = ltb (cb.exp_size + cb.dirty_blocks) cb.blocks || ltb count (i + 3)

  -- The loop over the results; `i` is its index, and `count` the number of all results.
  unfoldable pub fill_buckets :
      List ℕ
      → ℕ
      → ℕ
      → List (ShardStat Cid)
      → CompBucket Cid
      → List (CompBucket Cid)
      → List (CompBucket Cid)
  unfolding add_shard_stat
  fill_buckets threshs count i [] cur queue = if is_empty cur then queue else queue ++ (cur ∷ [])
  fill_buckets threshs count i (r ∷ rs) cur queue =
      let full = queue ++ (add_shard_stat r cur ∷ []) in
      let next =
        fill_buckets threshs count (i + 1) rs
          (new_bucket (threshold_for_position threshs (length full))) full in
      let on = fill_buckets threshs count (i + 1) rs (add_shard_stat r cur) queue in
      if is_full count i (add_shard_stat r cur) then next else on

  -- The queue of CompactActorShards for the statistics of `tot` references.
  unfoldable pub compaction_queue : ℕ → List (ShardStat Cid) → List (CompBucket Cid)
  unfolding fill_buckets
  compaction_queue tot results =
      let threshs = thresholds 10 tot in
      fill_buckets threshs (length results) 0 results
        (new_bucket (threshold_for_position threshs 0)) []

  -- `shouldCompact`; `above p` tells whether the mean of the dirty fractions is above `p` percent.
  unfoldable pub should_compact : (ℕ → List (ℕ × ℕ) → Bool) → CompBucket Cid → Bool
  should_compact above cb =
      let n = length cb.shards in
      let fracs = map (λ (s : ShardStat Cid). (s.dirty, s.total)) cb.shards in
      if ltb n 1
      then false
      else if ltb 5 n
      then true
      else if ltb 3 n && above 20 fracs
      then true
      else above 40 fracs

  -- The shards after the prefix whose files are above the threshold.
  unfoldable pub skip_big_shards : ℕ → (Shard Cid → ℕ) → List (Shard Cid) → List (Shard Cid)
  skip_big_shards big size [] = []
  skip_big_shards big size (sh ∷ shs) =
      let rest = skip_big_shards big size shs in if ltb big (size sh) then rest else sh ∷ shs
