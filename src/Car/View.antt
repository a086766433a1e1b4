-- ===== src/Car/View.antt =====
-- internal/car/user_view.go: the view of an actor's stored blocks that is the base of its sessions. The
-- queries of the database, the file store's objects and the readers of CAR data are parameters; the cache
-- of the view is passed from call to call. Metrics are left out.
pub mod Named
mod Examples
use referendum_services.Prelude.{
  ℕ, zero, suc, String, List, [], ◌∷◌, Option, none, some, Bool, true, false, ◌⊎◌, inl, inr, ◌&&◌,
  ◌==◌, not, ltb, min, length, str_eq, if◌then◌else◌, ite, ◌≡◌,
}
use referendum_services.Prelude.Dict.{Dict, get, put}
use referendum_services.Car.Shard.{Bytes}

pub data ViewError : Type 0 where
  undefined_cid lookup_failed no_block no_object not_skipped no_node wrong_cid bad_block bad_car
        not_in_car :
      ViewError

-- How a Read ends: with more to come, with io.EOF, or with another error.
pub data ReadEnd : Type 0 where
  more eof broken : ReadEnd

-- What the row of a block says: the file's path, the offset in it, and the actor.
pub record Place : Type 0 where
  pub path : String
  pub offset : ℕ
  pub actor : ℕ

pub record Source (Cid Block Body : Type 0) : Type 0 where
  pub dec : Discrete Cid
  pub is_defined : Cid → Bool
  pub cid_of : Block → Cid
  pub raw : Block → Bytes
  -- LookupBlockRef and HasAidCid
  pub lookup : Cid → Option Place
  pub has_aid_cid : ℕ → Cid → Option Bool
  -- readFile, whole or from an offset on: the object's length and its body
  pub read_file : String → Option ℕ → Option (ℕ × Body)
  pub is_seeker : Body → Bool
  pub seek : Body → ℕ → Option Body
  pub read : Body → ℕ → ℕ × ReadEnd × Body
  -- carutil.ReadNode, NewBlockWithCid, and the blocks that car.NewCarReader's `Next` gives until it fails,
  -- with io.EOF or not
  pub read_node : Body → Option (Cid × Bytes)
  pub new_block : Bytes → Cid → Option Block
  pub read_car : Body → Option (List Block × Bool)

module _ {Cid Block Body : Type 0} (src : Source Cid Block Body) where
  abbrev pub Cache : Type 0
  Cache = Dict Cid Block

  abbrev pub built : Option Block → ViewError ⊎ Block
  built none = inl bad_block
  built (some b) = inr b

  abbrev pub node_block : Cid → Option (Cid × Bytes) → ViewError ⊎ Block
  node_block k none = inl no_node
  node_block k (some (c, raw)) = ite (src.dec c k) (built (src.new_block raw c)) (inl wrong_cid)

  -- `doBlockRead`
  unfoldable pub do_block_read : Body → Cid → ViewError ⊎ Block
  do_block_read body k = node_block k (src.read_node body)

  -- The loop of offsetBytes: the count of what it has skipped is declared anew inside, so the one
  -- outside, which the condition reads, stays 0. `none` if `n` rounds are not enough.
  abbrev pub on_read : ℕ → (Body → Option (Option Body)) → ℕ × ReadEnd × Body → Option (Option Body)
  on_read offset next (k, more, body) = next body
  on_read offset next (k, eof, body) = if k == offset then some (some body) else some none
  on_read offset next (k, broken, body) = some none

  unfoldable pub skip_bytes : ℕ → ℕ → Body → Option (Option Body)
  skip_bytes zero offset body = none
  skip_bytes (suc n) offset body =
      let next = λ (b : Body). skip_bytes n offset b in
      if ltb 0 offset
      then on_read offset next (src.read body (min 8192 offset))
      else some (some body)

  -- `offsetBytes`
  unfoldable pub offset_bytes : ℕ → Body → ℕ → Option (Option Body)
  unfolding skip_bytes
  offset_bytes n body offset =
      if src.is_seeker body then some (src.seek body offset) else skip_bytes n offset body

  abbrev pub Viewed : Type 0
  Viewed = Option ((ViewError ⊎ Block) × Cache)

  abbrev pub skipped_read : Cid → Cache → Option (Option Body) → Viewed
  skipped_read k d none = none
  skipped_read k d (some none) = some (inl not_skipped, d)
  skipped_read k d (some (some body)) = some (do_block_read body k, d)

  abbrev pub cache_all : List Block → Cache → Cache
  cache_all [] d = d
  cache_all (b ∷ bs) d = cache_all bs (put src.dec d (src.cid_of b) b)

  abbrev pub in_cache : Option Block → ViewError ⊎ Block
  in_cache none = inl not_in_car
  in_cache (some b) = inr b

  abbrev pub car_read : Cid → Cache → Option (List Block × Bool) → (ViewError ⊎ Block) × Cache
  car_read k d none = (inl bad_car, d)
  car_read k d (some (bs, false)) = (inl bad_car, cache_all bs d)
  car_read k d (some (bs, true)) = (in_cache (get src.dec (cache_all bs d) k), cache_all bs d)

  -- prefetchThreshold
  abbrev pub threshold : ℕ
  threshold = 524288

  abbrev pub of_object : ℕ → Cid → ℕ → Cache → Option (ℕ × Body) → Viewed
  of_object n k offset d none = some (inl no_object, d)
  of_object n k offset d (some (size, body)) =
      if ltb threshold size
      then skipped_read k d (offset_bytes n body offset)
      else some (car_read k d (src.read_car body))

  -- `prefetchRead`
  unfoldable pub prefetch_read : ℕ → Cid → String → ℕ → Cache → Viewed
  unfolding offset_bytes do_block_read get put
  prefetch_read n k path offset d = of_object n k offset d (src.read_file path none)

  abbrev pub of_range : Cid → Option (ℕ × Body) → ViewError ⊎ Block
  of_range k none = inl no_object
  of_range k (some (size, body)) = do_block_read body k

  -- `singleRead`
  unfoldable pub single_read : Cid → String → ℕ → ViewError ⊎ Block
  unfolding do_block_read
  single_read k path offset = of_range k (src.read_file path (some offset))

  module _ (rounds actor : ℕ) (prefetch : Bool) where
    abbrev pub at_place : Cid → Cache → Option Place → Viewed
    at_place k d none = some (inl lookup_failed, d)
    at_place k d (some p) =
        if str_eq p.path ""
        then some (inl no_block, d)
        else if prefetch && (p.actor == actor)
        then prefetch_read rounds k p.path p.offset d
        else some (single_read k p.path p.offset, d)

    abbrev pub from_cache : Cid → Cache → Option Block → Viewed
    from_cache k d (some b) = some (inr b, d)
    from_cache k d none = at_place k d (src.lookup k)

    -- `Get` of the view: only the files of its own actor are read ahead.
    unfoldable pub view_get : Cid → Cache → Viewed
    unfolding get prefetch_read single_read
    view_get k d =
        if src.is_defined k then from_cache k d (get src.dec d k) else some (inl undefined_cid, d)

    abbrev pub known : Cid → Option Block → Option Bool
    known k (some b) = some true
    known k none = src.has_aid_cid actor k

    -- `Has` of the view
    unfoldable pub view_has : Cid → Cache → Option Bool
    unfolding get
    view_has k d = known k (get src.dec d k)

    abbrev pub measured : Viewed → Option ((ViewError ⊎ ℕ) × Cache)
    measured none = none
    measured (some (inl x, d)) = some (inl x, d)
    measured (some (inr b, d)) = some (inr (length (src.raw b)), d)

    -- `GetSize` of the view
    unfoldable pub view_get_size : Cid → Cache → Option ((ViewError ⊎ ℕ) × Cache)
    unfolding view_get
    view_get_size k d = measured (view_get k d)
