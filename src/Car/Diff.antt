-- ===== src/Car/Diff.antt =====
-- internal/car/store.go: BlockDiff and CalcDiff. The block store, the link scanner of the CBOR library
-- and the tests on CIDs are parameters. A `map[cid.Cid]bool` is a dictionary of Booleans.
pub mod Visit
pub mod Reach
pub mod Outcome
mod Examples
use referendum_services.Prelude.{
  ℕ, zero, suc, List, [], ◌∷◌, ◌++◌, Option, none, some, Bool, true, false, ◌⊎◌, inl, inr, ◌&&◌,
  not, if◌then◌else◌,
}
use referendum_services.Prelude.Dict.{Dict, get, put}

pub data DiffError : Type 0 where
  get_failed scan_failed cid_not_found : DiffError

-- The value of a key: false where it is missing.
abbrev pub is_marked : Option Bool → Bool
is_marked none = false
is_marked (some b) = b

module _ {Cid : Type 0} (dec : Discrete Cid) where
  -- `keepset[c]`.
  unfoldable pub marked : Dict Cid Bool → Cid → Bool
  unfolding get
  marked d c = is_marked (get dec d c)

  unfoldable pub mark_all : Dict Cid Bool → List Cid → Dict Cid Bool
  mark_all d [] = d
  mark_all d (c ∷ cs) = mark_all (put dec d c true) cs

  module _ (is_cbor : Cid → Bool) where
    -- The callback of the second loop: the set of dropped CIDs and the queue.
    unfoldable pub visit_link :
        Dict Cid Bool → Cid → Dict Cid Bool × List Cid → Dict Cid Bool × List Cid
    unfolding marked
    visit_link keep l (drop, queue) =
        if not (is_cbor l)
        then (drop, queue)
        else if not (marked keep l)
        then (put dec drop l true, queue ++ l ∷ [])
        else (drop, queue)

    unfoldable pub visit :
        Dict Cid Bool → List Cid → Dict Cid Bool × List Cid → Dict Cid Bool × List Cid
    unfolding visit_link
    visit keep [] s = s
    visit keep (l ∷ ls) s = visit keep ls (visit_link keep l s)

  module _ {Block : Type 0} (bs : Cid → Option Block) (scan : Block → Option (List Cid)) where
    abbrev scanned : Option (List Cid) → DiffError ⊎ List Cid
    scanned none = inl scan_failed
    scanned (some ls) = inr ls

    abbrev got : Option Block → DiffError ⊎ List Cid
    got none = inl get_failed
    got (some b) = scanned (scan b)

    -- `bs.Get`, then `cbg.ScanForLinks`: the links of a block.
    unfoldable pub read_links : Cid → DiffError ⊎ List Cid
    read_links c = got (bs c)

    abbrev pub and_then : {A C : Type 0} → (A → DiffError ⊎ C) → DiffError ⊎ A → DiffError ⊎ C
    and_then f (inl e) = inl e
    and_then f (inr a) = f a

    -- The first loop: a new CID and what its block links to.
    unfoldable pub keep_new : List Cid → Dict Cid Bool → DiffError ⊎ Dict Cid Bool
    unfolding read_links mark_all
    keep_new [] keep = inr keep
    keep_new (c ∷ cs) keep =
        and_then (λ ls. keep_new cs (mark_all (put dec keep c true) ls)) (read_links c)

    abbrev pub keys : Dict Cid Block → List Cid
    keys [] = []
    keys ((c, b) ∷ d) = c ∷ keys d

    module _ (is_cbor : Cid → Bool) where
      abbrev pub walk_on :
          (Dict Cid Bool → List Cid → Option (DiffError ⊎ Dict Cid Bool))
          → Dict Cid Bool
          → Dict Cid Bool
          → List Cid
          → DiffError ⊎ List Cid
          → Option (DiffError ⊎ Dict Cid Bool)
      walk_on next keep drop queue (inl e) = some (inl e)
      walk_on next keep drop queue (inr ls) =
          let s = visit is_cbor keep ls (drop, queue) in next s.0 s.1

      -- The second loop, for `n` rounds at most; `none` says that they did not suffice.
      unfoldable pub walk :
          ℕ → Dict Cid Bool → Dict Cid Bool → List Cid → Option (DiffError ⊎ Dict Cid Bool)
      unfolding read_links visit
      walk n keep drop [] = some (inr drop)
      walk zero keep drop (c ∷ queue) = none
      walk (suc n) keep drop (c ∷ queue) = walk_on (walk n keep) keep drop queue (read_links c)

      abbrev pub diff_from :
          ℕ → Cid → DiffError ⊎ Dict Cid Bool → Option (DiffError ⊎ Dict Cid Bool)
      diff_from n oldroot (inl e) = some (inl e)
      diff_from n oldroot (inr keep) =
          if marked keep oldroot
          then some (inl cid_not_found)
          else walk n keep (put dec [] oldroot true) (oldroot ∷ [])

      unfoldable pub block_diff :
          (Cid → Bool) → ℕ → Cid → Dict Cid Block → Option (DiffError ⊎ Dict Cid Bool)
      unfolding marked keep_new walk
      block_diff is_defined n oldroot newcids =
          if not (is_defined oldroot)
          then some (inr [])
          else diff_from n oldroot (keep_new (keys newcids) [])
