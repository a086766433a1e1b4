-- ===== src/Repo/Walk.antt =====
-- internal/repo/manager.go: walkTree, the walk over the blocks that a CAR file brought. The blockstore, the
-- CBOR scanner and the codec of a CID are parameters. The skip map is shared by all calls, so it is passed
-- from each to the next, and skip[c] is read as in BlockDiff; the recursion is on fuel, and no fuel gives `none`.
pub mod Marks
pub mod Loop
pub mod Exact
pub mod Total
mod Examples
use referendum_services.Prelude.{
  ℕ, zero, suc, List, [], ◌∷◌, ◌++◌, Option, none, some, Bool, true, false, ◌⊎◌, inl, inr, ◌&&◌,
  not, if◌then◌else◌,
}
use referendum_services.Prelude.Dict.{Dict, put}
use referendum_services.Car.Diff.{marked}

-- What the store answers: an error that is ErrNotFound, another error, or the block.
pub data Fetched (Block : Type 0) : Type 0 where
  missing unreadable : Fetched Block
  got : Block → Fetched Block

pub data WalkError : Type 0 where
  not_cbor not_found not_read bad_cbor : WalkError

-- ipld.IsNotFound
abbrev pub is_not_found : WalkError → Bool
is_not_found not_cbor = false
is_not_found not_found = true
is_not_found not_read = false
is_not_found bad_cbor = false

-- `scan` gives the links that the scanner calls back with, and whether it reads to the end.
pub record Blocks (Cid Block : Type 0) : Type 0 where
  pub dec : Discrete Cid
  pub is_cbor : Cid → Bool
  pub is_raw : Cid → Bool
  pub fetch : Cid → Fetched Block
  pub scan : Block → List Cid × Bool

module _ {Cid Block : Type 0} (bs : Blocks Cid Block) where
  abbrev pub Skip : Type 0
  Skip = Dict Cid Bool

  abbrev pub with_link : Cid → List Cid × Skip → List Cid × Skip
  with_link c (links, d) = (c ∷ links, d)

  -- The scanner's callback, for one link after another.
  unfoldable pub take_links : List Cid → Skip → List Cid × Skip
  unfolding marked put
  take_links [] d = ([], d)
  take_links (c ∷ cs) d =
      let passed = take_links cs d in
      let taken = take_links cs (put bs.dec d c true) in
      if bs.is_raw c then passed else if marked bs.dec d c then passed else with_link c taken

  abbrev pub Walked : Type 0
  Walked = Option ((WalkError ⊎ List Cid) × Skip)

  abbrev pub after_child : Bool → List Cid → (List Cid → Skip → Walked) → Walked → Walked
  after_child prev_missing out next none = none
  after_child prev_missing out next (some (inl x, d)) =
      if prev_missing && not (is_not_found x) then some (inl x, d) else next out d
  after_child prev_missing out next (some (inr sub, d)) = next (out ++ sub) d

  -- The loop over the links.
  abbrev pub walk_all : (Skip → Cid → Walked) → Bool → List Cid → List Cid → Skip → Walked
  walk_all walk prev_missing [] out d = some (inr out, d)
  walk_all walk prev_missing (c ∷ cs) out d =
      after_child prev_missing out (λ out' d'. walk_all walk prev_missing cs out' d') (walk d c)

  abbrev pub on_scanned : (Skip → Cid → Walked) → Bool → Cid → Bool → List Cid × Skip → Walked
  on_scanned walk prev_missing root true (links, d) =
      walk_all walk prev_missing links (root ∷ []) (put bs.dec d root true)
  on_scanned walk prev_missing root false (links, d) = some (inl bad_cbor, d)

  abbrev pub on_fetched : (Skip → Cid → Walked) → Bool → Cid → Skip → Fetched Block → Walked
  on_fetched walk prev_missing root d missing = some (inl not_found, d)
  on_fetched walk prev_missing root d unreadable = some (inl not_read, d)
  on_fetched walk prev_missing root d (got b) =
      on_scanned walk prev_missing root (bs.scan b).1 (take_links (bs.scan b).0 d)

  unfoldable pub walk_tree : ℕ → Bool → Skip → Cid → Walked
  unfolding take_links put
  walk_tree zero prev_missing d root = none
  walk_tree (suc n) prev_missing d root =
      let children = λ (d' : Skip) (c : Cid). walk_tree n prev_missing d' c in
      if not (bs.is_cbor root)
      then some (inl not_cbor, d)
      else on_fetched children prev_missing root d (bs.fetch root)
