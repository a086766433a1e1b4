-- ===== src/Car/Import.antt =====
-- internal/car/store.go: ImportSlice, which puts the blocks of a CAR file into a new session, and
-- CalcDiff, which finds what the session drops. The CAR reader is a parameter: what the file's header
-- says and what its `Next` returns until it fails, at the end of the file or before.
pub mod Facts
mod Examples
use referendum_services.Prelude.{
  ℕ, String, List, [], ◌∷◌, Option, none, some, Bool, true, false, ◌⊎◌, inl, inr,
}
use referendum_services.Prelude.Dict.{Dict}
use referendum_services.Car.Shard.{Bytes}
use referendum_services.Car.Session.{
  StoreError, DeltaSession, Store, Backend, put_block, get_block, new_delta_session,
}
use referendum_services.Car.Diff.{DiffError, block_diff}

-- What reading a CAR file gives: the roots, the blocks, and whether it ended with io.EOF.
pub record CarFile (Cid Block : Type 0) : Type 0 where
  pub roots : List Cid
  pub blocks : List Block
  pub at_eof : Bool

pub data ImportError : Type 0 where
  bad_header bad_roots bad_block : ImportError
  session_failed : StoreError → ImportError

module _ {Cid Block : Type 0} (dec : Discrete Cid) where
  module _ (cid_of : Block → Cid) where
    abbrev pub put_rest :
        (DeltaSession Cid Block → ImportError ⊎ DeltaSession Cid Block)
        → StoreError ⊎ DeltaSession Cid Block
        → ImportError ⊎ DeltaSession Cid Block
    put_rest next (inl x) = inl (session_failed x)
    put_rest next (inr ds) = next ds

    -- The loop over the file's blocks.
    unfoldable pub put_blocks :
        List Block → Bool → DeltaSession Cid Block → ImportError ⊎ DeltaSession Cid Block
    unfolding put_block
    put_blocks [] true ds = inr ds
    put_blocks [] false ds = inl bad_block
    put_blocks (b ∷ bs) eof ds = put_rest (put_blocks bs eof) (put_block dec cid_of b ds)

    abbrev pub rooted :
        Cid → ImportError ⊎ DeltaSession Cid Block → ImportError ⊎ (Cid × DeltaSession Cid Block)
    rooted root (inl x) = inl x
    rooted root (inr ds) = inr (root, ds)

    module _ {S : Type 0} (back : Backend Cid S) (aid_dec : Discrete ℕ) where
      abbrev pub import_on :
          Cid
          → CarFile Cid Block
          → (StoreError ⊎ DeltaSession Cid Block) × Store Cid S
          → (ImportError ⊎ (Cid × DeltaSession Cid Block)) × Store Cid S
      import_on root car (inl x, st) = (inl (session_failed x), st)
      import_on root car (inr ds, st) = (rooted root (put_blocks car.blocks car.at_eof ds), st)

      abbrev pub import_roots :
          ℕ
          → Option String
          → CarFile Cid Block
          → List Cid
          → Store Cid S
          → (ImportError ⊎ (Cid × DeltaSession Cid Block)) × Store Cid S
      import_roots aid since car (root ∷ []) st =
          import_on root car (new_delta_session back aid_dec aid since st)
      import_roots aid since car _ st = (inl bad_roots, st)

      abbrev pub import_car :
          ℕ
          → Option String
          → Option (CarFile Cid Block)
          → Store Cid S
          → (ImportError ⊎ (Cid × DeltaSession Cid Block)) × Store Cid S
      import_car aid since none st = (inl bad_header, st)
      import_car aid since (some car) st = import_roots aid since car car.roots st

      unfoldable pub import_slice :
          (Bytes → Option (CarFile Cid Block))
          → ℕ
          → Option String
          → Bytes
          → Store Cid S
          → (ImportError ⊎ (Cid × DeltaSession Cid Block)) × Store Cid S
      unfolding put_blocks new_delta_session
      import_slice read_car aid since slice st = import_car aid since (read_car slice) st

  module _ (base : Cid → StoreError ⊎ Block) (scan : Block → Option (List Cid))
      (is_cbor is_defined : Cid → Bool) where
    abbrev pub found : StoreError ⊎ Block → Option Block
    found (inl x) = none
    found (inr b) = some b

    abbrev pub with_rmcids :
        DeltaSession Cid Block
        → Option (DiffError ⊎ Dict Cid Bool)
        → Option (DiffError ⊎ DeltaSession Cid Block)
    with_rmcids ds none = none
    with_rmcids ds (some (inl x)) = some (inl x)
    with_rmcids ds (some (inr rm)) = some (inr (record ds { rmcids = rm }))

    -- `CalcDiff`, with BlockDiff's rounds.
    unfoldable pub calc_diff :
        ℕ → DeltaSession Cid Block → Option (DiffError ⊎ DeltaSession Cid Block)
    unfolding get_block block_diff
    calc_diff n ds = with_rmcids ds (
        block_diff dec (λ c. found (get_block dec base c ds)) scan is_cbor is_defined n ds.base_cid
          ds.blks)
