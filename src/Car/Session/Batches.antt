-- ===== src/Car/Session/Batches.antt =====
-- PutShardAndRefs writes its references in batches of 2000 inside one transaction.
use referendum_services.Prelude.{
  ℕ, ◌≤◌, List, [], ◌∷◌, Option, none, some, Bool, true, false, ◌≡◌, length, map,
}
use referendum_services.Car.Shard.{Shard, BlockRef}
use referendum_services.Car.Session.{Backend, of_shard, commit_done}

module _ {Cid S : Type 0} (back : Backend Cid S) (insert : BlockRef Cid → S → Option S) where
  abbrev pub insert_on : (S → Option S) → Option S → Option S
  insert_on next none = none
  insert_on next (some s) = next s

  -- The rows, one after another, until one is refused.
  abbrev pub insert_all : List (BlockRef Cid) → S → Option S
  insert_all [] s = some s
  insert_all (r ∷ rs) s = insert_on (insert_all rs) (insert r s)

  -- A statement does what the rows do; where a row is refused it fails.
  abbrev pub Agrees : Option S → Bool × S → Type 0
  Agrees none r = r.0 ≡ false
  Agrees (some s) r = r ≡ (true, s)

  -- A statement that inserts at least one and at most 2000 rows inserts them row by row.
  abbrev pub IsRowwise : Type 0
  IsRowwise =
      (r : BlockRef Cid) (rs : List (BlockRef Cid)) (s : S)
      → length (r ∷ rs) ≤ 2000
      → Agrees (insert_all (r ∷ rs) s) (back.create_batch (r ∷ rs) s)

  -- The transaction row by row: a failure at any place leaves the database as it was before.
  abbrev pub then_commit : ℕ → S → Option S → Option ℕ × S
  then_commit n before none = (none, before)
  then_commit n before (some s) = commit_done back n before (back.commit_tx s)

  abbrev pub then_rows : List (BlockRef Cid) → S → Option ℕ × S → Option ℕ × S
  then_rows refs before (none, s) = (none, before)
  then_rows refs before (some n, s) =
      then_commit n before (insert_all (map (of_shard back n) refs) s)

  abbrev pub by_rows : Shard Cid → List (BlockRef Cid) → S → Option S → Option ℕ × S
  by_rows shard refs before none = (none, before)
  by_rows shard refs before (some s) = then_rows refs before (back.create_shard shard s)
