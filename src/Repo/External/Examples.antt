-- ===== src/Repo/External/Examples.antt =====
-- An event of another server for actor 5, with a slice of the root 3 and no blocks.
use referendum_services.Prelude.{
  ℕ, List, [], ◌∷◌, Option, none, some, Bool, true, ◌≡◌, refl, inl, inr,
}
use referendum_services.Car.Shard.{Bytes}
use referendum_services.Car.Import.{CarFile}
use referendum_services.Repo.Manager.Examples.{Stored}
use referendum_services.Repo.External.{RepoOp, split_path}

abbrev car : Bytes → Option (CarFile ℕ Stored)
car b = some (record { roots = 3 ∷ []; blocks = []; at_eof = true })

abbrev first_byte : Stored → ℕ
first_byte (inl []) = 0
first_byte (inl (b ∷ bs)) = b
first_byte (inr c) = c.data_cid

abbrev no_links : Stored → Option (List ℕ)
no_links b = some []

abbrev cbor : ℕ → Bool
cbor c = true

abbrev ops : List (RepoOp ℕ)
ops = record { action = "delete"; path = "a/1"; cid = none } ∷ []

split_two : split_path "a/b/c" ≡ some ("a", "b/c")
unfolding split_path
split_two = refl
