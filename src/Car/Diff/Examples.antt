-- ===== src/Car/Diff/Examples.antt =====
-- Two trees: 1 links to 2 and 3, 3 to 4; the new root 5 links to 2 and to the new block 6.
use referendum_services.Prelude.{
  ℕ, List, [], ◌∷◌, Option, some, Bool, true, false, ◌≡◌, refl, inr, arith, ℕ_discrete, is_some,
  ◌==◌, if◌then◌else◌, ◌↔◌,
}
use referendum_services.Prelude.Dict.{Dict, put}
use referendum_services.Car.Diff.{block_diff, marked, keys, read_links}
use referendum_services.Car.Diff.Reach.{Reaches, IsKept}
use referendum_services.Car.Diff.Outcome.{IsWeight, block_diff-total, block_diff-Reaches}

abbrev blocks : ℕ → Option (List ℕ)
blocks c =
    if c == 1
    then some (2 ∷ 3 ∷ [])
    else if c == 3
    then some (4 ∷ [])
    else if c == 5
    then some (2 ∷ 6 ∷ [])
    else some []

abbrev scan_links : List ℕ → Option (List ℕ)
scan_links ls = some ls

abbrev always : ℕ → Bool
always c = true

abbrev news : Dict ℕ (List ℕ)
news = (5, 2 ∷ 6 ∷ []) ∷ (6, []) ∷ []

abbrev weigh : ℕ → ℕ
weigh c = if c == 1 then 4 else if c == 3 then 2 else if c == 5 then 3 else 1

weigh-IsWeight : IsWeight ℕ_discrete blocks scan_links always weigh
unfolding read_links
weigh-IsWeight c = (ground arith, λ ls e. ground arith)

abbrev dropped : Dict ℕ Bool
dropped = (1, true) ∷ (3, true) ∷ (4, true) ∷ []

run : block_diff ℕ_discrete blocks scan_links always always 4 1 news ≡ some (inr dropped)
unfolding block_diff put ℕ_discrete
run = refl

block_diff-total_example :
    is_some (block_diff ℕ_discrete blocks scan_links always always 4 1 news) ≡ true
block_diff-total_example =
    block_diff-total ℕ_discrete blocks scan_links always weigh always 4 1 news weigh-IsWeight
      (omega arith)

block_diff-Reaches_example :
    (keep : Dict ℕ Bool) × ((c : ℕ)
      → (marked ℕ_discrete keep c ≡ true)
        ↔ IsKept ℕ_discrete blocks scan_links always (keys ℕ_discrete blocks scan_links news) c)
    × (marked ℕ_discrete keep 1 ≡ false)
    × ((c : ℕ)
        → (marked ℕ_discrete dropped c ≡ true)
          ↔ Reaches ℕ_discrete blocks scan_links always keep 1 c)
block_diff-Reaches_example =
    block_diff-Reaches ℕ_discrete blocks scan_links always always 4 1 news dropped refl run
