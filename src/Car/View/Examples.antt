-- ===== src/Car/View/Examples.antt =====
-- Views of one file with two blocks; a block is its bytes and its CID the first of them.
use referendum_services.Prelude.{
  ℕ, [], ◌∷◌, Option, none, some, true, false, ◌⊎◌, inr, ◌≡◌, ◌≢◌, refl, not, ◌==◌, arith,
  ℕ_discrete, ite, sym, ap, ◌∙◌,
}
use referendum_services.Prelude.Dict.{get}
use referendum_services.Car.Shard.{Bytes}
use referendum_services.Car.View.{Source, ViewError, view_get, offset_bytes, broken}
use referendum_services.Car.View.Named.{IsMaker, IsNamed, view_get-IsNamed, offset_bytes-fails}

abbrev first_byte : Bytes → ℕ
first_byte [] = 0
first_byte (b ∷ bs) = b

abbrev checked_block : Bytes → ℕ → Option Bytes
checked_block raw c = ite (ℕ_discrete (first_byte raw) c) (some raw) none

abbrev source : Source ℕ Bytes ℕ
source = record {
  dec = ℕ_discrete;
  is_defined = λ c. not (c == 0);
  cid_of = first_byte;
  raw = λ b. b;
  lookup = λ c. some (record { path = "sh"; offset = 9; actor = 5 });
  has_aid_cid = λ a c. some true;
  read_file = λ p o. some (100, 0);
  is_seeker = λ b. false;
  seek = λ b o. none;
  read = λ b m. (0, broken, b);
  read_node = λ b. some (7, 7 ∷ 1 ∷ []);
  new_block = checked_block;
  read_car = λ b. some ((7 ∷ 1 ∷ []) ∷ (8 ∷ 2 ∷ []) ∷ [], true);
}

source-IsMaker : IsMaker source
source-IsMaker raw c b e = go (ℕ_discrete (first_byte raw) c) e
  where
    go :
        (t : Dec (first_byte raw ≡ c))
        → ◌≡◌ {A = Option Bytes} (ite t (some raw) none) (some b)
        → first_byte b ≡ c
    go (yes p) q = let same : raw ≡ b = ground (arith, q) in ap first_byte (sym same) ∙ p
    go (no n) q = absurd (ground (arith, q))

-- The first read brings both blocks of the file into the cache.
read_ahead :
    view_get source 9 5 true 8 [] ≡ some (inr (8 ∷ 2 ∷ []), (7, 7 ∷ 1 ∷ []) ∷ (8, 8 ∷ 2 ∷ []) ∷ [])
unfolding view_get ℕ_discrete
read_ahead = refl

empty-IsNamed : IsNamed source []
unfolding get
empty-IsNamed k b e = absurd (ground (arith, e))

view_get-IsNamed_example :
    IsNamed source ((7, 7 ∷ 1 ∷ []) ∷ (8, 8 ∷ 2 ∷ []) ∷ [])
    × ((b : Bytes) → ◌≡◌ {A = ViewError ⊎ Bytes} (inr (8 ∷ 2 ∷ [])) (inr b) → first_byte b ≡ 8)
view_get-IsNamed_example =
    view_get-IsNamed source source-IsMaker 9 5 true 8 [] ((7, 7 ∷ 1 ∷ []) ∷ (8, 8 ∷ 2 ∷ []) ∷ [])
      (inr (8 ∷ 2 ∷ [])) empty-IsNamed read_ahead

offset_bytes-fails_example : offset_bytes source 3 0 9000 ≢ some (some 0)
offset_bytes-fails_example =
    offset_bytes-fails source (λ b m. omega arith) 3 0 9000 0 refl (omega arith)
