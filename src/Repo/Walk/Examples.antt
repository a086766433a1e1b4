-- ===== src/Repo/Walk/Examples.antt =====
-- Walks over a store of four blocks: a CID is a number, its block holds the CIDs it links to, the block 2
-- is missing, and the CIDs from 10 on are raw.
use referendum_services.Prelude.{
  ℕ, zero, suc, ◌+◌, ◌<◌, List, [], ◌∷◌, some, true, ◌⊎◌, inr, ◌≡◌, refl, ltb, not, if◌then◌else◌,
  arith, ◌↔◌, ℕ_discrete, All, subst, sym,
}
use referendum_services.Repo.Walk.{Blocks, Fetched, missing, got, WalkError, Skip, walk_tree}
use referendum_services.Repo.Walk.Loop.{Route}
use referendum_services.Repo.Walk.Exact.{walk_tree_exact}
use referendum_services.Repo.Walk.Total.{walk_tree_total}
use mathlib.Core.List.Memᴰ.{Memᴰ, head, tail}

abbrev block_of : ℕ → Fetched (List ℕ)
block_of zero = got []
block_of (suc zero) = got (0 ∷ 10 ∷ [])
block_of (suc (suc zero)) = missing
block_of (suc (suc (suc zero))) = got (1 ∷ 2 ∷ 0 ∷ [])
block_of (suc (suc (suc (suc n)))) = missing

abbrev store : Blocks ℕ (List ℕ)
store = record {
  dec = ℕ_discrete;
  is_cbor = λ c. ltb c 10;
  is_raw = λ c. not (ltb c 10);
  fetch = block_of;
  scan = λ b. (b, true);
}

walked :
    walk_tree store 20 true [] 3
    ≡ some (inr (3 ∷ 1 ∷ 0 ∷ []), (1, true) ∷ (2, true) ∷ (0, true) ∷ (3, true) ∷ [])
unfolding walk_tree ℕ_discrete
walked = refl

walk_tree_exact_example : Memᴰ {A = ℕ} 0 (3 ∷ 1 ∷ 0 ∷ []) ↔ Route store 3 0
walk_tree_exact_example =
    walk_tree_exact store 20 3 (3 ∷ 1 ∷ 0 ∷ []) ((1, true) ∷ (2, true) ∷ (0, true) ∷ (3, true) ∷ [])
      walked 0

-- A raw CID has no links: it is the lowest.
abbrev height_of : ℕ → ℕ
height_of c = if ltb c 10 then c + 1 else 0

all_lower : (a : ℕ) (b : List ℕ) → block_of a ≡ got b → All (λ c. height_of c < height_of a) b
all_lower zero b e =
    let same : [] ≡ b = ground (arith, e) in
    subst (λ l. All (λ c. height_of c < height_of 0) l) same tt
all_lower (suc zero) b e =
    let same : 0 ∷ 10 ∷ [] ≡ b = ground (arith, e) in
    subst (λ l. All (λ c. height_of c < height_of 1) l) same (omega arith, (omega arith, tt))
all_lower (suc (suc zero)) b e = absurd (ground (arith, e))
all_lower (suc (suc (suc zero))) b e =
    let same : 1 ∷ 2 ∷ 0 ∷ [] ≡ b = ground (arith, e) in
    subst (λ l. All (λ c. height_of c < height_of 3) l) same
      (omega arith, (omega arith, (omega arith, tt)))
all_lower (suc (suc (suc (suc n)))) b e = absurd (ground (arith, e))

one_of : (P : ℕ → Type 0) (b : List ℕ) → All P b → (c : ℕ) → Memᴰ c b → P c
one_of P (x ∷ b) h c (head p) = subst P (sym p) h.0
one_of P (x ∷ b) h c (tail m) = one_of P b h.1 c m
one_of P [] h c m = elim m [ ]

walk_tree_total_example :
    (x : (WalkError ⊎ List ℕ) × Skip store) × (walk_tree store 20 true [] 3 ≡ some x)
walk_tree_total_example =
    walk_tree_total store height_of
      (λ a c b e m. one_of (λ j. height_of j < height_of a) b (all_lower a b e) c m) 20 true [] 3
      (omega arith)
