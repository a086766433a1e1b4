-- ===== src/Repo/Locks/Counts.antt =====
-- How many callers are in a phase.
use referendum_services.Prelude.{
  ℕ, ◌+◌, List, [], ◌∷◌, ◌++◌, ◌≡◌, refl, arith, ◌==◌, if◌then◌else◌, All,
}
use referendum_services.Repo.Locks.{Phase, idle, waiting, holding, releasing, finished}

pub total : (Phase → ℕ) → List Phase → ℕ
total f [] = 0
total f (p ∷ ps) = f p + total f ps

pub total_nil : (f : Phase → ℕ) → total f [] ≡ 0
unfolding total
total_nil f = refl

pub total-cons : (f : Phase → ℕ) (p : Phase) (ps : List Phase) → total f (p ∷ ps) ≡ f p + total f ps
unfolding total
total-cons f p ps = refl

pub total-append :
    (f : Phase → ℕ) (pre : List Phase) (p : Phase) (post : List Phase)
    → total f (pre ++ (p ∷ post)) ≡ f p + (total f pre + total f post)
unfolding total
total-append f [] p post = omega arith
total-append f (x ∷ pre) p post = omega (arith, total-append f pre p post)

-- The caller counts for object `o`; it has locked it; it is inside the returned function.
abbrev pub is_on : ℕ → Phase → ℕ
is_on o (idle a) = 0
is_on o (waiting a o') = if o == o' then 1 else 0
is_on o (holding a o') = if o == o' then 1 else 0
is_on o (releasing a o') = if o == o' then 1 else 0
is_on o finished = 0

abbrev pub holds : ℕ → Phase → ℕ
holds o (idle a) = 0
holds o (waiting a o') = 0
holds o (holding a o') = if o == o' then 1 else 0
holds o (releasing a o') = 0
holds o finished = 0

abbrev pub frees : Phase → ℕ
frees (idle a) = 0
frees (waiting a o) = 0
frees (holding a o) = 0
frees (releasing a o) = 1
frees finished = 0

-- The steps that a caller has left.
abbrev pub steps_left : Phase → ℕ
steps_left (idle a) = 4
steps_left (waiting a o) = 3
steps_left (holding a o) = 2
steps_left (releasing a o) = 1
steps_left finished = 0

pub All-append :
    (P : Phase → Type 0) (pre : List Phase) (p : Phase) (post : List Phase)
    → All P (pre ++ (p ∷ post))
    → All P pre × P p × All P post
All-append P [] p post h = (tt, h.0, h.1)
All-append P (x ∷ pre) p post h = let (a, b, c) = All-append P pre p post h.1 in ((h.0, a), b, c)

pub append-All :
    (P : Phase → Type 0) (pre : List Phase) (p : Phase) (post : List Phase)
    → All P pre
    → P p
    → All P post
    → All P (pre ++ (p ∷ post))
append-All P [] p post a b c = (b, c)
append-All P (x ∷ pre) p post a b c = (a.0, append-All P pre p post a.1 b c)

-- Where no element counts, a property may use that.
pub All-total_zero :
    (P Q : Phase → Type 0) (f : Phase → ℕ) (ps : List Phase)
    → total f ps ≡ 0
    → ((p : Phase) → f p ≡ 0 → P p → Q p)
    → All P ps
    → All Q ps
unfolding total
All-total_zero P Q f [] z g h = tt
All-total_zero P Q f (p ∷ ps) z g h =
    (g p (omega arith) h.0, All-total_zero P Q f ps (omega arith) g h.1)
