-- ===== src/Repo/Locks/Progress.antt =====
-- Which steps callers can take, and how many are left.
use referendum_services.Prelude.{
  ℕ, zero, suc, ◌≤◌, List, [], ◌∷◌, ◌++◌, false, ◌≡◌, refl, sym, ap, arith, All, ◌⊎◌, inl, inr,
  subst, Bool-cases,
}
use referendum_services.Repo.Locks.{
  Locks, Phase, idle, waiting, holding, releasing, finished, System, Step, enters, acquires,
  unlocks, releases, Reach, enter,
}
use referendum_services.Repo.Locks.Counts.{
  total, total_nil, total-cons, total-append, holds, frees, steps_left,
}
use referendum_services.Repo.Locks.Invariant.{IsValid, Reach-IsValid}

abbrev pub IsFinished : Phase → Type 0
IsFinished p = steps_left p ≡ 0

all-IsFinished : (ps : List Phase) → total steps_left ps ≡ 0 → All IsFinished ps
all-IsFinished [] z = tt
all-IsFinished (p ∷ ps) z =
    let e = total-cons steps_left p ps in
    (omega (arith, e, z), all-IsFinished ps (omega (arith, e, z)))

-- A caller in a list, with those before and after it.
abbrev Found : (Phase → ℕ) → List Phase → Type 0
Found f ps =
    (pre : List Phase) × (p : Phase) × (post : List Phase) × (ps ≡ pre ++ (p ∷ post)) × (1 ≤ f p)

found : (f : Phase → ℕ) (ps : List Phase) → 1 ≤ total f ps → Found f ps
found f [] h = absurd (omega (arith, total_nil f))
found f (p ∷ ps) h = here (f p) refl (λ more. found f ps more)
  where
    here : (n : ℕ) → f p ≡ n → (1 ≤ total f ps → Found f ps) → Found f (p ∷ ps)
    here (suc n) e later = ([], p, ps, refl, omega arith)
    here zero e later =
        let (pre, q, post, split, one) = later (omega (arith, total-cons f p ps)) in
        (p ∷ pre, q, post, ap (◌∷◌ p) split, one)

abbrev CanStep : System → Type 0
CanStep s = (t : System) × Step s t

from_split :
    (l : Locks) (ps pre post : List Phase) (p : Phase)
    → ps ≡ pre ++ (p ∷ post)
    → CanStep (record { locks = l; callers = pre ++ (p ∷ post) })
    → CanStep (record { locks = l; callers = ps })
from_split l ps pre post p e = subst (λ cs. CanStep (record { locks = l; callers = cs })) (sym e)

can_release :
    (l : Locks) (ps : List Phase)
    → 1 ≤ total frees ps
    → CanStep (record { locks = l; callers = ps })
can_release l ps h =
    let (pre, p, post, e, one) = found frees ps h in
    from_split l ps pre post p e (go p pre post one)
  where
    go :
        (p : Phase) (pre post : List Phase)
        → 1 ≤ frees p
        → CanStep (record { locks = l; callers = pre ++ (p ∷ post) })
    go (idle a) pre post one = absurd (omega arith)
    go (waiting a o) pre post one = absurd (omega arith)
    go (holding a o) pre post one = absurd (omega arith)
    go (releasing a o) pre post one = (_, releases pre post a o)
    go finished pre post one = absurd (omega arith)

can_unlock :
    (l : Locks) (ps : List Phase) (o : ℕ)
    → l.lklk ≡ false
    → 1 ≤ total (holds o) ps
    → CanStep (record { locks = l; callers = ps })
can_unlock l ps o free h =
    let (pre, p, post, e, one) = found (holds o) ps h in
    from_split l ps pre post p e (go p pre post one)
  where
    go :
        (p : Phase) (pre post : List Phase)
        → 1 ≤ holds o p
        → CanStep (record { locks = l; callers = pre ++ (p ∷ post) })
    go (idle a) pre post one = absurd (omega arith)
    go (waiting a k) pre post one = absurd (omega arith)
    go (holding a k) pre post one = (_, unlocks pre post a k free)
    go (releasing a k) pre post one = absurd (omega arith)
    go finished pre post one = absurd (omega arith)

can_step :
    (l : Locks) (ps : List Phase)
    → IsValid l ps
    → 1 ≤ total steps_left ps
    → CanStep (record { locks = l; callers = ps })
can_step l ps v h = elim (Bool-cases l.lklk) [
  | inl t ↦ can_release l ps (ground (arith, v.guarded, t))
  | inr free ↦ let (pre, p, post, e, one) = found steps_left ps h in go free p pre post e one
]
  where
    waits :
        (a o : ℕ) (pre post : List Phase)
        → l.lklk ≡ false
        → ps ≡ pre ++ (waiting a o ∷ post)
        → CanStep (record { locks = l; callers = ps })
    waits a o pre post free e = elim (Bool-cases (l.lk o)) [
      | inl t ↦ can_unlock l ps o free (ground (arith, v.single o, t))
      | inr f ↦ from_split l ps pre post (waiting a o) e (_, acquires pre post a o f)
    ]

    go :
        l.lklk ≡ false
        → (p : Phase) (pre post : List Phase) → ps ≡ pre ++ (p ∷ post)
        → 1 ≤ steps_left p
        → CanStep (record { locks = l; callers = ps })
    go free (idle a) pre post e one =
        from_split l ps pre post (idle a) e (_, enters pre post a free)
    go free (waiting a o) pre post e one = waits a o pre post free e
    go free (holding a o) pre post e one =
        from_split l ps pre post (holding a o) e (_, unlocks pre post a o free)
    go free (releasing a o) pre post e one =
        from_split l ps pre post (releasing a o) e (_, releases pre post a o)
    go free finished pre post e one = absurd (omega arith)

fewer : {s t : System} → Step s t → suc (total steps_left t.callers) ≡ total steps_left s.callers
fewer (enters pre post a {l} free) = omega (
  arith,
  total-append steps_left pre (idle a) post,
  total-append steps_left pre (waiting a (enter a l).0) post,
)
fewer (acquires pre post a o free) = omega (
  arith,
  total-append steps_left pre (waiting a o) post,
  total-append steps_left pre (holding a o) post,
)
fewer (unlocks pre post a o free) = omega (
  arith,
  total-append steps_left pre (holding a o) post,
  total-append steps_left pre (releasing a o) post,
)
fewer (releases pre post a o) = omega (
  arith,
  total-append steps_left pre (releasing a o) post,
  total-append steps_left pre finished post,
)

-- In every reachable state either all calls are over or some caller can take a step; and each step leaves
-- one step less to the end of all calls, so that every run comes to this end.
pub locks_progress :
    (actors : List ℕ) (s : System)
    → Reach actors s
    → (All IsFinished s.callers ⊎ ((t : System) × Step s t))
      × ((t : System) → Step s t → suc (total steps_left t.callers) ≡ total steps_left s.callers)
locks_progress actors s r = (go (total steps_left s.callers) refl, λ t x. fewer x)
  where
    go :
        (n : ℕ)
        → total steps_left s.callers ≡ n
        → All IsFinished s.callers ⊎ ((t : System) × Step s t)
    go zero e = inl (all-IsFinished s.callers e)
    go (suc n) e = inr (can_step s.locks s.callers (Reach-IsValid actors s r) (omega arith))
