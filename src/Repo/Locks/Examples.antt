-- ===== src/Repo/Locks/Examples.antt =====
-- Two calls for actor 5: the first has its lock, the second waits for it.
use referendum_services.Prelude.{ℕ, some, [], ◌∷◌, ◌++◌, none, ◌≡◌, refl, suc, All, ◌⊎◌, ◌↔◌}
use referendum_services.Repo.Locks.{
  idle, waiting, holding, System, Step, Reach, start, later, enters, acquires, enter, acquire,
  no_locks,
}
use referendum_services.Repo.Locks.Counts.{total, steps_left}
use referendum_services.Repo.Locks.Safety.{mutual_exclusion, uses, entry_iff}
use referendum_services.Repo.Locks.Progress.{IsFinished, locks_progress}

abbrev contended : System
contended = record {
  locks = (enter 5 (acquire 0 (enter 5 no_locks).1)).1;
  callers = holding 5 0 ∷ waiting 5 0 ∷ [];
}

contended-Reach : Reach (5 ∷ 5 ∷ []) contended
unfolding enter acquire
contended-Reach =
    later
      (later (later start (enters [] (idle 5 ∷ []) 5 refl)) (acquires [] (idle 5 ∷ []) 5 0 refl))
      (enters (holding 5 0 ∷ []) [] 5 refl)

mutual_exclusion_example : ¬ (contended.callers ≡ [] ++ (holding 5 0 ∷ ([] ++ (holding 5 0 ∷ []))))
mutual_exclusion_example = mutual_exclusion (5 ∷ 5 ∷ []) contended contended-Reach [] [] [] 5 0 0

entry_iff_example :
    ((contended.locks.actor_locks 5 ≡ none) ↔ (total (uses 5) contended.callers ≡ 0))
    × ((o : ℕ)
        → contended.locks.actor_locks 5 ≡ some o
        → contended.locks.count o ≡ total (uses 5) contended.callers)
entry_iff_example = entry_iff (5 ∷ 5 ∷ []) contended contended-Reach 5

locks_progress_example :
    (All IsFinished contended.callers ⊎ ((t : System) × Step contended t))
    × ((t : System)
        → Step contended t
        → suc (total steps_left t.callers) ≡ total steps_left contended.callers)
locks_progress_example = locks_progress (5 ∷ 5 ∷ []) contended contended-Reach
