-- ===== src/Repo/Locks.antt =====
-- internal/repo/manager.go: lockActor, as steps of callers interleaved in any order. A lock of an actor is
-- an object, numbered in the order they are made; the manager's map leads from actors to objects. `lklk` is
-- taken while a caller that unlocks is between its first and its last statement; the short section at the
-- start of lockActor is one step.
pub mod Counts
pub mod Invariant
pub mod Safety
pub mod Progress
mod Examples
use referendum_services.Prelude.{
  ℕ, zero, suc, ◌+◌, ◌-◌, List, [], ◌∷◌, ◌++◌, Option, none, some, Bool, true, false, ◌≡◌, ◌==◌,
  if◌then◌else◌,
}

abbrev pub update : {A : Type 0} → (ℕ → A) → ℕ → A → ℕ → A
update f k v j = if j == k then v else f j

-- The manager's mutex and map, and what each `actorLock` holds.
pub record Locks : Type 0 where
  pub lklk : Bool
  pub actor_locks : ℕ → Option ℕ
  pub lk : ℕ → Bool
  pub count : ℕ → ℕ
  pub fresh : ℕ

-- A call: before it, blocked on its object's mutex, between lockActor's return and the call of the function
-- that it returned, inside that function, and after it. The numbers are the actor and the object.
pub data Phase : Type 0 where
  idle : ℕ → Phase
  waiting holding releasing : ℕ → ℕ → Phase
  finished : Phase

-- The section under `lklk` at the start: the object, and the map with one caller more.
abbrev pub entered : ℕ → Locks → Option ℕ → ℕ × Locks
entered a l (some o) = (o, record l { count = update l.count o (l.count o + 1) })
entered a l none = (
  l.fresh,
  record l {
    actor_locks = update l.actor_locks a (some l.fresh);
    lk = update l.lk l.fresh false;
    count = update l.count l.fresh 1;
    fresh = l.fresh + 1;
  },
)

unfoldable pub enter : ℕ → Locks → ℕ × Locks
enter a l = entered a l (l.actor_locks a)

-- ulk.lk.Lock()
unfoldable pub acquire : ℕ → Locks → Locks
acquire o l = record l { lk = update l.lk o true }

-- rm.lklk.Lock() and ulk.lk.Unlock() of the function that lockActor returns
unfoldable pub unlock : ℕ → Locks → Locks
unlock o l = record l { lklk = true; lk = update l.lk o false }

-- Its rest: the count falls, and at 0 the entry is deleted.
unfoldable pub release : ℕ → ℕ → Locks → Locks
release a o l =
    let n = l.count o - 1 in
    record l {
      lklk = false;
      count = update l.count o n;
      actor_locks = if n == 0 then update l.actor_locks a none else l.actor_locks;
    }

pub record System : Type 0 where
  pub locks : Locks
  pub callers : List Phase

-- One caller takes a step; a blocked one has none.
pub data Step : System → System → Type 0 where
  enters :
      (pre post : List Phase) (a : ℕ) {l : Locks}
      → l.lklk ≡ false
      → Step
          (record { locks = l; callers = pre ++ (idle a ∷ post) })
          (record { locks = (enter a l).1; callers = pre ++ (waiting a (enter a l).0 ∷ post) })
  acquires :
      (pre post : List Phase) (a o : ℕ) {l : Locks}
      → l.lk o ≡ false
      → Step
          (record { locks = l; callers = pre ++ (waiting a o ∷ post) })
          (record { locks = acquire o l; callers = pre ++ (holding a o ∷ post) })
  unlocks :
      (pre post : List Phase) (a o : ℕ) {l : Locks}
      → l.lklk ≡ false
      → Step
          (record { locks = l; callers = pre ++ (holding a o ∷ post) })
          (record { locks = unlock o l; callers = pre ++ (releasing a o ∷ post) })
  releases :
      (pre post : List Phase) (a o : ℕ) {l : Locks}
      → Step
          (record { locks = l; callers = pre ++ (releasing a o ∷ post) })
          (record { locks = release a o l; callers = pre ++ (finished ∷ post) })

abbrev pub no_locks : Locks
no_locks = record {
  lklk = false;
  actor_locks = λ a. none;
  lk = λ o. false;
  count = λ o. 0;
  fresh = 0;
}

abbrev pub calls : List ℕ → List Phase
calls [] = []
calls (a ∷ rest) = idle a ∷ calls rest

-- The states that calls of lockActor for these actors lead to, each call from a goroutine of its own.
pub data Reach (actors : List ℕ) : System → Type 0 where
  start : Reach actors (record { locks = no_locks; callers = calls actors })
  later : {s t : System} → Reach actors s → Step s t → Reach actors t
