-- ===== src/Repo/Locks/Safety.antt =====
-- Who holds a lock, and which actors have an entry in the map.
use referendum_services.Prelude.{
  ℕ, List, [], ◌∷◌, ◌++◌, Option, none, some, ◌≡◌, refl, sym, ap, ◌∙◌, arith, ◌==◌, if◌then◌else◌,
  All, ◌↔◌, inl, inr, Option-cases, subst,
}
use referendum_services.Repo.Locks.{
  Phase, idle, waiting, holding, releasing, finished, System, Reach,
}
use referendum_services.Repo.Locks.Counts.{
  total, total_nil, total-cons, total-append, is_on, holds, All-append,
}
use referendum_services.Repo.Locks.Invariant.{IsValid, IsPlaced, Reach-IsValid}

-- In no reachable state have two callers got the lock of the same actor.
pub mutual_exclusion :
    (actors : List ℕ) (s : System)
    → Reach actors s
    → (pre mid post : List Phase) (a o o' : ℕ)
    → ¬ (s.callers ≡ pre ++ (holding a o ∷ (mid ++ (holding a o' ∷ post))))
mutual_exclusion actors s r pre mid post a o o' e =
    let v = Reach-IsValid actors s r in
    let placed =
      All-append (IsPlaced s.locks.actor_locks) pre (holding a o) (mid ++ (holding a o' ∷ post))
        (subst (All (IsPlaced s.locks.actor_locks)) e v.placed) in
    let placed' = All-append (IsPlaced s.locks.actor_locks) mid (holding a o') post placed.2 in
    let both : some o ≡ some o' = sym placed.1 ∙ placed'.1 in
    ground (
      arith,
      both,
      v.single o,
      ap (total (holds o)) e,
      total-append (holds o) pre (holding a o) (mid ++ (holding a o' ∷ post)),
      total-append (holds o) mid (holding a o') post,
    )

-- The actor for which a caller counts.
abbrev pub uses : ℕ → Phase → ℕ
uses a (idle b) = 0
uses a (waiting b o) = if a == b then 1 else 0
uses a (holding b o) = if a == b then 1 else 0
uses a (releasing b o) = if a == b then 1 else 0
uses a finished = 0

uses_on :
    (m : ℕ → Option ℕ) (a o : ℕ)
    → m a ≡ some o
    → ((b : ℕ) → m b ≡ some o → b ≡ a)
    → (p : Phase) → IsPlaced m p
    → uses a p ≡ is_on o p
uses_on m a o e one (idle b) h = refl
uses_on m a o e one (waiting b k) h = ground (arith, one b)
uses_on m a o e one (holding b k) h = ground (arith, one b)
uses_on m a o e one (releasing b k) h = ground (arith, one b)
uses_on m a o e one finished h = refl

total_same :
    (f g : Phase → ℕ) (P : Phase → Type 0) (ps : List Phase)
    → ((p : Phase) → P p → f p ≡ g p)
    → All P ps
    → total f ps ≡ total g ps
total_same f g P [] h all = total_nil f ∙ sym (total_nil g)
total_same f g P (p ∷ ps) h all =
    omega (arith, h p all.0, total_same f g P ps h all.1, total-cons f p ps, total-cons g p ps)

unused_zero : (m : ℕ → Option ℕ) (a : ℕ) → m a ≡ none → (p : Phase) → IsPlaced m p → uses a p ≡ 0
unused_zero m a e (idle b) h = refl
unused_zero m a e (waiting b k) h = ground arith
unused_zero m a e (holding b k) h = ground arith
unused_zero m a e (releasing b k) h = ground arith
unused_zero m a e finished h = refl

total_zero :
    (P : Phase → Type 0) (f : Phase → ℕ) (ps : List Phase)
    → ((p : Phase) → P p → f p ≡ 0)
    → All P ps
    → total f ps ≡ 0
total_zero P f [] h all = total_nil f
total_zero P f (p ∷ ps) h all =
    omega (arith, h p all.0, total_zero P f ps h all.1, total-cons f p ps)

-- In every reachable state the map has no entry for an actor exactly if no caller is between its start of
-- lockActor for the actor and its end of the unlocking; and the count of an entry is the number of these
-- callers.
pub entry_iff :
    (actors : List ℕ) (s : System)
    → Reach actors s
    → (a : ℕ)
    → ((s.locks.actor_locks a ≡ none) ↔ (total (uses a) s.callers ≡ 0))
      × ((o : ℕ) → s.locks.actor_locks a ≡ some o → s.locks.count o ≡ total (uses a) s.callers)
entry_iff actors s r a = (
  (
    λ e.
        total_zero (IsPlaced s.locks.actor_locks) (uses a) s.callers
          (unused_zero s.locks.actor_locks a e) v.placed,
    λ z. elim (Option-cases (s.locks.actor_locks a)) [
      | inl e ↦ e
      | inr (o, e) ↦ absurd (
          ground (
            arith,
            v.used a o e,
            v.counted o,
            total_same (uses a) (is_on o) (IsPlaced s.locks.actor_locks) s.callers
                (uses_on s.locks.actor_locks a o e (λ b m. v.unshared b a o m e)) v.placed,
          ))
    ],
  ),
  λ o e. v.counted o ∙ sym (same_total o e),
)
  where
    same_total :
        (o : ℕ)
        → s.locks.actor_locks a ≡ some o
        → total (uses a) s.callers ≡ total (is_on o) s.callers
    same_total o e =
        let u = Reach-IsValid actors s r in
        total_same (uses a) (is_on o) (IsPlaced s.locks.actor_locks) s.callers
          (uses_on s.locks.actor_locks a o e (λ b m. u.unshared b a o m e)) u.placed

    v : IsValid s.locks s.callers
    v = Reach-IsValid actors s r
