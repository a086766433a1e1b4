-- ===== src/Repo/Locks/Invariant.antt =====
-- The invariant of the locks.
use referendum_services.Prelude.{
  ℕ, ◌+◌, ◌-◌, ◌≤◌, ◌<◌, List, [], ◌∷◌, ◌++◌, Option, none, some, Bool, true, false, ◌≡◌, refl, sym,
  arith, ◌==◌, if◌then◌else◌, All, All_map,
}
use referendum_services.Repo.Locks.{
  Locks, Phase, idle, waiting, holding, releasing, finished, update, entered, enter, acquire,
  unlock, release, System, Step, enters, acquires, unlocks, releases, no_locks, calls, Reach, start,
  later,
}
use referendum_services.Repo.Locks.Counts.{
  total, total_nil, total-cons, total-append, is_on, holds, frees, All-append, append-All,
  All-total_zero,
}

abbrev pub bit : Bool → ℕ
bit b = if b then 1 else 0

-- A caller that has its object finds it in the map.
abbrev pub IsPlaced : (ℕ → Option ℕ) → Phase → Type 0
IsPlaced m (idle a) = Unit
IsPlaced m (waiting a o) = m a ≡ some o
IsPlaced m (holding a o) = m a ≡ some o
IsPlaced m (releasing a o) = m a ≡ some o
IsPlaced m finished = Unit

pub record IsValid (l : Locks) (ps : List Phase) : Type 0 where
  pub placed : All (IsPlaced l.actor_locks) ps
  pub counted : (o : ℕ) → l.count o ≡ total (is_on o) ps
  pub single : (o : ℕ) → total (holds o) ps ≡ bit (l.lk o)
  pub guarded : total frees ps ≡ bit l.lklk
  pub used : (a o : ℕ) → l.actor_locks a ≡ some o → (o < l.fresh) × (1 ≤ l.count o)
  pub unshared : (a b o : ℕ) → l.actor_locks a ≡ some o → l.actor_locks b ≡ some o → a ≡ b
  pub unused : (o : ℕ) → l.fresh ≤ o → (l.count o ≡ 0) × (l.lk o ≡ false)

total-calls :
    (f : Phase → ℕ) → ((a : ℕ) → f (idle a) ≡ 0) → (actors : List ℕ) → total f (calls actors) ≡ 0
total-calls f h [] = total_nil f
total-calls f h (a ∷ rest) =
    omega (arith, h a, total-cons f (idle a) (calls rest), total-calls f h rest)

calls-IsPlaced : (rest : List ℕ) → All (IsPlaced (λ a. none)) (calls rest)
calls-IsPlaced [] = tt
calls-IsPlaced (a ∷ rest) = (tt, calls-IsPlaced rest)

start-IsValid : (actors : List ℕ) → IsValid no_locks (calls actors)
start-IsValid actors = record {
  placed = calls-IsPlaced actors;
  counted = λ o. sym (total-calls (is_on o) (λ a. refl) actors);
  single = λ o. total-calls (holds o) (λ a. refl) actors;
  guarded = total-calls frees (λ a. refl) actors;
  used = λ a o e. absurd (ground (arith, e));
  unshared = λ a b o e f. absurd (ground (arith, e));
  unused = λ o h. (refl, refl);
}

IsPlaced-new :
    (m : ℕ → Option ℕ) (a k : ℕ)
    → m a ≡ none
    → (p : Phase) → IsPlaced m p
    → IsPlaced (update m a (some k)) p
IsPlaced-new m a k e (idle b) h = tt
IsPlaced-new m a k e (waiting b o) h = ground arith
IsPlaced-new m a k e (holding b o) h = ground arith
IsPlaced-new m a k e (releasing b o) h = ground arith
IsPlaced-new m a k e finished h = tt

IsPlaced-deleted :
    (m : ℕ → Option ℕ) (a o : ℕ)
    → m a ≡ some o
    → (p : Phase) → is_on o p ≡ 0
    → IsPlaced m p
    → IsPlaced (update m a none) p
IsPlaced-deleted m a o e (idle b) z h = tt
IsPlaced-deleted m a o e (waiting b k) z h = ground arith
IsPlaced-deleted m a o e (holding b k) z h = ground arith
IsPlaced-deleted m a o e (releasing b k) z h = ground arith
IsPlaced-deleted m a o e finished z h = tt

abbrev Parts : Locks → List Phase → Phase → List Phase → Type 0
Parts l pre p post =
    All (IsPlaced l.actor_locks) pre × IsPlaced l.actor_locks p × All (IsPlaced l.actor_locks) post

enter-IsValid :
    (l : Locks) (pre post : List Phase) (a : ℕ)
    → IsValid l (pre ++ (idle a ∷ post))
    → IsValid (enter a l).1 (pre ++ (waiting a (enter a l).0 ∷ post))
unfolding enter
enter-IsValid l pre post a v = go (l.actor_locks a) refl
  where
    parts : Parts l pre (idle a) post
    parts = All-append (IsPlaced l.actor_locks) pre (idle a) post v.placed

    sums :
        (f : Phase → ℕ) (o : ℕ)
        → f (idle a) ≡ 0
        → total f (pre ++ (waiting a o ∷ post)) ≡ f (waiting a o) + total f (pre ++ (idle a ∷ post))
    sums f o z =
        omega (arith, z, total-append f pre (idle a) post, total-append f pre (waiting a o) post)

    go :
        (o : Option ℕ)
        → l.actor_locks a ≡ o
        → IsValid (entered a l o).1 (pre ++ (waiting a (entered a l o).0 ∷ post))
    go (some o) e = record {
      placed = append-All (IsPlaced l.actor_locks) pre (waiting a o) post parts.0 e parts.2;
      counted = λ o'. ground (arith, v.counted o', sums (is_on o') o refl);
      single = λ o'. omega (arith, v.single o', sums (holds o') o refl);
      guarded = omega (arith, v.guarded, sums frees o refl);
      used = λ b o' m. ground (arith, v.used b o' m);
      unshared = v.unshared;
      unused = λ o' h. ground (arith, v.unused o' h, v.used a o e);
    }
    go none e =
        let m = update l.actor_locks a (some l.fresh) in
        record {
          placed =
              append-All (IsPlaced m) pre (waiting a l.fresh) post
                (All_map pre (IsPlaced-new l.actor_locks a l.fresh e) parts.0) (ground arith)
                (All_map post (IsPlaced-new l.actor_locks a l.fresh e) parts.2);
          counted = λ o'.
              ground
                (arith, v.counted o', v.unused l.fresh (omega arith), sums (is_on o') l.fresh refl);
          single = λ o'.
              ground
                (arith, v.single o', v.unused l.fresh (omega arith), sums (holds o') l.fresh refl);
          guarded = omega (arith, v.guarded, sums frees l.fresh refl);
          used = λ b o' h. ground (arith, v.used b o');
          unshared = λ b c o' h h'. ground (arith, v.used b o', v.used c o', v.unshared b c o');
          unused = λ o' h. ground (arith, v.unused o');
        }

acquire-IsValid :
    (l : Locks) (pre post : List Phase) (a o : ℕ)
    → l.lk o ≡ false
    → IsValid l (pre ++ (waiting a o ∷ post))
    → IsValid (acquire o l) (pre ++ (holding a o ∷ post))
unfolding acquire
acquire-IsValid l pre post a o free v = record {
  placed = append-All (IsPlaced l.actor_locks) pre (holding a o) post parts.0 parts.1 parts.2;
  counted = λ o'. omega (arith, v.counted o', old (is_on o'), new (is_on o'));
  single = λ o'. ground (arith, v.single o', old (holds o'), new (holds o'));
  guarded = omega (arith, v.guarded, old frees, new frees);
  used = v.used;
  unshared = v.unshared;
  unused = λ o' h. ground (arith, v.unused o' h, v.used a o parts.1);
}
  where
    parts : Parts l pre (waiting a o) post
    parts = All-append (IsPlaced l.actor_locks) pre (waiting a o) post v.placed

    old :
        (f : Phase → ℕ)
        → total f (pre ++ (waiting a o ∷ post)) ≡ f (waiting a o) + (total f pre + total f post)
    old f = total-append f pre (waiting a o) post

    new :
        (f : Phase → ℕ)
        → total f (pre ++ (holding a o ∷ post)) ≡ f (holding a o) + (total f pre + total f post)
    new f = total-append f pre (holding a o) post

unlock-IsValid :
    (l : Locks) (pre post : List Phase) (a o : ℕ)
    → l.lklk ≡ false
    → IsValid l (pre ++ (holding a o ∷ post))
    → IsValid (unlock o l) (pre ++ (releasing a o ∷ post))
unfolding unlock
unlock-IsValid l pre post a o free v = record {
  placed = append-All (IsPlaced l.actor_locks) pre (releasing a o) post parts.0 parts.1 parts.2;
  counted = λ o'. omega (arith, v.counted o', old (is_on o'), new (is_on o'));
  single = λ o'. ground (arith, v.single o', old (holds o'), new (holds o'));
  guarded = ground (arith, v.guarded, old frees, new frees);
  used = v.used;
  unshared = v.unshared;
  unused = λ o' h. ground (arith, v.unused o' h);
}
  where
    parts : Parts l pre (holding a o) post
    parts = All-append (IsPlaced l.actor_locks) pre (holding a o) post v.placed

    old :
        (f : Phase → ℕ)
        → total f (pre ++ (holding a o ∷ post)) ≡ f (holding a o) + (total f pre + total f post)
    old f = total-append f pre (holding a o) post

    new :
        (f : Phase → ℕ)
        → total f (pre ++ (releasing a o ∷ post)) ≡ f (releasing a o) + (total f pre + total f post)
    new f = total-append f pre (releasing a o) post

release-IsValid :
    (l : Locks) (pre post : List Phase) (a o : ℕ)
    → IsValid l (pre ++ (releasing a o ∷ post))
    → IsValid (release a o l) (pre ++ (finished ∷ post))
unfolding release
release-IsValid l pre post a o v = record {
  placed = kept (l.count o - 1 == 0) refl;
  counted = λ o'. ground (arith, v.counted o', old (is_on o'), new (is_on o'));
  single = λ o'. omega (arith, v.single o', old (holds o'), new (holds o'));
  guarded = ground (arith, v.guarded, old frees, new frees);
  used = λ b o' h. ground (arith, v.used b o', v.unshared b a o', parts.1);
  unshared = λ b c o' h h'. ground (arith, v.unshared b c o');
  unused = λ o' h. ground (arith, v.unused o' h);
}
  where
    parts : Parts l pre (releasing a o) post
    parts = All-append (IsPlaced l.actor_locks) pre (releasing a o) post v.placed

    old :
        (f : Phase → ℕ)
        → total f (pre ++ (releasing a o ∷ post)) ≡ f (releasing a o) + (total f pre + total f post)
    old f = total-append f pre (releasing a o) post

    new :
        (f : Phase → ℕ)
        → total f (pre ++ (finished ∷ post)) ≡ f finished + (total f pre + total f post)
    new f = total-append f pre finished post

    kept :
        (t : Bool)
        → (l.count o - 1 == 0) ≡ t
        → All
            (IsPlaced (if t then update l.actor_locks a none else l.actor_locks))
            (pre ++ (finished ∷ post))
    kept true e =
        let m = update l.actor_locks a none in
        append-All (IsPlaced m) pre finished post
          (All-total_zero (IsPlaced l.actor_locks) (IsPlaced m) (is_on o) pre
            (ground (arith, v.counted o, old (is_on o)))
            (IsPlaced-deleted l.actor_locks a o parts.1) parts.0)
          tt
          (All-total_zero (IsPlaced l.actor_locks) (IsPlaced m) (is_on o) post
            (ground (arith, v.counted o, old (is_on o)))
            (IsPlaced-deleted l.actor_locks a o parts.1) parts.2)
    kept false e = append-All (IsPlaced l.actor_locks) pre finished post parts.0 tt parts.2

-- The invariant holds in every state that calls of lockActor lead to.
pub Reach-IsValid : (actors : List ℕ) (s : System) → Reach actors s → IsValid s.locks s.callers
Reach-IsValid actors s start = start-IsValid actors
Reach-IsValid actors s (later r x) = step x (Reach-IsValid actors _ r)
  where
    step : {u t : System} → Step u t → IsValid u.locks u.callers → IsValid t.locks t.callers
    step (enters pre post a free) v = enter-IsValid _ pre post a v
    step (acquires pre post a o free) v = acquire-IsValid _ pre post a o free v
    step (unlocks pre post a o free) v = unlock-IsValid _ pre post a o free v
    step (releases pre post a o) v = release-IsValid _ pre post a o v
