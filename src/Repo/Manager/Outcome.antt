-- ===== src/Repo/Manager/Outcome.antt =====
-- The outcomes of a write of an existing repository.
use referendum_services.Prelude.{
  ℕ, String, List, [], ◌∷◌, ◌++◌, Option, none, some, Bool, true, false, ◌≡◌, refl, sym, ap, ◌∙◌,
  ◌≢◌, ◌⊎◌, inl, inr, arith, ℕ_discrete, if◌then◌else◌, Bool-cases,
}
use referendum_services.Prelude.Dict.{Dict, get}
use referendum_services.Car.Shard.{Bytes, Shard}
use referendum_services.Car.Session.{DeltaSession, Store, StoreError, close_with_root}
use referendum_services.Car.Session.Head.{close_with_root-IsHead}
use referendum_services.Car.Session.Keeps.{IsOwn, close_with_root_keeps, close_with_root_fails}
use referendum_services.Repo.Actions.{RepoError, Action, and_then, ◌>>=◌, ret}
use referendum_services.Repo.ActorRepo.{
  Work, Outside, Repo, SignedCommit, commit, open_repo, opened, is_supported,
}
use referendum_services.Repo.ActorRepo.Session.{KeepsActor, KeepsActor-bind, KeepsActor-commit}
use referendum_services.Repo.Manager.{
  World, Event, Op, of_session, repo_rev, open_session, defined, write_repo, finish_write,
  write_opened, write_session, write_from, send_event, open_result, worked, body_and_commit,
}
use referendum_services.Repo.Manager.Standing.{
  IsNumbered, entry, StandsAt, Kept, Kept-refl, Kept-trans, repo_rev-Kept, open_session-Kept,
  repo_rev_stands, open_session_stands, open_session_actor,
}

module _ {Cid Block Rec Tree S : Type 0} (out : Outside Cid Block Rec Tree S) where
  -- The entries of the other actors are as they were.
  abbrev pub KeptElsewhere : ℕ → World Cid Rec S → World Cid Rec S → Type 0
  KeptElsewhere a w w' =
      (b : ℕ) (sh : Shard Cid) → b ≢ a → b ≢ 0 → entry out w b ≡ some sh → entry out w' b ≡ some sh

  abbrev pub sent_after : World Cid Rec S → Event Cid Rec → List (Event Cid Rec)
  sent_after w e = if w.events then w.sent ++ (e ∷ []) else w.sent

  -- An event that continues the actor's revisions is sent, and the actor stands at its root.
  abbrev pub Wrote : ℕ → World Cid Rec S → World Cid Rec S → Type 0
  Wrote a w w' =
      (e : Event Cid Rec) × (e.actor ≡ a)
      × (w'.sent ≡ sent_after w e)
      × (w'.events ≡ w.events)
      × KeptElsewhere a w w'
      × StandsAt out a e.new_root e.rev w'
      × ((root : Cid) (rev : String)
          → StandsAt out a root rev w
          → (e.since ≡ some rev) × (e.old_root ≡ defined out root))

  abbrev pub Outcome :
      {A : Type 0} → ℕ → World Cid Rec S → (RepoError ⊎ A) × World Cid Rec S → Type 0
  Outcome a w (inl x, w') = Kept out w w'
  Outcome a w (inr y, w') = Wrote a w w'

  -- A step before the write is done: it fails, or the rest has this outcome.
  step :
      {A B : Type 0} (a : ℕ) (w v : World Cid Rec S) (f : A → Action (World Cid Rec S) B)
      (r : (RepoError ⊎ A) × World Cid Rec S)
      → Kept out v r.1
      → Kept out w v
      → ((y : A) (u : World Cid Rec S) → r ≡ (inr y, u) → Kept out w u → Outcome a w (f y u))
      → Outcome a w (and_then f r)
  step a w v f (inl x, u) k k0 next = Kept-trans out w v u k0 k
  step a w v f (inr y, u) k k0 next = next y u refl (Kept-trans out w v u k0 k)

  send_outcome :
      (a : ℕ) (w v : World Cid Rec S) (e : Event Cid Rec) (actor_eq : e.actor ≡ a)
      → v.sent ≡ w.sent
      → v.events ≡ w.events
      → KeptElsewhere a w v
      → StandsAt out a e.new_root e.rev v
      → ((root : Cid) (rev : String)
          → StandsAt out a root rev w
          → (e.since ≡ some rev) × (e.old_root ≡ defined out root))
      → Wrote a w (send_event out e v).1
  send_outcome a w v e p s ev k st c = go v.events refl
    where
      go :
          (b : Bool)
          → v.events ≡ b
          → Wrote a w (if b then record v { sent = v.sent ++ (e ∷ []) } else v)
      go true q = (e, p, rw (sym ev, q, s) refl, ev, k, st, c)
      go false q = (e, p, rw (sym ev, q) s, ev, k, st, c)

  close_root :
      Cid → String → DeltaSession Cid Block → Store Cid S → (StoreError ⊎ Bytes) × Store Cid S
  close_root = close_with_root out.back ℕ_discrete out.cid_bytes out.raw out.dump_header

  abbrev Same : ℕ → String → Cid → World Cid Rec S → Type 0
  Same a rev head w =
      (root : Cid) (rv : String) → StandsAt out a root rv w → (rev ≡ rv) × (head ≡ root)

  module _ {A : Type 0} (a : ℕ) (numbered : IsNumbered out) (own : IsOwn out.back ℕ_discrete) where
    finish_outcome :
        (w v : World Cid Rec S) (rev : String) (head : Cid)
        (x : ((A × List (Op Cid Rec)) × (Cid × String)) × DeltaSession Cid Block)
        → Kept out w v
        → x.1.actor ≡ a
        → Same a rev head w
        → Outcome a w (finish_write out a rev head x v)
    unfolding close_root
    finish_outcome w v rev head (((y, ops), (nroot, nrev)), ds) (s, ev, k) p same =
        go (close_root nroot nrev ds v.store) refl
      where
        event : Bytes → Event Cid Rec
        event slice = record {
          actor = a;
          old_root = defined out head;
          new_root = nroot;
          since = some rev;
          rev = nrev;
          repo_slice = slice;
          pds = 0;
          ops = ops;
        }

        go :
            (r : (StoreError ⊎ Bytes) × Store Cid S)
            → close_root nroot nrev ds v.store ≡ r
            → Outcome a w (
                and_then
                  (λ slice u. (inr y, (send_event out (event slice) u).1))
                  (of_session out v r))
        go (inl x, st) q =
            Kept-trans out w v (record v { store = st }) (s, ev, k)
              (
                refl,
                refl,
                λ b sh nz e.
                    ap (λ c. get ℕ_discrete c b)
                      (close_with_root_fails out.back ℕ_discrete out.cid_bytes out.raw
                        out.dump_header nroot nrev ds v.store st x q)
                    ∙ e,
              )
        go (inr buf, st) q =
            let (sh, cached, r1, r2, r3, (sh0, s0, s1, made)) =
              close_with_root-IsHead out.back ℕ_discrete out.cid_bytes out.raw out.dump_header nroot
                nrev ds v.store st buf q in
            send_outcome a w (record v { store = st }) (event buf) refl s ev
              (λ b sh' ne nz e.
                ap (λ t. get ℕ_discrete t.1.cache b) (sym q)
                ∙ close_with_root_keeps out.back ℕ_discrete out.cid_bytes out.raw out.dump_header
                    nroot nrev ds v.store b (λ m. ne (m ∙ p))
                ∙ k b sh' nz e)
              (sh, rw (sym p) cached, r1, r2, numbered sh0 s0 s1 sh.id made)
              (λ root rv st0. (ap some (same root rv st0).0, ap (defined out) (same root rv st0).1))

    worked_outcome :
        (body : Action (Work Cid Block Tree S) (A × List (Op Cid Rec))) (w v : World Cid Rec S)
        (rev : String) (head : Cid) (r : Repo Cid Tree × DeltaSession Cid Block)
        → KeepsActor out body
        → Kept out w v
        → r.1.actor ≡ a
        → Same a rev head w
        → Outcome a w (write_opened out a body rev head r v)
    worked_outcome body w v rev head (r, ds) keep kept p same =
        go (body_and_commit out a body work) (
          KeepsActor-bind out body (λ b. do c ← commit out; ret (b, c)) keep
            (λ b.
              KeepsActor-bind out (commit out) (λ c. ret (b, c)) (KeepsActor-commit out)
                (λ c k. refl))
            work)
      where
        work : Work Cid Block Tree S
        work = record { repo = r; session = ds; clock = v.clock; db = v.store.db }

        go :
            (x : (RepoError ⊎ ((A × List (Op Cid Rec)) × (Cid × String))) × Work Cid Block Tree S)
            → x.1.session.actor ≡ ds.actor
            → Outcome a w (and_then (finish_write out a rev head) (worked out v x))
        go (inl x, k) q = kept
        go (inr y, k) q =
            finish_outcome w (record v { clock = k.clock }) rev head (y, k.session) kept (q ∙ p)
              same

    opened_outcome :
        (body : Action (Work Cid Block Tree S) (A × List (Op Cid Rec))) (w v : World Cid Rec S)
        (rev : String) (ds : DeltaSession Cid Block)
        → KeepsActor out body
        → Kept out w v
        → ds.actor ≡ a
        → Same a rev ds.base_cid w
        → Outcome a w (write_session out a body rev ds v)
    unfolding open_repo
    opened_outcome body w v rev ds keep kept p same = go (out.load_commit ds.base_cid v.store.db ds)
      where
        go :
            (x : Option (SignedCommit Cid) × Dict Cid Block)
            → Outcome a w (
                and_then
                  (write_opened out a body rev ds.base_cid)
                  (open_result out v (opened out ds.base_cid ds x)))
        go (none, d) = kept
        go (some c, d) = elim (Bool-cases (is_supported out c.version)) [
          | inl q ↦
              rw q (
                worked_outcome body w v rev ds.base_cid (_, record ds { blks = d }) keep kept p
                  same)
          | inr q ↦ rw q kept
        ]

    -- The outcome of a write whose body keeps to the session.
    pub write_repo_outcome :
        (body : Action (Work Cid Block Tree S) (A × List (Op Cid Rec)))
        → KeepsActor out body
        → (w : World Cid Rec S) → Outcome a w (write_repo out a body w)
    unfolding write_repo
    write_repo_outcome body keep w =
        step a w w (write_from out a body) (repo_rev out a w) (repo_rev-Kept out own a w)
          (Kept-refl out w)
          λ rev v e1 k1.
            step a w v (write_session out a body rev) (open_session out a (some rev) v)
              (open_session-Kept out own a (some rev) v) k1
              λ ds u e2 k2.
                opened_outcome body w u rev ds keep k2
                  (open_session_actor out a (some rev) v u ds e2)
                  (λ root rv st.
                    let (ds0, opens, base) = open_session_stands out a root rv w st in
                    let revs : (inr rv, w) ≡ (inr rev, v) =
                      sym (repo_rev_stands out a root rv w st) ∙ e1 in
                    let rev_eq : rv ≡ rev = ground (arith, revs) in
                    let world_eq : w ≡ v = ap (λ z. z.1) revs in
                    let sessions : (inr ds0, w) ≡ (inr ds, u) =
                      sym opens
                      ∙ ap (λ z. open_session out a (some z) w) rev_eq
                      ∙ ap (λ z. open_session out a (some rev) z) world_eq
                      ∙ e2 in
                    let ds_eq : ds0 ≡ ds = ground (arith, sessions) in
                    (sym rev_eq, ap (λ d. d.base_cid) (sym ds_eq) ∙ base))
