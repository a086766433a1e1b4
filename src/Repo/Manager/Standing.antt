-- ===== src/Repo/Manager/Standing.antt =====
-- Where an actor stands: its cached last shard, and what the calls before a write keep of it.
use referendum_services.Prelude.{
  ℕ, String, [], Option, none, some, true, false, ◌≡◌, refl, ap, ◌∙◌, ◌≢◌, subst, inl, inr, arith,
  ℕ_discrete, str_eq, eq_iff, Bool-cases,
}
use referendum_services.Prelude.Dict.{get}
use referendum_services.Prelude.Int.{inc_int64}
use referendum_services.Car.Shard.{Shard}
use referendum_services.Car.Session.{
  DeltaSession, Store, get_last_shard, get_actor_repo_rev, new_delta_session, head_of, open_on,
  wrong_base,
}
use referendum_services.Car.Session.Keeps.{IsOwn, get_last_shard_cached, get_last_shard_keeps}
use referendum_services.Repo.ActorRepo.{Outside}
use referendum_services.Repo.Manager.{World, of_store, of_session, repo_rev, open_session}

module _ {Cid Block Rec Tree S : Type 0} (out : Outside Cid Block Rec Tree S) where
  -- The database numbers its shards from 1.
  abbrev pub IsNumbered : Type 0
  IsNumbered =
      (sh : Shard Cid) (s s' : S) (n : ℕ) → out.back.create_shard sh s ≡ (some n, s') → n ≢ 0

  abbrev pub entry : World Cid Rec S → ℕ → Option (Shard Cid)
  entry w b = get ℕ_discrete w.store.cache b

  -- The last shard of the actor is cached, with this root and this revision.
  abbrev pub StandsAt : ℕ → Cid → String → World Cid Rec S → Type 0
  StandsAt actor root rev w =
      (sh : Shard Cid) × (entry w actor ≡ some sh) × (sh.root ≡ root) × (sh.rev ≡ rev) × (sh.id ≢ 0)

  -- Nothing is sent, the callback stays, and no entry of the cache is lost or replaced, but that of the
  -- actor 0, which is no actor's number: an empty shard is cached under it.
  abbrev pub Kept : World Cid Rec S → World Cid Rec S → Type 0
  Kept w w' =
      (w'.sent ≡ w.sent)
      × (w'.events ≡ w.events)
      × ((b : ℕ) (sh : Shard Cid) → b ≢ 0 → entry w b ≡ some sh → entry w' b ≡ some sh)

  pub Kept-refl : (w : World Cid Rec S) → Kept w w
  Kept-refl w = (refl, refl, λ b sh nz e. e)

  pub Kept-trans : (u v w : World Cid Rec S) → Kept u v → Kept v w → Kept u w
  Kept-trans u v w (a, b, c) (a', b', c') = (a' ∙ a, b' ∙ b, λ k sh nz e. c' k sh nz (c k sh nz e))

  pub last_shard_kept :
      IsOwn out.back ℕ_discrete
      → (a : ℕ) (st : Store Cid S) (b : ℕ) (sh : Shard Cid) → b ≢ 0
      → get ℕ_discrete st.cache b ≡ some sh
      → get ℕ_discrete (get_last_shard out.back ℕ_discrete a st).1.cache b ≡ some sh
  last_shard_kept own a st b sh nz e = elim (ℕ_discrete b a) [
    | yes p ↦
        ap (λ r. get ℕ_discrete r.1.cache b)
          (get_last_shard_cached out.back ℕ_discrete a st sh
            (subst (λ k. get ℕ_discrete st.cache k ≡ some sh) p e))
        ∙ e
    | no q ↦ get_last_shard_keeps out.back ℕ_discrete own a b st q nz ∙ e
  ]

  pub repo_rev-Kept :
      IsOwn out.back ℕ_discrete → (a : ℕ) (w : World Cid Rec S) → Kept w (repo_rev out a w).1
  unfolding get_actor_repo_rev
  repo_rev-Kept own a w =
      go (get_last_shard out.back ℕ_discrete a w.store) (last_shard_kept own a w.store)
    where
      go :
          (r : Option (Shard Cid) × Store Cid S)
          → ((b : ℕ) (sh : Shard Cid)
              → b ≢ 0
              → entry w b ≡ some sh
              → get ℕ_discrete r.1.cache b ≡ some sh)
          → Kept w (of_store out w (head_of out.back ℕ_discrete "" (λ sh. sh.rev) r)).1
      go (none, st) h = (refl, refl, h)
      go (some sh, st) h = (refl, refl, h)

  pub open_session-Kept :
      IsOwn out.back ℕ_discrete
      → (a : ℕ) (since : Option String) (w : World Cid Rec S)
      → Kept w (open_session out a since w).1
  unfolding new_delta_session
  open_session-Kept own a since w =
      go (get_last_shard out.back ℕ_discrete a w.store) (last_shard_kept own a w.store)
    where
      go :
          (r : Option (Shard Cid) × Store Cid S)
          → ((b : ℕ) (sh : Shard Cid)
              → b ≢ 0
              → entry w b ≡ some sh
              → get ℕ_discrete r.1.cache b ≡ some sh)
          → Kept w (of_session out w (open_on out.back ℕ_discrete {Block = Block} a since r)).1
      go (none, st) h = (refl, refl, h)
      go (some sh, st) h = elim (Bool-cases (wrong_base out.back ℕ_discrete since sh)) [
        | inl e ↦ rw e (refl, refl, h)
        | inr e ↦ rw e (refl, refl, h)
      ]

  pub str_eq_refl : (r : String) → str_eq r r ≡ true
  str_eq_refl r = (eq_iff r r).1 refl

  pub repo_rev_stands :
      (a : ℕ) (root : Cid) (rev : String) (w : World Cid Rec S)
      → StandsAt a root rev w
      → repo_rev out a w ≡ (inr rev, w)
  unfolding get_actor_repo_rev
  repo_rev_stands a root rev w (sh, e, e1, e2, pos) =
      ap (λ r. of_store out w (head_of out.back ℕ_discrete "" (λ sh. sh.rev) r))
        (get_last_shard_cached out.back ℕ_discrete a w.store sh e)
      ∙ ground (arith, e2, pos)

  pub open_session_stands :
      (a : ℕ) (root : Cid) (rev : String) (w : World Cid Rec S)
      → StandsAt a root rev w
      → (ds : DeltaSession Cid Block) × (open_session out a (some rev) w ≡ (inr ds, w))
        × (ds.base_cid ≡ root)
  unfolding new_delta_session
  open_session_stands a root rev w (sh, e, e1, e2, pos) = (
    record {
      blks = [];
      rmcids = [];
      actor = a;
      base_cid = sh.root;
      seq = inc_int64 sh.seq;
      readonly = false;
      last_rev = sh.rev;
    },
    ap (λ r. of_session out w (open_on out.back ℕ_discrete {Block = Block} a (some rev) r))
          (get_last_shard_cached out.back ℕ_discrete a w.store sh e)
        ∙ rw (e2, str_eq_refl rev) refl,
    e1,
  )

  pub open_session_actor :
      (a : ℕ) (since : Option String) (w w' : World Cid Rec S) (ds : DeltaSession Cid Block)
      → open_session out a since w ≡ (inr ds, w')
      → ds.actor ≡ a
  unfolding new_delta_session
  open_session_actor a since w w' ds e = go (get_last_shard out.back ℕ_discrete a w.store) e
    where
      go :
          (r : Option (Shard Cid) × Store Cid S)
          → of_session out w (open_on out.back ℕ_discrete {Block = Block} a since r) ≡ (inr ds, w')
          → ds.actor ≡ a
      go (none, st) d = absurd (ground (arith, d))
      go (some sh, st) d = elim (Bool-cases (wrong_base out.back ℕ_discrete since sh)) [
        | inl q ↦ absurd (ground (arith, rw q at d))
        | inr q ↦ ground (arith, rw q at d)
      ]
