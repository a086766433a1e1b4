-- ===== src/Repo/External/Refused.antt =====
-- HandleExternalActorEvent over the key manager's VerifyActorSignature.
use referendum_services.Prelude.{List, Bool, ◌≡◌, ◌⊎◌, inl}
use referendum_services.Car.Shard.{Shard}
use referendum_services.Repo.Tid.{Clock}
use referendum_services.Repo.Actions.{RepoError}
use referendum_services.Repo.ActorRepo.{Repo}
use referendum_services.Repo.Manager.{World, Event}

module _ {Cid Rec S : Type 0} where
  -- All but the cache of last shards: the database with the file store, the clock, the callback and the
  -- switch of the manager, and the events that were sent.
  abbrev outer : World Cid Rec S → S × Clock × Bool × Bool × List (Event Cid Rec)
  outer w = (w.store.db, w.clock, w.events, w.hydrate_records, w.sent)

  -- An error, after which only the cache of last shards may differ.
  abbrev pub Fails : {A : Type 0} → World Cid Rec S → (RepoError ⊎ A) × World Cid Rec S → Type 0
  Fails w r =
      (x : RepoError) × (w' : World Cid Rec S) × (r ≡ (inl x, w'))
      × (w'.store.db ≡ w.store.db)
      × (w'.clock ≡ w.clock)
      × (w'.events ≡ w.events)
      × (w'.hydrate_records ≡ w.hydrate_records)
      × (w'.sent ≡ w.sent)
