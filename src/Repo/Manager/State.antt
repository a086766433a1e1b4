-- ===== src/Repo/Manager/State.antt =====
-- internal/repo/manager.go: the manager's state and events, and its calls of the store, each as an action
-- on that state.
use referendum_services.Prelude.{
  ℕ, String, List, [], ◌∷◌, ◌++◌, Option, none, some, Bool, true, ◌⊎◌, inl, inr, if◌then◌else◌,
  ℕ_discrete,
}
use referendum_services.Car.Shard.{Bytes}
use referendum_services.Car.Session.{
  StoreError, DeltaSession, Store, get_actor_repo_rev, new_delta_session, close_with_root,
}
use referendum_services.Repo.Tid.{Clock}
use referendum_services.Repo.Actions.{RepoError, store_failed, Action}
use referendum_services.Repo.ActorRepo.{Repo, Work, Outside, open_repo}

pub data EventKind : Type 0 where
  create_kind update_kind delete_kind : EventKind

pub record Op (Cid Rec : Type 0) : Type 0 where
  pub kind : EventKind
  pub collection : String
  pub rkey : String
  pub rec_cid : Option Cid
  pub rec : Option Rec

pub record Event (Cid Rec : Type 0) : Type 0 where
  pub actor : ℕ
  pub old_root : Option Cid
  pub new_root : Cid
  pub since : Option String
  pub rev : String
  pub repo_slice : Bytes
  pub pds : ℕ
  pub ops : List (Op Cid Rec)

-- The manager, its store, and the clock of the package. `events` tells whether a callback is set.
pub record World (Cid Rec S : Type 0) : Type 0 where
  pub store : Store Cid S
  pub clock : Clock
  pub events : Bool
  pub hydrate_records : Bool
  pub sent : List (Event Cid Rec)

-- `SetEventHandler`
unfoldable pub set_event_handler : {Cid Rec S : Type 0} → Bool → World Cid Rec S → World Cid Rec S
set_event_handler hydrate w = record w { events = true; hydrate_records = hydrate }

module _ {Cid Block Rec Tree S : Type 0} (out : Outside Cid Block Rec Tree S) where
  abbrev pub of_store :
      {A : Type 0} → World Cid Rec S → Option A × Store Cid S → (RepoError ⊎ A) × World Cid Rec S
  of_store w (none, st) = (inl store_failed, record w { store = st })
  of_store w (some a, st) = (inr a, record w { store = st })

  abbrev pub of_session :
      {A : Type 0}
      → World Cid Rec S
      → (StoreError ⊎ A) × Store Cid S
      → (RepoError ⊎ A) × World Cid Rec S
  of_session w (inl x, st) = (inl store_failed, record w { store = st })
  of_session w (inr a, st) = (inr a, record w { store = st })

  abbrev pub repo_rev : ℕ → Action (World Cid Rec S) String
  repo_rev actor w = of_store w (get_actor_repo_rev out.back ℕ_discrete actor w.store)

  abbrev pub open_session : ℕ → Option String → Action (World Cid Rec S) (DeltaSession Cid Block)
  open_session actor since w =
      of_session w (new_delta_session out.back ℕ_discrete actor since w.store)

  abbrev pub open_result :
      World Cid Rec S
      → (RepoError ⊎ Repo Cid Tree) × DeltaSession Cid Block
      → (RepoError ⊎ (Repo Cid Tree × DeltaSession Cid Block)) × World Cid Rec S
  open_result w (inl x, ds) = (inl x, w)
  open_result w (inr r, ds) = (inr (r, ds), w)

  abbrev pub open_root :
      DeltaSession Cid Block
      → Cid
      → Action (World Cid Rec S) (Repo Cid Tree × DeltaSession Cid Block)
  open_root ds root w = open_result w (open_repo out w.store.db ds root)

  abbrev pub worked :
      {A : Type 0}
      → World Cid Rec S
      → (RepoError ⊎ A) × Work Cid Block Tree S
      → (RepoError ⊎ (A × DeltaSession Cid Block)) × World Cid Rec S
  worked w (inl x, k) = (inl x, record w { clock = k.clock })
  worked w (inr a, k) = (inr (a, k.session), record w { clock = k.clock })

  -- Calls on the open repository, which only the session and the clock outlive.
  abbrev pub work_on :
      {A : Type 0}
      → Repo Cid Tree × DeltaSession Cid Block
      → Action (Work Cid Block Tree S) A
      → Action (World Cid Rec S) (A × DeltaSession Cid Block)
  work_on (r, ds) body w =
      worked w (body (record { repo = r; session = ds; clock = w.clock; db = w.store.db }))

  abbrev pub close : Cid → String → DeltaSession Cid Block → Action (World Cid Rec S) Bytes
  close root rev ds w = of_session w (
      close_with_root out.back ℕ_discrete out.cid_bytes out.raw out.dump_header root rev ds w.store)

  abbrev pub send_event : Event Cid Rec → Action (World Cid Rec S) (Unit {0})
  send_event e w = (inr tt, if w.events then record w { sent = w.sent ++ (e ∷ []) } else w)

  abbrev pub defined : Cid → Option Cid
  defined c = if out.is_defined c then some c else none
