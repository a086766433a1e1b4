-- ===== src/Repo/Manager.antt =====
-- internal/repo/manager.go: an actor's writes. Each opens a session on the actor's last revision, changes
-- the repository, signs a new root, closes the session and sends an event. The lock of the actor is
-- held throughout, so each is one action (Manager/Locks). What the callback does with an event is the
-- client's: the events are kept in the order they are sent.
pub mod State
pub mod Standing
pub mod Outcome
pub mod Bodies
pub mod Chain
pub mod One
pub mod Refinement
pub mod Committed
pub mod Unsaved
pub mod Examples
pub use State.*
use Prim.Native.String.{◌++◌ as str_append}
use referendum_services.Prelude.{
  ℕ, String, List, [], ◌∷◌, ◌++◌, Option, none, some, Bool, true, false, ◌⊎◌, inl, inr, str_eq,
  ◌==◌, if◌then◌else◌, ℕ_discrete, ◌≡◌,
}
use referendum_services.Car.Shard.{Bytes}
use referendum_services.Car.Session.{
  StoreError, DeltaSession, Store, get_actor_repo_rev, get_actor_repo_head, new_delta_session,
  read_only_session, close_with_root,
}
use referendum_services.Repo.Tid.{Clock}
use referendum_services.Repo.Actions.{
  RepoError, store_failed, missing_did, missing_actor, no_operation, wrong_cid, Action, ◌>>=◌, ◌>>◌,
  ret, fail,
}
use referendum_services.Repo.ActorRepo
use referendum_services.Repo.ActorRepo.{Repo, Work, Outside, new_repo, open_repo, commit, next_rev}

-- An element of a batch; in Go it is a struct of three pointers, which may all be nil.
pub data Write (Rec : Type 0) : Type 0 where
  create_write : String → Option String → Rec → Write Rec
  update_write : String → String → Rec → Write Rec
  delete_write : String → String → Write Rec
  empty_write : Write Rec

-- nsid + "/" + key
abbrev pub path_of : String → String → String
path_of nsid key = str_append (str_append nsid "/") key

module _ {Cid Block Rec Tree S : Type 0} (out : Outside Cid Block Rec Tree S) where
  module _ {A : Type 0} (actor : ℕ) where
    -- The session is closed with the new root, and the event is sent.
    abbrev pub finish_write :
        String
        → Cid
        → ((A × List (Op Cid Rec)) × (Cid × String)) × DeltaSession Cid Block
        → Action (World Cid Rec S) A
    finish_write rev head (((a, ops), (nroot, nrev)), ds) = do
      slice ← close out nroot nrev ds
      send_event out (record {
        actor = actor;
        old_root = defined out head;
        new_root = nroot;
        since = some rev;
        rev = nrev;
        repo_slice = slice;
        pds = 0;
        ops = ops;
      })
      ret a

    abbrev pub body_and_commit :
        Action (Work Cid Block Tree S) (A × List (Op Cid Rec))
        → Action (Work Cid Block Tree S) ((A × List (Op Cid Rec)) × (Cid × String))
    body_and_commit body = do b ← body; c ← commit out; ret (b, c)

    abbrev pub write_opened :
        Action (Work Cid Block Tree S) (A × List (Op Cid Rec))
        → String
        → Cid
        → Repo Cid Tree × DeltaSession Cid Block
        → Action (World Cid Rec S) A
    write_opened body rev head r = do
      x ← work_on out r (body_and_commit body)
      finish_write rev head x

    abbrev pub write_session :
        Action (Work Cid Block Tree S) (A × List (Op Cid Rec))
        → String
        → DeltaSession Cid Block
        → Action (World Cid Rec S) A
    write_session body rev ds = do
      r ← open_root out ds ds.base_cid
      write_opened body rev ds.base_cid r

    abbrev pub write_from :
        Action (Work Cid Block Tree S) (A × List (Op Cid Rec)) → String → Action (World Cid Rec S) A
    write_from body rev = do ds ← open_session out actor (some rev); write_session body rev ds

    -- What the four writes of an existing repository share: `body` changes the repository and tells
    -- the operations of the event.
    unfoldable pub write_repo :
        Action (Work Cid Block Tree S) (A × List (Op Cid Rec)) → Action (World Cid Rec S) A
    unfolding get_actor_repo_rev new_delta_session open_repo commit close_with_root ℕ_discrete
    write_repo body = do rev ← repo_rev out actor; write_from body rev

  abbrev pub op_on : EventKind → String → String → Option Cid → Option Rec → Op Cid Rec
  op_on kind nsid key c rec = record {
    kind = kind;
    collection = nsid;
    rkey = key;
    rec_cid = c;
    rec = rec;
  }

  abbrev pub hydrated : Bool → Rec → Option Rec
  hydrated h rec = if h then some rec else none

  abbrev pub create_body :
      String → String → Rec → Action (Work Cid Block Tree S) ((Cid × String) × List (Op Cid Rec))
  create_body nsid key rec = do
    cc ← ActorRepo.create_record out (path_of nsid key) rec
    ret ((cc, key), op_on create_kind nsid key (some cc) (some rec) ∷ [])

  -- `Manager.CreateRecord`, which puts the record into the event in any case.
  unfoldable pub create_record : ℕ → String → String → Rec → Action (World Cid Rec S) (Cid × String)
  unfolding write_repo ActorRepo.create_record
  create_record actor nsid key rec = write_repo actor (create_body nsid key rec)

  abbrev pub update_body :
      Bool → String → String → Rec → Action (Work Cid Block Tree S) (Cid × List (Op Cid Rec))
  update_body h nsid key rec = do
    cc ← ActorRepo.update_record out (path_of nsid key) rec
    ret (cc, op_on update_kind nsid key (some cc) (hydrated h rec) ∷ [])

  -- `Manager.UpdateRecord`
  unfoldable pub update_record : ℕ → String → String → Rec → Action (World Cid Rec S) Cid
  unfolding write_repo ActorRepo.update_record
  update_record actor nsid key rec w =
      write_repo actor (update_body w.hydrate_records nsid key rec) w

  abbrev pub delete_body :
      String → String → Action (Work Cid Block Tree S) (Unit {0} × List (Op Cid Rec))
  delete_body nsid key = do
    ActorRepo.delete_record out (path_of nsid key)
    ret (tt, op_on delete_kind nsid key none none ∷ [])

  -- `Manager.DeleteRecord`
  unfoldable pub delete_record : ℕ → String → String → Action (World Cid Rec S) (Unit {0})
  unfolding write_repo ActorRepo.delete_record
  delete_record actor nsid key = write_repo actor (delete_body nsid key)

  -- c.Rkey, or a new key where it is nil
  abbrev pub rkey_of : Option String → Action (Work Cid Block Tree S) String
  rkey_of (some k) = ret k
  rkey_of none = next_rev out

  -- One round of BatchWrite's loop: the operation of the event.
  unfoldable pub apply_write : Bool → Write Rec → Action (Work Cid Block Tree S) (Op Cid Rec)
  unfolding ActorRepo.create_record ActorRepo.update_record ActorRepo.delete_record
  apply_write h (create_write nsid key rec) = do
    rkey ← rkey_of key
    cc ← ActorRepo.create_record out (path_of nsid rkey) rec
    ret (op_on create_kind nsid rkey (some cc) (hydrated h rec))
  apply_write h (update_write nsid key rec) = do
    cc ← ActorRepo.update_record out (path_of nsid key) rec
    ret (op_on update_kind nsid key (some cc) (hydrated h rec))
  apply_write h (delete_write nsid key) = do
    ActorRepo.delete_record out (path_of nsid key)
    ret (op_on delete_kind nsid key none none)
  apply_write h empty_write = fail no_operation

  unfoldable pub apply_writes :
      Bool → List (Write Rec) → Action (Work Cid Block Tree S) (List (Op Cid Rec))
  unfolding apply_write
  apply_writes h [] = ret []
  apply_writes h (x ∷ xs) = do op ← apply_write h x; ops ← apply_writes h xs; ret (op ∷ ops)

  abbrev pub batch_body :
      Bool → List (Write Rec) → Action (Work Cid Block Tree S) (Unit {0} × List (Op Cid Rec))
  batch_body h writes = do ops ← apply_writes h writes; ret (tt, ops)

  -- `BatchWrite`
  unfoldable pub batch_write : ℕ → List (Write Rec) → Action (World Cid Rec S) (Unit {0})
  unfolding write_repo apply_writes
  batch_write actor writes w = write_repo actor (batch_body w.hydrate_records writes) w

  -- `InitNewRepo`
  unfoldable pub init_new_repo :
      ℕ → String → String → String → Rec → Action (World Cid Rec S) (Unit {0})
  unfolding new_delta_session new_repo ActorRepo.create_record commit close_with_root ℕ_discrete
  init_new_repo actor did nsid key prof w =
      if str_eq did ""
      then (inl missing_did, w)
      else if actor == 0
      then (inl missing_actor, w)
      else (do
        ds ← open_session out actor none
        ((nroot, nrev), ds') ←
            work_on out (new_repo out did, ds)
              (do cc ← ActorRepo.create_record out (path_of nsid key) prof; commit out)
        slice ← close out nroot nrev ds'
        send_event out (record {
          actor = actor;
          old_root = none;
          new_root = nroot;
          since = none;
          rev = nrev;
          repo_slice = slice;
          pds = 0;
          ops = op_on create_kind nsid key none (hydrated w.hydrate_records prof) ∷ [];
        }))
          w

  abbrev repo_head : ℕ → Action (World Cid Rec S) Cid
  repo_head actor w =
      of_store out w (get_actor_repo_head out.back ℕ_discrete out.undef actor w.store)

  -- `GetRecord`: `maybe` is the CID that the caller expects, or undefined.
  unfoldable pub get_record : ℕ → String → String → Cid → Action (World Cid Rec S) (Cid × Rec)
  unfolding get_actor_repo_head open_repo ActorRepo.get_record ℕ_discrete
  get_record actor nsid key maybe = do
    head ← repo_head actor
    r ← open_root out (read_only_session out.back ℕ_discrete out.undef actor) head
    ((c, rec), ds) ← work_on out r (ActorRepo.get_record out (path_of nsid key))
    (if out.is_defined maybe then expected c rec (out.dec c maybe) else ret (c, rec))
    where
      expected : {c' : Cid} (c : Cid) → Rec → Dec (c ≡ c') → Action (World Cid Rec S) (Cid × Rec)
      expected c rec (yes p) = ret (c, rec)
      expected c rec (no q) = fail wrong_cid
