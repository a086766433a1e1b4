-- ===== src/Repo/External.antt =====
-- internal/repo/manager.go: events of other servers. HandleExternalActorEvent imports the CAR slice, checks
-- the signature of its commit, diffs the blocks, converts the operations and sends the event on;
-- processOp converts the operations that a diff of two trees finds.
pub mod Refused
mod Examples
use Prim.Native.Char.{Char, code}
use referendum_services.Prelude.{
  ℕ, String, List, [], ◌∷◌, ◌++◌, Option, none, some, Bool, true, false, ◌⊎◌, inl, inr, ◌==◌,
  str_eq, not, if◌then◌else◌, ℕ_discrete,
}
use referendum_services.Prelude.Dict.{Dict}
use referendum_services.Car.Shard.{Bytes}
use referendum_services.Car.Session.{StoreError, DeltaSession, Store, get_block, close_with_root}
use referendum_services.Car.Diff.{DiffError}
use referendum_services.Car.Import.{CarFile, ImportError, import_slice, calc_diff}
use referendum_services.Repo.Actions.{
  RepoError, store_failed, mst_failed, encoding_failed, decoding_failed, wrong_did, unset_did,
  bad_signature, bad_path, bad_kind, no_fuel, Action, ◌>>=◌, ◌>>◌, ret, fail, of_option,
}
use referendum_services.Repo.ActorRepo
use referendum_services.Repo.ActorRepo.{Work, Repo, Outside, unsigned, open_repo}
use referendum_services.Repo.Manager.{
  World, Event, Op, EventKind, create_kind, update_kind, delete_kind, op_on, open_root, work_on,
  close, send_event,
}

-- strings.SplitN(path, "/", 2), where it has two parts.
abbrev first_with : Char → Option (String × String) → Option (String × String)
first_with c none = none
first_with c (some (a, b)) = some (String.◌∷◌ c a, b)

unfoldable pub split_path : String → Option (String × String)
split_path String.[] = none
split_path (String.◌∷◌ c s) =
    let rest = split_path s in if code c == 47 then some (String.[], s) else first_with c rest

-- An operation as the other server sends it.
pub record RepoOp (Cid : Type 0) : Type 0 where
  pub action : String
  pub path : String
  pub cid : Option Cid

-- mst.DiffOp: an operation as the diff of two trees finds it.
pub record DiffOp (Cid : Type 0) : Type 0 where
  pub op : String
  pub rpath : String
  pub new_cid : Cid

-- `VerifyActorSignature` of the key manager (internal/keymgr/keymgr.go): whether it returns no error.
unfoldable pub verify_actor_signature : String → Bytes → Bytes → Bool
verify_actor_signature did sig msg = false

module _ {Cid Block Rec Tree S : Type 0} (out : Outside Cid Block Rec Tree S) where
  -- `CheckRepoSig`
  unfoldable pub check_repo_sig : Repo Cid Tree → String → Action (World Cid Rec S) (Unit {0})
  unfolding unsigned verify_actor_signature
  check_repo_sig r did =
      if str_eq r.sc.did ""
      then fail unset_did
      else if not (str_eq did r.sc.did)
      then fail wrong_did
      else (do
        sb ← of_option encoding_failed (out.marshal (unsigned r.sc))
        (if verify_actor_signature r.sc.did r.sc.sig sb then ret tt else fail bad_signature))

  abbrev pub event_record : Bool → String → Action (Work Cid Block Tree S) (Option Rec)
  event_record true path = do (c, rec) ← ActorRepo.get_record out path; ret (some rec)
  event_record false path = ret none

  abbrev pub external_parts :
      Bool → RepoOp Cid → Option (String × String) → Action (Work Cid Block Tree S) (Op Cid Rec)
  external_parts h op none = fail bad_path
  external_parts h op (some (nsid, key)) =
      if str_eq op.action "create"
      then (do rec ← event_record h op.path; ret (op_on out create_kind nsid key op.cid rec))
      else if str_eq op.action "update"
      then (do rec ← event_record h op.path; ret (op_on out update_kind nsid key op.cid rec))
      else if str_eq op.action "delete"
      then ret (op_on out delete_kind nsid key none none)
      else fail bad_kind

  -- The loop of HandleExternalActorEvent over the operations.
  unfoldable pub external_ops :
      Bool → List (RepoOp Cid) → Action (Work Cid Block Tree S) (List (Op Cid Rec))
  unfolding split_path ActorRepo.get_record
  external_ops h [] = ret []
  external_ops h (op ∷ ops) = do
    e ← external_parts h op (split_path op.path)
    es ← external_ops h ops
    ret (e ∷ es)

  module _ (read_car : Bytes → Option (CarFile Cid Block)) (cid_of : Block → Cid)
      (scan : Block → Option (List Cid)) (is_cbor : Cid → Bool) (rounds : ℕ) where
    abbrev pub of_import :
        World Cid Rec S
        → (ImportError ⊎ (Cid × DeltaSession Cid Block)) × Store Cid S
        → (RepoError ⊎ (Cid × DeltaSession Cid Block)) × World Cid Rec S
    of_import w (inl x, st) = (inl store_failed, record w { store = st })
    of_import w (inr r, st) = (inr r, record w { store = st })

    abbrev pub import_car_slice :
        ℕ → Option String → Bytes → Action (World Cid Rec S) (Cid × DeltaSession Cid Block)
    import_car_slice aid since slice w =
        of_import w
          (import_slice out.dec cid_of out.back ℕ_discrete read_car aid since slice w.store)

    abbrev pub of_diff :
        World Cid Rec S
        → Option (DiffError ⊎ DeltaSession Cid Block)
        → (RepoError ⊎ DeltaSession Cid Block) × World Cid Rec S
    of_diff w none = (inl no_fuel, w)
    of_diff w (some (inl x)) = (inl store_failed, w)
    of_diff w (some (inr ds)) = (inr ds, w)

    abbrev pub diffed : DeltaSession Cid Block → Action (World Cid Rec S) (DeltaSession Cid Block)
    diffed ds w =
        of_diff w (calc_diff out.dec (out.base w.store.db) scan is_cbor out.is_defined rounds ds)

    module _ (pds aid : ℕ) (did : String) (since : Option String) (nrev : String) where
      abbrev pub pass_on :
          Cid → List (Op Cid Rec) × DeltaSession Cid Block → Action (World Cid Rec S) (Unit {0})
      pass_on root (ops, ds) = do
        slice ← close out root nrev ds
        send_event out (record {
          actor = aid;
          old_root = none;
          new_root = root;
          since = since;
          rev = nrev;
          repo_slice = slice;
          pds = pds;
          ops = ops;
        })

      abbrev pub after_check :
          Bool
          → List (RepoOp Cid)
          → Cid
          → Repo Cid Tree × DeltaSession Cid Block
          → Action (World Cid Rec S) (Unit {0})
      after_check h ops root (r, ds) = do
        ds' ← diffed ds
        x ← work_on out (r, ds') (external_ops h ops)
        pass_on root x

      abbrev pub checked_and_on :
          Bool
          → List (RepoOp Cid)
          → Cid
          → Repo Cid Tree × DeltaSession Cid Block
          → Action (World Cid Rec S) (Unit {0})
      checked_and_on h ops root (r, ds) = do check_repo_sig r did; after_check h ops root (r, ds)

      abbrev pub imported :
          Bool
          → List (RepoOp Cid)
          → Cid × DeltaSession Cid Block
          → Action (World Cid Rec S) (Unit {0})
      imported h ops (root, ds) = do r ← open_root out ds root; checked_and_on h ops root r

      -- `HandleExternalActorEvent`
      unfoldable pub handle_external_actor_event :
          Bytes → List (RepoOp Cid) → Action (World Cid Rec S) (Unit {0})
      unfolding import_slice open_repo check_repo_sig calc_diff external_ops close_with_root
          ℕ_discrete
      handle_external_actor_event slice ops w =
          (do x ← import_car_slice aid since slice; imported w.hydrate_records ops x) w

  module _ (is_unrecognized : Bytes → Bool) where
    abbrev pub decoded_record : Bytes → Option Rec → Action (Work Cid Block Tree S) (Option Rec)
    decoded_record raw (some rec) = ret (some rec)
    decoded_record raw none = if is_unrecognized raw then ret none else fail decoding_failed

    abbrev pub read_block : StoreError ⊎ Block → Action (Work Cid Block Tree S) (Option Rec)
    read_block (inl x) = fail store_failed
    read_block (inr b) = decoded_record (out.raw b) (out.decode (out.raw b))

    abbrev pub stored_record : Bool → Cid → Action (Work Cid Block Tree S) (Option Rec)
    stored_record false c w = (inr none, w)
    stored_record true c w = read_block (get_block out.dec (out.base w.db) c w.session) w

    abbrev pub process_parts :
        Bool → DiffOp Cid → Option (String × String) → Action (Work Cid Block Tree S) (Op Cid Rec)
    process_parts h d none = fail bad_path
    process_parts h d (some (nsid, key)) =
        if str_eq d.op "add"
        then (do
          rec ← stored_record h d.new_cid
          ret (op_on out create_kind nsid key (some d.new_cid) rec))
        else if str_eq d.op "mut"
        then (do
          rec ← stored_record h d.new_cid
          ret (op_on out update_kind nsid key (some d.new_cid) rec))
        else if str_eq d.op "del"
        then ret (op_on out delete_kind nsid key none none)
        else fail bad_kind

    -- `processOp`
    unfoldable pub process_op : Bool → DiffOp Cid → Action (Work Cid Block Tree S) (Op Cid Rec)
    unfolding split_path get_block
    process_op h d = process_parts h d (split_path d.rpath)

    -- ImportNewRepo's loop: an operation that fails is logged and left out.
    unfoldable pub process_ops :
        Bool → List (DiffOp Cid) → Work Cid Block Tree S → List (Op Cid Rec)
    unfolding process_op
    process_ops h [] w = []
    process_ops h (d ∷ ds) w = kept (process_op h d w).0 (process_ops h ds w)
      where
        kept : RepoError ⊎ Op Cid Rec → List (Op Cid Rec) → List (Op Cid Rec)
        kept (inl x) ops = ops
        kept (inr op) ops = op ∷ ops
