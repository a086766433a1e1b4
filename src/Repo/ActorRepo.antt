-- ===== src/Repo/ActorRepo.antt =====
-- internal/repo/repo.go: an actor's repository, opened on a session of the CAR store. The Merkle search
-- tree is indigo's `mst`, the CBOR codec is generated, and the key manager signs: they are the fields of
-- `Outside`. Their calls read the database and read and write the session's blocks.
pub mod Session
use referendum_services.Prelude.{
  ℕ, String, List, Option, none, some, Bool, true, false, ◌⊎◌, inl, inr, ◌||◌, not, str_eq,
  if◌then◌else◌,
}
use referendum_services.Prelude.Int.{ℤ, pos, eq_ℤ}
use referendum_services.Prelude.Dict.{Dict}
use referendum_services.Car.Shard.{Bytes}
use referendum_services.Car.Session.{StoreError, DeltaSession, Backend, get_block}
use referendum_services.Repo.Tid.{Clock, next_tid}
use referendum_services.Repo.Actions.{
  RepoError, store_failed, mst_failed, encoding_failed, decoding_failed, signing_failed,
  bad_version, unset_did, no_tid, Action, ◌>>=◌, ◌>>◌, ret, fail, of_option,
}

pub record SignedCommit (Cid : Type 0) : Type 0 where
  pub did : String
  pub version : ℤ
  pub prev : Option Cid
  pub data_cid : Cid
  pub sig : Bytes
  pub rev : String

pub record UnsignedCommit (Cid : Type 0) : Type 0 where
  pub did : String
  pub version : ℤ
  pub prev : Option Cid
  pub data_cid : Cid
  pub rev : String

pub record Repo (Cid Tree : Type 0) : Type 0 where
  pub sc : SignedCommit Cid
  pub repo_cid : Cid
  pub tree : Option Tree
  pub dirty : Bool

-- An open repository at work: the session it reads and writes, the clock of `NextTID`, and the database.
pub record Work (Cid Block Tree S : Type 0) : Type 0 where
  pub repo : Repo Cid Tree
  pub session : DeltaSession Cid Block
  pub clock : Clock
  pub db : S

-- A call of the libraries on the session, of which it may change the blocks, by `Put`.
abbrev pub Call : Type 0 → Type 0 → Type 0 → Type 0 → Type 0
Call Cid Block S A = S → DeltaSession Cid Block → Option A × Dict Cid Block

pub record Outside (Cid Block Rec Tree S : Type 0) : Type 0 where
  pub undef : Cid
  pub is_defined : Cid → Bool
  -- mst: NewEmptyMST, LoadMST, Add (with no known zeros), Update, Delete, Get and GetPointer
  pub empty_tree : Tree
  pub load_tree : Cid → Tree
  pub add : Tree → String → Cid → Call Cid Block S Tree
  pub update : Tree → String → Cid → Call Cid Block S Tree
  pub delete : Tree → String → Call Cid Block S Tree
  pub find : Tree → String → Call Cid Block S Cid
  pub pointer : Tree → Call Cid Block S Cid
  -- the CBOR store on the session: Put of a record or a commit, Get of a commit
  pub put_record : Rec → Call Cid Block S Cid
  pub put_commit : SignedCommit Cid → Call Cid Block S Cid
  pub load_commit : Cid → Call Cid Block S (SignedCommit Cid)
  -- the store's database, and the CIDs and headers of its CAR files
  pub back : Backend Cid S
  pub dec : Discrete Cid
  pub cid_bytes : Cid → Bytes
  pub dump_header : Cid → Option Bytes
  -- the actor's stored blocks, a block's bytes, and the record they encode
  pub base : S → Cid → StoreError ⊎ Block
  pub raw : Block → Bytes
  pub decode : Bytes → Option Rec
  -- MarshalCBOR and SignForActor
  pub marshal : UnsignedCommit Cid → Option Bytes
  pub sign : String → Bytes → Option Bytes
  -- the text of ASCII bytes, and the system clock's reading when the package's clock stands so
  pub text : List ℕ → String
  pub now : Clock → ℕ

unfoldable pub unsigned : {Cid : Type 0} → SignedCommit Cid → UnsignedCommit Cid
unsigned c = record {
  did = c.did;
  version = c.version;
  prev = c.prev;
  data_cid = c.data_cid;
  rev = c.rev;
}

module _ {Cid Block Rec Tree S : Type 0} (out : Outside Cid Block Rec Tree S) where
  abbrev pub returned :
      {A : Type 0}
      → RepoError
      → Work Cid Block Tree S
      → Option A × Dict Cid Block
      → (RepoError ⊎ A) × Work Cid Block Tree S
  returned x w (none, d) = (inl x, record w { session = record w.session { blks = d } })
  returned x w (some a, d) = (inr a, record w { session = record w.session { blks = d } })

  -- A call that gets the session: its error is `x`.
  abbrev pub call : {A : Type 0} → RepoError → Call Cid Block S A → Action (Work Cid Block Tree S) A
  call x f = λ w. returned x w (f w.db w.session)

  abbrev pub empty_commit : String → SignedCommit Cid
  empty_commit did = record {
    did = did;
    version = pos 2;
    prev = none;
    data_cid = out.undef;
    sig = List.[];
    rev = "";
  }

  -- `NewRepo`
  unfoldable pub new_repo : String → Repo Cid Tree
  new_repo did = record {
    sc = empty_commit did;
    repo_cid = out.undef;
    tree = some out.empty_tree;
    dirty = true;
  }

  -- ATP_REPO_VERSION and ATP_REPO_VERSION_2
  abbrev pub is_supported : ℤ → Bool
  is_supported v = eq_ℤ v (pos 3) || eq_ℤ v (pos 2)

  abbrev pub opened :
      Cid
      → DeltaSession Cid Block
      → Option (SignedCommit Cid) × Dict Cid Block
      → (RepoError ⊎ Repo Cid Tree) × DeltaSession Cid Block
  opened root ds (none, d) = (inl decoding_failed, record ds { blks = d })
  opened root ds (some c, d) = (
    if is_supported c.version
        then inr (record { sc = c; repo_cid = root; tree = none; dirty = false })
        else inl bad_version,
    record ds { blks = d },
  )

  -- `OpenRepo`
  unfoldable pub open_repo :
      S → DeltaSession Cid Block → Cid → (RepoError ⊎ Repo Cid Tree) × DeltaSession Cid Block
  open_repo db ds root = opened root ds (out.load_commit root db ds)

  -- `RepoDid`, which panics on an unset DID.
  unfoldable pub repo_did : Action (Work Cid Block Tree S) String
  repo_did w = if str_eq w.repo.sc.did "" then (inl unset_did, w) else (inr w.repo.sc.did, w)

  abbrev pub in_hand :
      Work Cid Block Tree S → Option Tree → (RepoError ⊎ Tree) × Work Cid Block Tree S
  in_hand w none =
      let t = out.load_tree w.repo.sc.data_cid in
      (inr t, record w { repo = record w.repo { tree = some t } })
  in_hand w (some t) = (inr t, w)

  -- `getMst`: the tree in hand, or the one loaded from the commit.
  unfoldable pub get_mst : Action (Work Cid Block Tree S) Tree
  get_mst w = in_hand w w.repo.tree

  abbrev pub mark_dirty : Action (Work Cid Block Tree S) (Unit {0})
  mark_dirty w = (inr tt, record w { repo = record w.repo { dirty = true } })

  abbrev pub set_tree : Tree → Action (Work Cid Block Tree S) (Unit {0})
  set_tree t w = (inr tt, record w { repo = record w.repo { tree = some t } })

  abbrev pub change_tree : Call Cid Block S Tree → Action (Work Cid Block Tree S) (Unit {0})
  change_tree change = do t' ← call mst_failed change; set_tree t'

  abbrev pub put_and_change :
      Rec → (Cid → Call Cid Block S Tree) → Action (Work Cid Block Tree S) Cid
  put_and_change rec change = do
    k ← call encoding_failed (out.put_record rec)
    change_tree (change k)
    ret k

  -- `Repo.CreateRecord`
  unfoldable pub create_record : String → Rec → Action (Work Cid Block Tree S) Cid
  unfolding get_mst
  create_record rpath rec = do mark_dirty; t ← get_mst; put_and_change rec (out.add t rpath)

  -- `Repo.UpdateRecord`
  unfoldable pub update_record : String → Rec → Action (Work Cid Block Tree S) Cid
  unfolding get_mst
  update_record rpath rec = do mark_dirty; t ← get_mst; put_and_change rec (out.update t rpath)

  -- `Repo.DeleteRecord`
  unfoldable pub delete_record : String → Action (Work Cid Block Tree S) (Unit {0})
  unfolding get_mst
  delete_record rpath = do mark_dirty; t ← get_mst; change_tree (out.delete t rpath)

  abbrev pub taken :
      Work Cid Block Tree S → Option (List ℕ × Clock) → (RepoError ⊎ String) × Work Cid Block Tree S
  taken w none = (inl no_tid, w)
  taken w (some (tid, k)) = (inr (out.text tid), record w { clock = k })

  abbrev pub next_rev : Action (Work Cid Block Tree S) String
  next_rev w = taken w (next_tid (out.now w.clock) w.clock)

  abbrev pub set_commit : SignedCommit Cid → Action (Work Cid Block Tree S) (Unit {0})
  set_commit c w = (inr tt, record w { repo = record w.repo { sc = c; dirty = false } })

  abbrev pub unsigned_commit : String → Cid → String → UnsignedCommit Cid
  unsigned_commit did root rev = record {
    did = did;
    version = pos 3;
    prev = none;
    data_cid = root;
    rev = rev;
  }

  abbrev pub with_signature : UnsignedCommit Cid → Bytes → SignedCommit Cid
  with_signature u sig = record {
    did = u.did;
    version = u.version;
    prev = u.prev;
    data_cid = u.data_cid;
    sig = sig;
    rev = u.rev;
  }

  -- The second half of `Commit`: the commit is signed, and stored with its signature.
  unfoldable pub put_signed : UnsignedCommit Cid → Action (Work Cid Block Tree S) (Cid × String)
  put_signed u = do
    sb ← of_option encoding_failed (out.marshal u)
    sig ← of_option signing_failed (out.sign u.did sb)
    c ← call encoding_failed (out.put_commit (with_signature u sig))
    set_commit (with_signature u sig)
    ret (c, u.rev)

  abbrev pub put_root : Cid → Action (Work Cid Block Tree S) (Cid × String)
  put_root root = do did ← repo_did; rev ← next_rev; put_signed (unsigned_commit did root rev)

  -- `Commit`: the commit's CID and revision.
  unfoldable pub commit : Action (Work Cid Block Tree S) (Cid × String)
  unfolding get_mst repo_did next_tid put_signed
  commit = do t ← get_mst; root ← call mst_failed (out.pointer t); put_root root

  abbrev stored : StoreError ⊎ Block → Option Bytes
  stored (inl x) = none
  stored (inr b) = some (out.raw b)

  -- `GetRecordBytes`
  unfoldable pub get_record_bytes : String → Action (Work Cid Block Tree S) (Cid × Bytes)
  unfolding get_mst get_block
  get_record_bytes rpath = do
    t ← get_mst
    c ← call mst_failed (out.find t rpath)
    raw ← (λ w. of_option store_failed (stored (get_block out.dec (out.base w.db) c w.session)) w)
    ret (c, raw)

  -- `GetRecord` and `GetEventRecord`
  unfoldable pub get_record : String → Action (Work Cid Block Tree S) (Cid × Rec)
  unfolding get_record_bytes
  get_record rpath = do
    (c, raw) ← get_record_bytes rpath
    rec ← of_option decoding_failed (out.decode raw)
    ret (c, rec)
