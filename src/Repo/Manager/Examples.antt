-- ===== src/Repo/Manager/Examples.antt =====
-- Runs of the manager over a tree of the one path "a/1": its CID is 0 where it is empty, else one more
-- than the record's.
use referendum_services.Prelude.{
  ℕ, zero, suc, ◌+◌, String, List, [], ◌∷◌, ◌++◌, Option, none, some, true, false, ◌≡◌, refl, inr,
  ◌==◌, not, arith, ◌⊎◌, inl, if◌then◌else◌, ite, ℕ_discrete, length, ap, sym, ◌∙◌,
}
use referendum_services.Prelude.Int.{pos}
use referendum_services.Prelude.Dict.{Dict, get, put, get-put_self}
use referendum_services.Prelude.Tests.{String_discrete}
use referendum_services.Car.Shard.{Bytes, Shard}
use referendum_services.Car.Session.{Backend}
use referendum_services.Car.Session.Keeps.{IsOwn}
use referendum_services.Repo.ActorRepo.{Outside, SignedCommit, Work, commit}
use referendum_services.Repo.Manager.{
  World, Event, Op, Write, create_write, update_write, delete_write, batch_write, create_record,
  update_record, delete_record, apply_writes, body_and_commit, batch_body, op_on, create_kind,
  update_kind,
}
use referendum_services.Repo.Manager.Standing.{IsNumbered, StandsAt}
use referendum_services.Repo.Manager.Outcome.{Outcome}
use referendum_services.Repo.Manager.Chain.{
  Request, create_one, update_one, delete_one, write_batch, perform_all, events_of, IsChained,
  perform_all-IsChained, writes-Outcome,
}
use referendum_services.Repo.Manager.One.{mapped, batch_write-one}
use referendum_services.Repo.Manager.Refinement.{IsMap, paths, apply_ops}
use referendum_services.Repo.Manager.Committed.{
  IsStored, IsLoadable, Loads, Committed, batch-Committed,
}

abbrev first_shard : Shard ℕ
first_shard = record {
  id = 1;
  root = 3;
  data_start = 0;
  seq = pos 0;
  path = "sh";
  aid = 5;
  rev = "r0";
}

abbrev rows : Backend ℕ ℕ
rows = record {
  undef_cid = 0;
  last_row = λ actor s. some (if actor == 5 then some first_shard else none);
  begin_tx = λ s. some s;
  create_shard = λ sh s. (some (suc s), suc s);
  create_batch = λ refs s. (true, s);
  commit_tx = λ s. some s;
  put_file = λ actor seq b s. (some "sh", s);
}

abbrev stored : SignedCommit ℕ
stored = record {
  did = "did:plc:a";
  version = pos 3;
  prev = none;
  data_cid = 0;
  sig = [];
  rev = "r0";
}

abbrev only_path : {A : Type 0} → String → Option A → Option A
only_path p o = ite (String_discrete "a/1" p) o none

abbrev loaded : ℕ → Option ℕ
loaded zero = none
loaded (suc c) = some c

abbrev root_of : Option ℕ → ℕ
root_of none = 0
root_of (some c) = suc c

-- A block is the bytes of a record, or a commit.
abbrev pub Stored : Type 0
Stored = Bytes ⊎ SignedCommit ℕ

abbrev raw_of : Stored → Bytes
raw_of (inl b) = b
raw_of (inr c) = c.data_cid ∷ []

abbrev commit_of : Option Stored → Option (SignedCommit ℕ)
commit_of none = some stored
commit_of (some (inl b)) = none
commit_of (some (inr c)) = some c

abbrev pub outside : Outside ℕ Stored ℕ (Option ℕ) ℕ
outside = record {
  undef = 0;
  is_defined = λ c. not (c == 0);
  empty_tree = none;
  load_tree = loaded;
  add = λ t p c s ds. (only_path p (some (some c)), ds.blks);
  update = λ t p c s ds. (only_path p (some (some c)), ds.blks);
  delete = λ t p s ds. (only_path p (some none), ds.blks);
  find = λ t p s ds. (only_path p t, ds.blks);
  pointer = λ t s ds. (some (root_of t), ds.blks);
  put_record = λ r s ds. (some r, put ℕ_discrete ds.blks r (inl (r ∷ [])));
  put_commit =
      λ c s ds. (some (100 + c.data_cid), put ℕ_discrete ds.blks (100 + c.data_cid) (inr c));
  load_commit = λ c s ds. (commit_of (get ℕ_discrete ds.blks c), ds.blks);
  back = rows;
  dec = ℕ_discrete;
  cid_bytes = λ c. c ∷ [];
  dump_header = λ c. some (c ∷ []);
  base = λ s c. inr (inl (c ∷ []));
  raw = raw_of;
  decode = λ b. some (length b);
  marshal = λ u. some (u.data_cid ∷ []);
  sign = λ did b. some (9 ∷ b);
  text = λ l. "r1";
  now = λ k. k.last_time;
}

numbered : IsNumbered outside
numbered sh s s' n e = ground (arith, e)

own : IsOwn rows ℕ_discrete
own actor s sh e = ground (arith, e)

abbrev pub start : World ℕ ℕ ℕ
start = record {
  store = record { cache = (5, first_shard) ∷ []; db = 1 };
  clock = record { last_time = 7; clock_id = 2 };
  events = true;
  hydrate_records = true;
  sent = [];
}

start-StandsAt : StandsAt outside 5 3 "r0" start
unfolding ℕ_discrete get
start-StandsAt = (first_shard, refl, refl, refl, λ e. ground (arith, e))

abbrev requests : List (ℕ × Request ℕ)
requests =
    (5, create_one "a" "1" 4)
    ∷ (6, delete_one "a" "1")
    ∷ (5, update_one "b" "1" 4)
    ∷ (5, write_batch (update_write "a" "1" 8 ∷ delete_write "a" "1" ∷ []))
    ∷ []

-- Three of the four requests succeed.
three_sent : length (perform_all outside requests start).sent ≡ 3
unfolding perform_all ℕ_discrete String_discrete put
three_sent = refl

perform_all-IsChained_example :
    (es : List (Event ℕ ℕ)) × ((perform_all outside requests start).sent ≡ [] ++ es)
    × IsChained outside 3 "r0" (events_of outside 5 es)
perform_all-IsChained_example =
    perform_all-IsChained outside numbered own requests start 5 3 "r0" (λ e. ground (arith, e)) refl
      start-StandsAt

batch_write-one_example :
    (true ≡ true
      → batch_write outside 5 (create_write "a" (some "1") 4 ∷ []) start
        ≡ mapped outside (λ y. tt) (create_record outside 5 "a" "1" 4 start))
    × (batch_write outside 5 (update_write "a" "1" 4 ∷ []) start
        ≡ mapped outside (λ y. tt) (update_record outside 5 "a" "1" 4 start))
    × (batch_write outside 5 (delete_write "a" "1" ∷ []) start
        ≡ mapped outside (λ y. tt) (delete_record outside 5 "a" "1" start))
batch_write-one_example = batch_write-one outside 5 "a" "1" 4 start

writes-Outcome_example :
    Outcome outside 5 start (create_record outside 5 "a" "1" 4 start)
    × Outcome outside 5 start (update_record outside 5 "a" "1" 4 start)
    × Outcome outside 5 start (delete_record outside 5 "a" "1" start)
    × Outcome outside 5 start (batch_write outside 5 (delete_write "a" "1" ∷ []) start)
writes-Outcome_example =
    writes-Outcome outside numbered own 5 "a" "1" 4 (delete_write "a" "1" ∷ []) start

abbrev view : Option ℕ → String → Option ℕ
view t p = only_path p t

put_view :
    (t t' : Option ℕ) (p : String) (c : Option ℕ) (blks d : Dict ℕ Stored)
    → ◌≡◌ {A = Option (Option ℕ) × Dict ℕ Stored} (only_path p (some c), blks) (some t', d)
    → (q : String) → view t' q ≡ ite (String_discrete p q) c (view t q)
put_view t t' p c blks d e q = ground arith

view-IsMap : IsMap outside view
view-IsMap = (
  λ t t' p c s ds d. put_view t t' p (some c) ds.blks d,
  λ t t' p c s ds d. put_view t t' p (some c) ds.blks d,
  λ t t' p s ds d. put_view t t' p none ds.blks d,
)

loaded_root : (t : Option ℕ) → loaded (root_of t) ≡ t
loaded_root none = refl
loaded_root (some c) = refl

view-IsStored : IsStored outside view
view-IsStored t c s ds d e q =
    let root : root_of t ≡ c = ground (arith, e) in
    ap (λ x. view (loaded x) q) (sym root) ∙ ap (λ x. view x q) (loaded_root t)

commit-IsLoadable : IsLoadable outside view
commit-IsLoadable sc c db ds d e =
    let cid : 100 + sc.data_cid ≡ c = ground (arith, e) in
    let blks : put ℕ_discrete ds.blks (100 + sc.data_cid) (inr sc) ≡ d = ap (λ z. z.1) e in
    ap (λ l. commit_of (get ℕ_discrete l c)) (sym blks)
    ∙ ap (λ k. commit_of (get ℕ_discrete (put ℕ_discrete ds.blks (100 + sc.data_cid) (inr sc)) k))
        (sym cid)
    ∙ ap commit_of (get-put_self ℕ_discrete ds.blks (100 + sc.data_cid) (inr sc))

abbrev work : Work ℕ Stored (Option ℕ) ℕ
work = record {
  repo = record { sc = stored; repo_cid = 3; tree = none; dirty = false };
  session = record {
    blks = [];
    rmcids = [];
    actor = 5;
    base_cid = 3;
    seq = pos 1;
    readonly = false;
    last_rev = "r0";
  };
  clock = start.clock;
  db = 1;
}

abbrev writes : List (Write ℕ)
writes = create_write "a" (some "1") 4 ∷ update_write "a" "1" 8 ∷ []

abbrev ops : List (Op ℕ ℕ)
ops =
    op_on outside create_kind "a" "1" (some 4) (some 4)
    ∷ op_on outside update_kind "a" "1" (some 8) (some 8)
    ∷ []

abbrev second : SignedCommit ℕ
second = record {
  did = "did:plc:a";
  version = pos 3;
  prev = none;
  data_cid = 9;
  sig = 9 ∷ 9 ∷ [];
  rev = "r1";
}

abbrev done : Work ℕ Stored (Option ℕ) ℕ
done = record {
  repo = record { sc = second; repo_cid = 3; tree = some (some 8); dirty = false };
  session = record work.session {
    blks = (4, inl (4 ∷ [])) ∷ (8, inl (8 ∷ [])) ∷ (109, inr second) ∷ [];
  };
  clock = record { last_time = 8; clock_id = 2 };
  db = 1;
}

written :
    body_and_commit outside 5 (batch_body outside true writes) work
    ≡ (inr ((tt, ops), (109, "r1")), done)
unfolding apply_writes commit String_discrete put ℕ_discrete
written = refl

batch-Committed_example :
    Committed outside view
      (apply_ops outside view ops (paths outside view work))
      "did:plc:a"
      "r1"
      done.repo.sc
    × Loads outside view 109 done done.repo.sc
batch-Committed_example =
    batch-Committed outside view view-IsMap view-IsStored commit-IsLoadable 5 true writes work done
      ops 109 "r1" written
