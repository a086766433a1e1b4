-- ===== src/Car/Session.antt =====
-- internal/car: the cache of last shards (last_shard_cache.go), the delta session (delta_session.go),
-- and the operations of the store that open and close one (store.go). Shards are values: no code
-- changes one after it is cached. S is the state of the database and the file store, which are
-- parameters. The mutexes make each cache operation one step; a look-up that misses is one step with its
-- query, so no other operation on the actor comes between.
pub mod Delta
pub mod Batches
pub mod Head
pub mod Keeps
mod Examples
use referendum_services.Prelude.{
  ℕ, zero, suc, ◌+◌, String, List, [], ◌∷◌, ◌++◌, map, take, drop, Option, none, some, Bool, true,
  false, str_eq, not, ◌==◌, length, if◌then◌else◌, is_some, ◌⊎◌, inl, inr,
}
use referendum_services.Prelude.Int.{ℤ, pos, inc_int64}
use referendum_services.Prelude.Dict.{Dict, get, put, del}
use referendum_services.Car.Shard.{Bytes, Shard, BlockRef, Written, write_car_header, shard_file}

pub data StoreError : Type 0 where
  no_shard_read revision_mismatch read_only not_found base_failed no_car_file file_failed
        rows_failed :
      StoreError

-- `DeltaSession`. Its base is a view of the actor's stored blocks, which the operations below are given.
pub record DeltaSession (Cid Block : Type 0) : Type 0 where
  pub blks : Dict Cid Block
  pub rmcids : Dict Cid Bool
  pub actor : ℕ
  pub base_cid : Cid
  pub seq : ℤ
  pub readonly : Bool
  pub last_rev : String

module _ {Cid Block : Type 0} (dec : Discrete Cid) where
  unfoldable pub put_block :
      (Block → Cid) → Block → DeltaSession Cid Block → StoreError ⊎ DeltaSession Cid Block
  unfolding put
  put_block cid_of b ds =
      if ds.readonly then inl read_only else inr (record ds { blks = put dec ds.blks (cid_of b) b })

  abbrev pub put_all : (Block → Cid) → List Block → Dict Cid Block → Dict Cid Block
  put_all cid_of [] d = d
  put_all cid_of (b ∷ bs) d = put_all cid_of bs (put dec d (cid_of b) b)

  unfoldable pub put_many :
      (Block → Cid) → List Block → DeltaSession Cid Block → StoreError ⊎ DeltaSession Cid Block
  put_many cid_of bs ds =
      if ds.readonly then inl read_only else inr (record ds { blks = put_all cid_of bs ds.blks })

  unfoldable pub delete_block : Cid → DeltaSession Cid Block → StoreError ⊎ DeltaSession Cid Block
  unfolding get del
  delete_block c ds =
      if ds.readonly
      then inl read_only
      else if not (is_some (get dec ds.blks c))
      then inl not_found
      else inr (record ds { blks = del dec ds.blks c })

  abbrev pub own_or :
      {A : Type 0} → Option Block → (Block → StoreError ⊎ A) → StoreError ⊎ A → StoreError ⊎ A
  own_or (some b) f base = f b
  own_or none f base = base

  -- `Get`, `Has` and `GetSize`: the session's own block, or what the base returns.
  unfoldable pub get_block :
      (Cid → StoreError ⊎ Block) → Cid → DeltaSession Cid Block → StoreError ⊎ Block
  unfolding get
  get_block base c ds = own_or (get dec ds.blks c) (λ b. inr b) (base c)

  unfoldable pub has_block :
      (Cid → StoreError ⊎ Bool) → Cid → DeltaSession Cid Block → StoreError ⊎ Bool
  unfolding get
  has_block base c ds = own_or (get dec ds.blks c) (λ b. inr true) (base c)

  unfoldable pub get_size :
      (Block → Bytes) → (Cid → StoreError ⊎ ℕ) → Cid → DeltaSession Cid Block → StoreError ⊎ ℕ
  unfolding get
  get_size raw base c ds = own_or (get dec ds.blks c) (λ b. inr (length (raw b))) (base c)

-- The state of the store: the cache by actor, and what the database and the file store hold.
pub record Store (Cid S : Type 0) : Type 0 where
  pub cache : Dict ℕ (Shard Cid)
  pub db : S

-- The statements and requests: the query of GetLastShard (an error, no row, or the last row); the start
-- of a transaction, its two inserts and its commit; and PutObject. `undef_cid` is the zero CID.
pub record Backend (Cid S : Type 0) : Type 0 where
  pub undef_cid : Cid
  pub last_row : ℕ → S → Option (Option (Shard Cid))
  pub begin_tx : S → Option S
  pub create_shard : Shard Cid → S → Option ℕ × S
  pub create_batch : List (BlockRef Cid) → S → Bool × S
  pub commit_tx : S → Option S
  pub put_file : ℕ → ℤ → Bytes → S → Option String × S

module _ {Cid S : Type 0} (back : Backend Cid S) where
  -- `&Shard{}`
  abbrev pub zero_shard : Shard Cid
  zero_shard = record {
    id = 0;
    root = back.undef_cid;
    data_start = 0;
    seq = pos 0;
    path = "";
    aid = 0;
    rev = "";
  }

  abbrev pub row_or_zero : Option (Option (Shard Cid)) → Option (Shard Cid)
  row_or_zero none = none
  row_or_zero (some none) = some zero_shard
  row_or_zero (some (some sh)) = some sh

  -- `GetLastShard`: an actor without shards gets an empty one, of the actor 0.
  abbrev pub last_shard : ℕ → S → Option (Shard Cid)
  last_shard actor s = row_or_zero (back.last_row actor s)

  -- `CreateBatchWithTx`, whose query has at least one row.
  abbrev pub create_batch_with_tx : List (BlockRef Cid) → S → Bool × S
  create_batch_with_tx [] s = (false, s)
  create_batch_with_tx (r ∷ rs) s = back.create_batch (r ∷ rs) s

  abbrev pub batch_on : (S → Bool × S) → Bool × S → Bool × S
  batch_on next (true, s) = next s
  batch_on next (false, s) = (false, s)

  -- The loop of PutShardAndRefs over batches of 2000, at most `n` of them.
  unfoldable pub create_batches : ℕ → List (BlockRef Cid) → S → Bool × S
  create_batches n [] s = (true, s)
  create_batches zero (r ∷ rs) s = (false, s)
  create_batches (suc n) (r ∷ rs) s =
      batch_on (create_batches n (drop 2000 (r ∷ rs))) (create_batch_with_tx (take 2000 (r ∷ rs)) s)

  abbrev pub of_shard : ℕ → BlockRef Cid → BlockRef Cid
  of_shard n r = record r { shard = n }

  abbrev pub commit_done : ℕ → S → Option S → Option ℕ × S
  commit_done n before none = (none, before)
  commit_done n before (some s) = (some n, s)

  abbrev pub committed : ℕ → S → Bool × S → Option ℕ × S
  committed n before (true, s) = commit_done n before (back.commit_tx s)
  committed n before (false, s) = (none, before)

  abbrev pub refs_after : List (BlockRef Cid) → S → Option ℕ × S → Option ℕ × S
  refs_after refs before (none, s) = (none, before)
  refs_after refs before (some n, s) =
      committed n before (create_batches (length refs) (map (of_shard n) refs) s)

  abbrev pub begun : Shard Cid → List (BlockRef Cid) → S → Option S → Option ℕ × S
  begun shard refs before none = (none, before)
  begun shard refs before (some s) = refs_after refs before (back.create_shard shard s)

  -- `PutShardAndRefs`: the new shard's id; without one the transaction is rolled back.
  unfoldable pub put_shard_and_refs : Shard Cid → List (BlockRef Cid) → S → Option ℕ × S
  unfolding create_batches
  put_shard_and_refs shard refs s = begun shard refs s (back.begin_tx s)

  module _ (aid_dec : Discrete ℕ) where
    abbrev pub put_done : Shard Cid → Dict ℕ (Shard Cid) → Option ℕ × S → Bool × Store Cid S
    put_done shard cache (none, s) = (false, record { cache = cache; db = s })
    put_done shard cache (some n, s) =
        (true, record { cache = put aid_dec cache shard.aid (record shard { id = n }); db = s })

    -- `putShard` with `nocache` false.
    unfoldable pub put_shard : Shard Cid → List (BlockRef Cid) → Store Cid S → Bool × Store Cid S
    unfolding put_shard_and_refs put
    put_shard shard refs st = put_done shard st.cache (put_shard_and_refs shard refs st.db)

    abbrev pub cached : Store Cid S → Option (Shard Cid) → Option (Shard Cid) × Store Cid S
    cached st none = (none, st)
    cached st (some sh) = (some sh, record st { cache = put aid_dec st.cache sh.aid sh })

    abbrev pub checked : ℕ → Store Cid S → Option (Shard Cid) → Option (Shard Cid) × Store Cid S
    checked actor st (some sh) = (some sh, st)
    checked actor st none = cached st (last_shard actor st.db)

    -- `getLastShard`: the cache, else the database, whose answer is put under its own actor.
    unfoldable pub get_last_shard : ℕ → Store Cid S → Option (Shard Cid) × Store Cid S
    unfolding get put
    get_last_shard actor st = checked actor st (get aid_dec st.cache actor)

    abbrev pub wrong_base : Option String → Shard Cid → Bool
    wrong_base none sh = false
    wrong_base (some r) sh = not (str_eq r sh.rev)

    abbrev pub open_on :
        {Block : Type 0}
        → ℕ
        → Option String
        → Option (Shard Cid) × Store Cid S
        → (StoreError ⊎ DeltaSession Cid Block) × Store Cid S
    open_on actor since (none, st) = (inl no_shard_read, st)
    open_on actor since (some sh, st) = (
      if wrong_base since sh
          then inl revision_mismatch
          else inr (record {
            blks = [];
            rmcids = [];
            actor = actor;
            base_cid = sh.root;
            seq = inc_int64 sh.seq;
            readonly = false;
            last_rev = sh.rev;
          }),
      st,
    )

    unfoldable pub new_delta_session :
        {Block : Type 0}
        → ℕ
        → Option String
        → Store Cid S
        → (StoreError ⊎ DeltaSession Cid Block) × Store Cid S
    unfolding get_last_shard inc_int64
    new_delta_session actor since st = open_on actor since (get_last_shard actor st)

    -- `ReadOnlySession`; `undef` is the undefined CID.
    abbrev pub read_only_session : {Block : Type 0} → Cid → ℕ → DeltaSession Cid Block
    read_only_session undef actor = record {
      blks = [];
      rmcids = [];
      actor = actor;
      base_cid = undef;
      seq = pos 0;
      readonly = true;
      last_rev = "";
    }

    abbrev pub head_of :
        {A : Type 0}
        → A
        → (Shard Cid → A)
        → Option (Shard Cid) × Store Cid S
        → Option A × Store Cid S
    head_of empty f (none, st) = (none, st)
    head_of empty f (some sh, st) = (some (if sh.id == 0 then empty else f sh), st)

    unfoldable pub get_actor_repo_head : Cid → ℕ → Store Cid S → Option Cid × Store Cid S
    unfolding get_last_shard
    get_actor_repo_head undef actor st = head_of undef (λ sh. sh.root) (get_last_shard actor st)

    unfoldable pub get_actor_repo_rev : ℕ → Store Cid S → Option String × Store Cid S
    unfolding get_last_shard
    get_actor_repo_rev actor st = head_of "" (λ sh. sh.rev) (get_last_shard actor st)

    module _ {Block : Type 0} (cid_bytes : Cid → Bytes) (raw : Block → Bytes)
        (dump_header : Cid → Option Bytes) where
      abbrev header_length : Option Bytes → ℕ
      header_length none = 0
      header_length (some h) = length h

      abbrev pub shard_done : Bytes → Bool × Store Cid S → (StoreError ⊎ Bytes) × Store Cid S
      shard_done buf (true, st) = (inr buf, st)
      shard_done buf (false, st) = (inl rows_failed, st)

      abbrev pub file_done :
          Cid
          → String
          → ℕ
          → ℤ
          → Written cid_bytes raw dump_header
          → Store Cid S
          → Option String × S
          → (StoreError ⊎ Bytes) × Store Cid S
      file_done root rev actor seq f st (none, s) = (inl file_failed, record st { db = s })
      file_done root rev actor seq f st (some path, s) = shard_done f.buf (
          put_shard
            (record {
              id = 0;
              root = root;
              data_start = header_length (write_car_header cid_bytes raw dump_header root);
              seq = seq;
              path = path;
              aid = actor;
              rev = rev;
            })
            f.brefs (record st { db = s }))

      abbrev pub car_done :
          Cid
          → String
          → ℕ
          → ℤ
          → Store Cid S
          → Option (Written cid_bytes raw dump_header)
          → (StoreError ⊎ Bytes) × Store Cid S
      car_done root rev actor seq st none = (inl no_car_file, st)
      car_done root rev actor seq st (some f) =
          file_done root rev actor seq f st (back.put_file actor seq f.buf st.db)

      -- `writeNewShard`, which does not use the dropped CIDs.
      unfoldable pub write_new_shard :
          Cid
          → String
          → ℕ
          → ℤ
          → Dict Cid Block
          → Dict Cid Bool
          → Store Cid S
          → (StoreError ⊎ Bytes) × Store Cid S
      unfolding put_shard shard_file
      write_new_shard root rev actor seq blks rmcids st =
          car_done root rev actor seq st (shard_file cid_bytes raw dump_header actor root blks)

      unfoldable pub close_with_root :
          Cid → String → DeltaSession Cid Block → Store Cid S → (StoreError ⊎ Bytes) × Store Cid S
      unfolding write_new_shard
      close_with_root root rev ds st =
          if ds.readonly
          then (inl read_only, st)
          else write_new_shard root rev ds.actor ds.seq ds.blks ds.rmcids st
