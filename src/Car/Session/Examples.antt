-- ===== src/Car/Session/Examples.antt =====
-- Runs of the sessions: the database is the list of its references and gives the id 1 to each shard.
use referendum_services.Prelude.{
  ℕ, String, List, [], ◌∷◌, ◌++◌, Option, none, some, true, false, ◌≡◌, refl, ◌⊎◌, inl, inr, ◌≢◌,
  ℕ_discrete,
}
use referendum_services.Prelude.Int.{pos, inc_int64}
use referendum_services.Car.Shard.{Bytes, Shard, BlockRef}
use referendum_services.Car.Session.{
  StoreError, DeltaSession, Store, Backend, revision_mismatch, not_found, new_delta_session,
  close_with_root, get_block, put_block, delete_block,
}
use referendum_services.Car.Session.Head.{close_with_root-new_delta_session}
use referendum_services.Car.Session.Delta.{
  Write, put_one, delete_one, write_all, seen_after_all, write_all-get_block,
}

abbrev one_byte : ℕ → Bytes
one_byte k = k ∷ []

abbrev itself : Bytes → Bytes
itself b = b

abbrev header : ℕ → Option Bytes
header k = some (k ∷ [])

abbrev rows : Backend ℕ (List (BlockRef ℕ))
rows = record {
  undef_cid = 0;
  last_row = λ actor s. some none;
  begin_tx = λ s. some s;
  create_shard = λ sh s. (some 1, s);
  create_batch = λ refs s. (true, s ++ refs);
  commit_tx = λ s. some s;
  put_file = λ actor seq b s. (some "sh-5/seq-1", s);
}

abbrev add_row : BlockRef ℕ → List (BlockRef ℕ) → Option (List (BlockRef ℕ))
add_row r s = some (s ++ r ∷ [])

abbrev nothing : Store ℕ (List (BlockRef ℕ))
nothing = record { cache = []; db = [] }

abbrev session : DeltaSession ℕ Bytes
session = record {
  blks = (7, 70 ∷ []) ∷ [];
  rmcids = [];
  actor = 5;
  base_cid = 3;
  seq = pos 1;
  readonly = false;
  last_rev = "aaa";
}

abbrev first_shard : Shard ℕ
first_shard = record {
  id = 0;
  root = 9;
  data_start = 2;
  seq = pos 1;
  path = "sh-5/seq-1";
  aid = 5;
  rev = "bbb";
}

abbrev first_ref : BlockRef ℕ
first_ref = record { cid = 7; shard = 0; byte_offset = 2; aid = 5 }

abbrev after_close : Store ℕ (List (BlockRef ℕ))
after_close = record {
  cache = (5, record first_shard { id = 1 }) ∷ [];
  db = record first_ref { shard = 1 } ∷ [];
}

closed :
    close_with_root rows ℕ_discrete one_byte itself header 9 "bbb" session nothing
    ≡ (inr (1 ∷ 9 ∷ 2 ∷ 7 ∷ 70 ∷ []), after_close)
unfolding close_with_root
closed = refl

close_with_root-new_delta_session_example :
    (new_delta_session rows ℕ_discrete {Block = Bytes} 5 (some "bbb") after_close ≡ (
      inr (record {
        blks = [];
        rmcids = [];
        actor = 5;
        base_cid = 9;
        seq = inc_int64 (pos 1);
        readonly = false;
        last_rev = "bbb";
      }),
      after_close,
    ))
    × ((other : String)
        → other ≢ "bbb"
        → new_delta_session rows ℕ_discrete {Block = Bytes} 5 (some other) after_close
          ≡ (inl revision_mismatch, after_close))
close_with_root-new_delta_session_example =
    close_with_root-new_delta_session rows ℕ_discrete one_byte itself header 9 "bbb" session nothing
      after_close (1 ∷ 9 ∷ 2 ∷ 7 ∷ 70 ∷ []) closed

abbrev first_byte : Bytes → ℕ
first_byte [] = 0
first_byte (b ∷ bs) = b

abbrev none_stored : ℕ → StoreError ⊎ Bytes
none_stored c = inl not_found

abbrev writes : List (Write ℕ_discrete first_byte)
writes = put_one (8 ∷ 1 ∷ []) ∷ put_one (9 ∷ []) ∷ delete_one 9 ∷ put_one (8 ∷ 2 ∷ []) ∷ []

abbrev written : DeltaSession ℕ Bytes
written = record session { blks = (7, 70 ∷ []) ∷ (8, 8 ∷ 2 ∷ []) ∷ [] }

all_written : write_all ℕ_discrete first_byte writes session ≡ inr written
unfolding put_block delete_block ℕ_discrete
all_written = refl

write_all-get_block_example :
    get_block ℕ_discrete none_stored 8 written
    ≡ seen_after_all ℕ_discrete first_byte none_stored 8 writes
        (get_block ℕ_discrete none_stored 8 session)
write_all-get_block_example =
    write_all-get_block ℕ_discrete first_byte none_stored writes session written 8 all_written
