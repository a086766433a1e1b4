-- ===== src/Car/Shard.antt =====
-- internal/car: LdWrite and the header (utils.go), the rows of the tables (models.go), and what
-- writeNewShard (store.go) puts into a CAR file. Encoders of CIDs and of the header are the library's.
-- A Go map is ranged over in the order of its list. Sizes and offsets are natural numbers: they are
-- lengths of buffers in memory, below the bound of an int64.
pub mod Offsets
mod Examples
use referendum_services.Prelude.{
  ℕ, zero, suc, ◌+◌, ◌/◌, ◌%◌, String, List, [], ◌∷◌, ◌++◌, Option, none, some, Bool, leb, length,
  if◌then◌else◌,
}
use referendum_services.Prelude.Int.{ℤ}
use referendum_services.Prelude.Dict.{Dict}

abbrev pub Bytes : Type 0
Bytes = List ℕ

-- The row of car_shards, without its time of creation.
pub record Shard (Cid : Type 0) : Type 0 where
  pub id : ℕ
  pub root : Cid
  pub data_start : ℕ
  pub seq : ℤ
  pub path : String
  pub aid : ℕ
  pub rev : String

-- The row of block_refs; its own id is left to the database.
pub record BlockRef (Cid : Type 0) : Type 0 where
  pub cid : Cid
  pub shard : ℕ
  pub byte_offset : ℕ
  pub aid : ℕ

-- `binary.PutUvarint` into a buffer with room for `n` bytes; without room it panics, `none`.
unfoldable pub put_uvarint : ℕ → ℕ → Option Bytes
put_uvarint zero x = none
put_uvarint (suc n) x =
    let rest = put_uvarint n (x / 128) in
    if leb 128 x then more (x % 128 + 128) rest else some (x ∷ [])
  where
    more : ℕ → Option Bytes → Option Bytes
    more b none = none
    more b (some bs) = some (b ∷ bs)

abbrev pub sum_length : List Bytes → ℕ
sum_length [] = 0
sum_length (d ∷ ds) = length d + sum_length ds

abbrev pub joined : List Bytes → Bytes
joined [] = []
joined (d ∷ ds) = d ++ joined ds

abbrev pub prefixed : Bytes → Option Bytes → Option Bytes
prefixed body none = none
prefixed body (some head) = some (head ++ body)

-- LdWrite to a buffer in memory, whose Write has no errors: what it appends. It returns the length of
-- that. The prefix is built in 8 bytes.
unfoldable pub ld_write : List Bytes → Option Bytes
unfolding put_uvarint
ld_write ds = prefixed (joined ds) (put_uvarint 8 (sum_length ds))

module _ {Cid Block : Type 0} (cid_bytes : Cid → Bytes) (raw : Block → Bytes)
    (dump_header : Cid → Option Bytes) where
  abbrev header_written : Option Bytes → Option Bytes
  header_written none = none
  header_written (some hb) = ld_write (hb ∷ [])

  -- `writeCarHeader`.
  unfoldable pub write_car_header : Cid → Option Bytes
  unfolding ld_write
  write_car_header root = header_written (dump_header root)

  -- The state of the loop over the blocks: the buffer, the offset, the references.
  pub record Written : Type 0 where
    pub buf : Bytes
    pub offset : ℕ
    pub brefs : List (BlockRef Cid)

  abbrev pub with_block : ℕ → Cid → Written → Bytes → Written
  with_block actor k s w = record {
    buf = s.buf ++ w;
    offset = s.offset + length w;
    brefs = s.brefs ++ record { cid = k; shard = 0; byte_offset = s.offset; aid = actor } ∷ [];
  }

  abbrev pub block_written :
      (Written → Option Written) → ℕ → Cid → Written → Option Bytes → Option Written
  block_written next actor k s none = none
  block_written next actor k s (some w) = next (with_block actor k s w)

  -- The loop of writeNewShard.
  unfoldable pub write_blocks : ℕ → Dict Cid Block → Written → Option Written
  unfolding ld_write
  write_blocks actor [] s = some s
  write_blocks actor ((k, b) ∷ blks) s =
      block_written (write_blocks actor blks) actor k s (ld_write (cid_bytes k ∷ raw b ∷ []))

  abbrev pub blocks_after : ℕ → Dict Cid Block → Option Bytes → Option Written
  blocks_after actor blks none = none
  blocks_after actor blks (some h) =
      write_blocks actor blks (record { buf = h; offset = length h; brefs = [] })

  -- The CAR file of writeNewShard, before it is stored.
  unfoldable pub shard_file : ℕ → Cid → Dict Cid Block → Option Written
  unfolding write_car_header write_blocks
  shard_file actor root blks = blocks_after actor blks (write_car_header root)
