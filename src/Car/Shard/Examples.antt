-- ===== src/Car/Shard/Examples.antt =====
-- A CAR file of two blocks: CIDs are numbers of one byte, a block is its bytes, a header one byte.
use referendum_services.Prelude.{ℕ, [], ◌∷◌, ◌++◌, Option, some, ◌≡◌, refl, length}
use referendum_services.Prelude.Dict.{Dict}
use referendum_services.Car.Shard.{Bytes, Written, write_car_header, shard_file}
use referendum_services.Car.Shard.Offsets.{Located, cids, cids_of, shard_file-Located}
use mathlib.Core.List.Memᴰ.{Memᴰ}

abbrev one_byte : ℕ → Bytes
one_byte k = k ∷ []

abbrev itself : Bytes → Bytes
itself b = b

abbrev header : ℕ → Option Bytes
header k = some (k ∷ [])

abbrev two : Dict ℕ Bytes
two = (7, 70 ∷ 71 ∷ []) ∷ (8, 80 ∷ []) ∷ []

abbrev two_written : Written one_byte itself header
two_written = record {
  buf = 1 ∷ 9 ∷ 3 ∷ 7 ∷ 70 ∷ 71 ∷ 2 ∷ 8 ∷ 80 ∷ [];
  offset = 9;
  brefs =
      record { cid = 7; shard = 0; byte_offset = 2; aid = 5 }
      ∷ record { cid = 8; shard = 0; byte_offset = 6; aid = 5 }
      ∷ [];
}

two_made : shard_file one_byte itself header 5 9 two ≡ some two_written
unfolding shard_file
two_made = refl

shard_file-Located_example :
    ((h : Bytes) × (rest : Bytes) × (write_car_header one_byte itself header 9 ≡ some h)
      × (two_written.buf ≡ h ++ rest))
    × (two_written.offset ≡ length two_written.buf)
    × (cids one_byte itself header two_written.brefs ≡ cids_of one_byte itself header two)
    × ((k : ℕ) (b : Bytes) → Memᴰ (k, b) two → Located one_byte itself header k b two_written)
shard_file-Located_example = shard_file-Located one_byte itself header 5 9 two two_written two_made
