-- ===== src/KeyMgr/Compact.antt =====
-- internal/keymgr/rotation_cache.go: convertDERToCompact, which turns the KMS's signature of a PLC
-- operation into R || S with a low S. The ASN.1 decoder is a parameter; a big.Int is an integer, and
-- its Bytes are the big-endian bytes of its absolute value, without leading zeros.
pub mod Bytes
pub mod Layout
mod Examples
use referendum_services.Prelude.{
  ℕ, zero, suc, ◌+◌, ◌-◌, ◌/◌, ◌%◌, List, [], ◌∷◌, ◌++◌, Option, none, some, true, false, ltb, leb,
  length, take, drop, replicate, if◌then◌else◌, ◌⊎◌, inl, inr,
}
use referendum_services.Prelude.Int.{ℤ, pos, negsuc, sub_ℕ, pos_part, neg_part}

pub data DerError : Type 0 where
  parse_failed r_too_large s_too_large : DerError

-- The order of the curve and its half.
abbrev pub curve_n : ℕ
curve_n = 115792089237316195423570985008687907852837564279074904382605163141518161494337

abbrev pub half_n : ℕ
half_n = curve_n / 2

abbrev pub field_size : ℕ
field_size = 32

-- The bytes of a number, at most `n` of them.
unfoldable pub be_bytes : ℕ → ℕ → List ℕ
be_bytes zero x = []
be_bytes (suc n) x = elim (leb 1 x) [ false ↦ [] | true ↦ be_bytes n (x / 256) ++ x % 256 ∷ [] ]

-- `Bytes()`.
abbrev pub int_bytes : ℤ → List ℕ
int_bytes (pos x) = be_bytes x x
int_bytes (negsuc x) = be_bytes (suc x) (suc x)

-- `if sig.S.Cmp(halfN) > 0`, S is replaced by N - S.
abbrev pub low_s : ℤ → ℤ
low_s (pos s) = if ltb half_n s then sub_ℕ curve_n s else pos s
low_s (negsuc s) = negsuc s

-- `copy` of all of `src` into a slice that begins at `off`.
abbrev pub copy_at : ℕ → List ℕ → List ℕ → List ℕ
copy_at off src dst = take off dst ++ (src ++ drop (off + length src) dst)

abbrev pub with_s : List ℕ → List ℕ → DerError ⊎ List ℕ
with_s c sb =
    if ltb field_size (length sb)
    then inl s_too_large
    else inr (copy_at (field_size + field_size - length sb) sb c)

abbrev pub with_r : List ℕ → List ℕ → DerError ⊎ List ℕ
with_r rb sb =
    if ltb field_size (length rb)
    then inl r_too_large
    else with_s (copy_at (field_size - length rb) rb (replicate (field_size + field_size) 0)) sb

abbrev pub compact_of : Option (ℤ × ℤ) → DerError ⊎ List ℕ
compact_of none = inl parse_failed
compact_of (some (r, s)) = with_r (int_bytes r) (int_bytes (low_s s))

unfoldable pub convert_der_to_compact : (List ℕ → Option (ℤ × ℤ)) → List ℕ → DerError ⊎ List ℕ
unfolding be_bytes
convert_der_to_compact unmarshal der = compact_of (unmarshal der)
