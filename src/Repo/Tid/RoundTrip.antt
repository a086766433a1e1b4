-- ===== src/Repo/Tid/RoundTrip.antt =====
-- What `s32encode` writes stands for the number: reading it back in base 32 gives the number.
use referendum_services.Prelude.{
  ℕ, zero, suc, ◌+◌, ◌-◌, ◌*◌, ◌/◌, ◌%◌, ◌^◌, ◌<◌, ◌≤◌, ◌≡◌, refl, List, [], ◌∷◌, some, arith, ltb,
  if◌then◌else◌, dec_lt, ◌∙◌, length,
}
use native.Mathlib.Nat.{pow-suc}
use referendum_services.Repo.Tid.{s32_loop, s32encode, u64_mod}
use referendum_services.Repo.Tid.Digits.{digit, s32_loop-suc, s32_loop-zero}

-- The digit of a byte of the alphabet.
abbrev index_of : ℕ → ℕ
index_of c = if ltb c 58 then c - 50 else c - 91

value_from : ℕ → List ℕ → ℕ
value_from acc [] = acc
value_from acc (c ∷ s) = value_from (acc * 32 + index_of c) s

-- The number that a text stands for in base 32.
pub value : List ℕ → ℕ
unfolding value_from
value s = value_from 0 s

index-digit : (c : ℕ) → c < 32 → index_of (digit c) ≡ c
index-digit c h = ground arith

loop_value :
    (f i : ℕ) (s : List ℕ)
    → i < 32 ^ f
    → (r : List ℕ) × (s32_loop f i s ≡ some r)
      × (value_from 0 r ≡ value_from i s)
      × (length r ≤ f + length s)
unfolding value_from
loop_value zero i s h =
    let e : i ≡ 0 = omega arith in rw e (s, s32_loop-zero zero s, refl, omega arith)
loop_value (suc f) i s h = elim (dec_lt 0 i) [
  | yes p ↦
      let (r, run, val, len) =
        loop_value f (i / 32) (digit (i % 32) ∷ s) (omega (arith, pow-suc 32 f)) in
      (r, s32_loop-suc f i s p ∙ run, val ∙ step, omega arith)
  | no p ↦ let e : i ≡ 0 = omega arith in rw e (s, s32_loop-zero (suc f) s, refl, omega arith)
]
  where
    step : value_from (i / 32 * 32 + index_of (digit (i % 32))) s ≡ value_from i s
    step =
        rw (index-digit (i % 32) (omega arith))
          (let e : i / 32 * 32 + i % 32 ≡ i = omega arith in rw e)

-- For every uint64 the encoding succeeds, within 13 bytes, and reading the text back in base 32
-- gives the number.
pub s32encode_roundtrip :
    (i : ℕ) → i < u64_mod → (s : List ℕ) × (s32encode i ≡ some s) × (value s ≡ i) × (length s ≤ 13)
unfolding s32encode value
s32encode_roundtrip i h =
    let (r, run, val, len) = loop_value 13 i [] (omega arith) in (r, run, val, omega arith)
