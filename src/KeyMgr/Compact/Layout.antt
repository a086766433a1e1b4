-- ===== src/KeyMgr/Compact/Layout.antt =====
-- The compact signature: 32 bytes for R, then 32 for the low S.
use referendum_services.Prelude.{
  dec_lt, ℕ, zero, suc, ◌+◌, ◌-◌, ◌/◌, ◌^◌, ◌<◌, ◌≤◌, ◌≡◌, refl, ap, ◌∙◌, sym, List, [], ◌∷◌, ◌++◌,
  Option, some, false, ltb, arith, length, take, drop, append-nil, append_assoc, length-append,
  drop_all, drop-length-append, take-length-append, ◌⊎◌, inl, inr, if◌then◌else◌,
}
use referendum_services.Prelude.Int.{ℤ, pos, sub_ℕ}
use referendum_services.KeyMgr.Compact.{
  curve_n, half_n, be_bytes, int_bytes, copy_at, with_r, compact_of, convert_der_to_compact,
}
use referendum_services.KeyMgr.Compact.Bytes.{
  zeros, be_from, be_from-append, be_from-zeros, be_from-be_bytes, length-be_bytes,
}

take-zeros : (m n : ℕ) → m ≤ n → take m (zeros n) ≡ zeros m
take-zeros zero n h = refl
take-zeros (suc m) zero h = absurd (omega (arith, h))
take-zeros (suc m) (suc n) h = ap (λ l. 0 ∷ l) (take-zeros m n (omega (arith, h)))

drop-zeros : (m n : ℕ) → drop m (zeros n) ≡ zeros (n - m)
drop-zeros zero n = let e : n - 0 ≡ n = omega arith in rw e refl
drop-zeros (suc m) zero = let e : 0 - suc m ≡ 0 = omega arith in rw e refl
drop-zeros (suc m) (suc n) = let e : suc n - suc m ≡ n - m = omega arith in rw e (drop-zeros m n)

length-zeros : (n : ℕ) → length (zeros n) ≡ n
length-zeros zero = refl
length-zeros (suc n) = ap suc (length-zeros n)

take-append : (xs ys : List ℕ) (k : ℕ) → take (length xs + k) (xs ++ ys) ≡ xs ++ take k ys
take-append [] ys k = let e : 0 + k ≡ k = omega arith in rw e refl
take-append (x ∷ xs) ys k =
    let e : suc (length xs) + k ≡ suc (length xs + k) = omega arith in
    rw e (ap (λ l. x ∷ l) (take-append xs ys k))

-- Zeros before the bytes.
abbrev pub padded : List ℕ → List ℕ
padded bs = zeros (32 - length bs) ++ bs

length-padded : (bs : List ℕ) → length bs ≤ 32 → length (padded bs) ≡ 32
length-padded bs h =
    omega (arith, h, length-append (zeros (32 - length bs)) bs, length-zeros (32 - length bs))

be_from-padded : (bs : List ℕ) → be_from 0 (padded bs) ≡ be_from 0 bs
be_from-padded bs =
    be_from-append 0 (zeros (32 - length bs)) bs
    ∙ ap (λ a. be_from a bs) (be_from-zeros (32 - length bs))

copy_first :
    (rb : List ℕ) → length rb ≤ 32 → copy_at (32 - length rb) rb (zeros 64) ≡ padded rb ++ zeros 32
copy_first rb h =
    let e : 32 - length rb + length rb ≡ 32 = omega (arith, h) in
    rw (e, take-zeros (32 - length rb) 64 (omega arith))
      (sym (append_assoc (zeros (32 - length rb)) rb (zeros 32)))

copy_second :
    (p sb : List ℕ)
    → length p ≡ 32
    → length sb ≤ 32
    → copy_at (64 - length sb) sb (p ++ zeros 32) ≡ p ++ padded sb
copy_second p sb lp h =
    let e : 64 - length sb + length sb ≡ 64 = omega (arith, h) in
    let f : 64 - length sb ≡ length p + (32 - length sb) = omega (arith, lp, h) in
    let whole : drop 64 (p ++ zeros 32) ≡ [] =
      drop_all 64 (p ++ zeros 32)
        (omega (arith, lp, length-append p (zeros 32), length-zeros 32)) in
    rw (e, whole)
      (ap (λ n. take n (p ++ zeros 32) ++ (sb ++ [])) f
        ∙ ap (λ t. t ++ (sb ++ []))
            (take-append p (zeros 32) (32 - length sb)
              ∙ ap (λ l. p ++ l) (take-zeros (32 - length sb) 32 (omega arith)))
        ∙ (rw (append-nil sb) (append_assoc p (zeros (32 - length sb)) sb)))

-- The replacement of S, for any order `n`.
low_cases :
    (n s : ℕ)
    → s < n
    → (low : ℕ) × ((if ltb (n / 2) s then sub_ℕ n s else pos s) ≡ pos low)
      × (low ≤ n / 2)
      × ((low ≡ s) ⊎ (low + s ≡ n))
low_cases n s h = elim (dec_lt (n / 2) s) [
  | yes p ↦ (n - s, ground (arith, p, h), omega (arith, p, h), inr (omega (arith, h)))
  | no p ↦ (s, ground (arith, p), omega (arith, p), inl refl)
]

with_r-padded :
    (rb sb : List ℕ) → length rb ≤ 32 → length sb ≤ 32 → with_r rb sb ≡ inr (padded rb ++ padded sb)
with_r-padded rb sb hr hs =
    let fr : ltb 32 (length rb) ≡ false = ground (arith, hr) in
    let fs : ltb 32 (length sb) ≡ false = ground (arith, hs) in
    rw (fr, fs)
      (ap inr (
        ap (λ c. copy_at (64 - length sb) sb c) (copy_first rb hr)
        ∙ copy_second (padded rb) sb (length-padded rb hr) hs))

-- If the decoder returns R below 2^256 and S below the order of the curve, neither negative, the result
-- has 64 bytes; the first 32 stand for R and the other 32 for S or for N - S, and that number is at
-- most half the order.
pub convert_der_to_compact-low :
    (unmarshal : List ℕ → Option (ℤ × ℤ)) (der : List ℕ) (r s : ℕ)
    → unmarshal der ≡ some (pos r, pos s)
    → r < 256 ^ 32
    → s < curve_n
    → (c : List ℕ) × (low : ℕ) × (convert_der_to_compact unmarshal der ≡ inr c)
      × (length c ≡ 64)
      × (be_from 0 (take 32 c) ≡ r)
      × (be_from 0 (drop 32 c) ≡ low)
      × (low ≤ half_n)
      × ((low ≡ s) ⊎ (low + s ≡ curve_n))
unfolding convert_der_to_compact
convert_der_to_compact-low unmarshal der r s e hr hs =
    let (low, is_low, le, cases) = low_cases curve_n s hs in
    let rb : List ℕ = be_bytes r r in
    let sb : List ℕ = be_bytes low low in
    let lr : length rb ≤ 32 = length-be_bytes r 32 r hr in
    let ls : length sb ≤ 32 = length-be_bytes low 32 low (omega (arith, le)) in
    (
      padded rb ++ padded sb,
      low,
      ap compact_of e ∙ ap (λ z. with_r rb (int_bytes z)) is_low ∙ with_r-padded rb sb lr ls,
      omega
          (arith, length-append (padded rb) (padded sb), length-padded rb lr, length-padded sb ls),
      ap (be_from 0) (
            ap (λ n. take n (padded rb ++ padded sb)) (sym (length-padded rb lr))
            ∙ take-length-append (padded rb) (padded sb))
          ∙ be_from-padded rb
          ∙ be_from-be_bytes r r (omega arith),
      ap (be_from 0) (
            ap (λ n. drop n (padded rb ++ padded sb)) (sym (length-padded rb lr))
            ∙ drop-length-append (padded rb) (padded sb))
          ∙ be_from-padded sb
          ∙ be_from-be_bytes low low (omega arith),
      le,
      cases,
    )
