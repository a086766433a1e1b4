-- ===== src/KeyMgr/Compact/Bytes.antt =====
-- The bytes of a number and the number of the bytes.
use referendum_services.Prelude.{
  ℕ, zero, suc, ◌+◌, ◌*◌, ◌/◌, ◌%◌, ◌^◌, ◌<◌, ◌≤◌, ◌≡◌, refl, ap, ◌∙◌, List, [], ◌∷◌, ◌++◌, true,
  false, arith, leb, length, length-append, replicate, Bool-cases, inl, inr,
}
use referendum_services.KeyMgr.Compact.{be_bytes}
use native.Mathlib.Nat.{pow-suc}

-- The number that bytes stand for, the first ones weighing most, after `acc`.
abbrev pub be_from : ℕ → List ℕ → ℕ
be_from acc [] = acc
be_from acc (b ∷ bs) = be_from (acc * 256 + b) bs

pub be_from-append :
    (acc : ℕ) (xs ys : List ℕ) → be_from acc (xs ++ ys) ≡ be_from (be_from acc xs) ys
be_from-append acc [] ys = refl
be_from-append acc (x ∷ xs) ys = be_from-append (acc * 256 + x) xs ys

abbrev pub zeros : ℕ → List ℕ
zeros n = replicate n 0

pub be_from-zeros : (k : ℕ) → be_from 0 (zeros k) ≡ 0
be_from-zeros zero = refl
be_from-zeros (suc k) = be_from-zeros k

be_bytes_none : (n x : ℕ) → leb 1 x ≡ false → be_bytes (suc n) x ≡ []
unfolding be_bytes
be_bytes_none n x f = ground (arith, f)

be_bytes_some :
    (n x : ℕ) → leb 1 x ≡ true → be_bytes (suc n) x ≡ be_bytes n (x / 256) ++ x % 256 ∷ []
unfolding be_bytes
be_bytes_some n x t = ground (arith, t)

pub be_from-be_bytes : (n x : ℕ) → x ≤ n → be_from 0 (be_bytes n x) ≡ x
unfolding be_bytes
be_from-be_bytes zero x h = omega (arith, h)
be_from-be_bytes (suc n) x h = elim (Bool-cases (leb 1 x)) [
  | inr f ↦ ap (be_from 0) (be_bytes_none n x f) ∙ ground (arith, f)
  | inl t ↦
      let small : x / 256 ≤ n = ground (arith, t, h) in
      ap (be_from 0) (be_bytes_some n x t)
      ∙ (be_from-append 0 (be_bytes n (x / 256)) (x % 256 ∷ [])
          ∙ ap (λ y. y * 256 + x % 256) (be_from-be_bytes n (x / 256) small)
          ∙ omega arith)
]

pub length-be_bytes : (n k x : ℕ) → x < 256 ^ k → length (be_bytes n x) ≤ k
unfolding be_bytes
length-be_bytes zero k x h = omega arith
length-be_bytes (suc n) zero x h = elim (Bool-cases (leb 1 x)) [
  | inr f ↦ omega (arith, ap length (be_bytes_none n x f))
  | inl t ↦ absurd (ground (arith, t, h))
]
length-be_bytes (suc n) (suc k) x h = elim (Bool-cases (leb 1 x)) [
  | inr f ↦ omega (arith, ap length (be_bytes_none n x f))
  | inl t ↦ omega (
    arith,
    ap length (be_bytes_some n x t),
    length-append (be_bytes n (x / 256)) (x % 256 ∷ []),
    length-be_bytes n k (x / 256) (omega (arith, h, pow-suc 256 k)),
  )
]
