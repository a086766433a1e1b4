-- ===== src/Repo/Tid/Digits.antt =====
-- The digits that `s32encode` writes, in a closed form, and their order.
use referendum_services.Prelude.{
  ℕ, zero, suc, ◌+◌, ◌/◌, ◌%◌, ◌^◌, ◌<◌, ◌≤◌, ◌≡◌, refl, inl, inr, ap, List, [], ◌∷◌, ◌++◌, Bool,
  true, ◌&&◌, some, arith, ltb, ◌==◌, if◌then◌else◌, get_elem?, length, length-append, append_assoc,
  sym, ◌∙◌, dec_lt,
}
use referendum_services.Prelude.Text.{◌<ₗ◌}
use referendum_services.Repo.Tid.{alpha, s32_loop}
use native.Mathlib.Nat.{pow-suc}

-- The byte of a digit: `2` to `7`, then `a` to `z`.
abbrev pub digit : ℕ → ℕ
digit c = if ltb c 6 then c + 50 else c + 91

-- Whether a stretch of the alphabet, from digit `k` on, is made of the bytes of these digits.
reads_from : ℕ → List ℕ → Bool
reads_from k [] = true
reads_from k (b ∷ bs) = (b == digit k) && reads_from (k + 1) bs

reads_from_at :
    (bs : List ℕ) (k c : ℕ)
    → reads_from k bs ≡ true
    → c < length bs
    → get_elem? bs c ≡ some (digit (k + c))
unfolding reads_from
reads_from_at [] k c r lt = absurd (omega arith)
reads_from_at (b ∷ bs) k zero r lt = let e : k + 0 ≡ k = omega arith in rw e (ground arith)
reads_from_at (b ∷ bs) k (suc c) r lt =
    let e : k + suc c ≡ k + 1 + c = omega arith in
    rw e (reads_from_at bs (k + 1) c (ground arith) (omega arith))

alpha_reads : reads_from 0 alpha ≡ true
unfolding reads_from
alpha_reads = refl

pub alpha_at : (c : ℕ) → c < 32 → get_elem? alpha c ≡ some (digit c)
alpha_at c lt =
    reads_from_at alpha 0 c alpha_reads lt ∙ ap (λ (t : ℕ). some (digit t)) (omega arith)

-- The last `n` digits of `i`, the most significant first.
pub digits : ℕ → ℕ → List ℕ
digits zero i = []
digits (suc n) i = digits n (i / 32) ++ digit (i % 32) ∷ []

pub length-digits : (n i : ℕ) → length (digits n i) ≡ n
unfolding digits
length-digits zero i = refl
length-digits (suc n) i =
    omega (arith, length-append (digits n (i / 32)) (digit (i % 32) ∷ []), length-digits n (i / 32))

pow-pos : (k : ℕ) → 0 < 32 ^ k
pow-pos zero = omega arith
pow-pos (suc k) = omega (arith, pow-suc 32 k, pow-pos k)

-- One round of the loop.
pub s32_loop-suc :
    (f i : ℕ) (s : List ℕ) → 0 < i → s32_loop (suc f) i s ≡ s32_loop f (i / 32) (digit (i % 32) ∷ s)
unfolding s32_loop
s32_loop-suc f i s h = ground (arith, alpha_at (i % 32))

pub s32_loop-zero : (f : ℕ) (s : List ℕ) → s32_loop f 0 s ≡ some s
unfolding s32_loop
s32_loop-zero zero s = refl
s32_loop-zero (suc f) s = refl

-- A number of k + 1 digits is written as these digits.
pub s32_loop-eq-digits :
    (k f i : ℕ) (s : List ℕ)
    → k < f
    → 32 ^ k ≤ i
    → i < 32 ^ suc k
    → s32_loop f i s ≡ some (digits (suc k) i ++ s)
unfolding digits
s32_loop-eq-digits k zero i s h lo hi = absurd (omega arith)
s32_loop-eq-digits zero (suc f) i s h lo hi =
    s32_loop-suc f i s (omega arith)
    ∙ let e : i / 32 ≡ 0 = omega arith in rw e (s32_loop-zero f (digit (i % 32) ∷ s))
s32_loop-eq-digits (suc k) (suc f) i s h lo hi =
    s32_loop-suc f i s (omega (arith, pow-pos k))
    ∙ s32_loop-eq-digits k f (i / 32) (digit (i % 32) ∷ s) (omega arith)
        (omega (arith, pow-suc 32 k)) (omega (arith, pow-suc 32 (suc k)))
    ∙ ap some (sym (append_assoc (digits (suc k) (i / 32)) (digit (i % 32) ∷ []) s))

-- Equal beginnings, or a smaller one of the same length, decide the order.
lt-append : (xs ys us vs : List ℕ) → length xs ≡ length ys → xs <ₗ ys → xs ++ us <ₗ ys ++ vs
lt-append [] [] us vs e h = absurd h
lt-append [] (y ∷ ys) us vs e h = absurd (omega arith)
lt-append (x ∷ xs) [] us vs e h = absurd (omega arith)
lt-append (x ∷ xs) (y ∷ ys) us vs e (inl lt) = inl lt
lt-append (x ∷ xs) (y ∷ ys) us vs e (inr (p, q)) = inr (p, lt-append xs ys us vs (omega arith) q)

lt-append_left : (xs us vs : List ℕ) → us <ₗ vs → xs ++ us <ₗ xs ++ vs
lt-append_left [] us vs h = h
lt-append_left (x ∷ xs) us vs h = inr (refl, lt-append_left xs us vs h)

digit-lt : (c d : ℕ) → c < d → digit c < digit d
digit-lt c d h = ground arith

-- On `n` digits the order of the texts is that of the numbers.
pub digits-lt : (n i j : ℕ) → i < j → j < 32 ^ n → digits n i <ₗ digits n j
unfolding digits
digits-lt zero i j h hi = absurd (omega arith)
digits-lt (suc n) i j h hi = elim (dec_lt (i / 32) (j / 32)) [
  | yes p ↦
      lt-append (digits n (i / 32)) (digits n (j / 32)) _ _
        (length-digits n (i / 32) ∙ sym (length-digits n (j / 32)))
        (digits-lt n (i / 32) (j / 32) p (omega (arith, pow-suc 32 n)))
  | no p ↦
      let e : i / 32 ≡ j / 32 = omega arith in
      rw e (lt-append_left (digits n (j / 32)) _ _ (inl (digit-lt (i % 32) (j % 32) (omega arith))))
]

pub digits-append-lt :
    (n i j : ℕ) (us : List ℕ) → i < j → j < 32 ^ n → digits n i ++ us <ₗ digits n j ++ us
digits-append-lt n i j us h hi =
    lt-append (digits n i) (digits n j) us us (length-digits n i ∙ sym (length-digits n j))
      (digits-lt n i j h hi)
