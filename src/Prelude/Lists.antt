-- ===== src/Prelude/Lists.antt =====
-- Lists measured and indexed by native numbers, under the library's names, and predicates on lists.
use Prim.Native.Nat.{ℕ, zero, suc, ◌+◌, ◌-◌, ◌≤◌, min}
use mathlib.Core.Path.{◌≡◌, refl, ap}
use mathlib.Core.List.{List, [], ◌∷◌, ◌++◌, map}
use mathlib.Core.Option.{Option, none, some}
use mathlib.Core.Logic.{◌⊎◌, inl, inr}
use mathlib.Core.List.Memᴰ.{Memᴰ, head, tail}
use native.Mathlib.Omega.{arith}

module _ {ℓ} {A : Type ℓ} where
  abbrev pub length : List A → ℕ
  length [] = 0
  length (x ∷ xs) = suc (length xs)

  abbrev pub get_elem? : List A → ℕ → Option A
  get_elem? [] i = none
  get_elem? (x ∷ xs) zero = some x
  get_elem? (x ∷ xs) (suc i) = get_elem? xs i

  abbrev pub take : ℕ → List A → List A
  take zero xs = []
  take (suc n) [] = []
  take (suc n) (x ∷ xs) = x ∷ take n xs

  abbrev pub drop : ℕ → List A → List A
  drop zero xs = xs
  drop (suc n) [] = []
  drop (suc n) (x ∷ xs) = drop n xs

  abbrev pub replicate : ℕ → A → List A
  replicate zero a = []
  replicate (suc n) a = a ∷ replicate n a

  pub length-append : (xs ys : List A) → length (xs ++ ys) ≡ length xs + length ys
  length-append [] ys = omega arith
  length-append (x ∷ xs) ys = omega (arith, length-append xs ys)

  pub take-append-drop : (n : ℕ) (xs : List A) → take n xs ++ drop n xs ≡ xs
  take-append-drop zero xs = refl
  take-append-drop (suc n) [] = refl
  take-append-drop (suc n) (x ∷ xs) = ap (◌∷◌ x) (take-append-drop n xs)

  pub length-take : (n : ℕ) (xs : List A) → length (take n xs) ≡ min n (length xs)
  length-take zero xs = omega arith
  length-take (suc n) [] = omega arith
  length-take (suc n) (x ∷ xs) = omega (arith, length-take n xs)

  pub length-drop : (n : ℕ) (xs : List A) → length (drop n xs) ≡ length xs - n
  length-drop zero xs = omega arith
  length-drop (suc n) [] = omega arith
  length-drop (suc n) (x ∷ xs) = omega (arith, length-drop n xs)

  pub length-replicate : (n : ℕ) (a : A) → length (replicate n a) ≡ n
  length-replicate zero a = refl
  length-replicate (suc n) a = ap suc (length-replicate n a)

  pub drop_all : (n : ℕ) (xs : List A) → length xs ≤ n → drop n xs ≡ []
  drop_all zero [] h = refl
  drop_all zero (x ∷ xs) h = absurd (omega arith)
  drop_all (suc n) [] h = refl
  drop_all (suc n) (x ∷ xs) h = drop_all n xs (omega arith)

  pub drop-length-append : (xs ys : List A) → drop (length xs) (xs ++ ys) ≡ ys
  drop-length-append [] ys = refl
  drop-length-append (x ∷ xs) ys = drop-length-append xs ys

  pub take-length-append : (xs ys : List A) → take (length xs) (xs ++ ys) ≡ xs
  take-length-append [] ys = refl
  take-length-append (x ∷ xs) ys = ap (◌∷◌ x) (take-length-append xs ys)

module _ {ℓ} {A : Type ℓ} where
  pub length-map {κ} : {B : Type κ} (xs : List A) (f : A → B) → length (map f xs) ≡ length xs
  length-map [] f = refl
  length-map (x ∷ xs) f = ap suc (length-map xs f)

  -- Holds of every element.
  abbrev pub All {κ} : (A → Type κ) → List A → Type κ
  All P [] = Unit {κ}
  All P (x ∷ xs) = P x × All P xs

  pub All_map {κ μ} :
      {P : A → Type κ} {Q : A → Type μ} (xs : List A) → ((x : A) → P x → Q x) → All P xs → All Q xs
  All_map [] f h = tt
  All_map (x ∷ xs) f h = (f x h.0, All_map xs f h.1)

module _ {ℓ} {A : Type ℓ} where
  pub take_nil : (n : ℕ) → take {A = A} n [] ≡ []
  take_nil zero = refl
  take_nil (suc n) = refl

  pub drop_nil : (n : ℕ) → drop {A = A} n [] ≡ []
  drop_nil zero = refl
  drop_nil (suc n) = refl

  pub length-take_le : (k : ℕ) (l : List A) → k ≤ length l → length (take k l) ≡ k
  length-take_le zero l h = refl
  length-take_le (suc k) [] h = absurd (omega arith)
  length-take_le (suc k) (x ∷ l) h = ap suc (length-take_le k l (omega arith))

  pub take-take : (k m : ℕ) (l : List A) → k ≤ m → take k (take m l) ≡ take k l
  take-take zero m l h = refl
  take-take (suc k) zero l h = absurd (omega arith)
  take-take (suc k) (suc m) [] h = refl
  take-take (suc k) (suc m) (x ∷ l) h = ap (◌∷◌ x) (take-take k m l (omega arith))

  -- A stretch of a longer beginning is that stretch of the list.
  pub take-drop-take :
      (k n m : ℕ) (l : List A) → k ≤ m → take (k - n) (drop n (take m l)) ≡ drop n (take k l)
  take-drop-take k zero m l h = let e : k - 0 ≡ k = omega arith in rw e (take-take k m l h)
  take-drop-take zero (suc n) m l h = let e : 0 - suc n ≡ 0 = omega arith in rw e refl
  take-drop-take (suc k) (suc n) zero l h = absurd (omega arith)
  take-drop-take (suc k) (suc n) (suc m) [] h = take_nil (suc k - suc n)
  take-drop-take (suc k) (suc n) (suc m) (x ∷ l) h =
      let e : suc k - suc n ≡ k - n = omega arith in rw e (take-drop-take k n m l (omega arith))

  -- Two stretches that meet.
  pub drop-append-drop :
      (s n k : ℕ) (l : List A)
      → s ≤ n
      → n ≤ k
      → drop s (take n l) ++ drop n (take k l) ≡ drop s (take k l)
  drop-append-drop zero zero k l h q = refl
  drop-append-drop zero (suc n) zero l h q = absurd (omega arith)
  drop-append-drop zero (suc n) (suc k) [] h q = refl
  drop-append-drop zero (suc n) (suc k) (x ∷ l) h q =
      ap (◌∷◌ x) (drop-append-drop zero n k l (omega arith) (omega arith))
  drop-append-drop (suc s) zero k l h q = absurd (omega arith)
  drop-append-drop (suc s) (suc n) zero l h q = absurd (omega arith)
  drop-append-drop (suc s) (suc n) (suc k) [] h q = refl
  drop-append-drop (suc s) (suc n) (suc k) (x ∷ l) h q =
      drop-append-drop s n k l (omega arith) (omega arith)

  pub drop-take-append : (s n : ℕ) (l : List A) → s ≤ n → drop s (take n l) ++ drop n l ≡ drop s l
  drop-take-append zero n l h = take-append-drop n l
  drop-take-append (suc s) zero l h = absurd (omega arith)
  drop-take-append (suc s) (suc n) [] h = refl
  drop-take-append (suc s) (suc n) (x ∷ l) h = drop-take-append s n l (omega arith)

module _ {ℓ} {A : Type ℓ} where
  pub mem-append_left : (a : A) (xs ys : List A) → Memᴰ a xs → Memᴰ a (xs ++ ys)
  mem-append_left a [] ys m = elim m [ ]
  mem-append_left a (x ∷ xs) ys (head p) = head p
  mem-append_left a (x ∷ xs) ys (tail m) = tail (mem-append_left a xs ys m)

  pub mem-append_right : (a : A) (xs ys : List A) → Memᴰ a ys → Memᴰ a (xs ++ ys)
  mem-append_right a [] ys m = m
  mem-append_right a (x ∷ xs) ys m = tail (mem-append_right a xs ys m)

  pub mem-append_cases : (a : A) (xs ys : List A) → Memᴰ a (xs ++ ys) → Memᴰ a xs ⊎ Memᴰ a ys
  mem-append_cases a [] ys m = inr m
  mem-append_cases a (x ∷ xs) ys (head p) = inl (head p)
  mem-append_cases a (x ∷ xs) ys (tail m) = elim (mem-append_cases a xs ys m) [
    | inl l ↦ inl (tail l)
    | inr r ↦ inr r
  ]
