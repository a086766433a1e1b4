-- ===== src/Car/Diff/Outcome.antt =====
-- What BlockDiff returns, and after how many rounds of its second loop. That loop does not check for
-- blocks that were visited before; it ends because links between blocks have no cycle: a weight that
-- exceeds the sum of the linked blocks' weights bounds the rounds.
use referendum_services.Prelude.{
  ℕ, zero, suc, ◌+◌, ◌≤◌, List, [], ◌∷◌, ◌++◌, Option, some, Bool, true, false, ◌⊎◌, inl, inr, ◌≡◌,
  refl, ◌↔◌, arith, Bool-cases, Sum-cases, is_some,
}
use referendum_services.Prelude.Dict.{Dict, get, put}
use referendum_services.Car.Diff.{marked, mark_all, read_links, walk, keep_new, keys, block_diff}
use referendum_services.Car.Diff.Visit.{fresh}
use referendum_services.Car.Diff.Reach.{
  walk-step, Reaches, IsKept, walk-Reaches, keep_new-only, keep_new-marks,
}

module _ {Cid Block : Type 0} (dec : Discrete Cid) (bs : Cid → Option Block)
    (scan : Block → Option (List Cid)) (is_cbor : Cid → Bool) where
  abbrev pub total : (Cid → ℕ) → List Cid → ℕ
  total weight [] = 0
  total weight (c ∷ cs) = weight c + total weight cs

  total-append :
      (weight : Cid → ℕ) (xs ys : List Cid)
      → total weight (xs ++ ys) ≡ total weight xs + total weight ys
  total-append weight [] ys = omega arith
  total-append weight (x ∷ xs) ys = omega (arith, total-append weight xs ys)

  total-fresh :
      (weight : Cid → ℕ) (keep : Dict Cid Bool) (ls : List Cid)
      → total weight (fresh dec is_cbor keep ls) ≤ total weight ls
  total-fresh weight keep [] = omega arith
  total-fresh weight keep (l ∷ ls) = ground (arith, total-fresh weight keep ls)

  -- The links of a block weigh less than the block.
  abbrev pub IsWeight : (Cid → ℕ) → Type 0
  IsWeight weight =
      (c : Cid)
      → (1 ≤ weight c)
        × ((ls : List Cid) → read_links dec bs scan c ≡ inr ls → total weight ls + 1 ≤ weight c)

  walk-total :
      (weight : Cid → ℕ) (w : IsWeight weight) (n : ℕ) (keep drop : Dict Cid Bool)
      (queue : List Cid)
      → total weight queue ≤ n
      → is_some (walk dec bs scan is_cbor n keep drop queue) ≡ true
  unfolding walk
  walk-total weight w n keep drop [] h = refl
  walk-total weight w zero keep drop (x ∷ queue) h = absurd (omega (arith, (w x).0))
  walk-total weight w (suc n) keep drop (x ∷ queue) h =
      elim (Sum-cases (read_links dec bs scan x)) [
        | inl (err, r) ↦ rw r refl
        | inr (ls, r) ↦ rw (walk-step dec bs scan is_cbor keep n drop queue x ls r) (
            walk-total weight w n keep (mark_all dec drop (fresh dec is_cbor keep ls))
              (queue ++ fresh dec is_cbor keep ls)
              (omega (
                arith,
                total-append weight queue (fresh dec is_cbor keep ls),
                total-fresh weight keep ls,
                (w x).1 ls r,
              )))
      ]

  -- If the blocks' weights decrease along links, as many rounds as the old root weighs are enough for
  -- BlockDiff: it ends with an error or with a set.
  pub block_diff-total :
      (weight : Cid → ℕ) (is_defined : Cid → Bool) (n : ℕ) (oldroot : Cid)
      (newcids : Dict Cid Block)
      → IsWeight weight
      → weight oldroot ≤ n
      → is_some (block_diff dec bs scan is_cbor is_defined n oldroot newcids) ≡ true
  unfolding block_diff
  block_diff-total weight is_defined n oldroot newcids w h =
      elim (Bool-cases (is_defined oldroot)) [
        | inr no_root ↦ rw no_root refl
        | inl root ↦ elim (Sum-cases (keep_new dec bs scan (keys dec bs scan newcids) [])) [
          | inl (err, r) ↦ rw (root, r) refl
          | inr (keep, r) ↦ elim (Bool-cases (marked dec keep oldroot)) [
            | inl kept ↦ rw (root, r, kept) refl
            | inr dropped ↦
                rw (root, r, dropped)
                  (walk-total weight w n keep (put dec [] oldroot true) (oldroot ∷ [])
                    (omega arith))
          ]
        ]
      ]

  -- If BlockDiff returns a set for an old root that is defined, the old root is not kept, and the
  -- set is exactly the blocks that the old root reaches by links to CBOR blocks that are not kept,
  -- where a CID is kept if it is new or a new block links to it.
  pub block_diff-Reaches :
      (is_defined : Cid → Bool) (n : ℕ) (oldroot : Cid) (newcids : Dict Cid Block)
      (drop : Dict Cid Bool)
      → is_defined oldroot ≡ true
      → block_diff dec bs scan is_cbor is_defined n oldroot newcids ≡ some (inr drop)
      → (keep : Dict Cid Bool) × ((c : Cid)
          → (marked dec keep c ≡ true) ↔ IsKept dec bs scan is_cbor (keys dec bs scan newcids) c)
        × (marked dec keep oldroot ≡ false)
        × ((c : Cid) → (marked dec drop c ≡ true) ↔ Reaches dec bs scan is_cbor keep oldroot c)
  unfolding block_diff marked get
  block_diff-Reaches is_defined n oldroot newcids drop d e =
      elim (Sum-cases (keep_new dec bs scan (keys dec bs scan newcids) [])) [
        | inl (err, r) ↦ absurd (ground (arith, rw (d, r) at e))
        | inr (keep, r) ↦ elim (Bool-cases (marked dec keep oldroot)) [
          | inl kept ↦ absurd (ground (arith, rw (d, r, kept) at e))
          | inr dropped ↦ (
            keep,
            λ c. (
              λ m.
                  only keep c
                    (keep_new-only dec bs scan is_cbor (keys dec bs scan newcids) [] keep r c m),
              keep_new-marks dec bs scan is_cbor (keys dec bs scan newcids) [] keep r c,
            ),
            dropped,
            walk-Reaches dec bs scan is_cbor keep oldroot n drop (rw (d, r, dropped) at e),
          )
        ]
      ]
    where
      only :
          (keep : Dict Cid Bool) (c : Cid)
          → (marked dec [] c ≡ true) ⊎ IsKept dec bs scan is_cbor (keys dec bs scan newcids) c
          → IsKept dec bs scan is_cbor (keys dec bs scan newcids) c
      only keep c (inl m) = absurd (ground (arith, m))
      only keep c (inr k) = k
