-- ===== src/Car/Diff/Reach.antt =====
-- The result of BlockDiff: the dropped blocks are those that the old root reaches by CBOR links
-- outside the keep set.
use referendum_services.Prelude.{
  ℕ, zero, suc, List, [], ◌∷◌, ◌++◌, Option, some, Bool, true, false, ◌⊎◌, inl, inr, ◌≡◌, refl, ap,
  ◌∙◌, sym, ◌↔◌, arith, Sum-cases, subst, mem-append_left, mem-append_right, mem-append_cases,
}
use referendum_services.Prelude.Dict.{Dict, get, put}
use referendum_services.Car.Diff.{marked, mark_all, read_links, walk, keep_new}
use referendum_services.Car.Diff.Visit.{
  marked-put_self, marked-put_only, marked-put_keeps, mark_all-keeps, mark_all-marks, mark_all-only,
  fresh, fresh-mem, mem-fresh, visit-fresh,
}
use mathlib.Core.List.Memᴰ.{Memᴰ, head, tail}

module _ {Cid Block : Type 0} (dec : Discrete Cid) (bs : Cid → Option Block)
    (scan : Block → Option (List Cid)) (is_cbor : Cid → Bool) where
  module _ (keep : Dict Cid Bool) where
    -- From a root, by links to CBOR blocks that are not kept.
    pub data Reaches (root : Cid) : Cid → Type 0 where
      root_itself : Reaches root root
      link :
          (c l : Cid) (ls : List Cid)
          → Reaches root c
          → read_links dec bs scan c ≡ inr ls
          → Memᴰ l ls
          → is_cbor l ≡ true
          → marked dec keep l ≡ false
          → Reaches root l

    pub walk-step :
        (n : ℕ) (drop : Dict Cid Bool) (queue : List Cid) (x : Cid) (ls : List Cid)
        → read_links dec bs scan x ≡ inr ls
        → walk dec bs scan is_cbor (suc n) keep drop (x ∷ queue)
          ≡ walk dec bs scan is_cbor n keep
              (mark_all dec drop (fresh dec is_cbor keep ls))
              (queue ++ fresh dec is_cbor keep ls)
    unfolding walk
    walk-step n drop queue x ls r = rw r (
        ap (λ s. walk dec bs scan is_cbor n keep s.0 s.1)
          (visit-fresh dec is_cbor keep ls drop queue))

    walk_sound :
        (root : Cid) (n : ℕ) (drop final : Dict Cid Bool) (queue : List Cid)
        → ((c : Cid) → marked dec drop c ≡ true → Reaches root c)
        → ((c : Cid) → Memᴰ c queue → Reaches root c)
        → walk dec bs scan is_cbor n keep drop queue ≡ some (inr final)
        → (c : Cid) → marked dec final c ≡ true
        → Reaches root c
    unfolding walk
    walk_sound root n drop final [] hd hq e c m = hd c (ground arith)
    walk_sound root zero drop final (x ∷ queue) hd hq e c m = ground arith
    walk_sound root (suc n) drop final (x ∷ queue) hd hq e c m =
        elim (Sum-cases (read_links dec bs scan x)) [
          | inl (err, r) ↦ absurd (ground (arith, rw r at e))
          | inr (ls, r) ↦
              walk_sound root n (mark_all dec drop (fresh dec is_cbor keep ls)) final
                (queue ++ fresh dec is_cbor keep ls)
                (λ j p. elim (mark_all-only dec drop (fresh dec is_cbor keep ls) j p) [
                  | inl old ↦ hd j old
                  | inr new ↦ reached ls r j new
                ])
                (λ j p. elim (mem-append_cases j queue (fresh dec is_cbor keep ls) p) [
                  | inl old ↦ hq j (tail old)
                  | inr new ↦ reached ls r j new
                ])
                (sym (walk-step n drop queue x ls r) ∙ e) c m
        ]
      where
        reached :
            (ls : List Cid)
            → read_links dec bs scan x ≡ inr ls
            → (j : Cid) → Memᴰ j (fresh dec is_cbor keep ls)
            → Reaches root j
        reached ls r j new =
            let (m', cbor, dropped) = mem-fresh dec is_cbor keep ls j new in
            link x j ls (hq x (head refl)) r m' cbor dropped

    -- The links of a block that are to be dropped are in the set.
    abbrev Done : Cid → Dict Cid Bool → Type 0
    Done c d =
        (l : Cid) (ls : List Cid)
        → read_links dec bs scan c ≡ inr ls
        → Memᴰ l ls
        → is_cbor l ≡ true
        → marked dec keep l ≡ false
        → marked dec d l ≡ true

    walk_complete :
        (n : ℕ) (drop final : Dict Cid Bool) (queue : List Cid)
        → ((c : Cid) → marked dec drop c ≡ true → Memᴰ c queue ⊎ Done c drop)
        → walk dec bs scan is_cbor n keep drop queue ≡ some (inr final)
        → ((c : Cid) → marked dec final c ≡ true → Done c final)
          × ((c : Cid) → marked dec drop c ≡ true → marked dec final c ≡ true)
    unfolding walk
    walk_complete n drop final [] inv e = at_end (ground (arith, e))
      where
        at_end :
            drop ≡ final
            → ((c : Cid) → marked dec final c ≡ true → Done c final)
              × ((c : Cid) → marked dec drop c ≡ true → marked dec final c ≡ true)
        at_end p =
            subst
              (λ d.
                ((c : Cid) → marked dec d c ≡ true → Done c d)
                × ((c : Cid) → marked dec drop c ≡ true → marked dec d c ≡ true))
              p (λ c m. elim (inv c m) [ inl q ↦ elim q [ ] | inr done ↦ done ], λ c m. m)
    walk_complete zero drop final (x ∷ queue) inv e = absurd (ground (arith, e))
    walk_complete (suc n) drop final (x ∷ queue) inv e =
        elim (Sum-cases (read_links dec bs scan x)) [
          | inl (err, r) ↦ absurd (ground (arith, rw r at e))
          | inr (ls, r) ↦
              let news = fresh dec is_cbor keep ls in
              let drop' = mark_all dec drop news in
              let (done, mono) =
                walk_complete n drop' final (queue ++ news) (inv' ls r)
                  (sym (walk-step n drop queue x ls r) ∙ e) in
              (done, λ c m. mono c (mark_all-keeps dec drop news c m))
        ]
      where
        still :
            (ls : List Cid) (c : Cid)
            → Done c drop
            → Done c (mark_all dec drop (fresh dec is_cbor keep ls))
        still ls c done l ms p q b k =
            mark_all-keeps dec drop (fresh dec is_cbor keep ls) l (done l ms p q b k)

        own :
            (ls : List Cid)
            → read_links dec bs scan x ≡ inr ls
            → Done x (mark_all dec drop (fresh dec is_cbor keep ls))
        own ls r l ms p q b k =
            let same : ms ≡ ls = ground (arith, p, r) in
            mark_all-marks dec drop (fresh dec is_cbor keep ls) l
              (fresh-mem dec is_cbor keep ls l (subst (λ ys. Memᴰ l ys) same q) b k)

        inv' :
            (ls : List Cid)
            → read_links dec bs scan x ≡ inr ls
            → (c : Cid) → marked dec (mark_all dec drop (fresh dec is_cbor keep ls)) c ≡ true
            → Memᴰ c (queue ++ fresh dec is_cbor keep ls)
              ⊎ Done c (mark_all dec drop (fresh dec is_cbor keep ls))
        inv' ls r c m = elim (mark_all-only dec drop (fresh dec is_cbor keep ls) c m) [
          | inr new ↦ inl (mem-append_right c queue (fresh dec is_cbor keep ls) new)
          | inl old ↦ elim (inv c old) [
            | inr done ↦ inr (still ls c done)
            | inl (tail q) ↦ inl (mem-append_left c queue (fresh dec is_cbor keep ls) q)
            | inl (head q) ↦ inr (
                subst (λ y. Done y (mark_all dec drop (fresh dec is_cbor keep ls))) (sym q)
                  (own ls r))
          ]
        ]

    Reaches-marked :
        (root : Cid) (final : Dict Cid Bool)
        → marked dec final root ≡ true
        → ((c : Cid) → marked dec final c ≡ true → Done c final)
        → (c : Cid) → Reaches root c
        → marked dec final c ≡ true
    Reaches-marked root final m done c root_itself = m
    Reaches-marked root final m done _ (link c l ls r p q b k) =
        done c (Reaches-marked root final m done c r) l ls p q b k

    pub walk-Reaches :
        (root : Cid) (n : ℕ) (final : Dict Cid Bool)
        → walk dec bs scan is_cbor n keep (put dec [] root true) (root ∷ []) ≡ some (inr final)
        → (c : Cid) → (marked dec final c ≡ true) ↔ Reaches root c
    unfolding marked get
    walk-Reaches root n final e c =
        let (done, mono) =
          walk_complete n (put dec [] root true) final (root ∷ [])
            (λ j m. inl (head (only_root j m))) e in
        (
          walk_sound root n (put dec [] root true) final (root ∷ [])
              (λ j m. rw (only_root j m) root_itself) at_root e c,
          Reaches-marked root final (mono root (marked-put_self dec [] root)) done c,
        )
      where
        only_root : (j : Cid) → marked dec (put dec [] root true) j ≡ true → j ≡ root
        only_root j m = elim (marked-put_only dec [] root j m) [
          | inl q ↦ absurd (ground (arith, q))
          | inr q ↦ q
        ]

        at_root : (j : Cid) → Memᴰ j (root ∷ []) → Reaches root j
        at_root j (head q) = rw q root_itself
        at_root j (tail q) = elim q [ ]

  -- A new CID, or one that a new block links to.
  pub data IsKept (news : List Cid) (j : Cid) : Type 0 where
    is_new : Memᴰ j news → IsKept news j
    is_linked :
        (c : Cid) (ls : List Cid)
        → Memᴰ c news
        → read_links dec bs scan c ≡ inr ls
        → Memᴰ j ls
        → IsKept news j

  later : (x : Cid) (news : List Cid) (j : Cid) → IsKept news j → IsKept (x ∷ news) j
  later x news j (is_new m) = is_new (tail m)
  later x news j (is_linked c ls m r l) = is_linked c ls (tail m) r l

  pub keep_new-only :
      (news : List Cid) (keep final : Dict Cid Bool)
      → keep_new dec bs scan news keep ≡ inr final
      → (j : Cid) → marked dec final j ≡ true
      → (marked dec keep j ≡ true) ⊎ IsKept news j
  unfolding keep_new
  keep_new-only [] keep final e j m = inl (ground (arith, e, m))
  keep_new-only (x ∷ news) keep final e j m = elim (Sum-cases (read_links dec bs scan x)) [
    | inl (err, r) ↦ absurd (ground (arith, rw r at e))
    | inr (ls, r) ↦
        elim (keep_new-only news (mark_all dec (put dec keep x true) ls) final (rw r at e) j m) [
          | inr k ↦ inr (later x news j k)
          | inl k ↦ elim (mark_all-only dec (put dec keep x true) ls j k) [
            | inr l ↦ inr (is_linked x ls (head refl) r l)
            | inl l ↦ elim (marked-put_only dec keep x j l) [
              | inl old ↦ inl old
              | inr same ↦ inr (is_new (head same))
            ]
          ]
        ]
  ]

  keep_new-keeps :
      (news : List Cid) (keep final : Dict Cid Bool)
      → keep_new dec bs scan news keep ≡ inr final
      → (j : Cid) → marked dec keep j ≡ true
      → marked dec final j ≡ true
  unfolding keep_new
  keep_new-keeps [] keep final e j m = ground (arith, e, m)
  keep_new-keeps (x ∷ news) keep final e j m = elim (Sum-cases (read_links dec bs scan x)) [
    | inl (err, r) ↦ absurd (ground (arith, rw r at e))
    | inr (ls, r) ↦
        keep_new-keeps news (mark_all dec (put dec keep x true) ls) final (rw r at e) j
          (mark_all-keeps dec (put dec keep x true) ls j (marked-put_keeps dec keep x j m))
  ]

  pub keep_new-marks :
      (news : List Cid) (keep final : Dict Cid Bool)
      → keep_new dec bs scan news keep ≡ inr final
      → (j : Cid) → IsKept news j
      → marked dec final j ≡ true
  unfolding keep_new
  keep_new-marks [] keep final e j (is_new m) = elim m [ ]
  keep_new-marks [] keep final e j (is_linked c ls m r l) = elim m [ ]
  keep_new-marks (x ∷ news) keep final e j k = elim (Sum-cases (read_links dec bs scan x)) [
    | inl (err, r) ↦ absurd (ground (arith, rw r at e))
    | inr (ls, r) ↦
        at_head ls r (rw r at e)
          (keep_new-marks news (mark_all dec (put dec keep x true) ls) final (rw r at e) j) k
  ]
    where
      at_head :
          (ls : List Cid)
          → read_links dec bs scan x ≡ inr ls
          → keep_new dec bs scan news (mark_all dec (put dec keep x true) ls) ≡ inr final
          → (IsKept news j → marked dec final j ≡ true)
          → IsKept (x ∷ news) j
          → marked dec final j ≡ true
      at_head ls r e' next (is_new (head p)) =
          keep_new-keeps news (mark_all dec (put dec keep x true) ls) final e' j
            (mark_all-keeps dec (put dec keep x true) ls j (rw p (marked-put_self dec keep x)))
      at_head ls r e' next (is_new (tail m)) = next (is_new m)
      at_head ls r e' next (is_linked c ms (tail m) q l) = next (is_linked c ms m q l)
      at_head ls r e' next (is_linked c ms (head p) q l) =
          let same : ms ≡ ls = ground (arith, p, q, r) in
          keep_new-keeps news (mark_all dec (put dec keep x true) ls) final e' j
            (mark_all-marks dec (put dec keep x true) ls j (subst (λ ys. Memᴰ j ys) same l))
