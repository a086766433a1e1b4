-- ===== src/Car/Diff/Visit.antt =====
-- What the loops of BlockDiff do to the sets: membership after marking, and the visit of a block's
-- links as one marking of the links that are fresh.
use referendum_services.Prelude.{
  List, [], ◌∷◌, ◌++◌, some, Bool, true, false, ◌⊎◌, inl, inr, ◌&&◌, not, ◌≡◌, refl, ap, ◌∙◌,
  if◌then◌else◌, append-nil, append_assoc, arith, Bool-cases, ite, subst,
}
use referendum_services.Prelude.Dict.{Dict, get, put, get-put}
use referendum_services.Car.Diff.{is_marked, marked, mark_all, visit}
use mathlib.Core.List.Memᴰ.{Memᴰ, head, tail}

module _ {Cid : Type 0} (dec : Discrete Cid) where
  pub marked-put :
      (d : Dict Cid Bool) (c j : Cid)
      → marked dec (put dec d c true) j ≡ ite (dec c j) true (marked dec d j)
  unfolding marked
  marked-put d c j = ap is_marked (get-put dec d c j true) ∙ is_marked-ite (dec c j)
    where
      is_marked-ite :
          (e : Dec (c ≡ j))
          → is_marked (ite e (some true) (get dec d j)) ≡ ite e true (is_marked (get dec d j))
      is_marked-ite (yes p) = refl
      is_marked-ite (no p) = refl

  pub marked-put_self : (d : Dict Cid Bool) (c : Cid) → marked dec (put dec d c true) c ≡ true
  marked-put_self d c = ground (arith, marked-put d c c)

  pub marked-put_keeps :
      (d : Dict Cid Bool) (c j : Cid)
      → marked dec d j ≡ true
      → marked dec (put dec d c true) j ≡ true
  marked-put_keeps d c j h = ground (arith, marked-put d c j)

  pub marked-put_only :
      (d : Dict Cid Bool) (c j : Cid)
      → marked dec (put dec d c true) j ≡ true
      → (marked dec d j ≡ true) ⊎ (j ≡ c)
  marked-put_only d c j h = elim (dec c j) [
    | yes p ↦ inr (ground arith)
    | no p ↦ inl (ground (arith, marked-put d c j))
  ]

  pub mark_all-keeps :
      (d : Dict Cid Bool) (cs : List Cid) (j : Cid)
      → marked dec d j ≡ true
      → marked dec (mark_all dec d cs) j ≡ true
  unfolding mark_all
  mark_all-keeps d [] j h = h
  mark_all-keeps d (c ∷ cs) j h = mark_all-keeps (put dec d c true) cs j (marked-put_keeps d c j h)

  pub mark_all-marks :
      (d : Dict Cid Bool) (cs : List Cid) (j : Cid)
      → Memᴰ j cs
      → marked dec (mark_all dec d cs) j ≡ true
  unfolding mark_all
  mark_all-marks d [] j m = elim m [ ]
  mark_all-marks d (c ∷ cs) j (head p) =
      mark_all-keeps (put dec d c true) cs j (rw p (marked-put_self d c))
  mark_all-marks d (c ∷ cs) j (tail m) = mark_all-marks (put dec d c true) cs j m

  pub mark_all-only :
      (d : Dict Cid Bool) (cs : List Cid) (j : Cid)
      → marked dec (mark_all dec d cs) j ≡ true
      → (marked dec d j ≡ true) ⊎ Memᴰ j cs
  unfolding mark_all
  mark_all-only d [] j h = inl h
  mark_all-only d (c ∷ cs) j h = elim (mark_all-only (put dec d c true) cs j h) [
    | inr m ↦ inr (tail m)
    | inl p ↦ elim (marked-put_only d c j p) [ inl q ↦ inl q | inr e ↦ inr (head e) ]
  ]

  module _ (is_cbor : Cid → Bool) (keep : Dict Cid Bool) where
    -- The links that are CBOR blocks and not in the keep set.
    abbrev pub fresh : List Cid → List Cid
    fresh [] = []
    fresh (l ∷ ls) =
        let rest = fresh ls in if is_cbor l && not (marked dec keep l) then l ∷ rest else rest

    pub fresh-mem :
        (ls : List Cid) (j : Cid)
        → Memᴰ j ls
        → is_cbor j ≡ true
        → marked dec keep j ≡ false
        → Memᴰ j (fresh ls)
    fresh-mem [] j m b k = elim m [ ]
    fresh-mem (l ∷ ls) j (head p) b k =
        rw (subst (λ x. is_cbor x ≡ true) p b, subst (λ x. marked dec keep x ≡ false) p k) (head p)
    fresh-mem (l ∷ ls) j (tail m) b k = elim (Bool-cases (is_cbor l && not (marked dec keep l))) [
      | inl e ↦ rw e (tail (fresh-mem ls j m b k))
      | inr e ↦ rw e (fresh-mem ls j m b k)
    ]

    pub mem-fresh :
        (ls : List Cid) (j : Cid)
        → Memᴰ j (fresh ls)
        → Memᴰ j ls × (is_cbor j ≡ true) × (marked dec keep j ≡ false)
    mem-fresh [] j m = elim m [ ]
    mem-fresh (l ∷ ls) j m = elim (Bool-cases (is_cbor l)) [
      | inr no_cbor ↦ later (mem-fresh ls j (rw no_cbor at m))
      | inl cbor ↦ elim (Bool-cases (marked dec keep l)) [
        | inl kept ↦ later (mem-fresh ls j (rw (cbor, kept) at m))
        | inr dropped ↦ first (mem-fresh ls j) cbor dropped (rw (cbor, dropped) at m)
      ]
    ]
      where
        later :
            Memᴰ j ls × (is_cbor j ≡ true) × (marked dec keep j ≡ false)
            → Memᴰ j (l ∷ ls) × (is_cbor j ≡ true) × (marked dec keep j ≡ false)
        later (x, y, z) = (tail x, y, z)

        first :
            (Memᴰ j (fresh ls) → Memᴰ j ls × (is_cbor j ≡ true) × (marked dec keep j ≡ false))
            → is_cbor l ≡ true
            → marked dec keep l ≡ false
            → Memᴰ j (l ∷ fresh ls)
            → Memᴰ j (l ∷ ls) × (is_cbor j ≡ true) × (marked dec keep j ≡ false)
        first next y z (head p) = (head p, rw p y, rw p z)
        first next y z (tail x) = later (next x)

    pub visit-fresh :
        (ls : List Cid) (drop : Dict Cid Bool) (queue : List Cid)
        → visit dec is_cbor keep ls (drop, queue)
          ≡ (mark_all dec drop (fresh ls), queue ++ fresh ls)
    unfolding visit mark_all
    visit-fresh [] drop queue = rw (append-nil queue) refl
    visit-fresh (l ∷ ls) drop queue = elim (Bool-cases (is_cbor l)) [
      | inr no_cbor ↦ rw no_cbor (visit-fresh ls drop queue)
      | inl cbor ↦ elim (Bool-cases (marked dec keep l)) [
        | inl kept ↦ rw (cbor, kept) (visit-fresh ls drop queue)
        | inr dropped ↦
            rw (cbor, dropped)
              (visit-fresh ls (put dec drop l true) (queue ++ l ∷ [])
                ∙ ap (λ q. (mark_all dec (put dec drop l true) (fresh ls), q))
                    (append_assoc queue (l ∷ []) (fresh ls)))
      ]
    ]
