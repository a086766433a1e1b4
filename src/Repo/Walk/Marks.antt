-- ===== src/Repo/Walk/Marks.antt =====
-- What taking the links of a block does to the skip map, and which errors the loop over them returns.
use referendum_services.Prelude.{
  List, [], ◌∷◌, ◌++◌, none, some, true, false, ◌⊎◌, inl, inr, ◌≡◌, sym, ap, subst, arith,
  Bool-cases, if◌then◌else◌,
}
use referendum_services.Prelude.Dict.{put}
use referendum_services.Car.Diff.{marked}
use referendum_services.Car.Diff.Visit.{marked-put_self, marked-put_keeps, marked-put_only}
use referendum_services.Repo.Walk.{
  WalkError, is_not_found, Blocks, Skip, take_links, with_link, Walked, walk_all, after_child,
}
use mathlib.Core.List.Memᴰ.{Memᴰ, head, tail}

module _ {Cid Block : Type 0} (bs : Blocks Cid Block) where
  abbrev pub IsMarked : Skip bs → Cid → Type 0
  IsMarked d c = marked bs.dec d c ≡ true

  abbrev pub Grows : Skip bs → Skip bs → Type 0
  Grows d d' = (c : Cid) → IsMarked d c → IsMarked d' c

  -- The links of one block: those taken are marked, links of it and not raw; all that are not raw are
  -- marked; and nothing else is marked.
  abbrev pub Taken : List Cid → Skip bs → List Cid × Skip bs → Type 0
  Taken cs d (links, d') =
      Grows d d'
      × ((c : Cid) → Memᴰ c cs → bs.is_raw c ≡ false → IsMarked d' c)
      × ((c : Cid) → IsMarked d' c → IsMarked d c ⊎ Memᴰ c links)
      × ((c : Cid) → Memᴰ c links → Memᴰ c cs × (bs.is_raw c ≡ false))

  pub take_links-Taken : (cs : List Cid) (d : Skip bs) → Taken cs d (take_links bs cs d)
  unfolding take_links
  take_links-Taken [] d = (λ c m. m, λ c m. elim m [ ], λ c m. inl m, λ c m. elim m [ ])
  take_links-Taken (c ∷ cs) d =
      go (take_links-Taken cs d) (take_links-Taken cs (put bs.dec d c true))
    where
      passed :
          Taken cs d (take_links bs cs d)
          → ((j : Cid) → j ≡ c → bs.is_raw j ≡ false → IsMarked (take_links bs cs d).1 j)
          → Taken (c ∷ cs) d (take_links bs cs d)
      passed (g, all, only, from) self = (
        g,
        λ j m r. elim m [ head p ↦ self j p r | tail t ↦ all j t r ],
        only,
        λ j m. (tail (from j m).0, (from j m).1),
      )

      taken :
          bs.is_raw c ≡ false
          → Taken cs (put bs.dec d c true) (take_links bs cs (put bs.dec d c true))
          → Taken (c ∷ cs) d (with_link bs c (take_links bs cs (put bs.dec d c true)))
      taken raw (g, all, only, from) = (
        λ j m. g j (marked-put_keeps bs.dec d c j m),
        λ j m r. elim m [
          | head p ↦
              g j
                (subst (λ x. IsMarked (put bs.dec d c true) x) (sym p) (marked-put_self bs.dec d c))
          | tail t ↦ all j t r
        ],
        λ j m. elim (only j m) [
          | inr l ↦ inr (tail l)
          | inl o ↦ elim (marked-put_only bs.dec d c j o) [ inl q ↦ inl q | inr e ↦ inr (head e) ]
        ],
        λ j m. elim m [
          | head p ↦ (head p, subst (λ x. bs.is_raw x ≡ false) (sym p) raw)
          | tail t ↦ (tail (from j t).0, (from j t).1)
        ],
      )

      go :
          Taken cs d (take_links bs cs d)
          → Taken cs (put bs.dec d c true) (take_links bs cs (put bs.dec d c true))
          → Taken (c ∷ cs) d (
              if bs.is_raw c
              then take_links bs cs d
              else if marked bs.dec d c
              then take_links bs cs d
              else with_link bs c (take_links bs cs (put bs.dec d c true)))
      go p t = elim (Bool-cases (bs.is_raw c)) [
        | inl raw ↦ rw raw (passed p (λ j e r. absurd (ground (arith, raw, r, ap bs.is_raw e))))
        | inr raw ↦ elim (Bool-cases (marked bs.dec d c)) [
          | inl m ↦ rw (raw, m) (passed p (λ j e r. p.0 j (subst (λ x. IsMarked d x) (sym e) m)))
          | inr m ↦ rw (raw, m) (taken raw t)
        ]
      ]

  -- With prevMissing set, the loop returns no not-found error.
  pub walk_all_error :
      (walk : Skip bs → Cid → Walked bs) (cs out : List Cid) (d d' : Skip bs) (x : WalkError)
      → walk_all bs walk true cs out d ≡ some (inl x, d')
      → is_not_found x ≡ false
  walk_all_error walk [] out d d' x e = absurd (ground (arith, e))
  walk_all_error walk (c ∷ cs) out d d' x e =
      go (walk d c) e (λ out' d1 e'. walk_all_error walk cs out' d1 d' x e')
    where
      go :
          (r : Walked bs)
          → after_child bs true out (λ out' d1. walk_all bs walk true cs out' d1) r
            ≡ some (inl x, d')
          → ((out' : List Cid) (d1 : Skip bs)
              → walk_all bs walk true cs out' d1 ≡ some (inl x, d')
              → is_not_found x ≡ false)
          → is_not_found x ≡ false
      go none q rest = absurd (ground (arith, q))
      go (some (inr sub, d1)) q rest = rest (out ++ sub) d1 q
      go (some (inl y, d1)) q rest = elim (Bool-cases (is_not_found y)) [
        | inl t ↦ rest out d1 (rw t at q)
        | inr f ↦
            let failed : some (inl y, d1) ≡ some (inl x, d') = rw f at q in
            let same : y ≡ x = ground (arith, failed) in subst (λ z. is_not_found z ≡ false) same f
      ]
