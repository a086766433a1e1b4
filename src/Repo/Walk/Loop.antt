-- ===== src/Repo/Walk/Loop.antt =====
-- What walks from single blocks list and mark, and what the loop over a block's links makes of them.
use referendum_services.Prelude.{
  List, [], ◌∷◌, ◌++◌, none, some, true, false, ◌⊎◌, inl, inr, ◌≡◌, refl, sym, subst, arith,
  Bool-cases, mem-append_left, mem-append_right, mem-append_cases,
}
use referendum_services.Repo.Walk.{
  WalkError, is_not_found, missing, got, Blocks, Skip, Walked, walk_all, after_child,
}
use referendum_services.Repo.Walk.Marks.{IsMarked, Grows}
use mathlib.Core.List.Memᴰ.{Memᴰ, head, tail}

module _ {Cid Block : Type 0} (bs : Blocks Cid Block) where
  abbrev pub IsPresent : Cid → Type 0
  IsPresent c = (b : Block) × (bs.fetch c ≡ got b)

  -- The block of `a` is stored and links to `c`, which is not raw.
  abbrev pub IsLink : Cid → Cid → Type 0
  IsLink a c = (b : Block) × (bs.fetch a ≡ got b) × Memᴰ c (bs.scan b).0 × (bs.is_raw c ≡ false)

  pub data Route (root : Cid) : Cid → Type 0 where
    here : IsPresent root → Route root root
    link : {a c : Cid} → Route root a → IsLink a c → IsPresent c → Route root c

  pub prepend : {root c a : Cid} → IsPresent root → IsLink root c → Route c a → Route root a
  prepend p l (here q) = link (here p) l q
  prepend p l (link path l' q) = link (prepend p l path) l' q

  -- A walk from one block: what it marks it lists, or finds missing; the links of what it lists are
  -- marked; and it lists what a path reaches, the block itself first.
  abbrev pub Spec : Skip bs → Cid → List Cid → Skip bs → Type 0
  Spec d root out d' =
      Grows bs d d'
      × Memᴰ root out
      × ((c : Cid) → IsMarked bs d' c → IsMarked bs d c ⊎ (Memᴰ c out ⊎ (bs.fetch c ≡ missing)))
      × ((a c : Cid) → Memᴰ a out → IsLink a c → IsMarked bs d' c)
      × ((c : Cid) → Memᴰ c out → Route root c)

  abbrev pub LoopSpec : List Cid → List Cid → Skip bs → List Cid → Skip bs → Type 0
  LoopSpec cs out d out' d' =
      Grows bs d d'
      × ((c : Cid) → Memᴰ c out → Memᴰ c out')
      × ((c : Cid) → Memᴰ c cs → Memᴰ c out' ⊎ (bs.fetch c ≡ missing))
      × ((c : Cid) → IsMarked bs d' c → IsMarked bs d c ⊎ (Memᴰ c out' ⊎ (bs.fetch c ≡ missing)))
      × ((a c : Cid) → Memᴰ a out' → IsLink a c → Memᴰ a out ⊎ IsMarked bs d' c)
      × ((a : Cid) → Memᴰ a out' → Memᴰ a out ⊎ ((c : Cid) × Memᴰ c cs × Route c a))

  -- A walk that this loop may call: it keeps to the above, and where it says not found it did nothing.
  abbrev pub IsWalk : (Skip bs → Cid → Walked bs) → Type 0
  IsWalk walk =
      ((d d' : Skip bs) (c : Cid) (out : List Cid)
        → walk d c ≡ some (inr out, d')
        → Spec d c out d')
      × ((d d' : Skip bs) (c : Cid) (x : WalkError)
          → walk d c ≡ some (inl x, d')
          → is_not_found x ≡ true
          → (bs.fetch c ≡ missing) × (d ≡ d'))

  pub loop-LoopSpec :
      (walk : Skip bs → Cid → Walked bs)
      → IsWalk walk
      → (cs out out' : List Cid) (d d' : Skip bs)
      → walk_all bs walk true cs out d ≡ some (inr out', d')
      → LoopSpec cs out d out' d'
  loop-LoopSpec walk w [] out out' d d' e =
      let same : out ≡ out' = ground (arith, e) in
      let same_d : d ≡ d' = ground (arith, e) in
      (
        λ c m. subst (λ x. IsMarked bs x c) same_d m,
        λ c m. subst (λ l. Memᴰ c l) same m,
        λ c m. elim m [ ],
        λ c m. inl (subst (λ x. IsMarked bs x c) (sym same_d) m),
        λ a c m l. inl (subst (λ l. Memᴰ a l) (sym same) m),
        λ a m. inl (subst (λ l. Memᴰ a l) (sym same) m),
      )
  loop-LoopSpec walk w (c ∷ cs) out out' d d' e =
      go (walk d c) refl e (λ o d1 e'. loop-LoopSpec walk w cs o out' d1 d' e')
    where
      skipped : bs.fetch c ≡ missing → LoopSpec cs out d out' d' → LoopSpec (c ∷ cs) out d out' d'
      skipped none_there (g, keep, all, new, closed, sound) = (
        g,
        keep,
        λ j m. elim m [
          | head p ↦ inr (subst (λ x. bs.fetch x ≡ missing) (sym p) none_there)
          | tail t ↦ all j t
        ],
        new,
        closed,
        λ a m. elim (sound a m) [ inl o ↦ inl o | inr (j, t, p) ↦ inr (j, tail t, p) ],
      )

      listed :
          (sub : List Cid) (d1 : Skip bs)
          → Spec d c sub d1
          → LoopSpec cs (out ++ sub) d1 out' d'
          → LoopSpec (c ∷ cs) out d out' d'
      listed sub d1 (g1, self, new1, closed1, sound1) (g, keep, all, new, closed, sound) = (
        λ j m. g j (g1 j m),
        λ j m. keep j (mem-append_left j out sub m),
        λ j m. elim m [
          | head p ↦
              inl (keep j (mem-append_right j out sub (subst (λ x. Memᴰ x sub) (sym p) self)))
          | tail t ↦ all j t
        ],
        λ j m. elim (new j m) [
          | inr r ↦ inr r
          | inl o ↦ elim (new1 j o) [
            | inl q ↦ inl q
            | inr (inl s) ↦ inr (inl (keep j (mem-append_right j out sub s)))
            | inr (inr n) ↦ inr (inr n)
          ]
        ],
        λ a j m l. elim (closed a j m l) [
          | inr q ↦ inr q
          | inl o ↦ elim (mem-append_cases a out sub o) [
            | inl b ↦ inl b
            | inr s ↦ inr (g j (closed1 a j s l))
          ]
        ],
        λ a m. elim (sound a m) [
          | inr (j, t, p) ↦ inr (j, tail t, p)
          | inl o ↦ elim (mem-append_cases a out sub o) [
            | inl b ↦ inl b
            | inr s ↦ inr (c, head refl, sound1 a s)
          ]
        ],
      )

      go :
          (r : Walked bs)
          → walk d c ≡ r
          → after_child bs true out (λ o d1. walk_all bs walk true cs o d1) r ≡ some (inr out', d')
          → ((o : List Cid) (d1 : Skip bs)
              → walk_all bs walk true cs o d1 ≡ some (inr out', d')
              → LoopSpec cs o d1 out' d')
          → LoopSpec (c ∷ cs) out d out' d'
      go none q x rest = absurd (ground (arith, x))
      go (some (inr sub, d1)) q x rest = listed sub d1 (w.0 d d1 c sub q) (rest (out ++ sub) d1 x)
      go (some (inl y, d1)) q x rest = elim (Bool-cases (is_not_found y)) [
        | inl t ↦
            let (none_there, same) = w.1 d d1 c y q t in
            skipped none_there
              (subst (λ z. LoopSpec cs out z out' d') (sym same) (rest out d1 (rw t at x)))
        | inr f ↦ absurd (ground (arith, rw f at x))
      ]
