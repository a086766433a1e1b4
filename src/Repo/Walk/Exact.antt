-- ===== src/Repo/Walk/Exact.antt =====
-- The blocks that a walk lists, against the routes of links from its root.
use referendum_services.Prelude.{
  ℕ, zero, suc, List, [], ◌∷◌, some, Bool, true, false, ◌⊎◌, inl, inr, ◌≡◌, refl, sym, ap, ◌∙◌,
  subst, arith, Bool-cases, ◌↔◌,
}
use referendum_services.Prelude.Dict.{put, get}
use referendum_services.Car.Diff.{marked}
use referendum_services.Car.Diff.Visit.{marked-put_keeps, marked-put_only}
use referendum_services.Repo.Walk.{
  WalkError, not_read, bad_cbor, is_not_found, Fetched, missing, unreadable, got, Blocks, Skip,
  take_links, Walked, on_scanned, on_fetched, walk_tree,
}
use referendum_services.Repo.Walk.Marks.{IsMarked, Taken, take_links-Taken, walk_all_error}
use mathlib.Core.List.Memᴰ.{Memᴰ, head, tail}
use referendum_services.Repo.Walk.Loop.{
  IsLink, Route, prepend, Spec, LoopSpec, IsWalk, loop-LoopSpec, here, link,
}

module _ {Cid Block : Type 0} (bs : Blocks Cid Block) where
  root-Spec :
      (root : Cid) (b : Block) (links out' : List Cid) (d d1 d' : Skip bs)
      → bs.fetch root ≡ got b
      → Taken bs (bs.scan b).0 d (links, d1)
      → LoopSpec bs links (root ∷ []) (put bs.dec d1 root true) out' d'
      → Spec bs d root out' d'
  root-Spec root b links out' d d1 d' there (g1, all1, only1, from1)
        (g, keep, all, new, closed, sound) =
      (
        λ j m. g j (marked-put_keeps bs.dec d1 root j (g1 j m)),
        keep root (head refl),
        λ j m. elim (new j m) [
          | inr r ↦ inr r
          | inl o ↦ elim (marked-put_only bs.dec d1 root j o) [
            | inr p ↦ inr (inl (keep j (head p)))
            | inl q ↦ elim (only1 j q) [ inl k ↦ inl k | inr l ↦ inr (all j l) ]
          ]
        ],
        λ a j m l. elim (closed a j m l) [ inr q ↦ q | inl o ↦ own a j (only_root a o) l ],
        λ a m. elim (sound a m) [
          | inl o ↦ subst (Route bs root) (sym (only_root a o)) (here (b, there))
          | inr (c, l, p) ↦ prepend bs (b, there) (b, there, (from1 c l).0, (from1 c l).1) p
        ],
      )
    where
      only_root : (a : Cid) → Memᴰ a (root ∷ []) → a ≡ root
      only_root a (head p) = p
      only_root a (tail t) = elim t [ ]

      own : (a j : Cid) → a ≡ root → IsLink bs a j → IsMarked bs d' j
      own a j p (b', there', m, raw) =
          let blocks : got b' ≡ got b = sym there' ∙ ap bs.fetch p ∙ there in
          let same : b' ≡ b = ground (arith, blocks) in
          g j (
            marked-put_keeps bs.dec d1 root j
              (all1 j (subst (λ x. Memᴰ j (bs.scan x).0) same m) raw))

  walk_tree-IsWalk : (n : ℕ) → IsWalk bs (λ d c. walk_tree bs n true d c)
  unfolding walk_tree
  walk_tree-IsWalk zero =
      (λ d d' c out e. absurd (ground (arith, e)), λ d d' c x e t. absurd (ground (arith, e)))
  walk_tree-IsWalk (suc n) = (
    λ d d' c out e. elim (Bool-cases (bs.is_cbor c)) [
      | inl q ↦ walked d d' c out (bs.fetch c) refl (rw q at e) (walk_tree-IsWalk n)
      | inr q ↦ absurd (ground (arith, rw q at e))
    ],
    λ d d' c x e t. elim (Bool-cases (bs.is_cbor c)) [
      | inl q ↦ failed d d' c x (bs.fetch c) refl t (rw q at e)
      | inr q ↦ absurd (ground (arith, t, rw q at e))
    ],
  )
    where
      children : Skip bs → Cid → Walked bs
      children d c = walk_tree bs n true d c

      walked_scan :
          (d d' : Skip bs) (c : Cid) (b : Block) (out : List Cid) (ok : Bool)
          (t : List Cid × Skip bs)
          → bs.fetch c ≡ got b
          → Taken bs (bs.scan b).0 d t
          → on_scanned bs children true c ok t ≡ some (inr out, d')
          → IsWalk bs children
          → Spec bs d c out d'
      walked_scan d d' c b out true (links, d1) there taken e w =
          root-Spec c b links out d d1 d' there taken
            (loop-LoopSpec bs children w links (c ∷ []) out (put bs.dec d1 c true) d' e)
      walked_scan d d' c b out false (links, d1) there taken e w = absurd (ground (arith, e))

      walked :
          (d d' : Skip bs) (c : Cid) (out : List Cid) (f : Fetched Block)
          → bs.fetch c ≡ f
          → on_fetched bs children true c d f ≡ some (inr out, d')
          → IsWalk bs children
          → Spec bs d c out d'
      walked d d' c out missing q e w = absurd (ground (arith, e))
      walked d d' c out unreadable q e w = absurd (ground (arith, e))
      walked d d' c out (got b) q e w =
          walked_scan d d' c b out (bs.scan b).1 (take_links bs (bs.scan b).0 d) q
            (take_links-Taken bs (bs.scan b).0 d) e w

      failed_scan :
          (d d' : Skip bs) (c : Cid) (x : WalkError) (ok : Bool) (t : List Cid × Skip bs)
          → is_not_found x ≡ true
          → on_scanned bs children true c ok t ≡ some (inl x, d')
          → ⊥
      failed_scan d d' c x true (links, d1) nf e =
          ground
            (arith, nf, walk_all_error bs children links (c ∷ []) (put bs.dec d1 c true) d' x e)
      failed_scan d d' c x false (links, d1) nf e =
          let same : bad_cbor ≡ x = ground (arith, e) in
          let no_match : is_not_found bad_cbor ≡ true =
            subst (λ y. is_not_found y ≡ true) (sym same) nf in
          ground (arith, no_match)

      failed :
          (d d' : Skip bs) (c : Cid) (x : WalkError) (f : Fetched Block)
          → bs.fetch c ≡ f
          → is_not_found x ≡ true
          → on_fetched bs children true c d f ≡ some (inl x, d')
          → (bs.fetch c ≡ missing) × (d ≡ d')
      failed d d' c x missing q nf e = (q, ground (arith, e))
      failed d d' c x unreadable q nf e =
          let same : not_read ≡ x = ground (arith, e) in
          let no_match : is_not_found not_read ≡ true =
            subst (λ y. is_not_found y ≡ true) (sym same) nf in
          absurd (ground (arith, no_match))
      failed d d' c x (got b) q nf e =
          absurd (failed_scan d d' c x (bs.scan b).1 (take_links bs (bs.scan b).0 d) nf e)

  -- A walk with prevMissing set and an empty skip map that returns CIDs lists a CID if and only if a path
  -- of links that are not raw leads to it from the root through stored blocks, which it is one of.
  pub walk_tree_exact :
      (n : ℕ) (root : Cid) (out : List Cid) (d : Skip bs)
      → walk_tree bs n true [] root ≡ some (inr out, d)
      → (c : Cid) → Memᴰ c out ↔ Route bs root c
  unfolding marked get
  walk_tree_exact n root out d e c =
      let (g, self, new, closed, sound) = (walk_tree-IsWalk n).0 [] d root out e in
      (sound c, reached self new closed c)
    where
      reached :
          Memᴰ root out
          → ((c : Cid) → IsMarked bs d c → IsMarked bs [] c ⊎ (Memᴰ c out ⊎ (bs.fetch c ≡ missing)))
          → ((a c : Cid) → Memᴰ a out → IsLink bs a c → IsMarked bs d c)
          → (c : Cid) → Route bs root c
          → Memᴰ c out
      reached self new closed c (here p) = self
      reached self new closed c (link {a = a} path l (b, there)) =
          elim (new c (closed a c (reached self new closed a path) l)) [
            | inl m ↦ absurd (ground (arith, m))
            | inr (inl m) ↦ m
            | inr (inr none_there) ↦
                let both : missing ≡ got b = sym none_there ∙ there in absurd (ground (arith, both))
          ]
