-- ===== src/Repo/Walk/Total.antt =====
-- The fuel of the walk, by heights that fall along links: a CID hashes what its block holds.
use referendum_services.Prelude.{
  ℕ, zero, suc, ◌<◌, List, [], ◌∷◌, ◌++◌, none, some, Bool, true, false, ◌⊎◌, inl, inr, ◌&&◌, not,
  ◌≡◌, refl, arith, Bool-cases,
}
use referendum_services.Prelude.Dict.{put}
use referendum_services.Repo.Walk.{
  WalkError, is_not_found, Fetched, missing, unreadable, got, Blocks, Skip, take_links, Walked,
  walk_all, after_child, on_scanned, on_fetched, walk_tree,
}
use referendum_services.Repo.Walk.Marks.{Taken, take_links-Taken}
use mathlib.Core.List.Memᴰ.{Memᴰ, head, tail}

module _ {Cid Block : Type 0} (bs : Blocks Cid Block) where
  abbrev Ends : Walked bs → Type 0
  Ends r = (x : (WalkError ⊎ List Cid) × Skip bs) × (r ≡ some x)

  loop-Ends :
      (walk : Skip bs → Cid → Walked bs) (prev_missing : Bool) (cs out : List Cid) (d : Skip bs)
      → ((d' : Skip bs) (c : Cid) → Memᴰ c cs → Ends (walk d' c))
      → Ends (walk_all bs walk prev_missing cs out d)
  loop-Ends walk prev_missing [] out d h = (_, refl)
  loop-Ends walk prev_missing (c ∷ cs) out d h =
      go (walk d c) (h d c (head refl))
        (λ o d1. loop-Ends walk prev_missing cs o d1 (λ d' j m. h d' j (tail m)))
    where
      go :
          (r : Walked bs)
          → Ends r
          → ((o : List Cid) (d1 : Skip bs) → Ends (walk_all bs walk prev_missing cs o d1))
          → Ends (after_child bs prev_missing out (λ o d1. walk_all bs walk prev_missing cs o d1) r)
      go none (x, e) rest = absurd (ground (arith, e))
      go (some (inr sub, d1)) e rest = rest (out ++ sub) d1
      go (some (inl x, d1)) e rest = elim (Bool-cases (prev_missing && not (is_not_found x))) [
        | inl t ↦ rw t ((inl x, d1), refl)
        | inr f ↦ rw f (rest out d1)
      ]

  module _ (height : Cid → ℕ)
      (falls : (a c : Cid) (b : Block)
        → bs.fetch a ≡ got b
        → Memᴰ c (bs.scan b).0
        → height c < height a) where
    -- With fuel above the root's height the walk returns, whatever it skips.
    pub walk_tree_total :
        (n : ℕ) (prev_missing : Bool) (d : Skip bs) (root : Cid)
        → height root < n
        → (x : (WalkError ⊎ List Cid) × Skip bs) × (walk_tree bs n prev_missing d root ≡ some x)
    unfolding walk_tree
    walk_tree_total zero prev_missing d root h = absurd (omega arith)
    walk_tree_total (suc n) prev_missing d root h = elim (Bool-cases (bs.is_cbor root)) [
      | inr q ↦ rw q (_, refl)
      | inl q ↦ rw q (go (bs.fetch root) refl (λ c d'. walk_tree_total n prev_missing d' c))
    ]
      where
        children : Skip bs → Cid → Walked bs
        children d' c = walk_tree bs n prev_missing d' c

        Below : Type 0
        Below = (c : Cid) (d' : Skip bs) → height c < n → Ends (children d' c)

        scan_ends :
            (b : Block) (ok : Bool) (t : List Cid × Skip bs)
            → bs.fetch root ≡ got b
            → Taken bs (bs.scan b).0 d t
            → Below
            → Ends (on_scanned bs children prev_missing root ok t)
        scan_ends b true (links, d1) there (g, all, only, from) below =
            loop-Ends children prev_missing links (root ∷ []) (put bs.dec d1 root true) (λ d' c m.
              let lower = falls root c b there (from c m).0 in below c d' (omega (arith, lower)))
        scan_ends b false (links, d1) there taken below = (_, refl)

        go :
            (f : Fetched Block)
            → bs.fetch root ≡ f
            → Below
            → Ends (on_fetched bs children prev_missing root d f)
        go missing e below = (_, refl)
        go unreadable e below = (_, refl)
        go (got b) e below =
            scan_ends b (bs.scan b).1 (take_links bs (bs.scan b).0 d) e
              (take_links-Taken bs (bs.scan b).0 d) below
