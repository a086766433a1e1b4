-- ===== src/Car/View/Named.antt =====
-- The CIDs of the blocks that a view returns and caches, and readers that cannot seek.
use referendum_services.Prelude.{
  ℕ, zero, suc, ◌<◌, ◌≤◌, String, List, [], ◌∷◌, Option, none, some, Bool, true, false, ◌⊎◌, inl,
  inr, ◌&&◌, ◌==◌, ltb, min, str_eq, ite, ◌≡◌, refl, sym, ap, ◌∙◌, subst, arith, Bool-cases, ◌≢◌,
}
use referendum_services.Prelude.Dict.{get, put, get-put}
use referendum_services.Car.Shard.{Bytes}
use referendum_services.Car.View.{
  ViewError, wrong_cid, not_skipped, bad_car, no_object, undefined_cid, lookup_failed, no_block,
  ReadEnd, more, eof, broken, Place, Source, Cache, built, node_block, do_block_read, on_read,
  skip_bytes, offset_bytes, Viewed, skipped_read, cache_all, in_cache, car_read, threshold,
  of_object, prefetch_read, of_range, single_read, at_place, from_cache, view_get,
}

module _ {Cid Block Body : Type 0} (src : Source Cid Block Body) where
  -- NewBlockWithCid makes a block of the CID that it is given.
  abbrev pub IsMaker : Type 0
  IsMaker = (raw : Bytes) (c : Cid) (b : Block) → src.new_block raw c ≡ some b → src.cid_of b ≡ c

  -- Each block stands in the cache under its CID.
  abbrev pub IsNamed : Cache src → Type 0
  IsNamed d = (k : Cid) (b : Block) → get src.dec d k ≡ some b → src.cid_of b ≡ k

  IsNamed-put : (d : Cache src) (b : Block) → IsNamed d → IsNamed (put src.dec d (src.cid_of b) b)
  IsNamed-put d b h k x e =
      go (src.dec (src.cid_of b) k) (sym (get-put src.dec d (src.cid_of b) k b) ∙ e)
    where
      go :
          (t : Dec (src.cid_of b ≡ k))
          → ite t (some b) (get src.dec d k) ≡ some x
          → src.cid_of x ≡ k
      go (yes p) q = let same : b ≡ x = ground (arith, q) in ap src.cid_of (sym same) ∙ p
      go (no n) q = h k x q

  cache_all-IsNamed : (bs : List Block) (d : Cache src) → IsNamed d → IsNamed (cache_all src bs d)
  cache_all-IsNamed [] d h = h
  cache_all-IsNamed (b ∷ bs) d h =
      cache_all-IsNamed bs (put src.dec d (src.cid_of b) b) (IsNamed-put d b h)

  module _ (maker : IsMaker) where
    do_block_read_named :
        (body : Body) (k : Cid) (b : Block) → do_block_read src body k ≡ inr b → src.cid_of b ≡ k
    unfolding do_block_read
    do_block_read_named body k b e = go (src.read_node body) e
      where
        made :
            (c : Cid) (raw : Bytes) (o : Option Block)
            → src.new_block raw c ≡ o
            → built src o ≡ inr b
            → src.cid_of b ≡ c
        made c raw none q x = absurd (ground (arith, x))
        made c raw (some b') q x =
            let same : b' ≡ b = ground (arith, x) in ap src.cid_of (sym same) ∙ maker raw c b' q

        decided :
            (c : Cid) (raw : Bytes) (t : Dec (c ≡ k))
            → ◌≡◌ {A = ViewError ⊎ Block}
                (ite t (built src (src.new_block raw c)) (inl wrong_cid))
                (inr b)
            → src.cid_of b ≡ k
        decided c raw (yes p) x = made c raw (src.new_block raw c) refl x ∙ p
        decided c raw (no n) x = absurd (ground (arith, x))

        go : (o : Option (Cid × Bytes)) → node_block src k o ≡ inr b → src.cid_of b ≡ k
        go none x = absurd (ground (arith, x))
        go (some (c, raw)) x = decided c raw (src.dec c k) x

    -- What a read returns, if it is a block, has the CID that was asked for, and the cache stays named.
    abbrev Good : Cid → Viewed src → Type 0
    Good k r =
        (x : ViewError ⊎ Block) (d : Cache src)
        → r ≡ some (x, d)
        → IsNamed d × ((b : Block) → x ≡ inr b → src.cid_of b ≡ k)

    good :
        (k : Cid) (y : ViewError ⊎ Block) (d : Cache src)
        → IsNamed d
        → ((b : Block) → y ≡ inr b → src.cid_of b ≡ k)
        → Good k (some (y, d))
    good k y d h named x d' e =
        let cache_eq : d ≡ d' = ground (arith, e) in
        let value_eq : y ≡ x = ground (arith, e) in
        (subst IsNamed cache_eq h, λ b q. named b (value_eq ∙ q))

    skipped_read-Good :
        (k : Cid) (d : Cache src) (o : Option (Option Body))
        → IsNamed d
        → Good k (skipped_read src k d o)
    skipped_read-Good k d none h x d' e = absurd (ground (arith, e))
    skipped_read-Good k d (some none) h x d' e =
        good k (inl not_skipped) d h (λ b q. absurd (ground (arith, q))) x d' e
    skipped_read-Good k d (some (some body)) h x d' e =
        good k (do_block_read src body k) d h (do_block_read_named body k) x d' e

    car_read-Good :
        (k : Cid) (d : Cache src) (o : Option (List Block × Bool))
        → IsNamed d
        → Good k (some (car_read src k d o))
    car_read-Good k d none h x d' e =
        good k (inl bad_car) d h (λ b q. absurd (ground (arith, q))) x d' e
    car_read-Good k d (some (bs, false)) h x d' e =
        good k (inl bad_car) (cache_all src bs d) (cache_all-IsNamed bs d h)
          (λ b q. absurd (ground (arith, q))) x d' e
    car_read-Good k d (some (bs, true)) h x d' e =
        good k (in_cache src (get src.dec (cache_all src bs d) k)) (cache_all src bs d)
          (cache_all-IsNamed bs d h) (λ b q. cached b (get src.dec (cache_all src bs d) k) refl q) x
          d' e
      where
        cached :
            (b : Block) (o : Option Block)
            → get src.dec (cache_all src bs d) k ≡ o
            → in_cache src o ≡ inr b
            → src.cid_of b ≡ k
        cached b none q y = absurd (ground (arith, y))
        cached b (some b') q y =
            let same : b' ≡ b = ground (arith, y) in
            ap src.cid_of (sym same) ∙ cache_all-IsNamed bs d h k b' q

    of_object-Good :
        (n : ℕ) (k : Cid) (offset : ℕ) (d : Cache src) (o : Option (ℕ × Body))
        → IsNamed d
        → Good k (of_object src n k offset d o)
    of_object-Good n k offset d none h x d' e =
        good k (inl no_object) d h (λ b q. absurd (ground (arith, q))) x d' e
    of_object-Good n k offset d (some (size, body)) h x d' e =
        elim (Bool-cases (ltb (threshold src) size)) [
          | inl t ↦ skipped_read-Good k d (offset_bytes src n body offset) h x d' (rw t at e)
          | inr f ↦ car_read-Good k d (src.read_car body) h x d' (rw f at e)
        ]

    single_read_named :
        (k : Cid) (path : String) (offset : ℕ) (b : Block)
        → single_read src k path offset ≡ inr b
        → src.cid_of b ≡ k
    unfolding single_read
    single_read_named k path offset b e = go (src.read_file path (some offset)) e
      where
        go : (o : Option (ℕ × Body)) → of_range src k o ≡ inr b → src.cid_of b ≡ k
        go none x = absurd (ground (arith, x))
        go (some (size, body)) x = do_block_read_named body k b x

    -- If the cache of a view has each block under its CID, then a block that `Get` returns has the CID
    -- that was asked for, whichever way it was read, and the cache afterwards has each block under its
    -- CID again, also where the reading failed.
    pub view_get-IsNamed :
        (rounds actor : ℕ) (prefetch : Bool) (k : Cid) (d d' : Cache src) (x : ViewError ⊎ Block)
        → IsNamed d
        → view_get src rounds actor prefetch k d ≡ some (x, d')
        → IsNamed d' × ((b : Block) → x ≡ inr b → src.cid_of b ≡ k)
    unfolding view_get prefetch_read
    view_get-IsNamed rounds actor prefetch k d d' x h e = elim (Bool-cases (src.is_defined k)) [
      | inr f ↦ good k (inl undefined_cid) d h (λ b q. absurd (ground (arith, q))) x d' (rw f at e)
      | inl t ↦ cached (get src.dec d k) refl (rw t at e)
    ]
      where
        placed :
            (o : Option Place)
            → at_place src rounds actor prefetch k d o ≡ some (x, d')
            → IsNamed d' × ((b : Block) → x ≡ inr b → src.cid_of b ≡ k)
        placed none y = good k (inl lookup_failed) d h (λ b q. absurd (ground (arith, q))) x d' y
        placed (some p) y = elim (Bool-cases (str_eq p.path "")) [
          | inl t ↦ good k (inl no_block) d h (λ b q. absurd (ground (arith, q))) x d' (rw t at y)
          | inr f ↦ elim (Bool-cases (prefetch && (p.actor == actor))) [
            | inl t ↦
                of_object-Good rounds k p.offset d (src.read_file p.path none) h x d'
                  (rw (f, t) at y)
            | inr g ↦
                good k (single_read src k p.path p.offset) d h (single_read_named k p.path p.offset)
                  x d' (rw (f, g) at y)
          ]
        ]

        cached :
            (o : Option Block)
            → get src.dec d k ≡ o
            → from_cache src rounds actor prefetch k d o ≡ some (x, d')
            → IsNamed d' × ((b : Block) → x ≡ inr b → src.cid_of b ≡ k)
        cached none q y = placed (src.lookup k) y
        cached (some b) q y =
            good k (inr b) d h (λ b' s. ap src.cid_of (sym (ground (arith, s))) ∙ h k b q) x d' y

  skip_bytes_fails :
      ((b : Body) (m : ℕ) → (src.read b m).0 ≤ m)
      → (offset : ℕ) (after : Body) → 8192 < offset
      → (n : ℕ) (b : Body) → skip_bytes src n offset b ≢ some (some after)
  unfolding skip_bytes
  skip_bytes_fails reader offset after far zero b e = ground (arith, e)
  skip_bytes_fails reader offset after far (suc n) b e =
      let inside : ltb 0 offset ≡ true = ground arith in
      go (src.read b (min 8192 offset)) (reader b (min 8192 offset)) (rw inside at e)
        (skip_bytes_fails reader offset after far n)
    where
      go :
          (r : ℕ × ReadEnd × Body)
          → r.0 ≤ min 8192 offset
          → on_read src offset (λ (b' : Body). skip_bytes src n offset b') r ≡ some (some after)
          → ((b' : Body) → skip_bytes src n offset b' ≢ some (some after))
          → ⊥
      go (k, more, b') few x rest = rest b' x
      go (k, eof, b') few x rest =
          let short : k < offset = omega (arith, few, far) in
          let unlike : (k == offset) ≡ false = ground (arith, short) in
          let failed : some none ≡ some (some after) = rw unlike at x in ground (arith, failed)
      go (k, broken, b') few x rest = ground (arith, x)

  -- If no Read returns more than it was asked for, as io.Reader says, then offsetBytes on a body that
  -- cannot seek never succeeds with an offset beyond its buffer of 8192 bytes, after any number of
  -- rounds.
  pub offset_bytes-fails :
      ((b : Body) (m : ℕ) → (src.read b m).0 ≤ m)
      → (n : ℕ) (body : Body) (offset : ℕ) (after : Body) → src.is_seeker body ≡ false
      → 8192 < offset
      → offset_bytes src n body offset ≢ some (some after)
  unfolding offset_bytes
  offset_bytes-fails reader n body offset after no_seek far e =
      skip_bytes_fails reader offset after far n body (rw no_seek at e)
