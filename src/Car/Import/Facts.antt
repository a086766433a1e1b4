-- ===== src/Car/Import/Facts.antt =====
-- What ImportSlice puts into the session, and what CalcDiff never drops.
use referendum_services.Prelude.{
  ℕ, String, List, [], ◌∷◌, Option, none, some, Bool, true, false, ◌⊎◌, inl, inr, ◌≡◌, refl, ap,
  ◌∙◌, subst, arith, Bool-cases, if◌then◌else◌,
}
use referendum_services.Prelude.Dict.{Dict, get, put}
use referendum_services.Car.Shard.{Bytes}
use referendum_services.Car.Session.{
  StoreError, read_only, DeltaSession, Store, Backend, put_block, put_many, put_all, get_block,
  new_delta_session,
}
use referendum_services.Car.Diff.{DiffError, marked, keys, block_diff}
use referendum_services.Car.Diff.Reach.{Reaches, root_itself, link, is_new}
use referendum_services.Car.Diff.Outcome.{block_diff-Reaches}
use referendum_services.Car.Import.{
  CarFile, put_blocks, put_rest, rooted, import_on, import_car, import_slice, calc_diff, found,
  with_rmcids,
}
use mathlib.Core.List.Memᴰ.{Memᴰ, head, tail}

module _ {Cid Block : Type 0} (dec : Discrete Cid) where
  module _ (cid_of : Block → Cid) where
    put_block-open :
        (b : Block) (ds : DeltaSession Cid Block)
        → ds.readonly ≡ false
        → put_block dec cid_of b ds ≡ inr (record ds { blks = put dec ds.blks (cid_of b) b })
    unfolding put_block
    put_block-open b ds w =
        ap
          (λ (t : Bool).
            if t then inl read_only else inr (record ds { blks = put dec ds.blks (cid_of b) b }))
          w

    put_blocks-all :
        (bs : List Block) (ds : DeltaSession Cid Block)
        → ds.readonly ≡ false
        → put_blocks dec cid_of bs true ds
          ≡ inr (record ds { blks = put_all dec cid_of bs ds.blks })
    unfolding put_blocks
    put_blocks-all [] ds w = refl
    put_blocks-all (b ∷ bs) ds w =
        ap (put_rest dec cid_of (put_blocks dec cid_of bs true)) (put_block-open b ds w)
        ∙ put_blocks-all bs (record ds { blks = put dec ds.blks (cid_of b) b }) w

    module _ {S : Type 0} (back : Backend Cid S) (aid_dec : Discrete ℕ) where
      -- If a slice is a CAR file with one root that is read to its end, and a new session that can be
      -- written is opened for the actor, ImportSlice returns the root and the session that PutMany makes
      -- of the file's blocks.
      pub import_slice-put_many :
          (read_car : Bytes → Option (CarFile Cid Block)) (aid : ℕ) (since : Option String)
          (slice : Bytes) (root : Cid) (blocks : List Block) (st st' : Store Cid S)
          (ds : DeltaSession Cid Block)
          → read_car slice ≡ some (record { roots = root ∷ []; blocks = blocks; at_eof = true })
          → new_delta_session back aid_dec aid since st ≡ (inr ds, st')
          → ds.readonly ≡ false
          → (ds' : DeltaSession Cid Block) × (put_many dec cid_of blocks ds ≡ inr ds')
            × (import_slice dec cid_of back aid_dec read_car aid since slice st
                ≡ (inr (root, ds'), st'))
      unfolding import_slice put_many
      import_slice-put_many read_car aid since slice root blocks st st' ds e o w = (
        record ds { blks = put_all dec cid_of blocks ds.blks },
        ap
            (λ (t : Bool).
              if t
              then inl read_only
              else inr (record ds { blks = put_all dec cid_of blocks ds.blks }))
            w,
        ap (λ c. import_car dec cid_of back aid_dec aid since c st) e
            ∙ ap
                (import_on dec cid_of back aid_dec root
                  (record { roots = root ∷ []; blocks = blocks; at_eof = true }))
                o
            ∙ ap (λ x. (rooted dec cid_of root x, st')) (put_blocks-all blocks ds w),
      )

  module _ (base : Cid → StoreError ⊎ Block) (scan : Block → Option (List Cid))
      (is_cbor is_defined : Cid → Bool) where
    key-mem :
        (bs : Cid → Option Block) (blks : Dict Cid Block) (k : Cid) (b : Block)
        → Memᴰ (k, b) blks
        → Memᴰ k (keys dec bs scan blks)
    key-mem bs [] k b m = elim m [ ]
    key-mem bs ((j, c) ∷ blks) k b (head p) = head (ap (λ x. x.0) p)
    key-mem bs ((j, c) ∷ blks) k b (tail m) = tail (key-mem bs blks k b m)

    -- If CalcDiff succeeds on a session, it changes nothing but the dropped CIDs, and it drops no block
    -- that the session has itself.
    pub calc_diff-keeps :
        (n : ℕ) (ds ds' : DeltaSession Cid Block)
        → calc_diff dec base scan is_cbor is_defined n ds ≡ some (inr ds')
        → (ds' ≡ record ds { rmcids = ds'.rmcids })
          × ((k : Cid) (b : Block) → Memᴰ (k, b) ds.blks → marked dec ds'.rmcids k ≡ false)
    unfolding calc_diff marked get block_diff
    calc_diff-keeps n ds ds' e =
        each (block_diff dec bs scan is_cbor is_defined n ds.base_cid ds.blks) refl e
      where
        bs : Cid → Option Block
        bs c = found dec base scan is_cbor is_defined (get_block dec base c ds)

        no_root : {rm : Dict Cid Bool} → rm ≡ [] → (k : Cid) → marked dec rm k ≡ false
        no_root p k = rw p refl

        not_reached :
            (keep : Dict Cid Bool)
            → marked dec keep ds.base_cid ≡ false
            → (k : Cid) → marked dec keep k ≡ true
            → Reaches dec bs scan is_cbor keep ds.base_cid k
            → ⊥
        not_reached keep root_out k i root_itself = ground (arith, root_out, i)
        not_reached keep root_out k i (link c l ls r p q x y) = ground (arith, y, i)

        undropped :
            (rm : Dict Cid Bool)
            → block_diff dec bs scan is_cbor is_defined n ds.base_cid ds.blks ≡ some (inr rm)
            → (k : Cid) (b : Block) → Memᴰ (k, b) ds.blks
            → marked dec rm k ≡ false
        undropped rm q k b m = elim (Bool-cases (is_defined ds.base_cid)) [
          | inr f ↦ no_root (ground (arith, rw f at q)) k
          | inl d ↦
              let (keep, kept, root_out, reach) =
                block_diff-Reaches dec bs scan is_cbor is_defined n ds.base_cid ds.blks rm d q in
              let in_keep : marked dec keep k ≡ true =
                (kept k).1 (is_new (key-mem bs ds.blks k b m)) in
              elim (Bool-cases (marked dec rm k)) [
                | inr f ↦ f
                | inl t ↦ absurd (not_reached keep root_out k in_keep ((reach k).0 t))
              ]
        ]

        each :
            (r : Option (DiffError ⊎ Dict Cid Bool))
            → block_diff dec bs scan is_cbor is_defined n ds.base_cid ds.blks ≡ r
            → with_rmcids dec base scan is_cbor is_defined ds r ≡ some (inr ds')
            → (ds' ≡ record ds { rmcids = ds'.rmcids })
              × ((k : Cid) (b : Block) → Memᴰ (k, b) ds.blks → marked dec ds'.rmcids k ≡ false)
        each none q r = absurd (ground (arith, r))
        each (some (inl x)) q r = absurd (ground (arith, r))
        each (some (inr rm)) q r =
            let same : record ds { rmcids = rm } ≡ ds' = ground (arith, r) in
            subst
              (λ (d : DeltaSession Cid Block).
                (d ≡ record ds { rmcids = d.rmcids })
                × ((k : Cid) (b : Block) → Memᴰ (k, b) ds.blks → marked dec d.rmcids k ≡ false))
              same (refl, undropped rm q)
