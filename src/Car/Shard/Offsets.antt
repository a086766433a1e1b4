-- ===== src/Car/Shard/Offsets.antt =====
-- Every block reference points to its block: the bytes of the CAR file from the reference's offset on
-- begin with what was written for the block.
use referendum_services.Prelude.{
  ℕ, ◌+◌, List, [], ◌∷◌, ◌++◌, Option, some, ◌≡◌, refl, sym, ap, ◌∙◌, arith, length, drop,
  append-nil, append_assoc, length-append, drop-length-append, Option-cases, inl, inr, subst,
  mem-append_left, mem-append_right,
}
use referendum_services.Prelude.Dict.{Dict}
use referendum_services.Car.Shard.{
  Bytes, BlockRef, Written, ld_write, with_block, write_blocks, write_car_header, shard_file,
}
use mathlib.Core.List.Memᴰ.{Memᴰ, head, tail}

module _ {Cid Block : Type 0} (cid_bytes : Cid → Bytes) (raw : Block → Bytes)
    (dump_header : Cid → Option Bytes) where
  abbrev State : Type 0
  State = Written cid_bytes raw dump_header

  -- What LdWrite appends for a block.
  abbrev pub on_disk : Cid → Block → Option Bytes
  on_disk k b = ld_write (cid_bytes k ∷ raw b ∷ [])

  -- A reference of the list is for the CID, and the file has the block's bytes at its offset.
  abbrev pub Located : Cid → Block → State → Type 0
  Located k b s =
      (r : BlockRef Cid) × (w : Bytes) × (rest : Bytes) × Memᴰ r s.brefs
      × (r.cid ≡ k)
      × (on_disk k b ≡ some w)
      × (drop r.byte_offset s.buf ≡ w ++ rest)

  -- A later state of the loop: more bytes and references at the end.
  abbrev Extends : State → State → Type 0
  Extends s s' =
      (more : Bytes) × (refs : List (BlockRef Cid)) × (s'.buf ≡ s.buf ++ more)
      × (s'.brefs ≡ s.brefs ++ refs)
      × (s.offset ≡ length s.buf → s'.offset ≡ length s'.buf)

  with_block-offset :
      (actor : ℕ) (k : Cid) (s : State) (w : Bytes)
      → s.offset ≡ length s.buf
      → s.offset + length w ≡ length (s.buf ++ w)
  with_block-offset actor k s w e = omega (arith, e, length-append s.buf w)

  block_cases :
      (actor : ℕ) (k : Cid) (b : Block) (blks : Dict Cid Block) (s s' : State)
      → write_blocks cid_bytes raw dump_header actor ((k, b) ∷ blks) s ≡ some s'
      → (w : Bytes) × (on_disk k b ≡ some w)
        × (write_blocks cid_bytes raw dump_header actor blks
              (with_block cid_bytes raw dump_header actor k s w)
            ≡ some s')
  unfolding write_blocks
  block_cases actor k b blks s s' e = elim (Option-cases (on_disk k b)) [
    | inl q ↦ absurd (ground (arith, rw q at e))
    | inr (w, q) ↦ (w, q, rw q at e)
  ]

  write_blocks-Extends :
      (actor : ℕ) (blks : Dict Cid Block) (s s' : State)
      → write_blocks cid_bytes raw dump_header actor blks s ≡ some s'
      → Extends s s'
  unfolding write_blocks
  write_blocks-Extends actor [] s s' e =
      subst (λ x. Extends s x) (ground (arith, e))
        ([], [], sym (append-nil s.buf), sym (append-nil s.brefs), λ h. h)
  write_blocks-Extends actor ((k, b) ∷ blks) s s' e =
      let (w, q, e') = block_cases actor k b blks s s' e in
      let (more, refs, p, r, o) =
        write_blocks-Extends actor blks (with_block cid_bytes raw dump_header actor k s w) s' e' in
      (
        w ++ more,
        record { cid = k; shard = 0; byte_offset = s.offset; aid = actor } ∷ refs,
        p ∙ append_assoc s.buf w more,
        r ∙ append_assoc s.brefs _ refs,
        λ h. o (with_block-offset actor k s w h),
      )

  write_blocks-Located :
      (actor : ℕ) (blks : Dict Cid Block) (s s' : State)
      → s.offset ≡ length s.buf
      → write_blocks cid_bytes raw dump_header actor blks s ≡ some s'
      → (k : Cid) (b : Block) → Memᴰ (k, b) blks
      → Located k b s'
  write_blocks-Located actor [] s s' h e k b m = elim m [ ]
  write_blocks-Located actor ((j, c) ∷ blks) s s' h e k b m =
      let (w, q, e') = block_cases actor j c blks s s' e in
      at_block w q e'
        (write_blocks-Located actor blks (with_block cid_bytes raw dump_header actor j s w) s'
          (with_block-offset actor j s w h) e' k b)
        m
    where
      at_block :
          (w : Bytes)
          → on_disk j c ≡ some w
          → write_blocks cid_bytes raw dump_header actor blks
              (with_block cid_bytes raw dump_header actor j s w)
            ≡ some s'
          → (Memᴰ (k, b) blks → Located k b s')
          → Memᴰ (k, b) ((j, c) ∷ blks)
          → Located k b s'
      at_block w q e' next (tail m') = next m'
      at_block w q e' next (head p) =
          let (more, refs, p1, p2, o) =
            write_blocks-Extends actor blks (with_block cid_bytes raw dump_header actor j s w) s'
              e' in
          let r : BlockRef Cid = record {
            cid = j;
            shard = 0;
            byte_offset = s.offset;
            aid = actor;
          } in
          subst (λ x. Located x.0 x.1 s') (sym p)
            (
              r,
              w,
              more,
              subst (λ l. Memᴰ r l) (sym p2)
                  (mem-append_left r (s.brefs ++ r ∷ []) refs
                    (mem-append_right r s.brefs (r ∷ []) (head refl))),
              refl,
              q,
              ap (λ l. drop s.offset l) (p1 ∙ append_assoc s.buf w more)
                  ∙ ap (λ n. drop n (s.buf ++ (w ++ more))) h
                  ∙ drop-length-append s.buf (w ++ more),
            )

  abbrev pub cids : List (BlockRef Cid) → List Cid
  cids [] = []
  cids (r ∷ rs) = r.cid ∷ cids rs

  abbrev pub cids_of : Dict Cid Block → List Cid
  cids_of [] = []
  cids_of ((k, b) ∷ blks) = k ∷ cids_of blks

  cids-append :
      (rs : List (BlockRef Cid)) (r : BlockRef Cid) (ks : List Cid)
      → cids (rs ++ r ∷ []) ++ ks ≡ cids rs ++ r.cid ∷ ks
  cids-append [] r ks = refl
  cids-append (x ∷ rs) r ks = ap (λ l. x.cid ∷ l) (cids-append rs r ks)

  write_blocks-cids :
      (actor : ℕ) (blks : Dict Cid Block) (s s' : State)
      → write_blocks cid_bytes raw dump_header actor blks s ≡ some s'
      → cids s'.brefs ≡ cids s.brefs ++ cids_of blks
  unfolding write_blocks
  write_blocks-cids actor [] s s' e =
      let same : s ≡ s' = ground (arith, e) in
      subst (λ (x : State). cids x.brefs ≡ cids s.brefs ++ []) same
        (sym (append-nil (cids s.brefs)))
  write_blocks-cids actor ((k, b) ∷ blks) s s' e =
      let (w, q, e') = block_cases actor k b blks s s' e in
      write_blocks-cids actor blks (with_block cid_bytes raw dump_header actor k s w) s' e'
      ∙ cids-append s.brefs (record { cid = k; shard = 0; byte_offset = s.offset; aid = actor })
          (cids_of blks)

  -- If a CAR file is made for a root and blocks, it begins with the root's header, its length is the
  -- final offset, it has one reference for each block, in the order of the blocks, and for each block
  -- some reference is to its CID and has the offset at which the file holds what was written for it.
  pub shard_file-Located :
      (actor : ℕ) (root : Cid) (blks : Dict Cid Block) (f : Written cid_bytes raw dump_header)
      → shard_file cid_bytes raw dump_header actor root blks ≡ some f
      → ((h : Bytes) × (rest : Bytes) × (write_car_header cid_bytes raw dump_header root ≡ some h)
          × (f.buf ≡ h ++ rest))
        × (f.offset ≡ length f.buf)
        × (cids f.brefs ≡ cids_of blks)
        × ((k : Cid) (b : Block) → Memᴰ (k, b) blks → Located k b f)
  unfolding shard_file
  shard_file-Located actor root blks f e =
      elim (Option-cases (write_car_header cid_bytes raw dump_header root)) [
        | inl q ↦ absurd (ground (arith, rw q at e))
        | inr (h, q) ↦
            let s : State = record { buf = h; offset = length h; brefs = [] } in
            let e' : write_blocks cid_bytes raw dump_header actor blks s ≡ some f = rw q at e in
            let (more, refs, p, r, o) = write_blocks-Extends actor blks s f e' in
            (
              (h, more, q, p),
              o refl,
              write_blocks-cids actor blks s f e',
              write_blocks-Located actor blks s f refl e',
            )
      ]
