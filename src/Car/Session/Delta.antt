-- ===== src/Car/Session/Delta.antt =====
-- A delta session as a layer over its base: what Get returns after a series of writes.
use referendum_services.Prelude.{
  List, [], ◌∷◌, none, some, ◌≡◌, refl, ap, ◌∙◌, arith, ◌⊎◌, inl, inr, ite, Bool-cases, Sum-cases,
  is_some,
}
use referendum_services.Prelude.Dict.{get, put, del, get-put, get-del}
use referendum_services.Car.Session.{
  StoreError, DeltaSession, put_block, delete_block, get_block, own_or,
}

module _ {Cid Block : Type 0} (dec : Discrete Cid) (cid_of : Block → Cid) where
  pub data Write : Type 0 where
    put_one : Block → Write
    delete_one : Cid → Write

  abbrev pub write_one : Write → DeltaSession Cid Block → StoreError ⊎ DeltaSession Cid Block
  write_one (put_one b) ds = put_block dec cid_of b ds
  write_one (delete_one c) ds = delete_block dec c ds

  abbrev pub then_all :
      (DeltaSession Cid Block → StoreError ⊎ DeltaSession Cid Block)
      → StoreError ⊎ DeltaSession Cid Block
      → StoreError ⊎ DeltaSession Cid Block
  then_all next (inl e) = inl e
  then_all next (inr ds) = next ds

  abbrev pub write_all : List Write → DeltaSession Cid Block → StoreError ⊎ DeltaSession Cid Block
  write_all [] ds = inr ds
  write_all (w ∷ ws) ds = then_all (write_all ws) (write_one w ds)

  module _ (base : Cid → StoreError ⊎ Block) where
    -- What a write makes of the block that is read under a CID.
    abbrev pub seen_after : Cid → Write → StoreError ⊎ Block → StoreError ⊎ Block
    seen_after c (put_one b) v = ite (dec (cid_of b) c) (inr b) v
    seen_after c (delete_one k) v = ite (dec k c) (base c) v

    abbrev pub seen_after_all : Cid → List Write → StoreError ⊎ Block → StoreError ⊎ Block
    seen_after_all c [] v = v
    seen_after_all c (w ∷ ws) v = seen_after_all c ws (seen_after c w v)

    write_one-get_block :
        (w : Write) (ds ds' : DeltaSession Cid Block) (c : Cid)
        → write_one w ds ≡ inr ds'
        → get_block dec base c ds' ≡ seen_after c w (get_block dec base c ds)
    unfolding put_block delete_block get_block
    write_one-get_block (put_one b) ds ds' c e = elim (Bool-cases ds.readonly) [
      | inl q ↦ absurd (ground (arith, rw q at e))
      | inr q ↦
          let same : ds' ≡ record ds { blks = put dec ds.blks (cid_of b) b } =
            ground (arith, rw q at e) in
          ap (λ x. get_block dec base c x) same
          ∙ ap (λ o. own_or dec o (λ x. inr x) (base c)) (get-put dec ds.blks (cid_of b) c b)
          ∙ put_seen (dec (cid_of b) c)
    ]
      where
        put_seen :
            (d : Dec (cid_of b ≡ c))
            → own_or dec (ite d (some b) (get dec ds.blks c)) (λ x. inr x) (base c)
              ≡ ite d (inr b) (own_or dec (get dec ds.blks c) (λ x. inr x) (base c))
        put_seen (yes p) = refl
        put_seen (no p) = refl
    write_one-get_block (delete_one k) ds ds' c e = elim (Bool-cases ds.readonly) [
      | inl q ↦ absurd (ground (arith, rw q at e))
      | inr q ↦ elim (Bool-cases (is_some (get dec ds.blks k))) [
        | inr f ↦ absurd (ground (arith, rw (q, f) at e))
        | inl t ↦
            let same : ds' ≡ record ds { blks = del dec ds.blks k } =
              ground (arith, rw (q, t) at e) in
            ap (λ x. get_block dec base c x) same
            ∙ ap (λ o. own_or dec o (λ x. inr x) (base c)) (get-del dec ds.blks k c)
            ∙ delete_seen (dec k c)
      ]
    ]
      where
        delete_seen :
            (d : Dec (k ≡ c))
            → own_or dec (ite d none (get dec ds.blks c)) (λ x. inr x) (base c)
              ≡ ite d (base c) (own_or dec (get dec ds.blks c) (λ x. inr x) (base c))
        delete_seen (yes p) = refl
        delete_seen (no p) = refl

    -- If a series of puts and deletes on a session succeeds, Get returns what the series, read in order,
    -- leaves under the CID: the block that was put last, or the base's answer after a delete, or what
    -- Get returned before the series.
    pub write_all-get_block :
        (ws : List Write) (ds ds' : DeltaSession Cid Block) (c : Cid)
        → write_all ws ds ≡ inr ds'
        → get_block dec base c ds' ≡ seen_after_all c ws (get_block dec base c ds)
    write_all-get_block [] ds ds' c e = ap (λ x. get_block dec base c x) (ground (arith, e))
    write_all-get_block (w ∷ ws) ds ds' c e = elim (Sum-cases (write_one w ds)) [
      | inl (err, q) ↦ absurd (ground (arith, rw q at e))
      | inr (mid, q) ↦
          write_all-get_block ws mid ds' c (rw q at e)
          ∙ ap (seen_after_all c ws) (write_one-get_block w ds mid c q)
    ]
