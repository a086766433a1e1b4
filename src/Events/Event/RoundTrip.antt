-- ===== src/Events/Event/RoundTrip.antt =====
-- What Serialize writes, Deserialize reads back. The library's encoders enter by their laws.
use referendum_services.Prelude.{
  List, [], ◌∷◌, ◌++◌, Option, none, some, ◌≡◌, refl, arith, append-nil, Option-cases, inl, inr,
  subst,
}
use referendum_services.Events.Event.{
  Bytes, ErrorFrame, EventHeader, Sequenced, StreamEvent, SeqKind, Payload, Codec, commit, sync,
  handle, identity, account, migrate, tombstone, frame, sequenced, info, labels, ok,
  evt_kind_error_frame, evt_kind_message, msg_type_of, empty_event, select_payload, write,
  serialize, read_body, of_payload, deserialize,
}

-- A decoder takes back what its encoder wrote and leaves what follows.
pub record IsCodec {B : Type 0} (c : Codec B) : Type 0 where
  pub header_back :
      (h : EventHeader) (b rest : Bytes)
      → c.put_header h ≡ some b
      → c.get_header (b ++ rest) ≡ some (h, rest)
  pub frame_back :
      (x : ErrorFrame) (b rest : Bytes)
      → c.put_payload (frame x) ≡ some b
      → c.get_frame (b ++ rest) ≡ some (x, rest)
  pub sequenced_back :
      (k : SeqKind) (x : Sequenced B) (b rest : Bytes)
      → c.put_payload (sequenced k x) ≡ some b
      → c.get_sequenced k (b ++ rest) ≡ some (x, rest)
  pub info_back :
      (x : B) (b rest : Bytes)
      → c.put_payload (info x) ≡ some b
      → c.get_info (b ++ rest) ≡ some (x, rest)

module _ {B : Type 0} where
  -- The header of a payload on the wire.
  abbrev pub header_of : Payload B → EventHeader
  header_of (frame x) = record { op = evt_kind_error_frame; msg_type = "" }
  header_of (sequenced k x) = record { op = evt_kind_message; msg_type = msg_type_of k }
  header_of (info x) = record { op = evt_kind_message; msg_type = "#info" }
  header_of (labels x) = record { op = evt_kind_message; msg_type = "#labels" }

  abbrev pub IsOnWire : Payload B → Type 0
  IsOnWire (labels x) = ⊥
  IsOnWire _ = Unit

  abbrev one : {A : Type 0} → (A → Payload B) → Option A → List (Payload B)
  one f none = []
  one f (some x) = f x ∷ []

  -- Everything that an event carries, in the order of Serialize, labels last.
  abbrev pub carried : StreamEvent B → List (Payload B)
  carried e =
      one frame e.error
      ++ one (sequenced commit) e.repo_commit
      ++ one (sequenced sync) e.repo_sync
      ++ one (sequenced handle) e.repo_handle
      ++ one (sequenced identity) e.repo_identity
      ++ one (sequenced account) e.repo_account
      ++ one info e.repo_info
      ++ one (sequenced migrate) e.repo_migrate
      ++ one (sequenced tombstone) e.repo_tombstone
      ++ one labels e.label_labels

  of_payload-carried : (p : Payload B) → carried (of_payload p empty_event) ≡ p ∷ []
  unfolding of_payload
  of_payload-carried (frame x) = refl
  of_payload-carried (info x) = refl
  of_payload-carried (labels x) = refl
  of_payload-carried (sequenced commit x) = refl
  of_payload-carried (sequenced sync x) = refl
  of_payload-carried (sequenced handle x) = refl
  of_payload-carried (sequenced identity x) = refl
  of_payload-carried (sequenced account x) = refl
  of_payload-carried (sequenced migrate x) = refl
  of_payload-carried (sequenced tombstone x) = refl

  abbrev pub head_of : List (Payload B) → Option (Payload B)
  head_of [] = none
  head_of (p ∷ ps) = some p

  select_payload-carried :
      (e : StreamEvent B) (h : EventHeader) (p : Payload B)
      → select_payload e ≡ some (h, p)
      → head_of (carried e) ≡ some p
  unfolding select_payload
  select_payload-carried e h p q = ground arith

  select_payload-header :
      (e : StreamEvent B) (h : EventHeader) (p : Payload B)
      → select_payload e ≡ some (h, p)
      → (h ≡ header_of p) × IsOnWire p
  unfolding select_payload
  select_payload-header e h p q = ground arith

  module _ (c : Codec B) (laws : IsCodec c) where
    sequenced_nil :
        (k : SeqKind) (x : Sequenced B) (b : Bytes)
        → c.put_payload (sequenced k x) ≡ some b
        → c.get_sequenced k b ≡ some (x, [])
    sequenced_nil k x b q = rw (append-nil b) at (laws.sequenced_back k x b [] q)

    frame_nil :
        (x : ErrorFrame) (b : Bytes)
        → c.put_payload (frame x) ≡ some b
        → c.get_frame b ≡ some (x, [])
    frame_nil x b q = rw (append-nil b) at (laws.frame_back x b [] q)

    info_nil : (x : B) (b : Bytes) → c.put_payload (info x) ≡ some b → c.get_info b ≡ some (x, [])
    info_nil x b q = rw (append-nil b) at (laws.info_back x b [] q)

    read_body-back :
        (p : Payload B) (b : Bytes)
        → IsOnWire p
        → c.put_payload p ≡ some b
        → read_body c (header_of p) b ≡ ok (some p)
    unfolding read_body
    read_body-back (frame x) b w q = rw (frame_nil x b q)
    read_body-back (info x) b w q = rw (info_nil x b q)
    read_body-back (labels x) b w q = absurd w
    read_body-back (sequenced commit x) b w q = rw (sequenced_nil commit x b q)
    read_body-back (sequenced sync x) b w q = rw (sequenced_nil sync x b q)
    read_body-back (sequenced handle x) b w q = rw (sequenced_nil handle x b q)
    read_body-back (sequenced identity x) b w q = rw (sequenced_nil identity x b q)
    read_body-back (sequenced account x) b w q = rw (sequenced_nil account x b q)
    read_body-back (sequenced migrate x) b w q = rw (sequenced_nil migrate x b q)
    read_body-back (sequenced tombstone x) b w q = rw (sequenced_nil tombstone x b q)

    write-parts :
        (hp : Option (EventHeader × Payload B)) (b : Bytes)
        → write c hp ≡ ok b
        → (h : EventHeader) × (p : Payload B) × (head : Bytes) × (body : Bytes) × (hp ≡ some (h, p))
          × (c.put_header h ≡ some head)
          × (c.put_payload p ≡ some body)
          × (b ≡ head ++ body)
    write-parts none b q = ground arith
    write-parts (some (h, p)) b q = elim (Option-cases (c.put_header h)) [
      | inl no_head ↦ ground arith
      | inr (head, has_head) ↦ elim (Option-cases (c.put_payload p)) [
        | inl no_body ↦ ground arith
        | inr (body, has_body) ↦ (h, p, head, body, refl, has_head, has_body, ground arith)
      ]
    ]

    -- If the encoders and decoders of the parts obey their laws, the bytes that an event serializes to are
    -- read back into an event that carries one payload and no other: the first one that the event
    -- carries, in the order of Serialize, which is never a labels message; and its header is the one
    -- of this payload's kind.
    pub serialize_roundtrip :
        (e : StreamEvent B) (b : Bytes)
        → serialize c e ≡ ok b
        → (p : Payload B) × (select_payload e ≡ some (header_of p, p))
          × IsOnWire p
          × (head_of (carried e) ≡ some p)
          × ((e' : StreamEvent B) × (deserialize c empty_event b ≡ ok e') × (carried e' ≡ p ∷ []))
    unfolding serialize deserialize
    serialize_roundtrip e b q =
        let (h, p, head, body, sel, ph, pp, eq) = write-parts (select_payload e) b q in
        let (hp, wire) = select_payload-header e h p sel in
        let back : deserialize c empty_event b ≡ ok (of_payload p empty_event) =
          rw (eq, laws.header_back h head body ph, hp, read_body-back p body wire pp) in
        (
          p,
          subst (λ (k : EventHeader). select_payload e ≡ some (k, p)) hp sel,
          wire,
          select_payload-carried e h p sel,
          (of_payload p empty_event, back, of_payload-carried p),
        )
