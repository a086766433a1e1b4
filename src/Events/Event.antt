-- ===== src/Events/Event.antt =====
-- internal/events/events.go: the event type, its sequence number, and its wire format. The payloads
-- are structs of a library (indigo): `B` stands for what the code never reads of them, and `did` is
-- `Repo` in a commit and `Did` in the other messages. A pointer that may be nil is an `Option`. The
-- CBOR encoders and decoders of header and payloads are generated or the library's: a `Codec`.
pub mod RoundTrip
pub mod Order
mod Examples
use referendum_services.Prelude.{
  ℕ, String, List, [], ◌∷◌, ◌++◌, Option, none, some, Bool, true, false, str_eq, if◌then◌else◌, ◌≡◌,
}
use referendum_services.Prelude.Int.{ℤ, pos, negsuc, eq_ℤ}

pub record Sequenced (B : Type 0) : Type 0 where
  pub seq : ℤ
  pub did : String
  pub body : B

pub record Labels (B : Type 0) : Type 0 where
  pub seq : ℤ
  pub body : B

pub record ErrorFrame : Type 0 where
  pub error : String
  pub message : String

pub record EventHeader : Type 0 where
  pub op : ℤ
  pub msg_type : String

abbrev pub Bytes : Type 0
Bytes = List ℕ

-- `XRPCStreamEvent`.
pub record StreamEvent (B : Type 0) : Type 0 where
  pub error : Option ErrorFrame
  pub repo_commit : Option (Sequenced B)
  pub repo_sync : Option (Sequenced B)
  pub repo_handle : Option (Sequenced B)
  pub repo_identity : Option (Sequenced B)
  pub repo_info : Option B
  pub repo_migrate : Option (Sequenced B)
  pub repo_tombstone : Option (Sequenced B)
  pub repo_account : Option (Sequenced B)
  pub label_labels : Option (Labels B)
  pub label_info : Option B
  pub priv_uid : ℕ
  pub priv_pds_id : ℕ
  pub priv_relevant_pds : List ℕ
  pub preserialized : Option Bytes

abbrev pub empty_event : {B : Type 0} → StreamEvent B
empty_event = record {
  error = none;
  repo_commit = none;
  repo_sync = none;
  repo_handle = none;
  repo_identity = none;
  repo_info = none;
  repo_migrate = none;
  repo_tombstone = none;
  repo_account = none;
  label_labels = none;
  label_info = none;
  priv_uid = 0;
  priv_pds_id = 0;
  priv_relevant_pds = [];
  preserialized = none;
}

-- `EvtKindErrorFrame` and `EvtKindMessage`.
abbrev pub evt_kind_error_frame : ℤ
evt_kind_error_frame = negsuc 0

abbrev pub evt_kind_message : ℤ
evt_kind_message = pos 1

-- The messages that carry a sequence number and a DID.
pub data SeqKind : Type 0 where
  commit sync handle identity account migrate tombstone : SeqKind

-- The `MsgType` constants.
abbrev pub msg_type_of : SeqKind → String
msg_type_of commit = "#commit"
msg_type_of sync = "#sync"
msg_type_of handle = "#handle"
msg_type_of identity = "#identity"
msg_type_of account = "#account"
msg_type_of migrate = "#migrate"
msg_type_of tombstone = "#tombstone"

-- What an event carries.
pub data Payload (B : Type 0) : Type 0 where
  frame : ErrorFrame → Payload B
  sequenced : SeqKind → Sequenced B → Payload B
  info : B → Payload B
  labels : Labels B → Payload B

-- `MarshalCBOR` and `UnmarshalCBOR`; `none` is an error. A decoder leaves what it did not read.
pub record Codec (B : Type 0) : Type 0 where
  pub put_header : EventHeader → Option Bytes
  pub get_header : Bytes → Option (EventHeader × Bytes)
  pub put_payload : Payload B → Option Bytes
  pub get_frame : Bytes → Option (ErrorFrame × Bytes)
  pub get_sequenced : SeqKind → Bytes → Option (Sequenced B × Bytes)
  pub get_info : Bytes → Option (B × Bytes)
  pub get_labels : Bytes → Option (Labels B × Bytes)

pub data EventError : Type 0 where
  unrecognized_kind header_failed body_failed : EventError

pub data Result {ℓ} (A : Type ℓ) : Type ℓ where
  ok : A → Result A
  err : EventError → Result A

abbrev write_body : Option Bytes → Bytes → Result Bytes
write_body none head = err body_failed
write_body (some body) head = ok (head ++ body)

abbrev write_header : Option Bytes → Option Bytes → Result Bytes
write_header none body = err header_failed
write_header (some head) body = write_body body head

module _ {B : Type 0} where
  -- The two operands of Serialize's switch: the first payload that is present, in this order.
  unfoldable pub select_payload : StreamEvent B → Option (EventHeader × Payload B)
  select_payload e = elim e.error [
    | some x ↦ some (record { op = evt_kind_error_frame; msg_type = "" }, frame x)
    | none ↦ elim e.repo_commit [
      | some x ↦ some (record { op = evt_kind_message; msg_type = "#commit" }, sequenced commit x)
      | none ↦ elim e.repo_sync [
        | some x ↦ some (record { op = evt_kind_message; msg_type = "#sync" }, sequenced sync x)
        | none ↦ elim e.repo_handle [
          | some x ↦
              some (record { op = evt_kind_message; msg_type = "#handle" }, sequenced handle x)
          | none ↦ elim e.repo_identity [
            | some x ↦
                some
                  (record { op = evt_kind_message; msg_type = "#identity" }, sequenced identity x)
            | none ↦ elim e.repo_account [
              | some x ↦
                  some
                    (record { op = evt_kind_message; msg_type = "#account" }, sequenced account x)
              | none ↦ elim e.repo_info [
                | some x ↦ some (record { op = evt_kind_message; msg_type = "#info" }, info x)
                | none ↦ elim e.repo_migrate [
                  | some x ↦
                      some (
                        record { op = evt_kind_message; msg_type = "#migrate" },
                        sequenced migrate x,
                      )
                  | none ↦ elim e.repo_tombstone [
                    | some x ↦ some (
                      record { op = evt_kind_message; msg_type = "#tombstone" },
                      sequenced tombstone x,
                    )
                    | none ↦ none
                  ]
                ]
              ]
            ]
          ]
        ]
      ]
    ]
  ]

  abbrev write : Codec B → Option (EventHeader × Payload B) → Result Bytes
  write c none = err unrecognized_kind
  write c (some (h, p)) = write_header (c.put_header h) (c.put_payload p)

  unfoldable pub serialize : Codec B → StreamEvent B → Result Bytes
  unfolding select_payload
  serialize c e = write c (select_payload e)

  abbrev keep_bytes : StreamEvent B → Result Bytes → Result (StreamEvent B)
  keep_bytes e (ok bytes) = ok (record e { preserialized = some bytes })
  keep_bytes e (err x) = err x

  unfoldable pub preserialize : Codec B → StreamEvent B → Result (StreamEvent B)
  preserialize c e = elim e.preserialized [
    | some bytes ↦ ok e
    | none ↦ keep_bytes e (serialize c e)
  ]

  -- `xevt.RepoCommit = &evt` and its siblings.
  unfoldable pub set_sequenced : SeqKind → Sequenced B → StreamEvent B → StreamEvent B
  set_sequenced commit x e = record e { repo_commit = some x }
  set_sequenced sync x e = record e { repo_sync = some x }
  set_sequenced handle x e = record e { repo_handle = some x }
  set_sequenced identity x e = record e { repo_identity = some x }
  set_sequenced account x e = record e { repo_account = some x }
  set_sequenced migrate x e = record e { repo_migrate = some x }
  set_sequenced tombstone x e = record e { repo_tombstone = some x }

  unfoldable pub of_payload : Payload B → StreamEvent B → StreamEvent B
  unfolding set_sequenced
  of_payload (frame x) e = record e { error = some x }
  of_payload (sequenced k x) e = set_sequenced k x e
  of_payload (info x) e = record e { repo_info = some x }
  of_payload (labels x) e = record e { label_labels = some x }

  abbrev map_payload :
      {A : Type 0} → (A → Payload B) → Option (A × Bytes) → Result (Option (Payload B))
  map_payload f none = err body_failed
  map_payload f (some (x, rest)) = ok (some (f x))

  -- The inner switch of `Deserialize`; a message type that it does not list is passed over.
  unfoldable pub read_message : Codec B → String → Bytes → Result (Option (Payload B))
  read_message c t bytes =
      if str_eq t "#commit"
      then map_payload (sequenced commit) (c.get_sequenced commit bytes)
      else if str_eq t "#sync"
      then map_payload (sequenced sync) (c.get_sequenced sync bytes)
      else if str_eq t "#handle"
      then map_payload (sequenced handle) (c.get_sequenced handle bytes)
      else if str_eq t "#identity"
      then map_payload (sequenced identity) (c.get_sequenced identity bytes)
      else if str_eq t "#account"
      then map_payload (sequenced account) (c.get_sequenced account bytes)
      else if str_eq t "#info"
      then map_payload info (c.get_info bytes)
      else if str_eq t "#migrate"
      then map_payload (sequenced migrate) (c.get_sequenced migrate bytes)
      else if str_eq t "#tombstone"
      then map_payload (sequenced tombstone) (c.get_sequenced tombstone bytes)
      else if str_eq t "#labels"
      then map_payload labels (c.get_labels bytes)
      else ok none

  -- The outer switch: messages and error frames.
  unfoldable pub read_body : Codec B → EventHeader → Bytes → Result (Option (Payload B))
  unfolding read_message
  read_body c h bytes =
      if eq_ℤ h.op evt_kind_message
      then read_message c h.msg_type bytes
      else if eq_ℤ h.op evt_kind_error_frame
      then map_payload frame (c.get_frame bytes)
      else err unrecognized_kind

  abbrev pub store : StreamEvent B → Result (Option (Payload B)) → Result (StreamEvent B)
  store e (ok (some p)) = ok (of_payload p e)
  store e (ok none) = ok e
  store e (err x) = err x

  abbrev read : Codec B → StreamEvent B → Option (EventHeader × Bytes) → Result (StreamEvent B)
  read c e none = err header_failed
  read c e (some (h, bytes)) = store e (read_body c h bytes)

  unfoldable pub deserialize : Codec B → StreamEvent B → Bytes → Result (StreamEvent B)
  unfolding read_body of_payload
  deserialize c e bytes = read c e (c.get_header bytes)

  abbrev seq_of : Option (Sequenced B) → (ℤ × Bool) → ℤ × Bool
  seq_of (some x) rest = (x.seq, true)
  seq_of none rest = rest

  -- `GetSequence`. The cases RepoInfo, Error and default return the same.
  unfoldable pub get_sequence : Option (StreamEvent B) → ℤ × Bool
  get_sequence none = (negsuc 0, false)
  get_sequence (some e) = seq_of e.repo_commit (
      seq_of e.repo_sync (
        seq_of e.repo_handle (
          seq_of e.repo_migrate (
            seq_of e.repo_tombstone
              (seq_of e.repo_identity (seq_of e.repo_account (negsuc 0, false)))))))

  abbrev seq_or : Option (Sequenced B) → ℤ → ℤ
  seq_or (some x) rest = x.seq
  seq_or none rest = rest

  -- `Sequence`.
  unfoldable pub sequence : Option (StreamEvent B) → ℤ
  sequence none = negsuc 0
  sequence (some e) = seq_or e.repo_commit (
      seq_or e.repo_sync (
        seq_or e.repo_handle (
          seq_or e.repo_migrate
            (seq_or e.repo_tombstone (seq_or e.repo_identity (seq_or e.repo_account (negsuc 0)))))))
