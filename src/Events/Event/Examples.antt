-- ===== src/Events/Event/Examples.antt =====
-- Runs of the event type: a codec over which the wire format can be tried.
use referendum_services.Prelude.{
  ℕ, [], ◌∷◌, ◌++◌, Option, none, some, ◌≡◌, refl, str_eq, eq_iff, arith, ◌&&◌, if◌then◌else◌,
}
use referendum_services.Prelude.Int.{pos, negsuc, eq_ℤ}
use referendum_services.Events.Event.{
  StreamEvent, Sequenced, Payload, Codec, EventHeader, SeqKind, Bytes, commit, sequenced, ok,
  empty_event, evt_kind_message, select_payload, serialize, deserialize,
}
use referendum_services.Events.Event.RoundTrip.{
  IsCodec, carried, head_of, header_of, IsOnWire, serialize_roundtrip,
}

abbrev a_commit : Sequenced ℕ
a_commit = record { seq = pos 4; did = "did:plc:a"; body = 9 }

abbrev a_event : StreamEvent ℕ
a_event = record empty_event { repo_commit = some a_commit }

-- A codec that writes the commits of one actor and fails on all else.
put_small : Sequenced ℕ → Option Bytes
put_small x = elim x.seq [
  | pos n ↦ if str_eq x.did "did:plc:a" then some (n ∷ x.body ∷ []) else none
  | negsuc n ↦ none
]

get_small : Bytes → Option (Sequenced ℕ × Bytes)
get_small (n ∷ b ∷ rest) = some (record { seq = pos n; did = "did:plc:a"; body = b }, rest)
get_small _ = none

put_tag : EventHeader → Option Bytes
put_tag h =
    if eq_ℤ h.op evt_kind_message && str_eq h.msg_type "#commit" then some (1 ∷ []) else none

get_tag : Bytes → Option (EventHeader × Bytes)
get_tag [] = none
get_tag (t ∷ rest) = some (record { op = evt_kind_message; msg_type = "#commit" }, rest)

put_part : Payload ℕ → Option Bytes
unfolding put_small
put_part (sequenced commit x) = put_small x
put_part _ = none

abbrev small : Codec ℕ
small = record {
  put_header = put_tag;
  get_header = get_tag;
  put_payload = put_part;
  get_frame = λ b. none;
  get_sequenced = λ k b. get_small b;
  get_info = λ b. none;
  get_labels = λ b. none;
}

tag_back :
    (h : EventHeader) (b rest : Bytes) → put_tag h ≡ some b → get_tag (b ++ rest) ≡ some (h, rest)
unfolding put_tag get_tag
tag_back h b rest q = ground (arith, eq_iff h.msg_type "#commit")

small_back :
    (x : Sequenced ℕ) (b rest : Bytes)
    → put_small x ≡ some b
    → get_small (b ++ rest) ≡ some (x, rest)
unfolding put_small get_small
small_back x b rest q = ground (arith, eq_iff x.did "did:plc:a")

part_back :
    (k : SeqKind) (x : Sequenced ℕ) (b rest : Bytes)
    → put_part (sequenced k x) ≡ some b
    → get_small (b ++ rest) ≡ some (x, rest)
unfolding put_part
part_back commit x b rest q = small_back x b rest q
part_back _ x b rest q = absurd (cc)

small-IsCodec : IsCodec small
unfolding put_part
small-IsCodec = record {
  header_back = tag_back;
  frame_back = λ x b rest q. absurd (cc);
  sequenced_back = part_back;
  info_back = λ x b rest q. absurd (cc);
}

small_runs : serialize small a_event ≡ ok (1 ∷ 4 ∷ 9 ∷ [])
unfolding serialize put_tag put_part
small_runs = refl

serialize_roundtrip_example :
    (p : Payload ℕ) × (select_payload a_event ≡ some (header_of p, p))
    × IsOnWire p
    × (head_of (carried a_event) ≡ some p)
    × ((e' : StreamEvent ℕ) × (deserialize small empty_event (1 ∷ 4 ∷ 9 ∷ []) ≡ ok e')
        × (carried e' ≡ p ∷ []))
serialize_roundtrip_example =
    serialize_roundtrip small small-IsCodec a_event (1 ∷ 4 ∷ 9 ∷ []) small_runs
