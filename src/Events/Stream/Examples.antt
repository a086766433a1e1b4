-- ===== src/Events/Stream/Examples.antt =====
-- Runs of the consumer: a decoder whose first byte picks the kind of message and whose second byte is
-- the sequence number, and a scheduler that records the keys it was given.
use referendum_services.Prelude.{
  ℕ, zero, suc, List, [], ◌∷◌, Option, none, some, true, false, String, ◌≡◌, refl, ◌↔◌,
}
use referendum_services.Prelude.Int.{pos, negsuc}
use referendum_services.Events.Event.{
  Bytes, Codec, EventHeader, Sequenced, StreamEvent, empty_event, deserialize, evt_kind_message,
  evt_kind_error_frame,
}
use referendum_services.Events.Stream.{
  decode_body, Job, Loop, read_error, binary, con_err, handle_repo_stream, round, read_loop,
  ping_loop, Tick, ping, cancelled, too_many_fails, context_ended,
}
use referendum_services.Events.Stream.Agree.{round-deserialize, Follows}
use referendum_services.Events.Stream.Order.{
  handle_repo_stream-order, ping_loop-FourInARow, FourInARow, pings, is_cancelled,
}

abbrev toy : Codec ℕ
toy = record {
  put_header = λ h. none;
  get_header = toy_header;
  put_payload = λ p. none;
  get_frame = λ b. none;
  get_sequenced = λ k b. toy_sequenced b;
  get_info = λ b. none;
  get_labels = λ b. none;
}
  where
    toy_header : Bytes → Option (EventHeader × Bytes)
    toy_header (suc zero ∷ b) = some (record { op = evt_kind_message; msg_type = "#commit" }, b)
    toy_header (suc (suc zero) ∷ b) = some (record { op = evt_kind_error_frame; msg_type = "" }, b)
    toy_header _ = none

    toy_sequenced : Bytes → Option (Sequenced ℕ × Bytes)
    toy_sequenced [] = none
    toy_sequenced (n ∷ b) = some (record { seq = pos n; did = "did:plc:a"; body = n }, b)

abbrev recording : String → StreamEvent ℕ → List String → Option String × List String
recording key e keys = (none, key ∷ keys)

abbrev start : Loop (List String)
start = record { work = []; last_seq = negsuc 0; out_of_order = [] }

abbrev job_of : ℕ → Job ℕ
job_of n = record {
  seq = some (pos n);
  repo = "did:plc:a";
  event = record empty_event {
    repo_commit = some (record { seq = pos n; did = "did:plc:a"; body = n });
  };
}

round-deserialize_example :
    Follows recording start
      (deserialize toy empty_event (1 ∷ 7 ∷ []))
      (round recording toy (binary (1 ∷ 7 ∷ [])) start)
round-deserialize_example = round-deserialize recording toy (1 ∷ 7 ∷ []) start

handle_repo_stream-order_example :
    handle_repo_stream recording toy (binary (1 ∷ 3 ∷ []) ∷ binary (1 ∷ 2 ∷ []) ∷ []) [] ≡ (
      record {
        work = "did:plc:a" ∷ "did:plc:a" ∷ [];
        last_seq = pos 2;
        out_of_order = (pos 2, pos 3) ∷ [];
      },
      none,
    )
unfolding decode_body
handle_repo_stream-order_example =
    handle_repo_stream-order recording toy (binary (1 ∷ 3 ∷ []) ∷ binary (1 ∷ 2 ∷ []) ∷ [])
      (job_of 3 ∷ job_of 2 ∷ []) [] (λ key e w. refl) ((_, _, refl, refl), ((_, _, refl, refl), tt))

abbrev after_three : Loop (List String)
after_three = record { work = "did:plc:a" ∷ []; last_seq = pos 3; out_of_order = [] }

stopped :
    read_loop recording toy (binary (1 ∷ 3 ∷ []) ∷ read_error ∷ []) start
    ≡ (after_three, some con_err)
unfolding read_loop round
stopped = refl

abbrev ticks : List Tick
ticks = ping true ∷ ping false ∷ cancelled ∷ []

ping_loop-FourInARow_example :
    ((ping_loop 0 ticks ≡ some too_many_fails) ↔ FourInARow (pings ticks))
    × ((ping_loop 0 ticks ≡ some context_ended)
        ↔ (¬ (FourInARow (pings ticks))) × (is_cancelled ticks ≡ true))
ping_loop-FourInARow_example = ping_loop-FourInARow ticks
