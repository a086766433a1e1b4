-- ===== src/Events/Stream/Agree.antt =====
-- The consumer's switch and Deserialize are two readers of one format: they agree.
use referendum_services.Prelude.{
  Option, none, some, ◌≡◌, refl, arith, Option-cases, Bool-cases, ◌⊎◌, subst, inl, inr, String,
}
use referendum_services.Prelude.Int.{ℤ, eq_ℤ}
use referendum_services.Events.Event.{
  evt_kind_message, evt_kind_error_frame, Bytes, EventHeader, StreamEvent, EventError, Result,
  Codec, ok, err, empty_event, header_failed, body_failed, unrecognized_kind, read_message,
  read_body, store, deserialize, of_payload, set_sequenced,
}
use referendum_services.Events.Stream.{
  Decoded, Loop, StreamError, job, skipped, undecodable, bad_header, bad_body, unrecognized_type,
  decode_message, decode_body, note_seq, worked, run_job, run_body, round, binary,
}

module _ {B : Type 0} where
  -- The event of a job; an empty one where the message was passed over.
  abbrev pub message_result : Decoded B → Result (StreamEvent B)
  message_result (job j) = ok j.event
  message_result skipped = ok empty_event
  message_result undecodable = err body_failed

  abbrev result_of : Option (Decoded B) → Result (StreamEvent B)
  result_of none = err unrecognized_kind
  result_of (some d) = message_result d

  decode_message-read_message :
      (c : Codec B) (t : String) (b : Bytes)
      → message_result (decode_message c t b) ≡ store empty_event (read_message c t b)
  unfolding decode_message read_message of_payload set_sequenced
  decode_message-read_message c t b = ground arith

  decode_body-read_body :
      (c : Codec B) (h : EventHeader) (b : Bytes)
      → result_of (decode_body c h b) ≡ store empty_event (read_body c h b)
  unfolding decode_body read_body of_payload
  decode_body-read_body c h b = elim (Bool-cases (eq_ℤ h.op evt_kind_message)) [
    | inl e ↦ rw e (decode_message-read_message c h.msg_type b)
    | inr e ↦ elim (Bool-cases (eq_ℤ h.op evt_kind_error_frame)) [
      | inl f ↦ elim (Option-cases (c.get_frame b)) [
        | inl g ↦ rw (e, f, g) refl
        | inr (x, g) ↦ rw (e, f, g) refl
      ]
      | inr f ↦ rw (e, f) refl
    ]
  ]

  module _ {W X : Type 0} (add_work : String → StreamEvent B → W → Option X × W) where
    abbrev pub error_of : EventError → StreamError X
    error_of header_failed = bad_header
    error_of body_failed = bad_body
    error_of unrecognized_kind = unrecognized_type

    -- A round that follows the result of Deserialize.
    abbrev pub Follows : Loop W → Result (StreamEvent B) → Loop W × Option (StreamError X) → Type 0
    Follows l (err x) r = r ≡ (l, some (error_of x))
    Follows l (ok e) r =
        ((e ≡ empty_event) × (r ≡ (l, none)))
        ⊎ ((key : String) × (n : Option ℤ) × (r
              ≡ worked add_work (note_seq n l) (add_work key e (note_seq n l).work)))

    run_body-Follows :
        (d : Option (Decoded B)) (l : Loop W) → Follows l (result_of d) (run_body add_work d l)
    unfolding run_job
    run_body-Follows none l = refl
    run_body-Follows (some undecodable) l = refl
    run_body-Follows (some skipped) l = inl (refl, refl)
    run_body-Follows (some (job j)) l = inr (j.repo, j.seq, refl)

    -- One round of the consumer on a binary message does what Deserialize says of its bytes.
    pub round-deserialize :
        (c : Codec B) (b : Bytes) (l : Loop W)
        → Follows l (deserialize c empty_event b) (round add_work c (binary b) l)
    unfolding round deserialize
    round-deserialize c b l = elim (Option-cases (c.get_header b)) [
      | inl e ↦ rw e refl
      | inr ((h, rest), e) ↦ rw e (
          subst (λ r. Follows l r (run_body add_work (decode_body c h rest) l))
            (decode_body-read_body c h rest) (run_body-Follows (decode_body c h rest) l))
    ]
