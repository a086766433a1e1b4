-- ===== src/Events/Stream.antt =====
-- internal/events/consumer.go: the consumer of another server's event stream. The connection is the
-- list of what the rounds of the loop find; the scheduler is a function over a state of its own. `Unmarshal` of header and payloads is
-- the Codec of the event type.
pub mod Agree
pub mod Order
mod Examples
use referendum_services.Prelude.{
  ℕ, zero, suc, ◌+◌, List, [], ◌∷◌, ◌++◌, Option, none, some, Bool, true, false, String, ◌&&◌, ◌||◌,
  leb, str_eq, if◌then◌else◌,
}
use referendum_services.Prelude.Int.{ℤ, pos, negsuc, ltb_ℤ, eq_ℤ}
use referendum_services.Events.Event.{
  Bytes, ErrorFrame, EventHeader, Sequenced, Labels, StreamEvent, SeqKind, Codec, commit, sync,
  handle, identity, account, migrate, tombstone, empty_event, evt_kind_error_frame,
  evt_kind_message, set_sequenced,
}

-- The optional handlers of `RepoStreamCallbacks`; X is the type of errors.
pub record Callbacks (B X : Type 0) : Type 0 where
  pub repo_commit : Option (Sequenced B → Option X)
  pub repo_sync : Option (Sequenced B → Option X)
  pub repo_handle : Option (Sequenced B → Option X)
  pub repo_identity : Option (Sequenced B → Option X)
  pub repo_account : Option (Sequenced B → Option X)
  pub repo_info : Option (B → Option X)
  pub repo_migrate : Option (Sequenced B → Option X)
  pub repo_tombstone : Option (Sequenced B → Option X)
  pub label_labels : Option (Labels B → Option X)
  pub label_info : Option (B → Option X)
  pub error : Option (ErrorFrame → Option X)

-- A case of the switch: taken if both the payload and its handler are there.
abbrev pub case_of : {P X : Type 0} → Option P → Option (P → Option X) → Option X → Option X
case_of (some p) (some f) rest = f p
case_of _ _ rest = rest

-- `RepoStreamCallbacks.EventHandler`.
unfoldable pub event_handler : {B X : Type 0} → Callbacks B X → StreamEvent B → Option X
event_handler rsc xev = case_of xev.repo_commit rsc.repo_commit (
    case_of xev.repo_sync rsc.repo_sync (
      case_of xev.repo_handle rsc.repo_handle (
        case_of xev.repo_info rsc.repo_info (
          case_of xev.repo_migrate rsc.repo_migrate (
            case_of xev.repo_identity rsc.repo_identity (
              case_of xev.repo_account rsc.repo_account (
                case_of xev.repo_tombstone rsc.repo_tombstone (
                  case_of xev.label_labels rsc.label_labels (
                    case_of xev.label_info rsc.label_info
                      (case_of xev.error rsc.error none))))))))))

-- What a round of the loop finds: the context is done, or what the reader returns, an error, a message that
-- is not binary, or a binary one.
pub data Frame : Type 0 where
  context_done : Frame
  read_error : Frame
  text : Frame
  binary : Bytes → Frame

pub data StreamError (X : Type 0) : Type 0 where
  ctx_err con_err expected_binary bad_header bad_body unrecognized_type : StreamError X
  sched_err : X → StreamError X

-- The state of the loop: the scheduler's, the last sequence number, and the pairs that were logged as
-- out of order.
pub record Loop (W : Type 0) : Type 0 where
  pub work : W
  pub last_seq : ℤ
  pub out_of_order : List (ℤ × ℤ)

-- A message that was decoded, ready for AddWork: its sequence number, if it has one, the key, the event.
pub record Job (B : Type 0) : Type 0 where
  pub seq : Option ℤ
  pub repo : String
  pub event : StreamEvent B

pub data Decoded (B : Type 0) : Type 0 where
  job : Job B → Decoded B
  skipped : Decoded B
  undecodable : Decoded B

-- `if evt.Seq < lastSeq` logs; then `lastSeq = evt.Seq`.
unfoldable pub note_seq : {W : Type 0} → Option ℤ → Loop W → Loop W
note_seq none l = l
note_seq (some n) l = record l {
  last_seq = n;
  out_of_order =
      if ltb_ℤ n l.last_seq then l.out_of_order ++ (n, l.last_seq) ∷ [] else l.out_of_order;
}

module _ {B : Type 0} where
  abbrev sequenced_job : SeqKind → Option (Sequenced B × Bytes) → Decoded B
  sequenced_job k none = undecodable
  sequenced_job k (some (x, rest)) =
      job (record { seq = some x.seq; repo = x.did; event = set_sequenced k x empty_event })

  abbrev info_job : Option (B × Bytes) → Decoded B
  info_job none = undecodable
  info_job (some (x, rest)) =
      job (record { seq = none; repo = ""; event = record empty_event { repo_info = some x } })

  abbrev labels_job : Option (Labels B × Bytes) → Decoded B
  labels_job none = undecodable
  labels_job (some (x, rest)) =
      job (record {
        seq = some x.seq;
        repo = "";
        event = record empty_event { label_labels = some x };
      })

  abbrev frame_job : Option (ErrorFrame × Bytes) → Decoded B
  frame_job none = undecodable
  frame_job (some (x, rest)) =
      job (record { seq = none; repo = ""; event = record empty_event { error = some x } })

  -- The switch on the message type; a type that it does not list is passed over.
  unfoldable pub decode_message : Codec B → String → Bytes → Decoded B
  unfolding set_sequenced
  decode_message c t b =
      if str_eq t "#commit"
      then sequenced_job commit (c.get_sequenced commit b)
      else if str_eq t "#sync"
      then sequenced_job sync (c.get_sequenced sync b)
      else if str_eq t "#handle"
      then sequenced_job handle (c.get_sequenced handle b)
      else if str_eq t "#identity"
      then sequenced_job identity (c.get_sequenced identity b)
      else if str_eq t "#account"
      then sequenced_job account (c.get_sequenced account b)
      else if str_eq t "#info"
      then info_job (c.get_info b)
      else if str_eq t "#migrate"
      then sequenced_job migrate (c.get_sequenced migrate b)
      else if str_eq t "#tombstone"
      then sequenced_job tombstone (c.get_sequenced tombstone b)
      else if str_eq t "#labels"
      then labels_job (c.get_labels b)
      else skipped

  -- The switch on the header's kind; `none` is an unrecognized one.
  unfoldable pub decode_body : Codec B → EventHeader → Bytes → Option (Decoded B)
  unfolding decode_message
  decode_body c h b =
      if eq_ℤ h.op evt_kind_message
      then some (decode_message c h.msg_type b)
      else if eq_ℤ h.op evt_kind_error_frame
      then some (frame_job (c.get_frame b))
      else none

  module _ {W X : Type 0} (add_work : String → StreamEvent B → W → Option X × W) where
    abbrev pub worked : Loop W → Option X × W → Loop W × Option (StreamError X)
    worked l (none, w) = (record l { work = w }, none)
    worked l (some x, w) = (record l { work = w }, some (sched_err x))

    unfoldable pub run_job : Decoded B → Loop W → Loop W × Option (StreamError X)
    unfolding note_seq
    run_job undecodable l = (l, some bad_body)
    run_job skipped l = (l, none)
    run_job (job j) l = let l' = note_seq j.seq l in worked l' (add_work j.repo j.event l'.work)

    abbrev pub run_body : Option (Decoded B) → Loop W → Loop W × Option (StreamError X)
    run_body none l = (l, some unrecognized_type)
    run_body (some d) l = run_job d l

    abbrev run_header :
        Codec B → Option (EventHeader × Bytes) → Loop W → Loop W × Option (StreamError X)
    run_header c none l = (l, some bad_header)
    run_header c (some (h, b)) l = run_body (decode_body c h b) l

    -- One round of the read loop: the error with which HandleRepoStream returns, if it does.
    unfoldable pub round : Codec B → Frame → Loop W → Loop W × Option (StreamError X)
    unfolding decode_body run_job
    round c context_done l = (l, some ctx_err)
    round c read_error l = (l, some con_err)
    round c text l = (l, some expected_binary)
    round c (binary b) l = run_header c (c.get_header b) l

    abbrev pub go_on :
        (Loop W → Loop W × Option (StreamError X))
        → Loop W × Option (StreamError X)
        → Loop W × Option (StreamError X)
    go_on next (l, none) = next l
    go_on next (l, some x) = (l, some x)

    unfoldable pub read_loop : Codec B → List Frame → Loop W → Loop W × Option (StreamError X)
    read_loop c [] l = (l, none)
    read_loop c (f ∷ fs) l = go_on (read_loop c fs) (round c f l)

    -- `HandleRepoStream`: `lastSeq := int64(-1)`.
    unfoldable pub handle_repo_stream : Codec B → List Frame → W → Loop W × Option (StreamError X)
    unfolding read_loop
    handle_repo_stream c fs w =
        read_loop c fs (record { work = w; last_seq = negsuc 0; out_of_order = [] })

-- What the pinger's select finds: a tick, whose ping fails or not, or the end of the context.
pub data Tick : Type 0 where
  ping : Bool → Tick
  cancelled : Tick

-- Why the pinger closed the connection and ended.
pub data Closed : Type 0 where
  too_many_fails context_ended : Closed

-- The pinger; `none` while it runs.
unfoldable pub ping_loop : ℕ → List Tick → Option Closed
ping_loop failcount [] = none
ping_loop failcount (cancelled ∷ ts) = some context_ended
ping_loop failcount (ping true ∷ ts) = ping_loop 0 ts
ping_loop failcount (ping false ∷ ts) =
    let rest = ping_loop (failcount + 1) ts in
    if leb 4 (failcount + 1) then some too_many_fails else rest
