-- ===== src/Events/Subscribe.antt =====
-- internal/events/events.go: Subscribe with a cursor, the crossover from the persister's past events to
-- the live stream. `log` is the persister's buffer at the end; the goroutine sees it when the first
-- playback starts (`n1` events), when the subscriber is added to the list (`n2`), and when the second
-- playback starts (`m`). The live channel then carries the events after the first `n2` that pass the
-- filter. The consumer stays (`done` is not closed) and the channel never overflows.
pub mod Crossover
pub mod Cursor
mod Examples
use referendum_services.Prelude.{
  ℕ, List, [], ◌∷◌, ◌++◌, Option, none, some, Bool, if◌then◌else◌, take, drop,
}
use referendum_services.Prelude.Int.{ℤ, pos, ltb_ℤ}
use referendum_services.Events.Event.{StreamEvent, sequence}
use referendum_services.Events.Persist.{MemPersister, playback}
use referendum_services.Events.Manager.Slow.{passing}

-- `ErrCaughtUp`.
pub data Stop : Type 0 where
  caught_up : Stop

module _ {B : Type 0} where
  -- The callback of the first playback: send, and remember the last sequence number.
  unfoldable pub forward :
      StreamEvent B → List (StreamEvent B) × ℤ → (List (StreamEvent B) × ℤ) × Option Stop
  unfolding sequence
  forward e (out, last) =
      let seq = sequence (some e) in
      ((out ++ e ∷ [], if ltb_ℤ (pos 0) seq then seq else last), none)

  -- The callback of the second playback: up to the first live event.
  unfoldable pub catch_up :
      StreamEvent B → StreamEvent B → List (StreamEvent B) → List (StreamEvent B) × Option Stop
  catch_up first e out =
      if ltb_ℤ (sequence (some first)) (sequence (some e))
      then (out, some caught_up)
      else (out ++ e ∷ [], none)

  abbrev seen : ℕ → List (StreamEvent B) → MemPersister B
  seen n log = record { buf = take n log; seq = pos n }

  -- After the second playback the events of the live channel are copied.
  abbrev copy_live :
      List (StreamEvent B)
      → Option (List (StreamEvent B) × Option Stop)
      → Option (List (StreamEvent B))
  copy_live live none = none
  copy_live live (some (out, r)) = some (out ++ live)

  -- The live channel: its first item is only used to end the second playback.
  abbrev go_live :
      List (StreamEvent B)
      → MemPersister B
      → List (StreamEvent B)
      → ℤ
      → Option (List (StreamEvent B))
  go_live [] mp out last = some out
  go_live (first ∷ live) mp out last = copy_live live (playback (catch_up first) last mp out)

  abbrev after_first :
      List (StreamEvent B)
      → MemPersister B
      → Option ((List (StreamEvent B) × ℤ) × Option Stop)
      → Option (List (StreamEvent B))
  after_first live mp none = none
  after_first live mp (some ((out, last), r)) = go_live live mp out last

  -- What the goroutine sends to `out`; `none` where Playback panics.
  unfoldable pub crossover :
      (StreamEvent B → Bool) → ℤ → ℕ → ℕ → ℕ → List (StreamEvent B) → Option (List (StreamEvent B))
  crossover filter since n1 n2 m log =
      after_first (passing filter (drop n2 log)) (seen m log)
        (playback forward since (seen n1 log) ([], since))
