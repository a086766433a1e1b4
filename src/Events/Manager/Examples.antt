-- ===== src/Events/Manager/Examples.antt =====
-- Runs of the event manager.
use referendum_services.Prelude.{
  ℕ, ◌≤◌, List, [], ◌∷◌, none, some, Bool, true, false, ◌≡◌, refl, length,
}
use referendum_services.Prelude.Int.{pos}
use referendum_services.Events.Event.{StreamEvent, empty_event}
use referendum_services.Events.Manager.{
  Subscriber, new_subscriber, deliver_all, cleanup, add_subscriber, rm_subscriber,
}
use referendum_services.Events.Manager.Slow.{
  Action, State, broadcast, receive, frame, run, sent, IsGapless, run-IsGapless,
}
use referendum_services.Events.Manager.Members.{
  Removed, rm_subscriber-Removed, delivered, deliver_all_open, cleanup-add_subscriber_panics,
}

abbrev a_commit : ℕ → StreamEvent ℕ
a_commit n = record empty_event {
  repo_commit = some (record { seq = pos n; did = "did:plc:a"; body = n });
}

abbrev all_pass : StreamEvent ℕ → Bool
all_pass e = true

abbrev small : ℕ → Subscriber ℕ
small id = new_subscriber id "relay" (some all_pass) 1

-- The second event finds the channel full.
abbrev actions : List (Action ℕ)
actions =
    broadcast true (a_commit 1)
    ∷ broadcast true (a_commit 2)
    ∷ receive
    ∷ frame
    ∷ broadcast true (a_commit 3)
    ∷ []

run-IsGapless_example :
    (st : State ℕ) × (run actions (small 0, []) ≡ some st)
    × IsGapless all_pass (sent actions) st
    × (length st.0.outgoing ≤ st.0.capacity)
run-IsGapless_example = run-IsGapless 0 1 "relay" all_pass actions

rm_subscriber-Removed_example :
    Removed 1
      (small 0 ∷ small 1 ∷ small 2 ∷ [])
      (rm_subscriber 1 (small 0 ∷ small 1 ∷ small 2 ∷ []))
rm_subscriber-Removed_example = rm_subscriber-Removed 1 (small 0 ∷ small 1 ∷ small 2 ∷ [])

abbrev no_pick : ℕ → Bool
no_pick n = false

deliver_all_open_example :
    deliver_all no_pick (a_commit 1) (small 0 ∷ small 1 ∷ [])
    ≡ some (delivered (a_commit 1) (small 0 ∷ small 1 ∷ []))
unfolding new_subscriber
deliver_all_open_example =
    deliver_all_open no_pick (a_commit 1) (small 0 ∷ small 1 ∷ [])
      ((refl, refl), ((refl, refl), tt))

abbrev send_first : ℕ → Bool
send_first n = true

cleanup-add_subscriber_panics_example :
    let (s', subs') = cleanup (small 1) (small 0 ∷ []) in
    deliver_all send_first (a_commit 1) (add_subscriber s' subs') ≡ none
unfolding new_subscriber
cleanup-add_subscriber_panics_example =
    cleanup-add_subscriber_panics send_first (a_commit 1) (small 1) (small 0 ∷ []) refl refl refl
