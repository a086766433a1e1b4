-- ===== src/Events/Manager.antt =====
-- internal/events/events.go: the event manager and its subscribers. `subsLk` is held by every method
-- that touches the list, so each is one step. A subscriber pointer is the number `id`. A channel is
-- the list of its items, its capacity, and whether it was closed; the metrics are the two counters. A
-- `select` with two ready cases takes either: `pick` says for each subscriber whether the send goes
-- first. A function returns `none` where the code sends on a closed channel, which panics.
pub mod Slow
pub mod Members
mod Examples
use Prim.Native.Nat.{◌*◌}
use mathlib.Core.Logic.{ite}
use referendum_services.Prelude.{
  ℕ, ◌+◌, ◌^◌, List, [], ◌∷◌, ◌++◌, Option, none, some, Bool, true, false, String, ltb, ◌==◌, ◌||◌,
  if◌then◌else◌, length, ℕ_discrete,
}
use referendum_services.Events.Event.{
  StreamEvent, ErrorFrame, Codec, Result, ok, err, empty_event, preserialize,
}
use referendum_services.Events.Persist.{MemPersister, persist}

pub record Subscriber (B : Type 0) : Type 0 where
  pub id : ℕ
  pub ident : String
  pub outgoing : List (StreamEvent B)
  pub capacity : ℕ
  pub closed : Bool
  pub filter : StreamEvent B → Bool
  pub done : Bool
  pub cleaned_up : Bool
  pub enqueued : ℕ
  pub broadcasts : ℕ
  pub drops : ℕ  -- goroutines started for a slow consumer that have not run yet

abbrev pub buffer_size : ℕ
buffer_size = 16 * 2 ^ 10

module _ {B : Type 0} where
  -- The subscriber that Subscribe makes; a nil filter lets everything pass.
  unfoldable pub new_subscriber : ℕ → String → Option (StreamEvent B → Bool) → ℕ → Subscriber B
  new_subscriber id ident filter size = record {
    id = id;
    ident = ident;
    outgoing = [];
    capacity = size;
    closed = false;
    filter = elim filter [ none ↦ (λ e. true) | some f ↦ f ];
    done = false;
    cleaned_up = false;
    enqueued = 0;
    broadcasts = 0;
    drops = 0;
  }

  -- `s.outgoing <- evt`.
  abbrev send : StreamEvent B → Subscriber B → Option (Subscriber B)
  send e s = if s.closed then none else some (record s { outgoing = s.outgoing ++ e ∷ [] })

  -- The default case: nothing more passes the filter, and a goroutine will remove the subscriber.
  abbrev drop_slow : Subscriber B → Subscriber B
  drop_slow s = record s { filter = λ e. false; drops = s.drops + 1 }

  -- The `select` of broadcastEvent. A closed channel is ready, and so is one with room.
  unfoldable pub offer : Bool → StreamEvent B → Subscriber B → Option (Subscriber B)
  offer pick e s =
      let ready = s.closed || ltb (length s.outgoing) s.capacity in
      if ready
      then (if s.done then (if pick then send e s else some s) else send e s)
      else (if s.done then some s else some (drop_slow s))

  abbrev count_broadcast : Option (Subscriber B) → Option (Subscriber B)
  count_broadcast none = none
  count_broadcast (some s) = some (record s { broadcasts = s.broadcasts + 1 })

  -- One round of the loop over the subscribers.
  unfoldable pub deliver : Bool → StreamEvent B → Subscriber B → Option (Subscriber B)
  unfolding offer
  deliver pick e s =
      if s.filter e
      then count_broadcast (offer pick e (record s { enqueued = s.enqueued + 1 }))
      else some s

  abbrev cons? : Option (Subscriber B) → Option (List (Subscriber B)) → Option (List (Subscriber B))
  cons? (some s) (some ss) = some (s ∷ ss)
  cons? _ _ = none

  unfoldable pub deliver_all :
      (ℕ → Bool) → StreamEvent B → List (Subscriber B) → Option (List (Subscriber B))
  unfolding deliver
  deliver_all pick e [] = some []
  deliver_all pick e (s ∷ ss) = cons? (deliver (pick s.id) e s) (deliver_all pick e ss)

  -- The callback that the persister runs: the event with its bytes, the subscribers, and whether it
  -- panicked. An event that does not serialize reaches nobody.
  unfoldable pub broadcast_event :
      Codec B
      → (ℕ → Bool)
      → StreamEvent B
      → List (Subscriber B)
      → StreamEvent B × List (Subscriber B) × Bool
  broadcast_event c pick e subs = elim (preserialize c e) [
    | err x ↦ (e, subs, false)
    | ok e' ↦ elim (deliver_all pick e' subs) [
      | none ↦ (e', subs, true)
      | some subs' ↦ (e', subs', false)
    ]
  ]

  -- `AddEvent`: the error of Persist is logged and dropped, so nil is returned.
  unfoldable pub add_event :
      Codec B
      → (ℕ → Bool)
      → StreamEvent B
      → MemPersister B
      → List (Subscriber B)
      → MemPersister B × List (Subscriber B) × Bool
  add_event c pick e mp subs = persist (broadcast_event c pick) e mp subs

  -- `em.subs = append(em.subs, sub)`.
  unfoldable pub add_subscriber : Subscriber B → List (Subscriber B) → List (Subscriber B)
  add_subscriber sub subs = subs ++ sub ∷ []

  -- The last element, `em.subs[len(em.subs)-1]`, and what lies before it.
  unfoldable pub last_of : Subscriber B → List (Subscriber B) → Subscriber B
  last_of s [] = s
  last_of s (x ∷ xs) = last_of x xs

  unfoldable pub init_of : Subscriber B → List (Subscriber B) → List (Subscriber B)
  init_of s [] = []
  init_of s (x ∷ xs) = s ∷ init_of x xs

  -- The first subscriber found gives its place to the last one, and the list is cut by one.
  unfoldable pub rm_subscriber : ℕ → List (Subscriber B) → List (Subscriber B)
  unfolding last_of init_of
  rm_subscriber id [] = []
  rm_subscriber id (s ∷ ss) =
      let rest = rm_subscriber id ss in
      let found : List (Subscriber B) = elim ss [
        | [] ↦ []
        | x ∷ xs ↦ last_of x xs ∷ init_of x xs
      ] in
      ite (ℕ_discrete s.id id) found (s ∷ rest)

  -- The cleanup of a subscriber, once: close `done`, leave the list, close the channel.
  unfoldable pub cleanup : Subscriber B → List (Subscriber B) → Subscriber B × List (Subscriber B)
  unfolding rm_subscriber
  cleanup s subs =
      if s.cleaned_up
      then (s, subs)
      else (record s { done = true; closed = true; cleaned_up = true }, rm_subscriber s.id subs)

  abbrev too_slow : StreamEvent B
  too_slow = record empty_event {
    error = some (record { error = "ConsumerTooSlow"; message = "" });
  }

  -- The first part of a slow consumer's goroutine: an error frame, if there is room within 5 seconds.
  unfoldable pub send_too_slow : Subscriber B → Subscriber B
  send_too_slow s =
      if s.cleaned_up
      then s
      else if ltb (length s.outgoing) s.capacity
      then record s { outgoing = s.outgoing ++ too_slow ∷ [] }
      else s

  -- The goroutine of a slow consumer: the frame, then the cleanup.
  unfoldable pub drop_goroutine :
      Subscriber B → List (Subscriber B) → Subscriber B × List (Subscriber B)
  unfolding send_too_slow cleanup
  drop_goroutine s subs = cleanup (send_too_slow s) subs
