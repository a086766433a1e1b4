-- ===== src/Events/Manager/Members.antt =====
-- The list of subscribers: what rmSubscriber takes out, what a broadcast does to those that stay, and
-- the one way to a panic.
use mathlib.Core.List.{Perm}
use mathlib.Core.List.Perm
use referendum_services.Prelude.{
  ℕ, ◌+◌, List, [], ◌∷◌, ◌++◌, none, some, Bool, true, false, ◌≡◌, ◌≢◌, refl, ◌⊎◌, inl, inr, arith,
  ap, ltb, if◌then◌else◌, length, ℕ_discrete, All, if_pos, if_neg, subst,
}
use referendum_services.Events.Event.{StreamEvent}
use referendum_services.Events.Manager.{
  Subscriber, deliver, deliver_all, cleanup, add_subscriber, rm_subscriber, last_of, init_of,
}

module _ {B : Type 0} where
  -- The subscriber is in the list.
  abbrev pub HasId : ℕ → List (Subscriber B) → Type 0
  HasId id [] = ⊥
  HasId id (s ∷ ss) = (s.id ≡ id) ⊎ HasId id ss

  last_init :
      (s : Subscriber B) (ss : List (Subscriber B)) → Perm (last_of s ss ∷ init_of s ss) (s ∷ ss)
  unfolding last_of init_of
  last_init s [] = Perm.refl (s ∷ [])
  last_init s (x ∷ xs) =
      Perm.trans (Perm.swap s (last_of x xs) (init_of x xs)) (Perm.cons s (last_init x xs))

  -- Either one subscriber with the pointer is gone and the others are kept, or there was none.
  abbrev pub Removed : ℕ → List (Subscriber B) → List (Subscriber B) → Type 0
  Removed id subs left =
      ((gone : Subscriber B) × (gone.id ≡ id) × Perm (gone ∷ left) subs)
      ⊎ (¬ HasId id subs) × (left ≡ subs)

  found :
      (s : Subscriber B) (ss : List (Subscriber B))
      → s.id ≡ s.id
      → Perm (s ∷ rm_subscriber s.id (s ∷ ss)) (s ∷ ss)
  unfolding rm_subscriber
  found s [] p = rw (if_pos (ℕ_discrete s.id s.id) p) (Perm.refl (s ∷ []))
  found s (x ∷ xs) p = rw (if_pos (ℕ_discrete s.id s.id) p) (Perm.cons s (last_init x xs))

  passed_over :
      (id : ℕ) (s : Subscriber B) (ss : List (Subscriber B))
      → s.id ≢ id
      → rm_subscriber id (s ∷ ss) ≡ s ∷ rm_subscriber id ss
  unfolding rm_subscriber
  passed_over id s ss h = if_neg (ℕ_discrete s.id id) h _ _

  Removed-cons :
      (id : ℕ) (s : Subscriber B) (ss left : List (Subscriber B))
      → s.id ≢ id
      → Removed id ss left
      → Removed id (s ∷ ss) (s ∷ left)
  Removed-cons id s ss left h (inl (gone, e, p)) =
      inl (gone, e, Perm.trans (Perm.swap s gone left) (Perm.cons s p))
  Removed-cons id s ss left h (inr (no_id, e)) =
      inr ((λ where_. elim where_ [ inl q ↦ h q | inr q ↦ no_id q ]), ap (◌∷◌ s) e)

  -- rmSubscriber takes out exactly one subscriber with the given pointer and keeps all the others, in
  -- some order; a list without it stays as it is.
  pub rm_subscriber-Removed :
      (id : ℕ) (subs : List (Subscriber B)) → Removed id subs (rm_subscriber id subs)
  rm_subscriber-Removed id [] = inr ((λ h. h), unfold rm_subscriber in refl)
  rm_subscriber-Removed id (s ∷ ss) = elim (ℕ_discrete s.id id) [
    | yes p ↦
        subst (λ k. Removed k (s ∷ ss) (rm_subscriber k (s ∷ ss))) p
          (inl (s, refl, found s ss refl))
    | no p ↦
        rw (passed_over id s ss p)
          (Removed-cons id s ss (rm_subscriber id ss) p (rm_subscriber-Removed id ss))
  ]

  -- Neither closed nor told to stop.
  abbrev pub IsOpen : Subscriber B → Type 0
  IsOpen s = (s.closed ≡ false) × (s.done ≡ false)

  -- What a broadcast does to an open subscriber: the event is queued if it passes the filter and there
  -- is room; without room the filter is shut and a removal is under way.
  abbrev pub offered : StreamEvent B → Subscriber B → Subscriber B
  offered e s =
      if ltb (length s.outgoing) s.capacity
      then record s {
        outgoing = s.outgoing ++ e ∷ [];
        enqueued = s.enqueued + 1;
        broadcasts = s.broadcasts + 1;
      }
      else record s {
        filter = λ x. false;
        drops = s.drops + 1;
        enqueued = s.enqueued + 1;
        broadcasts = s.broadcasts + 1;
      }

  pub delivered : StreamEvent B → List (Subscriber B) → List (Subscriber B)
  delivered e [] = []
  delivered e (s ∷ ss) = (if s.filter e then offered e s else s) ∷ delivered e ss

  deliver_open :
      (pick : Bool) (e : StreamEvent B) (s : Subscriber B)
      → IsOpen s
      → deliver pick e s ≡ some (if s.filter e then offered e s else s)
  unfolding deliver
  deliver_open pick e s h = ground arith

  -- To open subscribers a broadcast never panics, its outcome does not depend on the choices of
  -- `select`, and each subscriber gets the event at most once, by its own filter and room alone.
  pub deliver_all_open :
      (pick : ℕ → Bool) (e : StreamEvent B) (subs : List (Subscriber B))
      → All IsOpen subs
      → deliver_all pick e subs ≡ some (delivered e subs)
  unfolding deliver_all delivered
  deliver_all_open pick e [] h = refl
  deliver_all_open pick e (s ∷ ss) h =
      ground (arith, deliver_open (pick s.id) e s, deliver_all_open pick e ss)

  deliver_closed :
      (e : StreamEvent B) (s : Subscriber B)
      → s.filter e ≡ true
      → s.closed ≡ true
      → s.done ≡ true
      → deliver true e s ≡ none
  unfolding deliver
  deliver_closed e s f c d = ground arith

  deliver_all-none :
      (pick : ℕ → Bool) (e : StreamEvent B) (subs : List (Subscriber B)) (s : Subscriber B)
      → deliver (pick s.id) e s ≡ none
      → deliver_all pick e (subs ++ s ∷ []) ≡ none
  unfolding deliver_all
  deliver_all-none pick e [] s h = ground arith
  deliver_all-none pick e (x ∷ xs) s h = ground (arith, deliver_all-none pick e xs s)

  -- If a subscriber is cleaned up and only then added to the list, as the goroutine of Subscribe does
  -- when its consumer leaves during the first playback, then an event that passes its filter makes
  -- the broadcast panic whenever `select` takes the send.
  pub cleanup-add_subscriber_panics :
      (pick : ℕ → Bool) (e : StreamEvent B) (s : Subscriber B) (subs : List (Subscriber B))
      → s.cleaned_up ≡ false
      → s.filter e ≡ true
      → pick s.id ≡ true
      → let (s', subs') = cleanup s subs in deliver_all pick e (add_subscriber s' subs') ≡ none
  unfolding cleanup add_subscriber
  cleanup-add_subscriber_panics pick e s subs c f p = rw c (
      deliver_all-none pick e (rm_subscriber s.id subs)
        (record s { done = true; closed = true; cleaned_up = true })
        (rw p (
          deliver_closed e (record s { done = true; closed = true; cleaned_up = true }) f refl
            refl)))
