-- ===== src/Events/Manager/Slow.antt =====
-- A subscriber's stream has no gaps: what it gets is a beginning of what passes its filter, and after
-- the first event that finds the channel full it gets no more events, only an error frame.
use Prim.Native.Nat.{◌-◌}
use referendum_services.Prelude.{
  ℕ, ◌+◌, ◌≤◌, ◌<◌, List, [], ◌∷◌, ◌++◌, Option, none, some, Bool, true, false, String, ◌≡◌, refl,
  ◌⊎◌, inl, inr, arith, ap, sym, ◌∙◌, ltb, if◌then◌else◌, length, length-append, append_assoc,
  append-nil, Bool-cases, dec_lt,
}
use referendum_services.Events.Event.{StreamEvent}
use referendum_services.Events.Manager.{
  Subscriber, new_subscriber, too_slow, deliver, send_too_slow,
}

-- What may happen to a subscriber that is in the list: an event is broadcast, its consumer takes an
-- item, or the goroutine of a slow consumer sends its frame.
pub data Action (B : Type 0) : Type 0 where
  broadcast : Bool → StreamEvent B → Action B
  receive : Action B
  frame : Action B

abbrev pub State : Type 0 → Type 0
State B = Subscriber B × List (StreamEvent B)

module _ {B : Type 0} where
  abbrev never : StreamEvent B → Bool
  never e = false

  abbrev with_sub : Option (Subscriber B) → List (StreamEvent B) → Option (State B)
  with_sub none got = none
  with_sub (some s) got = some (s, got)

  abbrev take_item : List (StreamEvent B) → Subscriber B → List (StreamEvent B) → State B
  take_item [] s got = (s, got)
  take_item (x ∷ xs) s got = (record s { outgoing = xs }, got ++ x ∷ [])

  -- The second part of the state is what the consumer has taken; `none` is a panic.
  step : Action B → State B → Option (State B)
  step (broadcast pick e) (s, got) = with_sub (deliver pick e s) got
  step receive (s, got) = some (take_item s.outgoing s got)
  step frame (s, got) =
      if ltb 0 s.drops
      then some (record (send_too_slow s) { drops = s.drops - 1 }, got)
      else some (s, got)

  pub run : List (Action B) → State B → Option (State B)
  run [] st = some st
  run (a ∷ acts) st = elim (step a st) [ none ↦ none | some st' ↦ run acts st' ]

  -- The events broadcast, and those that a filter lets pass.
  pub sent : List (Action B) → List (StreamEvent B)
  sent [] = []
  sent (broadcast pick e ∷ acts) = e ∷ sent acts
  sent (receive ∷ acts) = sent acts
  sent (frame ∷ acts) = sent acts

  unfoldable pub passing : (StreamEvent B → Bool) → List (StreamEvent B) → List (StreamEvent B)
  passing f [] = []
  passing f (e ∷ es) = let rest = passing f es in if f e then e ∷ rest else rest

  passing-append :
      (f : StreamEvent B → Bool) (xs ys : List (StreamEvent B))
      → passing f (xs ++ ys) ≡ passing f xs ++ passing f ys
  unfolding passing
  passing-append f [] ys = refl
  passing-append f (x ∷ xs) ys = ground (arith, passing-append f xs ys)

  deliver_skip :
      (pick : Bool) (e : StreamEvent B) (s : Subscriber B)
      → s.filter e ≡ false
      → deliver pick e s ≡ some s
  unfolding deliver
  deliver_skip pick e s h = rw (h, deliver)

  data Mode (f : StreamEvent B → Bool) (s : Subscriber B) (rest tail : List (StreamEvent B))
      : Type 0 where
    live : s.filter ≡ f → s.drops ≡ 0 → rest ≡ [] → tail ≡ [] → Mode f s rest tail
    slow : s.filter ≡ never → s.drops ≡ 1 → tail ≡ [] → Mode f s rest tail
    framed :
        s.filter ≡ never → s.drops ≡ 0 → (tail ≡ []) ⊎ (tail ≡ too_slow ∷ []) → Mode f s rest tail

  keep-Mode :
      {f : StreamEvent B → Bool} {s : Subscriber B} {rest tail : List (StreamEvent B)}
      (xs : List (StreamEvent B))
      → Mode f s rest tail
      → Mode f (record s { outgoing = xs }) rest tail
  keep-Mode xs (live hf hd hr ht) = live hf hd hr ht
  keep-Mode xs (slow hf hd ht) = slow hf hd ht
  keep-Mode xs (framed hf hd ht) = framed hf hd ht

  record InStream (f : StreamEvent B → Bool) (es : List (StreamEvent B)) (st : State B)
      : Type 0 where
    got : List (StreamEvent B)
    rest : List (StreamEvent B)
    tail : List (StreamEvent B)
    sent_split : passing f es ≡ got ++ rest
    got_split : st.1 ++ st.0.outgoing ≡ got ++ tail
    mode : Mode f st.0 rest tail
    is_open : (st.0.closed ≡ false) × (st.0.done ≡ false) × (st.0.cleaned_up ≡ false)
    room : length st.0.outgoing ≤ st.0.capacity

  after_room : StreamEvent B → Subscriber B → Subscriber B
  after_room e s = record s {
    outgoing = s.outgoing ++ e ∷ [];
    enqueued = s.enqueued + 1;
    broadcasts = s.broadcasts + 1;
  }

  deliver_room :
      (pick : Bool) (e : StreamEvent B) (s : Subscriber B)
      → s.filter e ≡ true
      → s.closed ≡ false
      → s.done ≡ false
      → length s.outgoing < s.capacity
      → deliver pick e s ≡ some (after_room e s)
  unfolding deliver after_room
  deliver_room pick e s h c d r = ground arith

  after_full : Subscriber B → Subscriber B
  after_full s = record s {
    filter = never;
    drops = s.drops + 1;
    enqueued = s.enqueued + 1;
    broadcasts = s.broadcasts + 1;
  }

  deliver_full :
      (pick : Bool) (e : StreamEvent B) (s : Subscriber B)
      → s.filter e ≡ true
      → s.closed ≡ false
      → s.done ≡ false
      → s.capacity ≤ length s.outgoing
      → deliver pick e s ≡ some (after_full s)
  unfolding deliver after_full
  deliver_full pick e s h c d r = ground arith

  module _ (f : StreamEvent B → Bool) (es : List (StreamEvent B)) (e : StreamEvent B)
      (s : Subscriber B) (taken : List (StreamEvent B)) (i : InStream f es (s, taken)) where
    more_rest : passing f (es ++ e ∷ []) ≡ i.got ++ (i.rest ++ passing f (e ∷ []))
    more_rest =
        passing-append f es (e ∷ [])
        ∙ ap (λ l. l ++ passing f (e ∷ [])) i.sent_split
        ∙ append_assoc i.got i.rest (passing f (e ∷ []))

    pass_one : f e ≡ true → passing f (e ∷ []) ≡ e ∷ []
    unfolding passing
    pass_one h = rw h

    skip_one : f e ≡ false → passing f (e ∷ []) ≡ []
    unfolding passing
    skip_one h = rw h

    room-Mode :
        Mode f s i.rest i.tail
        → s.filter e ≡ true
        → length s.outgoing < s.capacity
        → InStream f (es ++ e ∷ []) (after_room e s, taken)
    unfolding after_room
    room-Mode (live hf hd hr ht) pass r =
        let fe : f e ≡ true = cc (ap (λ g. g e) hf) in
        record {
          got = i.got ++ e ∷ [];
          rest = [];
          tail = [];
          sent_split =
              more_rest
              ∙ ap (λ l. i.got ++ l) (ap (λ l. l ++ passing f (e ∷ [])) hr ∙ pass_one fe)
              ∙ sym (append-nil (i.got ++ e ∷ []));
          got_split =
              sym (append_assoc taken s.outgoing (e ∷ []))
              ∙ ap (λ l. l ++ e ∷ []) (i.got_split ∙ ap (λ l. i.got ++ l) ht ∙ append-nil i.got)
              ∙ sym (append-nil (i.got ++ e ∷ []));
          mode = live hf hd refl refl;
          is_open = i.is_open;
          room = omega (arith, length-append s.outgoing (e ∷ []));
        }
    room-Mode (slow hf hd ht) pass r = absurd (cc (ap (λ g. g e) hf))
    room-Mode (framed hf hd ht) pass r = absurd (cc (ap (λ g. g e) hf))

    full-Mode :
        Mode f s i.rest i.tail → s.filter e ≡ true → InStream f (es ++ e ∷ []) (after_full s, taken)
    unfolding after_full
    full-Mode (live hf hd hr ht) pass = record {
      got = i.got;
      rest = i.rest ++ passing f (e ∷ []);
      tail = i.tail;
      sent_split = more_rest;
      got_split = i.got_split;
      mode = slow refl (omega arith) ht;
      is_open = i.is_open;
      room = i.room;
    }
    full-Mode (slow hf hd ht) pass = absurd (cc (ap (λ g. g e) hf))
    full-Mode (framed hf hd ht) pass = absurd (cc (ap (λ g. g e) hf))

    skip_rest :
        Mode f s i.rest i.tail → s.filter e ≡ false → Mode f s (i.rest ++ passing f (e ∷ [])) i.tail
    skip_rest (live hf hd hr ht) skip =
        live hf hd (ap (λ l. l ++ passing f (e ∷ [])) hr ∙ skip_one (cc (ap (λ g. g e) hf))) ht
    skip_rest (slow hf hd ht) skip = slow hf hd ht
    skip_rest (framed hf hd ht) skip = framed hf hd ht

    skip_mode : s.filter e ≡ false → InStream f (es ++ e ∷ []) (s, taken)
    skip_mode skip = record {
      got = i.got;
      rest = i.rest ++ passing f (e ∷ []);
      tail = i.tail;
      sent_split = more_rest;
      got_split = i.got_split;
      mode = skip_rest i.mode skip;
      is_open = i.is_open;
      room = i.room;
    }

  -- The step of each action keeps the stream; `es` are the events broadcast before it.
  step_broadcast :
      (f : StreamEvent B → Bool) (es : List (StreamEvent B)) (pick : Bool) (e : StreamEvent B)
      (st : State B)
      → InStream f es st
      → (st' : State B) × (step (broadcast pick e) st ≡ some st') × InStream f (es ++ e ∷ []) st'
  unfolding step
  step_broadcast f es pick e (s, got) i = elim (Bool-cases (s.filter e)) [
    | inl pass ↦ elim (dec_lt (length s.outgoing) s.capacity) [
      | yes r ↦ (
        (after_room e s, got),
        ap (λ o. with_sub o got) (deliver_room pick e s pass i.is_open.0 i.is_open.1 r),
        room-Mode f es e s got i i.mode pass r,
      )
      | no r ↦ (
        (after_full s, got),
        ap (λ o. with_sub o got) (deliver_full pick e s pass i.is_open.0 i.is_open.1 (omega arith)),
        full-Mode f es e s got i i.mode pass,
      )
    ]
    | inr skip ↦ (
      (s, got),
      ap (λ o. with_sub o got) (deliver_skip pick e s skip),
      skip_mode f es e s got i skip,
    )
  ]

  step_receive :
      (f : StreamEvent B → Bool) (es : List (StreamEvent B)) (s : Subscriber B)
      (got queue : List (StreamEvent B))
      → s.outgoing ≡ queue
      → InStream f es (s, got)
      → InStream f es (take_item queue s got)
  step_receive f es s got [] q i = i
  step_receive f es s got (x ∷ xs) q i = record {
    got = i.got;
    rest = i.rest;
    tail = i.tail;
    sent_split = i.sent_split;
    got_split = append_assoc got (x ∷ []) xs ∙ ap (λ l. got ++ l) (sym q) ∙ i.got_split;
    mode = same i.mode;
    is_open = i.is_open;
    room = omega (arith, ap length q, i.room);
  }
    where
      same : Mode f s i.rest i.tail → Mode f (record s { outgoing = xs }) i.rest i.tail
      same = λ m. keep-Mode xs m

  frame_idle :
      (s : Subscriber B) (got : List (StreamEvent B))
      → s.drops ≡ 0
      → step frame (s, got) ≡ some (s, got)
  unfolding step send_too_slow
  frame_idle s got h = ground arith

  frame_room :
      (s : Subscriber B) (got : List (StreamEvent B))
      → s.drops ≡ 1
      → s.cleaned_up ≡ false
      → length s.outgoing < s.capacity
      → step frame (s, got)
        ≡ some (record s { outgoing = s.outgoing ++ too_slow ∷ []; drops = 0 }, got)
  unfolding step send_too_slow
  frame_room s got h c r = ground arith

  frame_full :
      (s : Subscriber B) (got : List (StreamEvent B))
      → s.drops ≡ 1
      → s.cleaned_up ≡ false
      → s.capacity ≤ length s.outgoing
      → step frame (s, got) ≡ some (record s { drops = 0 }, got)
  unfolding step send_too_slow
  frame_full s got h c r = ground arith

  step_frame-Mode :
      (f : StreamEvent B → Bool) (es : List (StreamEvent B)) (s : Subscriber B)
      (got : List (StreamEvent B)) (i : InStream f es (s, got))
      → Mode f s i.rest i.tail
      → (st' : State B) × (step frame (s, got) ≡ some st') × InStream f es st'
  step_frame-Mode f es s got i (live hf hd hr ht) = ((s, got), frame_idle s got hd, i)
  step_frame-Mode f es s got i (framed hf hd ht) = ((s, got), frame_idle s got hd, i)
  step_frame-Mode f es s got i (slow hf hd ht) = elim (dec_lt (length s.outgoing) s.capacity) [
    | yes r ↦ (
      (record s { outgoing = s.outgoing ++ too_slow ∷ []; drops = 0 }, got),
      frame_room s got hd i.is_open.2 r,
      record {
        got = i.got;
        rest = i.rest;
        tail = too_slow ∷ [];
        sent_split = i.sent_split;
        got_split =
            sym (append_assoc got s.outgoing (too_slow ∷ []))
            ∙ ap (λ l. l ++ too_slow ∷ [])
                (i.got_split ∙ ap (λ l. i.got ++ l) ht ∙ append-nil i.got);
        mode = framed hf refl (inr refl);
        is_open = i.is_open;
        room = omega (arith, length-append s.outgoing (too_slow ∷ []));
      },
    )
    | no r ↦ (
      (record s { drops = 0 }, got),
      frame_full s got hd i.is_open.2 (omega arith),
      record {
        got = i.got;
        rest = i.rest;
        tail = i.tail;
        sent_split = i.sent_split;
        got_split = i.got_split;
        mode = framed hf refl (inl ht);
        is_open = i.is_open;
        room = i.room;
      },
    )
  ]

  run_from :
      (f : StreamEvent B → Bool) (acts : List (Action B)) (es : List (StreamEvent B)) (st : State B)
      → InStream f es st
      → (st' : State B) × (run acts st ≡ some st') × InStream f (es ++ sent acts) st'
  unfolding run sent step
  run_from f [] es st i = (st, refl, rw (append-nil es) i)
  run_from f (broadcast pick e ∷ acts) es st i =
      let (st', q, i') = step_broadcast f es pick e st i in
      let (st'', q', i'') = run_from f acts (es ++ e ∷ []) st' i' in
      (st'', rw (q, run) q', rw (append_assoc es (e ∷ []) (sent acts)) at i'')
  run_from f (receive ∷ acts) es (s, got) i =
      run_from f acts es (take_item s.outgoing s got) (step_receive f es s got s.outgoing refl i)
  run_from f (frame ∷ acts) es (s, got) i =
      let (st', q, i') = step_frame-Mode f es s got i i.mode in
      let (st'', q', i'') = run_from f acts es st' i' in (st'', rw (q, run) q', i'')

  -- What the consumer has taken and what still waits for it.
  abbrev pub stream : State B → List (StreamEvent B)
  stream (s, got) = got ++ s.outgoing

  -- A stream of a filter's events: complete, or cut at the first event that found the channel full and
  -- closed by an error frame at most.
  abbrev pub IsGapless : (StreamEvent B → Bool) → List (StreamEvent B) → State B → Type 0
  IsGapless f es st =
      (got : List (StreamEvent B)) × (rest : List (StreamEvent B)) × (tail : List (StreamEvent B))
      × (passing f es ≡ got ++ rest)
      × (stream st ≡ got ++ tail)
      × ((rest ≡ []) × (tail ≡ []) ⊎ (st.0.filter ≡ never) × ((tail ≡ []) ⊎ (tail ≡ too_slow ∷ [])))

  Mode-facts :
      {f : StreamEvent B → Bool} {s : Subscriber B} {rest tail : List (StreamEvent B)}
      → Mode f s rest tail
      → (rest ≡ []) × (tail ≡ []) ⊎ (s.filter ≡ never) × ((tail ≡ []) ⊎ (tail ≡ too_slow ∷ []))
  Mode-facts (live hf hd hr ht) = inl (hr, ht)
  Mode-facts (slow hf hd ht) = inr (hf, inl ht)
  Mode-facts (framed hf hd ht) = inr (hf, ht)

  new_stream :
      (id size : ℕ) (ident : String) (f : StreamEvent B → Bool)
      → InStream f [] (new_subscriber id ident (some f) size, [])
  unfolding new_subscriber passing
  new_stream id size ident f = record {
    got = [];
    rest = [];
    tail = [];
    sent_split = refl;
    got_split = refl;
    mode = live refl refl refl refl;
    is_open = (refl, refl, refl);
    room = omega arith;
  }

  -- For a new subscriber with a filter, whatever is broadcast, taken or framed in whatever order, no
  -- step panics, the queue stays within the capacity, and what the consumer has taken with what
  -- waits for it is all that passed the filter, or a beginning of it, followed by one error frame at
  -- most, after which nothing passes its filter any more.
  pub run-IsGapless :
      (id size : ℕ) (ident : String) (f : StreamEvent B → Bool) (acts : List (Action B))
      → (st : State B) × (run acts (new_subscriber id ident (some f) size, []) ≡ some st)
        × IsGapless f (sent acts) st
        × (length st.0.outgoing ≤ st.0.capacity)
  run-IsGapless id size ident f acts =
      let start = new_stream id size ident f in
      let (st, q, i) = run_from f acts [] (new_subscriber id ident (some f) size, []) start in
      (st, q, (i.got, i.rest, i.tail, i.sent_split, i.got_split, Mode-facts i.mode), i.room)
