-- ===== src/Events/Subscribe/Crossover.antt =====
-- The crossover has no gap and no duplicate.
use referendum_services.Prelude.{
  ℕ, zero, suc, ◌+◌, ◌-◌, ◌≤◌, max, List, [], ◌∷◌, ◌++◌, Option, none, some, Bool, ◌≡◌, refl, arith,
  length, length-take, take, drop, ap, sym, ◌∙◌, leb, if◌then◌else◌, dec_le, append_assoc,
  append-nil, drop_all, length-take_le, length-drop, take-drop-take, drop-append-drop,
}
use referendum_services.Prelude.Int.{ℤ, pos}
use referendum_services.Events.Event.{StreamEvent, sequence}
use referendum_services.Events.Persist.{playback, playback_loop}
use referendum_services.Events.Persist.Loop.{
  playback_past, playback_within, playback_loop-next, playback_loop-stop,
}
use referendum_services.Events.Manager.Slow.{passing}
use referendum_services.Events.Subscribe.{
  Stop, caught_up, forward, catch_up, seen, go_live, after_first, copy_live, crossover,
}

module _ {B : Type 0} where
  -- The events carry the numbers k + 1, k + 2, …
  abbrev pub Sequential : ℕ → List (StreamEvent B) → Type 0
  Sequential k [] = Unit
  Sequential k (e ∷ es) = (sequence (some e) ≡ pos (suc k)) × Sequential (suc k) es

  Sequential-take :
      (n k : ℕ) (es : List (StreamEvent B)) → Sequential k es → Sequential k (take n es)
  Sequential-take zero k es h = tt
  Sequential-take (suc n) k [] h = tt
  Sequential-take (suc n) k (e ∷ es) h = (h.0, Sequential-take n (suc k) es h.1)

  pub Sequential-drop :
      (n k : ℕ) (es : List (StreamEvent B)) → Sequential k es → Sequential (k + n) (drop n es)
  Sequential-drop zero k es h = let e : k + 0 ≡ k = omega arith in rw e h
  Sequential-drop (suc n) k [] h = tt
  Sequential-drop (suc n) k (e ∷ es) h =
      let q : k + suc n ≡ suc k + n = omega arith in rw q (Sequential-drop n (suc k) es h.1)

  pub Sequential-drop_0 :
      (n : ℕ) (es : List (StreamEvent B)) → Sequential 0 es → Sequential n (drop n es)
  Sequential-drop_0 n es h = let q : 0 + n ≡ n = omega arith in rw q at (Sequential-drop n 0 es h)

  -- The last number after sending `es`.
  last_number : ℕ → ℕ → List (StreamEvent B) → ℤ
  last_number j k [] = pos j
  last_number j k (e ∷ es) = last_number (suc k) (suc k) es

  forward_one :
      (e : StreamEvent B) (k : ℕ) (out : List (StreamEvent B)) (last : ℤ)
      → sequence (some e) ≡ pos (suc k)
      → forward e (out, last) ≡ ((out ++ e ∷ [], pos (suc k)), none)
  unfolding forward
  forward_one e k out last h = ground arith

  forward_loop :
      (es : List (StreamEvent B)) (j k : ℕ) (out : List (StreamEvent B))
      → Sequential k es
      → playback_loop forward es (out, pos j) ≡ ((out ++ es, last_number j k es), none)
  unfolding last_number
  forward_loop [] j k out h = rw (append-nil out) (unfold playback_loop in refl)
  forward_loop (e ∷ es) j k out h =
      playback_loop-next forward e es (out, pos j) (out ++ e ∷ [], pos (suc k))
        (forward_one e k out (pos j) h.0)
      ∙ forward_loop es (suc k) (suc k) (out ++ e ∷ []) h.1
      ∙ ap (λ l. ((l, last_number (suc k) (suc k) es), none)) (append_assoc out (e ∷ []) es)

  -- From a cursor the last number is the cursor, or the number of events seen.
  last_number-eq-max :
      (es : List (StreamEvent B)) (j k : ℕ)
      → j ≤ k
      → last_number j k es ≡ pos (if leb (length es) 0 then j else k + length es)
  unfolding last_number
  last_number-eq-max [] j k h = refl
  last_number-eq-max (e ∷ []) j k h = ap pos (omega arith)
  last_number-eq-max (e ∷ x ∷ es) j k h =
      last_number-eq-max (x ∷ es) (suc k) (suc k) (omega arith) ∙ ap pos (ground arith)

  catch_up_before :
      (first e : StreamEvent B) (j k : ℕ) (out : List (StreamEvent B))
      → sequence (some first) ≡ pos k
      → sequence (some e) ≡ pos (suc j)
      → suc j ≤ k
      → catch_up first e out ≡ (out ++ e ∷ [], none)
  unfolding catch_up
  catch_up_before first e j k out f h lt = ground arith

  catch_up_after :
      (first e : StreamEvent B) (j k : ℕ) (out : List (StreamEvent B))
      → sequence (some first) ≡ pos k
      → sequence (some e) ≡ pos (suc j)
      → k ≤ j
      → catch_up first e out ≡ (out, some caught_up)
  unfolding catch_up
  catch_up_after first e j k out f h lt = ground arith

  pub catch_loop :
      (first : StreamEvent B) (k : ℕ) (es : List (StreamEvent B)) (j : ℕ)
      (out : List (StreamEvent B))
      → sequence (some first) ≡ pos k
      → Sequential j es
      → (playback_loop (catch_up first) es out).0 ≡ out ++ take (k - j) es
  catch_loop first k [] j out f h =
      unfold playback_loop in sym (ap (λ l. out ++ l) (nil_take (k - j)) ∙ append-nil out)
    where
      nil_take : (n : ℕ) → take {A = StreamEvent B} n [] ≡ []
      nil_take = elim [ zero ↦ refl | suc n ↦ refl ]
  catch_loop first k (e ∷ es) j out f h = elim (dec_le (suc j) k) [
    | yes p ↦
        ap (λ r. r.0)
          (playback_loop-next (catch_up first) e es out (out ++ e ∷ [])
            (catch_up_before first e j k out f h.0 p))
        ∙ catch_loop first k es (suc j) (out ++ e ∷ []) f h.1
        ∙ append_assoc out (e ∷ []) (take (k - suc j) es)
        ∙ let q : k - j ≡ suc (k - suc j) = omega arith in rw q
    | no p ↦
        ap (λ r. r.0)
          (playback_loop-stop (catch_up first) e es out out caught_up
            (catch_up_after first e j k out f h.0 (omega arith)))
        ∙ let q : k - j ≡ 0 = omega arith in rw q (sym (append-nil out))
  ]

  -- The two playbacks, from a cursor that is not beyond the events at the time of subscribing.
  playback-forward :
      (s n1 : ℕ) (log : List (StreamEvent B))
      → Sequential 0 log
      → n1 ≤ length log
      → playback forward (pos s) (seen n1 log) ([], pos s)
        ≡ some ((drop s (take n1 log), pos (max s n1)), none)
  playback-forward s n1 log h len = elim (dec_le n1 s) [
    | yes p ↦
        playback_past forward s (seen n1 log) ([], pos s) (omega (arith, length-take_le n1 log len))
        ∙ let e : drop s (take n1 log) ≡ [] =
            drop_all s (take n1 log) (omega (arith, length-take_le n1 log len)) in
          let q : max s n1 ≡ s = omega arith in rw (e, q)
    | no p ↦
        playback_within forward s (seen n1 log) ([], pos s)
          (omega (arith, length-take_le n1 log len))
        ∙ ap some (
            forward_loop (drop s (take n1 log)) s s []
              (Sequential-drop_0 s (take n1 log) (Sequential-take n1 0 log h)))
        ∙ ap (λ l. some ((drop s (take n1 log), l), none))
            (last_number-eq-max (drop s (take n1 log)) s s (omega arith)
              ∙ ap pos (ground (arith, length-drop s (take n1 log), length-take_le n1 log)))
  ]

  playback-catch_up :
      (first : StreamEvent B) (t k m : ℕ) (log out : List (StreamEvent B))
      → sequence (some first) ≡ pos k
      → Sequential 0 log
      → k ≤ m
      → m ≤ length log
      → (r : Option Stop) × (playback (catch_up first) (pos t) (seen m log) out
          ≡ some (out ++ drop t (take k log), r))
  playback-catch_up first t k m log out f h le len = elim (dec_le m t) [
    | yes p ↦ (
      none,
      playback_past (catch_up first) t (seen m log) out (omega (arith, length-take_le m log len))
          ∙ let e : drop t (take k log) ≡ [] =
              drop_all t (take k log) (omega (arith, length-take_le k log)) in
            rw e (rw append-nil),
    )
    | no p ↦
        let l = drop t (take m log) in
        (
          (playback_loop (catch_up first) l out).1,
          playback_within (catch_up first) t (seen m log) out
                (omega (arith, length-take_le m log len))
              ∙ ap (λ o. some (o, (playback_loop (catch_up first) l out).1))
                  (catch_loop first k l t out f
                      (Sequential-drop_0 t (take m log) (Sequential-take m 0 log h))
                    ∙ ap (λ x. out ++ x) (take-drop-take k t m log le)),
        )
  ]

  -- The join of the two playbacks.
  joined :
      (s n1 k : ℕ) (log : List (StreamEvent B))
      → n1 ≤ k
      → drop s (take n1 log) ++ drop (max s n1) (take k log) ≡ drop s (take k log)
  joined s n1 k log h = elim (dec_le s n1) [
    | yes p ↦ let q : max s n1 ≡ n1 = omega arith in rw q (drop-append-drop s n1 k log p h)
    | no p ↦
        let q : max s n1 ≡ s = omega arith in
        let e : drop s (take n1 log) ≡ [] =
          drop_all s (take n1 log) (omega (arith, length-take n1 log)) in
        rw (q, e)
  ]

  -- For any filter and any cursor that is not negative: if every event of the log has a sequence number
  -- that Sequence reads (so none is a labels message) and these are 1, 2, …, and the first live event that
  -- passes the filter is the k-th of the log, where the first playback saw at most k events and the second
  -- one saw the k-th, then the consumer gets the events above the cursor up to the k-th,
  -- unfiltered, and then the live events that pass the filter after it.
  pub crossover_exact :
      (f : StreamEvent B → Bool) (s n1 n2 m k : ℕ) (log : List (StreamEvent B))
      (first : StreamEvent B) (live : List (StreamEvent B))
      → Sequential 0 log
      → n1 ≤ k
      → k ≤ m
      → m ≤ length log
      → passing f (drop n2 log) ≡ first ∷ live
      → sequence (some first) ≡ pos k
      → crossover f (pos s) n1 n2 m log ≡ some (drop s (take k log) ++ live)
  unfolding crossover
  crossover_exact f s n1 n2 m k log first live h nk km len p num =
      let (r, q) = playback-catch_up first (max s n1) k m log (drop s (take n1 log)) num h km len in
      ap (after_first (passing f (drop n2 log)) (seen m log))
        (playback-forward s n1 log h (omega arith))
      ∙ ap (λ l. go_live l (seen m log) (drop s (take n1 log)) (pos (max s n1))) p
      ∙ ap (copy_live live) q
      ∙ ap (λ l. some (l ++ live)) (joined s n1 k log nk)
