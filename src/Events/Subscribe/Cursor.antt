-- ===== src/Events/Subscribe/Cursor.antt =====
-- The crossover for a subscriber that takes everything, for each place of the cursor.
use referendum_services.Prelude.{
  ℕ, zero, suc, ◌<◌, ◌≤◌, List, [], ◌∷◌, ◌++◌, Option, some, Bool, true, ◌≡◌, refl, arith, length,
  length-take, take, drop, ap, sym, ◌∙◌, drop_all, drop-take-append,
}
use referendum_services.Prelude.Int.{pos}
use referendum_services.Events.Event.{StreamEvent, sequence}
use referendum_services.Events.Manager.Slow.{passing}
use referendum_services.Events.Subscribe.{crossover}
use referendum_services.Events.Subscribe.Crossover.{Sequential, Sequential-drop_0, crossover_exact}

module _ {B : Type 0} where
  abbrev pub everything : StreamEvent B → Bool
  everything e = true

  passing-everything : (es : List (StreamEvent B)) → passing everything es ≡ es
  unfolding passing
  passing-everything [] = refl
  passing-everything (e ∷ es) = ap (◌∷◌ e) (passing-everything es)

  -- The event after the first `n`, and the rest.
  split_at :
      (n : ℕ) (es : List (StreamEvent B))
      → n < length es
      → (e : StreamEvent B) × (drop n es ≡ e ∷ drop (suc n) es)
  split_at zero [] h = absurd (omega arith)
  split_at zero (e ∷ es) h = (e, refl)
  split_at (suc n) [] h = absurd (omega arith)
  split_at (suc n) (e ∷ es) h = split_at n es (omega arith)

  head_number :
      (n : ℕ) (es : List (StreamEvent B)) (e : StreamEvent B) (rest : List (StreamEvent B))
      → Sequential n es
      → es ≡ e ∷ rest
      → sequence (some e) ≡ pos (suc n)
  head_number n [] e rest h p = cc
  head_number n (x ∷ es) e rest h p = ap (λ l. sequence (head_or x l)) (sym p) ∙ h.0
    where
      head_or : StreamEvent B → List (StreamEvent B) → Option (StreamEvent B)
      head_or = λ d l. elim l [ [] ↦ some d | y ∷ ys ↦ some y ]

  take_whole : (es : List (StreamEvent B)) → take (length es) es ≡ es
  take_whole [] = refl
  take_whole (e ∷ es) = ap (◌∷◌ e) (take_whole es)

  crossover-everything :
      (s n1 n2 m : ℕ) (log : List (StreamEvent B))
      → Sequential 0 log
      → n1 ≤ n2
      → n2 < m
      → m ≤ length log
      → crossover everything (pos s) n1 n2 m log
        ≡ some (drop s (take (suc n2) log) ++ drop (suc n2) log)
  crossover-everything s n1 n2 m log h le lt len =
      let (first, q) = split_at n2 log (omega arith) in
      crossover_exact everything s n1 n2 m (suc n2) log first (drop (suc n2) log) h (omega arith) lt
        len (passing-everything (drop n2 log) ∙ q)
        (head_number n2 (drop n2 log) first (drop (suc n2) log) (Sequential-drop_0 n2 log h) q)

  -- If the persister's events are numbered 1, 2, … and the cursor is not beyond those stored when the
  -- subscriber is added, a consumer that takes everything gets exactly the events above its cursor,
  -- each once and in order, however many events arrive between the steps of the crossover.
  pub crossover_gapless :
      (s n1 n2 m : ℕ) (log : List (StreamEvent B))
      → Sequential 0 log
      → n1 ≤ n2
      → n2 < m
      → m ≤ length log
      → s ≤ n2
      → crossover everything (pos s) n1 n2 m log ≡ some (drop s log)
  crossover_gapless s n1 n2 m log h le lt len low =
      crossover-everything s n1 n2 m log h le lt len
      ∙ ap some (drop-take-append s (suc n2) log (omega arith))

  -- If the persister's events are numbered 1, 2, …, the consumer takes everything, an event arrives between
  -- the adding of the subscriber and the second playback, and the cursor lies beyond the events stored
  -- when the subscriber is added, then the first live event is lost, and the live events after it are
  -- sent even where they are not above the cursor.
  pub crossover_future :
      (s n1 n2 m : ℕ) (log : List (StreamEvent B))
      → Sequential 0 log
      → n1 ≤ n2
      → n2 < m
      → m ≤ length log
      → n2 < s
      → crossover everything (pos s) n1 n2 m log ≡ some (drop (suc n2) log)
  crossover_future s n1 n2 m log h le lt len high =
      crossover-everything s n1 n2 m log h le lt len
      ∙ let e : drop s (take (suc n2) log) ≡ [] =
          drop_all s (take (suc n2) log) (omega (arith, length-take (suc n2) log)) in
        rw e
