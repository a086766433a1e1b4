-- ===== src/Events/Subscribe/Examples.antt =====
-- Runs of the crossover: five commits, of which two are stored when the first playback starts, three
-- when the subscriber is added, and four when the second playback starts.
use referendum_services.Prelude.{
  ℕ, List, [], ◌∷◌, ◌++◌, none, some, Bool, ◌≡◌, refl, arith, drop, ltb,
}
use referendum_services.Prelude.Int.{pos}
use referendum_services.Events.Event.{StreamEvent, empty_event, sequence}
use referendum_services.Events.Manager.Slow.{passing}
use referendum_services.Events.Subscribe.{crossover}
use referendum_services.Events.Subscribe.Crossover.{Sequential, crossover_exact}

abbrev nth : ℕ → StreamEvent ℕ
nth n = record empty_event {
  repo_commit = some (record { seq = pos n; did = "did:plc:a"; body = n });
}

abbrev five : List (StreamEvent ℕ)
five = nth 1 ∷ nth 2 ∷ nth 3 ∷ nth 4 ∷ nth 5 ∷ []

five-Sequential : Sequential 0 five
unfolding sequence
five-Sequential = (refl, (refl, (refl, (refl, (refl, tt)))))

-- A filter that lets only the fifth event pass.
abbrev is_late : StreamEvent ℕ → Bool
is_late e = elim e.repo_commit [
  | none ↦ Bool.false
  | some x ↦ elim x.seq [ pos n ↦ ltb 4 n | _ ↦ Bool.false ]
]

late_first : passing is_late (drop 3 five) ≡ nth 5 ∷ []
unfolding passing
late_first = refl

fifth : sequence (some (nth 5)) ≡ pos 5
unfolding sequence
fifth = refl

crossover_exact_example : crossover is_late (pos 1) 2 3 5 five ≡ some (drop 1 five ++ [])
crossover_exact_example =
    crossover_exact is_late 1 2 3 5 5 five (nth 5) [] five-Sequential (omega arith) (omega arith)
      (omega arith) late_first fifth
