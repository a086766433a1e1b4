-- ===== src/Events/Persist.antt =====
-- internal/events/persist.go: the in-memory persister. Each method holds the lock, so it is one step
-- from a state to the next; events are values, so a caller hands in an event once. `broadcast` is the
-- callback that SetEventBroadcaster stored: it may change the event (which the buffer shares) and the
-- world of its own, and its Boolean says whether it panicked. Flush and Shutdown do nothing, and
-- TakeDownRepo always returns an error.
pub mod Loop
pub mod Numbers
pub mod Replay
mod Examples
use referendum_services.Prelude.{
  ℕ, List, [], ◌∷◌, ◌++◌, Option, none, some, Bool, true, false, leb, if◌then◌else◌, length, drop,
}
use referendum_services.Prelude.Int.{ℤ, pos, negsuc, inc_int64}
use referendum_services.Events.Event.{Sequenced, Labels, StreamEvent}

pub record MemPersister (B : Type 0) : Type 0 where
  pub buf : List (StreamEvent B)
  pub seq : ℤ

-- `NewMemPersister`.
abbrev pub new_mem_persister : {B : Type 0} → MemPersister B
new_mem_persister = record { buf = []; seq = pos 0 }

module _ {B : Type 0} where
  abbrev pub renumber : ℤ → Sequenced B → Sequenced B
  renumber n x = record x { seq = n }

  -- The switch of Persist, which writes the number into the first payload that it lists; `none` is its
  -- `default`, the panic.
  unfoldable pub assign : ℤ → StreamEvent B → Option (StreamEvent B)
  assign n e = elim e.repo_commit [
    | some x ↦ some (record e { repo_commit = some (renumber n x) })
    | none ↦ elim e.repo_handle [
      | some x ↦ some (record e { repo_handle = some (renumber n x) })
      | none ↦ elim e.repo_identity [
        | some x ↦ some (record e { repo_identity = some (renumber n x) })
        | none ↦ elim e.repo_account [
          | some x ↦ some (record e { repo_account = some (renumber n x) })
          | none ↦ elim e.repo_migrate [
            | some x ↦ some (record e { repo_migrate = some (renumber n x) })
            | none ↦ elim e.repo_tombstone [
              | some x ↦ some (record e { repo_tombstone = some (renumber n x) })
              | none ↦ elim e.label_labels [
                | some x ↦ some (record e { label_labels = some (record x { seq = n }) })
                | none ↦ none
              ]
            ]
          ]
        ]
      ]
    ]
  ]

  module _ {W : Type 0} (broadcast : StreamEvent B → W → StreamEvent B × W × Bool) where
    abbrev append : ℤ → MemPersister B → StreamEvent B × W × Bool → MemPersister B × W × Bool
    append n mp (e, w, panicked) = (record { buf = mp.buf ++ e ∷ []; seq = n }, w, panicked)

    abbrev pub numbered_or :
        ℤ → MemPersister B → W → Option (StreamEvent B) → MemPersister B × W × Bool
    numbered_or n mp w none = (record mp { seq = n }, w, true)
    numbered_or n mp w (some e) = append n mp (broadcast e w)

    -- The number is taken before the switch may panic; the Boolean says whether the call panicked.
    unfoldable pub persist : StreamEvent B → MemPersister B → W → MemPersister B × W × Bool
    persist e mp w = let n = inc_int64 mp.seq in numbered_or n mp w (assign n e)

    -- One event after another.
    unfoldable pub persist_all : List (StreamEvent B) → MemPersister B → W → MemPersister B × W
    unfolding persist
    persist_all [] mp w = (mp, w)
    persist_all (e ∷ es) mp w = let (mp', w', p) = persist e mp w in persist_all es mp' w'

  -- The callback of Playback keeps a state and may return an error.
  module _ {S X : Type 0} (cb : StreamEvent B → S → S × Option X) where
    -- `if err := cb(e); err != nil { return err }`.
    abbrev pub unless_error : (S → S × Option X) → S × Option X → S × Option X
    unless_error next (s, none) = next s
    unless_error next (s, some x) = (s, some x)

    unfoldable pub playback_loop : List (StreamEvent B) → S → S × Option X
    playback_loop [] s = (s, none)
    playback_loop (e ∷ es) s = unless_error (playback_loop es) (cb e s)

    -- `mp.buf[since:l]`; a negative `since` is out of range, `none` is that panic.
    unfoldable pub playback : ℤ → MemPersister B → S → Option (S × Option X)
    unfolding playback_loop
    playback (pos n) mp s =
        if leb (length mp.buf) n then some (s, none) else some (playback_loop (drop n mp.buf) s)
    playback (negsuc n) mp s = none
