-- ===== src/Events/Persist/Examples.antt =====
-- Runs of persist.go.
use referendum_services.Prelude.{
  ℕ, ◌+◌, List, [], ◌∷◌, ◌++◌, Option, none, some, Bool, true, false, ◌≡◌, refl, arith, length, map,
}
use referendum_services.Prelude.Int.{pos}
use referendum_services.Events.Event.{StreamEvent, Sequenced, empty_event}
use referendum_services.Events.Persist.{
  MemPersister, new_mem_persister, assign, persist, persist_all, playback,
}
use referendum_services.Events.Persist.Numbers.{
  number, content, IsPersistable, IsValid, persist_all-IsValid, new-IsValid, persist-IsValid,
}
use referendum_services.Events.Persist.Replay.{above, Delivers, playback_exact, persist_sync_loses}

abbrev silent : StreamEvent ℕ → Unit {0} → StreamEvent ℕ × Unit {0} × Bool
silent e w = (e, w, false)

silent_keeps : (e : StreamEvent ℕ) (w : Unit {0}) → number (silent e w).0 ≡ number e
silent_keeps e w = refl

silent_same : (e : StreamEvent ℕ) (w : Unit {0}) → content (silent e w).0 ≡ content e
silent_same e w = refl

abbrev some_commit : StreamEvent ℕ
some_commit = record empty_event {
  repo_commit = some (record { seq = pos 0; did = "did:plc:a"; body = 7 });
}

abbrev some_sync : Sequenced ℕ
some_sync = record { seq = pos 0; did = "did:plc:a"; body = 8 }

commit-IsPersistable : IsPersistable some_commit
unfolding assign
commit-IsPersistable n = refl

abbrev collect : StreamEvent ℕ → List (StreamEvent ℕ) → List (StreamEvent ℕ) × Option (Unit {0})
collect e l = (l ++ e ∷ [], none)

persist-IsValid_example :
    IsValid (persist silent some_commit new_mem_persister tt).0
    × (length (persist silent some_commit new_mem_persister tt).0.buf ≡ 0 + 1)
persist-IsValid_example =
    persist-IsValid silent silent_keeps some_commit new_mem_persister tt commit-IsPersistable
      new-IsValid (omega arith)

abbrev two : List (StreamEvent ℕ)
two = some_commit ∷ some_commit ∷ []

persist_all-IsValid_example :
    IsValid (persist_all silent two new_mem_persister tt).0
    × (map content (persist_all silent two new_mem_persister tt).0.buf ≡ map content two)
persist_all-IsValid_example =
    persist_all-IsValid silent silent_keeps silent_same two tt
      (commit-IsPersistable, (commit-IsPersistable, tt)) (omega arith)

abbrev filled : MemPersister ℕ
filled = (persist_all silent two new_mem_persister tt).0

playback_exact_example :
    (r : List (StreamEvent ℕ) × Option (Unit {0})) × (playback collect (pos 1) filled [] ≡ some r)
    × Delivers collect (above 1 filled.buf) [] r
playback_exact_example = playback_exact collect 1 filled [] persist_all-IsValid_from_two
  where
    persist_all-IsValid_from_two : IsValid filled
    persist_all-IsValid_from_two =
        (persist_all-IsValid silent silent_keeps silent_same two tt
          (commit-IsPersistable, (commit-IsPersistable, tt)) (omega arith)).0

persist_sync_loses_example :
    let r =
      persist silent (record empty_event { repo_sync = some some_sync }) new_mem_persister tt in
    let next = (persist silent some_commit r.0 r.1).0 in
    (r.2 ≡ true)
    × ((last : StreamEvent ℕ) × (next.buf ≡ [] ++ last ∷ []) × (number last ≡ some (pos (0 + 2))))
    × (playback collect (pos (0 + 1)) next [] ≡ some ([], none))
persist_sync_loses_example =
    persist_sync_loses silent silent_keeps collect [] some_sync some_commit new_mem_persister tt
      commit-IsPersistable new-IsValid (omega arith)
