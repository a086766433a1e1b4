-- ===== src/Car/Compact/Examples.antt =====
-- The queue for seven shards of ten references each.
use referendum_services.Prelude.{ℕ, List, [], ◌∷◌, ◌++◌, ◌≡◌, refl, length}
use referendum_services.Prelude.Int.{pos}
use referendum_services.Car.Compact.{ShardStat, CompBucket, compaction_queue}
use referendum_services.Car.Compact.Queue.{shards_of, EndsAlone, compaction_queue-EndsAlone}

abbrev stat : ℕ → ShardStat ℕ
stat n = record { id = n; dirty = 0; seq = pos n; total = 10; refs = [] }

abbrev older : List (ShardStat ℕ)
older = stat 1 ∷ stat 2 ∷ stat 3 ∷ stat 4 ∷ stat 5 ∷ stat 6 ∷ []

abbrev sizes : List (CompBucket ℕ) → List ℕ
sizes [] = []
sizes (b ∷ bs) = length b.shards ∷ sizes bs

four_two_one : sizes (compaction_queue 70 (older ++ (stat 7 ∷ []))) ≡ 4 ∷ 2 ∷ 1 ∷ []
unfolding compaction_queue
four_two_one = refl

compaction_queue-EndsAlone_example :
    (shards_of (compaction_queue 70 (older ++ (stat 7 ∷ []))) ≡ older ++ (stat 7 ∷ []))
    × EndsAlone (stat 7) (compaction_queue 70 (older ++ (stat 7 ∷ [])))
compaction_queue-EndsAlone_example = compaction_queue-EndsAlone 70 older (stat 7)
