-- ===== src/Repo/Tid/Examples.antt =====
-- Runs of tid.go.
use referendum_services.Prelude.{ℕ, ◌≤◌, ◌≡◌, refl, List, [], ◌∷◌, some, arith, length, All}
use referendum_services.Prelude.Text.{codes}
use referendum_services.Repo.Tid.{Clock, s32encode, tids}
use referendum_services.Repo.Tid.RoundTrip.{value, s32encode_roundtrip}
use referendum_services.Repo.Tid.Order.{Increasing, width, tids-Increasing}

encodes : s32encode 1732620278000000 ≡ some (codes "3lbtwg5aug2")
unfolding s32encode
encodes = refl

s32encode_roundtrip_example :
    (s : List ℕ) × (s32encode 1732620278000000 ≡ some s)
    × (value s ≡ 1732620278000000)
    × (length s ≤ 13)
s32encode_roundtrip_example = s32encode_roundtrip 1732620278000000 (omega arith)

abbrev clock : Clock
clock = record { last_time = 0; clock_id = 5 }

-- The clock stands still, then steps back.
abbrev readings : List ℕ
readings = 1732620278000000 ∷ 1732620278000000 ∷ 1732620277000000 ∷ []

tids-Increasing_example :
    (ts : List (List ℕ)) × (tids readings clock ≡ some ts)
    × Increasing ts
    × All (λ t. length t ≡ width 5) ts
tids-Increasing_example = tids-Increasing readings clock (omega arith) (omega arith) (omega arith)
