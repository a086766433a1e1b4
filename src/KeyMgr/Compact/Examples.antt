-- ===== src/KeyMgr/Compact/Examples.antt =====
-- A signature with R = 258 and an S above half of the order, 5 below it.
use referendum_services.Prelude.{
  ℕ, ◌+◌, ◌-◌, ◌≤◌, List, [], Option, some, ◌≡◌, refl, arith, length, take, drop, ◌⊎◌, inr,
}
use referendum_services.Prelude.Int.{ℤ, pos}
use referendum_services.KeyMgr.Compact.{curve_n, half_n, convert_der_to_compact}
use referendum_services.KeyMgr.Compact.Bytes.{be_from}
use referendum_services.KeyMgr.Compact.Layout.{convert_der_to_compact-low}

abbrev high_s : ℕ
high_s = curve_n - 5

abbrev decoded : List ℕ → Option (ℤ × ℤ)
decoded der = some (pos 258, pos high_s)

convert_der_to_compact-low_example :
    (c : List ℕ) × (low : ℕ) × (convert_der_to_compact decoded [] ≡ inr c)
    × (length c ≡ 64)
    × (be_from 0 (take 32 c) ≡ 258)
    × (be_from 0 (drop 32 c) ≡ low)
    × (low ≤ half_n)
    × ((low ≡ high_s) ⊎ (low + high_s ≡ curve_n))
convert_der_to_compact-low_example =
    convert_der_to_compact-low decoded [] 258 high_s refl (omega arith) (omega arith)
