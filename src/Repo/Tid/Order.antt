-- ===== src/Repo/Tid/Order.antt =====
-- Record keys grow: each call of `NextTID` returns a text above all the texts returned before.
use referendum_services.Prelude.{
  ℕ, zero, suc, ◌+◌, ◌^◌, ◌<◌, ◌≤◌, ◌≡◌, refl, ap, List, [], ◌∷◌, ◌++◌, some, arith, ◌∙◌, length,
  length-append, All, All_map, append-nil,
}
use referendum_services.Prelude.Text.{◌<ₗ◌}
use referendum_services.Repo.Tid.{Clock, s32encode, tick, next_tid, tids}
use referendum_services.Repo.Tid.Digits.{
  digits, length-digits, digits-append-lt, s32_loop-eq-digits, s32_loop-zero,
}

-- A text of 11 digits and the id of the clock.
abbrev id_text : ℕ → List ℕ
id_text zero = []
id_text (suc id) = digits 1 (suc id)

abbrev key : ℕ → ℕ → List ℕ
key t id = digits 11 t ++ id_text id

s32encode_time : (t : ℕ) → 32 ^ 10 ≤ t → t < 32 ^ 11 → s32encode t ≡ some (digits 11 t)
unfolding s32encode
s32encode_time t lo hi =
    s32_loop-eq-digits 10 13 t [] (omega arith) lo hi ∙ ap some (append-nil (digits 11 t))

s32encode_id : (id : ℕ) → id < 32 → s32encode id ≡ some (id_text id)
unfolding s32encode
s32encode_id zero h = s32_loop-zero 13 []
s32encode_id (suc id) h =
    s32_loop-eq-digits 0 13 (suc id) [] (omega arith) (omega arith) (omega arith)
    ∙ ap some (append-nil (digits 1 (suc id)))

tick_bounds :
    (now : ℕ) (k : Clock) (n : ℕ)
    → 32 ^ 10 ≤ now
    → now + suc n < 32 ^ 11
    → k.last_time + suc n < 32 ^ 11
    → (32 ^ 10 ≤ tick now k) × (k.last_time < tick now k) × (tick now k + n < 32 ^ 11)
unfolding tick
tick_bounds now k n lo hi last = ground arith

next_tid-eq-key :
    (now : ℕ) (k : Clock)
    → k.clock_id < 32
    → 32 ^ 10 ≤ tick now k
    → tick now k < 32 ^ 11
    → next_tid now k ≡ some (key (tick now k) k.clock_id, record k { last_time = tick now k })
unfolding next_tid
next_tid-eq-key now k hid lo hi =
    rw (s32encode_time (tick now k) lo hi) (rw (s32encode_id k.clock_id hid))

-- Each text lies above the one before it, the first above `prev`.
abbrev Above : List ℕ → List (List ℕ) → Type 0
Above prev [] = Unit
Above prev (t ∷ ts) = (prev <ₗ t) × Above t ts

abbrev pub Increasing : List (List ℕ) → Type 0
Increasing [] = Unit
Increasing (t ∷ ts) = Above t ts

Above-Increasing : (prev : List ℕ) (ts : List (List ℕ)) → Above prev ts → Increasing ts
Above-Increasing prev [] h = tt
Above-Increasing prev (t ∷ ts) h = h.1

-- 12 bytes, or 11 where the clock's id is 0, which `s32encode` writes as the empty text.
abbrev pub width : ℕ → ℕ
width zero = 11
width (suc id) = 12

length-key : (t id : ℕ) → length (key t id) ≡ width id
length-key t zero = omega (arith, length-append (digits 11 t) [], length-digits 11 t)
length-key t (suc id) = omega (
  arith,
  length-append (digits 11 t) (digits 1 (suc id)),
  length-digits 11 t,
  length-digits 1 (suc id),
)

abbrev InEpoch : ℕ → ℕ → Type 0
InEpoch n now = (32 ^ 10 ≤ now) × (now + n < 32 ^ 11)

run :
    (nows : List ℕ) (n : ℕ) (k : Clock)
    → k.clock_id < 32
    → length nows ≤ n
    → k.last_time + n < 32 ^ 11
    → All (InEpoch n) nows
    → (ts : List (List ℕ)) × (tids nows k ≡ some ts)
      × Above (key k.last_time k.clock_id) ts
      × All (λ t. length t ≡ width k.clock_id) ts
unfolding tids
run [] n k hid len last h = ([], refl, tt, tt)
run (now ∷ nows) zero k hid len last h = absurd (omega arith)
run (now ∷ nows) (suc n) k hid len last h =
    let (lo, lt, hi) = tick_bounds now k n h.0.0 h.0.1 last in
    let k' : Clock = record k { last_time = tick now k } in
    let (ts, e, up, ls) =
      run nows n k' hid (omega arith) hi (All_map nows (λ r p. (p.0, omega arith)) h.1) in
    (
      key (tick now k) k.clock_id ∷ ts,
      rw (next_tid-eq-key now k hid lo (omega arith)) (rw e),
      (digits-append-lt 11 k.last_time (tick now k) _ lt (omega arith), up),
      (length-key (tick now k) k.clock_id, ls),
    )

-- For clock readings between 32 ^ 10 and 32 ^ 11 microseconds (from the year 2005 to 3111), with room
-- for one more microsecond for each call, and a clock id of 5 bits: every call succeeds, the texts
-- increase strictly in the order of strings whatever the clock reads, and all have the same length,
-- 12 bytes, or 11 if the clock id is 0.
pub tids-Increasing :
    (nows : List ℕ) (k : Clock)
    → k.clock_id < 32
    → k.last_time + length nows < 32 ^ 11
    → All (InEpoch (length nows)) nows
    → (ts : List (List ℕ)) × (tids nows k ≡ some ts)
      × Increasing ts
      × All (λ t. length t ≡ width k.clock_id) ts
tids-Increasing nows k hid last h =
    let (ts, e, up, ls) = run nows (length nows) k hid (omega arith) last h in
    (ts, e, Above-Increasing _ ts up, ls)
