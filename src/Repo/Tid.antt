-- ===== src/Repo/Tid.antt =====
-- internal/repo/tid.go: record keys made from the clock. A string is the list of its bytes, and the
-- package's variables `lastTime` and `clockId` are the fields of `Clock`. The lock makes each call
-- one step. `time.Now().UnixMicro()` is an argument.
pub mod Digits
pub mod RoundTrip
pub mod Order
mod Examples
use referendum_services.Prelude.{
  ℕ, zero, suc, ◌+◌, ◌/◌, ◌%◌, ◌^◌, List, [], ◌∷◌, ◌++◌, Option, none, some, ltb, leb, ◌==◌,
  if◌then◌else◌, get_elem?,
}
use referendum_services.Prelude.Text.{codes}

abbrev pub alpha : List ℕ
alpha = codes "234567abcdefghijklmnopqrstuvwxyz"

abbrev pub u64_mod : ℕ
u64_mod = 2 ^ 64

infixl 5 ◌>>=◌
abbrev pub ◌>>=◌ {ℓ} : {A B : Type ℓ} → Option A → (A → Option B) → Option B
none >>= f = none
some a >>= f = f a

-- The loop of `s32encode`: `c := i & 0x1f` is `i % 32`, `i >>= 5` is `i / 32`. The result is `none`
-- where the slice `alpha[c:c+1]` would be out of range, or where the fuel runs out.
pub s32_loop : ℕ → ℕ → List ℕ → Option (List ℕ)
s32_loop zero i s = if i == 0 then some s else none
s32_loop (suc f) i s =
    let rest = (do c ← get_elem? alpha (i % 32); s32_loop f (i / 32) (c ∷ s)) in
    if ltb 0 i then rest else some s

-- A uint64 has at most 13 digits of 5 bits.
unfoldable pub s32encode : ℕ → Option (List ℕ)
unfolding s32_loop
s32encode i = s32_loop 13 i []

pub record Clock : Type 0 where
  pub last_time : ℕ
  pub clock_id : ℕ

-- The time that a call of `NextTID` uses: later than every time used before, unless it wraps.
unfoldable pub tick : ℕ → Clock → ℕ
tick now k = let t = now % u64_mod in if leb t k.last_time then (k.last_time + 1) % u64_mod else t

unfoldable pub next_tid : ℕ → Clock → Option (List ℕ × Clock)
unfolding tick s32encode
next_tid now k = do
  let t = tick now k
  time ← s32encode t
  id ← s32encode k.clock_id
  some (time ++ id, record k { last_time = t })

-- Successive calls, one for each reading of the clock.
pub tids : List ℕ → Clock → Option (List (List ℕ))
unfolding next_tid
tids [] k = some []
tids (now ∷ nows) k = do (tid, k') ← next_tid now k; rest ← tids nows k'; some (tid ∷ rest)
