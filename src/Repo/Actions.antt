-- ===== src/Repo/Actions.antt =====
-- Go functions that return an error beside their value and change what they are given: actions on a
-- state that return a result or an error. The state stays as it is where an error stopped the action.
use referendum_services.Prelude.{◌≡◌, refl, ◌⊎◌, inl, inr, Option, none, some, arith}

pub data RepoError : Type 0 where
  store_failed mst_failed encoding_failed decoding_failed signing_failed bad_version unset_did
        no_tid missing_did missing_actor no_operation wrong_cid wrong_did bad_signature bad_path
        bad_base bad_kind no_fuel :
      RepoError

abbrev pub Action : Type 0 → Type 0 → Type 0
Action W A = W → (RepoError ⊎ A) × W

abbrev pub and_then :
    {W A B : Type 0} → (A → Action W B) → (RepoError ⊎ A) × W → (RepoError ⊎ B) × W
and_then f (inl x, w) = (inl x, w)
and_then f (inr a, w) = f a w

infixl 5 ◌>>=◌ ◌>>◌
abbrev pub ◌>>=◌ : {W A B : Type 0} → Action W A → (A → Action W B) → Action W B
m >>= f = λ w. and_then f (m w)

abbrev pub ◌>>◌ : {W B : Type 0} → Action W (Unit {0}) → Action W B → Action W B
m >> k = λ w. and_then (λ u. k) (m w)

abbrev pub ret : {W A : Type 0} → A → Action W A
ret a = λ w. (inr a, w)

abbrev pub fail : {W A : Type 0} → RepoError → Action W A
fail x = λ w. (inl x, w)

abbrev pub of_option : {W A : Type 0} → RepoError → Option A → Action W A
of_option x none = fail x
of_option x (some a) = ret a

-- An action that succeeded, taken apart at its first step.
pub and_then-eq-inr :
    {W A B : Type 0} (f : A → Action W B) (r : (RepoError ⊎ A) × W) {b : B} {w' : W}
    → and_then f r ≡ (inr b, w')
    → (a : A) × (w : W) × (r ≡ (inr a, w)) × (f a w ≡ (inr b, w'))
and_then-eq-inr f (inl x, w) e = absurd (ground (arith, e))
and_then-eq-inr f (inr a, w) e = (a, w, refl, e)
