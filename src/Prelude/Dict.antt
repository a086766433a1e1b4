-- ===== src/Prelude/Dict.antt =====
-- Go's maps, as association lists over a key with decidable equality. A write replaces the entry
-- of its key in place or appends it; the order of the list stands for the order of a `range`.
use mathlib.Core.Path.{◌≡◌, refl}
use mathlib.Core.Logic.{ite, ◌≢◌}
use mathlib.Core.Option.{Option, none, some}
use mathlib.Core.List.{List, [], ◌∷◌}
use native.Mathlib.Omega.{arith}

abbrev pub Dict {ℓ} : Type ℓ → Type ℓ → Type ℓ
Dict K V = List (K × V)

module _ {ℓ} {K V : Type ℓ} (dec : Discrete K) where
  -- v, ok := d[k]
  unfoldable pub get : Dict K V → K → Option V
  get [] k = none
  get ((j, v) ∷ d) k = ite (dec j k) (some v) (get d k)

  -- d[k] = v
  unfoldable pub put : Dict K V → K → V → Dict K V
  put [] k v = (k, v) ∷ []
  put ((j, w) ∷ d) k v = let rest = put d k v in ite (dec j k) ((k, v) ∷ d) ((j, w) ∷ rest)

  -- delete(d, k)
  unfoldable pub del : Dict K V → K → Dict K V
  del [] k = []
  del ((j, v) ∷ d) k = let rest = del d k in ite (dec j k) rest ((j, v) ∷ rest)

  pub get-put :
      (d : Dict K V) (k j : K) (v : V) → get (put d k v) j ≡ ite (dec k j) (some v) (get d j)
  unfolding get put
  get-put [] k j v = refl
  get-put ((i, w) ∷ d) k j v = ground (arith, get-put d k j v)

  pub get-del : (d : Dict K V) (k j : K) → get (del d k) j ≡ ite (dec k j) none (get d j)
  unfolding get del
  get-del [] k j = ground arith
  get-del ((i, w) ∷ d) k j = ground (arith, get-del d k j)

  pub get-put_self : (d : Dict K V) (k : K) (v : V) → get (put d k v) k ≡ some v
  get-put_self d k v = ground (arith, get-put d k k v)

  pub get-put_ne : (d : Dict K V) (k j : K) (v : V) → k ≢ j → get (put d k v) j ≡ get d j
  get-put_ne d k j v h = ground (arith, get-put d k j v)

  pub get-del_self : (d : Dict K V) (k : K) → get (del d k) k ≡ none
  get-del_self d k = ground (arith, get-del d k k)

  pub get-del_ne : (d : Dict K V) (k j : K) → k ≢ j → get (del d k) j ≡ get d j
  get-del_ne d k j h = ground (arith, get-del d k j)
