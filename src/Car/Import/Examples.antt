-- ===== src/Car/Import/Examples.antt =====
-- An import of two blocks into a new actor's session, and the diff of a session with one block over a
-- base that has the old root alone. A block's CID is its first number; its links are its numbers.
use referendum_services.Prelude.{
  ℕ, List, [], ◌∷◌, Option, none, some, Bool, true, false, ◌⊎◌, inl, inr, ◌≡◌, refl, ℕ_discrete,
  ◌==◌, if◌then◌else◌,
}
use referendum_services.Prelude.Int.{pos}
use referendum_services.Prelude.Dict.{put}
use referendum_services.Car.Shard.{Bytes, Shard}
use referendum_services.Car.Session.{
  StoreError, not_found, DeltaSession, Store, Backend, put_many, new_delta_session,
}
use referendum_services.Car.Diff.{marked}
use referendum_services.Car.Import.{CarFile, import_slice, calc_diff}
use referendum_services.Car.Import.Facts.{import_slice-put_many, calc_diff-keeps}
use mathlib.Core.List.Memᴰ.{Memᴰ}

abbrev no_shard : Shard ℕ
no_shard = record { id = 0; root = 0; data_start = 0; seq = pos 0; path = ""; aid = 5; rev = "" }

abbrev empty_db : Backend ℕ ℕ
empty_db = record {
  undef_cid = 0;
  last_row = λ actor s. some (some no_shard);
  begin_tx = λ s. some s;
  create_shard = λ sh s. (none, s);
  create_batch = λ refs s. (true, s);
  commit_tx = λ s. some s;
  put_file = λ actor seq b s. (none, s);
}

abbrev first_number : List ℕ → ℕ
first_number [] = 0
first_number (b ∷ bs) = b

abbrev two_blocks : List (List ℕ)
two_blocks = (7 ∷ 8 ∷ []) ∷ (8 ∷ []) ∷ []

abbrev reads : Bytes → Option (CarFile ℕ (List ℕ))
reads slice = some (record { roots = 7 ∷ []; blocks = two_blocks; at_eof = true })

abbrev before : Store ℕ ℕ
before = record { cache = []; db = 0 }

abbrev after : Store ℕ ℕ
after = record { cache = (5, no_shard) ∷ []; db = 0 }

abbrev fresh_session : DeltaSession ℕ (List ℕ)
fresh_session = record {
  blks = [];
  rmcids = [];
  actor = 5;
  base_cid = 0;
  seq = pos 1;
  readonly = false;
  last_rev = "";
}

session_opened : new_delta_session empty_db ℕ_discrete 5 none before ≡ (inr fresh_session, after)
unfolding new_delta_session
session_opened = refl

import_slice-put_many_example :
    (ds' : DeltaSession ℕ (List ℕ)) × (put_many ℕ_discrete first_number two_blocks fresh_session
      ≡ inr ds')
    × (import_slice ℕ_discrete first_number empty_db ℕ_discrete reads 5 none [] before
        ≡ (inr (7, ds'), after))
import_slice-put_many_example =
    import_slice-put_many ℕ_discrete first_number empty_db ℕ_discrete reads 5 none [] 7 two_blocks
      before after fresh_session refl session_opened refl

abbrev one_stored : ℕ → StoreError ⊎ List ℕ
one_stored c = if c == 1 then inr (1 ∷ []) else inl not_found

abbrev later_links : List ℕ → Option (List ℕ)
later_links [] = none
later_links (b ∷ bs) = some bs

abbrev always : ℕ → Bool
always c = true

abbrev over_one : DeltaSession ℕ (List ℕ)
over_one = record fresh_session { blks = (5, 5 ∷ []) ∷ []; base_cid = 1 }

abbrev over_one_diff : DeltaSession ℕ (List ℕ)
over_one_diff = record over_one { rmcids = (1, true) ∷ [] }

diff_found :
    calc_diff ℕ_discrete one_stored later_links always always 1 over_one ≡ some (inr over_one_diff)
unfolding calc_diff put ℕ_discrete
diff_found = refl

calc_diff-keeps_example :
    (over_one_diff ≡ record over_one { rmcids = over_one_diff.rmcids })
    × ((k : ℕ) (b : List ℕ)
        → Memᴰ (k, b) over_one.blks
        → marked ℕ_discrete over_one_diff.rmcids k ≡ false)
calc_diff-keeps_example =
    calc_diff-keeps ℕ_discrete one_stored later_links always always 1 over_one over_one_diff
      diff_found
