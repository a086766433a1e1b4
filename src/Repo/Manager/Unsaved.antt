-- ===== src/Repo/Manager/Unsaved.antt =====
-- Changes of a repository and its last commit.
use referendum_services.Prelude.{
  String, List, [], ◌∷◌, Option, none, some, Bool, ◌≡◌, refl, ◌∙◌, arith, ◌⊎◌, inl, inr,
}
use referendum_services.Repo.Actions.{RepoError, Action, and_then, ◌>>=◌, ret}
use referendum_services.Repo.ActorRepo
use referendum_services.Repo.ActorRepo.{Work, Outside, get_mst}
use referendum_services.Repo.Manager.{
  Write, create_write, update_write, delete_write, empty_write, path_of, op_on, create_kind,
  update_kind, delete_kind, hydrated, rkey_of, apply_write, apply_writes,
}

module _ {Cid Block Rec Tree S : Type 0} (out : Outside Cid Block Rec Tree S) where
  abbrev pub KeepsCommit : {A : Type 0} → Action (Work Cid Block Tree S) A → Type 0
  KeepsCommit m = (w : Work Cid Block Tree S) → (m w).1.repo.sc ≡ w.repo.sc

  KeepsCommit-bind :
      {A B : Type 0} (m : Action (Work Cid Block Tree S) A)
      (f : A → Action (Work Cid Block Tree S) B)
      → KeepsCommit m
      → ((a : A) → KeepsCommit (f a))
      → KeepsCommit (m >>= f)
  KeepsCommit-bind {A} m f hm hf w = go (m w) (hm w)
    where
      go :
          (r : (RepoError ⊎ A) × Work Cid Block Tree S)
          → r.1.repo.sc ≡ w.repo.sc
          → (and_then f r).1.repo.sc ≡ w.repo.sc
      go (inl x, w') e = e
      go (inr a, w') e = hf a w' ∙ e

  KeepsCommit-rkey_of : (o : Option String) → KeepsCommit (rkey_of out o)
  KeepsCommit-rkey_of none w = ground arith
  KeepsCommit-rkey_of (some k) w = refl

  keeps_created :
      (h : Bool) (nsid key : String) (rec : Rec)
      → KeepsCommit (do
        cc ← ActorRepo.create_record out (path_of nsid key) rec
        ret (op_on out create_kind nsid key (some cc) (hydrated out h rec)))
  unfolding ActorRepo.create_record get_mst
  keeps_created h nsid key rec w = ground arith

  keeps_updated :
      (h : Bool) (nsid key : String) (rec : Rec)
      → KeepsCommit (do
        cc ← ActorRepo.update_record out (path_of nsid key) rec
        ret (op_on out update_kind nsid key (some cc) (hydrated out h rec)))
  unfolding ActorRepo.update_record get_mst
  keeps_updated h nsid key rec w = ground arith

  keeps_deleted :
      (nsid key : String)
      → KeepsCommit (do
        u ← ActorRepo.delete_record out (path_of nsid key)
        ret (op_on out delete_kind nsid key none none))
  unfolding ActorRepo.delete_record get_mst
  keeps_deleted nsid key w = ground arith

  KeepsCommit-apply_write : (h : Bool) (x : Write Rec) → KeepsCommit (apply_write out h x)
  unfolding apply_write
  KeepsCommit-apply_write h (create_write nsid o rec) w =
      KeepsCommit-bind (rkey_of out o)
        (λ key. do
          cc ← ActorRepo.create_record out (path_of nsid key) rec
          ret (op_on out create_kind nsid key (some cc) (hydrated out h rec)))
        (KeepsCommit-rkey_of o) (λ key. keeps_created h nsid key rec) w
  KeepsCommit-apply_write h (update_write nsid key rec) w = keeps_updated h nsid key rec w
  KeepsCommit-apply_write h (delete_write nsid key) w = keeps_deleted nsid key w
  KeepsCommit-apply_write h empty_write w = refl

  pub KeepsCommit-apply_writes :
      (h : Bool) (xs : List (Write Rec)) → KeepsCommit (apply_writes out h xs)
  unfolding apply_writes
  KeepsCommit-apply_writes h [] w = refl
  KeepsCommit-apply_writes h (x ∷ xs) w =
      KeepsCommit-bind (apply_write out h x) (λ op. do ops ← apply_writes out h xs; ret (op ∷ ops))
        (KeepsCommit-apply_write h x)
        (λ op.
          KeepsCommit-bind (apply_writes out h xs) (λ ops. ret (op ∷ ops))
            (KeepsCommit-apply_writes h xs) (λ ops k. refl))
        w
