-- ===== src/Repo/ActorRepo/Session.antt =====
-- A repository's operations and the actor of the session.
use referendum_services.Prelude.{String, ◌≡◌, refl, ◌∙◌, arith, ◌⊎◌, inl, inr}
use referendum_services.Repo.Actions.{RepoError, mst_failed, Action, and_then, ◌>>=◌, ret}
use referendum_services.Repo.ActorRepo.{
  Work, Outside, call, get_mst, repo_did, create_record, update_record, delete_record, next_rev,
  commit, put_signed, UnsignedCommit, unsigned_commit, put_root,
}

module _ {Cid Block Rec Tree S : Type 0} (out : Outside Cid Block Rec Tree S) where
  abbrev pub KeepsActor : {A : Type 0} → Action (Work Cid Block Tree S) A → Type 0
  KeepsActor m = (w : Work Cid Block Tree S) → (m w).1.session.actor ≡ w.session.actor

  pub KeepsActor-bind :
      {A B : Type 0} (m : Action (Work Cid Block Tree S) A)
      (f : A → Action (Work Cid Block Tree S) B)
      → KeepsActor m
      → ((a : A) → KeepsActor (f a))
      → KeepsActor (m >>= f)
  KeepsActor-bind {A} m f hm hf w = go (m w) (hm w)
    where
      go :
          (r : (RepoError ⊎ A) × Work Cid Block Tree S)
          → r.1.session.actor ≡ w.session.actor
          → (and_then f r).1.session.actor ≡ w.session.actor
      go (inl x, w') e = e
      go (inr a, w') e = hf a w' ∙ e

  pub KeepsActor-map :
      {A B : Type 0} (m : Action (Work Cid Block Tree S) A) (g : A → B)
      → KeepsActor m
      → KeepsActor (m >>= λ a. ret (g a))
  KeepsActor-map m g hm = KeepsActor-bind m (λ a. ret (g a)) hm (λ a w. refl)

  pub KeepsActor-next_rev : KeepsActor (next_rev out)
  KeepsActor-next_rev w = ground arith

  pub KeepsActor-create_record :
      (path : String) (rec : Rec) → KeepsActor (create_record out path rec)
  unfolding create_record get_mst
  KeepsActor-create_record path rec w = ground arith

  pub KeepsActor-update_record :
      (path : String) (rec : Rec) → KeepsActor (update_record out path rec)
  unfolding update_record get_mst
  KeepsActor-update_record path rec w = ground arith

  pub KeepsActor-delete_record : (path : String) → KeepsActor (delete_record out path)
  unfolding delete_record get_mst
  KeepsActor-delete_record path w = ground arith

  KeepsActor-repo_did : KeepsActor (repo_did out)
  unfolding repo_did
  KeepsActor-repo_did w = ground arith

  KeepsActor-put_signed : (u : UnsignedCommit Cid) → KeepsActor (put_signed out u)
  unfolding put_signed
  KeepsActor-put_signed u w = ground arith

  KeepsActor-put_rev :
      (did : String) (root : Cid)
      → KeepsActor (do rev ← next_rev out; put_signed out (unsigned_commit out did root rev))
  KeepsActor-put_rev did root =
      KeepsActor-bind (next_rev out) (λ rev. put_signed out (unsigned_commit out did root rev))
        KeepsActor-next_rev (λ rev. KeepsActor-put_signed (unsigned_commit out did root rev))

  KeepsActor-put_root : (root : Cid) → KeepsActor (put_root out root)
  KeepsActor-put_root root =
      KeepsActor-bind (repo_did out)
        (λ did. do rev ← next_rev out; put_signed out (unsigned_commit out did root rev))
        KeepsActor-repo_did (λ did. KeepsActor-put_rev did root)

  KeepsActor-pointer : (t : Tree) → KeepsActor (call out mst_failed (out.pointer t))
  KeepsActor-pointer t w = ground arith

  KeepsActor-get_mst : KeepsActor (get_mst out)
  unfolding get_mst
  KeepsActor-get_mst w = ground arith

  pub KeepsActor-commit : KeepsActor (commit out)
  unfolding commit
  KeepsActor-commit =
      KeepsActor-bind (get_mst out)
        (λ t. do root ← call out mst_failed (out.pointer t); put_root out root) KeepsActor-get_mst
        (λ t.
          KeepsActor-bind (call out mst_failed (out.pointer t)) (put_root out)
            (KeepsActor-pointer t) KeepsActor-put_root)
