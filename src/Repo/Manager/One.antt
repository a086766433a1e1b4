-- ===== src/Repo/Manager/One.antt =====
-- A batch of one write beside the operation for one record.
use referendum_services.Prelude.{
  String, List, [], ◌∷◌, none, some, Bool, true, ◌≡◌, refl, sym, ap, ◌∙◌, ◌⊎◌, inl, inr, ℕ,
  ℕ_discrete, subst,
}
use referendum_services.Car.Shard.{Bytes}
use referendum_services.Car.Session.{DeltaSession, Store, StoreError, close_with_root}
use referendum_services.Repo.Actions.{RepoError, Action, and_then, ◌>>=◌, ret}
use referendum_services.Repo.ActorRepo
use referendum_services.Repo.ActorRepo.{Work, Outside, Repo, open_repo, opened}
use referendum_services.Repo.Manager.{
  World, Event, Op, create_write, update_write, delete_write, path_of, op_on, create_kind,
  update_kind, delete_kind, hydrated, of_session, open_result, worked, body_and_commit, repo_rev,
  open_session, finish_write, write_opened, write_session, write_from, write_repo, create_body,
  update_body, delete_body, batch_body, create_record, update_record, delete_record, apply_write,
  apply_writes, batch_write, send_event, defined,
}

module _ {Cid Block Rec Tree S : Type 0} (out : Outside Cid Block Rec Tree S) where
  abbrev Ops : Type 0
  Ops = List (Op Cid Rec)

  -- The same action with its result mapped.
  abbrev pub mapped : {W A B : Type 0} → (A → B) → (RepoError ⊎ A) × W → (RepoError ⊎ B) × W
  mapped g (inl x, w) = (inl x, w)
  mapped g (inr a, w) = (inr (g a), w)

  and_then-mapped :
      {W A B C : Type 0} (g : B → C) (f : A → Action W B) (f' : A → Action W C)
      (r : (RepoError ⊎ A) × W)
      → ((a : A) (w : W) → f' a w ≡ mapped g (f a w))
      → and_then f' r ≡ mapped g (and_then f r)
  and_then-mapped g f f' (inl x, w) h = refl
  and_then-mapped g f f' (inr a, w) h = h a w

  module _ {A B : Type 0} (g : A → B) (actor : ℕ) where
    abbrev on_ops : A × Ops → B × Ops
    on_ops (a, ops) = (g a, ops)

    finish_mapped :
        (rev : String) (head : Cid) (a : A) (ops : Ops) (c : Cid × String)
        (ds : DeltaSession Cid Block) (w : World Cid Rec S)
        → finish_write out actor rev head (((g a, ops), c), ds) w
          ≡ mapped g (finish_write out actor rev head (((a, ops), c), ds) w)
    finish_mapped rev head a ops (root, nrev) ds w = go (
        close_with_root out.back ℕ_discrete out.cid_bytes out.raw out.dump_header root nrev ds
          w.store)
      where
        event : Bytes → Event Cid Rec
        event slice = record {
          actor = actor;
          old_root = defined out head;
          new_root = root;
          since = some rev;
          rev = nrev;
          repo_slice = slice;
          pds = 0;
          ops = ops;
        }

        go :
            (r : (StoreError ⊎ Bytes) × Store Cid S)
            → and_then
                (λ slice u. (inr (g a), (send_event out (event slice) u).1))
                (of_session out w r)
              ≡ mapped g (
                  and_then
                    (λ slice u. (inr a, (send_event out (event slice) u).1))
                    (of_session out w r))
        go (inl x, st) = refl
        go (inr buf, st) = refl

    module _ (body : Action (Work Cid Block Tree S) (A × Ops))
        (body' : Action (Work Cid Block Tree S) (B × Ops))
        (same : (k : Work Cid Block Tree S) → body' k ≡ mapped on_ops (body k)) where
      abbrev on_commit : (A × Ops) × (Cid × String) → (B × Ops) × (Cid × String)
      on_commit (x, c) = (on_ops x, c)

      commit_mapped :
          (k : Work Cid Block Tree S)
          → body_and_commit out actor body' k ≡ mapped on_commit (body_and_commit out actor body k)
      commit_mapped k =
          ap (and_then (λ b. do c ← ActorRepo.commit out; ret (b, c))) (same k) ∙ go (body k)
        where
          inner :
              (b : A × Ops) (r : (RepoError ⊎ (Cid × String)) × Work Cid Block Tree S)
              → and_then (λ c w. (inr (on_ops b, c), w)) r
                ≡ mapped on_commit (and_then (λ c w. (inr (b, c), w)) r)
          inner b (inl x, w) = refl
          inner b (inr c, w) = refl

          go :
              (r : (RepoError ⊎ (A × Ops)) × Work Cid Block Tree S)
              → and_then (λ b. do c ← ActorRepo.commit out; ret (b, c)) (mapped on_ops r)
                ≡ mapped on_commit (and_then (λ b. do c ← ActorRepo.commit out; ret (b, c)) r)
          go (inl x, w) = refl
          go (inr b, w) = inner b (ActorRepo.commit out w)

      opened_mapped :
          (rev : String) (head : Cid) (r : Repo Cid Tree × DeltaSession Cid Block)
          (w : World Cid Rec S)
          → write_opened out actor body' rev head r w
            ≡ mapped g (write_opened out actor body rev head r w)
      opened_mapped rev head (r, ds) w =
          ap (λ x. and_then (finish_write out actor rev head) (worked out w x)) (commit_mapped work)
          ∙ go (body_and_commit out actor body work)
        where
          work : Work Cid Block Tree S
          work = record { repo = r; session = ds; clock = w.clock; db = w.store.db }

          go :
              (x : (RepoError ⊎ ((A × Ops) × (Cid × String))) × Work Cid Block Tree S)
              → and_then (finish_write out actor rev head) (worked out w (mapped on_commit x))
                ≡ mapped g (and_then (finish_write out actor rev head) (worked out w x))
          go (inl x, k) = refl
          go (inr ((a, ops), c), k) =
              finish_mapped rev head a ops c k.session (record w { clock = k.clock })

      session_mapped :
          (rev : String) (ds : DeltaSession Cid Block) (w : World Cid Rec S)
          → write_session out actor body' rev ds w
            ≡ mapped g (write_session out actor body rev ds w)
      session_mapped rev ds w =
          and_then-mapped g (write_opened out actor body rev ds.base_cid)
            (write_opened out actor body' rev ds.base_cid)
            (open_result out w (open_repo out w.store.db ds ds.base_cid))
            (opened_mapped rev ds.base_cid)

      write_repo-mapped :
          (w : World Cid Rec S)
          → write_repo out actor body' w ≡ mapped g (write_repo out actor body w)
      unfolding write_repo
      write_repo-mapped w =
          and_then-mapped g (write_from out actor body) (write_from out actor body')
            (repo_rev out actor w)
            λ rev v.
              and_then-mapped g (write_session out actor body rev)
                (write_session out actor body' rev) (open_session out actor (some rev) v)
                (session_mapped rev)

  -- What a body leaves as one operation, the batch's loop leaves as a list of one.
  one_body :
      {A : Type 0} (r : (RepoError ⊎ Cid) × Work Cid Block Tree S) (f : Cid → A)
      (op : Cid → Op Cid Rec)
      → and_then
          (λ ops k. (inr (tt, ops), k))
          (and_then (λ o k. (inr (o ∷ []), k)) (and_then (λ c k. (inr (op c), k)) r))
        ≡ mapped (on_ops {A = A} (λ y. tt) 0) (and_then (λ c k. (inr (f c, op c ∷ []), k)) r)
  one_body (inl x, k) f op = refl
  one_body (inr c, k) f op = refl

  one_deleted :
      (r : (RepoError ⊎ Unit {0}) × Work Cid Block Tree S) (op : Op Cid Rec)
      → and_then
          (λ ops k. (inr (tt, ops), k))
          (and_then (λ o k. (inr (o ∷ []), k)) (and_then (λ c k. (inr op, k)) r))
        ≡ mapped (on_ops (λ y. tt) 0) (and_then (λ c k. (inr (tt, op ∷ []), k)) r)
  one_deleted (inl x, k) op = refl
  one_deleted (inr c, k) op = refl

  -- A batch of one creation, update or deletion leaves the manager as CreateRecord, UpdateRecord or
  -- DeleteRecord does, and fails with the same errors; for a creation, where records are hydrated.
  pub batch_write-one :
      (actor : ℕ) (nsid key : String) (rec : Rec) (w : World Cid Rec S)
      → (w.hydrate_records ≡ true
          → batch_write out actor (create_write nsid (some key) rec ∷ []) w
            ≡ mapped (λ y. tt) (create_record out actor nsid key rec w))
        × (batch_write out actor (update_write nsid key rec ∷ []) w
            ≡ mapped (λ y. tt) (update_record out actor nsid key rec w))
        × (batch_write out actor (delete_write nsid key ∷ []) w
            ≡ mapped (λ y. tt) (delete_record out actor nsid key w))
  unfolding batch_write create_record update_record delete_record apply_writes apply_write
  batch_write-one actor nsid key rec w = (
    λ hyd.
        write_repo-mapped (λ y. tt) actor (create_body out nsid key rec)
          (batch_body out w.hydrate_records (create_write nsid (some key) rec ∷ []))
          (λ k.
            subst
              (λ (h : Bool).
                batch_body out h (create_write nsid (some key) rec ∷ []) k
                ≡ mapped (on_ops (λ y. tt) actor) (create_body out nsid key rec k))
              (sym hyd)
              (one_body (ActorRepo.create_record out (path_of nsid key) rec k) (λ c. (c, key))
                (λ c. op_on out create_kind nsid key (some c) (some rec))))
          w,
    write_repo-mapped (λ y. tt) actor (update_body out w.hydrate_records nsid key rec)
        (batch_body out w.hydrate_records (update_write nsid key rec ∷ []))
        (λ k.
          one_body (ActorRepo.update_record out (path_of nsid key) rec k) (λ c. c)
            (λ c. op_on out update_kind nsid key (some c) (hydrated out w.hydrate_records rec)))
        w,
    write_repo-mapped (λ y. tt) actor (delete_body out nsid key)
        (batch_body out w.hydrate_records (delete_write nsid key ∷ []))
        (λ k.
          one_deleted (ActorRepo.delete_record out (path_of nsid key) k)
            (op_on out delete_kind nsid key none none))
        w,
  )
