-- ===== src/Repo/Manager/Bodies.antt =====
-- The bodies of the writes and the actor of the session.
use referendum_services.Prelude.{String, List, [], ◌∷◌, Option, none, some, Bool, refl}
use referendum_services.Repo.Actions.{◌>>=◌, ret}
use referendum_services.Repo.ActorRepo
use referendum_services.Repo.ActorRepo.{Work, Outside, next_rev}
use referendum_services.Repo.ActorRepo.Session.{
  KeepsActor, KeepsActor-bind, KeepsActor-map, KeepsActor-create_record, KeepsActor-update_record,
  KeepsActor-delete_record, KeepsActor-next_rev,
}
use referendum_services.Repo.Manager.{
  Write, create_write, update_write, delete_write, empty_write, path_of, op_on, create_kind,
  update_kind, delete_kind, hydrated, rkey_of, apply_write, apply_writes, create_body, update_body,
  delete_body, batch_body,
}

module _ {Cid Block Rec Tree S : Type 0} (out : Outside Cid Block Rec Tree S) where
  KeepsActor-rkey_of : (o : Option String) → KeepsActor out (rkey_of out o)
  KeepsActor-rkey_of none w = KeepsActor-next_rev out w
  KeepsActor-rkey_of (some k) w = refl

  KeepsActor-apply_write : (h : Bool) (x : Write Rec) → KeepsActor out (apply_write out h x)
  unfolding apply_write
  KeepsActor-apply_write h (create_write nsid key rec) w =
      KeepsActor-bind out (rkey_of out key)
        (λ rkey. do
          cc ← ActorRepo.create_record out (path_of nsid rkey) rec
          ret (op_on out create_kind nsid rkey (some cc) (hydrated out h rec)))
        (KeepsActor-rkey_of key)
        (λ rkey.
          KeepsActor-map out (ActorRepo.create_record out (path_of nsid rkey) rec)
            (λ cc. op_on out create_kind nsid rkey (some cc) (hydrated out h rec))
            (KeepsActor-create_record out (path_of nsid rkey) rec))
        w
  KeepsActor-apply_write h (update_write nsid key rec) w =
      KeepsActor-map out (ActorRepo.update_record out (path_of nsid key) rec)
        (λ cc. op_on out update_kind nsid key (some cc) (hydrated out h rec))
        (KeepsActor-update_record out (path_of nsid key) rec) w
  KeepsActor-apply_write h (delete_write nsid key) w =
      KeepsActor-map out (ActorRepo.delete_record out (path_of nsid key))
        (λ u. op_on out delete_kind nsid key none none)
        (KeepsActor-delete_record out (path_of nsid key)) w
  KeepsActor-apply_write h empty_write w = refl

  KeepsActor-apply_writes :
      (h : Bool) (xs : List (Write Rec)) → KeepsActor out (apply_writes out h xs)
  unfolding apply_writes
  KeepsActor-apply_writes h [] w = refl
  KeepsActor-apply_writes h (x ∷ xs) w =
      KeepsActor-bind out (apply_write out h x)
        (λ op. do ops ← apply_writes out h xs; ret (op ∷ ops)) (KeepsActor-apply_write h x)
        (λ op.
          KeepsActor-map out (apply_writes out h xs) (λ ops. op ∷ ops)
            (KeepsActor-apply_writes h xs))
        w

  pub keeps_create : (nsid key : String) (rec : Rec) → KeepsActor out (create_body out nsid key rec)
  keeps_create nsid key rec =
      KeepsActor-map out (ActorRepo.create_record out (path_of nsid key) rec)
        (λ cc. ((cc, key), op_on out create_kind nsid key (some cc) (some rec) ∷ []))
        (KeepsActor-create_record out (path_of nsid key) rec)

  pub keeps_update :
      (h : Bool) (nsid key : String) (rec : Rec) → KeepsActor out (update_body out h nsid key rec)
  keeps_update h nsid key rec =
      KeepsActor-map out (ActorRepo.update_record out (path_of nsid key) rec)
        (λ cc. (cc, op_on out update_kind nsid key (some cc) (hydrated out h rec) ∷ []))
        (KeepsActor-update_record out (path_of nsid key) rec)

  pub keeps_delete : (nsid key : String) → KeepsActor out (delete_body out nsid key)
  keeps_delete nsid key =
      KeepsActor-map out (ActorRepo.delete_record out (path_of nsid key))
        (λ u. (tt, op_on out delete_kind nsid key none none ∷ []))
        (KeepsActor-delete_record out (path_of nsid key))

  pub keeps_batch : (h : Bool) (xs : List (Write Rec)) → KeepsActor out (batch_body out h xs)
  keeps_batch h xs =
      KeepsActor-map out (apply_writes out h xs) (λ ops. (tt, ops)) (KeepsActor-apply_writes h xs)
