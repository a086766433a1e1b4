-- ===== src/Repo/Manager/Refinement.antt =====
-- The operations of an event against the map from paths to records that a Merkle search tree stands for.
use referendum_services.Prelude.{
  ℕ, String, List, [], ◌∷◌, Option, none, some, Bool, ◌≡◌, refl, sym, ap, subst, ◌∙◌, inr, arith,
  ite, String_discrete,
}
use referendum_services.Prelude.Dict.{Dict}
use referendum_services.Repo.Tid.{Clock, next_tid}
use referendum_services.Repo.Actions.{
  mst_failed, encoding_failed, Action, and_then, and_then-eq-inr, ◌>>=◌, ◌>>◌, ret,
}
use referendum_services.Repo.ActorRepo
use referendum_services.Repo.ActorRepo.{
  Work, Outside, Call, returned, call, get_mst, in_hand, next_rev, taken, Repo,
}
use referendum_services.Repo.Manager.{
  Op, Write, create_write, update_write, delete_write, empty_write, create_kind, path_of, op_on,
  hydrated, rkey_of, apply_write, apply_writes,
}

module _ {Cid Block Rec Tree S : Type 0} (out : Outside Cid Block Rec Tree S)
    (view : Tree → String → Option Cid) where
  abbrev pub Paths : Type 0
  Paths = String → Option Cid

  abbrev pub with_path : String → Option Cid → Paths → Paths
  with_path p c m q = ite (String_discrete p q) c (m q)

  -- A successful Add, Update or Delete makes a tree that stands for the changed map.
  abbrev pub IsMap : Type 0
  IsMap =
      ((t t' : Tree) (p : String) (c : Cid) (db : S) (ds : _) (d : _)
        → out.add t p c db ds ≡ (some t', d)
        → (q : String) → view t' q ≡ with_path p (some c) (view t) q)
      × ((t t' : Tree) (p : String) (c : Cid) (db : S) (ds : _) (d : _)
          → out.update t p c db ds ≡ (some t', d)
          → (q : String) → view t' q ≡ with_path p (some c) (view t) q)
      × ((t t' : Tree) (p : String) (db : S) (ds : _) (d : _)
          → out.delete t p db ds ≡ (some t', d)
          → (q : String) → view t' q ≡ with_path p none (view t) q)

  abbrev pub tree_of : Option Tree → Cid → Tree
  tree_of none c = out.load_tree c
  tree_of (some t) c = t

  -- The map that an open repository stands for.
  abbrev pub paths : Work Cid Block Tree S → Paths
  paths k = view (tree_of k.repo.tree k.repo.sc.data_cid)

  -- What a consumer of the event does to its own map.
  unfoldable pub apply_op : Op Cid Rec → Paths → Paths
  apply_op op = with_path (path_of op.collection op.rkey) op.rec_cid

  unfoldable pub apply_ops : List (Op Cid Rec) → Paths → Paths
  unfolding apply_op
  apply_ops [] m = m
  apply_ops (op ∷ ops) m = apply_ops ops (apply_op op m)

  abbrev pub Same : Paths → Paths → Type 0
  Same m m' = (q : String) → m q ≡ m' q

  with_path_same :
      (p : String) (c : Option Cid) (m m' : Paths)
      → Same m m'
      → Same (with_path p c m) (with_path p c m')
  with_path_same p c m m' h q = go (String_discrete p q)
    where
      go : (d : Dec (p ≡ q)) → ite d c (m q) ≡ ite d c (m' q)
      go (yes e) = refl
      go (no n) = h q

  apply_ops_same :
      (ops : List (Op Cid Rec)) (m m' : Paths)
      → Same m m'
      → Same (apply_ops ops m) (apply_ops ops m')
  unfolding apply_ops
  apply_ops_same [] m m' h = h
  apply_ops_same (op ∷ ops) m m' h =
      apply_ops_same ops _ _ (with_path_same (path_of op.collection op.rkey) op.rec_cid m m' h)

  -- A change of the tree that succeeded was asked of the tree in hand, and its result is now in hand.
  change_tree_done :
      (change : Call Cid Block S Tree) (k k' : Work Cid Block Tree S)
      → ActorRepo.change_tree out change k ≡ (inr tt, k')
      → (t : Tree) × (d : Dict Cid Block) × (change k.db k.session ≡ (some t, d))
        × (k'.repo.tree ≡ some t)
  change_tree_done change k k' e = go (change k.db k.session) refl e
    where
      go :
          (r : Option Tree × Dict Cid Block)
          → change k.db k.session ≡ r
          → and_then (ActorRepo.set_tree out) (returned out mst_failed k r) ≡ (inr tt, k')
          → (t : Tree) × (d : Dict Cid Block) × (change k.db k.session ≡ (some t, d))
            × (k'.repo.tree ≡ some t)
      go (none, d) q x = absurd (ground (arith, x))
      go (some t, d) q x = (t, d, q, ap (λ z. z.1.repo.tree) (sym x))

  put_and_change_done :
      (rec : Rec) (change : Cid → Call Cid Block S Tree) (c : Cid) (k k' : Work Cid Block Tree S)
      → ActorRepo.put_and_change out rec change k ≡ (inr c, k')
      → (t : Tree) × (d : Dict Cid Block) × (k0 : Work Cid Block Tree S) × (change c k0.db
            k0.session
          ≡ (some t, d))
        × (k'.repo.tree ≡ some t)
  put_and_change_done rec change c k k' e =
      let (c0, k0, q, e0) =
        and_then-eq-inr (λ x. do ActorRepo.change_tree out (change x); ret x)
          (call out encoding_failed (out.put_record rec) k) e in
      let (u, k1, q1, e1) =
        and_then-eq-inr (λ x. ret c0) (ActorRepo.change_tree out (change c0) k0) e0 in
      let (t, d, q2, tree) = change_tree_done (change c0) k0 k1 q1 in
      let c_eq : c0 ≡ c = ground (arith, e1) in
      (
        t,
        d,
        k0,
        subst (λ x. change x k0.db k0.session ≡ (some t, d)) c_eq q2,
        ap (λ z. z.1.repo.tree) (sym e1) ∙ tree,
      )

  -- The rest of an operation gets the tree from `getMst`, and the same commit.
  pub got :
      {A : Type 0} (rest : Tree → Action (Work Cid Block Tree S) A) (k k' : Work Cid Block Tree S)
      (a : A)
      → and_then rest (get_mst out k) ≡ (inr a, k')
      → (k0 : Work Cid Block Tree S) × (rest (tree_of k.repo.tree k.repo.sc.data_cid) k0
          ≡ (inr a, k'))
        × (k0.repo.sc ≡ k.repo.sc)
  unfolding get_mst
  got {A} rest k k' a e = go k.repo.tree e
    where
      go :
          (o : Option Tree)
          → and_then rest (in_hand out k o) ≡ (inr a, k')
          → (k0 : Work Cid Block Tree S) × (rest (tree_of o k.repo.sc.data_cid) k0 ≡ (inr a, k'))
            × (k0.repo.sc ≡ k.repo.sc)
      go none x = (_, x, refl)
      go (some t) x = (_, x, refl)

  in_hand_paths :
      (k : Work Cid Block Tree S) (t : Tree)
      → k.repo.tree ≡ some t
      → (q : String) → paths k q ≡ view t q
  in_hand_paths k t e q = ap (λ o. view (tree_of o k.repo.sc.data_cid) q) e

  module _ (is_map : IsMap) where
    create_record_paths :
        (p : String) (rec : Rec) (c : Cid) (k k' : Work Cid Block Tree S)
        → ActorRepo.create_record out p rec k ≡ (inr c, k')
        → Same (paths k') (with_path p (some c) (paths k))
    unfolding ActorRepo.create_record
    create_record_paths p rec c k k' e q =
        let (k0, e0, sc) =
          got (λ t. ActorRepo.put_and_change out rec (out.add t p)) (ActorRepo.mark_dirty out k).1
            k' c e in
        let (t, d, k1, e1, tree) =
          put_and_change_done rec (out.add (tree_of k.repo.tree k.repo.sc.data_cid) p) c k0 k' e0 in
        in_hand_paths k' t tree q ∙ is_map.0 _ t p c k1.db k1.session d e1 q

    update_record_paths :
        (p : String) (rec : Rec) (c : Cid) (k k' : Work Cid Block Tree S)
        → ActorRepo.update_record out p rec k ≡ (inr c, k')
        → Same (paths k') (with_path p (some c) (paths k))
    unfolding ActorRepo.update_record
    update_record_paths p rec c k k' e q =
        let (k0, e0, sc) =
          got (λ t. ActorRepo.put_and_change out rec (out.update t p))
            (ActorRepo.mark_dirty out k).1 k' c e in
        let (t, d, k1, e1, tree) =
          put_and_change_done rec (out.update (tree_of k.repo.tree k.repo.sc.data_cid) p) c k0 k'
            e0 in
        in_hand_paths k' t tree q ∙ is_map.1 _ t p c k1.db k1.session d e1 q

    delete_record_paths :
        (p : String) (k k' : Work Cid Block Tree S)
        → ActorRepo.delete_record out p k ≡ (inr tt, k')
        → Same (paths k') (with_path p none (paths k))
    unfolding ActorRepo.delete_record
    delete_record_paths p k k' e q =
        let (k0, e0, sc) =
          got (λ t. ActorRepo.change_tree out (out.delete t p)) (ActorRepo.mark_dirty out k).1 k' tt
            e in
        let (t, d, e1, tree) =
          change_tree_done (out.delete (tree_of k.repo.tree k.repo.sc.data_cid) p) k0 k' e0 in
        in_hand_paths k' t tree q ∙ is_map.2 _ t p k0.db k0.session d e1 q

    rkey_of_paths :
        (o : Option String) (key : String) (k k' : Work Cid Block Tree S)
        → rkey_of out o k ≡ (inr key, k')
        → k'.repo ≡ k.repo
    rkey_of_paths (some key') key k k' e = ap (λ z. z.1.repo) (sym e)
    rkey_of_paths none key k k' e = go (next_tid (out.now k.clock) k.clock) e
      where
        go : (r : Option (List ℕ × Clock)) → taken out k r ≡ (inr key, k') → k'.repo ≡ k.repo
        go none x = absurd (ground (arith, x))
        go (some (tid, c)) x = ap (λ z. z.1.repo) (sym x)

    abbrev repo_paths : Repo Cid Tree → Paths
    repo_paths r = view (tree_of r.tree r.sc.data_cid)

    -- The last step of a round, which makes the operation.
    op_made :
        {A : Type 0} (m : Action (Work Cid Block Tree S) A) (f : A → Op Cid Rec)
        (k k' : Work Cid Block Tree S) (op : Op Cid Rec)
        → and_then (λ a. ret (f a)) (m k) ≡ (inr op, k')
        → (a : A) × (m k ≡ (inr a, k')) × (f a ≡ op)
    op_made m f k k' op e =
        let (a, k0, q, e0) = and_then-eq-inr (λ a. ret (f a)) (m k) e in
        (a, q ∙ ap (λ z. (inr a, z.1)) e0, ground (arith, e0))

    created :
        (h : Bool) (nsid key : String) (rec : Rec) (k k' : Work Cid Block Tree S) (op : Op Cid Rec)
        → and_then
            (λ cc. ret (op_on out create_kind nsid key (some cc) (hydrated out h rec)))
            (ActorRepo.create_record out (path_of nsid key) rec k)
          ≡ (inr op, k')
        → Same (paths k') (apply_op op (paths k))
    unfolding apply_op
    created h nsid key rec k k' op e =
        let (c, q, made) =
          op_made (ActorRepo.create_record out (path_of nsid key) rec) _ k k' op e in
        subst (λ o. Same (paths k') (apply_op o (paths k))) made
          (create_record_paths (path_of nsid key) rec c k k' q)

    apply_write_paths :
        (h : Bool) (x : Write Rec) (k k' : Work Cid Block Tree S) (op : Op Cid Rec)
        → apply_write out h x k ≡ (inr op, k')
        → Same (paths k') (apply_op op (paths k))
    unfolding apply_write apply_op
    apply_write_paths h (create_write nsid o rec) k k' op e q =
        let (key, k0, e0, e1) =
          and_then-eq-inr
            (λ key. do
              cc ← ActorRepo.create_record out (path_of nsid key) rec
              ret (op_on out create_kind nsid key (some cc) (hydrated out h rec)))
            (rkey_of out o k) e in
        created h nsid key rec k0 k' op e1 q
        ∙ ap (λ r. with_path (path_of op.collection op.rkey) op.rec_cid (repo_paths r) q)
            (rkey_of_paths o key k k0 e0)
    apply_write_paths h (update_write nsid key rec) k k' op e q =
        let (c, e0, made) =
          op_made (ActorRepo.update_record out (path_of nsid key) rec) _ k k' op e in
        subst (λ o. paths k' q ≡ apply_op o (paths k) q) made
          (update_record_paths (path_of nsid key) rec c k k' e0 q)
    apply_write_paths h (delete_write nsid key) k k' op e q =
        let (c, e0, made) = op_made (ActorRepo.delete_record out (path_of nsid key)) _ k k' op e in
        subst (λ o. paths k' q ≡ apply_op o (paths k) q) made
          (delete_record_paths (path_of nsid key) k k' e0 q)
    apply_write_paths h empty_write k k' op e q = absurd (ground (arith, e))

    pub apply_writes_paths :
        (h : Bool) (xs : List (Write Rec)) (k k' : Work Cid Block Tree S) (ops : List (Op Cid Rec))
        → apply_writes out h xs k ≡ (inr ops, k')
        → Same (paths k') (apply_ops ops (paths k))
    unfolding apply_writes apply_ops
    apply_writes_paths h [] k k' ops e q =
        let same : [] ≡ ops = ground (arith, e) in
        subst (λ l. paths k' q ≡ apply_ops l (paths k) q) same (ap (λ z. paths z.1 q) (sym e))
    apply_writes_paths h (x ∷ xs) k k' ops e q =
        let (op, k0, e0, e1) =
          and_then-eq-inr (λ op. do ops ← apply_writes out h xs; ret (op ∷ ops))
            (apply_write out h x k) e in
        let (ops0, k1, e2, e3) =
          and_then-eq-inr (λ ops. ret (op ∷ ops)) (apply_writes out h xs k0) e1 in
        let same : op ∷ ops0 ≡ ops = ground (arith, e3) in
        subst (λ l. paths k' q ≡ apply_ops l (paths k) q) same
          (ap (λ z. paths z.1 q) (sym e3)
            ∙ apply_writes_paths h xs k0 k1 ops0 e2 q
            ∙ apply_ops_same ops0 (paths k0) (apply_op op (paths k))
                (apply_write_paths h x k k0 op e0) q)
