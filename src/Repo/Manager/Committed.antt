-- ===== src/Repo/Manager/Committed.antt =====
-- The commit that is stored after the writes.
use referendum_services.Prelude.{
  ℕ, String, List, Option, none, some, Bool, ◌≡◌, refl, sym, ap, subst, ◌∙◌, inl, inr, arith,
  Bool-cases, str_eq,
}
use referendum_services.Prelude.Int.{pos}
use referendum_services.Prelude.Dict.{Dict}
use referendum_services.Car.Shard.{Bytes}
use referendum_services.Car.Session.{DeltaSession}
use referendum_services.Repo.Actions.{
  RepoError, mst_failed, encoding_failed, signing_failed, and_then-eq-inr, ◌>>=◌, ◌>>◌, ret,
  of_option,
}
use referendum_services.Repo.ActorRepo.{
  Work, Outside, Call, SignedCommit, UnsignedCommit, unsigned, call, returned, with_signature,
  set_commit, put_signed, put_root, commit, repo_did, next_rev, unsigned_commit,
}
use referendum_services.Repo.Manager.{Op, Write, apply_writes, batch_body, body_and_commit}
use referendum_services.Repo.Manager.Unsaved.{KeepsCommit-apply_writes}
use referendum_services.Repo.Manager.Refinement.{
  IsMap, Paths, Same, paths, tree_of, got, apply_ops, apply_writes_paths,
}

module _ {Cid Block Rec Tree S : Type 0} (out : Outside Cid Block Rec Tree S) where
  of_option_done :
      {A : Type 0} (x : RepoError) (o : Option A) (a : A) (k k' : Work Cid Block Tree S)
      → of_option x o k ≡ (inr a, k')
      → (o ≡ some a) × (k ≡ k')
  of_option_done x none a k k' e = absurd (ground (arith, e))
  of_option_done x (some b) a k k' e = (ap some (ground (arith, e)), ap (λ z. z.1) e)

  call_done :
      {A : Type 0} (x : RepoError) (f : Call Cid Block S A) (a : A) (k k' : Work Cid Block Tree S)
      → call out x f k ≡ (inr a, k')
      → (d : Dict Cid Block) × (f k.db k.session ≡ (some a, d))
        × (k' ≡ record k { session = record k.session { blks = d } })
  call_done {A} x f a k k' e = go (f k.db k.session) refl e
    where
      go :
          (r : Option A × Dict Cid Block)
          → f k.db k.session ≡ r
          → returned out x k r ≡ (inr a, k')
          → (d : Dict Cid Block) × (f k.db k.session ≡ (some a, d))
            × (k' ≡ record k { session = record k.session { blks = d } })
      go (none, d) q y = absurd (ground (arith, y))
      go (some b, d) q y =
          let same : b ≡ a = ground (arith, y) in
          (d, q ∙ ap (λ z. (some z, d)) same, ap (λ z. z.1) (sym y))

  -- The commit is the unsigned one with the actor's signature of its bytes.
  abbrev pub IsSigned : SignedCommit Cid → Type 0
  IsSigned c =
      (sb : Bytes) × (out.marshal (unsigned c) ≡ some sb) × (out.sign c.did sb ≡ some c.sig)

  -- The commit was put under this CID, and the blocks are those after that.
  abbrev IsPut : SignedCommit Cid → Cid → Work Cid Block Tree S → Type 0
  IsPut sc c k =
      (ds : DeltaSession Cid Block) × (d : Dict Cid Block) × (out.put_commit sc k.db ds
        ≡ (some c, d))
      × (k.session ≡ record ds { blks = d })

  call-IsPut :
      (sc : SignedCommit Cid) (c c' : Cid) (k k1 k' : Work Cid Block Tree S)
      → call out encoding_failed (out.put_commit sc) k ≡ (inr c', k1)
      → c' ≡ c
      → k1.db ≡ k'.db
      → k1.session ≡ k'.session
      → IsPut sc c k'
  call-IsPut sc c c' k k1 k' q cid db session =
      let (d, stored, after) = call_done encoding_failed (out.put_commit sc) c' k k1 q in
      (
        k.session,
        d,
        ap (λ b. out.put_commit sc b k.session) (sym db ∙ ap (λ z. z.db) after)
            ∙ stored
            ∙ ap (λ z. (some z, d)) cid,
        sym session ∙ ap (λ z. z.session) after,
      )

  put_signed_done :
      (u : UnsignedCommit Cid) (k k' : Work Cid Block Tree S) (c : Cid) (rev : String)
      → put_signed out u k ≡ (inr (c, rev), k')
      → (sig : Bytes) × (k'.repo.sc ≡ with_signature out u sig)
        × (rev ≡ u.rev)
        × IsSigned (with_signature out u sig)
        × IsPut (with_signature out u sig) c k'
  unfolding put_signed unsigned
  put_signed_done u k k' c rev e =
      let (sb, k1, q1, e1) =
        and_then-eq-inr
          (λ sb. do
            sig ← of_option signing_failed (out.sign u.did sb)
            c ← call out encoding_failed (out.put_commit (with_signature out u sig))
            set_commit out (with_signature out u sig)
            ret (c, u.rev))
          (of_option encoding_failed (out.marshal u) k) e in
      let (sig, k2, q2, e2) =
        and_then-eq-inr
          (λ sig. do
            c ← call out encoding_failed (out.put_commit (with_signature out u sig))
            set_commit out (with_signature out u sig)
            ret (c, u.rev))
          (of_option signing_failed (out.sign u.did sb) k1) e1 in
      let (c', k3, q3, e3) =
        and_then-eq-inr (λ c. do set_commit out (with_signature out u sig); ret (c, u.rev))
          (call out encoding_failed (out.put_commit (with_signature out u sig)) k2) e2 in
      (
        sig,
        ap (λ z. z.1.repo.sc) (sym e3),
        ground (arith, e3),
        (
          sb,
          (of_option_done encoding_failed (out.marshal u) sb k k1 q1).0,
          (of_option_done signing_failed (out.sign u.did sb) sig k1 k2 q2).0,
        ),
        call-IsPut (with_signature out u sig) c c' k2 k3 k' q3 (ground (arith, e3))
            (ap (λ z. z.1.db) e3) (ap (λ z. z.1.session) e3),
      )

  repo_did_done :
      (k k' : Work Cid Block Tree S) (did : String)
      → repo_did out k ≡ (inr did, k')
      → did ≡ k.repo.sc.did
  unfolding repo_did
  repo_did_done k k' did e = elim (Bool-cases (str_eq k.repo.sc.did "")) [
    | inl q ↦ absurd (ground (arith, rw q at e))
    | inr q ↦ ground (arith, rw q at e)
  ]

  module _ (view : Tree → String → Option Cid) where
    -- GetPointer gives the CID of the tree, from which LoadMST gets a tree of the same map.
    abbrev pub IsStored : Type 0
    IsStored =
        (t : Tree) (c : Cid) (db : S) (ds : _) (d : _)
        → out.pointer t db ds ≡ (some c, d)
        → (q : String) → view (out.load_tree c) q ≡ view t q

    -- The store of CBOR nodes reads back, from the blocks after a Put, the commit that was put.
    abbrev pub IsLoadable : Type 0
    IsLoadable =
        (sc : SignedCommit Cid) (c : Cid) (db : S) (ds : DeltaSession Cid Block) (d : _)
        → out.put_commit sc db ds ≡ (some c, d)
        → (out.load_commit c db (record ds { blks = d })).0 ≡ some sc

    -- The session's blocks have this commit under the CID.
    abbrev pub Loads : Cid → Work Cid Block Tree S → SignedCommit Cid → Type 0
    Loads c k sc = (out.load_commit c k.db k.session).0 ≡ some sc

    put_loads :
        IsLoadable
        → (sc : SignedCommit Cid) (c : Cid) (k : Work Cid Block Tree S) → IsPut sc c k
        → Loads c k sc
    put_loads loadable sc c k (ds, d, q, same) =
        ap (λ z. (out.load_commit c k.db z).0) same ∙ loadable sc c k.db ds d q

    abbrev pub Committed : Paths out view → String → String → SignedCommit Cid → Type 0
    Committed m did rev c =
        Same out view (view (out.load_tree c.data_cid)) m
        × (c.did ≡ did)
        × (c.version ≡ pos 3)
        × (c.prev ≡ none)
        × (c.rev ≡ rev)
        × IsSigned c

    commit_done :
        IsStored
        → IsLoadable
        → (k k' : Work Cid Block Tree S) (c : Cid) (rev : String)
        → commit out k ≡ (inr (c, rev), k')
        → Committed (paths out view k) k.repo.sc.did rev k'.repo.sc × Loads c k' k'.repo.sc
    unfolding commit
    commit_done is_stored loadable k k' c rev e =
        let (k0, e0, sc0) =
          got out view (λ t. do root ← call out mst_failed (out.pointer t); put_root out root) k k'
            (c, rev) e in
        let (root, k1, q1, e1) =
          and_then-eq-inr (put_root out)
            (call out mst_failed (out.pointer (tree_of out view k.repo.tree k.repo.sc.data_cid)) k0)
            e0 in
        let (d, stored, same_repo) =
          call_done mst_failed (out.pointer (tree_of out view k.repo.tree k.repo.sc.data_cid)) root
            k0 k1 q1 in
        let (did, k2, q2, e2) =
          and_then-eq-inr
            (λ did. do rev ← next_rev out; put_signed out (unsigned_commit out did root rev))
            (repo_did out k1) e1 in
        let (rev0, k3, q3, e3) =
          and_then-eq-inr (λ rev. put_signed out (unsigned_commit out did root rev))
            (next_rev out k2) e2 in
        let (sig, sc, rev_eq, is_signed, is_put) =
          put_signed_done (unsigned_commit out did root rev0) k3 k' c rev e3 in
        let did_eq : did ≡ k.repo.sc.did =
          repo_did_done k1 k2 did q2 ∙ ap (λ r. r.repo.sc.did) same_repo ∙ ap (λ s. s.did) sc0 in
        subst (λ s. Committed (paths out view k) k.repo.sc.did rev s × Loads c k' s) (sym sc)
          (
            (is_stored _ root k0.db k0.session d stored, did_eq, refl, refl, sym rev_eq, is_signed),
            put_loads loadable (with_signature out (unsigned_commit out did root rev0) sig) c k'
                is_put,
          )

    -- If the tree library's changes of a tree are changes of the map it stands for, the root of a tree
    -- loads as a tree of the same map, and a commit that is put is read back from the blocks after that,
    -- then a batch that is applied and committed leaves a commit with the DID of the one before, of
    -- version 3, with no Prev, with the new revision and the signature of its bytes; the tree whose root
    -- it names stands for the map of paths that the event's operations make, one after another, of the
    -- map before; and this signed commit is what the session's blocks have under the returned CID.
    pub batch-Committed :
        IsMap out view
        → IsStored
        → IsLoadable
        → (actor : ℕ) (h : Bool) (writes : List (Write Rec)) (k k' : Work Cid Block Tree S)
          (ops : List (Op Cid Rec)) (c : Cid) (rev : String)
        → body_and_commit out actor (batch_body out h writes) k ≡ (inr ((tt, ops), (c, rev)), k')
        → Committed (apply_ops out view ops (paths out view k)) k.repo.sc.did rev k'.repo.sc
          × Loads c k' k'.repo.sc
    batch-Committed is_map is_stored loadable actor h writes k k' ops c rev e =
        let ((u, ops0), k0, q0, e0) =
          and_then-eq-inr (λ b. do c ← commit out; ret (b, c)) (batch_body out h writes k) e in
        let (ops1, k1, q1, e1) =
          and_then-eq-inr (λ ops. ret (tt, ops)) (apply_writes out h writes k) q0 in
        let ((c0, rev0), k2, q2, e2) =
          and_then-eq-inr (λ c. ret ((u, ops0), c)) (commit out k0) e0 in
        let ops_eq : ops1 ≡ ops = ground (arith, e1, e2) in
        let state : k1 ≡ k0 = ap (λ z. z.1) e1 in
        let ((same, did, version, prev, revision, is_signed), loads) =
          commit_done is_stored loadable k0 k2 c0 rev0 q2 in
        let end : k2 ≡ k' = ap (λ z. z.1) e2 in
        let cid_eq : c0 ≡ c = ground (arith, e2) in
        let sc : k1.repo.sc ≡ k.repo.sc =
          ap (λ z. z.1.repo.sc) (sym q1) ∙ KeepsCommit-apply_writes out h writes k in
        let rev_eq : rev0 ≡ rev = ground (arith, e2) in
        let committed =
          subst
            (λ s. Committed (apply_ops out view ops (paths out view k)) k.repo.sc.did rev s.repo.sc)
            end
            (
              λ q.
                  same q
                  ∙ ap (λ z. paths out view z q) (sym state)
                  ∙ apply_writes_paths out view is_map h writes k k1 ops1 q1 q
                  ∙ ap (λ l. apply_ops out view l (paths out view k) q) ops_eq,
              did ∙ ap (λ z. z.repo.sc.did) (sym state) ∙ ap (λ s. s.did) sc,
              version,
              prev,
              revision ∙ rev_eq,
              is_signed,
            ) in
        (
          committed,
          subst (λ x. Loads x k' k'.repo.sc) cid_eq (subst (λ s. Loads c0 s s.repo.sc) end loads),
        )
