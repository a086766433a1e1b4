-- ===== src/Repo/Manager/Chain.antt =====
-- Runs of requests for writes, and the events that they send.
use referendum_services.Prelude.{
  ℕ, String, List, [], ◌∷◌, ◌++◌, append-nil, append_assoc, some, true, ◌≡◌, refl, sym, ap, subst,
  ◌∙◌, ◌≢◌, ◌⊎◌, inl, inr, arith, ℕ_discrete, ite,
}
use referendum_services.Car.Session.Keeps.{IsOwn}
use referendum_services.Repo.Actions.{RepoError}
use referendum_services.Repo.ActorRepo.{Outside}
use referendum_services.Repo.Manager.{
  World, Event, Write, defined, create_record, update_record, delete_record, batch_write,
  create_body, update_body, delete_body, batch_body,
}
use referendum_services.Repo.Manager.Standing.{IsNumbered, StandsAt, Kept}
use referendum_services.Repo.Manager.Outcome.{Wrote, Outcome, sent_after, write_repo_outcome}
use referendum_services.Repo.Manager.Bodies.{keeps_create, keeps_update, keeps_delete, keeps_batch}

-- A request for a write, of any kind.
pub data Request (Rec : Type 0) : Type 0 where
  create_one update_one : String → String → Rec → Request Rec
  delete_one : String → String → Request Rec
  write_batch : List (Write Rec) → Request Rec

module _ {Cid Block Rec Tree S : Type 0} (out : Outside Cid Block Rec Tree S) where
  -- What a request leaves; its result or error goes to the one who asked.
  unfoldable pub perform : ℕ → Request Rec → World Cid Rec S → World Cid Rec S
  unfolding create_record update_record delete_record batch_write
  perform a (create_one nsid key rec) w = (create_record out a nsid key rec w).1
  perform a (update_one nsid key rec) w = (update_record out a nsid key rec w).1
  perform a (delete_one nsid key) w = (delete_record out a nsid key w).1
  perform a (write_batch writes) w = (batch_write out a writes w).1

  unfoldable pub perform_all : List (ℕ × Request Rec) → World Cid Rec S → World Cid Rec S
  unfolding perform
  perform_all [] w = w
  perform_all ((a, x) ∷ xs) w = perform_all xs (perform a x w)

  -- The events of one actor.
  abbrev pub events_of : ℕ → List (Event Cid Rec) → List (Event Cid Rec)
  events_of a [] = []
  events_of a (e ∷ es) = ite (ℕ_discrete e.actor a) (e ∷ events_of a es) (events_of a es)

  -- Each event's Since and OldRoot are the revision and the root before it.
  abbrev pub IsChained : Cid → String → List (Event Cid Rec) → Type 0
  IsChained root rev [] = Unit
  IsChained root rev (e ∷ es) =
      (e.since ≡ some rev) × (e.old_root ≡ defined out root) × IsChained e.new_root e.rev es

  events_of_own :
      (a : ℕ) (e : Event Cid Rec) (es : List (Event Cid Rec))
      → e.actor ≡ a
      → events_of a (e ∷ es) ≡ e ∷ events_of a es
  events_of_own a e es p = ground arith

  events_of_other :
      (a : ℕ) (e : Event Cid Rec) (es : List (Event Cid Rec))
      → e.actor ≢ a
      → events_of a (e ∷ es) ≡ events_of a es
  events_of_other a e es p = ground arith

  sent_on :
      (w : World Cid Rec S) (e : Event Cid Rec)
      → w.events ≡ true
      → sent_after out w e ≡ w.sent ++ (e ∷ [])
  sent_on w e on = rw on refl

  Done : ℕ → World Cid Rec S → World Cid Rec S → Type 0
  Done a w w' = Kept out w w' ⊎ Wrote out a w w'

  done :
      {A : Type 0} (a : ℕ) (w : World Cid Rec S) (r : (RepoError ⊎ A) × World Cid Rec S)
      → Outcome out a w r
      → Done a w r.1
  unfolding Done
  done a w (inl x, w') h = inl h
  done a w (inr y, w') h = inr h

  module _ (numbered : IsNumbered out) (own : IsOwn out.back ℕ_discrete) where
    deleted :
        (a : ℕ) (nsid key : String) (w : World Cid Rec S)
        → Outcome out a w (delete_record out a nsid key w)
    unfolding delete_record
    deleted a nsid key w =
        write_repo_outcome out a numbered own (delete_body out nsid key) (keeps_delete out nsid key)
          w

    batched :
        (a : ℕ) (xs : List (Write Rec)) (w : World Cid Rec S)
        → Outcome out a w (batch_write out a xs w)
    unfolding batch_write
    batched a xs w =
        write_repo_outcome out a numbered own (batch_body out w.hydrate_records xs)
          (keeps_batch out w.hydrate_records xs) w

    -- If the database numbers shards from 1 and a row that it returns for an actor is that actor's (it
    -- may return none), then a write of any of the four kinds that fails sends nothing and leaves the
    -- cached last shard of every actor but 0; one that succeeds sends, where a callback is set, one event
    -- of its actor, leaves the cached last shards of the others but 0, and the actor's last shard has the
    -- event's root and revision; and if the actor's last shard was cached before, its root and revision
    -- are the event's OldRoot, where that is defined, and Since.
    pub writes-Outcome :
        (a : ℕ) (nsid key : String) (rec : Rec) (xs : List (Write Rec)) (w : World Cid Rec S)
        → Outcome out a w (create_record out a nsid key rec w)
          × Outcome out a w (update_record out a nsid key rec w)
          × Outcome out a w (delete_record out a nsid key w)
          × Outcome out a w (batch_write out a xs w)
    unfolding create_record update_record
    writes-Outcome a nsid key rec xs w = (
      write_repo_outcome out a numbered own (create_body out nsid key rec)
          (keeps_create out nsid key rec) w,
      write_repo_outcome out a numbered own (update_body out w.hydrate_records nsid key rec)
          (keeps_update out w.hydrate_records nsid key rec) w,
      deleted a nsid key w,
      batched a xs w,
    )

    -- Each request either leaves nothing new or sends one event that continues the actor's revisions.
    perform_done : (a : ℕ) (x : Request Rec) (w : World Cid Rec S) → Done a w (perform a x w)
    unfolding perform
    perform_done a (create_one nsid key rec) w =
        done a w (create_record out a nsid key rec w) (writes-Outcome a nsid key rec [] w).0
    perform_done a (update_one nsid key rec) w =
        done a w (update_record out a nsid key rec w) (writes-Outcome a nsid key rec [] w).1
    perform_done a (delete_one nsid key) w =
        done a w (delete_record out a nsid key w) (deleted a nsid key w)
    perform_done a (write_batch xs) w = done a w (batch_write out a xs w) (batched a xs w)

    -- One request more: the actor's new events continue its chain, and it stands at the last of them.
    abbrev Continues : ℕ → Cid → String → World Cid Rec S → World Cid Rec S → Type 0
    Continues a root rev w w' =
        (es : List (Event Cid Rec)) × (w'.sent ≡ w.sent ++ es) × IsChained root rev (events_of a es)

    chain_nil :
        (a : ℕ) (root : Cid) (rev : String) (w w' : World Cid Rec S)
        → w'.sent ≡ w.sent
        → Continues a root rev w w'
    chain_nil a root rev w w' e = ([], e ∙ sym (append-nil w.sent), tt)

    -- If a callback is set, the database numbers shards from 1, and a row that it returns for an actor is
    -- that actor's (it may return none), then in any run of requests for writes by any actors, of which
    -- any may fail, the events sent of an actor other than 0, whose cached last shard has a root and a
    -- revision, form a chain from these: each event's Since is the revision before it, and its OldRoot
    -- the root before it, where that is defined.
    pub perform_all-IsChained :
        (xs : List (ℕ × Request Rec)) (w : World Cid Rec S) (a : ℕ) (root : Cid) (rev : String)
        → a ≢ 0
        → w.events ≡ true
        → StandsAt out a root rev w
        → (es : List (Event Cid Rec)) × ((perform_all xs w).sent ≡ w.sent ++ es)
          × IsChained root rev (events_of a es)
    unfolding perform_all Done
    perform_all-IsChained [] w a root rev nz on st = chain_nil a root rev w w refl
    perform_all-IsChained ((b, x) ∷ xs) w a root rev nz on (sh, cached, r1, r2, pos) =
        go (perform b x w) (perform_done b x w)
          (λ r v w' ev s. perform_all-IsChained xs w' a r v nz ev s)
      where
        Rest : World Cid Rec S → Type 0
        Rest w' =
            (r : Cid) (v : String) (w1 : World Cid Rec S)
            → w1.events ≡ true
            → StandsAt out a r v w1
            → Continues a r v w1 (perform_all xs w1)

        go :
            (w' : World Cid Rec S)
            → Done b w w'
            → Rest w'
            → Continues a root rev w (perform_all xs w')
        go w' (inl (s, ev, k)) rest =
            let (es, more, chain) =
              rest root rev w' (ev ∙ on) (sh, k a sh nz cached, r1, r2, pos) in
            (es, more ∙ ap (λ l. l ++ es) s, chain)
        go w' (inr (e, actor, s, ev, k, st, same)) rest = elim (ℕ_discrete b a) [
          | yes p ↦
              let (es, more, chain) =
                rest e.new_root e.rev w' (ev ∙ on)
                  (subst (λ c. StandsAt out c e.new_root e.rev w') p st) in
              let (since, old) =
                same root rev
                  (subst (λ c. StandsAt out c root rev w) (sym p) (sh, cached, r1, r2, pos)) in
              (
                e ∷ es,
                more ∙ ap (λ l. l ++ es) (s ∙ sent_on w e on) ∙ append_assoc w.sent (e ∷ []) es,
                subst (IsChained root rev) (sym (events_of_own a e es (actor ∙ p)))
                    (since, old, chain),
              )
          | no q ↦
              let (es, more, chain) =
                rest root rev w' (ev ∙ on) (sh, k a sh (λ m. q (sym m)) nz cached, r1, r2, pos) in
              (
                e ∷ es,
                more ∙ ap (λ l. l ++ es) (s ∙ sent_on w e on) ∙ append_assoc w.sent (e ∷ []) es,
                subst (IsChained root rev) (sym (events_of_other a e es (λ m. q (sym actor ∙ m))))
                    chain,
              )
        ]
