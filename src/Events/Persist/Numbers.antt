-- ===== src/Events/Persist/Numbers.antt =====
-- The numbers in the buffer: the i-th event carries the number i + 1.
use referendum_services.Prelude.{
  ℕ, suc, ◌+◌, ◌<◌, List, [], ◌∷◌, ◌++◌, Option, none, some, Bool, true, ◌≡◌, refl, arith, length,
  length-append, ap, sym, ◌∙◌, is_some, map, append-nil, append_assoc, Option-cases, inl, inr, All,
}
use referendum_services.Prelude.Int.{ℤ, pos, max_int64, inc_int64, inc_int64_of_lt}
use referendum_services.Events.Event.{StreamEvent, Sequenced, Labels}
use referendum_services.Events.Persist.{
  MemPersister, new_mem_persister, assign, numbered_or, persist, persist_all,
}

module _ {B : Type 0} where
  abbrev seq_then : Option (Sequenced B) → Option ℤ → Option ℤ
  seq_then (some x) rest = some x.seq
  seq_then none rest = rest

  -- The number that an event carries, read in the order in which Persist writes it.
  unfoldable pub number : StreamEvent B → Option ℤ
  number e = seq_then e.repo_commit (
      seq_then e.repo_handle (
        seq_then e.repo_identity (
          seq_then e.repo_account (
            seq_then e.repo_migrate (
              seq_then e.repo_tombstone
                (elim e.label_labels [ none ↦ none | some x ↦ some x.seq ]))))))

  pub number-assign : (n : ℤ) (e e' : StreamEvent B) → assign n e ≡ some e' → number e' ≡ some n
  unfolding assign number
  number-assign n e e' h = ground arith

  abbrev no_seq : Option (Sequenced B) → Option (Sequenced B)
  no_seq none = none
  no_seq (some x) = some (record { seq = pos 0; did = x.did; body = x.body })

  abbrev labels_no_seq : Option (Labels B) → Option (Labels B)
  labels_no_seq none = none
  labels_no_seq (some x) = some (record { seq = pos 0; body = x.body })

  -- An event without its sequence numbers and its serialized bytes.
  abbrev pub content : StreamEvent B → StreamEvent B
  content e = record {
    error = e.error;
    repo_commit = no_seq e.repo_commit;
    repo_sync = no_seq e.repo_sync;
    repo_handle = no_seq e.repo_handle;
    repo_identity = no_seq e.repo_identity;
    repo_info = e.repo_info;
    repo_migrate = no_seq e.repo_migrate;
    repo_tombstone = no_seq e.repo_tombstone;
    repo_account = no_seq e.repo_account;
    label_labels = labels_no_seq e.label_labels;
    label_info = e.label_info;
    priv_uid = e.priv_uid;
    priv_pds_id = e.priv_pds_id;
    priv_relevant_pds = e.priv_relevant_pds;
    preserialized = none;
  }

  content-assign : (n : ℤ) (e e' : StreamEvent B) → assign n e ≡ some e' → content e' ≡ content e
  unfolding assign
  content-assign n e e' h = ground arith

  -- Whether Persist accepts the event; it does not depend on the number.
  abbrev pub IsPersistable : StreamEvent B → Type 0
  IsPersistable e = (n : ℤ) → is_some (assign n e) ≡ true

  abbrev pub Numbered : ℕ → List (StreamEvent B) → Type 0
  Numbered k [] = Unit
  Numbered k (e ∷ es) = (number e ≡ some (pos (suc k))) × Numbered (suc k) es

  Numbered-append :
      (k : ℕ) (es : List (StreamEvent B)) (e : StreamEvent B)
      → Numbered k es
      → number e ≡ some (pos (suc (k + length es)))
      → Numbered k (es ++ e ∷ [])
  Numbered-append k [] e h q = (q ∙ ap (λ (t : ℕ). some (pos (suc t))) (omega arith), tt)
  Numbered-append k (x ∷ xs) e h q =
      (h.0, Numbered-append (suc k) xs e h.1 (q ∙ ap (λ (t : ℕ). some (pos (suc t))) (omega arith)))

  -- The number of the last event is the counter.
  pub record IsValid (mp : MemPersister B) : Type 0 where
    pub numbered : Numbered 0 mp.buf
    pub counter : mp.seq ≡ pos (length mp.buf)

  pub new-IsValid : IsValid new_mem_persister
  new-IsValid = record { numbered = tt; counter = refl }

  module _ {W : Type 0} (broadcast : StreamEvent B → W → StreamEvent B × W × Bool)
      (keeps : (e : StreamEvent B) (w : W) → number (broadcast e w).0 ≡ number e) where
    next_number :
        (mp : MemPersister B) (m : ℕ)
        → mp.seq ≡ pos m
        → m < max_int64
        → inc_int64 mp.seq ≡ pos (m + 1)
    next_number mp m v h = ap inc_int64 v ∙ inc_int64_of_lt m h

    -- What an accepted call does: the event is appended under the next number.
    pub persist_accepts :
        (e : StreamEvent B) (mp : MemPersister B) (w : W) (m : ℕ)
        → IsPersistable e
        → mp.seq ≡ pos m
        → m < max_int64
        → (x : StreamEvent B) × ((persist broadcast e mp w).0
            ≡ record { buf = mp.buf ++ x ∷ []; seq = pos (m + 1) })
          × (number x ≡ some (pos (m + 1)))
    unfolding persist
    persist_accepts e mp w m a v h = elim (Option-cases (assign (inc_int64 mp.seq) e)) [
      | inl p ↦ ground (arith, a (inc_int64 mp.seq))
      | inr (e', p) ↦ (
        (broadcast e' w).0,
        rw (p, persist) (rw (next_number mp m v h)),
        keeps e' w ∙ number-assign _ e e' p ∙ ap some (next_number mp m v h),
      )
    ]

    -- A persister whose events are numbered 1, 2, … stays so when Persist accepts an event, as long
    -- as the int64 counter has room, and the event is the last of the buffer.
    pub persist-IsValid :
        (e : StreamEvent B) (mp : MemPersister B) (w : W)
        → IsPersistable e
        → IsValid mp
        → length mp.buf < max_int64
        → IsValid (persist broadcast e mp w).0
          × (length (persist broadcast e mp w).0.buf ≡ length mp.buf + 1)
    persist-IsValid e mp w a v h =
        let (x, q, num) = persist_accepts e mp w (length mp.buf) a v.counter h in
        rw q (
          record {
            numbered =
                Numbered-append 0 mp.buf x v.numbered
                  (num ∙ ap (λ (t : ℕ). some (pos t)) (omega arith));
            counter = ap pos (omega (arith, length-append mp.buf (x ∷ [])));
          },
          omega (arith, length-append mp.buf (x ∷ [])),
        )

    persist_all-IsValid_from :
        (es : List (StreamEvent B)) (mp : MemPersister B) (w : W)
        → All IsPersistable es
        → IsValid mp
        → length mp.buf + length es < max_int64
        → IsValid (persist_all broadcast es mp w).0
          × (length (persist_all broadcast es mp w).0.buf ≡ length mp.buf + length es)
    unfolding persist_all
    persist_all-IsValid_from [] mp w a v h = (v, omega arith)
    persist_all-IsValid_from (e ∷ es) mp w a v h =
        let (v', len) = persist-IsValid e mp w a.0 v (omega arith) in
        let r = persist broadcast e mp w in
        let (v'', len') = persist_all-IsValid_from es r.0 r.1 a.1 v' (omega arith) in
        (v'', omega arith)

    -- The callback changes of an event at most its serialized bytes, and no number.
    module _ (same : (e : StreamEvent B) (w : W) → content (broadcast e w).0 ≡ content e) where
      map-append :
          (f : StreamEvent B → StreamEvent B) (xs ys : List (StreamEvent B))
          → map f (xs ++ ys) ≡ map f xs ++ map f ys
      map-append f [] ys = refl
      map-append f (x ∷ xs) ys = ap (λ l. f x ∷ l) (map-append f xs ys)

      persist-content :
          (e : StreamEvent B) (mp : MemPersister B) (w : W)
          → IsPersistable e
          → map content (persist broadcast e mp w).0.buf ≡ map content mp.buf ++ content e ∷ []
      unfolding persist
      persist-content e mp w a = go (assign (inc_int64 mp.seq) e) refl (a (inc_int64 mp.seq))
        where
          go :
              (o : Option (StreamEvent B))
              → assign (inc_int64 mp.seq) e ≡ o
              → is_some o ≡ true
              → map content (numbered_or broadcast (inc_int64 mp.seq) mp w o).0.buf
                ≡ map content mp.buf ++ content e ∷ []
          go none p h = absurd (ground (arith, h))
          go (some e') p h =
              map-append content mp.buf ((broadcast e' w).0 ∷ [])
              ∙ ap (λ x. map content mp.buf ++ x ∷ [])
                  (same e' w ∙ content-assign (inc_int64 mp.seq) e e' p)

      persist_all-content :
          (es : List (StreamEvent B)) (mp : MemPersister B) (w : W)
          → All IsPersistable es
          → map content (persist_all broadcast es mp w).0.buf ≡ map content mp.buf ++ map content es
      unfolding persist_all
      persist_all-content [] mp w a = sym (append-nil (map content mp.buf))
      persist_all-content (e ∷ es) mp w a =
          let r = persist broadcast e mp w in
          persist_all-content es r.0 r.1 a.1
          ∙ ap (λ l. l ++ map content es) (persist-content e mp w a.0)
          ∙ append_assoc (map content mp.buf) (content e ∷ []) (map content es)

      -- If the callback changes no event but for its serialized bytes, then from a new persister any events
      -- that Persist accepts, fewer than the int64 counter can count, are kept: the buffer has these
      -- events, each once, in the order in which they came, unchanged but for sequence numbers and
      -- serialized bytes, and they are numbered 1, 2, 3, … in that order.
      pub persist_all-IsValid :
          (es : List (StreamEvent B)) (w : W)
          → All IsPersistable es
          → length es < max_int64
          → IsValid (persist_all broadcast es new_mem_persister w).0
            × (map content (persist_all broadcast es new_mem_persister w).0.buf ≡ map content es)
      persist_all-IsValid es w a h = (
        (persist_all-IsValid_from es new_mem_persister w a new-IsValid (omega arith)).0,
        persist_all-content es new_mem_persister w a,
      )
