-- ===== src/Events/Stream/Order.antt =====
-- A run of the read loop over good messages: the work is handed on in the order of the stream, and
-- what is logged as out of order is every descent of the sequence numbers. A failing round ends the run.
use referendum_services.Prelude.{
  dec_lt, ℕ, zero, suc, ◌+◌, List, [], ◌∷◌, ◌++◌, Option, none, some, Bool, true, false, String,
  ◌≡◌, refl, ap, ◌∙◌, arith, append-nil, append_assoc, ◌<◌, ◌↔◌, Bool-cases, Option-cases, inl, inr,
  if◌then◌else◌, replicate, sym, leb,
}
use referendum_services.Prelude.Int.{ℤ, ltb_ℤ, negsuc}
use referendum_services.Events.Event.{Bytes, EventHeader, StreamEvent, Codec}
use referendum_services.Events.Stream.{
  Frame, Job, Loop, StreamError, job, binary, decode_body, note_seq, worked, run_job, round, go_on,
  read_loop, handle_repo_stream, ping_loop, Tick, ping, cancelled, Closed, too_many_fails,
  context_ended,
}

-- The pairs of a sequence number below the one before it.
abbrev pub descents : ℤ → List ℤ → List (ℤ × ℤ)
descents last [] = []
descents last (n ∷ ns) = let rest = descents n ns in if ltb_ℤ n last then (n, last) ∷ rest else rest

abbrev pub last_number : ℤ → List ℤ → ℤ
last_number last [] = last
last_number last (n ∷ ns) = last_number n ns

module _ {B : Type 0} where
  abbrev pub seq_numbers : List (Job B) → List ℤ
  seq_numbers [] = []
  seq_numbers (j ∷ js) = elim j.seq [ none ↦ seq_numbers js | some n ↦ n ∷ seq_numbers js ]

  -- The frames are good binary messages that decode to these jobs.
  abbrev pub Decodes : Codec B → List Frame → List (Job B) → Type 0
  Decodes c [] [] = Unit
  Decodes c (binary b ∷ fs) (j ∷ js) =
      ((h : EventHeader) × (rest : Bytes) × (c.get_header b ≡ some (h, rest))
        × (decode_body c h rest ≡ some (job j)))
      × Decodes c fs js
  Decodes c _ _ = ⊥

  module _ {W X : Type 0} (add_work : String → StreamEvent B → W → Option X × W) where
    -- The scheduler's state after the jobs, in order.
    abbrev pub work_through : List (Job B) → W → W
    work_through [] w = w
    work_through (j ∷ js) w = work_through js (add_work j.repo j.event w).1

    abbrev pub Accepts : Type 0
    Accepts = (key : String) (e : StreamEvent B) (w : W) → (add_work key e w).0 ≡ none

    abbrev after : Job B → Loop W → Loop W
    after j l = record (note_seq j.seq l) { work = (add_work j.repo j.event l.work).1 }

    note_seq-work : (n : Option ℤ) (l : Loop W) → (note_seq n l).work ≡ l.work
    unfolding note_seq
    note_seq-work none l = refl
    note_seq-work (some n) l = refl

    worked-none :
        (l : Loop W) (r : Option X × W)
        → r.0 ≡ none
        → worked add_work l r ≡ (record l { work = r.1 }, none)
    worked-none l (none, w) e = refl
    worked-none l (some x, w) e = ground arith

    run_job-after :
        (j : Job B) (l : Loop W) → Accepts → run_job add_work (job j) l ≡ (after j l, none)
    unfolding run_job
    run_job-after j l acc = rw (note_seq-work j.seq l) (
        worked-none (note_seq j.seq l) (add_work j.repo j.event l.work) (acc j.repo j.event l.work))

    round-after :
        (c : Codec B) (b rest : Bytes) (h : EventHeader) (j : Job B) (l : Loop W)
        → Accepts
        → c.get_header b ≡ some (h, rest)
        → decode_body c h rest ≡ some (job j)
        → round add_work c (binary b) l ≡ (after j l, none)
    unfolding round
    round-after c b rest h j l acc p q = rw (p, q) (run_job-after j l acc)

    -- The loop's state after the jobs.
    abbrev end_of : Loop W → List (Job B) → Loop W
    end_of l js = record {
      work = work_through js l.work;
      last_seq = last_number l.last_seq (seq_numbers js);
      out_of_order = l.out_of_order ++ descents l.last_seq (seq_numbers js);
    }

    end_of-after :
        (j : Job B) (js : List (Job B)) (l : Loop W) → end_of (after j l) js ≡ end_of l (j ∷ js)
    unfolding note_seq
    end_of-after j js l = elim (Option-cases j.seq) [
      | inl e ↦ rw e refl
      | inr (n, e) ↦ elim (Bool-cases (ltb_ℤ n l.last_seq)) [
        | inl f ↦
            rw
              (
                e,
                f,
                append_assoc l.out_of_order ((n, l.last_seq) ∷ []) (descents n (seq_numbers js)),
              )
              refl
        | inr f ↦ rw (e, f) refl
      ]
    ]

    read_loop-order :
        (c : Codec B) (fs : List Frame) (js : List (Job B)) (l : Loop W)
        → Accepts
        → Decodes c fs js
        → read_loop add_work c fs l ≡ (end_of l js, none)
    unfolding read_loop
    read_loop-order c [] [] l acc d = rw (append-nil l.out_of_order) refl
    read_loop-order c (binary b ∷ fs) (j ∷ js) l acc ((h, rest, p, q), d) =
        rw (round-after c b rest h j l acc p q)
          (read_loop-order c fs js (after j l) acc d ∙ ap (λ s. (s, none)) (end_of-after j js l))
    read_loop-order c _ _ l acc d = absurd d

    -- If every message decodes to a job and the scheduler accepts every job, HandleRepoStream hands
    -- them to the scheduler in the order of the stream, and logs as out of order exactly the messages
    -- whose sequence number is below the previous one (-1 before the first).
    pub handle_repo_stream-order :
        (c : Codec B) (fs : List Frame) (js : List (Job B)) (w : W)
        → Accepts
        → Decodes c fs js
        → handle_repo_stream add_work c fs w ≡ (
          record {
            work = work_through js w;
            last_seq = last_number (negsuc 0) (seq_numbers js);
            out_of_order = descents (negsuc 0) (seq_numbers js);
          },
          none,
        )
    unfolding handle_repo_stream
    handle_repo_stream-order c fs js w acc d = read_loop-order c fs js _ acc d

    -- The first frames are read without an error, the next one gives it, the rest is not read.
    abbrev pub Stops : Codec B → List Frame → Loop W → Loop W → StreamError X → Type 0
    Stops c fs l l' x =
        (before : List Frame) × (f : Frame) × (unread : List Frame) × (s : Loop W) × (fs
          ≡ before ++ f ∷ unread)
        × (read_loop add_work c before l ≡ (s, none))
        × (round add_work c f s ≡ (l', some x))

    -- A run that ends with an error got there through rounds without one: some first frames leave a
    -- state in which the next frame's round gives that error and that state, and the rest is not read.
    pub read_loop-stop :
        (c : Codec B) (fs : List Frame) (l l' : Loop W) (x : StreamError X)
        → read_loop add_work c fs l ≡ (l', some x)
        → Stops c fs l l' x
    unfolding read_loop
    read_loop-stop c [] l l' x e = ground arith
    read_loop-stop c (f ∷ fs) l l' x e =
        stop (λ m e'. read_loop-stop c fs m l' x e') (round add_work c f l) refl e
      where
        stop :
            ((m : Loop W) → read_loop add_work c fs m ≡ (l', some x) → Stops c fs m l' x)
            → (r : Loop W × Option (StreamError X)) → round add_work c f l ≡ r
            → go_on add_work (read_loop add_work c fs) r ≡ (l', some x)
            → Stops c (f ∷ fs) l l' x
        stop next (m, some y) q e = ([], f, fs, l, refl, refl, q ∙ e)
        stop next (m, none) q e =
            let (before, g, unread, s, p, r, u) = next m e in
            (f ∷ before, g, unread, s, ap (λ ys. f ∷ ys) p, rw q r, u)

-- Four failures in a row, somewhere in the list.
abbrev pub FourInARow : List Bool → Type 0
FourInARow oks =
    (before after : List Bool) × (oks ≡ before ++ false ∷ false ∷ false ∷ false ∷ after)

-- Whether the fourth failure in a row comes, after `k` of them.
fails : ℕ → List Bool → Bool
fails k [] = false
fails k (true ∷ oks) = fails 0 oks
fails k (false ∷ oks) = let rest = fails (k + 1) oks in if leb 4 (k + 1) then true else rest

false_shift :
    (k : ℕ) (oks : List Bool) → replicate k false ++ false ∷ oks ≡ replicate (suc k) false ++ oks
false_shift zero oks = refl
false_shift (suc k) oks = ap (λ x. false ∷ x) (false_shift k oks)

fails-four :
    (k : ℕ) (before after : List Bool)
    → fails k (before ++ false ∷ false ∷ false ∷ false ∷ after) ≡ true
unfolding fails
fails-four k [] after = ground arith
fails-four k (true ∷ before) after = fails-four 0 before after
fails-four k (false ∷ before) after = rw (fails-four (k + 1) before after) (ground arith)

k_is_3 : (k : ℕ) → k < 4 → ¬ (k < 3) → k ≡ 3
k_is_3 k lt p = omega arith

four-fails :
    (k : ℕ) (oks : List Bool) → k < 4 → fails k oks ≡ true → FourInARow (replicate k false ++ oks)
unfolding fails
four-fails k [] lt e = ground arith
four-fails k (true ∷ oks) lt e =
    let (before, after, p) = four-fails 0 oks (omega arith) e in
    (
      replicate k false ++ true ∷ before,
      after,
      rw
          (
            p,
            append_assoc (replicate k false) (true ∷ before)
                (false ∷ false ∷ false ∷ false ∷ after),
          )
          refl,
    )
four-fails k (false ∷ oks) lt e = elim (dec_lt k 3) [
  | yes p ↦
      let one_more : suc k ≡ k + 1 = omega arith in
      let (before, after, q) = four-fails (k + 1) oks (omega arith) (ground arith) in
      (before, after, false_shift k oks ∙ ap (λ n. replicate n false ++ oks) one_more ∙ q)
  | no p ↦ ([], oks, rw (k_is_3 k lt p) refl)
]

fails-FourInARow : (oks : List Bool) → (fails 0 oks ≡ true) ↔ FourInARow oks
fails-FourInARow oks =
    (four-fails 0 oks (omega arith), λ (before, after, p). rw p (fails-four 0 before after))

-- The pings before the context ends, and whether it ends.
abbrev pub pings : List Tick → List Bool
pings [] = []
pings (cancelled ∷ ts) = []
pings (ping ok ∷ ts) = ok ∷ pings ts

abbrev pub is_cancelled : List Tick → Bool
is_cancelled [] = false
is_cancelled (cancelled ∷ ts) = true
is_cancelled (ping ok ∷ ts) = is_cancelled ts

abbrev closed_by : Bool → Bool → Option Closed
closed_by true c = some too_many_fails
closed_by false true = some context_ended
closed_by false false = none

ping_loop-closed_by :
    (k : ℕ) (ts : List Tick) → ping_loop k ts ≡ closed_by (fails k (pings ts)) (is_cancelled ts)
unfolding ping_loop fails
ping_loop-closed_by k [] = refl
ping_loop-closed_by k (cancelled ∷ ts) = refl
ping_loop-closed_by k (ping true ∷ ts) = ping_loop-closed_by 0 ts
ping_loop-closed_by k (ping false ∷ ts) = elim (Bool-cases (leb 4 (k + 1))) [
  | inl q ↦ rw q refl
  | inr q ↦ rw q (ping_loop-closed_by (k + 1) ts)
]

by_fails : (f c : Bool) → (closed_by f c ≡ some too_many_fails) ↔ (f ≡ true)
by_fails true c = (λ e. refl, λ e. refl)
by_fails false true = (λ e. absurd (ground (arith, e)), λ e. absurd (ground (arith, e)))
by_fails false false = (λ e. absurd (ground (arith, e)), λ e. absurd (ground (arith, e)))

by_context : (f c : Bool) → (closed_by f c ≡ some context_ended) ↔ (¬ (f ≡ true)) × (c ≡ true)
by_context true c = (λ e. absurd (ground (arith, e)), λ (n, e). absurd (n refl))
by_context false true = (λ e. (λ x. ground (arith, x), refl), λ e. refl)
by_context false false = (λ e. absurd (ground (arith, e)), λ (n, e). absurd (ground (arith, e)))

-- Starting from no failures, the pinger closes the connection for failed pings exactly if four pings in a
-- row fail before the context ends, and because of the context exactly if it ends and no four pings
-- in a row have failed before.
pub ping_loop-FourInARow :
    (ts : List Tick)
    → ((ping_loop 0 ts ≡ some too_many_fails) ↔ FourInARow (pings ts))
      × ((ping_loop 0 ts ≡ some context_ended)
          ↔ (¬ (FourInARow (pings ts))) × (is_cancelled ts ≡ true))
ping_loop-FourInARow ts =
    let f = fails 0 (pings ts) in
    let four = fails-FourInARow (pings ts) in
    let same = ping_loop-closed_by 0 ts in
    let by_f = by_fails f (is_cancelled ts) in
    let by_c = by_context f (is_cancelled ts) in
    (
      (λ e. four.0 (by_f.0 (sym same ∙ e)), λ h. same ∙ by_f.1 (four.1 h)),
      (
        λ e. let (n, c) = by_c.0 (sym same ∙ e) in (λ h. n (four.1 h), c),
        λ (n, c). same ∙ by_c.1 (λ x. n (four.0 x), c),
      ),
    )
