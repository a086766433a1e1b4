-- ===== src/Events/Persist/Replay.antt =====
-- Playback hands the callback exactly the events above the cursor, and what a panic of Persist does to
-- that.
use referendum_services.Prelude.{
  ℕ, zero, suc, ◌+◌, ◌<◌, ◌≤◌, List, [], ◌∷◌, ◌++◌, Option, none, some, Bool, true, false, ◌≡◌,
  refl, arith, length, length-append, drop, ap, ◌∙◌, if◌then◌else◌, drop_all,
}
use referendum_services.Prelude.Int.{ℤ, pos, max_int64, inc_int64, inc_int64_of_lt, ltb_ℤ}
use referendum_services.Events.Event.{StreamEvent, Sequenced, empty_event}
use referendum_services.Events.Persist.{
  MemPersister, assign, persist, playback_loop, playback, unless_error,
}
use referendum_services.Events.Persist.Numbers.{
  number, IsPersistable, Numbered, IsValid, persist_accepts,
}

-- The events whose number lies above the cursor, in order.
abbrev is_above : ℕ → Option ℤ → Bool
is_above n none = false
is_above n (some m) = ltb_ℤ (pos n) m

module _ {B : Type 0} where
  pub above : ℕ → List (StreamEvent B) → List (StreamEvent B)
  above n [] = []
  above n (e ∷ es) = let rest = above n es in if is_above n (number e) then e ∷ rest else rest

  above_low : (n k : ℕ) (es : List (StreamEvent B)) → n ≤ k → Numbered k es → above n es ≡ es
  unfolding above
  above_low n k [] h v = refl
  above_low n k (e ∷ es) h v = ground (arith, above_low n (suc k) es)

  above-eq-drop :
      (n k : ℕ) (es : List (StreamEvent B)) → Numbered k es → above (k + n) es ≡ drop n es
  unfolding above
  above-eq-drop zero k es v = above_low (k + 0) k es (omega arith) v
  above-eq-drop (suc n) k [] v = refl
  above-eq-drop (suc n) k (e ∷ es) v =
      ground (arith, above-eq-drop n (suc k) es v.1, shift (k + suc n) (suc k + n) es)
    where
      shift : (a b : ℕ) (l : List (StreamEvent B)) → a ≡ b → above a l ≡ above b l
      shift = λ a b l p. ap (λ (t : ℕ). above t l) p

  playback-above :
      {S X : Type 0} (cb : StreamEvent B → S → S × Option X) (n : ℕ) (mp : MemPersister B) (s : S)
      → IsValid mp
      → playback cb (pos n) mp s ≡ some (playback_loop cb (above n mp.buf) s)
  unfolding playback
  playback-above cb n mp s v =
      ground (arith, above-eq-drop n 0 mp.buf v.numbered, drop_all n mp.buf, zero_left)
    where
      zero_left : above (0 + n) mp.buf ≡ above n mp.buf
      zero_left = ap (λ (t : ℕ). above t mp.buf) (omega arith)

  module _ {S X : Type 0} (cb : StreamEvent B → S → S × Option X) where
    -- The callback takes these events one after another, each without an error, from a state to a state.
    abbrev pub Takes : List (StreamEvent B) → S → S → Type 0
    Takes [] s t = s ≡ t
    Takes (e ∷ es) s t = (s' : S) × (cb e s ≡ (s', none)) × Takes es s' t

    -- It takes them all, or it takes those before some event and fails on that one.
    abbrev pub Delivers : List (StreamEvent B) → S → S × Option X → Type 0
    Delivers es s (t, none) = Takes es s t
    Delivers es s (t, some x) =
        (taken : List (StreamEvent B)) × (e : StreamEvent B) × (rest : List (StreamEvent B))
        × (s' : S) × (es ≡ taken ++ e ∷ rest)
        × Takes taken s s'
        × (cb e s' ≡ (t, some x))

    Delivers-cons :
        (e : StreamEvent B) (es : List (StreamEvent B)) (s s' : S) (r : S × Option X)
        → cb e s ≡ (s', none)
        → Delivers es s' r
        → Delivers (e ∷ es) s r
    Delivers-cons e es s s' (t, none) q d = (s', q, d)
    Delivers-cons e es s s' (t, some x) q (taken, f, rest, u, p, ts, g) =
        (e ∷ taken, f, rest, u, ap (λ l. e ∷ l) p, (s', q, ts), g)

    playback_loop-Delivers :
        (es : List (StreamEvent B)) (s : S) → Delivers es s (playback_loop cb es s)
    unfolding playback_loop
    playback_loop-Delivers [] s = refl
    playback_loop-Delivers (e ∷ es) s = go (λ t. playback_loop-Delivers es t) (cb e s) refl
      where
        go :
            ((t : S) → Delivers es t (playback_loop cb es t))
            → (r : S × Option X) → cb e s ≡ r
            → Delivers (e ∷ es) s (unless_error cb (playback_loop cb es) r)
        go h (t, none) q = Delivers-cons e es s t (playback_loop cb es t) q (h t)
        go h (t, some x) q = ([], e, es, s, refl, refl, q)

    -- On a persister numbered 1, 2, …, Playback from a cursor that is not negative does not panic, and calls
    -- the callback on exactly the events whose number lies above the cursor, one after another in
    -- their order, each with the state that the one before left: on all of them, returning no error, or up
    -- to the first on which the callback fails, returning its error.
    pub playback_exact :
        (n : ℕ) (mp : MemPersister B) (s : S)
        → IsValid mp
        → (r : S × Option X) × (playback cb (pos n) mp s ≡ some r) × Delivers (above n mp.buf) s r
    playback_exact n mp s v = (
      playback_loop cb (above n mp.buf) s,
      playback-above cb n mp s v,
      playback_loop-Delivers (above n mp.buf) s,
    )

  module _ {W : Type 0} (broadcast : StreamEvent B → W → StreamEvent B × W × Bool)
      (keeps : (e : StreamEvent B) (w : W) → number (broadcast e w).0 ≡ number e) where
    abbrev sync_event : Sequenced B → StreamEvent B
    sync_event x = record empty_event { repo_sync = some x }

    persist_sync :
        (x : Sequenced B) (mp : MemPersister B) (w : W)
        → persist broadcast (sync_event x) mp w ≡ (record mp { seq = inc_int64 mp.seq }, w, true)
    unfolding persist assign
    persist_sync x mp w = refl

    -- A sync message makes Persist panic, and the counter has moved on: the next event is then
    -- numbered one too high, and Playback from a cursor one below its number passes it over.
    pub persist_sync_loses :
        {S X : Type 0} (cb : StreamEvent B → S → S × Option X) (s : S) (x : Sequenced B)
        (e : StreamEvent B) (mp : MemPersister B) (w : W)
        → IsPersistable e
        → IsValid mp
        → length mp.buf + 1 < max_int64
        → let r = persist broadcast (sync_event x) mp w in
          let next = (persist broadcast e r.0 r.1).0 in
          (r.2 ≡ true)
          × ((last : StreamEvent B) × (next.buf ≡ mp.buf ++ last ∷ [])
              × (number last ≡ some (pos (length mp.buf + 2))))
          × (playback cb (pos (length mp.buf + 1)) next s ≡ some (s, none))
    unfolding playback
    persist_sync_loses cb s x e mp w a v h = rw (persist_sync x mp w) (
        let m = length mp.buf in
        let skewed : MemPersister B = record mp { seq = inc_int64 mp.seq } in
        let counter : skewed.seq ≡ pos (m + 1) =
          ap inc_int64 v.counter ∙ inc_int64_of_lt m (omega arith) in
        let (last, q, num) = persist_accepts broadcast keeps e skewed w (m + 1) a counter h in
        rw q (
          refl,
          (last, refl, num ∙ ap (λ (t : ℕ). some (pos t)) (omega arith)),
          ground (arith, length-append mp.buf (last ∷ [])),
        ))
