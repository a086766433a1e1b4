-- ===== src/Events/Persist/Loop.antt =====
-- One round of the loop of Playback.
use referendum_services.Prelude.{
  ℕ, ◌<◌, ◌≤◌, List, ◌∷◌, Option, none, some, ◌≡◌, ap, arith, length, drop,
}
use referendum_services.Prelude.Int.{pos}
use referendum_services.Events.Event.{StreamEvent}
use referendum_services.Events.Persist.{MemPersister, playback, playback_loop, unless_error}

module _ {B S X : Type 0} (cb : StreamEvent B → S → S × Option X) where
  pub playback_loop-next :
      (e : StreamEvent B) (es : List (StreamEvent B)) (s s' : S)
      → cb e s ≡ (s', none)
      → playback_loop cb (e ∷ es) s ≡ playback_loop cb es s'
  unfolding playback_loop
  playback_loop-next e es s s' h = ap (unless_error cb (playback_loop cb es)) h

  pub playback_loop-stop :
      (e : StreamEvent B) (es : List (StreamEvent B)) (s s' : S) (x : X)
      → cb e s ≡ (s', some x)
      → playback_loop cb (e ∷ es) s ≡ (s', some x)
  unfolding playback_loop
  playback_loop-stop e es s s' x h = ap (unless_error cb (playback_loop cb es)) h

  pub playback_past :
      (n : ℕ) (mp : MemPersister B) (s : S)
      → length mp.buf ≤ n
      → playback cb (pos n) mp s ≡ some (s, none)
  unfolding playback
  playback_past n mp s h = ground arith

  pub playback_within :
      (n : ℕ) (mp : MemPersister B) (s : S)
      → n < length mp.buf
      → playback cb (pos n) mp s ≡ some (playback_loop cb (drop n mp.buf) s)
  unfolding playback
  playback_within n mp s h = ground arith
