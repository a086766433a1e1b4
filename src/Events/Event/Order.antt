-- ===== src/Events/Event/Order.antt =====
-- The two ways to ask an event for its sequence number, and to set it.
use referendum_services.Prelude.{Option, none, some, false, ◌≡◌, refl, arith}
use referendum_services.Prelude.Int.{negsuc}
use referendum_services.Events.Event.{StreamEvent, get_sequence, sequence}

module _ {B : Type 0} where
  -- GetSequence and Sequence agree on every event, the nil one included, and where GetSequence says
  -- that there is no number both return -1.
  pub sequence-get_sequence :
      (e : Option (StreamEvent B))
      → (sequence e ≡ (get_sequence e).0) × ((get_sequence e).1 ≡ false → sequence e ≡ negsuc 0)
  unfolding sequence get_sequence
  sequence-get_sequence none = (refl, λ h. refl)
  sequence-get_sequence (some e) = ground arith
