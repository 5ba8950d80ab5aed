-- ===== src/Focaltech/Fingers.antt =====
-- focaltech.c over a run of packets: which fingers are reported, and the size of the touchpad.
use debugging.Common.{
  ℕ, ◌+◌, ◌/◌, ◌%◌, ◌^◌, ◌<◌, ◌≡◌, ◌≢◌, Bool, true, false, not, List, [], ◌∷◌, ◌∙◌, refl, arith,
  ◌==◌, ◌&&◌, ◌||◌, All,
}
use debugging.Common.Bits.{bit}
use debugging.Kernel.{Bytes, Input, input}
use debugging.Focaltech.{
  Data, max_fingers, slot_report, process_touch_packet, process_abs_packet, process_rel_packet,
  process_packet, process_packets, move_finger, first_field, second_field,
}

-- The packet is a position of the finger i.
abbrev pub is_position_of : ℕ → Bytes → Bool
is_position_of i packet = packet 0 % 16 == 0x6 && packet 1 / 16 == i + 1

move_finger-valid :
    (field dx dy i : ℕ) (s : Data)
    → ((move_finger field dx dy s).fingers i).valid ≡ (s.fingers i).valid
unfolding move_finger
move_finger-valid field dx dy i s = ground arith

process_rel_packet-valid :
    (i : ℕ) (packet : Bytes) (s : Data)
    → ((process_rel_packet packet s).fingers i).valid ≡ (s.fingers i).valid
unfolding process_rel_packet
process_rel_packet-valid i packet s =
    move_finger-valid (second_field packet) (packet 4) (packet 5) i _
    ∙ move_finger-valid (first_field packet) (packet 1) (packet 2) i
        (record s { pressed = not (packet 0 / 2 ^ 7 == 0) })

process_abs_packet-valid :
    (i : ℕ) (packet : Bytes) (s : Data)
    → packet 1 / 16 ≢ i + 1
    → (s.fingers i).valid ≡ false
    → ((process_abs_packet packet s).fingers i).valid ≡ false
unfolding process_abs_packet
process_abs_packet-valid i packet s other v = ground arith

process_touch_packet-valid :
    (i : ℕ) (packet : Bytes) (s : Data)
    → (s.fingers i).valid ≡ false
    → ((process_touch_packet packet s).fingers i).valid ≡ false
unfolding process_touch_packet
process_touch_packet-valid i packet s v = ground arith

process_packet-valid :
    (i : ℕ) (packet : Bytes) (s : Data)
    → is_position_of i packet ≡ false
    → (s.fingers i).valid ≡ false
    → ((process_packet packet s).fingers i).valid ≡ false
unfolding process_packet
process_packet-valid i packet s other v = ground (
  arith,
  process_touch_packet-valid i packet s,
  process_abs_packet-valid i packet s,
  process_rel_packet-valid i packet s,
)

process_packets-valid :
    (i : ℕ) (ps : List Bytes) (s : Data)
    → All (λ p. is_position_of i p ≡ false) ps
    → (s.fingers i).valid ≡ false
    → ((process_packets ps s).fingers i).valid ≡ false
unfolding process_packets
process_packets-valid i [] s others v = v
process_packets-valid i (p ∷ ps) s others v =
    process_packets-valid i ps (process_packet p s) others.1 (process_packet-valid i p s others.0 v)

lift-valid :
    (i : ℕ) (lift : Bytes) (s : Data)
    → i < max_fingers
    → lift 0 % 16 ≡ 0x3
    → bit (lift 1) i ≡ false
    → ((process_packet lift s).fingers i).valid ≡ false
unfolding process_packet process_touch_packet
lift-valid i lift s below touch up = ground arith

-- After a touch packet in which a finger is up, whatever packets follow, further touches of the
-- finger and relative movements among them, the finger is reported as away from the touchpad until
-- its position comes.
pub process_packets-lifted :
    (i : ℕ) (lift : Bytes) (ps : List Bytes) (s : Data)
    → i < max_fingers
    → lift 0 % 16 ≡ 0x3
    → bit (lift 1) i ≡ false
    → All (λ p. is_position_of i p ≡ false) ps
    → slot_report (process_packets (lift ∷ ps) s) i
      ≡ input (Input.mt_slot i) ∷ input (Input.mt_slot_state false) ∷ []
unfolding slot_report process_packets
process_packets-lifted i lift ps s below touch up others = ground (
  arith,
  process_packets-valid i ps (process_packet lift s) others (lift-valid i lift s below touch up),
)

-- A packet that names a finger wherever it is relative.
abbrev pub names_fingers : Bytes → Bool
names_fingers packet =
    not (packet 0 % 16 == 0x9) || (not (first_field packet == 0) && not (second_field packet == 0))

move_finger-limits :
    (field dx dy : ℕ) (s : Data)
    → field ≢ 0
    → ((move_finger field dx dy s).x_max ≡ s.x_max) × ((move_finger field dx dy s).y_max ≡ s.y_max)
unfolding move_finger
move_finger-limits field dx dy s ne = ground arith

process_rel_packet-limits :
    (packet : Bytes) (s : Data)
    → first_field packet ≢ 0
    → second_field packet ≢ 0
    → ((process_rel_packet packet s).x_max ≡ s.x_max)
      × ((process_rel_packet packet s).y_max ≡ s.y_max)
unfolding process_rel_packet
process_rel_packet-limits packet s first second =
    let start = record s { pressed = not (packet 0 / 2 ^ 7 == 0) } in
    let (x₁, y₁) = move_finger-limits (first_field packet) (packet 1) (packet 2) start first in
    let (x₂, y₂) =
      move_finger-limits (second_field packet) (packet 4) (packet 5)
        (move_finger (first_field packet) (packet 1) (packet 2) start) second in
    (x₂ ∙ x₁, y₂ ∙ y₁)

process_packet-limits :
    (packet : Bytes) (s : Data)
    → names_fingers packet ≡ true
    → ((process_packet packet s).x_max ≡ s.x_max) × ((process_packet packet s).y_max ≡ s.y_max)
unfolding process_packet process_touch_packet process_abs_packet
process_packet-limits packet s named = ground (arith, process_rel_packet-limits packet s)

-- The size of the touchpad stays what it is over any run of packets whose relative packets name a
-- finger in both fields.
pub process_packets-limits :
    (ps : List Bytes) (s : Data)
    → All (λ p. names_fingers p ≡ true) ps
    → ((process_packets ps s).x_max ≡ s.x_max) × ((process_packets ps s).y_max ≡ s.y_max)
unfolding process_packets
process_packets-limits [] s named = (refl, refl)
process_packets-limits (p ∷ ps) s named =
    let (x₁, y₁) = process_packet-limits p s named.0 in
    let (x₂, y₂) = process_packets-limits ps (process_packet p s) named.1 in (x₂ ∙ x₁, y₂ ∙ y₁)
