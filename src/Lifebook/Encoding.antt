-- ===== src/Lifebook/Encoding.antt =====
-- The touches and movements of a LifeBook, as packets and as reports.
use debugging.Common.{
  ℕ, ◌+◌, ◌-◌, ◌*◌, ◌/◌, ◌%◌, ◌<◌, ◌≡◌, ◌≢◌, Bool, true, false, List, [], ◌∷◌, refl, arith,
  if◌then◌else◌,
}
use debugging.Common.Int.{pos, neg}
use debugging.Common.Bits.{bit, of_bool}
use debugging.Kernel.{Bytes, bytes, Effect, Input, Button, Axis, second_input}
use debugging.Psmouse.{ret_bat}
use debugging.Psmouse.Report.{key, abs, sync, report_standard_buttons}
use debugging.Psmouse.Report.Packets
use debugging.Psmouse.Report.Packets.{
  Movement, IsSmall, report_standard_buttons-encode, report_standard_motion-encode, first_byte,
}
use debugging.Lifebook.{Data, packet_report, absolute_report, relative_report}
use debugging.Lifebook.Framing.{frame}

-- A touch of the screen, with y from the bottom, or a movement of the stick.
pub record Touch : Type 0 where
  pub left : Bool
  pub right : Bool
  pub down : Bool
  pub x : ℕ
  pub y : ℕ

pub data Event : Type 0 where
  touch : Touch → Event
  movement : Movement → Event

-- The number of positions along each axis.
abbrev pub span : Bool → ℕ
span six = if six then 4096 else 1024

abbrev pub IsFit : Bool → Event → Type 0
IsFit six (Event.touch t) = (t.x < span six) × (t.y < span six)
IsFit six (Event.movement v) = IsSmall v

abbrev pub buttons : Touch → ℕ
buttons t = of_bool t.left + 2 * of_bool t.right + 4 * of_bool t.down

-- The six low bits of a coordinate, with its two high ones again above them.
abbrev pub sealed : ℕ → ℕ
sealed n = n % 64 + n % 64 / 16 * 64

abbrev pub short_touch : Touch → Bytes
short_touch t =
    bytes ((buttons t + 16 * (t.x / 256) + 64 * (t.y / 256)) ∷ (t.x % 256) ∷ (t.y % 256) ∷ [])

abbrev pub long_touch : Touch → Bytes
long_touch t = bytes (
    buttons t
    ∷ (t.x / 64 + t.y % 64 / 16 * 64)
    ∷ sealed t.x
    ∷ 0xc0
    ∷ (t.y / 64 + t.x % 64 / 16 * 64)
    ∷ sealed t.y
    ∷ [])

-- The packet of an event, as the machine writes it.
abbrev pub encode : Bool → Event → Bytes
encode six (Event.touch t) = if six then long_touch t else short_touch t
encode six (Event.movement v) = bytes (Packets.encode v)

-- What both devices are told of an event.
abbrev pub told : Bool → Data → Event → List Effect
told six s (Event.touch t) =
    abs Axis.x (pos t.x)
    ∷ abs Axis.y (pos (span six - t.y))
    ∷ key Button.touch t.down
    ∷ sync
    ∷ (if s.has_dev2
        then second_input (Input.key Button.left t.left)
          ∷ second_input (Input.key Button.middle t.down)
          ∷ second_input (Input.key Button.right t.right)
          ∷ second_input Input.sync
          ∷ []
        else [])
told six s (Event.movement v) =
    if s.has_dev2
    then second_input (Input.rel Axis.x v.dx)
      ∷ second_input (Input.rel Axis.y (neg v.dy))
      ∷ second_input (Input.key Button.left v.left)
      ∷ second_input (Input.key Button.middle v.middle)
      ∷ second_input (Input.key Button.right v.right)
      ∷ second_input Input.sync
      ∷ []
    else []

buttons-fields :
    (t : Touch) (byte n : ℕ)
    → byte ≡ buttons t + 16 * n
    → (bit byte 0 ≡ t.left) × (bit byte 2 ≡ t.down) × (bit byte 1 ≡ t.right) × (bit byte 3 ≡ false)
buttons-fields t byte n e = ground arith

movement-relative : (v : Movement) → (bit (first_byte v) 3 ≡ true) × (first_byte v < 128)
movement-relative v = ground arith

pub encode-accepted :
    (six : Bool) (e : Event)
    → IsFit six e
    → ((frame six).accepts (encode six e) ≡ true) × (encode six e 0 ≢ ret_bat)
encode-accepted true (Event.touch t) fit = (ground arith, λ e. absurd (ground arith))
encode-accepted false (Event.touch t) fit =
    let (left, down, right, absolute) =
      buttons-fields t (short_touch t 0) (t.x / 256 + 4 * (t.y / 256)) (omega arith) in
    (rw absolute refl, λ e. absurd (ground arith))
encode-accepted six (Event.movement v) fit =
    let (relative, small) = movement-relative v in (rw relative refl, λ e. absurd (omega arith))

long_touch-fields :
    (t : Touch)
    → t.x < 4096
    → t.y < 4096
    → let p = long_touch t in (p 1 % 64 * 64 + p 2 % 64 ≡ t.x) × (p 4 % 64 * 64 + p 5 % 64 ≡ t.y)
long_touch-fields t x y = (omega arith, omega arith)

short_touch-fields :
    (t : Touch)
    → t.x < 1024
    → t.y < 1024
    → let p = short_touch t in (p 1 + p 0 / 16 % 4 * 256 ≡ t.x) × (p 2 + p 0 / 64 % 4 * 256 ≡ t.y)
short_touch-fields t x y = (ground arith, ground arith)

packet_report-movement :
    (six : Bool) (v : Movement) (s : Data)
    → IsSmall v
    → packet_report six (encode six (Event.movement v)) s ≡ told six s (Event.movement v)
unfolding packet_report relative_report
packet_report-movement six v s fit =
    let pressed : report_standard_buttons (encode six (Event.movement v) 0)
        ≡ key Button.left v.left ∷ key Button.middle v.middle ∷ key Button.right v.right ∷ [] =
      report_standard_buttons-encode v in
    rw ((movement-relative v).0, report_standard_motion-encode v fit, pressed) refl

pub packet_report-encode :
    (six : Bool) (e : Event) (s : Data)
    → IsFit six e
    → packet_report six (encode six e) s ≡ told six s e
unfolding packet_report absolute_report relative_report report_standard_buttons
packet_report-encode true (Event.touch t) s fit =
    let (left, down, right, absolute) = buttons-fields t (buttons t) 0 (omega arith) in
    let (x, y) = long_touch-fields t fit.0 fit.1 in rw (absolute, x, y, left, down, right) refl
packet_report-encode false (Event.touch t) s fit =
    let (left, down, right, absolute) =
      buttons-fields t (short_touch t 0) (t.x / 256 + 4 * (t.y / 256)) (omega arith) in
    let (x, y) = short_touch-fields t fit.0 fit.1 in rw (absolute, x, y, left, down, right) refl
packet_report-encode six (Event.movement v) s fit = packet_report-movement six v s fit
