-- ===== src/Byd/Stroke.antt =====
-- A stroke of a finger on a BYD touchpad: relative packets, byte by byte through
-- `psmouse_receive_byte`.
use debugging.Common.{
  ℕ, ◌+◌, ◌*◌, ◌/◌, ◌^◌, ◌≤◌, ◌<◌, ◌≡◌, Bool, true, List, [], ◌∷◌, ◌++◌, some, ◌∙◌, refl, ap, arith,
  All, length,
}
use debugging.Common.Int.{ℤ, neg, abs, times, ◌+ℤ◌}
use debugging.Common.Bits.{bit, of_bool}
use debugging.Kernel.{Headers, IsLinux, Bytes, bytes, Input, Button, Axis, u64}
use debugging.Kernel.Observe.{inputs, inputs-append, inputs-after, deeds}
use debugging.Psmouse.{Psmouse}
use debugging.Psmouse.Receive.Framed.{Arrival, IsReady, IsOnTime, arrivals, reported, receive_timed}
use debugging.Psmouse.Receive.Framed.Packets.{receive_timed-packets}
use debugging.Byd.{Data, process_byte, moved, report_input, packet_relative, dt}
use debugging.Byd.Words.{word, low, is_negative, s32-word, word-right, word-up, abs-right, abs-up}
use debugging.Byd.Framing.{frame, process_byte-IsFramed}

-- A movement of the finger, with the physical buttons, and the times of its packet.
pub record Movement : Type 0 where
  pub left : Bool
  pub right : Bool
  pub dx : ℤ
  pub dy : ℤ
  pub start : ℕ
  pub gap : ℕ → ℕ

-- The packet that the touchpad sends for it.
abbrev pub encode : Movement → Bytes
encode v = bytes (
    (of_bool v.left
      + 2 * of_bool v.right
      + 8
      + 16 * of_bool (is_negative v.dx)
      + 32 * of_bool (is_negative v.dy))
    ∷ low v.dx
    ∷ low v.dy
    ∷ packet_relative
    ∷ [])

abbrev pub arriving : List Movement → List Arrival
arriving [] = []
arriving (v ∷ vs) = record { packet = encode v; start = v.start; gap = v.gap } ∷ arriving vs

-- A displacement of at most 255 along each axis, and no gap above half a second.
abbrev pub IsBrief : Headers → Movement → Type 0
IsBrief h v = (abs v.dx ≤ 255) × (abs v.dy ≤ 255) × ((k : ℕ) → v.gap k ≤ h.hz / 2)

-- The reports of a stroke from a position: a displacement counts for eleven units, and up is
-- positive on the wire.
abbrev pub positions : List Movement → ℤ → ℤ → List Input
positions [] x y = []
positions (v ∷ vs) x y =
    let x' = x +ℤ times dt v.dx in
    let y' = y +ℤ neg (times dt v.dy) in
    Input.key Button.touch true
    ∷ Input.key Button.tool_finger true
    ∷ Input.abs Axis.x x'
    ∷ Input.abs Axis.y y'
    ∷ Input.key Button.left v.left
    ∷ Input.key Button.right v.right
    ∷ Input.sync
    ∷ positions vs x' y'

encode-fields :
    (v : Movement)
    → let first = encode v 0 in
      (bit first 0 ≡ v.left)
      × (bit first 1 ≡ v.right)
      × (bit first 3 ≡ true)
      × (bit first 4 ≡ is_negative v.dx)
      × (bit first 5 ≡ is_negative v.dy)
      × (first < 64)
encode-fields v = ground arith

moved-encode :
    (h : Headers) (now : ℕ) (v : Movement) (x y : ℤ) (s : Data)
    → abs v.dx ≤ 255
    → abs v.dy ≤ 255
    → abs x + 2816 < 2 ^ 31
    → abs y + 2816 < 2 ^ 31
    → s.abs_x ≡ word x
    → s.abs_y ≡ word y
    → moved h now (encode v) s
      ≡ some (record s {
        abs_x = word (x +ℤ times dt v.dx);
        abs_y = word (y +ℤ neg (times dt v.dy));
        touch = true;
      })
unfolding moved
moved-encode h now v x y s dx dy bx by ex ey =
    let (left, right, always, sx, sy, small) = encode-fields v in
    rw (sx, sy, ex, ey, word-right x v.dx dx bx, word-up y v.dy dy by) refl

step-encode :
    (h : Headers) (now : ℕ) (v : Movement) (x y : ℤ) (s : Data)
    → abs v.dx ≤ 255
    → abs v.dy ≤ 255
    → abs x + 2816 < 2 ^ 31
    → abs y + 2816 < 2 ^ 31
    → s.abs_x ≡ word x
    → s.abs_y ≡ word y
    → let s' = (frame h).step now (encode v) s in
      (s'.abs_x ≡ word (x +ℤ times dt v.dx)) × (s'.abs_y ≡ word (y +ℤ neg (times dt v.dy)))
step-encode h now v x y s dx dy bx by ex ey =
    rw (moved-encode h now v x y s dx dy bx by ex ey) (refl, refl)

report-encode :
    (h : Headers) (now : ℕ) (v : Movement) (x y : ℤ) (s : Data) (vs : List Movement)
    → abs v.dx ≤ 255
    → abs v.dy ≤ 255
    → abs x + 2816 < 2 ^ 31
    → abs y + 2816 < 2 ^ 31
    → s.abs_x ≡ word x
    → s.abs_y ≡ word y
    → inputs (deeds ((frame h).report now (encode v) s))
        ++ positions vs (x +ℤ times dt v.dx) (y +ℤ neg (times dt v.dy))
      ≡ positions (v ∷ vs) x y
unfolding report_input
report-encode h now v x y s vs dx dy bx by ex ey =
    let (left, right, always, sx, sy, small) = encode-fields v in
    rw
      (
        moved-encode h now v x y s dx dy bx by ex ey,
        s32-word (x +ℤ times dt v.dx) (omega (arith, abs-right x v.dx dx)),
        s32-word (y +ℤ neg (times dt v.dy)) (omega (arith, abs-up y v.dy dy)),
        left,
        right,
      )
      refl

stroke-IsOnTime :
    (h : Headers) (stroke : List Movement)
    → All (IsBrief h) stroke
    → All (IsOnTime h (frame h)) (arriving stroke)
stroke-IsOnTime h [] o = tt
stroke-IsOnTime h (v ∷ vs) o =
    let (left, right, always, sx, sy, small) = encode-fields v in
    ((o.0.2, (λ e. absurd (omega arith)), rw always refl), stroke-IsOnTime h vs o.1)

reported-stroke :
    (h : Headers) (stroke : List Movement) (x y : ℤ) (s : Data)
    → All (IsBrief h) stroke
    → abs x + 2816 * length stroke < 2 ^ 31
    → abs y + 2816 * length stroke < 2 ^ 31
    → s.abs_x ≡ word x
    → s.abs_y ≡ word y
    → inputs (reported (frame h) (arriving stroke) s) ≡ positions stroke x y
reported-stroke h [] x y s o bx by ex ey = refl
reported-stroke h (v ∷ vs) x y s o bx by ex ey =
    let now = u64 (v.start + v.gap 1 + v.gap 2 + v.gap 3) in
    let x' = x +ℤ times dt v.dx in
    let y' = y +ℤ neg (times dt v.dy) in
    let s' = (frame h).step now (encode v) s in
    let (ex', ey') = step-encode h now v x y s o.0.0 o.0.1 (omega arith) (omega arith) ex ey in
    let next =
      reported-stroke h vs x' y' s' o.1 (omega (arith, abs-right x v.dx o.0.0))
        (omega (arith, abs-up y v.dy o.0.1)) ex' ey' in
    inputs-append (deeds ((frame h).report now (encode v) s)) (reported (frame h) (arriving vs) s')
    ∙ ap (λ l. inputs (deeds ((frame h).report now (encode v) s)) ++ l) next
    ∙ report-encode h now v x y s vs o.0.0 o.0.1 (omega arith) (omega arith) ex ey

-- A stroke on a touchpad between two packets: every packet of a displacement within 255, that comes
-- without a gap above half a second, is reported as a touch at the position before it moved by
-- eleven units for each count, in order and with nothing else, as long as the stroke is so short
-- that no coordinate can leave 32 bits; the touchpad is ready for the next packet.
pub receive_timed-stroke :
    (h : Headers) (linux : IsLinux h) (z : h.hz < 2 ^ 63) (stroke : List Movement) (x y : ℤ)
    (m : Psmouse Data)
    → All (IsBrief h) stroke
    → abs x + 2816 * length stroke < 2 ^ 31
    → abs y + 2816 * length stroke < 2 ^ 31
    → IsReady (frame h) m
    → m.private.abs_x ≡ word x
    → m.private.abs_y ≡ word y
    → let m' = receive_timed h (process_byte h) (arrivals (frame h) (arriving stroke)) m in
      IsReady (frame h) m' × (inputs m'.effects ≡ inputs m.effects ++ positions stroke x y)
receive_timed-stroke h linux z stroke x y m o bx by r ex ey =
    let (r', s', e) =
      receive_timed-packets h linux z (process_byte h) (frame h) (process_byte-IsFramed h)
        (arriving stroke) m (stroke-IsOnTime h stroke o) r in
    let m' = receive_timed h (process_byte h) (arrivals (frame h) (arriving stroke)) m in
    (
      r',
      inputs-after m'.effects m.effects (reported (frame h) (arriving stroke) m.private) e
          ∙ ap (λ l. inputs m.effects ++ l) (reported-stroke h stroke x y m.private o bx by ex ey),
    )
