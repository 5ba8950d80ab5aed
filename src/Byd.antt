-- ===== src/Byd.antt =====
-- trackpoint-lost/byd.c: a BYD touchpad, which sends absolute packets when a touch begins and
-- relative ones while it lasts; a timer ends the touch. The children hold its commands and the
-- theorems.
mod Examples
pub mod Words
pub mod Framing
pub mod Stroke
pub mod Touch
pub mod Setup
use debugging.Common.{
  ℕ, ◌+◌, ◌*◌, ◌-◌, ◌^◌, Bool, true, false, not, List, [], ◌∷◌, ◌++◌, Option, none, some, ltb, ◌==◌,
  ◌&&◌, if◌then◌else◌,
}
use debugging.Common.Bits.{bit}
use debugging.Kernel.{Bytes, Effect, Headers, Button, Axis, u32, u64, s32}
use debugging.Psmouse.{Psmouse, Handler, Ret, emit}
use debugging.Psmouse.Report.{key, abs, sync}

-- BYD_PAD_WIDTH, BYD_PAD_HEIGHT and BYD_DT
abbrev pub pad_width : ℕ
pad_width = 11264

abbrev pub pad_height : ℕ
pad_height = 6656

abbrev pub dt : ℕ
dt = 11

-- BYD_PACKET_ABSOLUTE and BYD_PACKET_RELATIVE
abbrev pub packet_absolute : ℕ
packet_absolute = 0xf8

abbrev pub packet_relative : ℕ
packet_relative = 0x00

-- struct byd_data. The timer is the time at which it expires, or none; the coordinates are signed
-- 32-bit words.
pub record Data : Type 0 where
  pub timer : Option ℕ
  pub abs_x : ℕ
  pub abs_y : ℕ
  pub last_touch_time : ℕ
  pub btn_left : Bool
  pub btn_right : Bool
  pub touch : Bool

-- `byd_report_input`
unfoldable pub report_input : Data → List Effect
report_input s =
    key Button.touch s.touch
    ∷ key Button.tool_finger s.touch
    ∷ abs Axis.x (s32 s.abs_x)
    ∷ abs Axis.y (s32 s.abs_y)
    ∷ key Button.left s.btn_left
    ∷ key Button.right s.btn_right
    ∷ sync
    ∷ []

-- `byd_clear_touch`, which runs when the timer has expired.
unfoldable pub clear_touch : Psmouse Data → Psmouse Data
clear_touch m =
    let s = record m.private { timer = none; touch = false } in
    emit (record m { private = record s { abs_x = 5632; abs_y = 3328 } }) (report_input s)

-- `signx` or `signy` joined with a byte.
abbrev pub signed_word : Bool → ℕ → ℕ
signed_word negative byte = (if negative then 0xffffff00 else 0) + byte

-- The case BYD_PACKET_RELATIVE.
abbrev pub relative : Bytes → Data → Data
relative packet s = record s {
  abs_x = u32 (s.abs_x + signed_word (bit (packet 0) 4) (packet 1) * dt);
  abs_y = u32 (s.abs_y + (2 ^ 32 - signed_word (bit (packet 0) 5) (packet 2)) * dt);
  touch = true;
}

-- The buttons, before the report.
abbrev pub pressed : Bytes → Data → Data
pressed packet s = record s { btn_left = bit (packet 0) 0; btn_right = bit (packet 0) 1 }

module _ (h : Headers) where
  -- BYD_TOUCH_TIMEOUT
  abbrev pub touch_timeout : ℕ
  touch_timeout = h.msecs_to_jiffies 64

  -- The case BYD_PACKET_ABSOLUTE of `byd_process_byte`.
  abbrev pub absolute : ℕ → Bytes → Data → Data
  absolute now packet s = if s.touch then s else record s {
    touch = h.time_after now (u64 (s.last_touch_time + touch_timeout));
    abs_x = packet 1 * 44;
    abs_y = (255 - packet 2) * 26;
  }

  -- The switch of `byd_process_byte`; `none` for an unrecognized packet.
  unfoldable pub moved : ℕ → Bytes → Data → Option Data
  moved now packet s =
      if packet 3 == packet_absolute
      then some (absolute now packet s)
      else if packet 3 == packet_relative
      then some (relative packet s)
      else none

  -- The time since the last touch is reset, after the report.
  abbrev pub rearmed : ℕ → Data → Data
  rearmed now s =
      if s.touch
      then record s { last_touch_time = now; timer = some (u64 (now + touch_timeout)) }
      else s

  -- The end of `byd_process_byte`, from the outcome of the switch.
  finish : ℕ → Psmouse Data → Option Data → Psmouse Data × Ret
  finish now m none = (m, Ret.bad_data)
  finish now m (some s) = (
    emit (record m { private = rearmed now (pressed m.packet s) })
        (report_input (pressed m.packet s)),
    Ret.full_packet,
  )

  -- `byd_process_byte`; the argument is jiffies.
  unfoldable pub process_byte : ℕ → Handler Data
  unfolding finish
  process_byte now m =
      if ltb 0 m.pktcnt && not (bit (m.packet 0) 3)
      then (m, Ret.bad_data)
      else if ltb m.pktcnt m.pktsize
      then (m, Ret.good_data)
      else finish now m (moved now m.packet m.private)
