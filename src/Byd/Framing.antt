-- ===== src/Byd/Framing.antt =====
-- The BYD touchpad as a handler with a frame.
use debugging.Common.{
  ℕ, ◌<◌, ◌≡◌, inl, inr, true, List, [], ◌++◌, Option, none, some, ◌==◌, ◌&&◌, ◌||◌, refl, arith,
  Bool-cases,
}
use debugging.Common.Bits.{bit}
use debugging.Kernel.{Headers, Bytes, Effect}
use debugging.Psmouse.{Psmouse, Ret}
use debugging.Psmouse.Receive.Framed.{Frame, IsFramed, Holds}
use debugging.Byd.{
  Data, process_byte, moved, pressed, rearmed, report_input, packet_absolute, packet_relative,
}

-- What the outcome of the switch makes of the data, and the report.
abbrev stepped_by : Headers → ℕ → Bytes → Data → Option Data → Data
stepped_by h now p s none = s
stepped_by h now p s (some s') = rearmed h now (pressed p s')

abbrev reported_by : Bytes → Option Data → List Effect
reported_by p none = []
reported_by p (some s') = report_input (pressed p s')

-- The touchpad as a handler with a frame: packets of four bytes.
abbrev pub frame : Headers → Frame Data
frame h = record {
  last = λ p. 3;
  pktsize = 4;
  accepts = λ p. bit (p 0) 3 && (p 3 == packet_absolute || p 3 == packet_relative);
  step = λ now p s. stepped_by h now p s (moved h now p s);
  report = λ now p s. reported_by p (moved h now p s);
}

moved-same :
    (h : Headers) (now : ℕ) (p q : Bytes) (s : Data)
    → ((i : ℕ) → i < 4 → p i ≡ q i)
    → moved h now p s ≡ moved h now q s
unfolding moved
moved-same h now p q s same =
    rw (same 0 (omega arith), same 1 (omega arith), same 2 (omega arith), same 3 (omega arith)) refl

moved-accepted :
    (h : Headers) (now : ℕ) (p : Bytes) (s : Data)
    → (frame h).accepts p ≡ true
    → (s' : Data) × (moved h now p s ≡ some s')
unfolding moved
moved-accepted h now p s a = elim (Bool-cases (p 3 == packet_absolute)) [
  | inl absolute ↦ rw absolute (_, refl)
  | inr other ↦
      let relative : (p 3 == packet_relative) ≡ true = ground arith in
      rw (other, relative) (_, refl)
]

process_byte-full :
    (h : Headers) (now : ℕ) (p : Bytes) (m : Psmouse Data)
    → (frame h).accepts p ≡ true
    → m.pktcnt ≡ 4
    → m.pktsize ≡ 4
    → Holds m p 4
    → process_byte h now m ≡ (
      record m {
        private = (frame h).step now p m.private;
        effects = m.effects ++ (frame h).report now p m.private;
      },
      Ret.full_packet,
    )
unfolding process_byte
process_byte-full h now p m a counted sized holds =
    let (s', e) = moved-accepted h now p m.private a in
    let always : bit (p 0) 3 ≡ true = ground arith in
    let first = holds 0 (omega arith) in
    rw (counted, sized, first, always, moved-same h now m.packet p m.private holds, e)
      (rw first refl)

pub process_byte-IsFramed : (h : Headers) → IsFramed (process_byte h) (frame h)
unfolding process_byte
process_byte-IsFramed h = record {
  fits = λ p. omega arith;
  asks = λ now k p m a below counted sized holds. ground (arith, holds 0 (omega arith));
  full = λ now p m a counted sized holds.
      (m.packet, process_byte-full h now p m a counted sized holds);
}
