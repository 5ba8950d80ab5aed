-- ===== src/Lifebook/Framing.antt =====
-- The LifeBook as a handler with a frame, whose packets are of three bytes or of six.
use debugging.Common.{
  ℕ, zero, suc, ◌<◌, ◌≡◌, Bool, true, false, not, none, some, ◌&&◌, ◌||◌, refl, arith, ◌∙◌,
  Bool-cases, inl, inr, if◌then◌else◌,
}
use debugging.Kernel.{Bytes}
use debugging.Psmouse.{Psmouse, Ret, emit}
use debugging.Psmouse.Report.{report_standard_buttons, report_standard_motion}
use debugging.Psmouse.Receive.Framed.{Frame, IsFramed, Holds}
use debugging.Lifebook.{
  Data, process_byte, check, check_six, packet_report, absolute_report, relative_report,
  is_relative, first_fits, third_fits, fourth_fits, fifth_fits, sixth_fits, sixth_agrees,
}

-- A packet of three bytes.
abbrev pub is_short : Bool → Bytes → Bool
is_short six p = is_relative p || not six

-- All tests on a packet of six bytes.
abbrev pub six_fits : Bytes → Bool
six_fits p =
    first_fits p
    && (third_fits p && (fourth_fits p && (fifth_fits p && (sixth_fits p && sixth_agrees p))))

abbrev pub frame : Bool → Frame Data
frame six = record {
  last = λ p. if is_short six p then 2 else 5;
  pktsize = 3;
  accepts = λ p. is_short six p || six_fits p;
  step = λ now p s. s;
  report = λ now p s. packet_report six p s;
}

-- Every test passes.
six_fits-parts :
    (p : Bytes)
    → six_fits p ≡ true
    → (first_fits p ≡ true)
      × (third_fits p ≡ true)
      × (fourth_fits p ≡ true)
      × (fifth_fits p ≡ true)
      × (sixth_fits p ≡ true)
      × (sixth_agrees p ≡ true)
six_fits-parts p a = ground arith

check-short :
    (six : Bool) (n : ℕ) (q : Bytes)
    → is_short six q ≡ true
    → n < 3
    → (check six n q ≡ some Ret.good_data) × (check six 3 q ≡ none)
unfolding check
check-short six n q short below = rw short (ground arith, refl)

check-long :
    (six : Bool) (n : ℕ) (q : Bytes) → is_short six q ≡ false → check six n q ≡ check_six n q
unfolding check
check-long six n q long = rw long refl

check_six-asks :
    (k : ℕ) (p q : Bytes)
    → six_fits p ≡ true
    → k < 5
    → ((i : ℕ) → i < suc k → q i ≡ p i)
    → check_six (suc k) q ≡ some Ret.good_data
unfolding check_six
check_six-asks zero p q a below same = rw (same 0 (omega arith), (six_fits-parts p a).0) refl
check_six-asks (suc zero) p q a below same = refl
check_six-asks (suc (suc zero)) p q a below same =
    rw (same 2 (omega arith), (six_fits-parts p a).1) refl
check_six-asks (suc (suc (suc zero))) p q a below same =
    rw (same 3 (omega arith), (six_fits-parts p a).2) refl
check_six-asks (suc (suc (suc (suc zero)))) p q a below same =
    rw (same 4 (omega arith), same 2 (omega arith), (six_fits-parts p a).3) refl
check_six-asks (suc (suc (suc (suc (suc k))))) p q a below same = absurd (omega arith)

check_six-full :
    (p q : Bytes) → six_fits p ≡ true → ((i : ℕ) → i < 6 → q i ≡ p i) → check_six 6 q ≡ none
unfolding check_six
check_six-full p q a same =
    rw (same 5 (omega arith), same 1 (omega arith), (six_fits-parts p a).4, (six_fits-parts p a).5)
      refl

packet_report-same :
    (six : Bool) (p q : Bytes) (s : Data)
    → ((i : ℕ) → i < 6 → q i ≡ p i)
    → packet_report six q s ≡ packet_report six p s
unfolding packet_report absolute_report relative_report report_standard_buttons
    report_standard_motion
packet_report-same six p q s same =
    rw
      (
        same 0 (omega arith),
        same 1 (omega arith),
        same 2 (omega arith),
        same 4 (omega arith),
        same 5 (omega arith),
      )
      refl

-- A packet of three bytes is read in these only.
packet_report-short :
    (six : Bool) (p q : Bytes) (s : Data)
    → is_short six p ≡ true
    → ((i : ℕ) → i < 3 → q i ≡ p i)
    → packet_report six q s ≡ packet_report six p s
unfolding packet_report absolute_report relative_report report_standard_buttons
    report_standard_motion
packet_report-short false p q s short same =
    rw (same 0 (omega arith), same 1 (omega arith), same 2 (omega arith)) refl
packet_report-short true p q s short same =
    let relative : is_relative p ≡ true = ground arith in
    rw (same 0 (omega arith), same 1 (omega arith), same 2 (omega arith), relative) refl

conclude-none :
    (six : Bool) (m : Psmouse Data) (p : Bytes)
    → check six m.pktcnt m.packet ≡ none
    → packet_report six m.packet m.private ≡ packet_report six p m.private
    → process_byte six m ≡ (emit m (packet_report six p m.private), Ret.full_packet)
unfolding process_byte
conclude-none six m p e same = rw (e, same) refl

conclude-some :
    (six : Bool) (m : Psmouse Data)
    → check six m.pktcnt m.packet ≡ some Ret.good_data
    → process_byte six m ≡ (m, Ret.good_data)
unfolding process_byte
conclude-some six m e = rw e refl

process_byte-asks :
    (six : Bool) (now k : ℕ) (p : Bytes) (m : Psmouse Data)
    → (frame six).accepts p ≡ true
    → k < (frame six).last p
    → m.pktcnt ≡ suc k
    → Holds m p (suc k)
    → process_byte six m ≡ (m, Ret.good_data)
process_byte-asks six now k p m a below counted holds = elim (Bool-cases (is_short six p)) [
  | inl short ↦
      let begun : is_short six m.packet ≡ true = rw (holds 0 (omega arith)) short in
      conclude-some six m (simp counted (check-short six (suc k) m.packet begun (ground arith)).0)
  | inr long ↦
      let begun : is_short six m.packet ≡ false = rw (holds 0 (omega arith)) long in
      let fits : six_fits p ≡ true = ground arith in
      conclude-some six m (
        simp counted (
          check-long six (suc k) m.packet begun
          ∙ check_six-asks k p m.packet fits (ground arith) holds))
]

process_byte-full :
    (six : Bool) (p : Bytes) (m : Psmouse Data)
    → (frame six).accepts p ≡ true
    → m.pktcnt ≡ suc ((frame six).last p)
    → Holds m p (suc ((frame six).last p))
    → process_byte six m ≡ (emit m (packet_report six p m.private), Ret.full_packet)
process_byte-full six p m a counted holds = elim (Bool-cases (is_short six p)) [
  | inl short ↦
      let last : (frame six).last p ≡ 2 = rw short refl in
      let three : m.pktcnt ≡ 3 = omega (arith, last) in
      let same : Holds m p 3 = λ i b. holds i (omega (arith, last)) in
      let begun : is_short six m.packet ≡ true = rw (same 0 (omega arith)) short in
      conclude-none six m p (simp three (check-short six 0 m.packet begun (omega arith)).1)
        (packet_report-short six p m.packet m.private short same)
  | inr long ↦
      let last : (frame six).last p ≡ 5 = rw long refl in
      let whole : m.pktcnt ≡ 6 = omega (arith, last) in
      let same : Holds m p 6 = λ i b. holds i (omega (arith, last)) in
      let begun : is_short six m.packet ≡ false = rw (same 0 (omega arith)) long in
      let fits : six_fits p ≡ true = ground arith in
      conclude-none six m p
        (simp whole (check-long six 6 m.packet begun ∙ check_six-full p m.packet fits same))
        (packet_report-same six p m.packet m.private same)
]

pub process_byte-IsFramed : (six : Bool) → IsFramed (λ now. process_byte six) (frame six)
process_byte-IsFramed six = record {
  fits = λ p. ground arith;
  asks = λ now k p m a below counted sized holds.
      process_byte-asks six now k p m a below counted holds;
  full = λ now p m a counted sized holds. (m.packet, process_byte-full six p m a counted holds);
}
