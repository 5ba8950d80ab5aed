-- ===== src/Logips2pp/Extended.antt =====
-- The two kinds of packets of a PS2++ mouse against the reports: those of a standard mouse, and the
-- extended ones as the mouse writes them.
use debugging.Common.{
  true, false, ℕ, ◌≤◌, ◌≡◌, inl, inr, List, [], ◌∷◌, ◌++◌, refl, arith, ap, ltb, Bool-cases, ◌==◌,
  ◌∙◌,
}
use debugging.Common.Bits.{bit_or-zero}
use debugging.Kernel.{Bytes, Effect, Headers, IsLinux}
use debugging.Psmouse.{Psmouse, Ret, emit, PsmouseType}
use debugging.Psmouse.Process
use debugging.Psmouse.Report.{sync, report_standard_buttons}
use debugging.Logips2pp.{
  packet_type, touchpad_extra, process_byte, is_extended, extended_report, adjusted,
}
use debugging.Logips2pp.Encoding.{
  Extended, IsShort, nibble, encode, report, nibble-extends, nibble-lt, first-fields, wheel-fields,
  buttons-fields, touchpad-fields,
}

is_extended-encode : (e : Extended) → is_extended (encode e) ≡ true
is_extended-encode (Extended.wheel_step b horizontal step side extra) =
    ground (arith, first-fields b)
is_extended-encode (Extended.buttons b side extra task back forward) =
    ground (arith, first-fields b)
is_extended-encode (Extended.touchpad_step b horizontal step) = refl

-- The report of the packet.
abbrev whole_report : Headers → Bytes → List Effect
whole_report h p = extended_report h p ++ (report_standard_buttons (adjusted p 0) ++ sync ∷ [])

whole_report-encode :
    (h : Headers) (e : Extended) → IsLinux h → IsShort e → whole_report h (encode e) ≡ report e
unfolding extended_report adjusted report_standard_buttons
whole_report-encode h (Extended.wheel_step b horizontal step side extra) linux short =
    let (left, middle, right, six, three, type) = first-fields b in
    let (seven, four, five, low, small) =
      wheel-fields (nibble step) side extra horizontal (nibble-lt step short) in
    let extends = nibble-extends h step _ linux short small low in
    rw (type, left, middle, right, seven, four, five, extends) refl
whole_report-encode h (Extended.buttons b side extra task back forward) linux short =
    let (left, middle, right, six, three, type) = first-fields b in
    let (b₀, b₁, b₂, b₃, b₄) = buttons-fields side extra task back forward in
    rw (type, left, middle, right, b₀, b₁, b₂, b₃, b₄) refl
whole_report-encode h (Extended.touchpad_step b horizontal step) linux short =
    let (three, high, left, middle, right) =
      touchpad-fields b horizontal (nibble step) (nibble-lt step short) in
    let small = nibble-lt step short in
    let extends = nibble-extends h step (nibble step) linux short (omega arith) (omega arith) in
    rw (left, middle, right, three, high, extends) refl

-- The packet is read in its three bytes only.
whole_report-same :
    (h : Headers) (p q : Bytes)
    → p 0 ≡ q 0
    → p 1 ≡ q 1
    → p 2 ≡ q 2
    → whole_report h p ≡ whole_report h q
unfolding extended_report adjusted
whole_report-same h p q e₀ e₁ e₂ = elim (Bool-cases (packet_type q == touchpad_extra)) [
  | inl touchpad ↦ rw (e₀, e₁, e₂, touchpad) refl
  | inr mouse ↦ rw (e₀, e₁, e₂, mouse) (rw e₀ refl)
]

process_byte-extended :
    {P : Type 0} (h : Headers) (m : Psmouse P)
    → 3 ≤ m.pktcnt
    → is_extended m.packet ≡ true
    → process_byte h m
      ≡ (emit (record m { packet = adjusted m.packet }) (whole_report h m.packet), Ret.full_packet)
unfolding process_byte
process_byte-extended h m full extended =
    let three : ltb m.pktcnt 3 ≡ false = ground arith in rw (three, extended) refl

-- Decoding an extended packet gives what was encoded: each wheel step of up to seven, on the axis
-- it is for, and each button, with the left, middle and right ones from the byte that holds them.
pub process_byte-encode :
    {P : Type 0} (h : Headers) (e : Extended) (m : Psmouse P)
    → IsLinux h
    → IsShort e
    → 3 ≤ m.pktcnt
    → m.packet 0 ≡ encode e 0
    → m.packet 1 ≡ encode e 1
    → m.packet 2 ≡ encode e 2
    → let (m', ret) = process_byte h m in
      (ret ≡ Ret.full_packet) × (m'.effects ≡ m.effects ++ report e)
process_byte-encode h e m linux short full p₀ p₁ p₂ =
    let extended : is_extended m.packet ≡ true = rw (p₀, p₁) (is_extended-encode e) in
    rw (process_byte-extended h m full extended) (
      refl,
      ap (λ l. m.effects ++ l)
          (whole_report-same h m.packet (encode e) p₀ p₁ p₂ ∙ whole_report-encode h e linux short),
    )

-- On a full packet that is not an extended one, `ps2pp_process_byte` does what `psmouse_process_byte`
-- does for a mouse of this type with no extra buttons, and returns the same.
pub process_byte-standard :
    {P : Type 0} (h : Headers) (m : Psmouse P)
    → is_extended m.packet ≡ false
    → m.pktcnt ≡ 3
    → m.pktsize ≡ 3
    → m.protocol.type ≡ PsmouseType.ps2pp
    → m.extra_buttons ≡ 0
    → let (m₁, ret₁) = process_byte h m in
      let (m₂, ret₂) = Process.process_byte h m in
      (ret₁ ≡ ret₂) × (m₁.effects ≡ m₂.effects) × ((i : ℕ) → m₁.packet i ≡ m₂.packet i)
unfolding process_byte Process.process_byte
process_byte-standard h m plain full size type extra = ground (arith, bit_or-zero (m.packet 0))
