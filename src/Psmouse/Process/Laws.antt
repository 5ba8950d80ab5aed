-- ===== src/Psmouse/Process/Laws.antt =====
-- What `psmouse_process_byte` does as a protocol handler.
use debugging.Common.{ℕ, ◌≤◌, ◌≡◌, ◌⊎◌, [], ◌∷◌, ◌++◌, arith, bit_or}
use debugging.Kernel.{Headers, update}
use debugging.Psmouse.{Psmouse, PsmouseType, Ret}
use debugging.Psmouse.Process.{process_byte, adjust}
use debugging.Psmouse.Report.{report_standard_packet, sync}
use debugging.Psmouse.Receive.Invariant.{IsHandler}

adjust-in_bounds : (t : PsmouseType) (p : ℕ → ℕ) (i : ℕ) → 8 ≤ i → adjust t p i ≡ p i
unfolding adjust
adjust-in_bounds t p i h = ground arith

-- `psmouse_process_byte` is a lawful handler: it keeps the counter and the size, writes within the
-- packet, and asks for more only while the packet is incomplete.
pub process_byte-IsHandler : {P : Type 0} (h : Headers) → IsHandler (process_byte {P = P} h)
unfolding process_byte
process_byte-IsHandler h = record {
  keeps_pktcnt = λ m. ground arith;
  keeps_pktsize = λ m. ground arith;
  in_bounds = λ m i e. ground (arith, adjust-in_bounds m.protocol.type m.packet i);
  asks = λ m e. ground arith;
}

-- The types that add nothing to the standard packet, as far as this driver's stream is about them.
abbrev pub IsPlain : PsmouseType → Type 0
IsPlain t = (t ≡ PsmouseType.ps2) ⊎ (t ≡ PsmouseType.trackpoint)

-- The effects of a full packet of a plain type.
pub process_byte-plain :
    {P : Type 0} (h : Headers) (m : Psmouse P)
    → IsPlain m.protocol.type
    → m.pktsize ≤ m.pktcnt
    → process_byte h m ≡ (
      record m {
        packet = update m.packet 0 (bit_or (m.packet 0) m.extra_buttons);
        effects =
            m.effects
            ++ (report_standard_packet (update m.packet 0 (bit_or (m.packet 0) m.extra_buttons))
                ++ sync ∷ []);
      },
      Ret.full_packet,
    )
unfolding process_byte
process_byte-plain h m plain full = ground arith
