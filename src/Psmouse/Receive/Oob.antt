-- ===== src/Psmouse/Receive/Oob.antt =====
-- Out-of-band data: pairs of a type and a byte, apart from the packets.
use debugging.Common.{ℕ, ◌≡◌, ◌≢◌, true, false, [], ◌∷◌, ◌++◌, arith, ◌==◌, if◌then◌else◌}
use debugging.Psmouse.{Psmouse, State}
use debugging.Psmouse.Report.{report_standard_buttons, sync}
use debugging.Psmouse.Receive.{Disposition, Flags, pre_receive_byte}

-- The flags of a good byte out of band.
abbrev pub out_of_band : Flags
out_of_band = record { timeout = false; parity = false; oob_data = true }

-- Two bytes that come out of band, to a mouse that is not ignored and waits for a type: none of them
-- reaches the packets. After the type 1 the second byte is reported as the standard buttons and kept
-- for the packets to come; after another type, but 0, it is dropped; and the mouse waits for a type
-- again, with its packet as it was.
pub pre_receive_byte-pair :
    {P : Type 0} (type byte : ℕ) (m : Psmouse P)
    → m.state ≢ State.ignore
    → m.oob_data_type ≡ 0
    → type ≢ 0
    → let (m₁, d₁) = pre_receive_byte type out_of_band m in
      let (m₂, d₂) = pre_receive_byte byte out_of_band m₁ in
      (d₁ ≡ Disposition.ignore)
      × (d₂ ≡ Disposition.ignore)
      × (m₂ ≡ (
          if type == 1
          then record m {
            extra_buttons = byte;
            effects = m.effects ++ (report_standard_buttons byte ++ sync ∷ []);
          }
          else m))
unfolding pre_receive_byte
pre_receive_byte-pair type byte m live idle ne = (ground arith, ground arith, ground arith)
