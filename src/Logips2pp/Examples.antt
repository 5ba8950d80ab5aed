-- ===== src/Logips2pp/Examples.antt =====
-- Packets and mice of Logitech, and the theorems about them.
use debugging.Common.{
  ℕ, ◌+◌, ◌≡◌, true, false, [], ◌∷◌, ◌++◌, none, refl, arith, ◌==◌, if◌then◌else◌,
}
use debugging.Common.Int.{ℤ}
use debugging.Kernel.{linux_headers, linux_headers-IsLinux, bytes, Ps2}
use debugging.Psmouse.{Psmouse, PsmouseType, Ret}
use debugging.Psmouse.Sample.{sample}
use debugging.Psmouse.Process
use debugging.Psmouse.Standard.{Description}
use debugging.Logips2pp.{process_byte}
use debugging.Logips2pp.Encoding.{Extended, encode, report}
use debugging.Logips2pp.Extended.{process_byte-encode, process_byte-standard}
use debugging.Logips2pp.Detect.{ps2pp_detect}
use debugging.Logips2pp.Ending.{DetectEnding, ps2pp_detect-DetectEnding}

abbrev step : Extended
step =
    Extended.wheel_step (record { left = true; right = false; middle = false }) true (ℤ.negsuc 2)
      false true

abbrev stepping : Psmouse ℕ
stepping = record (sample 0 PsmouseType.ps2pp 3) { packet = encode step; pktcnt = 3 }

process_byte-encode_example :
    let (m', ret) = process_byte linux_headers stepping in
    (ret ≡ Ret.full_packet) × (m'.effects ≡ stepping.effects ++ report step)
process_byte-encode_example =
    process_byte-encode linux_headers step stepping linux_headers-IsLinux (omega arith)
      (omega arith) refl refl refl

-- A movement, with the right button.
abbrev moving : Psmouse ℕ
moving = record (sample 0 PsmouseType.ps2pp 3) { packet = bytes (0x0a ∷ 5 ∷ 7 ∷ []); pktcnt = 3 }

process_byte-standard_example :
    let (m₁, ret₁) = process_byte linux_headers moving in
    let (m₂, ret₂) = Process.process_byte linux_headers moving in
    (ret₁ ≡ ret₂) × (m₁.effects ≡ m₂.effects) × ((i : ℕ) → m₁.packet i ≡ m₂.packet i)
process_byte-standard_example = process_byte-standard linux_headers moving refl refl refl refl refl

-- A port that answers as an MX500 that knows the magic knock.
abbrev port : Ps2 ℕ
port = record {
  command = λ d c p. record {
    device = d + 1;
    code = 0;
    param =
        if c == 0x03eb
        then bytes (0x48 ∷ 0xc2 ∷ 0x00 ∷ [])
        else if c == 0x03e9
        then bytes (0x0e ∷ 0x03 ∷ 0x00 ∷ [])
        else p;
  };
  sendbyte = λ d c t. (d + 1, 0);
  uninit = bytes [];
}

abbrev unnamed : Description
unnamed = record { vendor = none; name = none; pktsize = 3; keys = []; rels = [] }

ps2pp_detect-DetectEnding_example :
    DetectEnding port
      (λ d c. (d + 1, 0))
      0
      0
      unnamed
      true
      (ps2pp_detect port (λ d c. (d + 1, 0)) 0 true 0 unnamed)
ps2pp_detect-DetectEnding_example =
    ps2pp_detect-DetectEnding port (λ d c. (d + 1, 0)) 0 true 0 unnamed
