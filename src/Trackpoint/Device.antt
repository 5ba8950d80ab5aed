-- ===== src/Trackpoint/Device.antt =====
-- A device that keeps to the TrackPoint's documentation, as trackpoint.h cites it: a RAM that is
-- read, written and toggled by location, and that the power-on reset sets to the defaults.
use debugging.Common.{ℕ, ◌<◌, ◌≡◌, ◌≢◌, not, [], ◌∷◌, bit_and, ◌==◌, if◌then◌else◌}
use Prim.Native.Nat.{bit_xor}
use debugging.Kernel.{Ps2, Bytes, bytes}
use debugging.Trackpoint.{
  Attr, command, mask, power_on_default, tp_command, tp_por, tp_write_mem, tp_toggle, make_ps2_cmd,
}

-- The RAM, by location, as an observation of the device.
abbrev pub Ram : Type 0 → Type 0
Ram D = D → ℕ → ℕ

-- The RAM holds the value `v` of the attribute `a`: the byte, or the bit of the mask.
abbrev pub Holds : {D : Type 0} → Ram D → D → Attr → ℕ → Type 0
Holds ram d a v =
    if mask a == 0
    then ram d (command a) ≡ v
    else (bit_and (ram d (command a)) (mask a) == mask a) ≡ not (v == 0)

pub record IsTrackpoint {D : Type 0} (ps2 : Ps2 D) (ram : Ram D) : Type 0 where
  pub reads :
      (d : D) (param : Bytes)
      → param 0 < 0x80
      → let r = ps2.command d (make_ps2_cmd 1 1 tp_command) param in
        (r.code ≡ 0) × (r.param 0 ≡ ram d (param 0)) × ((l : ℕ) → ram r.device l ≡ ram d l)
  pub writes :
      (d : D) (loc v : ℕ)
      → let r = ps2.command d (make_ps2_cmd 3 0 tp_command) (bytes (tp_write_mem ∷ loc ∷ v ∷ [])) in
        (r.code ≡ 0) × (ram r.device loc ≡ v) × ((l : ℕ) → l ≢ loc → ram r.device l ≡ ram d l)
  pub toggles :
      (d : D) (loc m : ℕ)
      → let r = ps2.command d (make_ps2_cmd 3 0 tp_command) (bytes (tp_toggle ∷ loc ∷ m ∷ [])) in
        (r.code ≡ 0)
        × (ram r.device loc ≡ bit_xor (ram d loc) m)
        × ((l : ℕ) → l ≢ loc → ram r.device l ≡ ram d l)
  -- A reset may fail; one that reports success has set the defaults.
  pub resets :
      (d : D)
      → let r = ps2.command d (make_ps2_cmd 1 2 tp_command) (bytes (tp_por ∷ 0 ∷ [])) in
        r.code ≡ 0
        → r.param 0 ≡ 0xaa
        → r.param 1 ≡ 0x00
        → (a : Attr) → Holds ram r.device a (power_on_default a)
