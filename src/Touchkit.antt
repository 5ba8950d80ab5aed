-- ===== src/Touchkit.antt =====
-- trackpoint-lost/touchkit_ps2.c: a TouchKit touchscreen.
use debugging.Common.{ℕ, ◌+◌, ◌*◌, ◌^◌, Bool, not, List, [], ◌∷◌, ◌||◌, ◌==◌, if◌then◌else◌, bit_or}
use debugging.Common.Int.{pos}
use debugging.Common.Bits.{bit}
use debugging.Kernel.{Ps2, Bytes, update, Button, Axis, Effect, enodev}
use debugging.Psmouse.{Psmouse, Handler, Ret, emit}
use debugging.Psmouse.Report.{key, abs, sync}

-- TOUCHKIT_CMD, TOUCHKIT_CMD_LENGTH and TOUCHKIT_CMD_ACTIVE
abbrev pub touchkit_cmd : ℕ
touchkit_cmd = 0x0a

abbrev pub cmd_length : ℕ
cmd_length = 1

abbrev pub cmd_active : ℕ
cmd_active = 0x41

-- TOUCHKIT_SEND_PARMS
abbrev pub send_parms : ℕ → ℕ → ℕ → ℕ
send_parms s r c = s * 2 ^ 12 + r * 2 ^ 8 + c

-- The report of a packet: TOUCHKIT_GET_X, TOUCHKIT_GET_Y and TOUCHKIT_GET_TOUCHED.
unfoldable pub touch_report : Bytes → List Effect
touch_report packet =
    abs Axis.x (pos (bit_or (packet 1 * 2 ^ 7) (packet 2)))
    ∷ abs Axis.y (pos (bit_or (packet 3 * 2 ^ 7) (packet 4)))
    ∷ key Button.touch (bit (packet 0) 0)
    ∷ sync
    ∷ []

-- `touchkit_ps2_process_byte`
unfoldable pub process_byte : {P : Type 0} → Handler P
process_byte m =
    if not (m.pktcnt == 5)
    then (m, Ret.good_data)
    else (emit m (touch_report m.packet), Ret.full_packet)

-- `touchkit_ps2_detect`: the device, the code, and the size of the mouse if the properties are set.
unfoldable pub touchkit_ps2_detect :
    {D P : Type 0} → Ps2 D → Bool → D → Psmouse P → D × Psmouse P × ℕ
touchkit_ps2_detect ps2 set_properties d m =
    let r =
      ps2.command d (send_parms 2 3 touchkit_cmd)
        (update (update ps2.uninit 0 cmd_length) 1 cmd_active) in
    if not (r.code == 0)
    then (r.device, m, enodev)
    else if not (r.param 0 == touchkit_cmd)
        || (not (r.param 1 == 0x01) || not (r.param 2 == cmd_active))
    then (r.device, m, enodev)
    else (r.device, if set_properties then record m { pktsize = 5 } else m, 0)
