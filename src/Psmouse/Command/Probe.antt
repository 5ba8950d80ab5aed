-- ===== src/Psmouse/Command/Probe.antt =====
-- What a device has to answer for `psmouse_probe` and `psmouse_reset` to succeed.
use debugging.Common.{ℕ, ◌≡◌, ◌↔◌, ◌⊎◌, arith, ◌==◌, if◌then◌else◌}
use debugging.Kernel.{Ps2, Reply, update}
use debugging.Psmouse.{ret_bat, ret_id}
use debugging.Psmouse.Command.{probe, reset, cmd_getid, cmd_reset_bat, cmd_reset_dis}

-- The identifiers of a mouse: 0x00, 0x03, 0x04 and 0xff.
abbrev pub IsMouseId : ℕ → Type 0
IsMouseId id = (id ≡ 0x00) ⊎ (id ≡ 0x03) ⊎ (id ≡ 0x04) ⊎ (id ≡ 0xff)

module _ {D : Type 0} (ps2 : Ps2 D) (d : D) where
  abbrev id_reply : Reply D
  id_reply = ps2.command d cmd_getid (update ps2.uninit 0 0xa5)

  abbrev bat_reply : Reply D
  bat_reply = ps2.command d cmd_reset_bat ps2.uninit

  -- A probe succeeds exactly if the device answers the query with the identifier of a mouse, and
  -- then it disables the mouse, whatever that command returns; else nothing more is sent.
  pub probe_iff :
      ((probe ps2 d).1 ≡ 0 ↔ ((id_reply.code ≡ 0) × IsMouseId (id_reply.param 0)))
      × ((probe ps2 d).0 ≡ (
          if (probe ps2 d).1 == 0
          then (ps2.command id_reply.device cmd_reset_dis ps2.uninit).device
          else id_reply.device))
  unfolding probe
  probe_iff = ((λ e. (ground arith, ground arith), λ h. ground arith), ground arith)

  -- A reset succeeds exactly if the command does and one of the two bytes of the answer is the right
  -- one: the self-test's 0xaa or the identifier 0x00.
  pub reset_iff :
      (reset ps2 d).1 ≡ 0
      ↔ ((bat_reply.code ≡ 0) × ((bat_reply.param 0 ≡ ret_bat) ⊎ (bat_reply.param 1 ≡ ret_id)))
  unfolding reset
  reset_iff = (λ e. (ground arith, ground arith), λ h. ground arith)
