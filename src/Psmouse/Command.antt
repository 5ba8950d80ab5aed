-- ===== src/Psmouse/Command.antt =====
-- psmouse-base.c: the operations that send commands, from `psmouse_reset` to `psmouse_poll`, and
-- `psmouse_probe`, `psmouse_activate` and `psmouse_deactivate`. The device is the
-- state `D` behind libps2; a function returns it with the mouse and its code.
pub mod Rate
pub mod Probe
use debugging.Common.{
  ℕ, zero, suc, ◌+◌, ◌*◌, ◌/◌, ◌%◌, ◌^◌, Bool, true, false, not, List, [], ◌∷◌, Option, none, some,
  bit_or, get_or, ltb, leb, ◌==◌, ◌&&◌, ◌||◌, if◌then◌else◌,
}
use debugging.Kernel.{Ps2, Reply, Bytes, bytes, update, u8, eio, enodev}
use debugging.Psmouse.{Psmouse, PsmouseType, State, ret_bat, ret_id}
use debugging.Psmouse.Receive.{set_state}

-- The commands of psmouse.h.
abbrev pub cmd_setscale11 : ℕ
cmd_setscale11 = 0x00e6

abbrev pub cmd_setscale21 : ℕ
cmd_setscale21 = 0x00e7

abbrev pub cmd_setres : ℕ
cmd_setres = 0x10e8

abbrev pub cmd_getinfo : ℕ
cmd_getinfo = 0x03e9

abbrev pub cmd_poll : ℕ
cmd_poll = 0x00eb

abbrev pub cmd_getid : ℕ
cmd_getid = 0x02f2

abbrev pub cmd_setrate : ℕ
cmd_setrate = 0x10f3

abbrev pub cmd_enable : ℕ
cmd_enable = 0x00f4

abbrev pub cmd_disable : ℕ
cmd_disable = 0x00f5

abbrev pub cmd_reset_dis : ℕ
cmd_reset_dis = 0x00f6

abbrev pub cmd_reset_bat : ℕ
cmd_reset_bat = 0x02ff

-- enum psmouse_scale
pub data Scale : Type 0 where
  scale11 scale21 : Scale

-- The table `rates` of `psmouse_set_rate`, and the table `params` of `psmouse_set_resolution`.
abbrev pub rates : List ℕ
rates = 200 ∷ 100 ∷ 80 ∷ 60 ∷ 40 ∷ 20 ∷ 10 ∷ 0 ∷ []

abbrev pub resolution_params : List ℕ
resolution_params = 0 ∷ 1 ∷ 2 ∷ 2 ∷ 3 ∷ []

-- `while (rates[i] > rate) i++;` from an entry on; `none` is a read past the table.
pub pick_rate : List ℕ → ℕ → Option ℕ
pick_rate [] rate = none
pick_rate (r ∷ rs) rate = let rest = pick_rate rs rate in if ltb rate r then rest else some r

pub resolution_param : ℕ → ℕ
resolution_param resolution =
    get_or resolution_params
      ((if resolution == 0 || ltb 200 resolution then 200 else resolution) / 50) 0

module _ {D : Type 0} (ps2 : Ps2 D) where
  -- `psmouse_reset`
  unfoldable pub reset : D → D × ℕ
  reset d =
      let r = ps2.command d cmd_reset_bat ps2.uninit in
      if not (r.code == 0)
      then (r.device, r.code)
      else if not (r.param 0 == ret_bat) && not (r.param 1 == ret_id)
      then (r.device, eio)
      else (r.device, 0)

  -- `psmouse_probe`
  unfoldable pub probe : D → D × ℕ
  probe d =
      let r = ps2.command d cmd_getid (update ps2.uninit 0 0xa5) in
      let id = r.param 0 in
      if not (r.code == 0)
      then (r.device, r.code)
      else if not (id == 0x00) && (not (id == 0x03) && (not (id == 0x04) && not (id == 0xff)))
      then (r.device, enodev)
      else ((ps2.command r.device cmd_reset_dis ps2.uninit).device, 0)

  -- `psmouse_set_scale`
  unfoldable pub set_scale : Scale → D → D
  set_scale Scale.scale21 d = (ps2.command d cmd_setscale21 ps2.uninit).device
  set_scale Scale.scale11 d = (ps2.command d cmd_setscale11 ps2.uninit).device

  module _ {P : Type 0} where
    -- `psmouse_set_resolution`
    unfoldable pub set_resolution : ℕ → D → Psmouse P → D × Psmouse P
    set_resolution resolution d m =
        let p = resolution_param resolution in
        ((ps2.command d cmd_setres (bytes (p ∷ []))).device, record m { resolution = 25 * 2 ^ p })

    -- `psmouse_set_rate`
    unfoldable pub set_rate : ℕ → D → Psmouse P → Option (D × Psmouse P)
    set_rate rate d m = elim (pick_rate rates rate) [
      | none ↦ none
      | some r ↦ some ((ps2.command d cmd_setrate (bytes (r ∷ []))).device, record m { rate = r })
    ]

    -- `psmouse_poll`: the packet is read into the array of the mouse.
    unfoldable pub poll : D → Psmouse P → D × Psmouse P × ℕ
    poll d m =
        let r = ps2.command d (bit_or cmd_poll (m.pktsize * 2 ^ 8)) m.packet in
        (r.device, record m { packet = r.param }, r.code)

    -- `psmouse_activate`; the code 1 is the -1 of the source.
    unfoldable pub activate : ℕ → D → Psmouse P → D × Psmouse P × ℕ
    activate now d m =
        let r = ps2.command d cmd_enable ps2.uninit in
        if r.code == 0 then (r.device, set_state now State.activated m, 0) else (r.device, m, 1)

    -- `psmouse_deactivate`
    unfoldable pub deactivate : ℕ → D → Psmouse P → D × Psmouse P × ℕ
    deactivate now d m =
        let r = ps2.command d cmd_disable ps2.uninit in
        if r.code == 0 then (r.device, set_state now State.cmd_mode m, 0) else (r.device, m, r.code)
