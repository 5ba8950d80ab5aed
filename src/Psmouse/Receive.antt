-- ===== src/Psmouse/Receive.antt =====
-- psmouse-base.c: the state changes and the interrupt side, from `__psmouse_set_state` to
-- `psmouse_receive_byte`. One value of `jiffies` stands for all the reads of one call.
pub mod Invariant
pub mod Step
pub mod Sync
pub mod Packet
pub mod Oob
pub mod Stream
pub mod Framed
pub mod Kept
use debugging.Common.{
  ℕ, zero, suc, ◌+◌, ◌*◌, ◌/◌, ◌%◌, ◌^◌, Bool, true, false, not, List, [], ◌∷◌, ◌++◌, ltb, leb,
  ◌==◌, ◌&&◌, ◌||◌, if◌then◌else◌,
}
use debugging.Common.Bits.{bit}
use debugging.Kernel.{Effect, Headers, u8, u32, u64, update, eio, reconnect, queue_resync, wakeup}
use debugging.Psmouse.{
  Psmouse, State, PsmouseType, Handler, Ret, emit, le_resyncing, is_activated, is_hgpk, ret_bat,
  ret_id,
}
use debugging.Psmouse.Report.{report_standard_buttons, sync}

-- enum ps2_disposition of libps2
pub data Disposition : Type 0 where
  process ignore error : Disposition

-- The flags that serio passes with a byte: SERIO_TIMEOUT, SERIO_PARITY and SERIO_OOB_DATA.
pub record Flags : Type 0 where
  pub timeout : Bool
  pub parity : Bool
  pub oob_data : Bool

unfoldable pub is_ignore : State → Bool
is_ignore State.ignore = true
is_ignore _ = false

module _ {P : Type 0} where
  -- `__psmouse_set_state`; `psmouse_set_state` is the same with the port paused.
  unfoldable pub set_state : ℕ → State → Psmouse P → Psmouse P
  set_state now s m = record m { state = s; pktcnt = 0; out_of_sync_cnt = 0; flags = 0; last = now }

  bad_data : ℕ → Psmouse P → Psmouse P × ℕ
  unfolding set_state
  bad_data now m =
      let cnt = u64 (m.out_of_sync_cnt + 1) in
      if is_activated m.state
      then (if cnt == m.resetafter
          then (
            emit (set_state now State.ignore (record m { out_of_sync_cnt = cnt })) (reconnect ∷ []),
            eio,
          )
          else (record m { out_of_sync_cnt = cnt; pktcnt = 0 }, 0))
      else (record m { pktcnt = 0 }, 0)

  handled : ℕ → Psmouse P × Ret → Psmouse P × ℕ
  unfolding bad_data
  handled now (m, Ret.bad_data) = bad_data now m
  handled now (m, Ret.full_packet) = (record m { pktcnt = 0; out_of_sync_cnt = 0 }, 0)
  handled now (m, Ret.good_data) = (m, 0)

  -- `psmouse_handle_byte`: the new state, and 0 or EIO.
  unfoldable pub handle_byte : Handler P → ℕ → Psmouse P → Psmouse P × ℕ
  unfolding handled
  handle_byte handler now m = handled now (handler m)

  -- `psmouse_handle_oob_data`; 0 is PSMOUSE_OOB_NONE and 1 PSMOUSE_OOB_EXTRA_BTNS.
  unfoldable pub handle_oob_data : ℕ → Psmouse P → Psmouse P
  handle_oob_data byte m =
      if m.oob_data_type == 0
      then record m { oob_data_type = byte }
      else if m.oob_data_type == 1
      then record m {
        effects = m.effects ++ (report_standard_buttons byte ++ sync ∷ []);
        extra_buttons = byte;
        oob_data_type = 0;
      }
      else record m { oob_data_type = 0 }

  -- `psmouse_pre_receive_byte`
  unfoldable pub pre_receive_byte : ℕ → Flags → Psmouse P → Psmouse P × Disposition
  unfolding handle_oob_data is_ignore
  pre_receive_byte byte flags m =
      if is_ignore m.state
      then (m, Disposition.ignore)
      else if flags.timeout || (flags.parity && not m.protocol.ignore_parity)
      then (m, Disposition.error)
      else if flags.oob_data
      then (handle_oob_data byte m, Disposition.ignore)
      else (m, Disposition.process)

  -- `psmouse->packet[psmouse->pktcnt++] = data`
  abbrev pub store : ℕ → Psmouse P → Psmouse P
  store byte m = record m { packet = update m.packet m.pktcnt byte; pktcnt = u8 (m.pktcnt + 1) }

  -- Giving up a packet: remember its first byte and have the work queue resync.
  abbrev pub request_resync : ℕ → Psmouse P → Psmouse P
  unfolding set_state
  request_resync now m =
      emit (set_state now State.resyncing (record m { badbyte = m.packet 0 })) (queue_resync ∷ [])

  module _ (h : Headers) (handler : Handler P) where
    -- The last part of `psmouse_receive_byte`, from the test for a long idle time.
    unfoldable pub finish_byte : ℕ → Psmouse P → Psmouse P
    unfolding request_resync
    finish_byte now m =
        if is_activated m.state
          && (m.pktcnt == 1
              && (not (m.resync_time == 0)
                  && h.time_after now (u64 (m.last + u32 (m.resync_time * h.hz)))))
        then request_resync now m
        else (handle_byte handler now (record m { last = now })).0

    -- What follows two bytes that begin like the announcement of a new device.
    unfoldable pub announcement : ℕ → ℕ → Psmouse P → Psmouse P
    unfolding set_state
    announcement now byte m =
        if m.packet 1 == ret_id || (is_hgpk m.protocol.type && m.packet 1 == ret_bat)
        then emit (set_state now State.ignore m) (reconnect ∷ [])
        else (let (m', code) = handle_byte handler now (record m { pktcnt = 1 }) in
            if code == 0 then finish_byte now (store byte m') else m')

    -- The part after the byte is stored.
    unfoldable pub stored_byte : ℕ → ℕ → Psmouse P → Psmouse P
    stored_byte now byte m =
        if m.packet 0 == ret_bat && leb m.pktcnt 2
        then (if m.pktcnt == 1 then record m { last = now } else announcement now byte m)
        else finish_byte now m

    -- `psmouse_receive_byte`
    unfoldable pub receive_byte : ℕ → ℕ → Psmouse P → Psmouse P
    unfolding request_resync
    receive_byte now byte m₀ =
        let m = emit m₀ (wakeup ∷ []) in
        if le_resyncing m.state
        then m
        else if is_activated m.state
            && (not (m.pktcnt == 0) && h.time_after now (u64 (m.last + h.hz / 2)))
        then request_resync now m
        else stored_byte now byte (store byte m)

    -- A run of bytes, each with its time.
    unfoldable pub receive_bytes : List (ℕ × ℕ) → Psmouse P → Psmouse P
    receive_bytes [] m = m
    receive_bytes ((now, byte) ∷ bs) m = receive_bytes bs (receive_byte now byte m)
