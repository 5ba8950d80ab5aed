-- ===== src/Psmouse/Resync/Recovery.antt =====
-- A resync of a plain mouse whose device answers.
use debugging.Common.{
  ℕ, suc, ◌+◌, ◌*◌, ◌^◌, ◌<◌, ◌≤◌, ◌≡◌, ◌∙◌, true, false, [], ◌∷◌, ◌++◌, arith, refl, bit_or,
}
use debugging.Kernel.{u64, Headers, Ps2, Reply, update}
use debugging.Kernel.Observe.{inputs, inputs-append}
use debugging.Psmouse.{Psmouse, State, Ret}
use debugging.Psmouse.Process.{process_byte}
use debugging.Psmouse.Process.Laws.{IsPlain, process_byte-plain}
use debugging.Psmouse.Report.{report_standard_packet, sync}
use debugging.Psmouse.Report.Packets.{
  Movement, IsSmall, first_byte, low, press, standard_report, report_standard_packet-press,
}
use debugging.Psmouse.Receive.{set_state}
use debugging.Psmouse.Receive.Packet.{IsStreaming}
use debugging.Psmouse.Command.{poll, cmd_enable, cmd_disable, cmd_poll}
use debugging.Psmouse.Resync.{
  World, feed, check_packet, enable_tries, poll_packet, revalidate, settle, resync, stop_parent,
}
use debugging.Psmouse.Resync.Outcome.{resync-resyncing}

module _ {P : Type 0} (h : Headers) where
  feed-more :
      (fuel i : ℕ) (m : Psmouse P)
      → i < m.pktsize
      → m.pktcnt + 1 < m.pktsize
      → m.pktsize ≤ 8
      → feed (process_byte h) (suc fuel) i m
        ≡ feed (process_byte h) fuel (i + 1) (record m { pktcnt = m.pktcnt + 1 })
  unfolding feed process_byte
  feed-more fuel i m below more fits = ground arith

  -- The mouse after the byte that completes a polled packet.
  abbrev completed : Psmouse P → Psmouse P
  completed m =
      let packet = update m.packet 0 (bit_or (m.packet 0) m.extra_buttons) in
      record m {
        packet = packet;
        pktcnt = m.pktcnt + 1;
        effects = m.effects ++ (report_standard_packet packet ++ sync ∷ []);
      }

  feed-last :
      (fuel i : ℕ) (m : Psmouse P)
      → i < m.pktsize
      → m.pktcnt + 1 ≡ m.pktsize
      → m.pktsize ≤ 8
      → IsPlain m.protocol.type
      → feed (process_byte h) (suc fuel) i m ≡ (completed m, Ret.full_packet)
  unfolding feed
  feed-last fuel i m below full fits plain =
      ground (arith, process_byte-plain h (record m { pktcnt = m.pktcnt + 1 }) plain (omega arith))

  feed-packet :
      (m : Psmouse P)
      → m.pktsize ≡ 3
      → IsPlain m.protocol.type
      → feed (process_byte h) 256 0 (record m { pktcnt = 0 })
        ≡ (completed (record m { pktcnt = 2 }), Ret.full_packet)
  feed-packet m size plain =
      feed-more 255 0 (record m { pktcnt = 0 }) (omega arith) (omega arith) (omega arith)
      ∙ feed-more 254 1 (record m { pktcnt = 1 }) (omega arith) (omega arith) (omega arith)
      ∙ feed-last 253 2 (record m { pktcnt = 2 }) (omega arith) (omega arith) (omega arith) plain

  -- The mouse after the polled packet was found to be good.
  abbrev checked : ℕ → Psmouse P → Psmouse P
  checked now m =
      set_state now State.resyncing
        (completed (record (set_state now State.cmd_mode m) { pktcnt = 2 }))

  check_packet-good :
      (now : ℕ) (m : Psmouse P)
      → m.pktsize ≡ 3
      → IsPlain m.protocol.type
      → check_packet (process_byte h) now m ≡ (checked now m, false)
  unfolding check_packet set_state
  check_packet-good now m size plain = rw (feed-packet (set_state now State.cmd_mode m) size plain)

-- The answer to the poll that follows the disabling, for a packet of three bytes.
abbrev pub poll_reply : {D P : Type 0} → Ps2 D → D → Psmouse P → Reply D
poll_reply ps2 d m =
    ps2.command (ps2.sendbyte d cmd_disable 20).0 (bit_or cmd_poll (3 * 2 ^ 8)) m.packet

-- The device acknowledges the disabling, answers the poll with the packet of a movement, and
-- acknowledges the first attempt to enable it.
pub record Answers {D P : Type 0} (ps2 : Ps2 D) (d : D) (v : Movement) (m : Psmouse P)
    : Type 0 where
  pub disabled : (ps2.sendbyte d cmd_disable 20).1 ≡ 0
  pub polled : (poll_reply ps2 d m).code ≡ 0
  pub first : (poll_reply ps2 d m).param 0 ≡ first_byte v
  pub second : (poll_reply ps2 d m).param 1 ≡ low v.dx
  pub third : (poll_reply ps2 d m).param 2 ≡ low v.dy
  pub enabled : (ps2.command (poll_reply ps2 d m).device cmd_enable ps2.uninit).code ≡ 0

-- The mouse with the polled bytes, when they go to the handler.
abbrev polled_mouse : {D P : Type 0} → Ps2 D → D → Psmouse P → Psmouse P
polled_mouse ps2 d m = record m {
  num_resyncs = u64 (m.num_resyncs + 1);
  acks_disable_command = true;
  packet = (poll_reply ps2 d m).param;
}

revalidate-good :
    {D P : Type 0} (h : Headers) (ps2 : Ps2 D) (now : ℕ) (d : D) (v : Movement) (m : Psmouse P)
    → m.pktsize ≡ 3
    → IsPlain m.protocol.type
    → Answers ps2 d v m
    → revalidate ps2 (poll ps2) (process_byte h) now d m
      ≡ ((poll_reply ps2 d m).device, checked h now (polled_mouse ps2 d m), false)
unfolding revalidate poll_packet poll
revalidate-good h ps2 now d v m size plain answers = ground (
  arith,
  answers.disabled,
  answers.polled,
  check_packet-good h now (polled_mouse ps2 d m) size plain,
)

enable_tries-first :
    {D : Type 0} (ps2 : Ps2 D) (d : D)
    → (ps2.command d cmd_enable ps2.uninit).code ≡ 0
    → (enable_tries ps2 5 d).1 ≡ true
unfolding enable_tries
enable_tries-first ps2 d e = ground arith

-- The mouse that a good packet leaves.
settled-IsStreaming :
    {P : Type 0} (h : Headers) (now extra : ℕ) (v : Movement) (m : Psmouse P)
    → IsSmall v
    → extra < 8
    → m.pktsize ≡ 3
    → m.resync_time ≡ 0
    → m.extra_buttons ≡ extra
    → IsPlain m.protocol.type
    → m.packet 0 ≡ first_byte v
    → m.packet 1 ≡ low v.dx
    → m.packet 2 ≡ low v.dy
    → let m' = settle now false (checked h now m) in
      IsStreaming extra m'
      × (inputs m'.effects
          ≡ inputs m.effects ++ inputs (standard_report (press extra v) ++ sync ∷ []))
unfolding settle set_state
settled-IsStreaming h now extra v m small e size idle pressed plain p₀ p₁ p₂ =
    let full = update m.packet 0 (bit_or (m.packet 0) m.extra_buttons) in
    (
      record {
        active = refl;
        between = refl;
        size = size;
        no_idle_limit = idle;
        plain = plain;
        pressed = pressed;
      },
      rw (
        report_standard_packet-press v extra full small e (ground arith) (ground arith)
            (ground arith),
        inputs-append,
      ),
    )

module _ {D P Q : Type 0} (h : Headers) (ps2 parent_ps2 : Ps2 D) where
  -- Where the device answers a resync with the packet of a movement, a plain mouse is activated
  -- again between two packets, ready for the stream, and exactly that movement is reported.
  pub resync-Answers :
      (now extra : ℕ) (v : Movement) (w : World D P Q)
      → IsSmall v
      → extra < 8
      → w.mouse.state ≡ State.resyncing
      → w.mouse.pktsize ≡ 3
      → w.mouse.resync_time ≡ 0
      → w.mouse.extra_buttons ≡ extra
      → IsPlain w.mouse.protocol.type
      → Answers ps2 (stop_parent parent_ps2 now w.device w.parent).0 v w.mouse
      → let m' = (resync ps2 (poll ps2) (process_byte h) parent_ps2 now w).mouse in
        IsStreaming extra m'
        × (inputs m'.effects
            ≡ inputs w.mouse.effects ++ inputs (standard_report (press extra v) ++ sync ∷ []))
  resync-Answers now extra v w small e state size idle pressed plain answers =
      let d = (stop_parent parent_ps2 now w.device w.parent).0 in
      rw
        (
          resync-resyncing ps2 parent_ps2 (poll ps2) (process_byte h) now w state,
          revalidate-good h ps2 now d v w.mouse size plain answers,
          enable_tries-first ps2 (poll_reply ps2 d w.mouse).device answers.enabled,
        )
        (settled-IsStreaming h now extra v (polled_mouse ps2 d w.mouse) small e size idle pressed
          plain answers.first answers.second answers.third)
