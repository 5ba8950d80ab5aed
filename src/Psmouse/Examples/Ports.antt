-- ===== src/Psmouse/Examples/Ports.antt =====
-- Commands, resync and detection against concrete devices.
use debugging.Common.{
  ℕ, ◌+◌, ◌*◌, ◌^◌, ◌↔◌, ◌⊎◌, ◌==◌, ◌||◌, if◌then◌else◌, ◌≡◌, true, false, [], ◌∷◌, none, some, inr,
  refl, arith, ◌<◌, ◌++◌,
}
use debugging.Psmouse.Reconnect.{reconnect_by, default_hooks}
use debugging.Psmouse.Reconnect.Ending.{ReconnectEnding, reconnect_by-Ending, default_hooks-IsTame}
use debugging.Psmouse.Resync.{feed}
use debugging.Psmouse.Resync.Rounds.{feed-enough}
use debugging.Psmouse.Process.Laws.{process_byte-IsHandler}
use debugging.Psmouse.Switch.{
  Entry, IsPollable, switch_protocol, switch_to, switch_protocol-IsPollable,
}
use debugging.Kernel.{Ps2, Reply, bytes, linux_headers}
use debugging.Kernel.Observe.{inputs}
use debugging.Psmouse.{Psmouse, PsmouseType, State, ret_bat, ret_id, rank}
use debugging.Psmouse.Report.Packets.{standard_report, press}
use debugging.Psmouse.Report.{sync}
use debugging.Psmouse.Process.{process_byte}
use debugging.Psmouse.Receive.Packet.{IsStreaming}
use debugging.Psmouse.Command.{
  poll, cmd_poll, cmd_reset_bat, rates, set_rate, set_resolution, reset,
}
use debugging.Psmouse.Command.Rate.{
  set_rate-IsGreatest, set_resolution-IsGreatest, IsGreatest, resolutions,
}
use debugging.Psmouse.Command.Probe.{reset_iff}
use debugging.Psmouse.Resync.{World, resync, stop_parent}
use debugging.Psmouse.Resync.Outcome.{resync-Ending, Ending, Enables, validated}
use debugging.Psmouse.Resync.Recovery.{resync-Answers}
use debugging.Psmouse.Detect.{Probes, extensions}
use debugging.Psmouse.Detect.Limit.{extensions-IsAllowed, IsAllowed}
use debugging.Psmouse.Examples.{mouse, movement, rejecting}

-- A mouse behind libps2 that acknowledges everything: the state is the number of commands so far.
-- It answers the identifier query with 0x00, and a poll with the movement above.
abbrev pub good_ps2 : Ps2 ℕ
good_ps2 = record {
  command = λ d c param. record {
    device = d + 1;
    code = 0;
    param =
        if c == cmd_poll + 3 * 2 ^ 8
        then bytes (0x29 ∷ 5 ∷ 0xfd ∷ [])
        else if c == cmd_reset_bat
        then bytes (0xaa ∷ 0 ∷ [])
        else bytes [];
  };
  sendbyte = λ d c timeout. (d + 1, 0);
  uninit = bytes [];
}

abbrev unlucky : World ℕ ℕ ℕ
unlucky = record {
  device = 0;
  mouse = record mouse { state = State.resyncing; pktcnt = 2 };
  parent = none;
}

resync-Answers_example :
    let m' =
      (resync good_ps2 (poll good_ps2) (process_byte linux_headers) good_ps2 50 unlucky).mouse in
    IsStreaming 0 m'
    × (inputs m'.effects ≡ inputs (standard_report (press 0 movement) ++ sync ∷ []))
resync-Answers_example =
    resync-Answers linux_headers good_ps2 good_ps2 50 0 movement unlucky (omega arith) (omega arith)
      refl refl refl refl (inr refl)
      (record {
        disabled = unfold stop_parent in refl;
        polled = refl;
        first = refl;
        second = refl;
        third = refl;
        enabled = refl;
      })

resync-Ending_example :
    let w' = resync good_ps2 (poll good_ps2) rejecting good_ps2 50 unlucky in
    Ending 50 0
      ((k : ℕ) × (k < 5)
        × Enables good_ps2 k (validated good_ps2 good_ps2 (poll good_ps2) rejecting 50 unlucky).0)
      w'.mouse
    × (w'.mouse.pktcnt ≡ 0)
    × (w'.mouse.out_of_sync_cnt ≡ 0)
resync-Ending_example =
    resync-Ending good_ps2 good_ps2 (poll good_ps2) rejecting (λ m. refl)
      (λ d m. unfold poll in refl) 50 unlucky refl

set_rate-IsGreatest_example :
    (r : ℕ) × (set_rate good_ps2 70 0 mouse ≡ some (1, record mouse { rate = r }))
    × IsGreatest rates 70 r
set_rate-IsGreatest_example = set_rate-IsGreatest good_ps2 70 0 mouse

set_resolution-IsGreatest_example :
    (p : ℕ) × (set_resolution good_ps2 120 0 mouse ≡ (1, record mouse { resolution = 25 * 2 ^ p }))
    × IsGreatest resolutions 120 (25 * 2 ^ p)
set_resolution-IsGreatest_example = set_resolution-IsGreatest good_ps2 120 0 mouse

-- An answer with the right identifier and no result of the self-test.
abbrev half_ps2 : Ps2 ℕ
half_ps2 = record good_ps2 {
  command = λ d c param. record { device = d + 1; code = 0; param = bytes (0xfc ∷ 0x00 ∷ []) };
}

abbrev half : Reply ℕ
half = half_ps2.command 0 cmd_reset_bat (bytes [])

reset_iff_example :
    (reset half_ps2 0).1 ≡ 0
    ↔ ((half.code ≡ 0) × ((half.param 0 ≡ ret_bat) ⊎ (half.param 1 ≡ ret_id)))
reset_iff_example = reset_iff half_ps2 0

-- A port behind which a Synaptics touchpad answers, and a mouse after that.
abbrev probes_of : {W : Type 0} → (W → W) → Probes W
probes_of step = record {
  detect = λ t set w. (step w, if rank t == 7 || rank t == 6 then 0 else 19);
  init = λ t. none;
  enabled = λ t. true;
  is_passthru = λ w. false;
  apply_defaults = λ w. w;
  synaptics_init = λ w. (w, some PsmouseType.synaptics);
  elantech_init = λ w. (w, none);
  focaltech_init = λ w. (w, 0);
  synaptics_reset = λ w. w;
  reset_dis = λ w. w;
  reset = λ w. w;
  set_psmouse_max_proto = λ n w. w;
}

abbrev probes : Probes ℕ
probes = probes_of (λ w. w + 1)

abbrev pub mouse_probes : Probes (ℕ × Psmouse ℕ)
mouse_probes = probes_of (λ w. w)

extensions-IsAllowed_example : IsAllowed 6 (extensions probes true 6 0).0
extensions-IsAllowed_example = extensions-IsAllowed probes true 6 0 (omega arith) (omega arith)

-- A reconnect by a handler that finds its device again.
abbrev found_again : ℕ → Psmouse ℕ → ℕ × Psmouse ℕ × ℕ
found_again d m = (d, m, 0)

reconnect_by-Ending_example :
    let r =
      reconnect_by good_ps2 good_ps2
        (default_hooks {Q = ℕ} good_ps2)
        mouse_probes
        23
        (some found_again)
        60
        unlucky in
    ReconnectEnding false 0 0 r.0.mouse r.1 × (r.0.mouse.pktcnt ≡ 0)
reconnect_by-Ending_example =
    reconnect_by-Ending good_ps2 good_ps2 (default_hooks {Q = ℕ} good_ps2)
      (default_hooks-IsTame good_ps2) mouse_probes 23 found_again (λ d m. (refl, refl, refl)) 60
      unlucky

feed-enough_example :
    feed (process_byte linux_headers) 3 0 mouse ≡ feed (process_byte linux_headers) 256 0 mouse
feed-enough_example =
    feed-enough (process_byte linux_headers) 3 256 0 mouse
      (λ u. (process_byte-IsHandler linux_headers).keeps_pktsize u) (omega arith) (omega arith)

-- A protocol with packets of four bytes, whose device answers a poll.
abbrev pub wheel_entry : Entry ℕ ℕ
wheel_entry = record {
  protocol = record mouse.protocol { type = PsmouseType.imps };
  detect = some (λ d m. (d, record m { pktsize = 4 }, false));
  init = none;
}

abbrev idle_mouse : Psmouse ℕ
idle_mouse = record mouse { resync_time = 5 }

switch_protocol-IsPollable_example :
    IsPollable
      (poll good_ps2)
      (switch_protocol
        (poll good_ps2)
        mouse_probes
        (λ t. mouse.protocol)
        23
        (some wheel_entry)
        0
        idle_mouse).1
switch_protocol-IsPollable_example =
    switch_protocol-IsPollable (poll good_ps2) mouse_probes (λ t. mouse.protocol) 23
      (some wheel_entry) 0 idle_mouse (unfold switch_protocol switch_to in refl)
