-- ===== src/Trackpoint/Examples.antt =====
-- A concrete TrackPoint, and the theorems about the driver with it.
use debugging.Common.{ℕ, ◌≡◌, true, [], ◌∷◌, refl, arith, ◌==◌, if◌then◌else◌, bit_and}
use Prim.Native.Nat.{bit_xor}
use debugging.Common.{inr, none, false}
use debugging.Psmouse.{Psmouse, PsmouseType, State}
use debugging.Psmouse.Detect.{Probes}
use debugging.Psmouse.Receive.Packet.{IsStreaming}
use debugging.Psmouse.Reconnect
use debugging.Trackpoint.Revival.{IsSeparate, trackpoint_hooks, reconnect-Trackpoint}
use debugging.Kernel.{Ps2, Reply, bytes}
use debugging.Trackpoint.{Attr, Data, power_on_default}
use debugging.Trackpoint.Io.{is_attr_available, Parsed, Stored, set_attr, show_int_attr}
use debugging.Trackpoint.Sync.{sync, defaults}
use debugging.Trackpoint.Device.{Ram, Holds, IsTrackpoint}
use debugging.Trackpoint.Settings.{sync-Holds}
use debugging.Trackpoint.Detect.{reconnect, detect, start_protocol}
use debugging.Trackpoint.Reconnect.{reconnect-Holds, detect-Holds}
use debugging.Trackpoint.Attributes.{set_attr-Agrees, Agrees}

-- The RAM after a power-on reset.
abbrev fresh : ℕ → ℕ
fresh l =
    if l == 0x4a
    then 0x80
    else if l == 0x60
    then 0x61
    else if l == 0x4d
    then 0x06
    else if l == 0x57
    then 0x0a
    else if l == 0x58
    then 0xff
    else if l == 0x59
    then 0x14
    else if l == 0x5c
    then 0x08
    else if l == 0x5a
    then 0xff
    else if l == 0x5e
    then 0x26
    else if l == 0x5d
    then 0x87
    else if l == 0x5f
    then 0x05
    else 0

-- The device is its RAM.
abbrev write_mem : (ℕ → ℕ) → ℕ → ℕ → ℕ → ℕ
write_mem d loc v l = if l == loc then v else d l

abbrev answer : (ℕ → ℕ) → ℕ → (ℕ → ℕ) → Reply (ℕ → ℕ)
answer d c p =
    if c == 0x11e2
    then record { device = d; code = 0; param = λ i. if i == 0 then d (p 0) else p i }
    else if c == 0x30e2
    then record {
      device =
          if p 0 == 0x81
          then write_mem d (p 1) (p 2)
          else write_mem d (p 1) (bit_xor (d (p 1)) (p 2));
      code = 0;
      param = p;
    }
    else if c == 0x12e2
    then record { device = fresh; code = 0; param = bytes (0xaa ∷ 0x00 ∷ []) }
    else record { device = d; code = 0; param = bytes (0x01 ∷ 0x0e ∷ []) }

abbrev stick : Ps2 (ℕ → ℕ)
stick = record { command = answer; sendbyte = λ d c t. (d, 0); uninit = bytes [] }

abbrev ram : Ram (ℕ → ℕ)
ram d = d

fresh-Holds : (a : Attr) → Holds ram fresh a (power_on_default a)
fresh-Holds Attr.sensitivity = refl
fresh-Holds _ = refl

stick-IsTrackpoint : IsTrackpoint stick ram
stick-IsTrackpoint = record {
  reads = λ d p h. (refl, refl, λ l. refl);
  writes = λ d loc v. (refl, ground arith, λ l ne. ground arith);
  toggles = λ d loc m. (refl, ground arith, λ l ne. ground arith);
  resets = λ d h₁ h₂ h₃ a. fresh-Holds a;
}

-- The data of a driver that has changed the sensitivity, and the press to select.
abbrev settings : Data
settings = record {
  variant_id = 0x01;
  firmware_id = 0x0e;
  value =
      λ a. elim a [ Attr.sensitivity ↦ 0xc8 | Attr.press_to_select ↦ 1 | b ↦ power_on_default b ];
}

sync-Holds_example : sync stick settings true fresh 0x4a ≡ 0xc8
sync-Holds_example =
    sync-Holds stick ram stick-IsTrackpoint settings true fresh Attr.sensitivity
      (unfold is_attr_available in refl) (λ _ b. fresh-Holds b)

reconnect-Holds_example : bit_and ((reconnect stick settings fresh).0 0x2c) 0x01 == 0x01 ≡ true
reconnect-Holds_example =
    reconnect-Holds stick ram stick-IsTrackpoint settings fresh Attr.press_to_select
      (unfold reconnect start_protocol in refl) (unfold is_attr_available in refl)

-- The data that the detection of this device keeps.
abbrev detected : Data
detected = record { variant_id = 0x01; firmware_id = 0x0e; value = power_on_default }

detect-Holds_example :
    ((detect stick true true 0 fresh).device 0x4a ≡ 0x80)
    × (power_on_default Attr.sensitivity ≡ 0x80)
detect-Holds_example =
    detect-Holds stick ram stick-IsTrackpoint fresh 0 {tp = detected} Attr.sensitivity
      (unfold detect start_protocol defaults in refl) (unfold is_attr_available in refl)

fresh-Agrees : Agrees stick ram stick-IsTrackpoint detected fresh
fresh-Agrees Attr.sensitivity = (refl, omega arith)
fresh-Agrees _ = (refl, omega arith)

set_attr-Agrees_example :
    let r = set_attr stick Attr.ext_dev (Parsed.parsed 0) 2 fresh detected in
    Agrees stick ram stick-IsTrackpoint r.1 r.0
    × (show_int_attr Attr.ext_dev r.1 ≡ 0)
    × (r.2 ≡ Stored.taken 2)
set_attr-Agrees_example =
    set_attr-Agrees stick ram stick-IsTrackpoint Attr.ext_dev 0 2 fresh detected (omega arith)
      fresh-Agrees

-- The other commands find the same RAM and are acknowledged.
stick-IsSeparate : IsSeparate stick ram
stick-IsSeparate = record { keeps_ram = λ d cmd p core l. ground arith; enables = λ d. refl }

abbrev lost_mouse : Psmouse Data
lost_mouse = record {
  private = settings;
  protocol = record {
    type = PsmouseType.trackpoint;
    maxproto = false;
    ignore_parity = false;
    try_passthru = true;
    smbus_companion = false;
  };
  packet = bytes [];
  badbyte = 0;
  pktcnt = 2;
  pktsize = 3;
  oob_data_type = 0;
  extra_buttons = 0;
  acks_disable_command = false;
  last = 0;
  out_of_sync_cnt = 0;
  num_resyncs = 0;
  state = State.ignore;
  flags = 0;
  rate = 100;
  resolution = 200;
  resetafter = 5;
  resync_time = 0;
  a4tech_2wheels = false;
  effects = [];
}

abbrev no_probes : Probes ((ℕ → ℕ) × Psmouse Data)
no_probes = record {
  detect = λ t set w. (w, 19);
  init = λ t. none;
  enabled = λ t. true;
  is_passthru = λ w. false;
  apply_defaults = λ w. w;
  synaptics_init = λ w. (w, none);
  elantech_init = λ w. (w, none);
  focaltech_init = λ w. (w, 19);
  synaptics_reset = λ w. w;
  reset_dis = λ w. w;
  reset = λ w. w;
  set_psmouse_max_proto = λ n w. w;
}

reconnect-Trackpoint_example :
    let r =
      Reconnect.reconnect stick stick
        (trackpoint_hooks {Q = ℕ} stick)
        no_probes
        23
        false
        70
        (record { device = fresh; mouse = lost_mouse; parent = none }) in
    (r.1 ≡ 0) × IsStreaming 0 r.0.mouse × (r.0.device 0x4a ≡ 0xc8)
reconnect-Trackpoint_example =
    reconnect-Trackpoint ℕ stick stick ram stick-IsSeparate stick-IsTrackpoint no_probes 23 70 0
      fresh lost_mouse Attr.sensitivity refl refl refl (inr refl) refl
      (unfold reconnect start_protocol in refl) (unfold is_attr_available in refl)
