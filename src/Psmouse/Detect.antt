-- ===== src/Psmouse/Detect.antt =====
-- psmouse-base.c: `psmouse_do_detect`, `psmouse_try_protocol` and `psmouse_extensions`, which find
-- the protocol of a mouse. The detect and init functions of the protocols, and the commands sent
-- between the probes, are the fields of an interface over a state `W` of mouse and device.
pub mod Limit
use debugging.Common.{
  ℕ, Bool, true, false, not, Option, none, some, ltb, leb, ◌==◌, ◌&&◌, ◌||◌, if◌then◌else◌,
}
use debugging.Psmouse.{PsmouseType, rank}

-- `detect` and `init` give a code, 0 for success; `init` is `none` where the table has NULL;
-- `enabled` tells whether the kernel is built with a protocol. `synaptics_init` and `elantech_init`
-- give a type, or `none` for a negative code.
pub record Probes (W : Type 0) : Type 0 where
  pub detect : PsmouseType → Bool → W → W × ℕ
  pub init : PsmouseType → Option (W → W × ℕ)
  pub enabled : PsmouseType → Bool
  pub is_passthru : W → Bool
  pub apply_defaults : W → W
  pub synaptics_init : W → W × Option PsmouseType
  pub elantech_init : W → W × Option PsmouseType
  pub focaltech_init : W → W × ℕ
  pub synaptics_reset : W → W
  pub reset_dis : W → W
  pub reset : W → W
  pub set_psmouse_max_proto : ℕ → W → W

-- The field `try_passthru` of the table.
abbrev pub try_passthru : PsmouseType → Bool
try_passthru PsmouseType.ps2 = true
try_passthru PsmouseType.imps = true
try_passthru PsmouseType.imex = true
try_passthru PsmouseType.trackpoint = true
try_passthru _ = false

-- What `psmouse_extensions` carries from probe to probe.
pub record Search (W : Type 0) : Type 0 where
  pub world : W
  pub max_proto : ℕ
  pub synaptics_hardware : Bool

-- A part of the function either returns a type or falls through.
pub data Outcome (W : Type 0) : Type 0 where
  found : PsmouseType → W → Outcome W
  go_on : Search W → Outcome W

infixl 5 ◌>>=◌
abbrev pub ◌>>=◌ : {W : Type 0} → Outcome W → (Search W → Outcome W) → Outcome W
found t w >>= k = found t w
go_on s >>= k = k s

abbrev pub imex : ℕ
imex = rank PsmouseType.imex

module _ {W : Type 0} (p : Probes W) (set_properties : Bool) where
  -- `psmouse_do_detect`
  unfoldable pub do_detect : PsmouseType → Bool → W → W × Bool
  do_detect t allow_passthrough w =
      let w' = if set_properties then p.apply_defaults w else w in
      let (w'', code) = p.detect t set_properties w' in
      if p.is_passthru w && not allow_passthrough then (w, false) else (w'', code == 0)

  run_init : Option (W → W × ℕ) → W → W × ℕ
  run_init none w = (w, 0)
  run_init (some f) w = f w

  -- `psmouse_try_protocol`: the state, the limit, and whether the protocol was taken.
  unfoldable pub try_protocol : PsmouseType → Bool → Search W → Search W × Bool
  unfolding run_init
  try_protocol t init_allowed s =
      let (w, detected) = do_detect t (try_passthru t) s.world in
      let (w', code) = run_init (p.init t) w in
      if not (p.enabled t)
      then (s, false)
      else if not detected
      then (record s { world = w }, false)
      else if set_properties && init_allowed
      then (if code == 0 then (record s { world = w' }, true) else (
        record s { world = w'; max_proto = if ltb imex s.max_proto then imex else s.max_proto },
        false,
      ))
      else (record s { world = w }, true)

  -- `if (psmouse_try_protocol(…)) return type;`
  unfoldable pub try : PsmouseType → Bool → Search W → Outcome W
  try t init_allowed s =
      let (s', taken) = try_protocol t init_allowed s in
      if taken then found t s'.world else go_on s'

  -- The same behind `max_proto > PSMOUSE_IMEX`.
  unfoldable pub try_above_imex : PsmouseType → Search W → Outcome W
  try_above_imex t s = let next = try t true s in if ltb imex s.max_proto then next else go_on s

  -- The FocalTech check.
  unfoldable pub try_focaltech : Search W → Outcome W
  try_focaltech s =
      let (w, detected) = do_detect PsmouseType.focaltech false s.world in
      let (w', code) = p.focaltech_init w in
      let ps2 = rank PsmouseType.ps2 in
      let fall_back =
        λ (u : W). go_on (record s { world = p.set_psmouse_max_proto ps2 u; max_proto = ps2 }) in
      if not detected
      then go_on (record s { world = w })
      else if ltb imex s.max_proto && p.enabled PsmouseType.focaltech
      then (if not set_properties
          then found PsmouseType.focaltech w
          else if code == 0
          then found PsmouseType.focaltech w'
          else fall_back w')
      else fall_back w

  -- A driver's own init that may give the type.
  abbrev pub take_type : W × Option PsmouseType → (W → Outcome W) → Outcome W
  take_type (w, some t) k = found t w
  take_type (w, none) k = k w

  -- The Synaptics check.
  unfoldable pub try_synaptics : Search W → Outcome W
  try_synaptics s =
      let (w, detected) = do_detect PsmouseType.synaptics false s.world in
      let supported = p.enabled PsmouseType.synaptics || p.enabled PsmouseType.synaptics_smbus in
      let relative = λ (max : ℕ) (u : W).
        go_on
          (record s { world = p.synaptics_reset u; max_proto = max; synaptics_hardware = true }) in
      let activated = take_type (p.synaptics_init w) (relative imex) in
      if not (ltb (rank PsmouseType.ps2) s.max_proto)
      then go_on s
      else if not detected
      then go_on (record s { world = w })
      else if not (ltb imex s.max_proto)
      then relative s.max_proto w
      else if not supported
      then relative imex w
      else if not set_properties
      then found PsmouseType.synaptics w
      else activated

  -- The ALPS check, behind a reset of the device.
  unfoldable pub try_alps : Search W → Outcome W
  try_alps s =
      let next = try PsmouseType.alps true (record s { world = p.reset_dis s.world }) in
      if ltb imex s.max_proto then next else go_on s

  -- The Elantech check.
  unfoldable pub try_elantech : Search W → Outcome W
  try_elantech s =
      let (s', taken) = try_protocol PsmouseType.elantech false s in
      let next = take_type (p.elantech_init s'.world) (λ w. go_on (record s' { world = w })) in
      if not (ltb imex s.max_proto)
      then go_on s
      else if not taken
      then go_on s'
      else if not set_properties
      then found PsmouseType.elantech s'.world
      else next

  -- Genius, Logitech, TrackPoint and TouchKit, in one block under the test of its beginning.
  unfoldable pub try_relative : Search W → Outcome W
  try_relative s =
      let next =
        try PsmouseType.genps true s
        >>= try PsmouseType.ps2pp true
        >>= try PsmouseType.trackpoint true
        >>= try PsmouseType.touchkit_ps2 true in
      if ltb imex s.max_proto then next else go_on s

  -- A standard extension, if the limit allows it.
  unfoldable pub try_standard : PsmouseType → Search W → Outcome W
  try_standard t s = let next = try t true s in if leb (rank t) s.max_proto then next else go_on s

  -- The end: a bare mouse.
  unfoldable pub bare : Search W → PsmouseType × W
  bare s =
      let s' = (try_protocol PsmouseType.ps2 true s).0 in
      (PsmouseType.ps2, if s'.synaptics_hardware then p.reset s'.world else s'.world)

  -- The part of `psmouse_extensions` up to the probes of the standard extensions.
  unfoldable pub special_probes : Search W → Outcome W
  special_probes s =
      try_focaltech s
      >>= (λ s. try PsmouseType.lifebook (ltb imex s.max_proto) s)
      >>= (λ s. try PsmouseType.vmmouse (ltb imex s.max_proto) s)
      >>= try_above_imex PsmouseType.thinkps
      >>= try_synaptics
      >>= try_above_imex PsmouseType.cypress
      >>= try_alps
      >>= try_above_imex PsmouseType.hgpk
      >>= try_elantech
      >>= try_relative
      >>= try_above_imex PsmouseType.fsp

  unfoldable pub standard_probes : Search W → Outcome W
  standard_probes s =
      try_standard PsmouseType.imex (record s { world = p.reset (p.reset_dis s.world) })
      >>= try_standard PsmouseType.imps

  conclude : Outcome W → PsmouseType × W
  conclude (found t w) = (t, w)
  conclude (go_on s) = bare s

  -- `psmouse_extensions`
  unfoldable pub extensions : ℕ → W → PsmouseType × W
  unfolding conclude
  extensions max_proto w = conclude (
      special_probes (record { world = w; max_proto = max_proto; synaptics_hardware = false })
      >>= standard_probes)
