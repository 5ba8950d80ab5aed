-- ===== src/Sermouse.antt =====
-- trackpoint-lost/sermouse.c: serial mice, whose bytes are reported as they come, ahead of the whole
-- packet. Connecting and disconnecting are not modelled.
mod Examples
pub mod Stream
use debugging.Common.{
  ℕ, suc, ◌+◌, ◌-◌, ◌*◌, ◌/◌, ◌%◌, ◌<◌, Bool, true, false, not, List, [], ◌∷◌, ◌++◌, ltb, ◌==◌,
  ◌&&◌, ◌||◌, if◌then◌else◌,
}
use debugging.Common.Int.{ℤ, pos, negsuc, neg, half, ◌+ℤ◌}
use debugging.Common.Bits.{bit}
use debugging.Kernel.{Headers, Input, Button, Axis, u8, u64}

-- SERIO_MSC to SERIO_MZPP; the mice from `ms` on have the bytes of Microsoft's.
pub data SerioType : Type 0 where
  msc sun ms mp mz mzp mzpp : SerioType

abbrev pub is_microsoft : SerioType → Bool
is_microsoft SerioType.msc = false
is_microsoft SerioType.sun = false
is_microsoft _ = true

abbrev pub is_ms : SerioType → Bool
is_ms SerioType.ms = true
is_ms _ = false

abbrev pub is_mzpp : SerioType → Bool
is_mzpp SerioType.mzpp = true
is_mzpp _ = false

-- struct sermouse, with the events so far. `buf` holds signed characters.
pub record Sermouse : Type 0 where
  pub buf : ℕ → ℤ
  pub count : ℕ
  pub type : SerioType
  pub last : ℕ
  pub events : List Input

-- A byte as a signed character, and back.
abbrev pub signed_char : ℕ → ℤ
signed_char b = if ltb b 128 then pos b else negsuc (255 - b)

abbrev pub raw : ℤ → ℕ
raw (pos n) = n
raw (negsuc n) = 255 - n

abbrev pub put : (ℕ → ℤ) → ℕ → ℤ → ℕ → ℤ
put buf i v j = if j == i then v else buf j

-- The reports and the buffer of a byte, by the count: the switch of `sermouse_process_msc`.
unfoldable pub msc_report : ℕ → ℕ → (ℕ → ℤ) → List Input
msc_report count b buf =
    let value = signed_char b in
    if count == 0
    then Input.key Button.left (not (bit b 2))
      ∷ Input.key Button.right (not (bit b 0))
      ∷ Input.key Button.middle (not (bit b 1))
      ∷ []
    else if count == 1 || count == 3
    then Input.rel Axis.x (half value) ∷ Input.rel Axis.y (neg (buf 1)) ∷ []
    else if count == 2 || count == 4
    then Input.rel Axis.x (buf 0) ∷ Input.rel Axis.y (buf 1 +ℤ neg value) ∷ []
    else []

unfoldable pub msc_buf : ℕ → ℕ → (ℕ → ℤ) → ℕ → ℤ
msc_buf count b buf =
    let value = signed_char b in
    if count == 1 || count == 3
    then put buf 0 (value +ℤ neg (half value))
    else if count == 2 || count == 4
    then put buf 1 (half value)
    else buf

-- `sermouse_process_msc`
unfoldable pub process_msc : ℕ → Sermouse → Sermouse
process_msc b s = if s.count == 0 && not (b / 8 == 16) then s else record s {
  buf = msc_buf s.count b s.buf;
  count = if u8 (s.count + 1) == 5 then 0 else u8 (s.count + 1);
  events = s.events ++ (msc_report s.count b s.buf ++ (Input.sync ∷ []));
}

-- A displacement of a Microsoft mouse: two bits of the first byte over six of its own.
abbrev pub joined : ℕ → ℕ → ℤ
joined high b = signed_char (high % 4 * 64 + b % 64)

-- The third byte repeats the buttons of an MS mouse: the guess of the middle button.
abbrev pub is_middle_guess : SerioType → ℕ → (ℕ → ℤ) → Bool
is_middle_guess type b buf =
    is_ms type
    && (b == 0
        && (raw (buf 2) == 0 && (raw (buf 0) / 16 * 16 == raw (buf 1) && ltb (raw (buf 1)) 128)))

-- The fourth byte, by the type.
abbrev pub mp_report : ℕ → List Input
mp_report b =
    if not (b / 4 % 4 == 0)
    then []
    else Input.key Button.middle (bit b 5) ∷ Input.key Button.side (bit b 4) ∷ []

abbrev pub mz_report : ℕ → List Input
mz_report b =
    Input.key Button.middle (bit b 4)
    ∷ Input.rel Axis.wheel (pos (b / 8 % 2 * 8) +ℤ neg (pos (b % 8)))
    ∷ []

abbrev pub fourth_report : SerioType → ℕ → List Input
fourth_report SerioType.ms b = mp_report b
fourth_report SerioType.mp b = mp_report b
fourth_report SerioType.mz b = mz_report b
fourth_report SerioType.mzp b = Input.key Button.side (bit b 5) ∷ mz_report b
fourth_report SerioType.mzpp b = Input.key Button.side (bit b 5) ∷ mz_report b
fourth_report _ b = []

-- The MZ++ packet of extra information.
abbrev pub extra_report : ℕ → List Input
extra_report b =
    Input.key Button.side (bit b 4)
    ∷ Input.key Button.extra (bit b 5)
    ∷ Input.rel (if bit b 7 then Axis.hwheel else Axis.wheel)
        (pos (b % 8) +ℤ neg (pos (b / 8 % 2 * 8)))
    ∷ []

-- The switch of `sermouse_process_ms`. `held` is whether the input layer has BTN_MIDDLE pressed.
unfoldable pub ms_report : Bool → SerioType → ℕ → ℕ → (ℕ → ℤ) → List Input
ms_report held type count b buf =
    if count == 0
    then Input.key Button.left (bit b 5) ∷ Input.key Button.right (bit b 4) ∷ []
    else if count == 1
    then Input.rel Axis.x (half (joined (raw (buf 1)) b)) ∷ Input.rel Axis.y (buf 4) ∷ []
    else if count == 2
    then (if is_middle_guess type b buf then Input.key Button.middle (not held) ∷ [] else [])
      ++ (Input.rel Axis.x (buf 3)
          ∷ Input.rel Axis.y (joined (raw (buf 1) / 4) b +ℤ neg (buf 4))
          ∷ [])
    else if count == 3
    then fourth_report type b
    else if (count == 5 || count == 7) && (is_mzpp type && raw (buf 1) == 1)
    then extra_report b
    else []

unfoldable pub ms_buf : ℕ → ℕ → (ℕ → ℤ) → ℕ → ℤ
ms_buf count b buf =
    let dx = joined (raw (buf 1)) b in
    if count == 0
    then put buf 1 (signed_char b)
    else if count == 1
    then put (put buf 2 (signed_char b)) 3 (dx +ℤ neg (half dx))
    else if count == 2
    then put (put buf 0 (buf 1)) 4 (half (joined (raw (buf 1) / 4) b))
    else if count == 4 || count == 6
    then put buf 1 (pos (b / 4 % 16))
    else buf

-- An MS mouse that sends a fourth byte is an M+ one.
abbrev pub found_type : ℕ → SerioType → SerioType
found_type count type = if count == 3 && is_ms type then SerioType.mp else type

-- `sermouse_process_ms`
unfoldable pub process_ms : Bool → ℕ → Sermouse → Sermouse
process_ms held b s =
    let count = if bit b 6 then 0 else s.count in
    if not (bit b 6) && s.count == 0 then s else record s {
      buf = ms_buf count b s.buf;
      count = u8 (count + 1);
      type = found_type count s.type;
      events = s.events ++ (ms_report held s.type count b s.buf ++ (Input.sync ∷ []));
    }

-- `sermouse_interrupt`, at the time `now`.
unfoldable pub interrupt : Headers → Bool → ℕ → ℕ → Sermouse → Sermouse
interrupt h held now b s =
    let late = h.time_after now (u64 (s.last + h.hz / 10)) in
    let t = record s { count = if late then 0 else s.count; last = now } in
    if is_microsoft t.type then process_ms held b t else process_msc b t
