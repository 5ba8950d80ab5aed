-- ===== src/Trackpoint/Io.antt =====
-- trackpoint.c: the device input and output, and the attributes' show and set functions.
use debugging.Common.{ℕ, Bool, not, [], ◌∷◌, ltb, leb, ◌==◌, ◌||◌, if◌then◌else◌, bit_and}
use debugging.Common.Bits.{xor, of_bool}
use debugging.Kernel.{Ps2, Reply, bytes, update, einval, enodev}
use debugging.Trackpoint.{
  Attr, Data, field_offset, command, mask, inverted, tp_command, tp_por, tp_write_mem, tp_toggle,
  variant_ibm, make_ps2_cmd, is_sensitivity, is_press_to_select,
}

-- What the kernel's parsers make of the text that is written to an attribute.
pub data Parsed : Type 0 where
  parsed : ℕ → Parsed
  refused : ℕ → Parsed

-- What a set function returns: a negative code, or the number of bytes taken.
pub data Stored : Type 0 where
  error : ℕ → Stored
  taken : ℕ → Stored

-- `err ?: count`
abbrev pub err_or_count : ℕ → ℕ → Stored
err_or_count code count = if code == 0 then Stored.taken count else Stored.error code

unfoldable pub is_attr_available : Data → Attr → Bool
is_attr_available tp a = tp.variant_id == variant_ibm || (is_sensitivity a || is_press_to_select a)

-- `*field = value`
abbrev pub put : Attr → ℕ → Data → Data
put a v tp = record tp { value = λ b. if field_offset b == field_offset a then v else tp.value b }

-- `trackpoint_show_int_attr`: the number printed.
unfoldable pub show_int_attr : Attr → Data → ℕ
show_int_attr a tp = if inverted a then of_bool (tp.value a == 0) else tp.value a

module _ {D : Type 0} (ps2 : Ps2 D) where
  -- `trackpoint_power_on_reset`
  unfoldable pub power_on_reset : D → D × ℕ
  power_on_reset d =
      let r = ps2.command d (make_ps2_cmd 1 2 tp_command) (bytes (tp_por ∷ 0 ∷ [])) in
      if not (r.code == 0)
      then (r.device, r.code)
      else if not (r.param 0 == 0xaa) || not (r.param 1 == 0x00)
      then (r.device, enodev)
      else (r.device, 0)

  -- `trackpoint_read`
  unfoldable pub read : ℕ → D → Reply D
  read loc d = ps2.command d (make_ps2_cmd 1 1 tp_command) (update ps2.uninit 0 loc)

  -- `trackpoint_write`
  unfoldable pub write : ℕ → ℕ → D → D × ℕ
  write loc v d =
      let r = ps2.command d (make_ps2_cmd 3 0 tp_command) (bytes (tp_write_mem ∷ loc ∷ v ∷ [])) in
      (r.device, r.code)

  -- `trackpoint_toggle_bit`
  unfoldable pub toggle_bit : ℕ → ℕ → D → D × ℕ
  toggle_bit loc m d =
      let r = ps2.command d (make_ps2_cmd 3 0 tp_command) (bytes (tp_toggle ∷ loc ∷ m ∷ [])) in
      if ltb loc 0x20 || leb 0x2f loc then (d, einval) else (r.device, r.code)

  -- `trackpoint_update_bit`
  unfoldable pub update_bit : ℕ → ℕ → ℕ → D → D × ℕ
  update_bit loc m v d =
      let r = read loc d in
      let set = bit_and (r.param 0) m == m in
      if not (r.code == 0)
      then (r.device, r.code)
      else if xor set (not (v == 0))
      then toggle_bit loc m r.device
      else (r.device, r.code)

  -- `trackpoint_set_int_attr`
  unfoldable pub set_int_attr : Attr → Parsed → ℕ → D → Data → D × Data × Stored
  set_int_attr a (Parsed.refused code) count d tp = (d, tp, Stored.error code)
  set_int_attr a (Parsed.parsed v) count d tp =
      let (d', code) = write (command a) v d in (d', put a v tp, err_or_count code count)

  -- `trackpoint_set_bit_attr`; `v` is 0 or 1.
  unfoldable pub set_bit_attr : Attr → Parsed → ℕ → D → Data → D × Data × Stored
  set_bit_attr a (Parsed.refused code) count d tp = (d, tp, Stored.error code)
  set_bit_attr a (Parsed.parsed v) count d tp =
      let value = if inverted a then of_bool (v == 0) else v in
      let (d', code) = toggle_bit (command a) (mask a) d in
      if tp.value a == value
      then (d, tp, Stored.taken count)
      else (d', put a value tp, err_or_count code count)

  -- The set function of an attribute: the int or the bit one, by the macro that defines it.
  unfoldable pub set_attr : Attr → Parsed → ℕ → D → Data → D × Data × Stored
  set_attr a text count d tp =
      if mask a == 0 then set_int_attr a text count d tp else set_bit_attr a text count d tp
