-- ===== src/Psmouse/Table/Tests.antt =====
-- Searches in the table of protocols.
use debugging.Common.{◌≡◌, true, some, refl}
use debugging.Kernel.{einval}
use debugging.Psmouse.Table.{bare_entry, psmouse_protocol_by_name, set_maxproto}

-- Every entry is built in.
bare-by_alias : psmouse_protocol_by_name (λ t. true) "bare" ≡ some bare_entry
bare-by_alias = refl

maxproto-exps : set_maxproto (λ t. true) (some "exps") 23 ≡ (6, 0)
maxproto-exps = refl

-- The TrackPoint is no limit.
maxproto-trackpoint : set_maxproto (λ t. true) (some "trackpoint") 23 ≡ (23, einval)
maxproto-trackpoint = refl
