-- ===== src/Psmouse/Receive/Step.antt =====
-- `psmouse_receive_byte` where nothing is out of the ordinary: no timeout and no announcement.
use debugging.Common.{ℕ, ◌+◌, ◌/◌, ◌≡◌, ◌⊎◌, false, [], ◌∷◌, arith, ◌==◌}
use debugging.Kernel.{Headers, wakeup, u64}
use debugging.Psmouse.{Psmouse, State, Handler, emit, ret_bat}
use debugging.Psmouse.Receive.{handle_byte, store, receive_byte, stored_byte, finish_byte}

-- The byte in hand is stored, the time noted, and the handler called.
abbrev pub served : {P : Type 0} → Handler P → ℕ → ℕ → Psmouse P → Psmouse P
served handler now byte m =
    (handle_byte handler now (record (store byte (emit m (wakeup ∷ []))) { last = now })).0

-- The byte begins a packet, or comes in time to go on with one.
abbrev pub IsTimely : {P : Type 0} → Headers → ℕ → Psmouse P → Type 0
IsTimely h now m = (m.pktcnt ≡ 0) ⊎ (h.time_after now (u64 (m.last + h.hz / 2)) ≡ false)

pub receive_byte-served :
    {P : Type 0} (h : Headers) (handler : Handler P) (now byte : ℕ) (m : Psmouse P)
    → m.state ≡ State.activated
    → m.resync_time ≡ 0
    → IsTimely h now m
    → ((store byte m).packet 0 == ret_bat) ≡ false
    → receive_byte h handler now byte m ≡ served handler now byte m
unfolding receive_byte stored_byte finish_byte
receive_byte-served h handler now byte m act idle timely first = ground arith
