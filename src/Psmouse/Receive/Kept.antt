-- ===== src/Psmouse/Receive/Kept.antt =====
-- What a handler keeps of the driver's data, `psmouse_receive_byte` keeps.
use debugging.Common.{ℕ, [], ◌∷◌, arith}
use debugging.Kernel.{Headers, wakeup}
use debugging.Psmouse.{Psmouse, Handler, emit}
use debugging.Psmouse.Receive.{
  handle_byte, store, finish_byte, announcement, stored_byte, receive_byte,
}

module _ {P : Type 0} (h : Headers) (handler : Handler P) (R : P → Type 0)
    (kept : (m : Psmouse P) → R m.private → R (handler m).0.private) where
  handle_byte-kept :
      (now : ℕ) (m : Psmouse P) → R m.private → R (handle_byte handler now m).0.private
  unfolding handle_byte
  handle_byte-kept now m r = ground (arith, kept m r)

  finish_byte-kept :
      (now : ℕ) (m : Psmouse P) → R m.private → R (finish_byte h handler now m).private
  unfolding finish_byte
  finish_byte-kept now m r = ground (arith, handle_byte-kept now (record m { last = now }) r)

  announcement-kept :
      (now byte : ℕ) (m : Psmouse P) → R m.private → R (announcement h handler now byte m).private
  unfolding announcement
  announcement-kept now byte m r =
      let first = handle_byte-kept now (record m { pktcnt = 1 }) r in
      ground (
        arith,
        first,
        finish_byte-kept now (store byte (handle_byte handler now (record m { pktcnt = 1 })).0)
            first,
      )

  stored_byte-kept :
      (now byte : ℕ) (m : Psmouse P) → R m.private → R (stored_byte h handler now byte m).private
  unfolding stored_byte
  stored_byte-kept now byte m r =
      ground (arith, announcement-kept now byte m r, finish_byte-kept now m r)

  pub receive_byte-kept :
      (now byte : ℕ) (m : Psmouse P) → R m.private → R (receive_byte h handler now byte m).private
  unfolding receive_byte
  receive_byte-kept now byte m r =
      ground (arith, stored_byte-kept now byte (store byte (emit m (wakeup ∷ []))) r)
