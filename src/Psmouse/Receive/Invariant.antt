-- ===== src/Psmouse/Receive/Invariant.antt =====
-- The bounds of `packet` in `psmouse_receive_byte`, for any handler.
use debugging.Common.{◌∙◌, refl, ℕ, ◌≤◌, ◌<◌, ◌≡◌, ◌⊎◌, List, [], ◌∷◌, arith}
use debugging.Kernel.{Headers, wakeup}
use debugging.Psmouse.{Psmouse, Handler, Ret, emit}
use debugging.Psmouse.Receive.{
  handle_byte, store, finish_byte, announcement, stored_byte, receive_byte, receive_bytes,
}

-- What a protocol handler promises: it does not touch the counter and the size, it writes no byte
-- past the array, and it asks for more bytes only while the packet is incomplete.
pub record IsHandler {P : Type 0} (handler : Handler P) : Type 0 where
  pub keeps_pktcnt : (m : Psmouse P) → (handler m).0.pktcnt ≡ m.pktcnt
  pub keeps_pktsize : (m : Psmouse P) → (handler m).0.pktsize ≡ m.pktsize
  pub in_bounds : (m : Psmouse P) (i : ℕ) → 8 ≤ i → (handler m).0.packet i ≡ m.packet i
  pub asks : (m : Psmouse P) → (handler m).1 ≡ Ret.good_data → m.pktcnt < m.pktsize

-- The counter is below the size of the packet between two bytes, and the packet fits the array.
pub record IsBounded {P : Type 0} (m : Psmouse P) : Type 0 where
  pub counted : m.pktcnt < m.pktsize
  pub long : 3 ≤ m.pktsize
  pub fits : m.pktsize ≤ 8

-- `m'` is bounded, and no byte past the array `packet` of `m` was written.
pub record IsSafe {P : Type 0} (m m' : Psmouse P) : Type 0 where
  pub bounded : IsBounded m'
  pub unwritten : (i : ℕ) → 8 ≤ i → m'.packet i ≡ m.packet i

module _ {P : Type 0} (h : Headers) (handler : Handler P) (lawful : IsHandler handler) where
  -- A state inside `receive_byte`, when the byte is stored.
  abbrev IsFilled : Psmouse P → Type 0
  IsFilled m = (m.pktcnt ≤ m.pktsize) × (3 ≤ m.pktsize) × (m.pktsize ≤ 8)

  handle_byte-IsSafe :
      (now : ℕ) (m : Psmouse P) → IsFilled m → IsSafe m (handle_byte handler now m).0
  unfolding handle_byte
  handle_byte-IsSafe now m f = record {
    bounded = ground (arith, lawful.keeps_pktcnt m, lawful.keeps_pktsize m, lawful.asks m);
    unwritten = λ i p. ground (arith, lawful.in_bounds m i);
  }

  -- The size stays what it was, and the counter goes back to 0 or stays.
  handle_byte-counter :
      (now : ℕ) (m : Psmouse P)
      → let m' = (handle_byte handler now m).0 in
        (m'.pktsize ≡ m.pktsize) × ((m'.pktcnt ≡ 0) ⊎ (m'.pktcnt ≡ m.pktcnt))
  unfolding handle_byte
  handle_byte-counter now m = ground (arith, lawful.keeps_pktcnt m, lawful.keeps_pktsize m)

  finish_byte-IsSafe :
      (now : ℕ) (m : Psmouse P) → IsFilled m → IsSafe m (finish_byte h handler now m)
  unfolding finish_byte
  finish_byte-IsSafe now m f =
      let served = handle_byte-IsSafe now (record m { last = now }) f in
      record {
        bounded = ground (arith, served.bounded);
        unwritten = λ i p. ground (arith, served.unwritten i);
      }

  -- After the first of two bytes is served, the second goes to index 0 or 1.
  second-IsFilled :
      (now byte : ℕ) (m : Psmouse P)
      → IsFilled m
      → IsFilled (store byte (handle_byte handler now (record m { pktcnt = 1 })).0)
  second-IsFilled now byte m f = omega (arith, handle_byte-counter now (record m { pktcnt = 1 }))

  announcement-IsSafe :
      (now byte : ℕ) (m : Psmouse P) → IsFilled m → IsSafe m (announcement h handler now byte m)
  unfolding announcement
  announcement-IsSafe now byte m f =
      let served = handle_byte-IsSafe now (record m { pktcnt = 1 }) (omega arith) in
      let counter = handle_byte-counter now (record m { pktcnt = 1 }) in
      let last =
        finish_byte-IsSafe now (store byte (handle_byte handler now (record m { pktcnt = 1 })).0)
          (second-IsFilled now byte m f) in
      record {
        bounded = ground (arith, served.bounded, last.bounded);
        unwritten = λ i p. ground (arith, served.unwritten i, last.unwritten i);
      }

  stored_byte-IsSafe :
      (now byte : ℕ) (m : Psmouse P) → IsFilled m → IsSafe m (stored_byte h handler now byte m)
  unfolding stored_byte
  stored_byte-IsSafe now byte m f =
      let first = announcement-IsSafe now byte m f in
      let last = finish_byte-IsSafe now m f in
      record {
        bounded = ground (arith, first.bounded, last.bounded);
        unwritten = λ i p. ground (arith, first.unwritten i, last.unwritten i);
      }

  receive_byte-IsSafe :
      (now byte : ℕ) (m : Psmouse P) → IsBounded m → IsSafe m (receive_byte h handler now byte m)
  unfolding receive_byte
  receive_byte-IsSafe now byte m b =
      let served = stored_byte-IsSafe now byte (store byte (emit m (wakeup ∷ []))) (omega arith) in
      record {
        bounded = ground (arith, served.bounded);
        unwritten = λ i p. ground (arith, served.unwritten i);
      }

  -- With a handler that keeps its promises, any run of bytes leaves the counter below the packet's
  -- size, and writes nothing past the eight bytes of `packet`.
  pub receive_bytes-IsSafe :
      (bs : List (ℕ × ℕ)) (m : Psmouse P) → IsBounded m → IsSafe m (receive_bytes h handler bs m)
  unfolding receive_bytes
  receive_bytes-IsSafe [] m b = record { bounded = b; unwritten = λ i p. refl }
  receive_bytes-IsSafe ((now, byte) ∷ bs) m b =
      let first = receive_byte-IsSafe now byte m b in
      let last = receive_bytes-IsSafe bs (receive_byte h handler now byte m) first.bounded in
      record { bounded = last.bounded; unwritten = λ i p. last.unwritten i p ∙ first.unwritten i p }
