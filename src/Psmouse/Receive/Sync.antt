-- ===== src/Psmouse/Receive/Sync.antt =====
-- Losing synchronisation: when a reconnect is requested.
use debugging.Common.{
  ◌++◌, ℕ, zero, suc, ◌+◌, ◌^◌, ◌<◌, ◌≡◌, ◌≢◌, inl, List, [], ◌∷◌, refl, arith, leb, if◌then◌else◌,
  length, All,
}
use debugging.Kernel.{Headers, wakeup, reconnect}
use debugging.Kernel.Observe.{reconnects, reconnects-append}
use debugging.Psmouse.{emit, Psmouse, State, Handler, Ret, ret_bat}
use debugging.Psmouse.Receive.{handle_byte, store, receive_byte, receive_bytes}
use debugging.Psmouse.Receive.Step.{served, receive_byte-served}

-- A byte that the handler does not take as the first of a packet, whatever else the mouse holds.
abbrev pub RejectsFirst : {P : Type 0} → Handler P → ℕ → Type 0
RejectsFirst {P} handler byte =
    (m : Psmouse P) → m.pktcnt ≡ 1 → m.packet 0 ≡ byte → handler m ≡ (m, Ret.bad_data)

-- An activated mouse between two packets, with no idle limit, that `left` more bad packets reset.
pub record IsFailing {P : Type 0} (left : ℕ) (m : Psmouse P) : Type 0 where
  pub active : m.state ≡ State.activated
  pub between : m.pktcnt ≡ 0
  pub no_idle_limit : m.resync_time ≡ 0
  pub limit : m.resetafter ≡ m.out_of_sync_cnt + left
  pub word : m.resetafter < 2 ^ 32

module _ {P : Type 0} (h : Headers) (handler : Handler P) where
  handle_byte-reject :
      (now : ℕ) (m : Psmouse P) (left : ℕ)
      → m.state ≡ State.activated
      → m.resetafter ≡ m.out_of_sync_cnt + suc (suc left)
      → m.resetafter < 2 ^ 32
      → handler m ≡ (m, Ret.bad_data)
      → (handle_byte handler now m).0
        ≡ record m { out_of_sync_cnt = m.out_of_sync_cnt + 1; pktcnt = 0 }
  unfolding handle_byte
  handle_byte-reject now m left act e w rejected = rw rejected (ground arith)

  handle_byte-reject_last :
      (now : ℕ) (m : Psmouse P)
      → m.state ≡ State.activated
      → m.resetafter ≡ m.out_of_sync_cnt + 1
      → m.resetafter < 2 ^ 32
      → handler m ≡ (m, Ret.bad_data)
      → ((handle_byte handler now m).0.state ≡ State.ignore)
        × ((handle_byte handler now m).0.effects ≡ m.effects ++ reconnect ∷ [])
  unfolding handle_byte
  handle_byte-reject_last now m act e w rejected = rw rejected (ground arith)

  -- The state in which the handler is called for a byte that begins a packet.
  abbrev begun : ℕ → ℕ → Psmouse P → Psmouse P
  begun now byte m = record (store byte (emit m (wakeup ∷ []))) { last = now }

  -- Its first byte is the one that came.
  begun-rejected :
      (now byte : ℕ) (m : Psmouse P)
      → m.pktcnt ≡ 0
      → RejectsFirst handler byte
      → handler (begun now byte m) ≡ (begun now byte m, Ret.bad_data)
  begun-rejected now byte m between rejects =
      rejects (begun now byte m) (ground arith) (ground arith)

  receive_byte-begun :
      (now byte left : ℕ) (m : Psmouse P)
      → byte ≢ ret_bat
      → IsFailing left m
      → receive_byte h handler now byte m ≡ served handler now byte m
  receive_byte-begun now byte left m ne f =
      receive_byte-served h handler now byte m f.active f.no_idle_limit (inl f.between)
        (ground arith)

  reconnects-wakeup : (m : Psmouse P) → reconnects (m.effects ++ wakeup ∷ []) ≡ reconnects m.effects
  reconnects-wakeup m = omega (arith, reconnects-append m.effects (wakeup ∷ []))

  -- One bad byte, with more than one left before the limit.
  receive_byte-reject :
      (now byte left : ℕ) (m : Psmouse P)
      → byte ≢ ret_bat
      → RejectsFirst handler byte
      → IsFailing (suc (suc left)) m
      → IsFailing (suc left) (receive_byte h handler now byte m)
        × (reconnects (receive_byte h handler now byte m).effects ≡ reconnects m.effects)
  receive_byte-reject now byte left m ne rejects f =
      rw
        (
          receive_byte-begun now byte (suc (suc left)) m ne f,
          handle_byte-reject now (begun now byte m) left f.active f.limit f.word
              (begun-rejected now byte m f.between rejects),
        )
        (
          record {
            active = f.active;
            between = refl;
            no_idle_limit = f.no_idle_limit;
            limit = omega (arith, f.limit);
            word = f.word;
          },
          reconnects-wakeup m,
        )

  -- The last bad byte of the streak.
  receive_byte-reject_last :
      (now byte : ℕ) (m : Psmouse P)
      → byte ≢ ret_bat
      → RejectsFirst handler byte
      → IsFailing 1 m
      → ((receive_byte h handler now byte m).state ≡ State.ignore)
        × (reconnects (receive_byte h handler now byte m).effects ≡ reconnects m.effects + 1)
  receive_byte-reject_last now byte m ne rejects f =
      let last =
        handle_byte-reject_last now (begun now byte m) f.active f.limit f.word
          (begun-rejected now byte m f.between rejects) in
      rw (receive_byte-begun now byte 1 m ne f, last.1)
        (
          last.0,
          omega (
            arith,
            reconnects-append (m.effects ++ wakeup ∷ []) (reconnect ∷ []),
            reconnects-wakeup m,
          ),
        )

  receive_byte-ignore :
      (now byte : ℕ) (m : Psmouse P)
      → m.state ≡ State.ignore
      → receive_byte h handler now byte m ≡ emit m (wakeup ∷ [])
  unfolding receive_byte
  receive_byte-ignore now byte m e = ground arith

  -- An ignored mouse takes no byte.
  receive_bytes-ignore :
      (bs : List (ℕ × ℕ)) (m : Psmouse P)
      → m.state ≡ State.ignore
      → ((receive_bytes h handler bs m).state ≡ State.ignore)
        × (reconnects (receive_bytes h handler bs m).effects ≡ reconnects m.effects)
  unfolding receive_bytes
  receive_bytes-ignore [] m e = (e, refl)
  receive_bytes-ignore ((now, byte) ∷ bs) m e =
      let (still, quiet) = receive_bytes-ignore bs (emit m (wakeup ∷ [])) e in
      ground (arith, receive_byte-ignore now byte m e, reconnects-wakeup m)

  -- A stream of bytes none of which the handler takes as the first of a packet: an activated mouse
  -- between two packets that `left + 1` more bad bytes reset requests one reconnect exactly if at
  -- least so many bytes come, and is ignored from then on; with fewer it stays activated. (No byte
  -- looks like an announcement, and there is no idle limit.)
  pub receive_bytes-reject :
      (bs : List (ℕ × ℕ)) (left : ℕ) (m : Psmouse P)
      → All (λ b. (b.1 ≢ ret_bat) × RejectsFirst handler b.1) bs
      → IsFailing (suc left) m
      → let m' = receive_bytes h handler bs m in
        let lost = leb (suc left) (length bs) in
        (m'.state ≡ (if lost then State.ignore else State.activated))
        × (reconnects m'.effects ≡ reconnects m.effects + (if lost then 1 else 0))
  unfolding receive_bytes
  receive_bytes-reject [] left m bad f = ground arith
  receive_bytes-reject ((now, byte) ∷ bs) zero m ((ne, rejects), bad) f =
      let (gone, asked) = receive_byte-reject_last now byte m ne rejects f in
      let (still, quiet) = receive_bytes-ignore bs (receive_byte h handler now byte m) gone in
      ground arith
  receive_bytes-reject ((now, byte) ∷ bs) (suc left) m ((ne, rejects), bad) f =
      let (fails, quiet) = receive_byte-reject now byte left m ne rejects f in
      let (last, asked) =
        receive_bytes-reject bs left (receive_byte h handler now byte m) bad fails in
      ground arith
