-- ===== src/Psmouse/Resync/Rounds.antt =====
-- The rounds of the loop over the polled packet.
use debugging.Common.{ℕ, zero, suc, ◌+◌, ◌≤◌, ◌≡◌, false, refl, arith, ltb}
use debugging.Kernel.{u8}
use debugging.Psmouse.{Psmouse, Handler}
use debugging.Psmouse.Resync.{feed}

-- The loop has ended after as many rounds as the packet has bytes left: with so many rounds, and any
-- more, it gives the same mouse and the same code. (The handler keeps the size of the packet; a size
-- is a byte, so that 256 rounds are enough.)
pub feed-enough :
    {P : Type 0} (handler : Handler P) (few many i : ℕ) (m : Psmouse P)
    → ((u : Psmouse P) → (handler u).0.pktsize ≡ u.pktsize)
    → m.pktsize ≤ i + few
    → few ≤ many
    → feed handler few i m ≡ feed handler many i m
unfolding feed
feed-enough handler zero zero i m keeps enough le = refl
feed-enough handler zero (suc many) i m keeps enough le =
    let done : ltb i m.pktsize ≡ false = ground arith in rw done refl
feed-enough handler (suc few) zero i m keeps enough le = absurd (omega arith)
feed-enough handler (suc few) (suc many) i m keeps enough le =
    let counted = record m { pktcnt = u8 (m.pktcnt + 1) } in
    ground (
      arith,
      feed-enough handler few many (i + 1) (handler counted).0 keeps (omega (arith, keeps counted))
          (omega arith),
    )
