-- ===== src/Sermouse/Stream.antt =====
-- The prediction of `sermouse_process_msc` against the movement of the mouse.
use debugging.Common.{
  ℕ, ◌+◌, ◌/◌, ◌≡◌, ◌∙◌, List, [], ◌∷◌, ◌++◌, refl, ap, arith, if◌then◌else◌, Bool, true, false,
  not, All, append_assoc, append-nil, sym,
}
use debugging.Common.Int.{ℤ, pos, negsuc, neg, half, ◌+ℤ◌, pos_part, neg_part, sub_ℕ}
use debugging.Common.Bits.{bit}
use debugging.Kernel.{Input, Axis, Button}
use debugging.Sermouse.{Sermouse, process_msc, msc_report, msc_buf, signed_char}

-- A packet of a Mouse Systems mouse: the byte of the buttons and two movements.
pub record Packet : Type 0 where
  pub buttons : ℕ
  pub x₁ : ℕ
  pub y₁ : ℕ
  pub x₂ : ℕ
  pub y₂ : ℕ

abbrev pub packet_bytes : List Packet → List ℕ
packet_bytes [] = []
packet_bytes (p ∷ ps) = p.buttons ∷ p.x₁ ∷ p.y₁ ∷ p.x₂ ∷ p.y₂ ∷ packet_bytes ps

abbrev pub processed : List ℕ → Sermouse → Sermouse
processed [] s = s
processed (b ∷ bs) s = processed bs (process_msc b s)

-- Whether a report moves along an axis, and the sums of the reports along it, up and down.
abbrev same_axis : Axis → Axis → Bool
same_axis Axis.x Axis.x = true
same_axis Axis.y Axis.y = true
same_axis _ _ = false

abbrev moved_by : Axis → Input → ℤ
moved_by a (Input.rel b v) = if same_axis a b then v else pos 0
moved_by a _ = pos 0

abbrev gains : Axis → List Input → ℕ
gains a [] = 0
gains a (e ∷ es) = pos_part (moved_by a e) + gains a es

abbrev losses : Axis → List Input → ℕ
losses a [] = 0
losses a (e ∷ es) = neg_part (moved_by a e) + losses a es

-- Where the reports leave the pointer along an axis.
abbrev pub total : Axis → List Input → ℤ
total a es = sub_ℕ (gains a es) (losses a es)

-- The movement that the packets mean.
abbrev pub sum_x : List Packet → ℤ
sum_x [] = pos 0
sum_x (p ∷ ps) = signed_char p.x₁ +ℤ signed_char p.x₂ +ℤ sum_x ps

abbrev pub sum_y : List Packet → ℤ
sum_y [] = pos 0
sum_y (p ∷ ps) = signed_char p.y₁ +ℤ signed_char p.y₂ +ℤ sum_y ps

gains-append : (a : Axis) (l m : List Input) → gains a (l ++ m) ≡ gains a l + gains a m
gains-append a [] m = omega arith
gains-append a (e ∷ l) m = let rest = gains-append a l m in omega arith

losses-append : (a : Axis) (l m : List Input) → losses a (l ++ m) ≡ losses a l + losses a m
losses-append a [] m = omega arith
losses-append a (e ∷ l) m = let rest = losses-append a l m in omega arith

-- A difference of two numbers is what they are apart.
sub_ℕ-balance : (a b : ℕ) → pos_part (sub_ℕ a b) + b ≡ neg_part (sub_ℕ a b) + a
sub_ℕ-balance a b = ground arith

sub_ℕ-same : (a b c d : ℕ) → a + d ≡ c + b → sub_ℕ a b ≡ sub_ℕ c d
sub_ℕ-same a b c d e = ground arith

half-rest :
    (v : ℤ)
    → (pos_part (half v) + pos_part (v +ℤ neg (half v)) ≡ pos_part v)
      × (neg_part (half v) + neg_part (v +ℤ neg (half v)) ≡ neg_part v)
half-rest (pos n) = ground arith
half-rest (negsuc n) = ground arith

-- The events of a packet, from what the buffer holds of the packet before.
abbrev packet_events : ℤ → Packet → List Input
packet_events held p =
    let a = signed_char p.x₁ in
    let b = signed_char p.y₁ in
    let c = signed_char p.x₂ in
    let d = signed_char p.y₂ in
    Input.key Button.left (not (bit p.buttons 2))
    ∷ Input.key Button.right (not (bit p.buttons 0))
    ∷ Input.key Button.middle (not (bit p.buttons 1))
    ∷ Input.sync
    ∷ Input.rel Axis.x (half a)
    ∷ Input.rel Axis.y (neg held)
    ∷ Input.sync
    ∷ Input.rel Axis.x (a +ℤ neg (half a))
    ∷ Input.rel Axis.y (held +ℤ neg b)
    ∷ Input.sync
    ∷ Input.rel Axis.x (half c)
    ∷ Input.rel Axis.y (neg (half b))
    ∷ Input.sync
    ∷ Input.rel Axis.x (c +ℤ neg (half c))
    ∷ Input.rel Axis.y (half b +ℤ neg d)
    ∷ Input.sync
    ∷ []

processed-packet :
    (p : Packet) (s : Sermouse)
    → s.count ≡ 0
    → p.buttons / 8 ≡ 16
    → let s' = processed (packet_bytes (p ∷ [])) s in
      (s'.count ≡ 0) × (s'.events ≡ s.events ++ packet_events (s.buf 1) p)
unfolding process_msc msc_report msc_buf
processed-packet p s e h = rw (e, h) (refl, simp append_assoc refl)

add-balance :
    (v w : ℤ)
    → pos_part (v +ℤ w) + neg_part v + neg_part w ≡ neg_part (v +ℤ w) + pos_part v + pos_part w
add-balance v w = ground arith

neg-parts : (v : ℤ) → (pos_part (neg v) ≡ neg_part v) × (neg_part (neg v) ≡ pos_part v)
neg-parts (pos n) = ground arith
neg-parts (negsuc n) = ground arith

-- The reports of `es` move by `v` along an axis.
abbrev Moves : Axis → List Input → ℤ → Type 0
Moves a es v = gains a es + neg_part v ≡ losses a es + pos_part v

packet_events-x :
    (held : ℤ) (p : Packet)
    → Moves Axis.x (packet_events held p) (signed_char p.x₁ +ℤ signed_char p.x₂)
packet_events-x held p =
    let a = signed_char p.x₁ in
    let c = signed_char p.x₂ in
    let (gain₁, loss₁) = half-rest a in
    let (gain₂, loss₂) = half-rest c in let sum = add-balance a c in omega arith

packet_events-y :
    (held : ℤ) (p : Packet)
    → Moves Axis.y (packet_events held p) (neg (signed_char p.y₁ +ℤ signed_char p.y₂))
packet_events-y held p =
    let b = signed_char p.y₁ in
    let d = signed_char p.y₂ in
    let first = neg-parts held in
    let second = add-balance held (neg b) in
    let third = neg-parts (half b) in
    let fourth = add-balance (half b) (neg d) in
    omega (arith, neg-parts b, neg-parts d, neg-parts (b +ℤ d), add-balance b d)

Moves-append :
    (a : Axis) (l m : List Input) (v w : ℤ) → Moves a l v → Moves a m w → Moves a (l ++ m) (v +ℤ w)
Moves-append a l m v w h k =
    omega (arith, gains-append a l m, losses-append a l m, add-balance v w, h, k)

Moves-neg_append :
    (a : Axis) (l m : List Input) (v w : ℤ)
    → Moves a l (neg v)
    → Moves a m (neg w)
    → Moves a (l ++ m) (neg (v +ℤ w))
Moves-neg_append a l m v w h k = omega (
  arith,
  gains-append a l m,
  losses-append a l m,
  add-balance v w,
  neg-parts v,
  neg-parts w,
  neg-parts (v +ℤ w),
  h,
  k,
)

processed-Moves :
    (ps : List Packet) (s : Sermouse)
    → s.count ≡ 0
    → All (λ (p : Packet). p.buttons / 8 ≡ 16) ps
    → let s' = processed (packet_bytes ps) s in
      (s'.count ≡ 0)
      × ((es : List Input) × (s'.events ≡ s.events ++ es)
          × Moves Axis.x es (sum_x ps)
          × Moves Axis.y es (neg (sum_y ps)))
processed-Moves [] s e h = (e, ([], sym (append-nil s.events), refl, refl))
processed-Moves (p ∷ ps) s e h =
    let (e', told) = processed-packet p s e h.0 in
    let first = packet_events (s.buf 1) p in
    let (e'', (es, later, along, up)) =
      processed-Moves ps (processed (packet_bytes (p ∷ [])) s) e' h.1 in
    (
      e'',
      (
        first ++ es,
        later ∙ ap (λ l. l ++ es) told ∙ append_assoc s.events first es,
        Moves-append Axis.x first es _ (sum_x ps) (packet_events-x (s.buf 1) p) along,
        Moves-neg_append Axis.y first es _ (sum_y ps) (packet_events-y (s.buf 1) p) up,
      ),
    )

Moves-total :
    (a : Axis) (l es : List Input) (v : ℤ) → Moves a es v → total a (l ++ es) ≡ total a l +ℤ v
Moves-total a l es v h =
    let before = sub_ℕ-balance (gains a l) (losses a l) in
    sub_ℕ-same (gains a (l ++ es)) (losses a (l ++ es)) (pos_part (total a l) + pos_part v)
      (neg_part (total a l) + neg_part v)
      (omega (arith, gains-append a l es, losses-append a l es, before, h))

-- The prediction loses and adds nothing: from between two packets, over the bytes of any packets whose
-- first byte is one of buttons, with every other byte arbitrary, the mouse is between two packets
-- again, and the reports move the pointer by the sum of the movements in the packets, with the y axis
-- turned over, whatever the mouse had half reported before.
pub processed-total :
    (ps : List Packet) (s : Sermouse)
    → s.count ≡ 0
    → All (λ (p : Packet). p.buttons / 8 ≡ 16) ps
    → let s' = processed (packet_bytes ps) s in
      (s'.count ≡ 0)
      × (total Axis.x s'.events ≡ total Axis.x s.events +ℤ sum_x ps)
      × (total Axis.y s'.events ≡ total Axis.y s.events +ℤ neg (sum_y ps))
processed-total ps s e h =
    let (e', (es, told, along, up)) = processed-Moves ps s e h in
    (
      e',
      ap (total Axis.x) told ∙ Moves-total Axis.x s.events es (sum_x ps) along,
      ap (total Axis.y) told ∙ Moves-total Axis.y s.events es (neg (sum_y ps)) up,
    )
