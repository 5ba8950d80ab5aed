-- ===== src/Kernel.antt =====
-- What the drivers of trackpoint-lost/ use of the kernel outside this repository: the headers, libps2
-- and the input layer. These are parameters of the model; what their documentation promises is
-- stated as records of laws, `IsLinux` here and the device laws beside their drivers.
mod Api
pub mod Observe
pub use Api.*
use debugging.Common.{ℕ, ◌+◌, ◌*◌, ◌%◌, ◌^◌, ◌<◌, bit_or, Bool, List, get_or, ◌==◌, if◌then◌else◌}
use debugging.Common.Int.{ℤ}

-- `u8`, `u32` and the 64-bit `unsigned long`.
abbrev pub u8 : ℕ → ℕ
u8 n = n % 256

-- Numbers of <errno.h>; a function that returns -n has the code n, and 0 is success.
abbrev pub eio : ℕ
eio = 5

abbrev pub enomem : ℕ
enomem = 12

abbrev pub enodev : ℕ
enodev = 19

abbrev pub einval : ℕ
einval = 22

-- An array of bytes, by index.
abbrev pub Bytes : Type 0
Bytes = ℕ → ℕ

abbrev pub bytes : List ℕ → Bytes
bytes xs i = get_or xs i 0

abbrev pub update : Bytes → ℕ → ℕ → Bytes
update a i v j = if j == i then v else a j

-- What `ps2_command` leaves: the device, the code, and the array `param`.
pub record Reply (D : Type 0) : Type 0 where
  pub device : D
  pub code : ℕ
  pub param : Bytes

-- libps2, over the device (and all that stands between) as a state. The command word holds the
-- number of bytes sent in bits 12 to 15 and of bytes received in bits 8 to 11. `uninit` is what an
-- array on the stack holds before it is written; it stands for a NULL too.
pub record Ps2 (D : Type 0) : Type 0 where
  pub command : D → ℕ → Bytes → Reply D
  pub sendbyte : D → ℕ → ℕ → D × ℕ
  pub uninit : Bytes

-- The events of the input layer.
pub data Button : Type 0 where
  left right middle side extra task forward back touch tool_finger tool_doubletap : Button
  tool_tripletap tool_quadtap tool_quinttap : Button

pub data Axis : Type 0 where
  x y wheel hwheel mt_position_x mt_position_y tool_width pressure : Axis

pub data Input : Type 0 where
  key : Button → Bool → Input
  rel : Axis → ℤ → Input
  abs : Axis → ℤ → Input
  mt_slot : ℕ → Input
  mt_slot_state : Bool → Input
  mt_pointer_emulation : Input
  sync : Input

-- What a driver does to the rest of the kernel, in order. A driver with a second input device, for
-- relative motion beside absolute positions, has `second_input` for its events.
pub data Effect : Type 0 where
  input : Input → Effect
  second_input : Input → Effect
  wakeup : Effect
  reconnect : Effect
  queue_resync : Effect
