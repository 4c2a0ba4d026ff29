-- ===== src/Pipe.antt =====
-- The frames of src/pipe.c, in which messages go over pipes and sockets: the magic number, the size
-- in eight bytes, the lowest first, and the data.
pub mod Size
use ach.Base.{ℕ, zero, suc, ◌+◌, ◌*◌, ◌/◌, ◌%◌, ◌^◌, List, [], ◌∷◌, ltb, if◌then◌else◌, bit_or}

-- `ach_pipe_frame_t`
pub record Frame : Type 0 where
  pub magic : List ℕ
  pub size_bytes : List ℕ
  pub bytes : List ℕ

-- the loop of `ach_pipe_set_size`, with `left` rounds to go
unfoldable pub set_bytes : (left i size : ℕ) → List ℕ
set_bytes zero i size = []
set_bytes (suc left) i size = size / 2 ^ (8 * i) % 256 ∷ set_bytes left (i + 1) size

unfoldable pub set_size : Frame → (size : ℕ) → Frame
set_size f size = record f { size_bytes = set_bytes 8 0 size }

-- `(unsigned)byte << (8 * i)`. From 32 on, C leaves it open what a shift of a 32-bit number is: `shl`.
unfoldable pub shift_byte : (shl : ℕ → ℕ → ℕ) → (byte i : ℕ) → ℕ
shift_byte shl byte i = if ltb (8 * i) 32 then byte * 2 ^ (8 * i) % 2 ^ 32 else shl byte (8 * i)

-- the loop of `ach_pipe_get_size`
unfoldable pub get_bytes : (shl : ℕ → ℕ → ℕ) → List ℕ → (i size : ℕ) → ℕ
get_bytes shl [] i size = size
get_bytes shl (b ∷ bs) i size = get_bytes shl bs (i + 1) (bit_or size (shift_byte shl b i))

unfoldable pub get_size : (shl : ℕ → ℕ → ℕ) → Frame → ℕ
get_size shl f = get_bytes shl f.size_bytes 0 0

-- "achpipe", with the 0 at its end
abbrev pub pipe_magic : List ℕ
pipe_magic = b'a' ∷ b'c' ∷ b'h' ∷ b'p' ∷ b'i' ∷ b'p' ∷ b'e' ∷ 0 ∷ []

-- `ach_pipe_alloc`; `memory` is what `malloc` gives for the data bytes, and for the size before it
-- is set.
unfoldable pub pipe_alloc : (memory : List ℕ) → (size : ℕ) → Frame
pipe_alloc memory size =
    set_size (record { magic = pipe_magic; size_bytes = []; bytes = memory }) size
