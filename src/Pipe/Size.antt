-- ===== src/Pipe/Size.antt =====
-- The size of a frame is read as it was written, if it is below 2^32.
use ach.Base.{ℕ, ◌*◌, ◌/◌, ◌%◌, ◌^◌, ◌≤◌, ◌<◌, ◌≡◌, ap, ◌∙◌, bit_or, bit_or-add, arith, le→ltb}
use ach.Pipe.{Frame, set_size, set_bytes, shift_byte, get_bytes, get_size}

module _ (shl : ℕ → ℕ → ℕ) (size : ℕ) where
  byte_0 : bit_or 0 (shift_byte shl (size / 1 % 256) 0) ≡ size % 2 ^ 8
  unfolding shift_byte
  byte_0 = ap (bit_or 0) (omega arith) ∙ bit_or-add 0 0 (size % 256) (omega arith) ∙ omega arith

  byte_1 : bit_or (size % 2 ^ 8) (shift_byte shl (size / 2 ^ 8 % 256) 1) ≡ size % 2 ^ 16
  unfolding shift_byte
  byte_1 =
      ap (bit_or (size % 2 ^ 8)) (omega arith)
      ∙ bit_or-add 8 (size % 2 ^ 8) (size / 2 ^ 8 % 256) (omega arith)
      ∙ omega arith

  byte_2 : bit_or (size % 2 ^ 16) (shift_byte shl (size / 2 ^ 16 % 256) 2) ≡ size % 2 ^ 24
  unfolding shift_byte
  byte_2 =
      ap (bit_or (size % 2 ^ 16)) (omega arith)
      ∙ bit_or-add 16 (size % 2 ^ 16) (size / 2 ^ 16 % 256) (omega arith)
      ∙ omega arith

  byte_3 : bit_or (size % 2 ^ 24) (shift_byte shl (size / 2 ^ 24 % 256) 3) ≡ size % 2 ^ 32
  unfolding shift_byte
  byte_3 =
      ap (bit_or (size % 2 ^ 24)) (omega arith)
      ∙ bit_or-add 24 (size % 2 ^ 24) (size / 2 ^ 24 % 256) (omega arith)
      ∙ omega arith

  -- a high byte, which is 0
  byte_high :
      (zeros : (n : ℕ) → shl 0 n ≡ 0) (x i b : ℕ)
      → 4 ≤ i
      → b ≡ 0
      → x < 2 ^ 32
      → bit_or x (shift_byte shl b i) ≡ x
  unfolding shift_byte
  byte_high zeros x i b h z small =
      ap (bit_or x) (rw (le→ltb (8 * i) 32 (omega arith), z) (zeros (8 * i)))
      ∙ bit_or-add 32 x 0 small
      ∙ omega arith

-- If shifting 0 gives 0 also where C leaves the shift open, a size below 2^32 that
-- ach_pipe_set_size has stored is what ach_pipe_get_size reads.
pub get_size-set_size :
    (shl : ℕ → ℕ → ℕ) (f : Frame) (size : ℕ)
    → ((n : ℕ) → shl 0 n ≡ 0)
    → size < 2 ^ 32
    → get_size shl (set_size f size) ≡ size
unfolding get_size set_size set_bytes get_bytes
get_size-set_size shl f size zeros small =
    rw
      (
        byte_0 shl size,
        byte_1 shl size,
        byte_2 shl size,
        byte_3 shl size,
        byte_high shl size zeros (size % 2 ^ 32) 4 (size / 2 ^ 32 % 256) (omega arith) (omega arith)
            (omega arith),
        byte_high shl size zeros (size % 2 ^ 32) 5 (size / 2 ^ 40 % 256) (omega arith) (omega arith)
            (omega arith),
        byte_high shl size zeros (size % 2 ^ 32) 6 (size / 2 ^ 48 % 256) (omega arith) (omega arith)
            (omega arith),
        byte_high shl size zeros (size % 2 ^ 32) 7 (size / 2 ^ 56 % 256) (omega arith) (omega arith)
            (omega arith),
      )
      (omega arith)
