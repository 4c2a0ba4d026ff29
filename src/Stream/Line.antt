-- ===== src/Stream/Line.antt =====
-- ach_read_line of src/ach_stream.c.
pub mod Bounds
use ach.Base.{
  ℕ, suc, ◌+◌, Bool, true, false, not, Option, none, some, List, [], ◌∷◌, ◌++◌, length, ltb, ◌==◌,
  if◌then◌else◌, sub64, Exec, done, stop, blocked, out_of_bounds, ◌>>=◌, ◌>>◌, assert,
}
use ach.Name.{intr_retry}

-- a call of `read` for one byte: the byte, EINTR, or no byte for another reason
pub data ByteRead : Type 0 where
  got_byte : (c : ℕ) → ByteRead
  byte_interrupted no_byte : ByteRead

-- "get a byte": the byte, or `none` if the last call returned none
unfoldable pub get_byte : (tries : ℕ) → List ByteRead → Exec (Option ℕ)
get_byte tries [] = stop blocked
get_byte tries (got_byte c ∷ reads) = done (some c)
get_byte tries (byte_interrupted ∷ reads) =
    let rest = get_byte (tries + 1) reads in if ltb tries intr_retry then rest else done none
get_byte tries (no_byte ∷ reads) = done none

abbrev pub last_is : (c : ℕ) → List ℕ → Bool
last_is c [] = false
last_is c (b ∷ []) = b == c
last_is c (b ∷ (b' ∷ bs)) = last_is c (b' ∷ bs)

-- after the loop: `buf[i - 1]` is tested, which lies before the buffer if nothing was read
abbrev pub line_end : List ℕ → Exec (List ℕ)
line_end [] = stop out_of_bounds
line_end (b ∷ bs) = assert (not (last_is b'\n' (b ∷ bs))) >> done (b ∷ bs)

-- what follows a byte. Without one, the byte that stood in the buffer, `old`, is counted.
abbrev pub and_byte :
    (old : ℕ) → (text : List ℕ) → (next : List ℕ → Exec (List ℕ)) → Option ℕ → Exec (List ℕ)
and_byte old text next none = done (text ++ (old ∷ []))
and_byte old text next (some c) =
    if c == b'\n' then done (text ++ (c ∷ [])) else next (text ++ (c ∷ []))

-- `ach_read_line` with `text` in the buffer: the bytes before the 0 that it sets, whose number it
-- returns. There is a list of calls for each byte; where they end, it still waits.
unfoldable pub read_line :
    (old : ℕ → ℕ) → (n : ℕ) → (text : List ℕ) → List (List ByteRead) → Exec (List ℕ)
read_line old n text [] = if ltb (length text) (sub64 n 1) then stop blocked else line_end text
read_line old n text (reads ∷ more) =
    if ltb (length text) (sub64 n 1)
    then get_byte 0 reads >>= and_byte (old (length text)) text (λ t. read_line old n t more)
    else line_end text
