-- ===== src/Achd/Io.antt =====
-- The input and output of src/achd/io.c. What the calls of `read` and `write` do is an argument:
-- a list, one entry for each call, with whether a signal has come (`cx.sig_received`) by its return.
pub mod Whole
pub mod Text
use ach.Base.{
  ℕ, ◌+◌, Bool, true, false, ◌||◌, ◌&&◌, not, Option, none, some, List, [], ◌∷◌, ◌++◌, length, take,
  drop, ltb, ◌==◌, if◌then◌else◌, Exec, done, stop, blocked, spins, ◌>>=◌,
}
use ach.Shm.{Status, ok, overflow, failed_syscall, bug}

-- A call of `read`: at least one byte, EINTR, or no bytes for another reason.
pub data ReadCall : Type 0 where
  got : (bytes : List ℕ) → (sig : Bool) → ReadCall
  got_interrupted : (sig : Bool) → ReadCall
  got_none : (sig : Bool) → ReadCall

-- the condition of the loops, negated
abbrev pub is_over : (n cnt : ℕ) → (sig : Bool) → Bool
is_over n cnt sig = sig || not (ltb n cnt)

-- `achd_read` with `bytes` in the buffer: what it returns is the length of the bytes. The Boolean
-- is `cx.sig_received`; where the list ends, the call still waits.
unfoldable pub achd_read :
    (cnt : ℕ) → (bytes : List ℕ) → (sig : Bool) → List ReadCall → Exec (List ℕ × Bool)
achd_read cnt bytes sig [] =
    if is_over (length bytes) cnt sig then done (bytes, sig) else stop blocked
achd_read cnt bytes sig (got bs s ∷ calls) =
    let rest = achd_read cnt (bytes ++ bs) s calls in
    if is_over (length bytes) cnt sig then done (bytes, sig) else rest
achd_read cnt bytes sig (got_interrupted s ∷ calls) =
    let rest = achd_read cnt bytes s calls in
    if is_over (length bytes) cnt sig
    then done (bytes, sig)
    else if s
    then done (bytes, s)
    else rest
achd_read cnt bytes sig (got_none s ∷ calls) =
    if is_over (length bytes) cnt sig then done (bytes, sig) else done (bytes, s)

-- A call of `write`: how many bytes are taken, at least one, or none, and then whether it returns 0 and whether
-- `errno` is EINTR.
pub data WriteCall : Type 0 where
  wrote : (n : ℕ) → (sig : Bool) → WriteCall
  wrote_none : (zero intr sig : Bool) → WriteCall

-- what `achd_write` returns: `cnt`, 0 or -1
pub data WriteEnd : Type 0 where
  wrote_all returned_zero returned_error : WriteEnd

-- with the bytes that have gone out, and `cx.sig_received`
pub record Written : Type 0 where
  pub end : WriteEnd
  pub out : List ℕ
  pub sig : Bool

-- what follows the loop of `achd_write`: `while( n < cnt);`, and the return
abbrev pub written : (left out : List ℕ) → (sig : Bool) → Exec Written
written [] out sig = done (record { end = wrote_all; out = out; sig = sig })
written (b ∷ left) out sig = stop spins

-- `achd_write` with `left` bytes to write and `out` written
unfoldable pub achd_write : (left out : List ℕ) → (sig : Bool) → List WriteCall → Exec Written
achd_write left out sig [] =
    if is_over 0 (length left) sig then written left out sig else stop blocked
achd_write left out sig (wrote n s ∷ calls) =
    let rest = achd_write (drop n left) (out ++ take n left) s calls in
    if is_over 0 (length left) sig then written left out sig else rest
achd_write left out sig (wrote_none zero intr s ∷ calls) =
    let rest = achd_write left out s calls in
    if is_over 0 (length left) sig
    then written left out sig
    else if intr && not s
    then rest
    else done (record { end = if zero then returned_zero else returned_error; out = out; sig = s })

-- the result of `achd_getc`, `none` for EOF; with a `char` that is signed, the byte 255 is EOF too
abbrev pub char_of : (signed : Bool) → List ℕ → Option ℕ
char_of signed (c ∷ []) = if signed && (c == 255) then none else some c
char_of signed _ = none

unfoldable pub achd_getc : (signed sig : Bool) → List ReadCall → Exec (Option ℕ × Bool)
achd_getc signed sig calls = do r ← achd_read 1 [] sig calls; done (char_of signed r.0, r.1)

-- the result of `achd_readline`, the text in the buffer, and `cx.sig_received`
pub record Line : Type 0 where
  pub status : Status
  pub text : List ℕ
  pub sig : Bool

abbrev pub and_line : Exec (Option ℕ × Bool) → (ℕ → Bool → Exec Line) → (text : List ℕ) → Exec Line
and_line (stop e) next text = stop e
and_line (done (none, s)) next text =
    done (record { status = failed_syscall; text = text; sig = s })
and_line (done (some c, s)) next text = next c s

-- `achd_readline` with `text` in the buffer. There is a list of calls for each character; where
-- the lists end, it still waits.
unfoldable pub achd_readline :
    (signed : Bool) → (cnt : ℕ) → (text : List ℕ) → (sig : Bool) → List (List ReadCall) → Exec Line
achd_readline signed cnt text sig [] =
    if ltb (length text) cnt
    then stop blocked
    else done (record { status = overflow; text = text; sig = sig })
achd_readline signed cnt text sig (calls ∷ more) =
    if ltb (length text) cnt
    then and_line (achd_getc signed sig calls)
        (λ c s.
          if c == b'\n'
          then done (record { status = ok; text = text; sig = s })
          else if c == b'\r'
          then achd_readline signed cnt text s more
          else achd_readline signed cnt (text ++ (c ∷ [])) s more)
        text
    else done (record { status = overflow; text = text; sig = sig })

-- ACHD_LINE_LENGTH
abbrev pub line_length : ℕ
line_length = 1024

-- the end of `achd_printf`, after its text is formatted
abbrev pub print_end : WriteEnd → Status
print_end wrote_all = ok
print_end _ = failed_syscall

-- the result, what has gone out, and `cx.sig_received`
pub record Printed : Type 0 where
  pub status : Status
  pub out : List ℕ
  pub sig : Bool

-- `achd_printf` with what `vsnprintf` makes of its arguments, `none` if it fails
unfoldable pub achd_printf : (text : Option (List ℕ)) → (sig : Bool) → List WriteCall → Exec Printed
achd_printf none sig calls = done (record { status = bug; out = []; sig = sig })
achd_printf (some text) sig calls =
    if not (ltb (length text) line_length) && sig
    then done (record { status = failed_syscall; out = []; sig = sig })
    else do
      w ← achd_write text [] sig calls
      done (record { status = print_end w.end; out = w.out; sig = w.sig })
