-- ===== src/Stream/Message.antt =====
-- Messages over a stream, as src/ach_stream.c frames them: "size", the size in four bytes, the highest
-- first, "data", and the data.
pub mod Trip
use ach.Base.{
  ℕ, ◌+◌, ◌*◌, ◌/◌, ◌%◌, ◌^◌, Bool, true, false, ◌&&◌, Option, none, some, List, [], ◌∷◌, ◌++◌,
  length, take, drop, ltb, leb, ◌==◌, if◌then◌else◌, Exec, done, stop, blocked, ◌>>=◌, ◌>>◌, assert,
}
use ach.Stream.{Read, FillEnd, full, ended, broken, Filled, read_fill}

-- What one call of `write` returns: a number of bytes, at most as many as given to it, 0 or -1. The
-- number 0 is 0 too.
pub data Write : Type 0 where
  wrote : (n : ℕ) → Write
  write_ended write_error : Write

-- `ach_stream_write_fill`: `left` is to be written, and `out` has been.
unfoldable pub write_fill : (left out : List ℕ) → List Write → Exec Filled
write_fill left out [] = stop blocked
write_fill left out (wrote n ∷ ws) =
    let rest = write_fill (drop n left) (out ++ take n left) ws in
    if n == 0
    then done (record { end = ended; bytes = out })
    else if ltb n (length left)
    then rest
    else done (record { end = full; bytes = out ++ take n left })
write_fill left out (write_ended ∷ ws) = done (record { end = ended; bytes = out })
write_fill left out (write_error ∷ ws) = done (record { end = broken; bytes = out })

-- whether a loop that is through returns a positive number, which is `(int)cnt`
abbrev pub is_positive : FillEnd → (cnt : ℕ) → Bool
is_positive full cnt = ltb 0 (cnt % 2 ^ 32) && ltb (cnt % 2 ^ 32) (2 ^ 31)
is_positive _ cnt = false

-- `htonl` and `ntohl`, with the bytes in memory
abbrev pub size_bytes : ℕ → List ℕ
size_bytes n = n / 2 ^ 24 % 256 ∷ n / 2 ^ 16 % 256 ∷ n / 2 ^ 8 % 256 ∷ n % 256 ∷ []

abbrev pub bytes_size : List ℕ → ℕ
bytes_size (a ∷ b ∷ c ∷ d ∷ rest) = ((a * 256 + b) * 256 + c) * 256 + d
bytes_size _ = 0

-- ach_stream_presize and ach_stream_postsize, the four bytes that are used
abbrev pub presize : List ℕ
presize = b's' ∷ b'i' ∷ b'z' ∷ b'e' ∷ []

abbrev pub postsize : List ℕ
postsize = b'd' ∷ b'a' ∷ b't' ∷ b'a' ∷ []

-- `sizebuf`
abbrev pub size_field : (cnt : ℕ) → List ℕ
size_field cnt = presize ++ (size_bytes (cnt % 2 ^ 32) ++ postsize)

-- what `ach_stream_write_msg` returns: the result of the field that could not be sent, or the
-- result of the data and 12 more; with the bytes that are out
pub data MsgEnd : Type 0 where
  no_size : FillEnd → MsgEnd
  and_twelve : FillEnd → MsgEnd

pub record SentMsg : Type 0 where
  pub end : MsgEnd
  pub out : List ℕ

-- `ach_stream_write_msg`, with what the calls of `write` return for the field and for the data
unfoldable pub write_msg : (buf : List ℕ) → (field_writes data_writes : List Write) → Exec SentMsg
write_msg buf field_writes data_writes =
    write_fill (size_field (length buf)) [] field_writes >>= (λ f.
      if is_positive f.end 12
      then write_fill buf f.bytes data_writes
        >>= (λ d. done (record { end = and_twelve d.end; out = d.bytes }))
      else done (record { end = no_size f.end; out = f.bytes }))

abbrev pub same_bytes : List ℕ → List ℕ → Bool
same_bytes [] [] = true
same_bytes (a ∷ as_) (b ∷ bs) = (a == b) && same_bytes as_ bs
same_bytes _ _ = false

-- `ach_stream_read_msg_size`: the result, and `*cnt`, `none` for -1
unfoldable pub read_msg_size : List Read → Exec (FillEnd × Option ℕ)
read_msg_size reads = read_fill 12 [] reads >>= (λ f.
    if is_positive f.end 12
    then (if same_bytes presize (take 4 f.bytes) && same_bytes postsize (take 4 (drop 8 f.bytes))
        then done (f.end, some (bytes_size (take 4 (drop 4 f.bytes))))
        else done (f.end, none))
    else done (f.end, none))

-- what `ach_stream_read_msg_data` returns: `msg_size`, or a result of the loop that is not positive
pub data DataEnd : Type 0 where
  msg_size : DataEnd
  not_positive : FillEnd → DataEnd

pub record ReadData : Type 0 where
  pub end : DataEnd
  pub bytes : List ℕ

-- `ach_stream_read_msg_data`: the loop returns `(int)msg_size`, which need not be positive, and which
-- the second assert compares with `msg_size`.
unfoldable pub read_msg_data : (size buf_size : ℕ) → List Read → Exec ReadData
read_msg_data size buf_size reads =
    assert (leb size buf_size)
    >> (read_fill size [] reads >>= (λ f.
        if is_positive f.end size
        then assert (size == size % 2 ^ 32) >> done (record { end = msg_size; bytes = f.bytes })
        else done (record { end = not_positive f.end; bytes = f.bytes })))
