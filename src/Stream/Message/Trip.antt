-- ===== src/Stream/Message/Trip.antt =====
-- A message that src/ach_stream.c writes is the message that it reads.
use mathlib.Core.Path.{subst}
use mathlib.Core.List.{append_assoc}
use ach.Base.{
  ℕ, zero, suc, ◌-◌, ◌%◌, ◌^◌, ◌≤◌, ◌<◌, ◌≡◌, refl, sym, ap, ap₂, ◌∙◌, true, false, some, List, [],
  ◌∷◌, ◌++◌, map, length, length-append, length-drop, take, take-nil, drop, take-append-drop, done,
  arith, lt→ltb, le→ltb, le→leb, ne→==, eq→==,
}
use ach.Stream.{Read, read_bytes, full, read_fill, join, AllNonempty, read_fill-join}
use ach.Stream.Message.{
  wrote, write_fill, size_bytes, bytes_size, size_field, and_twelve, write_msg, read_msg_size,
  read_msg_data, msg_size,
}

-- The calls of `write` take at least one byte each, and all together.
abbrev pub AllWritten : (cnt : ℕ) → List ℕ → Type 0
AllWritten cnt [] = true ≡ false
AllWritten cnt (n ∷ []) = (0 < n) × (n ≡ cnt)
AllWritten cnt (n ∷ (k ∷ ns)) = (0 < n) × (n < cnt) × AllWritten (cnt - n) (k ∷ ns)

take_all : (xs : List ℕ) (n : ℕ) → length xs ≡ n → take n xs ≡ xs
take_all [] n e = take-nil ℕ n
take_all (x ∷ xs) zero e = absurd (omega arith)
take_all (x ∷ xs) (suc n) e = ap (λ l. x ∷ l) (take_all xs n (omega arith))

write_fill-whole :
    (left out : List ℕ) (ns : List ℕ)
    → AllWritten (length left) ns
    → write_fill left out (map wrote ns) ≡ done (record { end = full; bytes = out ++ left })
unfolding write_fill
write_fill-whole left out [] h = cc
write_fill-whole left out (n ∷ []) (some_bytes, h) =
    rw (ne→== n 0 (omega arith), le→ltb n (length left) (omega arith))
      (ap (λ x. done (record { end = full; bytes = out ++ x })) (take_all left n (sym h)))
write_fill-whole left out (n ∷ (k ∷ ns)) (some_bytes, l, h) =
    rw (ne→== n 0 (omega arith), lt→ltb n (length left) l)
      (write_fill-whole (drop n left) (out ++ take n left) (k ∷ ns)
          (subst (λ c. AllWritten c (k ∷ ns)) (sym (length-drop n left)) h)
        ∙ ap (λ x. done (record { end = full; bytes = x }))
            (append_assoc out (take n left) (drop n left)
              ∙ ap (λ x. out ++ x) (take-append-drop n left)))

write_msg-whole :
    (msg fs ds : List ℕ)
    → AllWritten 12 fs
    → AllWritten (length msg) ds
    → write_msg msg (map wrote fs) (map wrote ds)
      ≡ done (record { end = and_twelve full; out = size_field (length msg) ++ msg })
unfolding write_msg
write_msg-whole msg fs ds f d =
    rw (write_fill-whole (size_field (length msg)) [] fs f)
      (rw (write_fill-whole msg (size_field (length msg)) ds d))

read_whole :
    (cnt : ℕ) (b : List ℕ) (bs : List (List ℕ)) (later : List Read) (bytes : List ℕ)
    → AllNonempty (b ∷ bs)
    → join (b ∷ bs) ≡ bytes
    → length bytes ≡ cnt
    → read_fill cnt [] (map read_bytes (b ∷ bs) ++ later)
      ≡ done (record { end = full; bytes = bytes })
read_whole cnt b bs later bytes n j l =
    read_fill-join cnt [] b bs later n (omega (arith, ap length j, length-append b (join bs)))
    ∙ ap (λ x. done (record { end = full; bytes = x })) j

bytes_size-size_bytes : (n : ℕ) → n < 2 ^ 32 → bytes_size (size_bytes n) ≡ n
bytes_size-size_bytes n l = omega arith

read_msg_size-field :
    (n : ℕ) (b : List ℕ) (bs : List (List ℕ)) (later : List Read)
    → n < 2 ^ 32
    → AllNonempty (b ∷ bs)
    → join (b ∷ bs) ≡ size_field n
    → read_msg_size (map read_bytes (b ∷ bs) ++ later) ≡ done (full, some n)
unfolding read_msg_size
read_msg_size-field n b bs later l e j =
    rw (read_whole 12 b bs later (size_field n) e j refl) (
      ap (λ k. done (full, some k))
        (bytes_size-size_bytes (n % 2 ^ 32) (omega arith) ∙ omega arith))

read_msg_data-whole :
    (msg c : List ℕ) (cs : List (List ℕ)) (later : List Read) (buf_size : ℕ)
    → length msg < 2 ^ 31
    → length msg ≤ buf_size
    → AllNonempty (c ∷ cs)
    → join (c ∷ cs) ≡ msg
    → read_msg_data (length msg) buf_size (map read_bytes (c ∷ cs) ++ later)
      ≡ done (record { end = msg_size; bytes = msg })
unfolding read_msg_data
read_msg_data-whole msg c cs later buf_size l r ne j = rw (
  le→leb (length msg) buf_size r,
  read_whole (length msg) c cs later msg ne j refl,
  fits,
  lt→ltb 0 (length msg) some_bytes,
  lt→ltb (length msg) (2 ^ 31) l,
  eq→== (length msg) (length msg) refl,
)
  where
    fits : length msg % 2 ^ 32 ≡ length msg
    fits = omega arith

    some_bytes : 0 < length msg
    some_bytes = omega (arith, ne.0, ap length j, length-append c (join cs))

-- If calls of write take the size field and then a message of less than 2^31 bytes whole, at
-- least one byte each (so that the message is not empty), ach_stream_write_msg sends the field
-- and the message; and if calls of read return these bytes in any nonempty pieces,
-- ach_stream_read_msg_size finds the message's length and ach_stream_read_msg_data, with room
-- for it, returns that length and the message.
pub write_msg-read :
    (msg fs ds : List ℕ) (b c : List ℕ) (bs cs : List (List ℕ)) (later : List Read) (buf_size : ℕ)
    → length msg < 2 ^ 31
    → length msg ≤ buf_size
    → AllWritten 12 fs
    → AllWritten (length msg) ds
    → AllNonempty (b ∷ bs)
    → AllNonempty (c ∷ cs)
    → join (b ∷ bs) ≡ size_field (length msg)
    → join (c ∷ cs) ≡ msg
    → (write_msg msg (map wrote fs) (map wrote ds)
        ≡ done (record { end = and_twelve full; out = join (b ∷ bs) ++ join (c ∷ cs) }))
      × (read_msg_size (map read_bytes (b ∷ bs) ++ later) ≡ done (full, some (length msg)))
      × (read_msg_data (length msg) buf_size (map read_bytes (c ∷ cs) ++ later)
          ≡ done (record { end = msg_size; bytes = msg }))
write_msg-read msg fs ds b c bs cs later buf_size l r f d ne mo j k = (
  write_msg-whole msg fs ds f d
      ∙ ap₂ (λ x y. done (record { end = and_twelve full; out = x ++ y })) (sym j) (sym k),
  read_msg_size-field (length msg) b bs later (omega arith) ne j,
  read_msg_data-whole msg c cs later buf_size l r mo k,
)
