-- ===== src/Stream.antt =====
-- The loops of src/ach_stream.c that read or write until all bytes are through.
pub mod Message
pub mod Line
use mathlib.Core.List.{append_assoc, append-nil}
use ach.Base.{
  ℕ, ◌+◌, ◌<◌, ◌≡◌, sym, ap, ◌∙◌, List, [], ◌∷◌, ◌++◌, length, length-append, map, ltb,
  if◌then◌else◌, Exec, done, stop, blocked, arith, lt→ltb, le→ltb,
}

-- What one call of `read` returns: bytes, at most as many as asked for, 0 or -1. No bytes are 0 too.
pub data Read : Type 0 where
  read_bytes : List ℕ → Read
  at_end read_error : Read

-- how a loop ends: with `(int)cnt`, with 0 or with -1
pub data FillEnd : Type 0 where
  full ended broken : FillEnd

-- The value returned and the bytes that stand in the buffer.
pub record Filled : Type 0 where
  pub end : FillEnd
  pub bytes : List ℕ

-- `ach_stream_read_fill`: `bytes` have been read; the list holds what the calls of `read` return,
-- and where it ends the call still waits.
unfoldable pub read_fill : (cnt : ℕ) → (bytes : List ℕ) → List Read → Exec Filled
read_fill cnt bytes [] = stop blocked
read_fill cnt bytes (read_bytes [] ∷ rs) = done (record { end = ended; bytes = bytes })
read_fill cnt bytes (read_bytes (b ∷ bs) ∷ rs) =
    let rest = read_fill cnt (bytes ++ (b ∷ bs)) rs in
    if ltb (length (bytes ++ (b ∷ bs))) cnt
    then rest
    else done (record { end = full; bytes = bytes ++ (b ∷ bs) })
read_fill cnt bytes (at_end ∷ rs) = done (record { end = ended; bytes = bytes })
read_fill cnt bytes (read_error ∷ rs) = done (record { end = broken; bytes = bytes })

-- the bytes of a list of pieces
abbrev pub join : List (List ℕ) → List ℕ
join [] = []
join (bs ∷ bss) = bs ++ join bss

-- none of the pieces is empty
abbrev pub AllNonempty : List (List ℕ) → Type 0
AllNonempty [] = Unit {0}
AllNonempty (bs ∷ bss) = (0 < length bs) × AllNonempty bss

-- However a stream of cnt bytes is cut into nonempty pieces, the loop of ach_stream_read_fill
-- takes all pieces, asks for no more, and ends with the bytes in order.
pub read_fill-join :
    (cnt : ℕ) (bytes bs : List ℕ) (bss : List (List ℕ)) (later : List Read)
    → AllNonempty (bs ∷ bss)
    → length bytes + (length bs + length (join bss)) ≡ cnt
    → read_fill cnt bytes (map read_bytes (bs ∷ bss) ++ later)
      ≡ done (record { end = full; bytes = bytes ++ (bs ++ join bss) })
unfolding read_fill
read_fill-join cnt bytes [] bss later ne total = absurd (omega (arith, ne.0))
read_fill-join cnt bytes (b ∷ bs) [] later ne total =
    rw (le→ltb (length (bytes ++ (b ∷ bs))) cnt (omega (arith, length-append bytes (b ∷ bs))))
      (ap (λ l. done (record { end = full; bytes = bytes ++ l })) (sym (append-nil (b ∷ bs))))
read_fill-join cnt bytes (b ∷ bs) (cs ∷ bss) later (n, ne) total =
    rw
      (lt→ltb (length (bytes ++ (b ∷ bs))) cnt
        (omega (arith, ne.0, length-append bytes (b ∷ bs), length-append cs (join bss))))
      (read_fill-join cnt (bytes ++ (b ∷ bs)) cs bss later ne
          (omega (arith, length-append bytes (b ∷ bs), length-append cs (join bss)))
        ∙ ap (λ l. done (record { end = full; bytes = l }))
            (append_assoc bytes (b ∷ bs) (cs ++ join bss)))
