-- ===== src/Stream/Line/Bounds.antt =====
-- The buffer of ach_read_line in src/ach_stream.c.
use ach.Base.{
  ℕ, ◌+◌, ◌^◌, ◌≤◌, ◌<◌, ◌≡◌, refl, true, false, Option, none, some, List, [], ◌∷◌, ◌++◌, length,
  length-append, ltb, ◌==◌, sub64, sub64-eq, Exec, done, stop, blocked, ◌>>=◌, arith, Bool-cases,
  inl, inr, ltb→lt, lt→ltb, ◌∙◌,
}
use ach.Stream.Line.{
  ByteRead, got_byte, byte_interrupted, no_byte, get_byte, last_is, line_end, and_byte, read_line,
}

-- The text and the 0 behind it fit in n bytes, and nothing goes wrong on the way.
abbrev pub Fits : (n : ℕ) → Exec (List ℕ) → Type 0
Fits n (done text) = length text < n
Fits n (stop blocked) = Unit {0}
Fits n (stop _) = true ≡ false

get_byte-answers :
    (tries : ℕ) (reads : List ByteRead) (n : ℕ) (next : Option ℕ → Exec (List ℕ))
    → ((o : Option ℕ) → Fits n (next o))
    → Fits n (get_byte tries reads >>= next)
unfolding get_byte
get_byte-answers tries [] n next f = tt
get_byte-answers tries (got_byte c ∷ reads) n next f = f (some c)
get_byte-answers tries (byte_interrupted ∷ reads) n next f = elim (Bool-cases (ltb tries 8)) [
  | inl again ↦ rw (again) (get_byte-answers (tries + 1) reads n next f)
  | inr over ↦ rw (over) (f none)
]
get_byte-answers tries (no_byte ∷ reads) n next f = f none

last_is-append : (m c : ℕ) (text : List ℕ) → last_is m (text ++ (c ∷ [])) ≡ (c == m)
last_is-append m c [] = refl
last_is-append m c (b ∷ []) = refl
last_is-append m c (b ∷ (b' ∷ bs)) = last_is-append m c (b' ∷ bs)

line_end-Fits :
    (n : ℕ) (text : List ℕ)
    → 0 < length text
    → length text < n
    → last_is b'\n' text ≡ false
    → Fits n (line_end text)
line_end-Fits n [] p l e = absurd (omega arith)
line_end-Fits n (b ∷ bs) p l e = rw (e) l

below : (n len : ℕ) → 2 ≤ n → n < 2 ^ 64 → ltb len (sub64 n 1) ≡ true → len + 1 < n
below n len two big e = omega (arith, ltb→lt len (sub64 n 1) e, sub64-eq n 1 (omega arith) big)

above : (n len : ℕ) → 2 ≤ n → n < 2 ^ 64 → ltb len (sub64 n 1) ≡ false → 0 < len
above n len two big e = ground (arith, lt→ltb len (sub64 n 1), sub64-eq n 1 (omega arith) big)

and_byte-Fits :
    (old n : ℕ) (text : List ℕ) (next : List ℕ → Exec (List ℕ))
    → length text + 1 < n
    → ((t : List ℕ) → length t < n → last_is b'\n' t ≡ false → Fits n (next t))
    → (o : Option ℕ) → Fits n (and_byte old text next o)
and_byte-Fits old n text next l f none = omega (arith, length-append text (old ∷ []))
and_byte-Fits old n text next l f (some c) = elim (Bool-cases (c == b'\n')) [
  | inl end ↦ rw (end) (omega (arith, length-append text (c ∷ [])))
  | inr char ↦ rw (char) (
      f (text ++ (c ∷ [])) (omega (arith, length-append text (c ∷ [])))
        (last_is-append b'\n' c text ∙ char))
]

-- For a buffer of at least 2 and less than 2^64 bytes, and from a text that fits in it and does
-- not end in a newline, if ach_read_line returns, the bytes it has set and the 0 behind them fit
-- in the buffer, its assert holds, and nothing is read outside the buffer.
pub read_line-Fits :
    (old : ℕ → ℕ) (n : ℕ) (text : List ℕ) (more : List (List ByteRead))
    → 2 ≤ n
    → n < 2 ^ 64
    → length text < n
    → last_is b'\n' text ≡ false
    → Fits n (read_line old n text more)
unfolding read_line
read_line-Fits old n text [] two big l e = elim (Bool-cases (ltb (length text) (sub64 n 1))) [
  | inl on ↦ rw (on) tt
  | inr over ↦ rw (over) (line_end-Fits n text (above n (length text) two big over) l e)
]
read_line-Fits old n text (reads ∷ more) two big l e =
    elim (Bool-cases (ltb (length text) (sub64 n 1))) [
      | inl on ↦ rw (on) (
          get_byte-answers 0 reads n _ (
            and_byte-Fits (old (length text)) n text (λ t. read_line old n t more)
              (below n (length text) two big on)
              (λ t l' e'. read_line-Fits old n t more two big l' e')))
      | inr over ↦ rw (over) (line_end-Fits n text (above n (length text) two big over) l e)
    ]
