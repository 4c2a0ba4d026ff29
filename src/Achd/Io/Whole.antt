-- ===== src/Achd/Io/Whole.antt =====
-- The loops of achd_read and achd_write in src/achd/io.c.
use mathlib.Core.List.{append_assoc, append-nil}
use mathlib.Core.Path.{subst}
use ach.Base.{
  ℕ, ◌+◌, ◌<◌, ◌≤◌, ◌≡◌, refl, sym, ap, ◌∙◌, Bool, true, false, ◌&&◌, not, List, [], ◌∷◌, ◌++◌,
  length, length-append, length-drop, take, drop, take-append-drop, ltb, if◌then◌else◌, Exec, done,
  stop, spins, arith, lt→ltb, le→ltb, inl, inr, Bool-cases,
}
use ach.Achd.Io.{
  ReadCall, got, got_interrupted, got_none, is_over, achd_read, WriteCall, wrote, wrote_none,
  Written, wrote_all, returned_zero, returned_error, written, achd_write,
}

-- the bytes that the calls of `read` return
abbrev pub arrived : List ReadCall → List ℕ
arrived [] = []
arrived (got bs s ∷ calls) = bs ++ arrived calls
arrived (_ ∷ calls) = arrived calls

ge_of_ltb : (a b : ℕ) → ltb a b ≡ false → b ≤ a
ge_of_ltb a b e = ground (arith, lt→ltb a b)

-- no signal comes that `achd_read` is to heed, and no call fails for good
abbrev pub is_quiet : List ReadCall → Bool
is_quiet [] = true
is_quiet (got bs s ∷ calls) = not s && is_quiet calls
is_quiet (got_interrupted s ∷ calls) = not s && is_quiet calls
is_quiet (got_none s ∷ calls) = false

pub achd_read-over :
    (cnt : ℕ) (bytes : List ℕ) (sig : Bool) (calls : List ReadCall)
    → is_over (length bytes) cnt sig ≡ true
    → achd_read cnt bytes sig calls ≡ done (bytes, sig)
unfolding achd_read
achd_read-over cnt bytes sig [] e = rw (e)
achd_read-over cnt bytes sig (got bs s ∷ calls) e = rw (e)
achd_read-over cnt bytes sig (got_interrupted s ∷ calls) e = rw (e)
achd_read-over cnt bytes sig (got_none s ∷ calls) e = rw (e)

append-empty : (xs ys : List ℕ) → length xs + length ys ≤ length xs → xs ++ ys ≡ xs
append-empty xs [] h = append-nil xs
append-empty xs (y ∷ ys) h = absurd (omega arith)

read-full :
    (cnt : ℕ) (bytes : List ℕ) (calls later : List ReadCall)
    → ltb (length bytes) cnt ≡ false
    → length bytes + length (arrived calls) ≡ cnt
    → achd_read cnt bytes false (calls ++ later) ≡ done (bytes ++ arrived calls, false)
read-full cnt bytes calls later full e =
    achd_read-over cnt bytes false (calls ++ later) (rw (full))
    ∙ ap (λ b. done (b, false))
        (sym
          (append-empty bytes (arrived calls) (omega (arith, ge_of_ltb (length bytes) cnt full))))

-- If calls of read return bytes or are interrupted, with no signal to the daemon, and their
-- bytes and those in the buffer are cnt together, achd_read returns all bytes in order and asks
-- for no more.
pub achd_read-whole :
    (cnt : ℕ) (bytes : List ℕ) (calls later : List ReadCall)
    → is_quiet calls ≡ true
    → length bytes + length (arrived calls) ≡ cnt
    → achd_read cnt bytes false (calls ++ later) ≡ done (bytes ++ arrived calls, false)
unfolding achd_read
achd_read-whole cnt bytes [] later q e =
    read-full cnt bytes [] later (le→ltb (length bytes) cnt (omega arith)) e
achd_read-whole cnt bytes (got bs true ∷ cs) later q e = cc
achd_read-whole cnt bytes (got bs false ∷ cs) later q e =
    elim (Bool-cases (ltb (length bytes) cnt)) [
      | inr full ↦ read-full cnt bytes (got bs false ∷ cs) later full e
      | inl more ↦ rw (more) (
          achd_read-whole cnt (bytes ++ bs) cs later q
            (omega (arith, length-append bytes bs, length-append bs (arrived cs)))
          ∙ ap (λ b. done (b, false)) (append_assoc bytes bs (arrived cs)))
    ]
achd_read-whole cnt bytes (got_interrupted true ∷ cs) later q e = cc
achd_read-whole cnt bytes (got_interrupted false ∷ cs) later q e =
    elim (Bool-cases (ltb (length bytes) cnt)) [
      | inr full ↦ read-full cnt bytes (got_interrupted false ∷ cs) later full e
      | inl more ↦ rw (more) (achd_read-whole cnt bytes cs later q e)
    ]
achd_read-whole cnt bytes (got_none s ∷ cs) later q e = cc

-- What is sent is the beginning of what was to be sent, and all of it if the result says so.
abbrev pub Sends : (all : List ℕ) → Exec Written → Type 0
Sends all (stop e) = Unit {0}
Sends all (done w) = ((rest : List ℕ) × (w.out ++ rest ≡ all)) × (w.end ≡ wrote_all → w.out ≡ all)

written-Sends : (left out : List ℕ) (sig : Bool) → Sends (out ++ left) (written left out sig)
written-Sends [] out sig = (([], refl), λ _. sym (append-nil out))
written-Sends (b ∷ left) out sig = tt

not_all :
    (zero : Bool) (xs ys : List ℕ)
    → (if zero then returned_zero else returned_error) ≡ wrote_all
    → xs ≡ ys
not_all true xs ys e = cc
not_all false xs ys e = cc

-- Whatever the calls of write do, the bytes that achd_write has sent when it returns are the
-- beginning of those it was given, and all of them if it returns their number.
pub achd_write-Sends :
    (left out : List ℕ) (sig : Bool) (calls : List WriteCall)
    → Sends (out ++ left) (achd_write left out sig calls)
unfolding achd_write
achd_write-Sends left out sig [] = elim (Bool-cases (is_over 0 (length left) sig)) [
  | inl over ↦ rw (over) (written-Sends left out sig)
  | inr more ↦ rw (more) tt
]
achd_write-Sends left out sig (wrote n s ∷ calls) =
    elim (Bool-cases (is_over 0 (length left) sig)) [
      | inl over ↦ rw (over) (written-Sends left out sig)
      | inr more ↦ rw (more) (
          subst (λ all. Sends all (achd_write (drop n left) (out ++ take n left) s calls))
            (append_assoc out (take n left) (drop n left)
              ∙ ap (λ l. out ++ l) (take-append-drop n left))
            (achd_write-Sends (drop n left) (out ++ take n left) s calls))
    ]
achd_write-Sends left out sig (wrote_none zero intr s ∷ calls) =
    elim (Bool-cases (is_over 0 (length left) sig)) [
      | inl over ↦ rw (over) (written-Sends left out sig)
      | inr more ↦ elim (Bool-cases (intr && not s)) [
        | inl again ↦ rw (more, again) (achd_write-Sends left out s calls)
        | inr fails ↦ rw (more, fails) ((left, refl), not_all zero out (out ++ left))
      ]
    ]

-- the bytes that the calls of `write` take
abbrev pub taken : List WriteCall → ℕ
taken [] = 0
taken (wrote n s ∷ calls) = n + taken calls
taken (_ ∷ calls) = taken calls

-- No call fails for good, and no signal comes.
abbrev pub is_calm : List WriteCall → Bool
is_calm [] = true
is_calm (wrote n s ∷ calls) = not s && is_calm calls
is_calm (wrote_none z intr s ∷ calls) = intr && (not s && is_calm calls)

nonempty : (b : ℕ) (left : List ℕ) → ltb 0 (length (b ∷ left)) ≡ true
nonempty b left = lt→ltb 0 (length (b ∷ left)) (omega arith)

achd_write-over :
    (left out : List ℕ) (sig : Bool) (calls : List WriteCall)
    → is_over 0 (length left) sig ≡ true
    → achd_write left out sig calls ≡ written left out sig
unfolding achd_write
achd_write-over left out sig [] e = rw (e)
achd_write-over left out sig (wrote n s ∷ calls) e = rw (e)
achd_write-over left out sig (wrote_none zero intr s ∷ calls) e = rw (e)

achd_write-ends :
    (left out : List ℕ) (calls later : List WriteCall)
    → is_calm calls ≡ true
    → taken calls ≡ length left
    → (all : List ℕ) × (achd_write left out false (calls ++ later)
        ≡ done (record { end = wrote_all; out = all; sig = false }))
unfolding achd_write
achd_write-ends [] out calls later c h = (out, achd_write-over [] out false (calls ++ later) refl)
achd_write-ends (b ∷ left) out [] later c h = absurd (omega arith)
achd_write-ends (b ∷ left) out (wrote n true ∷ calls) later c h = cc
achd_write-ends (b ∷ left) out (wrote n false ∷ calls) later c h = rw (nonempty b left) (
    achd_write-ends (drop n (b ∷ left)) (out ++ take n (b ∷ left)) calls later c
      (omega (arith, length-drop n (b ∷ left))))
achd_write-ends (b ∷ left) out (wrote_none z false s ∷ calls) later c h = cc
achd_write-ends (b ∷ left) out (wrote_none z true true ∷ calls) later c h = cc
achd_write-ends (b ∷ left) out (wrote_none z true false ∷ calls) later c h =
    rw (nonempty b left) (achd_write-ends (b ∷ left) out calls later c h)

-- Calls that go well take all bytes.
pub achd_write-whole :
    (left out : List ℕ) (calls later : List WriteCall)
    → is_calm calls ≡ true
    → taken calls ≡ length left
    → achd_write left out false (calls ++ later)
      ≡ done (record { end = wrote_all; out = out ++ left; sig = false })
achd_write-whole left out calls later c h =
    let (all, e) = achd_write-ends left out calls later c h in
    let sends : Sends (out ++ left) (done (record { end = wrote_all; out = all; sig = false })) =
      subst (Sends (out ++ left)) e (achd_write-Sends left out false (calls ++ later)) in
    e ∙ ap (λ o. done (record { end = wrote_all; out = o; sig = false })) (sends.1 refl)

written-spins :
    (left out : List ℕ) (sig : Bool) → 0 < length left → written left out sig ≡ stop spins
written-spins [] out sig h = absurd (omega arith)
written-spins (b ∷ left) out sig h = refl

-- the calls of `write` that take bytes take at least one
abbrev pub AllTake : List WriteCall → Type 0
AllTake [] = Unit {0}
AllTake (wrote n s ∷ calls) = (0 < n) × AllTake calls
AllTake (_ ∷ calls) = AllTake calls

-- If a signal comes with a call of write that takes at least one byte and leaves some, the calls
-- before having gone well and taken at least one byte each, if any, achd_write spins in an empty
-- loop.
pub achd_write-spins :
    (left out : List ℕ) (calls : List WriteCall) (n : ℕ) (later : List WriteCall)
    → is_calm calls ≡ true
    → AllTake calls
    → 0 < n
    → taken calls + n < length left
    → achd_write left out false (calls ++ (wrote n true ∷ later)) ≡ stop spins
unfolding achd_write
achd_write-spins [] out calls n later c a p h = absurd (omega arith)
achd_write-spins (b ∷ left) out [] n later c a p h = rw (nonempty b left) (
    achd_write-over (drop n (b ∷ left)) (out ++ take n (b ∷ left)) true later refl
    ∙ written-spins (drop n (b ∷ left)) (out ++ take n (b ∷ left)) true
        (omega (arith, length-drop n (b ∷ left))))
achd_write-spins (b ∷ left) out (wrote k true ∷ calls) n later c a p h = cc
achd_write-spins (b ∷ left) out (wrote k false ∷ calls) n later c a p h = rw (nonempty b left) (
    achd_write-spins (drop k (b ∷ left)) (out ++ take k (b ∷ left)) calls n later c a.1 p
      (omega (arith, length-drop k (b ∷ left))))
achd_write-spins (b ∷ left) out (wrote_none z false s ∷ calls) n later c a p h = cc
achd_write-spins (b ∷ left) out (wrote_none z true true ∷ calls) n later c a p h = cc
achd_write-spins (b ∷ left) out (wrote_none z true false ∷ calls) n later c a p h =
    rw (nonempty b left) (achd_write-spins (b ∷ left) out calls n later c a p h)
