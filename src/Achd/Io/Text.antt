-- ===== src/Achd/Io/Text.antt =====
-- The lines of text that src/achd/io.c reads.
use mathlib.Core.List.{append_assoc, append-nil}
use ach.Base.{
  ℕ, ◌+◌, ◌<◌, ◌≤◌, ◌≡◌, refl, sym, ap, ◌∙◌, Bool, true, false, ◌&&◌, not, Option, none, some, List,
  [], ◌∷◌, ◌++◌, length, length-append, ltb, ◌==◌, if◌then◌else◌, Exec, done, stop, arith,
  and_parts, lt→ltb, ltb→lt, inl, inr, Bool-cases,
}
use ach.Shm.{ok}
use ach.Achd.Io.{ReadCall, achd_read, achd_getc, char_of, Line, and_line, achd_readline}
use ach.Achd.Io.Whole.{arrived, is_quiet, achd_read-whole}

-- The characters come one by one, each with calls that succeed.
abbrev pub Delivers : List (List ReadCall) → List ℕ → Type 0
Delivers [] [] = Unit {0}
Delivers (calls ∷ more) (c ∷ cs) =
    ((is_quiet calls ≡ true) × (arrived calls ≡ c ∷ [])) × Delivers more cs
Delivers _ _ = true ≡ false

-- neither the end of a line nor EOF
abbrev pub is_plain : (signed : Bool) → ℕ → Bool
is_plain signed c = not (c == b'\n') && not (signed && (c == 255))

abbrev pub all_plain : (signed : Bool) → List ℕ → Bool
all_plain signed [] = true
all_plain signed (c ∷ cs) = is_plain signed c && all_plain signed cs

-- the characters but the carriage returns
abbrev pub without_cr : List ℕ → List ℕ
without_cr [] = []
without_cr (c ∷ cs) = if c == b'\r' then without_cr cs else c ∷ without_cr cs

achd_getc-arrived :
    (signed : Bool) (calls : List ReadCall) (c : ℕ)
    → is_quiet calls ≡ true
    → arrived calls ≡ c ∷ []
    → achd_getc signed false calls ≡ done (char_of signed (c ∷ []), false)
unfolding achd_getc
achd_getc-arrived signed calls c q a = rw (came)
  where
    came : achd_read 1 [] false calls ≡ done (c ∷ [], false)
    came =
        ap (achd_read 1 [] false) (sym (append-nil calls))
        ∙ achd_read-whole 1 [] calls [] q (omega (arith, ap length a))
        ∙ ap (λ b. done (b, false)) a

is_plain-newline : (signed : Bool) (c : ℕ) → is_plain signed c ≡ true → (c == b'\n') ≡ false
is_plain-newline signed c p = ground arith

char_of-plain :
    (signed : Bool) (c : ℕ) → is_plain signed c ≡ true → char_of signed (c ∷ []) ≡ some c
char_of-plain signed c p = ground arith

-- one character of a line that fits
readline-step :
    (signed : Bool) (cnt : ℕ) (text : List ℕ) (calls : List ReadCall) (more : List (List ReadCall))
    (c : ℕ)
    → is_quiet calls ≡ true
    → arrived calls ≡ c ∷ []
    → length text < cnt
    → is_plain signed c ≡ true
    → achd_readline signed cnt text false (calls ∷ more) ≡ (
        if c == b'\r'
        then achd_readline signed cnt text false more
        else achd_readline signed cnt (text ++ (c ∷ [])) false more)
unfolding achd_readline
readline-step signed cnt text calls more c q a h p = rw (
  lt→ltb (length text) cnt h,
  achd_getc-arrived signed calls c q a,
  char_of-plain signed c p,
  is_plain-newline signed c p,
)

readline-newline :
    (signed : Bool) (cnt : ℕ) (text : List ℕ) (calls : List ReadCall) (more : List (List ReadCall))
    → is_quiet calls ≡ true
    → arrived calls ≡ b'\n' ∷ []
    → length text < cnt
    → achd_readline signed cnt text false (calls ∷ more)
      ≡ done (record { status = ok; text = text; sig = false })
unfolding achd_readline
readline-newline signed cnt text calls more q a h =
    rw (lt→ltb (length text) cnt h, achd_getc-arrived signed calls b'\n' q a, newline signed)
  where
    newline : (signed : Bool) → char_of signed (b'\n' ∷ []) ≡ some b'\n'
    newline true = refl
    newline false = refl

-- If the characters of a line without EOF arrive, and then a newline, and with the text in the
-- buffer they are fewer than cnt, achd_readline returns ACH_OK and the line without its carriage
-- returns.
pub readline-line :
    (signed : Bool) (cnt : ℕ) (text line : List ℕ) (css later : List (List ReadCall))
    → all_plain signed line ≡ true
    → Delivers css (line ++ (b'\n' ∷ []))
    → length text + length line < cnt
    → achd_readline signed cnt text false (css ++ later)
      ≡ done (record { status = ok; text = text ++ without_cr line; sig = false })
readline-line signed cnt text [] [] later p d h = cc
readline-line signed cnt text [] (calls ∷ []) later p ((q, a), d) h =
    readline-newline signed cnt text calls later q a (omega arith)
    ∙ ap (λ t. done (record { status = ok; text = t; sig = false })) (sym (append-nil text))
readline-line signed cnt text [] (calls ∷ (k ∷ css)) later p d h = cc (d.1)
readline-line signed cnt text (c ∷ line) [] later p d h = cc
readline-line signed cnt text (c ∷ line) (calls ∷ css) later p ((q, a), d) h =
    let (here, rest) = and_parts (is_plain signed c) (all_plain signed line) p in
    readline-step signed cnt text calls (css ++ later) c q a (omega arith) here
    ∙ (elim (Bool-cases (c == b'\r')) [
      | inl cr ↦ rw (cr) (readline-line signed cnt text line css later rest d (omega arith))
      | inr other ↦ rw (other) (
          readline-line signed cnt (text ++ (c ∷ [])) line css later rest d
            (omega (arith, length-append text (c ∷ [])))
          ∙ ap (λ t. done (record { status = ok; text = t; sig = false }))
              (append_assoc text (c ∷ []) (without_cr line)))
    ])

-- The text fits in the buffer, with its end if the line was read whole.
abbrev pub Fits : (cnt : ℕ) → Exec Line → Type 0
Fits cnt (stop e) = Unit {0}
Fits cnt (done l) = (length l.text ≤ cnt) × (l.status ≡ ok → length l.text < cnt)

and_line-Fits :
    (cnt : ℕ) (text : List ℕ) (r : Exec (Option ℕ × Bool)) (next : ℕ → Bool → Exec Line)
    → length text ≤ cnt
    → ((c : ℕ) (s : Bool) → Fits cnt (next c s))
    → Fits cnt (and_line r next text)
and_line-Fits cnt text (stop e) next h f = tt
and_line-Fits cnt text (done (none, s)) next h f = (h, λ e. cc)
and_line-Fits cnt text (done (some c, s)) next h f = f c s

-- From a text that fits in the buffer, if achd_readline returns, its text fits in cnt
-- characters, and with its end, too, if the result is ACH_OK.
pub readline-Fits :
    (signed : Bool) (cnt : ℕ) (text : List ℕ) (sig : Bool) (css : List (List ReadCall))
    → length text ≤ cnt
    → Fits cnt (achd_readline signed cnt text sig css)
unfolding achd_readline
readline-Fits signed cnt text sig [] h = elim (Bool-cases (ltb (length text) cnt)) [
  | inl more ↦ rw (more) tt
  | inr full ↦ rw (full) (h, λ e. cc)
]
readline-Fits signed cnt text sig (calls ∷ css) h = elim (Bool-cases (ltb (length text) cnt)) [
  | inl more ↦ rw (more) (
      and_line-Fits cnt text (achd_getc signed sig calls) _ h (λ c s.
        let l : length text < cnt = ltb→lt (length text) cnt more in
        elim (Bool-cases (c == b'\n')) [
          | inl end ↦ rw (end) (h, λ e. l)
          | inr other ↦ elim (Bool-cases (c == b'\r')) [
            | inl cr ↦ rw (other, cr) (readline-Fits signed cnt text s css h)
            | inr char ↦
                rw (other, char)
                  (readline-Fits signed cnt (text ++ (c ∷ [])) s css
                    (omega (arith, length-append text (c ∷ []))))
          ]
        ]))
  | inr full ↦ rw (full) (h, λ e. cc)
]
