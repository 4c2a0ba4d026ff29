-- ===== src/Achd/Headers/Lines.antt =====
-- One line of the headers that src/achd/achd.c reads.
use mathlib.Core.List.{append-nil}
use ach.Base.{
  ℕ, ◌<◌, ◌≡◌, refl, sym, ap, ◌∙◌, Bool, true, false, ◌&&◌, not, Option, some, List, [], ◌∷◌, ◌++◌,
  length, ◌==◌, if◌then◌else◌, Exec, done, Stop, ◌>>=◌, arith, and_parts,
}
use ach.Shm.{Status, ok}
use ach.Achd.Io.{ReadCall, achd_readline, line_length}
use ach.Achd.Io.Text.{Delivers, all_plain, is_plain, without_cr, readline-line}
use ach.Achd.Words.{cut, is_space, is_word, all, skip_space}
use ach.Achd.Headers.{
  Headers, is_dot, match_line, split_word, take_header, set_header, parse_headers,
}

-- a character that can stand in a line: no 0, newline, carriage return or byte 255
abbrev pub is_text : ℕ → Bool
is_text c = not (c == 0) && (not (c == b'\n') && (not (c == b'\r') && not (c == 255)))

-- a character that can stand in a value, too: no blank, ':', '=' or '#'
abbrev pub is_value : ℕ → Bool
is_value c = is_text c && (not (is_space c) && (is_word c && not (c == b'#')))

pub all-append :
    (p : ℕ → Bool) (xs ys : List ℕ) → all p xs ≡ true → all p ys ≡ true → all p (xs ++ ys) ≡ true
all-append p [] ys hx hy = hy
all-append p (x ∷ xs) ys hx hy =
    let (here, rest) = and_parts (p x) (all p xs) hx in rw (here) (all-append p xs ys rest hy)

pub all-weaken :
    (p q : ℕ → Bool) (xs : List ℕ)
    → ((c : ℕ) → p c ≡ true → q c ≡ true)
    → all p xs ≡ true
    → all q xs ≡ true
all-weaken p q [] w h = refl
all-weaken p q (x ∷ xs) w h =
    let (here, rest) = and_parts (p x) (all p xs) h in rw (w x here) (all-weaken p q xs w rest)

pub is_value-text : (c : ℕ) → is_value c ≡ true → is_text c ≡ true
is_value-text c h = (and_parts _ _ h).0

is_text-plain : (signed : Bool) (c : ℕ) → is_text c ≡ true → is_plain signed c ≡ true
is_text-plain signed c h = ground arith

text-plain :
    (signed : Bool) (line : List ℕ) → all is_text line ≡ true → all_plain signed line ≡ true
text-plain signed [] h = refl
text-plain signed (c ∷ cs) h =
    let (here, rest) = and_parts (is_text c) (all is_text cs) h in
    rw (is_text-plain signed c here) (text-plain signed cs rest)

not_cr : (c : ℕ) → is_text c ≡ true → (c == b'\r') ≡ false
not_cr c h = ground arith

not_nul : (c : ℕ) → is_text c ≡ true → (c == 0) ≡ false
not_nul c h = ground arith

text-cr : (line : List ℕ) → all is_text line ≡ true → without_cr line ≡ line
text-cr [] h = refl
text-cr (c ∷ cs) h =
    let (here, rest) = and_parts (is_text c) (all is_text cs) h in
    rw (not_cr c here) (ap (λ l. c ∷ l) (text-cr cs rest))

text-cut : (line : List ℕ) → all is_text line ≡ true → cut 0 line ≡ line
text-cut [] h = refl
text-cut (c ∷ cs) h =
    let (here, rest) = and_parts (is_text c) (all is_text cs) h in
    rw (not_nul c here) (ap (λ l. c ∷ l) (text-cut cs rest))

is_value-mark : (c : ℕ) → is_value c ≡ true → (c == b'#') ≡ false
is_value-mark c h = ground arith

is_value-word : (c : ℕ) → is_value c ≡ true → is_word c ≡ true
is_value-word c h = ground arith

is_value-space : (c : ℕ) → is_value c ≡ true → is_space c ≡ false
is_value-space c h = ground arith

cut-values : (xs ys : List ℕ) → all is_value xs ≡ true → cut b'#' (xs ++ ys) ≡ xs ++ cut b'#' ys
cut-values [] ys h = refl
cut-values (c ∷ xs) ys h =
    let (here, rest) = and_parts (is_value c) (all is_value xs) h in
    rw (is_value-mark c here) (ap (λ l. c ∷ l) (cut-values xs ys rest))

cut-value : (val : List ℕ) → all is_value val ≡ true → cut b'#' val ≡ val
cut-value [] h = refl
cut-value (c ∷ val) h =
    let (here, rest) = and_parts (is_value c) (all is_value val) h in
    rw (is_value-mark c here) (ap (λ l. c ∷ l) (cut-value val rest))

split_word-key :
    (key rest : List ℕ)
    → all is_value key ≡ true
    → split_word (key ++ (b':' ∷ rest)) ≡ (key, b':' ∷ rest)
split_word-key [] rest h = refl
split_word-key (c ∷ key) rest h =
    let (here, later) = and_parts (is_value c) (all is_value key) h in
    rw (is_value-word c here, split_word-key key rest later)

skip_space-value : (val : List ℕ) → all is_value val ≡ true → skip_space val ≡ val
skip_space-value [] h = refl
skip_space-value (c ∷ val) h = rw (is_value-space c (and_parts (is_value c) (all is_value val) h).0)

-- a line as `printf` makes it
abbrev pub header_line : (key val : List ℕ) → List ℕ
header_line key val = key ++ (b':' ∷ (b' ' ∷ val))

-- a name of more than one character
abbrev pub is_key : List ℕ → Bool
is_key (c ∷ (d ∷ key)) = all is_value (c ∷ (d ∷ key))
is_key _ = false

header_line-text :
    (key val : List ℕ)
    → all is_value key ≡ true
    → all is_value val ≡ true
    → all is_text (header_line key val) ≡ true
header_line-text key val k v =
    all-append is_text key (b':' ∷ (b' ' ∷ val)) (all-weaken is_value is_text key is_value-text k)
      (all-weaken is_value is_text val is_value-text v)

match_line-header :
    (key val : List ℕ)
    → is_key key ≡ true
    → all is_value val ≡ true
    → match_line (cut b'#' (header_line key val)) ≡ some (some (key, val))
unfolding match_line
match_line-header [] val k v = cc
match_line-header (c ∷ []) val k v = cc
match_line-header (c ∷ (d ∷ key)) val k v =
    let (here, later) = and_parts (is_value c) (all is_value (d ∷ key)) k in
    let (next, rest) = and_parts (is_value d) (all is_value key) later in
    rw (cut-values (c ∷ (d ∷ key)) (b':' ∷ (b' ' ∷ val)) k) (
      rw (
        is_value-space c here,
        is_value-word c here,
        is_value-word d next,
        cut-value val v,
        split_word-key key (b' ' ∷ val) rest,
        skip_space-value val v,
        all-weaken is_value is_word val is_value-word v,
      ))

is_dot-header : (key val : List ℕ) → is_key key ≡ true → is_dot (header_line key val) ≡ false
unfolding is_dot
is_dot-header [] val k = cc
is_dot-header (c ∷ []) val k = cc
is_dot-header (c ∷ (d ∷ key)) val k =
    let (here, later) = and_parts (is_value c) (all is_value (d ∷ key)) k in
    let (next, _) = and_parts (is_value d) (all is_value key) later in
    rw (is_value-space c here, is_value-space d next)

module _ (err : Status → Stop) (strtol strtoul : List ℕ → Option ℕ) (signed : Bool) where
  -- what follows a line that is read whole
  abbrev pub after_line :
      (line : List ℕ) → List (List (List ReadCall)) → Headers → Exec (Status × (Headers × Bool))
  after_line line more h =
      if is_dot line
      then done (ok, (h, false))
      else take_header err strtol strtoul (match_line (cut b'#' line)) h
        >>= (λ h'. parse_headers err strtol strtoul signed false more h')

  pub parse_headers-line :
      (line : List ℕ) (css : List (List ReadCall)) (more : List (List (List ReadCall)))
      (h : Headers)
      → all is_text line ≡ true
      → length line < line_length
      → Delivers css (line ++ (b'\n' ∷ []))
      → parse_headers err strtol strtoul signed false (css ∷ more) h ≡ after_line line more h
  unfolding parse_headers
  parse_headers-line line css more h t l d =
      rw (came) (ap (λ x. after_line x more h) (text-cut line t))
    where
      came :
          achd_readline signed line_length [] false css
          ≡ done (record { status = ok; text = line; sig = false })
      came =
          ap (achd_readline signed line_length [] false) (sym (append-nil css))
          ∙ readline-line signed line_length [] line css [] (text-plain signed line t) d
              (omega arith)
          ∙ ap (λ x. done (record { status = ok; text = x; sig = false })) (text-cr line t)

  -- A header as `printf` makes it is taken, and the next line is read.
  pub parse_headers-header :
      (key val : List ℕ) (css : List (List ReadCall)) (more : List (List (List ReadCall)))
      (h h' : Headers)
      → is_key key ≡ true
      → all is_value key ≡ true
      → all is_value val ≡ true
      → length (header_line key val) < line_length
      → Delivers css (header_line key val ++ (b'\n' ∷ []))
      → set_header err strtol strtoul key val h ≡ done h'
      → parse_headers err strtol strtoul signed false (css ∷ more) h
        ≡ parse_headers err strtol strtoul signed false more h'
  unfolding take_header
  parse_headers-header key val css more h h' k a v l d e =
      parse_headers-line (header_line key val) css more h (header_line-text key val a v) l d
      ∙ rw (is_dot-header key val k, match_line-header key val k v, e)
