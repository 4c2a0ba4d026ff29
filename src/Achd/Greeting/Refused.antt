-- ===== src/Achd/Greeting/Refused.antt =====
-- What a client makes of the errors that a server of src/achd/achd.c reports.
use mathlib.Core.Path.{subst}
use ach.Base.{
  ℕ, ◌%◌, ◌^◌, ◌<◌, ◌≡◌, refl, ap, ◌∙◌, Bool, true, false, Option, none, some, List, [], ◌∷◌, ◌++◌,
  length, done, stop, Stop, ◌>>=◌, arith,
}
use ach.Shm.{Status, bad_header}
use ach.Name.{result_to_string}
use ach.Achd.Io.{ReadCall}
use ach.Achd.Io.Text.{Delivers}
use ach.Achd.Words.{codes, cut, all, skip_space, is_word}
use ach.Achd.Headers.{
  Headers, parse_headers, set_header, set_status, take_header, is_dot, match_line,
}
use ach.Achd.Headers.Lines.{is_text, after_line, parse_headers-line, all-append}
use ach.Achd.Greeting.{error_lines}
use ach.Achd.Greeting.Asked.{LinesDeliver}

module _ (err : Status → Stop) (strtol strtoul : List ℕ → Option ℕ) (signed : Bool) where
  after_bad_header :
      (more : List (List (List ReadCall))) (h : Headers)
      → strtol (codes "14 ") ≡ some 14
      → after_line err strtol strtoul signed (codes "status: 14 # ACH_BAD_HEADER") more h
        ≡ parse_headers err strtol strtoul signed false more (record h { status = 14 })
  unfolding is_dot match_line take_header set_header set_status
  after_bad_header more h e =
      ap
        (λ o.
          (elim o [ none ↦ stop (err bad_header) | some i ↦ done (i % 2 ^ 32) ])
          >>= (λ i. done (record h { status = i }))
          >>= (λ h'. parse_headers err strtol strtoul signed false more h'))
        e

  after_message :
      (message : List ℕ) (more : List (List (List ReadCall))) (h : Headers)
      → cut b'#' message ≡ message
      → all is_word (skip_space message) ≡ false
      → after_line err strtol strtoul signed (codes "message: " ++ message) more h
        ≡ stop (err bad_header)
  unfolding is_dot match_line take_header
  after_message message more h c w = rw (c, w)

  -- If a server reports ACH_BAD_HEADER (printed and read as 14) with a message below 1000
  -- characters that has no '#', 0, newline, carriage return or byte 255, but a ':' or '=' in
  -- it, a client that gets these lines stops with an error of its own for a malformed header.
  pub error-malformed :
      (print_int : ℕ → List ℕ) (message : List ℕ) (css₁ css₂ : List (List ReadCall))
      (more : List (List (List ReadCall))) (h : Headers)
      → print_int 14 ≡ codes "14"
      → strtol (codes "14 ") ≡ some 14
      → all is_text message ≡ true
      → length message < 1000
      → cut b'#' message ≡ message
      → all is_word (skip_space message) ≡ false
      → LinesDeliver (css₁ ∷ css₂ ∷ more) (error_lines print_int bad_header message)
      → parse_headers err strtol strtoul signed false (css₁ ∷ css₂ ∷ more) h ≡ stop (err bad_header)
  unfolding error_lines result_to_string
  error-malformed print_int message css₁ css₂ more h p z t l c w (d₁, (d₂, ds)) =
      parse_headers-line err strtol strtoul signed (codes "status: 14 # ACH_BAD_HEADER") css₁
        (css₂ ∷ more) h refl (omega arith)
        (subst
          (λ x.
            Delivers css₁ (
              (codes "status: " ++ (x ++ (codes " # " ++ codes "ACH_BAD_HEADER"))) ++ (b'\n' ∷ [])))
          p d₁)
      ∙ after_bad_header (css₂ ∷ more) h z
      ∙ parse_headers-line err strtol strtoul signed (codes "message: " ++ message) css₂ more _
          (all-append is_text (codes "message: ") message refl t) (omega arith) d₂
      ∙ after_message message more _ c w
