-- ===== src/Achd/Greeting/Asked.antt =====
-- The request of a client in src/achd/client.c, as a server reads it.
use ach.Base.{
  ℕ, ◌<◌, ◌≡◌, refl, ap, ◌∙◌, ◌⊎◌, inl, inr, Bool, true, false, Option, none, some, List, [], ◌∷◌,
  ◌++◌, length, Exec, done, stop, Stop, ◌>>=◌, arith,
}
use ach.Shm.{Status, ok, bad_header}
use ach.Achd.Io.{ReadCall, line_length}
use ach.Achd.Io.Text.{Delivers}
use ach.Achd.Words.{codes, all}
use ach.Achd.Headers.{
  Direction, push, pull, Headers, parse_headers, set_header, set_ul, parse_boolean, set_direction,
  void, is_dot,
}
use ach.Achd.Headers.Lines.{is_value, parse_headers-line, parse_headers-header, header_line, is_key}
use ach.Achd.Greeting.{request_lines, asked_direction}

-- The lines come one by one, each with its newline.
abbrev pub LinesDeliver : List (List (List ReadCall)) → List (List ℕ) → Type 0
LinesDeliver [] [] = Unit {0}
LinesDeliver (css ∷ more) (line ∷ lines) =
    Delivers css (line ++ (b'\n' ∷ [])) × LinesDeliver more lines
LinesDeliver _ _ = true ≡ false

-- the direction that the server serves
abbrev pub served_direction : Direction → Direction
served_direction pull = push
served_direction _ = pull

-- what the server makes of a request
abbrev pub requested :
    (chan transport : List ℕ) → (period_ns get_last : ℕ) → Direction → Headers → Headers
requested chan transport period_ns get_last direction h = record h {
  chan_name = some chan;
  transport = some transport;
  period_ns = period_ns;
  get_last = get_last;
  direction = served_direction direction;
}

module _ (err : Status → Stop) (strtol strtoul : List ℕ → Option ℕ) (signed : Bool) where
  parse_headers-dot :
      (css : List (List ReadCall)) (more : List (List (List ReadCall))) (h : Headers)
      → Delivers css (codes "." ++ (b'\n' ∷ []))
      → parse_headers err strtol strtoul signed false (css ∷ more) h ≡ done (ok, (h, false))
  unfolding is_dot
  parse_headers-dot css more h d =
      parse_headers-line err strtol strtoul signed (codes ".") css more h refl (omega arith) d

  take_chan :
      (val : List ℕ) (h : Headers)
      → set_header err strtol strtoul (codes "channel-name") val h
        ≡ done (record h { chan_name = some val })
  unfolding set_header
  take_chan val h = refl

  take_transport :
      (val : List ℕ) (h : Headers)
      → set_header err strtol strtoul (codes "transport") val h
        ≡ done (record h { transport = some val })
  unfolding set_header
  take_transport val h = refl

  take_period :
      (val : List ℕ) (n : ℕ) (h : Headers)
      → strtoul val ≡ some n
      → set_header err strtol strtoul (codes "period-ns") val h ≡ done (record h { period_ns = n })
  unfolding set_header set_ul
  take_period val n h e =
      ap
        (λ o.
          (elim o [ none ↦ stop (err bad_header) | some i ↦ done i ])
          >>= (λ i. done (record h { period_ns = i })))
        e

  take_last :
      (val : List ℕ) (n : ℕ) (h : Headers)
      → ((n ≡ 0) × (val ≡ codes "0")) ⊎ ((n ≡ 1) × (val ≡ codes "1"))
      → set_header err strtol strtoul (codes "get-last") val h ≡ done (record h { get_last = n })
  unfolding set_header parse_boolean
  take_last val n h (inl (e, v)) = rw (e, v)
  take_last val n h (inr (e, v)) = rw (e, v)

  take_direction :
      (d : Direction) (h : Headers)
      → set_header err strtol strtoul (codes "direction") (codes (asked_direction d)) h
        ≡ done (record h { direction = served_direction d })
  unfolding set_header set_direction
  take_direction push h = refl
  take_direction pull h = refl
  take_direction void h = refl

  digit_value :
      {get_last : ℕ} {val : List ℕ}
      → ((get_last ≡ 0) × (val ≡ codes "0")) ⊎ ((get_last ≡ 1) × (val ≡ codes "1"))
      → (all is_value val ≡ true) × (length val ≡ 1)
  digit_value (inl (e, v)) = rw (v) (refl, refl)
  digit_value (inr (e, v)) = rw (v) (refl, refl)

  direction_value :
      (d : Direction)
      → (all is_value (codes (asked_direction d)) ≡ true) × (length (codes (asked_direction d)) ≡ 4)
  direction_value push = (refl, refl)
  direction_value pull = (refl, refl)
  direction_value void = (refl, refl)

  -- a header, and what the lines after it give
  pub header_step :
      (key val : List ℕ) (lines : List (List ℕ)) (csss later : List (List (List ReadCall)))
      (h h' : Headers) (result : Exec (Status × (Headers × Bool)))
      → is_key key ≡ true
      → all is_value key ≡ true
      → all is_value val ≡ true
      → length (header_line key val) < line_length
      → set_header err strtol strtoul key val h ≡ done h'
      → LinesDeliver csss (header_line key val ∷ lines)
      → ((more : List (List (List ReadCall)))
          → LinesDeliver more lines
          → parse_headers err strtol strtoul signed false (more ++ later) h' ≡ result)
      → parse_headers err strtol strtoul signed false (csss ++ later) h ≡ result
  header_step key val lines [] later h h' result k a v l e d next = cc
  header_step key val lines (css ∷ more) later h h' result k a v l e (d, ds) next =
      parse_headers-header err strtol strtoul signed key val css (more ++ later) h h' k a v l d e
      ∙ next more ds

  pub dot_step :
      (csss later : List (List (List ReadCall))) (h : Headers)
      → LinesDeliver csss (codes "." ∷ [])
      → parse_headers err strtol strtoul signed false (csss ++ later) h ≡ done (ok, (h, false))
  dot_step [] later h d = cc
  dot_step (css ∷ more) later h (d, ds) = parse_headers-dot css (more ++ later) h d

  -- If the channel's name, the transport and the printed period are below 1000 characters and
  -- hold no blank, ':', '=', '#', 0, newline, carriage return or 255, strtoul reads the period
  -- back, get_last is 0 or 1 and printed so, and the lines of the client's request arrive,
  -- then achd_parse_headers returns ACH_OK with exactly the fields of the request set, and the
  -- direction opposite to the client's.
  pub request-read :
      (print_ul print_int : ℕ → List ℕ) (chan transport : List ℕ) (period_ns get_last : ℕ)
      (direction : Direction) (csss later : List (List (List ReadCall))) (h : Headers)
      → all is_value chan ≡ true
      → length chan < 1000
      → all is_value transport ≡ true
      → length transport < 1000
      → all is_value (print_ul period_ns) ≡ true
      → length (print_ul period_ns) < 1000
      → strtoul (print_ul period_ns) ≡ some period_ns
      → ((get_last ≡ 0) × (print_int get_last ≡ codes "0"))
        ⊎ ((get_last ≡ 1) × (print_int get_last ≡ codes "1"))
      → LinesDeliver csss
          (request_lines print_ul print_int chan transport period_ns get_last direction)
      → parse_headers err strtol strtoul signed false (csss ++ later) h
        ≡ done (ok, (requested chan transport period_ns get_last direction h, false))
  unfolding request_lines
  request-read print_ul print_int chan transport period_ns get_last direction csss later h c lc t lt
        p lp r g d =
      header_step (codes "channel-name") chan _ csss later h _ _ refl refl c (omega arith)
        (take_chan chan h) d
        (λ more₁ d₁.
          header_step (codes "transport") transport _ more₁ later _ _ _ refl refl t (omega arith)
            (take_transport transport _) d₁
            (λ more₂ d₂.
              header_step (codes "period-ns") (print_ul period_ns) _ more₂ later _ _ _ refl refl p
                (omega arith) (take_period (print_ul period_ns) period_ns _ r) d₂
                (λ more₃ d₃.
                  header_step (codes "get-last") (print_int get_last) _ more₃ later _ _ _ refl refl
                    (digit_value g).0 (omega (arith, (digit_value g).1))
                    (take_last (print_int get_last) get_last _ g) d₃
                    (λ more₄ d₄.
                      header_step (codes "direction") (codes (asked_direction direction)) _ more₄
                        later _ _ _ refl refl (direction_value direction).0
                        (omega (arith, (direction_value direction).1)) (take_direction direction _)
                        d₄ (λ more₅ d₅. dot_step more₅ later _ d₅)))))
