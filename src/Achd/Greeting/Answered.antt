-- ===== src/Achd/Greeting/Answered.antt =====
-- The answer of a server in src/achd/achd.c, as a client reads it.
use ach.Base.{
  ℕ, ◌/◌, ◌%◌, ◌^◌, ◌<◌, ◌≡◌, refl, ap, ◌∙◌, Bool, true, false, Option, none, some, List, [], ◌∷◌,
  ◌++◌, length, Exec, done, stop, Stop, ◌>>=◌, arith,
}
use ach.Shm.{Status, ok, bad_header, Shm}
use ach.Achd.Io.{ReadCall}
use ach.Achd.Words.{codes, all}
use ach.Achd.Headers.{
  Headers, parse_headers, set_header, set_int, set_status, take_header, is_dot, match_line,
}
use ach.Achd.Headers.Lines.{is_value, after_line, parse_headers-line}
use ach.Achd.Greeting.{reply_lines}
use ach.Achd.Greeting.Asked.{LinesDeliver, header_step, dot_step}

module _ (err : Status → Stop) (strtol strtoul : List ℕ → Option ℕ) (signed : Bool) where
  set_int-of :
      (val : List ℕ) (n : ℕ)
      → n < 2 ^ 32
      → strtol val ≡ some n
      → set_int err strtol strtoul val ≡ done n
  unfolding set_int
  set_int-of val n l e = rw (set_int, e) (ap done (omega arith))

  take_count :
      (val : List ℕ) (n : ℕ) (h : Headers)
      → n < 2 ^ 32
      → strtol val ≡ some n
      → set_header err strtol strtoul (codes "frame-count") val h
        ≡ done (record h { frame_count = n })
  unfolding set_header set_int
  take_count val n h l e =
      ap (λ x. x >>= (λ i. done (record h { frame_count = i }))) (set_int-of val n l e)

  take_size :
      (val : List ℕ) (n : ℕ) (h : Headers)
      → n < 2 ^ 32
      → strtol val ≡ some n
      → set_header err strtol strtoul (codes "frame-size") val h
        ≡ done (record h { frame_size = n })
  unfolding set_header set_int
  take_size val n h l e =
      ap (λ x. x >>= (λ i. done (record h { frame_size = i }))) (set_int-of val n l e)

  after_status :
      (more : List (List (List ReadCall))) (h : Headers)
      → strtol (codes "0 ") ≡ some 0
      → after_line err strtol strtoul signed (codes "status: 0 # ACH_OK") more h
        ≡ parse_headers err strtol strtoul signed false more (record h { status = 0 })
  unfolding is_dot match_line take_header set_header set_status
  after_status more h e =
      ap
        (λ o.
          (elim o [ none ↦ stop (err bad_header) | some i ↦ done (i % 2 ^ 32) ])
          >>= (λ i. done (record h { status = i }))
          >>= (λ h'. parse_headers err strtol strtoul signed false more h'))
        e

  status_step :
      (lines : List (List ℕ)) (csss later : List (List (List ReadCall))) (h : Headers)
      (result : Exec (Status × (Headers × Bool)))
      → strtol (codes "0 ") ≡ some 0
      → LinesDeliver csss (codes "status: 0 # ACH_OK" ∷ lines)
      → ((more : List (List (List ReadCall)))
          → LinesDeliver more lines
          → parse_headers err strtol strtoul signed false (more ++ later) (record h { status = 0 })
            ≡ result)
      → parse_headers err strtol strtoul signed false (csss ++ later) h ≡ result
  status_step lines [] later h result e d next = cc
  status_step lines (css ∷ more) later h result e (d, ds) next =
      parse_headers-line err strtol strtoul signed (codes "status: 0 # ACH_OK") css (more ++ later)
        h refl (omega arith) d
      ∙ after_status (more ++ later) h e
      ∙ next more ds

  -- `strtol` reads back how an `int` is printed.
  abbrev pub Readable : (print_size : ℕ → List ℕ) → ℕ → Type 0
  Readable print_size n =
      (n < 2 ^ 31)
      × (all is_value (print_size n) ≡ true)
      × (length (print_size n) < 1000)
      × (strtol (print_size n) ≡ some n)

  -- If strtol reads back how the frame count and the frame size are printed (both below 2^31),
  -- reads "0 " as 0, and the lines of the server's answer arrive, then achd_parse_headers
  -- returns ACH_OK with the channel's index count, its data size divided by it, and the status
  -- ACH_OK.
  pub reply-read :
      (print_size : ℕ → List ℕ) (shm : Shm) (csss later : List (List (List ReadCall))) (h : Headers)
      → Readable print_size shm.index_cnt
      → Readable print_size (shm.data_size / shm.index_cnt)
      → strtol (codes "0 ") ≡ some 0
      → LinesDeliver csss (reply_lines print_size shm)
      → parse_headers err strtol strtoul signed false (csss ++ later) h
        ≡ done (
          ok,
          (
            record h {
              frame_count = shm.index_cnt;
              frame_size = shm.data_size / shm.index_cnt;
              status = 0;
            },
            false,
          ),
        )
  unfolding reply_lines
  reply-read print_size shm csss later h c s zero_read d =
      let (cm, cv, cl, cr) = c in
      let (sm, sv, sl, sr) = s in
      header_step err strtol strtoul signed (codes "frame-count") (print_size shm.index_cnt) _ csss
        later h _ _ refl refl cv (omega arith) (take_count _ _ h (omega arith) cr) d
        (λ more₁ d₁.
          header_step err strtol strtoul signed (codes "frame-size")
            (print_size (shm.data_size / shm.index_cnt)) _ more₁ later _ _ _ refl refl sv
            (omega arith) (take_size _ _ _ (omega arith) sr) d₁
            (λ more₂ d₂.
              status_step _ more₂ later _ _ zero_read d₂
                (λ more₃ d₃. dot_step err strtol strtoul signed more₃ later _ d₃)))
