-- ===== src/Achpipe/Options/Valid.antt =====
-- What `main` of src/achpipe-bin.c starts, whatever its command line.
use ach.Base.{
  ℕ, ◌<◌, ◌-◌, ◌≡◌, refl, Bool, true, false, not, ◌&&◌, ◌||◌, Option, none, some, List, [], ◌∷◌,
  length, ltb, ◌==◌, if◌then◌else◌, Exec, done, stop, ◌>>=◌, ◌>>◌, assert, arith, Bool-cases, inl,
  inr, ltb→lt,
}
use ach.Name.{chan_name_max}
use ach.Achpipe.Options.{
  Freq, freq_negative, freq_zero, freq_positive, freq_nan, PipeOpts, no_opts, checked_name,
  more_verbose, freq_of, PipeRun, run_publish, run_subscribe, is_nonzero, is_above_zero,
  not_negative, validate, run_pipe, pipe_option, pipe_options, pipe_main,
}

-- A name of a channel that is long enough and not too long.
abbrev pub IsName : List ℕ → Type 0
IsName name = (0 < length name) × (length name < chan_name_max - 1)

-- What is started: a publisher, or a subscriber whose options the assert in its loop allows.
abbrev pub IsValidRun : Exec PipeRun → Type 0
IsValidRun (stop e) = Unit {0}
IsValidRun (done (run_publish name)) = IsName name
IsValidRun (done (run_subscribe name o)) = IsName name × ((not o.is_freq || not o.sync) ≡ true)

abbrev Short : Exec PipeOpts → Type 0
Short (stop e) = Unit {0}
Short (done o) = length o.chan_name < chan_name_max - 1

abbrev ShortName : Exec (List ℕ) → Type 0
ShortName (stop e) = Unit {0}
ShortName (done name) = length name < chan_name_max - 1

checked_name-Short : (optarg : Option (List ℕ)) → ShortName (checked_name optarg)
unfolding checked_name
checked_name-Short none = tt
checked_name-Short (some name) = elim (Bool-cases (ltb (length name) (chan_name_max - 1))) [
  | inl e ↦ rw (e) (ltb→lt (length name) (chan_name_max - 1) e)
  | inr e ↦ rw (e) tt
]

named :
    (r : Exec (List ℕ)) (set_it : List ℕ → PipeOpts)
    → ((name : List ℕ) → (set_it name).chan_name ≡ name)
    → ShortName r
    → Short (r >>= (λ name. done (set_it name)))
named (stop e) set_it same h = tt
named (done name) set_it same h = rw (same name) h

kept :
    {A : Type 0} (r : Exec A) (set_it : A → PipeOpts) (o : PipeOpts)
    → ((a : A) → (set_it a).chan_name ≡ o.chan_name)
    → length o.chan_name < chan_name_max - 1
    → Short (r >>= (λ a. done (set_it a)))
kept (stop e) set_it o same h = tt
kept (done a) set_it o same h = rw (same a) h

by_test : (b : Bool) (x y : Exec PipeOpts) → Short x → Short y → Short (if b then x else y)
by_test true x y h k = h
by_test false x y h k = k

after_checks : (m : Exec (Unit {0})) (r : PipeRun) → IsValidRun (done r) → IsValidRun (m >> done r)
after_checks (stop e) r h = tt
after_checks (done x) r h = h

validated :
    (o : PipeOpts) → length o.chan_name < chan_name_max - 1 → IsValidRun (validate o >> run_pipe o)
unfolding validate run_pipe
validated o h = elim (Bool-cases (ltb 0 (length o.chan_name))) [
  | inr e ↦ rw (e) tt
  | inl e ↦ rw (e) (by_modes o.is_pub o.is_sub o.sync o.freq (ltb→lt 0 (length o.chan_name) e, h))
]
  where
    by_modes :
        (is_pub is_sub sync : Bool) (freq : Freq)
        → IsName o.chan_name
        → IsValidRun (
            assert (not (is_pub && is_sub))
            >> (assert (is_pub || is_sub)
                >> (assert (not (is_nonzero freq) || (not sync && is_sub))
                    >> assert (not_negative freq)))
            >> (if is_pub
                then done (run_publish o.chan_name)
                else if is_sub
                then done (
                    run_subscribe o.chan_name
                      (record { sync = sync; last = o.last; is_freq = is_above_zero freq }))
                else assert false >> done (run_publish o.chan_name)))
    by_modes true true sync freq n = tt
    by_modes false false sync freq n = tt
    by_modes true false sync freq n = after_checks _ (run_publish o.chan_name) n
    by_modes false true true freq_positive n = tt
    by_modes false true false freq_positive n = (n, refl)
    by_modes false true true freq_negative n = tt
    by_modes false true false freq_negative n = tt
    by_modes false true sync freq_zero n = (n, refl)
    by_modes false true sync freq_nan n = tt

module _ (atof : List ℕ → Freq) where
  pipe_option-Short :
      (letter : ℕ) (optarg : Option (List ℕ)) (o : PipeOpts)
      → length o.chan_name < chan_name_max - 1
      → Short (pipe_option atof letter optarg o)
  unfolding pipe_option
  pipe_option-Short letter optarg o h =
      by_test (letter == b'p') _ _
        (named (checked_name optarg) (λ name. record o { is_pub = true; chan_name = name })
          (λ name. refl) (checked_name-Short optarg))
        (by_test (letter == b's') _ _
          (named (checked_name optarg) (λ name. record o { is_sub = true; chan_name = name })
            (λ name. refl) (checked_name-Short optarg))
          (by_test (letter == b'z') _ _
            (kept (checked_name optarg)
              (λ name. more_verbose (record o { remote_chan_name = name })) o (λ name. refl) h)
            (by_test (letter == b'v') _ _ h (
              by_test (letter == b'l') _ _ h (
                by_test (letter == b'c') _ _ h (
                  by_test (letter == b'f') _ _
                    (kept (freq_of atof optarg) (λ x. record o { freq = x }) o (λ x. refl) h)
                    tt))))))

  pipe_options-Short :
      (os : List (ℕ × Option (List ℕ))) (o : PipeOpts)
      → length o.chan_name < chan_name_max - 1
      → Short (pipe_options atof os o)
  unfolding pipe_options
  pipe_options-Short [] o h = h
  pipe_options-Short ((letter, optarg) ∷ os) o h =
      then_options (pipe_option atof letter optarg o) (pipe_option-Short letter optarg o h)
        (λ o' h'. pipe_options-Short os o' h')
    where
      then_options :
          (r : Exec PipeOpts)
          → Short r
          → ((o' : PipeOpts)
              → length o'.chan_name < chan_name_max - 1
              → Short (pipe_options atof os o'))
          → Short (r >>= pipe_options atof os)
      then_options (stop e) h next = tt
      then_options (done o') h next = next o' h

  -- Whatever its options are, main of achpipe starts a publisher or a subscriber only with a
  -- channel name that is not empty and shorter than 63 bytes, and a subscriber only with
  -- options for which the assert in its loop holds: no frequency in synchronous mode.
  pub pipe_main-Valid : (os : List (ℕ × Option (List ℕ))) → IsValidRun (pipe_main atof os)
  unfolding pipe_main
  pipe_main-Valid os =
      by_options (pipe_options atof os no_opts) (pipe_options-Short os no_opts (omega arith))
    where
      by_options :
          (r : Exec PipeOpts) → Short r → IsValidRun (r >>= (λ o. validate o >> run_pipe o))
      by_options (stop e) h = tt
      by_options (done o) h = validated o h
