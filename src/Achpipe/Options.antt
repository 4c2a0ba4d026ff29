-- ===== src/Achpipe/Options.antt =====
-- The command line of src/achpipe-bin.c: `main` up to the call of publish or subscribe. What getopt
-- finds is an argument, as is atof.
pub mod Valid
use ach.Base.{
  ℕ, ◌+◌, ◌-◌, ◌%◌, ◌^◌, Bool, true, false, not, ◌&&◌, ◌||◌, Option, none, some, List, [], ◌∷◌,
  length, ltb, ◌==◌, if◌then◌else◌, Exec, done, stop, exits, out_of_bounds, ◌>>=◌, ◌>>◌, assert,
}
use ach.Name.{chan_name_max}
use ach.Achpipe.Subscribe.{SubOpts}

-- what `main` asks of a `double`
pub data Freq : Type 0 where
  freq_negative freq_zero freq_positive freq_nan : Freq

-- the globals of the options; the names are without the zeros after them
pub record PipeOpts : Type 0 where
  pub chan_name : List ℕ
  pub remote_chan_name : List ℕ
  pub is_pub : Bool
  pub is_sub : Bool
  pub verbosity : ℕ
  pub last : Bool
  pub sync : Bool
  pub freq : Freq

abbrev pub no_opts : PipeOpts
no_opts = record {
  chan_name = [];
  remote_chan_name = [];
  is_pub = false;
  is_sub = false;
  verbosity = 0;
  last = false;
  sync = false;
  freq = freq_zero;
}

-- A name that is not too long; `hard_assert` ends the program as an assert does.
unfoldable pub checked_name : (optarg : Option (List ℕ)) → Exec (List ℕ)
checked_name none = stop out_of_bounds
checked_name (some name) = assert (ltb (length name) (chan_name_max - 1)) >> done name

-- the case 'v', and the end of the case 'z'
abbrev pub more_verbose : PipeOpts → PipeOpts
more_verbose o = record o { verbosity = (o.verbosity + 1) % 2 ^ 32 }

-- the number of the case 'f'
abbrev pub freq_of : (atof : List ℕ → Freq) → (optarg : Option (List ℕ)) → Exec Freq
freq_of atof none = stop out_of_bounds
freq_of atof (some text) = done (atof text)

-- what `main` calls
pub data PipeRun : Type 0 where
  run_publish : (name : List ℕ) → PipeRun
  run_subscribe : (name : List ℕ) → SubOpts → PipeRun

abbrev pub is_nonzero : Freq → Bool
is_nonzero freq_negative = true
is_nonzero freq_positive = true
is_nonzero _ = false

abbrev pub is_above_zero : Freq → Bool
is_above_zero freq_positive = true
is_above_zero _ = false

-- `opt_freq >= 0`
abbrev pub not_negative : Freq → Bool
not_negative freq_zero = true
not_negative freq_positive = true
not_negative _ = false

-- "validate arguments"
unfoldable pub validate : PipeOpts → Exec (Unit {0})
validate o =
    assert (ltb 0 (length o.chan_name))
    >> (assert (not (o.is_pub && o.is_sub))
        >> (assert (o.is_pub || o.is_sub)
            >> (assert (not (is_nonzero o.freq) || (not o.sync && o.is_sub))
                >> assert (not_negative o.freq))))

-- "run"
unfoldable pub run_pipe : PipeOpts → Exec PipeRun
run_pipe o =
    if o.is_pub
    then done (run_publish o.chan_name)
    else if o.is_sub
    then done (
        run_subscribe o.chan_name
          (record { sync = o.sync; last = o.last; is_freq = is_above_zero o.freq }))
    else assert false >> done (run_publish o.chan_name)

module _ (atof : List ℕ → Freq) where
  -- the switch on an option
  unfoldable pub pipe_option : (letter : ℕ) → (optarg : Option (List ℕ)) → PipeOpts → Exec PipeOpts
  unfolding checked_name
  pipe_option letter optarg o =
      if letter == b'p'
      then checked_name optarg >>= (λ name. done (record o { is_pub = true; chan_name = name }))
      else if letter == b's'
      then checked_name optarg >>= (λ name. done (record o { is_sub = true; chan_name = name }))
      else if letter == b'z'
      then checked_name optarg
        >>= (λ name. done (more_verbose (record o { remote_chan_name = name })))
      else if letter == b'v'
      then done (more_verbose o)
      else if letter == b'l'
      then done (record o { last = true })
      else if letter == b'c'
      then done (record o { sync = true })
      else if letter == b'f'
      then freq_of atof optarg >>= (λ x. done (record o { freq = x }))
      else stop (exits 0)

  -- the loop with getopt
  unfoldable pub pipe_options : List (ℕ × Option (List ℕ)) → PipeOpts → Exec PipeOpts
  unfolding pipe_option
  pipe_options [] o = done o
  pipe_options ((letter, optarg) ∷ os) o = pipe_option letter optarg o >>= pipe_options os

  unfoldable pub pipe_main : List (ℕ × Option (List ℕ)) → Exec PipeRun
  unfolding pipe_options validate run_pipe
  pipe_main os = pipe_options os no_opts >>= (λ o. validate o >> run_pipe o)
