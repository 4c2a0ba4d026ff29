-- ===== src/Achd/Options.antt =====
-- The command line of achd: `main` and `achd_posarg` of src/achd/achd.c, up to the call of
-- `achd_serve` or `achd_client`. What getopt finds is an argument, as is strtoul; the logs are left out.
pub mod Asked
use ach.Base.{
  ℕ, ◌+◌, ◌-◌, ◌%◌, ◌^◌, Bool, true, false, ◌||◌, Option, none, some, List, [], ◌∷◌, ◌==◌,
  if◌then◌else◌, Exec, done, stop, exits, out_of_bounds, ◌>>=◌, mul64,
}
use ach.Achd.Words.{codes, same_word}
use ach.Achd.Headers.{Direction, push, pull, Headers, no_headers}
use ach.Achd.Client.{default_frame_size, default_frame_count}

-- `enum achd_mode`
pub data Mode : Type 0 where
  mode_void mode_serve mode_push mode_pull : Mode

-- what getopt finds: the option's letter, and `optarg`
pub record Opt : Type 0 where
  pub letter : ℕ
  pub optarg : Option (List ℕ)

-- `struct achd_cx`, without what the transport keeps in it, and `ach_verbosity`. An `int` is a word of
-- 32 bits.
pub record Cx : Type 0 where
  pub cl_opts : Headers
  pub mode : Mode
  pub port : ℕ
  pub reconnect : Bool
  pub detach : Bool
  pub pidfile : Option (List ℕ)
  pub verbosity : ℕ

-- ACHD_PORT
abbrev pub achd_port : ℕ
achd_port = 8076

-- "set some defaults"
abbrev pub default_cx : (verbosity : ℕ) → Cx
default_cx verbosity = record {
  cl_opts = record no_headers {
    transport = some (codes "tcp");
    frame_size = default_frame_size;
    frame_count = default_frame_count;
  };
  mode = mode_void;
  port = achd_port;
  reconnect = false;
  detach = false;
  pidfile = none;
  verbosity = verbosity;
}

-- `strdup`, which reads its argument
abbrev pub strdup : Option (List ℕ) → Exec (List ℕ)
strdup none = stop out_of_bounds
strdup (some text) = done text

-- the mode, by its name
unfoldable pub set_mode : (arg : List ℕ) → Cx → Exec Cx
set_mode arg cx =
    if same_word arg (codes "serve")
    then done (record cx { mode = mode_serve })
    else if same_word arg (codes "push")
    then done (record cx { mode = mode_push; cl_opts = record cx.cl_opts { direction = push } })
    else if same_word arg (codes "pull")
    then done (record cx { mode = mode_pull; cl_opts = record cx.cl_opts { direction = pull } })
    else stop (exits 1)

unfoldable pub achd_posarg : (i : ℕ) → (arg : List ℕ) → Cx → Exec Cx
unfolding set_mode
achd_posarg i arg cx =
    if i == 0
    then set_mode arg cx
    else if i == 1
    then done (record cx { cl_opts = record cx.cl_opts { remote_host = some arg } })
    else if i == 2
    then done (record cx { cl_opts = record cx.cl_opts { chan_name = some arg } })
    else stop (exits 1)

-- the arguments that are no options
unfoldable pub posargs : (i : ℕ) → List (List ℕ) → Cx → Exec Cx
unfolding achd_posarg
posargs i [] cx = done cx
posargs i (arg ∷ args) cx = achd_posarg i arg cx >>= posargs (i + 1) args

-- the case 'f', and the end of the cases 'u' and 'l'
unfoldable pub set_pidfile : Option (List ℕ) → Cx → Exec Cx
set_pidfile optarg cx = strdup optarg >>= (λ text. done (record cx { pidfile = some text }))

-- the case 'l', and the end of the case 'u'
abbrev pub set_last : Option (List ℕ) → Cx → Exec Cx
set_last optarg cx = set_pidfile optarg (record cx { cl_opts = record cx.cl_opts { get_last = 1 } })

-- "Set some other default options"
unfoldable pub default_names : Cx → Cx
default_names cx = elim cx.cl_opts.chan_name [
  | none ↦ record cx { cl_opts = record cx.cl_opts { chan_name = cx.cl_opts.remote_chan_name } }
  | some name ↦ elim cx.cl_opts.remote_chan_name [
    | none ↦ record cx { cl_opts = record cx.cl_opts { remote_chan_name = some name } }
    | some remote ↦ cx
  ]
]

-- "dispatch based on mode"
pub data Dispatch : Type 0 where
  to_serve : Cx → Dispatch
  to_client : Cx → Dispatch

unfoldable pub dispatch : (tty_in tty_out : Bool) → Cx → Exec Dispatch
dispatch tty_in tty_out cx = elim cx.mode [
  | mode_serve ↦ if tty_in || tty_out then stop (exits 1) else done (to_serve cx)
  | _ ↦ done (to_client cx)
]

module _ (strtoul : List ℕ → Option ℕ) where
  -- a number of an option
  abbrev pub number_of : Option (List ℕ) → Exec ℕ
  number_of none = stop out_of_bounds
  number_of (some text) = elim (strtoul text) [ none ↦ stop (exits 1) | some n ↦ done n ]

  -- The switch on an option. getopt gives the letters of "dp:t:f:z:u:lqrvV?" only, so that the default
  -- is left out.
  unfoldable pub option : Opt → Cx → Exec Cx
  unfolding set_pidfile
  option o cx =
      if o.letter == b'z'
      then strdup o.optarg >>= (λ text.
        done (record cx { cl_opts = record cx.cl_opts { remote_chan_name = some text } }))
      else if o.letter == b'd'
      then done (record cx { detach = true })
      else if o.letter == b'p'
      then number_of o.optarg >>= (λ n. done (record cx { port = n % 2 ^ 32 }))
      else if o.letter == b'u'
      then number_of o.optarg >>= (λ n.
        set_last o.optarg (record cx { cl_opts = record cx.cl_opts { period_ns = mul64 1000 n } }))
      else if o.letter == b'l'
      then set_last o.optarg cx
      else if o.letter == b'f'
      then set_pidfile o.optarg cx
      else if o.letter == b'r'
      then done (record cx { reconnect = true })
      else if o.letter == b't'
      then strdup o.optarg
        >>= (λ text. done (record cx { cl_opts = record cx.cl_opts { transport = some text } }))
      else if o.letter == b'q'
      then done (record cx { verbosity = (cx.verbosity + (2 ^ 32 - 1)) % 2 ^ 32 })
      else if o.letter == b'v'
      then done (record cx { verbosity = (cx.verbosity + 1) % 2 ^ 32 })
      else stop (exits 0)

  -- the loop with getopt
  unfoldable pub options : List Opt → Cx → Exec Cx
  unfolding option
  options [] cx = done cx
  options (o ∷ os) cx = option o cx >>= options os

  -- `main`, for what getopt finds and the arguments after it
  unfoldable pub achd_main :
      (verbosity : ℕ) → (tty_in tty_out : Bool) → List Opt → (args : List (List ℕ)) → Exec Dispatch
  achd_main verbosity tty_in tty_out os args =
      options os (default_cx verbosity)
      >>= (λ cx. posargs 0 args cx)
      >>= (λ cx. dispatch tty_in tty_out (default_names cx))
