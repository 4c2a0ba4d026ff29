-- ===== src/Achd/Options/Asked.antt =====
-- From the command line of src/achd/achd.c to a server: what `achd push` and `achd pull` ask for.
use ach.Base.{
  ℕ, ◌≡◌, refl, ap, Bool, true, false, Option, none, some, List, [], ◌∷◌, ◌++◌, done, stop, exits,
  ◌>>=◌, mul64,
}
use ach.Achd.Words.{codes}
use ach.Achd.Headers.{Direction, push, pull}
use ach.Achd.Options.{
  Mode, mode_push, mode_pull, Opt, Cx, default_cx, set_last, set_mode, achd_posarg, posargs,
  set_pidfile, default_names, to_client, dispatch, option, options, achd_main,
}

-- What a user asks for: the direction, the host, the channel, its name on the host if that is another
-- one, and a period in microseconds, as its text and the number that strtoul reads.
pub record Order : Type 0 where
  pub pushes : Bool
  pub host : List ℕ
  pub chan : List ℕ
  pub remote : Option (List ℕ)
  pub period : Option (List ℕ × ℕ)

abbrev pub direction_of : Bool → Direction
direction_of true = push
direction_of false = pull

abbrev mode_of : Bool → Mode
mode_of true = mode_push
mode_of false = mode_pull

abbrev word_of : Bool → List ℕ
word_of true = codes "push"
word_of false = codes "pull"

-- the options "-z" and "-u", where they are needed
abbrev remote_opts : Option (List ℕ) → List Opt
remote_opts none = []
remote_opts (some name) = record { letter = b'z'; optarg = some name } ∷ []

abbrev period_opts : Option (List ℕ × ℕ) → List Opt
period_opts none = []
period_opts (some (text, us)) = record { letter = b'u'; optarg = some text } ∷ []

abbrev pub opts_of : Order → List Opt
opts_of o = remote_opts o.remote ++ period_opts o.period

-- the arguments after the options
abbrev pub args_of : Order → List (List ℕ)
args_of o = word_of o.pushes ∷ o.host ∷ o.chan ∷ []

abbrev pub remote_of : Order → List ℕ
remote_of o = elim o.remote [ none ↦ o.chan | some name ↦ name ]

abbrev pub period_of : Order → ℕ
period_of o = elim o.period [ none ↦ 0 | some p ↦ mul64 1000 p.1 ]

abbrev pub last_of : Order → ℕ
last_of o = elim o.period [ none ↦ 0 | some p ↦ 1 ]

-- the pid file, which "-u" sets to the period's text
abbrev pub pidfile_of : Order → Option (List ℕ)
pidfile_of o = elim o.period [ none ↦ none | some p ↦ some p.0 ]

-- the context of achd for it
abbrev pub cx_of : (verbosity : ℕ) → Order → Cx
cx_of verbosity o = record (default_cx verbosity) {
  cl_opts = record (default_cx verbosity).cl_opts {
    chan_name = some o.chan;
    remote_chan_name = some (remote_of o);
    remote_host = some o.host;
    direction = direction_of o.pushes;
    period_ns = period_of o;
    get_last = last_of o;
  };
  mode = mode_of o.pushes;
  pidfile = pidfile_of o;
}

abbrev pub IsRead : (List ℕ → Option ℕ) → Option (List ℕ × ℕ) → Type 0
IsRead strtoul none = Unit {0}
IsRead strtoul (some (text, us)) = strtoul text ≡ some us

-- the options before the names
abbrev after_opts : (remote : Option (List ℕ)) → (period : Option (List ℕ × ℕ)) → Cx → Cx
after_opts remote none cx = record cx { cl_opts = record cx.cl_opts { remote_chan_name = remote } }
after_opts remote (some (text, us)) cx = record cx {
  cl_opts = record cx.cl_opts {
    remote_chan_name = remote;
    period_ns = mul64 1000 us;
    get_last = 1;
  };
  pidfile = some text;
}

option-u :
    (strtoul : List ℕ → Option ℕ) (text : List ℕ) (us : ℕ) (cx : Cx)
    → strtoul text ≡ some us
    → option strtoul (record { letter = b'u'; optarg = some text }) cx
      ≡ done (record cx {
        cl_opts = record cx.cl_opts { period_ns = mul64 1000 us; get_last = 1 };
        pidfile = some text;
      })
unfolding option set_pidfile
option-u strtoul text us cx e =
    ap
      (λ (x : Option ℕ). (elim x [ none ↦ stop (exits 1) | some n ↦ done n ]) >>= (λ n.
        set_last (some text)
          (record cx { cl_opts = record cx.cl_opts { period_ns = mul64 1000 n } })))
      e

options-after :
    (strtoul : List ℕ → Option ℕ) (verbosity : ℕ) (remote : Option (List ℕ))
    (period : Option (List ℕ × ℕ))
    → IsRead strtoul period
    → options strtoul (remote_opts remote ++ period_opts period) (default_cx verbosity)
      ≡ done (after_opts remote period (default_cx verbosity))
unfolding options option
options-after strtoul v none none e = refl
options-after strtoul v (some r) none e = refl
options-after strtoul v none (some (text, us)) e = rw (option-u strtoul text us (default_cx v) e)
options-after strtoul v (some r) (some (text, us)) e = rw (
    option-u strtoul text us
      (record (default_cx v) {
        cl_opts = record (default_cx v).cl_opts { remote_chan_name = some r };
      })
      e)

-- the names after the options
names-after :
    (verbosity : ℕ) (tty_in tty_out : Bool) (pushes : Bool) (host chan : List ℕ)
    (remote : Option (List ℕ)) (period : Option (List ℕ × ℕ))
    → (posargs 0
          (word_of pushes ∷ host ∷ chan ∷ [])
          (after_opts remote period (default_cx verbosity))
        >>= (λ cx. dispatch tty_in tty_out (default_names cx)))
      ≡ done (
          to_client (
            cx_of verbosity (record {
              pushes = pushes;
              host = host;
              chan = chan;
              remote = remote;
              period = period;
            })))
unfolding posargs achd_posarg set_mode default_names dispatch
names-after v ti to true host chan none none = refl
names-after v ti to false host chan none none = refl
names-after v ti to true host chan (some r) none = refl
names-after v ti to false host chan (some r) none = refl
names-after v ti to true host chan none (some p) = refl
names-after v ti to false host chan none (some p) = refl
names-after v ti to true host chan (some r) (some p) = refl
names-after v ti to false host chan (some r) (some p) = refl

-- For push or pull with a host, a channel, and where given another name on the host (-z) and a
-- period in microseconds (-u, whose text strtoul reads), achd_main goes on to the client with
-- this direction, host and channel, the remote name (the channel's own if none is given), the
-- period in nanoseconds modulo 2^64, get_last set exactly when there is a period, and a pid file
-- that is the period's text.
pub achd_main-asked :
    (strtoul : List ℕ → Option ℕ) (verbosity : ℕ) (tty_in tty_out : Bool) (o : Order)
    → IsRead strtoul o.period
    → achd_main strtoul verbosity tty_in tty_out (opts_of o) (args_of o)
      ≡ done (to_client (cx_of verbosity o))
unfolding achd_main
achd_main-asked strtoul v ti to o e =
    rw (achd_main, options-after strtoul v o.remote o.period e)
      (names-after v ti to o.pushes o.host o.chan o.remote o.period)
