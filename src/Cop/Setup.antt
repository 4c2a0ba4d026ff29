-- ===== src/Cop/Setup.antt =====
-- What `main` of src/achcop.c does before it runs a child: its options, its files and their locks, and
-- the process number that it writes; and the numbers of the children that it writes while it runs. What getopt finds and what the system's calls return is an
-- argument; what is logged is left out, as are the environment and ach_pid_notify.
pub mod Locked
pub mod Started
use ach.Base.{
  ℕ, ◌+◌, ◌%◌, ◌^◌, Bool, true, false, not, ◌||◌, Option, none, some, List, [], ◌∷◌, ◌++◌, map,
  length, take, drop, ltb, leb, ◌==◌, if◌then◌else◌, Exec, done, stop, exits, blocked,
  out_of_bounds, ◌>>=◌,
}
use ach.Achd.Words.{codes, same_word}
use ach.Achd.Transport.{same_bytes}

-- LOG_USER and LOG_DAEMON
pub data Facility : Type 0 where
  log_user log_daemon : Facility

-- `opt`, with `ach_verbosity`; `child_args` before the NULL at its end
pub record CopOpts : Type 0 where
  pub file_cop_pid : Option (List ℕ)
  pub file_child_pid : Option (List ℕ)
  pub file_stderr : Option (List ℕ)
  pub file_stdout : Option (List ℕ)
  pub child_args : List (List ℕ)
  pub log_ident : Option (List ℕ)
  pub log_facility : Facility
  pub detach : Bool
  pub restart : Bool
  pub verbosity : ℕ

-- "Some default arguments"
abbrev pub default_opts : (verbosity : ℕ) → CopOpts
default_opts verbosity = record {
  file_cop_pid = none;
  file_child_pid = none;
  file_stderr = none;
  file_stdout = none;
  child_args = [];
  log_ident = some (codes "achcop");
  log_facility = log_user;
  detach = false;
  restart = false;
  verbosity = verbosity;
}

-- the case 'f'
unfoldable pub set_facility : (optarg : Option (List ℕ)) → CopOpts → Exec CopOpts
set_facility none o = stop out_of_bounds
set_facility (some text) o =
    if same_word (codes "user") text
    then done (record o { log_facility = log_user })
    else if same_word (codes "daemon") text || same_word (codes "demon") text
    then done (record o { log_facility = log_daemon })
    else stop (exits 1)

-- The switch on an option. getopt gives the letters of "P:p:o:e:rvdhi:f:H?V" only, so that the default
-- is left out.
unfoldable pub cop_option : (letter : ℕ) → (optarg : Option (List ℕ)) → CopOpts → Exec CopOpts
unfolding set_facility
cop_option letter optarg o =
    if letter == b'P'
    then done (record o { file_cop_pid = optarg })
    else if letter == b'p'
    then done (record o { file_child_pid = optarg })
    else if letter == b'o'
    then done (record o { file_stdout = optarg })
    else if letter == b'e'
    then done (record o { file_stderr = optarg })
    else if letter == b'd'
    then done (record o { detach = true })
    else if letter == b'r'
    then done (record o { restart = true })
    else if letter == b'i'
    then done (record o { log_ident = optarg })
    else if letter == b'f'
    then set_facility optarg o
    else if letter == b'v'
    then done (record o { verbosity = (o.verbosity + 1) % 2 ^ 32 })
    else stop (exits 0)

unfoldable pub cop_options : List (ℕ × Option (List ℕ)) → CopOpts → Exec CopOpts
unfolding cop_option
cop_options [] o = done o
cop_options ((letter, optarg) ∷ os) o = cop_option letter optarg o >>= cop_options os

-- the arguments after the options, as `child_arg` collects them
abbrev pub child_args : List (List ℕ) → CopOpts → CopOpts
child_args args o = record o { child_args = o.child_args ++ args }

-- what is done to files and descriptors
pub data FileAction : Type 0 where
  opened : (fd : ℕ) → (name : List ℕ) → (append : Bool) → FileAction
  detached : FileAction
  locked : (fd : ℕ) → FileAction
  truncated : (fd : ℕ) → FileAction
  wrote : (fd : ℕ) → (bytes : List ℕ) → FileAction
  duplicated : (from to : ℕ) → FileAction
  closed : (fd : ℕ) → FileAction

-- a call of `write`: how many bytes it takes, at least one, EINTR, or another failure
pub data PidWrite : Type 0 where
  wrote_bytes : (n : ℕ) → PidWrite
  write_interrupted : PidWrite
  write_failed : PidWrite

-- What the calls do: `open_fd` gives a descriptor or fails, and so on. Names of one file have one
-- descriptor here, which stands for the file: it is the file that lockf locks, and a close of any
-- descriptor of it that ends the lock.
pub record Files : Type 0 where
  pub open_fd : List ℕ → Option ℕ
  pub lockf : (fd : ℕ) → Bool
  pub ftruncate : (fd : ℕ) → Bool
  pub pid : List ℕ
  pub writes : List PidWrite

-- a part of `main`, with its actions
pub record Part {ℓ} (A : Type ℓ) : Type ℓ where
  pub actions : List FileAction
  pub end : Exec A

abbrev pub part {ℓ} : {A : Type ℓ} → List FileAction → Exec A → Part A
part actions end = record { actions = actions; end = end }

abbrev pub after_actions {ℓ} : {A : Type ℓ} → List FileAction → Part A → Part A
after_actions as_ p = record { actions = as_ ++ p.actions; end = p.end }

-- one part after the other
abbrev pub and_then {ℓ κ} : {A : Type ℓ} {B : Type κ} → Part A → (A → Part B) → Part B
and_then p next = elim p.end [
  | stop e ↦ part p.actions (stop e)
  | done a ↦ after_actions p.actions (next a)
]

-- `open_file`: the descriptor, or none for -1
unfoldable pub open_named : Files → Option (List ℕ) → (append : Bool) → Part (Option ℕ)
open_named f none append = part [] (done none)
open_named f (some name) append = elim (f.open_fd name) [
  | none ↦ part [] (stop (exits 1))
  | some fd ↦ part (opened fd name append ∷ []) (done (some fd))
]

-- FILE_NOP_NAME
abbrev pub nop_name : List ℕ
nop_name = codes "-"

unfoldable pub open_out_file : Files → Option (List ℕ) → Part (Option ℕ)
unfolding open_named
open_out_file f none = part [] (done none)
open_out_file f (some name) =
    if same_bytes nop_name name then part [] (done none) else open_named f (some name) true

unfoldable pub lock_pid : Files → Option ℕ → Part (Unit {0})
lock_pid f none = part [] (done tt)
lock_pid f (some fd) =
    if f.lockf fd then part (locked fd ∷ []) (done tt) else part [] (stop (exits 1))

-- The loop of `write_pid`, with the text from byte `n` on.
unfoldable pub write_loop : (fd : ℕ) → (text : List ℕ) → List PidWrite → Part (Unit {0})
write_loop fd [] calls = part [] (done tt)
write_loop fd (c ∷ cs) [] = part [] (stop blocked)
write_loop fd (c ∷ cs) (wrote_bytes n ∷ calls) =
    after_actions (wrote fd (take n (c ∷ cs)) ∷ []) (write_loop fd (drop n (c ∷ cs)) calls)
write_loop fd (c ∷ cs) (write_interrupted ∷ calls) = write_loop fd (c ∷ cs) calls
write_loop fd (c ∷ cs) (write_failed ∷ calls) = part [] (done tt)

-- `write_pid`, of a number whose text is `f.pid`
unfoldable pub write_pid : Files → Option ℕ → Part (Unit {0})
unfolding write_loop
write_pid f none = part [] (done tt)
write_pid f (some fd) =
    if not (f.ftruncate fd)
    then part [] (stop (exits 1))
    else after_actions (truncated fd ∷ [])
        (if leb 32 (length f.pid) then part [] (done tt) else write_loop fd f.pid f.writes)

unfoldable pub redirect : Option (List ℕ) → (old : Option ℕ) → (new : ℕ) → Part (Unit {0})
redirect none old new = part (closed new ∷ []) (done tt)
redirect (some name) none new = part [] (done tt)
redirect (some name) (some old) new =
    if same_bytes name nop_name
    then part [] (done tt)
    else part (duplicated old new ∷ closed old ∷ []) (done tt)

-- What `run` is called with: `child_args` ends with NULL.
pub record RunArgs : Type 0 where
  pub restart : Bool
  pub fd_child_pid : Option ℕ
  pub args : List (Option (List ℕ))

-- from "Lock PID files" on
unfoldable pub prepare :
    Files → CopOpts → (fd_cop_pid fd_child_pid fd_out fd_err : Option ℕ) → Part RunArgs
unfolding lock_pid write_pid redirect
prepare f o fd_cop_pid fd_child_pid fd_out fd_err = and_then (lock_pid f fd_cop_pid) (λ _.
    and_then (lock_pid f fd_child_pid) (λ _. and_then (write_pid f fd_cop_pid) (λ _.
      and_then (redirect o.file_stdout fd_out 1) (λ _.
        and_then (redirect o.file_stderr fd_err 2) (λ _. part [] (
          done (record {
            restart = o.restart;
            fd_child_pid = fd_child_pid;
            args = map some o.child_args ++ (none ∷ []);
          })))))))

-- from "open PID files" on
unfoldable pub setup : Files → CopOpts → Part RunArgs
unfolding open_named open_out_file prepare
setup f o = and_then (open_named f o.file_cop_pid false) (λ fd_cop_pid.
    and_then (open_named f o.file_child_pid false) (λ fd_child_pid.
      and_then (open_out_file f o.file_stdout) (λ fd_out.
        and_then (open_out_file f o.file_stderr) (λ fd_err.
          after_actions (if o.detach then detached ∷ [] else [])
            (prepare f o fd_cop_pid fd_child_pid fd_out fd_err)))))

-- "Check args", once the options are known
abbrev pub checked_setup : Files → (args : List (List ℕ)) → Exec CopOpts → Part RunArgs
checked_setup f args (stop e) = part [] (stop e)
checked_setup f args (done o) =
    if length (child_args args o).child_args == 0
    then part [] (stop (exits 1))
    else setup f (child_args args o)

-- `main` of src/achcop.c, up to the call of `run`
unfoldable pub cop_main :
    Files → (verbosity : ℕ) → List (ℕ × Option (List ℕ)) → (args : List (List ℕ)) → Part RunArgs
unfolding cop_options setup
cop_main f verbosity os args = checked_setup f args (cop_options os (default_opts verbosity))

-- `start_child` in the parent, as far as files go, once for each child that `run` starts
unfoldable pub record_children : (fd_child_pid : Option ℕ) → List Files → Part (Unit {0})
unfolding write_pid
record_children fd_child_pid [] = part [] (done tt)
record_children fd_child_pid (f ∷ starts) =
    and_then (write_pid f fd_child_pid) (λ _. record_children fd_child_pid starts)

-- What `main` and the calls of `start_child` by its `run` do to files; each of `starts` has the child's
-- process number and what the calls on it do.
unfoldable pub main_and_starts :
    Files
    → (verbosity : ℕ) → List (ℕ × Option (List ℕ))
    → (args : List (List ℕ)) → (starts : List Files) → Part (Unit {0})
unfolding cop_main record_children
main_and_starts f verbosity os args starts =
    and_then (cop_main f verbosity os args) (λ r. record_children r.fd_child_pid starts)
