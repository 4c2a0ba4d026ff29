-- ===== src/Tests/Watch.antt =====
-- Runs of the process watcher of src/achcop.c, and sizes of the frames of src/pipe.c.
use ach.Base.{
  ℕ, ◌≡◌, ◌≤◌, refl, true, false, none, some, List, [], ◌∷◌, length, arith, ◌*◌, ◌%◌, ◌^◌,
}
use native.Mathlib.Nat.{zero-mul}
use ach.Cop.{
  Signal, sig_term, sig_chld, sig_ok, sig_alrm, sig_hup, sig_fail, exited, signaled, waited, forked,
  killed, reaped, Cop, Round, run, run_loop,
}
use ach.Cop.Child.{IsLawful, run-IsLawful}
use ach.Cop.Notice.{notices, run-notices}
use ach.Cop.Stops.{Stops, term-Stops, hup-term-forks}
use ach.Pipe.{Frame, set_size, get_size, pipe_magic, set_bytes, get_bytes, shift_byte}
use ach.Pipe.Size.{get_size-set_size}

-- the child 7 runs well, is killed by a signal, and is started again as 8
abbrev rounds : List Round
rounds =
    record { fork = some 7; recorded = true; signal = sig_alrm; waits = [] }
    ∷ record { fork = none; recorded = true; signal = sig_chld; waits = waited 7 signaled ∷ [] }
    ∷ record { fork = some 8; recorded = true; signal = sig_ok; waits = [] }
    ∷ []

run-IsLawful_example : IsLawful none (run 1 2 true rounds).actions
run-IsLawful_example = run-IsLawful 1 2 true rounds

run-notices_example : length (notices (run 1 2 true rounds).actions) ≤ 1
run-notices_example = run-notices 1 2 true rounds

-- the child 7 runs
abbrev watching : Cop
watching = record {
  first_run = false;
  restart = true;
  force_restart = false;
  start = false;
  done = false;
  pid_child = 7;
  exit_status = 1;
  pid_notify = 0;
}

abbrev idle : Signal → Round
idle s = record { fork = none; recorded = true; signal = s; waits = [] }

abbrev end_of_7 : Round
end_of_7 = record {
  fork = none;
  recorded = true;
  signal = sig_chld;
  waits = waited 7 (exited 3) ∷ [];
}

term-Stops_example :
    Stops
      (exited 3)
      (run_loop 1 (idle sig_term ∷ idle sig_ok ∷ end_of_7 ∷ idle sig_hup ∷ []) watching)
term-Stops_example =
    term-Stops 1 (exited 3) watching refl refl (idle sig_term) (idle sig_ok ∷ []) end_of_7
      (idle sig_hup ∷ []) refl refl (refl, tt) refl refl

hup-term-forks_example :
    (run_loop 1
      (idle sig_hup
        ∷ idle sig_term
        ∷ end_of_7
        ∷ record { fork = some 8; recorded = true; signal = sig_fail; waits = [] }
        ∷ [])
      watching).actions
    ≡ killed 7 ∷ killed 7 ∷ reaped 7 ∷ forked 8 ∷ []
hup-term-forks_example = hup-term-forks 1 (exited 3) watching refl refl 8

-- a shift of a 32-bit number as the processors of the x86 family do it: by the count modulo 32
abbrev pub x86_shl : ℕ → ℕ → ℕ
x86_shl b n = b * 2 ^ (n % 32) % 2 ^ 32

abbrev pub no_frame : Frame
no_frame = record { magic = pipe_magic; size_bytes = []; bytes = [] }

pub zeros_shifted : (n : ℕ) → x86_shl 0 n ≡ 0
zeros_shifted n = rw (zero-mul (2 ^ (n % 32)))

get_size-set_size_example : get_size x86_shl (set_size no_frame 70000) ≡ 70000
get_size-set_size_example = get_size-set_size x86_shl no_frame 70000 zeros_shifted (omega arith)

-- a size of 2^32 is read as 1
wide_size : get_size x86_shl (set_size no_frame (2 ^ 32)) ≡ 1
unfolding get_size set_size set_bytes get_bytes shift_byte
wide_size = refl
