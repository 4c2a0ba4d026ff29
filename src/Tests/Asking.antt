-- ===== src/Tests/Asking.antt =====
-- The command lines of achd, achcop and achpipe, and a signal for achd, at small inputs.
use ach.Base.{
  Option, ℕ, ◌+◌, ◌≡◌, refl, true, false, none, some, List, [], ◌∷◌, length, arith, done,
}
use ach.Shm.{canceled, ok, check_guards}
use ach.Achd.Words.{codes}
use ach.Achd.Greeting.{unlines, request_lines, reply_lines}
use ach.Achd.Client.{Meeting, opened, created, flushed}
use ach.Achd.Client.Channel.{making}
use ach.Achd.Serve.{Request, achd_serve}
use ach.Achd.Options.{to_client, achd_main}
use ach.Achd.Options.Asked.{Order, opts_of, args_of, cx_of, achd_main-asked}
use ach.Achd.Run.{achd_client}
use ach.Achd.Run.Meets.{asked_lines, running, serving, achd_client-meets}
use ach.Achd.Io.{wrote}
use ach.Cop.Setup.{Files, wrote_bytes, main_and_starts}
use ach.Cop.Setup.Locked.{is_guarded}
use ach.Achpipe.Options.{Freq, freq_positive, pipe_main}
use ach.Achpipe.Options.Valid.{IsValidRun, pipe_main-Valid}
use ach.Cancel.{parent, cancel}
use ach.Get.{GetResult, get}
use ach.Achd.Headers.{error_log}
use ach.Achd.Transport.{push_tcp}
use ach.Achd.Run.{sighandler}
use ach.Achd.Run.Canceled.{back_of, sighandler-ends}
use ach.Tests.Daemon.{fresh, typed_lines, typed_lines-Deliver, print_dec, to_number}
use ach.Tests.Tools.{zeros}
use ach.Tests.Serving.{no_udp}
use ach.Tests.Watch.{x86_shl}
use ach.Tests.{one_message, wrapped, all_seen, woken, stopped, all_well}

-- `achd -z state -u 25 push golem local`
abbrev pushed : Order
pushed = record {
  pushes = true;
  host = codes "golem";
  chan = codes "local";
  remote = some (codes "state");
  period = some (codes "25", 25);
}

achd_main-asked_example :
    achd_main to_number 0 true true (opts_of pushed) (args_of pushed)
    ≡ done (to_client (cx_of 0 pushed))
achd_main-asked_example = achd_main-asked to_number 0 true true pushed refl

-- `achd -z state pull golem local`
abbrev pulled : Order
pulled = record {
  pushes = false;
  host = codes "golem";
  chan = codes "local";
  remote = some (codes "state");
  period = none;
}

abbrev pulled_lines : List (List ℕ)
pulled_lines = asked_lines to_number to_number true print_dec print_dec print_dec zeros pulled

abbrev meeting : Meeting
meeting = record {
  fd = some 5;
  udp = no_udp;
  writes = wrote (length (unlines pulled_lines)) false ∷ [];
  answer = typed_lines (reply_lines print_dec one_message);
  channel = making;
}

abbrev request : Request
request = record {
  peer_known = true;
  lines = typed_lines pulled_lines;
  open_channel = λ name. (ok, one_message);
  udp = no_udp;
  writes = wrote (length (unlines (reply_lines print_dec one_message))) false ∷ [];
}

achd_client-meets_example :
    (achd_client to_number to_number true print_dec print_dec zeros
        (cx_of 0 pulled)
        false
        meeting
        one_message
      ≡ record {
        calls =
            opened (codes "local")
            ∷ created (codes "local") 2 2
            ∷ opened (codes "local")
            ∷ flushed
            ∷ [];
        end = done (
            running to_number to_number true print_dec print_dec print_dec zeros pulled 5
              one_message one_message);
      })
    × (achd_serve to_number to_number true print_dec print_dec zeros request
        ≡ done (
            serving to_number to_number true print_dec print_dec print_dec zeros pulled
              one_message))
unfolding request_lines reply_lines
achd_client-meets_example =
    achd_client-meets to_number to_number true print_dec print_dec print_dec zeros 0 pulled 5
      meeting request one_message one_message (refl, omega arith) (refl, omega arith) refl refl refl
      refl refl refl (typed_lines-Deliver pulled_lines) refl refl refl refl
      (typed_lines-Deliver (reply_lines print_dec one_message))
      (omega arith, refl, omega arith, refl) (omega arith, refl, omega arith, refl) refl
      (omega arith) (omega arith) refl

-- `achcop -P a -p bc -o def -r -- c`, with descriptors 3, 4 and 5
abbrev files : Files
files = record {
  open_fd = λ name. some (length name + 2);
  lockf = λ fd. true;
  ftruncate = λ fd. true;
  pid = codes "17";
  writes = wrote_bytes 1 ∷ wrote_bytes 1 ∷ [];
}

abbrev child_files : Files
child_files = record files { pid = codes "9"; writes = wrote_bytes 1 ∷ [] }

abbrev watched : List (ℕ × Option (List ℕ))
watched =
    (b'P', some (codes "a"))
    ∷ (b'p', some (codes "bc"))
    ∷ (b'o', some (codes "def"))
    ∷ (b'r', none)
    ∷ []

-- `achcop -p a -o a -- c`: the redirection ends the lock.
one_file :
    is_guarded []
      (main_and_starts files 0
        ((b'p', some (codes "a")) ∷ (b'o', some (codes "a")) ∷ [])
        (codes "c" ∷ [])
        (child_files ∷ [])).actions
    ≡ false
unfolding main_and_starts
one_file = refl

abbrev always_fast : List ℕ → Freq
always_fast text = freq_positive

pipe_main-Valid_example :
    IsValidRun
      (pipe_main always_fast ((b's', some (codes "state")) ∷ (b'f', some (codes "10")) ∷ []))
pipe_main-Valid_example =
    pipe_main-Valid always_fast ((b's', some (codes "state")) ∷ (b'f', some (codes "10")) ∷ [])

-- SIGTERM comes after a wakeup for nothing.
sighandler-ends_example :
    (r : GetResult) × (get all_well all_seen wrapped (zeros 4) 4 false 1 (woken ∷ stopped ∷ [])
      ≡ done r)
    × (r.status ≡ canceled)
    × (r.buf ≡ zeros 4)
    × (push_tcp x86_shl zeros error_log false
          (record {
            gets =
                back_of r (sighandler all_well parent (some (all_seen, wrapped)) true false) ∷ [];
            attempts = [];
          }
            ∷ [])
          false
          fresh
        ≡ record { events = []; end = done fresh })
unfolding check_guards sighandler cancel
sighandler-ends_example =
    sighandler-ends x86_shl zeros error_log false all_well all_well parent all_seen wrapped wrapped
      (zeros 4) 4 1 (woken ∷ []) [] stopped [] [] [] fresh refl refl refl refl refl refl
      (record { taken = refl; clean = refl; nothing = refl; uncanceled = refl }, tt) refl refl refl
