-- ===== src/Tests/Daemon.antt =====
-- Runs of the daemon of src/achd: its input and output, its headers and its frames.
use ach.Base.{
  ℕ, ◌+◌, ◌*◌, ◌-◌, ◌/◌, ◌%◌, ◌≡◌, refl, true, false, ◌&&◌, Option, some, List, [], ◌∷◌, ◌++◌,
  arith, ltb, leb, if◌then◌else◌, stop, spins,
}
use ach.Shm.{ok, overflow}
use ach.Achd.Io.{ReadCall, got, wrote, wrote_none, achd_write, achd_readline}
use ach.Achd.Io.Whole.{achd_write-Sends, achd_write-spins, Sends}
use ach.Achd.Io.Text.{Delivers, readline-Fits, Fits}
use ach.Achd.Words.{codes}
use ach.Achd.Headers.{no_headers, error_log}
use ach.Achd.Greeting.Asked.{LinesDeliver}
use ach.Achd.Transport.{Conn, after, PushRound, PullRound, push_tcp, sent}
use ach.Achd.Transport.Pull.{head_of}
use ach.Achd.Transport.Push.{push_tcp-frames, frame_of}
use ach.Tests.Watch.{x86_shl, zeros_shifted, no_frame}

achd_write-Sends_example :
    Sends
      (1 ∷ 2 ∷ 3 ∷ [])
      (achd_write (1 ∷ 2 ∷ 3 ∷ []) [] false (wrote 2 false ∷ wrote 1 false ∷ []))
achd_write-Sends_example =
    achd_write-Sends (1 ∷ 2 ∷ 3 ∷ []) [] false (wrote 2 false ∷ wrote 1 false ∷ [])

achd_write-spins_example :
    achd_write (1 ∷ 2 ∷ 3 ∷ []) [] false (wrote_none false true false ∷ wrote 2 true ∷ [])
    ≡ stop spins
achd_write-spins_example =
    achd_write-spins (1 ∷ 2 ∷ 3 ∷ []) [] (wrote_none false true false ∷ []) 2 [] refl tt
      (omega arith) (omega arith)

-- each character by a call of its own
abbrev pub typed : List ℕ → List (List ReadCall)
typed [] = []
typed (c ∷ cs) = (got (c ∷ []) false ∷ []) ∷ typed cs

typed-Delivers : (cs : List ℕ) → Delivers (typed cs) cs
typed-Delivers [] = tt
typed-Delivers (c ∷ cs) = ((refl, refl), typed-Delivers cs)

abbrev pub typed_lines : List (List ℕ) → List (List (List ReadCall))
typed_lines [] = []
typed_lines (line ∷ lines) = typed (line ++ (b'\n' ∷ [])) ∷ typed_lines lines

pub typed_lines-Deliver : (lines : List (List ℕ)) → LinesDeliver (typed_lines lines) lines
typed_lines-Deliver [] = tt
typed_lines-Deliver (line ∷ lines) =
    (typed-Delivers (line ++ (b'\n' ∷ [])), typed_lines-Deliver lines)

readline-Fits_example : Fits 2 (achd_readline true 2 [] false (typed (codes "ach\n")))
readline-Fits_example = readline-Fits true 2 [] false (typed (codes "ach\n")) (omega arith)

-- numbers of up to two digits
abbrev pub print_dec : ℕ → List ℕ
print_dec n = if ltb n 10 then (48 + n) ∷ [] else (48 + n / 10) ∷ (48 + n % 10) ∷ []

abbrev read_dec : (value : ℕ) → List ℕ → ℕ
read_dec value [] = value
read_dec value (c ∷ cs) =
    let rest = read_dec (value * 10 + (c - 48)) cs in if leb 48 c && leb c 57 then rest else value

abbrev pub to_number : List ℕ → Option ℕ
to_number text = some (read_dec 0 text)

abbrev pub zeroed : ℕ → List ℕ
zeroed n = []

abbrev pub fresh : Conn
fresh = record {
  send_hdr = no_headers;
  recv_hdr = no_headers;
  pipeframe_size = 2;
  pipeframe = no_frame;
  sent_before = false;
}

-- three bytes, for which the frame is too small at first
abbrev pushing : PushRound
pushing = record {
  gets =
      record { status = overflow; frame_size = 3; bytes = []; sig = false }
      ∷ record { status = ok; frame_size = 3; bytes = 7 ∷ 8 ∷ 9 ∷ []; sig = false }
      ∷ [];
  attempts = record { writes = wrote 10 false ∷ wrote 9 false ∷ []; sig = false } ∷ [];
}

push_tcp-frames_example :
    (c : Conn) × (push_tcp x86_shl zeroed error_log false (pushing ∷ []) false fresh
      ≡ after
          (sent (frame_of (7 ∷ 8 ∷ 9 ∷ [])) ∷ [])
          (push_tcp x86_shl zeroed error_log false [] false c))
push_tcp-frames_example =
    push_tcp-frames x86_shl zeroed error_log false zeros_shifted ((7 ∷ 8 ∷ 9 ∷ []) ∷ [])
      (pushing ∷ []) [] fresh refl
      (((refl, (omega arith, (refl, (refl, refl)))), omega arith, _, _, refl, refl, refl), tt)

abbrev pulling : PullRound
pulling = record {
  attempts =
      record {
        head = got (head_of (7 ∷ 8 ∷ 9 ∷ [])) false ∷ [];
        data_calls = got (7 ∷ []) false ∷ got (8 ∷ 9 ∷ []) false ∷ [];
        sig = false;
      }
      ∷ [];
  put = ok;
}
