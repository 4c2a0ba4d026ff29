-- ===== src/Tests/Messages.antt =====
-- A message over a stream of src/ach_stream.c, and an error that a server of src/achd reports.
use ach.Base.{ℕ, ◌≡◌, refl, true, false, some, List, [], ◌∷◌, ◌++◌, map, arith, done, stop}
use ach.Shm.{bad_header}
use ach.Name.{result_to_string}
use ach.Achd.Words.{codes}
use ach.Achd.Headers.{no_headers, parse_headers, error_log}
use ach.Achd.Greeting.{error_lines}
use ach.Achd.Greeting.Refused.{error-malformed}
use ach.Stream.{read_bytes, full, join}
use ach.Stream.Message.{
  wrote, size_field, and_twelve, msg_size, write_msg, read_msg_size, read_msg_data,
}
use ach.Stream.Message.Trip.{write_msg-read}
use ach.Stream.Line.{got_byte, byte_interrupted, read_line}
use ach.Stream.Line.Bounds.{Fits, read_line-Fits}
use ach.Tests.Daemon.{typed, typed_lines, typed_lines-Deliver, print_dec, to_number}

write_msg-read_example :
    (write_msg (7 ∷ 8 ∷ 9 ∷ []) (map wrote (4 ∷ 8 ∷ [])) (map wrote (3 ∷ []))
      ≡ done (record {
        end = and_twelve full;
        out = join (size_field 3 ∷ []) ++ join ((7 ∷ []) ∷ (8 ∷ 9 ∷ []) ∷ []);
      }))
    × (read_msg_size (map read_bytes (size_field 3 ∷ []) ++ []) ≡ done (full, some 3))
    × (read_msg_data 3 16 (map read_bytes ((7 ∷ []) ∷ (8 ∷ 9 ∷ []) ∷ []) ++ [])
        ≡ done (record { end = msg_size; bytes = 7 ∷ 8 ∷ 9 ∷ [] }))
write_msg-read_example =
    write_msg-read (7 ∷ 8 ∷ 9 ∷ []) (4 ∷ 8 ∷ []) (3 ∷ []) (size_field 3) (7 ∷ []) []
      ((8 ∷ 9 ∷ []) ∷ []) [] 16 (omega arith) (omega arith)
      (omega arith, omega arith, (omega arith, refl)) (omega arith, refl) (omega arith, tt)
      (omega arith, (omega arith, tt)) refl refl

abbrev report : List ℕ
report = codes "10.0.0.1:80 no channel header"

error-malformed_example :
    parse_headers error_log to_number to_number true false
      (typed_lines (error_lines print_dec bad_header report))
      no_headers
    ≡ stop (error_log bad_header)
unfolding error_lines result_to_string
error-malformed_example =
    error-malformed error_log to_number to_number true print_dec report
      (typed (codes "status: 14 # ACH_BAD_HEADER\n"))
      (typed (codes "message: 10.0.0.1:80 no channel header\n")) (typed (codes ".\n") ∷ [])
      no_headers refl refl refl (omega arith) refl refl
      (typed_lines-Deliver (error_lines print_dec bad_header report))

-- an interrupted call, and a newline
read_line-Fits_example :
    Fits 3
      (read_line (λ i. 0) 3 [] ((byte_interrupted ∷ got_byte 7 ∷ []) ∷ (got_byte b'\n' ∷ []) ∷ []))
read_line-Fits_example =
    read_line-Fits (λ i. 0) 3 [] ((byte_interrupted ∷ got_byte 7 ∷ []) ∷ (got_byte b'\n' ∷ []) ∷ [])
      (omega arith) (omega arith) (omega arith) refl
