-- ===== src/Tests/Serving.antt =====
-- A client and a server of src/achd that meet, and packets over UDP.
use ach.Base.{ℕ, ◌≡◌, refl, true, false, none, some, List, [], ◌∷◌, length, arith}
use ach.Shm.{ok}
use ach.Achd.Io.{wrote}
use ach.Achd.Words.{codes}
use ach.Achd.Headers.{Headers, pull, no_headers, error_log}
use ach.Achd.Greeting.{unlines, request_lines, reply_lines}
use ach.Achd.Client.{UdpSock, Meeting}
use ach.Achd.Client.Channel.{request, making}
use ach.Achd.Serve.{Request}
use ach.Achd.Transport.{Conn, message, after}
use ach.Achd.Udp.{Address, polled, received, UdpPull, pull_udp}
use ach.Achd.Udp.Pull.{pull_udp-from_peer}
use ach.Tests.Watch.{x86_shl, zeros_shifted}
use ach.Tests.Daemon.{typed_lines, print_dec, to_number, zeroed, fresh}
use ach.Tests.{one_message}

-- the channel "state" over TCP, pulled by the client
abbrev asking : Headers
asking = record no_headers { chan_name = some (codes "state"); transport = some (codes "tcp") }

abbrev pub no_udp : UdpSock
no_udp = record { socket_ok = false; bind_ok = false; name_ok = false; port = 0; writes = [] }

abbrev the_request : List ℕ
the_request =
    request to_number to_number true print_dec print_dec print_dec pull asking no_headers
      one_message

abbrev meeting : Meeting
meeting = record {
  fd = some 5;
  udp = no_udp;
  writes = wrote (length the_request) false ∷ [];
  answer = typed_lines (reply_lines print_dec one_message);
  channel = making;
}

abbrev lines : List (List ℕ)
lines = request_lines print_dec print_dec (codes "state") (codes "tcp") 0 1 pull

abbrev asked : Request
asked = record {
  peer_known = true;
  lines = typed_lines lines;
  open_channel = λ name. (ok, one_message);
  udp = no_udp;
  writes = wrote (length (unlines (reply_lines print_dec one_message))) false ∷ [];
}

abbrev peer : Address
peer = record { addr = 1; port = 2 }

abbrev arriving : List ℕ → Address → UdpPull
arriving bytes from = record {
  waits = record { polls = polled true false false ∷ []; peer = none } ∷ [];
  receives = received bytes from false ∷ [];
  put = ok;
}

-- the second packet is another sender's
pull_udp-from_peer_example :
    (c : Conn) × (pull_udp x86_shl zeroed error_log false
        (arriving (7 ∷ []) peer ∷ arriving (8 ∷ []) (record { addr = 1; port = 3 }) ∷ [])
        false
        peer
        fresh
      ≡ after (message (7 ∷ []) ∷ []) (pull_udp x86_shl zeroed error_log false [] false peer c))
pull_udp-from_peer_example =
    pull_udp-from_peer x86_shl zeroed error_log false zeros_shifted
      ((7 ∷ [], peer) ∷ (8 ∷ [], record { addr = 1; port = 3 }) ∷ [])
      (arriving (7 ∷ []) peer ∷ arriving (8 ∷ []) (record { addr = 1; port = 3 }) ∷ []) [] peer
      fresh
      (
        (_, _, _, _, refl, refl, omega arith, omega arith, refl),
        ((_, _, _, _, refl, refl, omega arith, omega arith, refl), tt),
      )
