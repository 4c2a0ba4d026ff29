-- ===== src/Achd/Serve.antt =====
-- The server of src/achd/achd.c: from a connection to the loop that forwards frames. What the calls
-- do, and what ach_open returns, is an argument.
pub mod Asked
use ach.Base.{
  ℕ, ◌+◌, ◌/◌, Bool, true, false, ◌&&◌, not, Option, none, some, List, [], ◌∷◌, ◌++◌, ◌==◌,
  if◌then◌else◌, Exec, done, stop, Stop, ◌>>=◌,
}
use ach.Shm.{Status, ok, bad_header, failed_syscall, Shm}
use ach.Pipe.{Frame, pipe_alloc}
use ach.Achd.Io.{ReadCall, WriteCall, achd_printf}
use ach.Achd.Headers.{
  Direction, void, push, pull, Headers, no_headers, status_number, parse_headers, error_header,
}
use ach.Achd.Greeting.{Vtab, get_vtab, or_remote, unlines, reply_lines}
use ach.Achd.Client.{UdpSock, connect}
use ach.Achd.Transport.{Conn}

-- What a server meets: whether its peer has a name, the request, what ach_open returns for a name,
-- what its socket for UDP does, and the way out of its answer.
pub record Request : Type 0 where
  pub peer_known : Bool
  pub lines : List (List (List ReadCall))
  pub open_channel : List ℕ → Status × Shm
  pub udp : UdpSock
  pub writes : List WriteCall

-- What it is ready to do: the name of the channel that it has opened and flushed, the row of
-- `handlers`, the connection, what it has sent, and `cx.sig_received`.
pub record Serving : Type 0 where
  pub chan_name : List ℕ
  pub vtab : Vtab
  pub conn : Conn
  pub sent : List ℕ
  pub sig : Bool

-- "check transport headers": the name of the channel
unfoldable pub check_request : Headers → Exec (List ℕ)
check_request h = elim h.chan_name [
  | none ↦ stop (error_header bad_header)
  | some name ↦ elim h.transport [
    | none ↦ stop (error_header bad_header)
    | some transport ↦ elim h.direction [
      | void ↦ stop (error_header bad_header)
      | push ↦ done name
      | pull ↦ done name
    ]
  ]
]

-- "open channel"
unfoldable pub open_for : (List ℕ → Status × Shm) → (name : List ℕ) → Exec Shm
open_for open_channel name = elim (open_channel name).0 [
  | ok ↦ done (open_channel name).1
  | other ↦ stop (error_header other)
]

-- "Allocate buffers"
abbrev pub conn_of : (malloc : ℕ → List ℕ) → Headers → Shm → Conn
conn_of malloc h shm =
    let size : ℕ = shm.data_size / shm.index_cnt in
    record {
      send_hdr = no_headers;
      recv_hdr = h;
      pipeframe_size = size;
      pipeframe = pipe_alloc (malloc size) size;
      sent_before = false;
    }

module _ (strtol strtoul : List ℕ → Option ℕ) (signed : Bool) (print_int print_size : ℕ → List ℕ)
    (malloc : ℕ → List ℕ) where
  -- `achd_serve` after the headers have been read, up to the call of the handler. The result of
  -- the `achd_printf` is not looked at.
  unfoldable pub answer : Request → (sig : Bool) → Headers → Exec Serving
  answer r sig h = do
    name ← check_request h
    shm ← open_for r.open_channel name
    v ← get_vtab error_header h.transport h.direction
    c ← connect v.connect error_header print_int sig r.udp
    p ← achd_printf (some (unlines (reply_lines print_size shm))) c.1 r.writes
    done (record {
      chan_name = name;
      vtab = v;
      conn = conn_of malloc h shm;
      sent = c.0 ++ p.out;
      sig = p.sig;
    })

  unfoldable pub achd_serve : Request → Exec Serving
  unfolding answer
  achd_serve r =
      if not r.peer_known
      then stop (error_header failed_syscall)
      else parse_headers error_header strtol strtoul signed false r.lines no_headers >>= (λ p.
        if not (status_number p.0 == 0)
        then stop (error_header p.0)
        else answer r p.1.1 (or_remote p.1.0))
