-- ===== src/Achd/Client.antt =====
-- The client of src/achd/client.c: how it connects to a server and comes to its channel, and the
-- socket that achd_udp_sock of src/achd/transport.c makes. What the calls do is an argument.
pub mod Channel
use ach.Base.{
  ℕ, ◌+◌, ◌-◌, ◌^◌, Bool, true, false, ◌&&◌, not, Option, none, some, List, [], ◌∷◌, ◌++◌, ltb,
  ◌==◌, if◌then◌else◌, Exec, done, stop, Stop, exits, blocked, ◌>>=◌,
}
use ach.Shm.{Status, ok, enoent, bug, failed_syscall}
use ach.Achd.Io.{ReadCall, WriteCall, achd_printf}
use ach.Achd.Words.{codes}
use ach.Achd.Headers.{Direction, Headers, status_number, parse_headers, error_log}
use ach.Achd.Greeting.{Connect, connect_nop, connect_udp_sock, unlines, request_lines}

-- ACH_DEFAULT_FRAME_SIZE and ACH_DEFAULT_FRAME_COUNT
abbrev pub default_frame_size : ℕ
default_frame_size = 512

abbrev pub default_frame_count : ℕ
default_frame_count = 16

-- `(size_t)` of an `int`
abbrev pub size_of_int : ℕ → ℕ
size_of_int n = if ltb n (2 ^ 31) then n else n + (2 ^ 64 - 2 ^ 32)

-- the calls on the channel, and their results
pub data ChannelCall : Type 0 where
  opened : (name : List ℕ) → ChannelCall
  created : (name : List ℕ) → (frame_count frame_size : ℕ) → ChannelCall
  flushed : ChannelCall

pub record ChannelResults : Type 0 where
  pub first_open : Status
  pub create : Status
  pub reopen : Status
  pub flush : Status

-- the calls made so far, and how they end
pub record Calls {ℓ} (A : Type ℓ) : Type ℓ where
  pub calls : List ChannelCall
  pub end : Exec A

abbrev pub first : ChannelCall → Calls (Unit {0}) → Calls (Unit {0})
first call r = record { calls = call ∷ r.calls; end = r.end }

-- In the client, `cx.error` is `achd_error_log`.
-- `if( ACH_OK != r ) cx.error( r, … )`, and what follows
abbrev pub check_ok : Status → Calls (Unit {0}) → Calls (Unit {0})
check_ok ok next = next
check_ok r next = record { calls = []; end = stop (error_log r) }

unfoldable pub flush_channel : ChannelResults → Calls (Unit {0})
flush_channel r = first flushed (check_ok r.flush (record { calls = []; end = done tt }))

unfoldable pub create_channel :
    (name : List ℕ) → (recv : Headers) → ChannelResults → Calls (Unit {0})
unfolding flush_channel
create_channel name recv r =
    let frame_size : ℕ = if recv.frame_size == 0 then default_frame_size else recv.frame_size in
    let frame_count : ℕ = if recv.frame_count == 0 then default_frame_count else recv.frame_count in
    first (created name (size_of_int frame_count) (size_of_int frame_size))
      (check_ok r.create (first (opened name) (check_ok r.reopen (flush_channel r))))

abbrev pub by_open : Status → (name : List ℕ) → (recv : Headers) → ChannelResults → Calls (Unit {0})
by_open enoent name recv r = create_channel name recv r
by_open status name recv r = check_ok status (flush_channel r)

-- "Try to create channel if needed"; `has_channel` is whether one is open already.
unfoldable pub ensure_channel :
    (has_channel : Bool) → (name : List ℕ) → (recv : Headers) → ChannelResults → Calls (Unit {0})
unfolding create_channel flush_channel
ensure_channel true name recv r = record { calls = []; end = done tt }
ensure_channel false name recv r = first (opened name) (by_open r.first_open name recv r)

-- what the calls of `achd_udp_sock` do
pub record UdpSock : Type 0 where
  pub socket_ok : Bool
  pub bind_ok : Bool
  pub name_ok : Bool
  pub port : ℕ
  pub writes : List WriteCall

-- `achd_udp_sock`: what goes out to the peer, and `cx.sig_received`. `cx.error` is `err`.
unfoldable pub udp_sock :
    (err : Status → Stop) → (print_int : ℕ → List ℕ) → (sig : Bool) → UdpSock → Exec (List ℕ × Bool)
udp_sock err print_int sig u =
    if not (u.socket_ok && (u.bind_ok && u.name_ok))
    then stop (err failed_syscall)
    else achd_printf (some (codes "remote-port: " ++ (print_int u.port ++ (b'\n' ∷ [])))) sig
        u.writes
      >>= (λ r.
          if status_number r.status == 0 then done (r.out, r.sig) else stop (err failed_syscall))

-- `conn->vtab->connect(conn)`
unfoldable pub connect :
    Connect
    → (err : Status → Stop) → (print_int : ℕ → List ℕ) → (sig : Bool) → UdpSock
    → Exec (List ℕ × Bool)
connect connect_nop err print_int sig u = done ([], sig)
connect connect_udp_sock err print_int sig u = udp_sock err print_int sig u

-- What one call of `server_connect` meets: the socket, the ways out of what it writes, the answer,
-- and the calls on the channel.
pub record Meeting : Type 0 where
  pub fd : Option ℕ
  pub udp : UdpSock
  pub writes : List WriteCall
  pub answer : List (List (List ReadCall))
  pub channel : ChannelResults

-- What is left of the request and its answer: whether the request was sent, what has gone out, the
-- headers received, and `cx.sig_received`.
pub record Greeted : Type 0 where
  pub is_sent : Bool
  pub out : List ℕ
  pub recv : Headers
  pub sig : Bool

-- what `server_connect` leaves: the socket, or `none` for -1, and the rest as above
pub record Connected : Type 0 where
  pub fd : Option ℕ
  pub greeted : Greeted

abbrev pub text_of : Option (List ℕ) → List ℕ
text_of none = []
text_of (some text) = text

module _ (strtol strtoul : List ℕ → Option ℕ) (signed : Bool) (print_ul print_int : ℕ → List ℕ)
    (connect_by : Connect) (direction : Direction) where
  -- "Get Response". The status is the server's number; the exit does not depend on it.
  unfoldable pub get_response :
      (sig : Bool) → Headers → List (List (List ReadCall)) → Exec (Headers × Bool)
  get_response sig recv answer =
      parse_headers error_log strtol strtoul signed sig answer
        (record recv { status = status_number bug })
      >>= (λ r.
          if not (status_number r.0 == 0)
          then stop (error_log r.0)
          else if r.1.0.status == 0
          then done r.1
          else stop (exits 1))

  -- "Write request" and "Get Response"
  unfoldable pub greet : (sig : Bool) → (send recv : Headers) → Meeting → Exec Greeted
  unfolding get_response
  greet sig send recv m = do
    c ← connect connect_by error_log print_int sig m.udp
    p ←
        achd_printf
          (some (
            unlines (
              request_lines print_ul print_int (text_of send.chan_name) (text_of send.transport)
                send.period_ns send.get_last direction)))
          c.1 m.writes
    if not (status_number p.status == 0)
        then done (record { is_sent = false; out = c.0 ++ p.out; recv = recv; sig = p.sig })
        else get_response p.sig recv m.answer >>= λ r.
            done (record { is_sent = true; out = c.0 ++ p.out; recv = r.0; sig = r.1 })

  -- after the greeting
  abbrev pub and_ensure :
      (has_channel : Bool)
      → (name : List ℕ) → (fd : ℕ) → ChannelResults
      → Exec Greeted
      → Calls Connected
  and_ensure has_channel name fd r (stop e) = record { calls = []; end = stop e }
  and_ensure has_channel name fd r (done g) =
      if not g.is_sent
      then record { calls = []; end = done (record { fd = none; greeted = g }) }
      else let c = ensure_channel has_channel name g.recv r in
        record {
          calls = c.calls;
          end = c.end >>= (λ _. done (record { fd = some fd; greeted = g }));
        }

  -- `server_connect`; `name` is the local name of the channel.
  unfoldable pub server_connect :
      (has_channel : Bool)
      → (name : List ℕ) → (sig : Bool) → (send recv : Headers) → Meeting
      → Calls Connected
  unfolding greet
  server_connect has_channel name sig send recv m = elim m.fd [
    | none ↦ record {
      calls = [];
      end = done (record {
        fd = none;
        greeted = record { is_sent = false; out = []; recv = recv; sig = sig };
      });
    }
    | some fd ↦ and_ensure has_channel name fd m.channel (greet sig send recv m)
  ]

  -- what follows an attempt of `achd_reconnect`
  abbrev pub and_again :
      Exec Connected
      → (again : Bool → Headers → Exec (Option ℕ × Greeted)) → Exec (Option ℕ × Greeted)
  and_again (stop e) again = stop e
  and_again (done c) again = elim c.fd [
    | none ↦ again c.greeted.sig c.greeted.recv
    | some fd ↦ done (some fd, c.greeted)
  ]

  -- The loop of `achd_reconnect`, with the channel open: for each attempt, whether a signal has come
  -- by the end of the sleep, and what `server_connect` meets. The result is the new socket, or none.
  unfoldable pub achd_reconnect :
      (reconnect sig : Bool)
      → (send recv : Headers) → List (Bool × Meeting)
      → Exec (Option ℕ × Greeted)
  achd_reconnect reconnect sig send recv [] =
      if reconnect && not sig
      then stop blocked
      else done (none, record { is_sent = false; out = []; recv = recv; sig = sig })
  achd_reconnect reconnect sig send recv ((s, m) ∷ later) =
      if reconnect && not sig
      then and_again (server_connect true [] s send recv m).end
          (λ sig' recv'. achd_reconnect reconnect sig' send recv' later)
      else done (none, record { is_sent = false; out = []; recv = recv; sig = sig })
