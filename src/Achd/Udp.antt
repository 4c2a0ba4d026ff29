-- ===== src/Achd/Udp.antt =====
-- The transport of src/achd/transport.c over UDP. What the system's calls return is an argument; what
-- is logged is left out.
pub mod Pull
use ach.Base.{
  ℕ, ◌+◌, ◌-◌, ◌^◌, Bool, true, false, ◌&&◌, ◌||◌, not, Option, none, some, List, [], ◌∷◌, ◌++◌,
  length, take, drop, ltb, ◌==◌, if◌then◌else◌, Exec, done, stop, Stop, blocked, ◌>>=◌,
}
use ach.Shm.{Status, failed_syscall}
use ach.Pipe.{Frame, set_size, get_size}
use ach.Achd.Transport.{
  Conn, GetBack, get_frame, put_frame, with_data, Event, sent, reconnected, Run, after,
}

-- `sin_addr` and `sin_port`
pub record Address : Type 0 where
  pub addr : ℕ
  pub port : ℕ

-- A call of `poll`: whether the wanted event is there, and whether the connection over TCP has one; or
-- EAGAIN, EINTR, or another failure.
pub data PollCall : Type 0 where
  polled : (ready closed sig : Bool) → PollCall
  poll_again : (sig : Bool) → PollCall
  poll_interrupted : (sig : Bool) → PollCall
  poll_failed : (sig : Bool) → PollCall

-- what `udp_poll` leaves: whether it returns -1, whether the event is there, and `cx.sig_received`
pub record Polled : Type 0 where
  pub closed : Bool
  pub ready : Bool
  pub sig : Bool

unfoldable pub udp_poll : (err : Status → Stop) → List PollCall → Exec Polled
udp_poll err [] = stop blocked
udp_poll err (polled ready closed sig ∷ calls) =
    if sig
    then done (record { closed = false; ready = ready; sig = true })
    else done (record { closed = closed; ready = ready; sig = false })
udp_poll err (poll_again sig ∷ calls) = udp_poll err calls
udp_poll err (poll_interrupted sig ∷ calls) =
    let rest = udp_poll err calls in
    if sig then done (record { closed = false; ready = false; sig = true }) else rest
udp_poll err (poll_failed sig ∷ calls) =
    if sig
    then done (record { closed = false; ready = false; sig = true })
    else stop (err failed_syscall)

-- What a round of waiting meets: the calls of `poll` and, if the connection is closed, what
-- `udp_peer` finds after a reconnection.
pub record WaitStep : Type 0 where
  pub polls : List PollCall
  pub peer : Option Address

-- what the waiting leaves: the peer, whether the loop goes on (or the function returns)
pub record Waited : Type 0 where
  pub peer : Address
  pub goes_on : Bool

-- what follows `udp_poll`
abbrev pub and_polled :
    (err : Status → Stop)
    → (reconnect : Bool) → (found : Option Address) → (peer : Address) → Exec Polled
    → (again : Address → Run Waited) → Run Waited
and_polled err reconnect found peer (stop e) again = record { events = []; end = stop e }
and_polled err reconnect found peer (done p) again =
    if p.closed
    then (if reconnect
        then after (reconnected ∷ []) (elim found [
          | none ↦ record { events = []; end = stop (err failed_syscall) }
          | some new_peer ↦
              if p.ready
              then record { events = []; end = done (record { peer = new_peer; goes_on = true }) }
              else again new_peer
        ])
        else record { events = []; end = done (record { peer = peer; goes_on = false }) })
    else if p.sig
    then record { events = []; end = done (record { peer = peer; goes_on = false }) }
    else if p.ready
    then record { events = []; end = done (record { peer = peer; goes_on = true }) }
    else again peer

-- "Poll FDs". The two functions test the signal and the result in different orders, which is the same:
-- `udp_poll` returns 0 after a signal.
unfoldable pub wait_ready :
    (err : Status → Stop) → (reconnect : Bool) → List WaitStep → (peer : Address) → Run Waited
wait_ready err reconnect [] peer = record { events = []; end = stop blocked }
wait_ready err reconnect (w ∷ ws) peer =
    and_polled err reconnect w.peer peer (udp_poll err w.polls) (wait_ready err reconnect ws)

-- a call of `sendto`: how many bytes it takes, EINTR, or another failure
pub data SendCall : Type 0 where
  sent_bytes : (n : ℕ) → (sig : Bool) → SendCall
  send_interrupted : (sig : Bool) → SendCall
  send_failed : SendCall

-- "UDP Send": what goes out, and `cx.sig_received`
unfoldable pub send_packet : (err : Status → Stop) → (packet : List ℕ) → List SendCall → Exec Bool
send_packet err packet [] = stop blocked
send_packet err packet (sent_bytes n sig ∷ calls) =
    if n == length packet then done sig else stop (err failed_syscall)
send_packet err packet (send_interrupted sig ∷ calls) =
    let rest = send_packet err packet calls in if sig then stop (err failed_syscall) else rest
send_packet err packet (send_failed ∷ calls) = stop (err failed_syscall)

-- MTU_UDP
abbrev pub mtu_udp : ℕ
mtu_udp = 65535

-- a call of `recvfrom`: a packet with its sender, EINTR, or another failure
pub data RecvCall : Type 0 where
  received : (bytes : List ℕ) → (from : Address) → (sig : Bool) → RecvCall
  recv_interrupted : (sig : Bool) → RecvCall
  recv_failed : (sig : Bool) → RecvCall

-- what "Read packet" leaves: `r` as a size, the bytes, the sender, and `cx.sig_received`
pub record Packet : Type 0 where
  pub size : ℕ
  pub bytes : List ℕ
  pub from : Address
  pub sig : Bool

-- no packet: -1 as a size, and the address that was cleared before
abbrev pub no_packet : (sig : Bool) → Packet
no_packet sig = record {
  size = 2 ^ 64 - 1;
  bytes = [];
  from = record { addr = 0; port = 0 };
  sig = sig;
}

-- A packet that is longer than the buffer is cut.
unfoldable pub recv_packet : (size : ℕ) → List RecvCall → Exec Packet
recv_packet size [] = stop blocked
recv_packet size (received bytes from sig ∷ calls) =
    let kept : List ℕ = take size bytes in
    done (record { size = length kept; bytes = kept; from = from; sig = sig })
recv_packet size (recv_interrupted sig ∷ calls) =
    let rest = recv_packet size calls in if sig then done (no_packet sig) else rest
recv_packet size (recv_failed sig ∷ calls) = done (no_packet sig)

abbrev pub same_address : Address → Address → Bool
same_address a b = (a.addr == b.addr) && (a.port == b.port)

-- what the rounds of the two loops meet
pub record UdpPush : Type 0 where
  pub gets : List GetBack
  pub waits : List WaitStep
  pub sends : List SendCall

pub record UdpPull : Type 0 where
  pub waits : List WaitStep
  pub receives : List RecvCall
  pub put : Status

module _ (shl : ℕ → ℕ → ℕ) (malloc : ℕ → List ℕ) (err : Status → Stop) (reconnect : Bool) where
  -- what follows the waiting
  abbrev pub and_waited : Run Waited → Conn → (next : Address → Run Conn) → Run Conn
  and_waited w c next = elim w.end [
    | stop e ↦ record { events = w.events; end = stop e }
    | done x ↦
        if x.goes_on
        then after w.events (next x.peer)
        else record { events = w.events; end = done c }
  ]

  abbrev pub and_sent : (packet : List ℕ) → Exec Bool → (next : Bool → Run Conn) → Run Conn
  and_sent packet (stop e) next = record { events = []; end = stop e }
  and_sent packet (done sig) next = after (sent packet ∷ []) (next sig)

  -- the data of the frame that is to go out
  abbrev pub packet_of : Conn → List ℕ
  packet_of c = take (get_size shl c.pipeframe) c.pipeframe.bytes

  abbrev pub and_got :
      UdpPush
      → (peer : Address) → Exec (Conn × Bool)
      → (next : Bool → Address → Conn → Run Conn) → Run Conn
  and_got r peer (stop e) next = record { events = []; end = stop e }
  and_got r peer (done (c, sig)) next =
      if sig
      then record { events = []; end = done c }
      else if ltb mtu_udp (get_size shl c.pipeframe)
      then next false peer c
      else and_waited (wait_ready err reconnect r.waits peer) c (λ peer'.
        and_sent (packet_of c) (send_packet err (packet_of c) r.sends) (λ s. next s peer' c))

  -- the loop of `achd_push_udp`
  unfoldable pub push_udp : List UdpPush → (sig : Bool) → (peer : Address) → Conn → Run Conn
  push_udp [] sig peer c =
      if sig
      then record { events = []; end = done c }
      else record { events = []; end = stop blocked }
  push_udp (r ∷ rs) sig peer c =
      if sig
      then record { events = []; end = done c }
      else and_got r peer (get_frame malloc r.gets c) (push_udp rs)

  abbrev pub and_put_packet : Run (Unit {0}) → Run Conn → Run Conn
  and_put_packet u next = elim u.end [
    | stop e ↦ record { events = u.events; end = stop e }
    | done _ ↦ after u.events next
  ]

  abbrev pub with_packet : Packet → Conn → Conn
  with_packet p c = record (with_data p.bytes c) {
    pipeframe = set_size (with_data p.bytes c).pipeframe p.size;
  }

  -- "Check that peer matches" and "Put the frame"
  abbrev pub and_received :
      (put : Status)
      → (peer : Address) → Conn
      → Exec Packet
      → (next : Bool → Conn → Run Conn) → Run Conn
  and_received put peer c (stop e) next = record { events = []; end = stop e }
  and_received put peer c (done p) next =
      if p.sig
      then record { events = []; end = done (with_data p.bytes c) }
      else if not (same_address p.from peer)
      then next false (with_data p.bytes c)
      else and_put_packet (put_frame shl malloc err reconnect put false (with_packet p c))
          (next false (with_packet p c))

  -- the loop of `achd_pull_udp`
  unfoldable pub pull_udp : List UdpPull → (sig : Bool) → (peer : Address) → Conn → Run Conn
  pull_udp [] sig peer c =
      if sig
      then record { events = []; end = done c }
      else record { events = []; end = stop blocked }
  pull_udp (r ∷ rs) sig peer c =
      if sig
      then record { events = []; end = done c }
      else and_waited (wait_ready err reconnect r.waits peer) c (λ peer'.
        and_received r.put peer' c (recv_packet c.pipeframe_size r.receives)
          (λ s c'. pull_udp rs s peer' c'))
