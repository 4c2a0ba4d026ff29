-- ===== src/Achd/Transport.antt =====
-- The transport of src/achd/transport.c over TCP: frames are taken from the channel and written, or
-- read and put into the channel. What the calls of ach_get and ach_put return is an argument (modules
-- Get and Put are about them), as is what the system's calls do.
pub mod Pull
pub mod Push
use ach.Base.{
  ℕ, ◌+◌, ◌<◌, Bool, true, false, ◌&&◌, ◌||◌, not, Option, none, some, List, [], ◌∷◌, ◌++◌, length,
  take, drop, ltb, ◌==◌, if◌then◌else◌, Exec, done, stop, Stop, blocked, ◌>>=◌, ◌>>◌, assert,
}
use ach.Shm.{Status, ok, overflow, missed_frame, canceled}
use ach.Pipe.{Frame, set_size, get_size, pipe_alloc, pipe_magic}
use ach.Achd.Io.{ReadCall, achd_read, WriteCall, WriteEnd, wrote_all, Written, achd_write}
use ach.Achd.Headers.{Headers}

-- `struct achd_conn`, without the descriptors; `sent_before` is whether `ts_last` has been set.
pub record Conn : Type 0 where
  pub send_hdr : Headers
  pub recv_hdr : Headers
  pub pipeframe_size : ℕ
  pub pipeframe : Frame
  pub sent_before : Bool

-- What a call of ach_get returns, with the bytes that it has copied, and whether a signal has come.
pub record GetBack : Type 0 where
  pub status : Status
  pub frame_size : ℕ
  pub bytes : List ℕ
  pub sig : Bool

-- the delay at the head of `get_frame`, if there is one
unfoldable pub delay_ns : Conn → Option ℕ
delay_ns c =
    let period_ns : ℕ =
      if c.send_hdr.period_ns == 0 then c.recv_hdr.period_ns else c.send_hdr.period_ns in
    if not (period_ns == 0) && c.sent_before then some period_ns else none

-- whether `get_frame` asks for the latest frame
unfoldable pub wants_last : Conn → Bool
wants_last c = not (c.send_hdr.get_last == 0) || not (c.recv_hdr.get_last == 0)

module _ (malloc : ℕ → List ℕ) where
  -- the case ACH_OVERFLOW: a larger frame
  unfoldable pub enlarge : (size : ℕ) → Conn → Exec Conn
  enlarge size c = do
    assert (ltb c.pipeframe_size size)
    done (record c { pipeframe_size = size; pipeframe = pipe_alloc (malloc size) size })

  -- the cases ACH_OK and ACH_MISSED_FRAME
  abbrev pub filled : GetBack → Conn → Conn
  filled g c = record c {
    pipeframe =
        set_size (record c.pipeframe { bytes = g.bytes ++ drop (length g.bytes) c.pipeframe.bytes })
          g.frame_size;
    sent_before = true;
  }

  -- what a round of the loop of `get_frame` does by the result: the connection, and `done`
  unfoldable pub take_result : Status → GetBack → Conn → Exec (Conn × Bool)
  unfolding enlarge
  take_result overflow g c = enlarge g.frame_size c >>= (λ c'. done (c', false))
  take_result ok g c = done (filled g c, true)
  take_result missed_frame g c = done (filled g c, true)
  take_result _ g c = done (c, false)

  abbrev pub and_get :
      (sig : Bool) → Exec (Conn × Bool) → (next : Conn → Exec (Conn × Bool)) → Exec (Conn × Bool)
  and_get sig r next = r >>= (λ x. if not sig && not x.1 then next x.0 else done (x.0, sig))

  -- The loop of `get_frame`: the connection, and `cx.sig_received`.
  unfoldable pub get_frame : List GetBack → Conn → Exec (Conn × Bool)
  get_frame [] c = stop blocked
  get_frame (g ∷ gs) c = and_get g.sig (take_result g.status g c) (get_frame gs)

-- What the loops do: bytes that go out on the connection, a new connection, a message that is put.
pub data Event : Type 0 where
  sent : (bytes : List ℕ) → Event
  reconnected : Event
  message : (bytes : List ℕ) → Event

-- A loop with its events: it has returned, or it has stopped on the way.
pub record Run {ℓ} (A : Type ℓ) : Type ℓ where
  pub events : List Event
  pub end : Exec A

abbrev pub after {ℓ} : {A : Type ℓ} → List Event → Run A → Run A
after es r = record { events = es ++ r.events; end = r.end }

-- the bytes from the frame's address on
abbrev pub frame_bytes : Frame → List ℕ
frame_bytes f = f.magic ++ (f.size_bytes ++ f.bytes)

-- An attempt to write a frame: what the calls of `write` do, and whether a signal has come by the
-- end of a reconnection.
pub record Attempt : Type 0 where
  pub writes : List WriteCall
  pub sig : Bool

-- whether a frame has been sent, and `cx.sig_received`
pub record Tried : Type 0 where
  pub sent_frame : Bool
  pub sig : Bool

abbrev pub is_all : WriteEnd → Bool
is_all wrote_all = true
is_all _ = false

-- "stream send": the loop with `achd_write`
unfoldable pub send_frame :
    (reconnect : Bool) → (bytes : List ℕ) → (sig : Bool) → List Attempt → Run Tried
send_frame reconnect bytes sig [] = record { events = []; end = stop blocked }
send_frame reconnect bytes sig (a ∷ as_) = elim (achd_write bytes [] sig a.writes) [
  | stop e ↦ record { events = []; end = stop e }
  | done w ↦
      if is_all w.end
      then record {
        events = sent w.out ∷ [];
        end = done (record { sent_frame = true; sig = w.sig });
      }
      else if reconnect
      then after (sent w.out ∷ (reconnected ∷ [])) (
          if w.sig || a.sig
          then record { events = []; end = done (record { sent_frame = false; sig = true }) }
          else send_frame reconnect bytes false as_)
      else record {
        events = sent w.out ∷ [];
        end = done (record { sent_frame = false; sig = w.sig });
      }
]

-- what a round of `achd_push_tcp` meets
pub record PushRound : Type 0 where
  pub gets : List GetBack
  pub attempts : List Attempt

-- what a round of `achd_pull_tcp` meets in one attempt to read a frame: the calls of `read` for
-- the frame's head and for its data, and whether a signal has come by the end of a reconnection
pub record PullAttempt : Type 0 where
  pub head : List ReadCall
  pub data_calls : List ReadCall
  pub sig : Bool

-- with what ach_put then returns
pub record PullRound : Type 0 where
  pub attempts : List PullAttempt
  pub put : Status

-- a frame whose head has been read
abbrev pub with_head : List ℕ → Frame → Frame
with_head bytes f = record f { magic = take 8 bytes; size_bytes = drop 8 bytes }

abbrev pub same_bytes : List ℕ → List ℕ → Bool
same_bytes [] [] = true
same_bytes (a ∷ as_) (b ∷ bs) = (a == b) && same_bytes as_ bs
same_bytes _ _ = false

-- after the frame's data have been read
abbrev pub with_data : List ℕ → Conn → Conn
with_data bytes c = record c {
  pipeframe = record c.pipeframe { bytes = bytes ++ drop (length bytes) c.pipeframe.bytes };
}

-- what an attempt to read leaves: the connection, `got_frame`, and `cx.sig_received`
pub record Pulled : Type 0 where
  pub conn : Conn
  pub got_frame : Bool
  pub sig : Bool

module _ (shl : ℕ → ℕ → ℕ) (malloc : ℕ → List ℕ) (err : Status → Stop) (reconnect : Bool) where
  -- the bytes that `achd_push_tcp` writes for the frame that it has
  abbrev pub frame_out : Frame → List ℕ
  frame_out f = take (16 + get_size shl f) (frame_bytes f)

  -- what follows `get_frame`, and the sending
  abbrev pub and_pushed : Conn → Run Tried → (next : Bool → Conn → Run Conn) → Run Conn
  and_pushed c t next = elim t.end [
    | stop e ↦ record { events = t.events; end = stop e }
    | done tried ↦
        if not tried.sent_frame && not reconnect
        then record { events = t.events; end = done c }
        else after t.events (next tried.sig c)
  ]

  abbrev pub and_send :
      List Attempt → Exec (Conn × Bool) → (next : Bool → Conn → Run Conn) → Run Conn
  and_send attempts (stop e) next = record { events = []; end = stop e }
  and_send attempts (done (c, sig)) next =
      if sig
      then record { events = []; end = done c }
      else and_pushed c (send_frame reconnect (frame_out c.pipeframe) false attempts) next

  -- `achd_push_tcp`: it returns when a signal has come, or when the connection is lost.
  unfoldable pub push_tcp : List PushRound → (sig : Bool) → Conn → Run Conn
  push_tcp [] sig c =
      if sig
      then record { events = []; end = done c }
      else record { events = []; end = stop blocked }
  push_tcp (r ∷ rs) sig c =
      if sig
      then record { events = []; end = done c }
      else and_send r.attempts (get_frame malloc r.gets c) (push_tcp rs)

  -- "make sure buf can hold it"
  unfoldable pub make_room : (cnt : ℕ) → Conn → Conn
  make_room cnt c =
      if ltb c.pipeframe_size cnt
      then record c { pipeframe_size = cnt; pipeframe = set_size (pipe_alloc (malloc cnt) cnt) cnt }
      else c

  -- "get data"
  unfoldable pub pull_data : PullAttempt → (sig : Bool) → Conn → Exec Pulled
  unfolding make_room
  pull_data a sig c =
      let cnt : ℕ = get_size shl c.pipeframe in
      let c' : Conn = make_room cnt c in
      achd_read cnt [] sig a.data_calls
      >>= (λ r. done (record { conn = with_data r.0 c'; got_frame = length r.0 == cnt; sig = r.1 }))

  -- "get size", and the cases. The bytes of a head that is not whole are not kept: the next attempt
  -- writes over them.
  unfoldable pub pull_frame : PullAttempt → (sig : Bool) → Conn → Exec Pulled
  unfolding pull_data
  pull_frame a sig c = achd_read 16 [] sig a.head >>= (λ r.
      if not (length r.0 == 16)
      then done (record { conn = c; got_frame = false; sig = r.1 })
      else let c' : Conn = record c { pipeframe = with_head r.0 c.pipeframe } in
        if not (same_bytes pipe_magic c'.pipeframe.magic)
        then done (record { conn = c'; got_frame = false; sig = r.1 })
        else pull_data a r.1 c')

  -- the loop of the attempts
  unfoldable pub pull_attempts : List PullAttempt → (sig : Bool) → Conn → Run Pulled
  pull_attempts [] sig c = record { events = []; end = stop blocked }
  pull_attempts (a ∷ as_) sig c = elim (pull_frame a sig c) [
    | stop e ↦ record { events = []; end = stop e }
    | done p ↦
        if p.got_frame
        then record { events = []; end = done p }
        else if reconnect
        then after (reconnected ∷ []) (
            if p.sig || a.sig
            then record { events = []; end = done (record p { sig = true }) }
            else pull_attempts as_ false p.conn)
        else record { events = []; end = done p }
  ]

  -- `put_frame`, with what ach_put returns
  unfoldable pub put_frame : (put : Status) → (sig : Bool) → Conn → Run (Unit {0})
  put_frame put sig c = if sig then record { events = []; end = done tt } else record {
    events = message (take (get_size shl c.pipeframe) c.pipeframe.bytes) ∷ [];
    end = elim put [ ok ↦ done tt | other ↦ stop (err other) ];
  }

  -- what follows the attempts of a round
  abbrev pub and_put : (put : Status) → Run Pulled → (next : Bool → Conn → Run Conn) → Run Conn
  and_put put t next = elim t.end [
    | stop e ↦ record { events = t.events; end = stop e }
    | done p ↦
        if not p.got_frame
        then record { events = t.events; end = done p.conn }
        else let u = put_frame put p.sig p.conn in
          elim u.end [
            | stop e ↦ record { events = t.events ++ u.events; end = stop e }
            | done _ ↦ after (t.events ++ u.events) (next p.sig p.conn)
          ]
  ]

  -- `achd_pull_tcp`: it returns when a signal has come, or when no frame could be read.
  unfoldable pub pull_tcp : List PullRound → (sig : Bool) → Conn → Run Conn
  pull_tcp [] sig c =
      if sig
      then record { events = []; end = done c }
      else record { events = []; end = stop blocked }
  pull_tcp (r ∷ rs) sig c =
      if sig
      then record { events = []; end = done c }
      else and_put r.put (pull_attempts r.attempts false c) (pull_tcp rs)
