-- ===== src/Achpipe/Subscribe.antt =====
-- `subscribe` of src/achpipe-bin.c: the messages of a channel go out as a stream of frames, at once
-- or as commands from the other side ask for them.
pub mod Message
pub mod Sent
use ach.Base.{
  ℕ, ◌+◌, Bool, true, false, not, ◌||◌, Option, none, some, List, [], ◌∷◌, ◌++◌, length, take, drop,
  min, ltb, ◌==◌, if◌then◌else◌, Exec, done, stop, blocked, ◌>>=◌, ◌>>◌, assert,
}
use ach.Shm.{Shm, Channel, Status, ok, overflow, missed_frame}
use ach.Sync.{Os, Wakeup, is_ok}
use ach.Get.{get, flush}
use ach.Pipe.{Frame, set_size, get_size, pipe_alloc}
use ach.Achd.Transport.{same_bytes, frame_bytes}
use ach.Achpipe.{PipeEnd, left_loop, aborted, init_buf_size}

-- `opt_sync` and `opt_last`, and whether `opt_freq` is positive
pub record SubOpts : Type 0 where
  pub sync : Bool
  pub last : Bool
  pub is_freq : Bool

-- What a call of ach_get meets: the channel's memory at that time, and what the system's calls return.
pub record GetTurn : Type 0 where
  pub shm : Shm
  pub os : Os
  pub wakes : List Wakeup

-- What a round of `subscribe` meets: whether a signal has come before it, its calls of ach_get, what
-- `fwrite` returns, and whether `fflush` succeeds.
pub record SubTurn : Type 0 where
  pub sig : Bool
  pub gets : List GetTurn
  pub written : ℕ
  pub flushed : Bool

-- the variables of `subscribe`, with the bytes to come and those that have gone out
pub record Subscribing : Type 0 where
  pub frame : Frame
  pub max : ℕ
  pub t0 : Bool
  pub chan : Channel
  pub input : List ℕ
  pub output : List ℕ

-- how `subscribe` ends, and what has gone out
pub record Subscribed : Type 0 where
  pub end : PipeEnd
  pub output : List ℕ

abbrev next_cmd : List ℕ
next_cmd = b'n' ∷ b'e' ∷ b'x' ∷ b't' ∷ []

abbrev last_cmd : List ℕ
last_cmd = b'l' ∷ b'a' ∷ b's' ∷ b't' ∷ []

abbrev poll_cmd : List ℕ
poll_cmd = b'p' ∷ b'o' ∷ b'l' ∷ b'l' ∷ []

-- "parse command": the options for ach_get, or none if the command is invalid
unfoldable pub parse_command : (cmd : List ℕ) → Option ℕ
parse_command cmd =
    if same_bytes next_cmd cmd
    then some 1
    else if same_bytes last_cmd cmd
    then some 3
    else if same_bytes poll_cmd cmd
    then some 6
    else none

-- the options for ach_get
unfoldable pub get_options : SubOpts → (cmd : List ℕ) → Option ℕ
unfolding parse_command
get_options o cmd =
    if o.sync then parse_command cmd else some (if o.last || o.is_freq then 3 else 1)

-- `frame_size`, which is 0 before the call of ach_get
abbrev pub size_or_zero : Option ℕ → ℕ
size_or_zero none = 0
size_or_zero (some n) = n

abbrev pub end_loop : PipeEnd → Subscribing → Exec Subscribed
end_loop end p = done (record { end = end; output = p.output })

-- `ach_pipe_set_size`, of the frame that is got
abbrev pub sized : (frame_size : ℕ) → Subscribing → Subscribing
sized n p = record p { frame = set_size p.frame n }

-- "wait for the pull command"
unfoldable pub read_command :
    SubOpts
    → Subscribing
    → (next : (cmd : List ℕ) → Subscribing → Exec Subscribed) → Exec Subscribed
read_command o p next =
    if not o.sync
    then next (0 ∷ 0 ∷ 0 ∷ 0 ∷ []) p
    else if not (length (take 4 p.input) == 4)
    then end_loop aborted p
    else next (take 4 p.input) (record p { input = drop 4 p.input })

module _ (shl : ℕ → ℕ → ℕ) (malloc : ℕ → List ℕ) (o : SubOpts) where
  -- "check return code": the loop goes on to `retry` or to `got`, or the program is aborted
  unfoldable pub check_result :
      Status
      → (frame_size : ℕ) → Subscribing
      → (retry got : Subscribing → Exec Subscribed) → Exec Subscribed
  check_result overflow n p retry got =
      assert (ltb p.max n) >> retry (record p { max = n; frame = pipe_alloc (malloc n) n })
  check_result ok n p retry got = got (sized n p)
  check_result missed_frame n p retry got = got (sized n p)
  check_result _ n p retry got = if p.t0 then got (sized n p) else end_loop aborted p

  -- after ach_get has written its results
  abbrev pub with_get : Channel → (buf : List ℕ) → Subscribing → Subscribing
  with_get chan buf p = record p { chan = chan; frame = record p.frame { bytes = buf } }

  -- "read the data", with options for ach_get
  unfoldable pub read_message :
      List GetTurn
      → (options : ℕ) → Subscribing
      → (got : Subscribing → Exec Subscribed) → Exec Subscribed
  unfolding check_result
  read_message [] options p got = stop blocked
  read_message (g ∷ gs) options p got =
      get g.os p.chan g.shm p.frame.bytes p.max false options g.wakes >>= (λ r.
        check_result r.status (size_or_zero r.frame_size) (with_get r.chan r.buf p)
          (λ q. read_message gs options q got) got)

  -- "read the data": an invalid command aborts the program
  abbrev pub read_by :
      Option ℕ
      → List GetTurn
      → Subscribing
      → (got : Subscribing → Exec Subscribed) → Exec Subscribed
  read_by none gs p got = end_loop aborted p
  read_by (some options) gs p got = read_message gs options p got

  -- the bytes that `fwrite` takes
  abbrev pub with_output : (written : ℕ) → Subscribing → Subscribing
  with_output written p = record p {
    output = p.output ++ take (min written (16 + get_size shl p.frame)) (frame_bytes p.frame);
  }

  -- "stream send", and what follows it in the round
  unfoldable pub send_message :
      SubTurn → Subscribing → (next : Subscribing → Exec Subscribed) → Exec Subscribed
  send_message t p next =
      if not (t.written == 16 + get_size shl p.frame) || not t.flushed
      then end_loop left_loop (with_output t.written p)
      else assert (not o.is_freq || not o.sync)
        >> next (record (with_output t.written p) { t0 = false })

  -- a round of the loop of `subscribe`
  unfoldable pub subscribe_round :
      SubTurn → Subscribing → (next : Subscribing → Exec Subscribed) → Exec Subscribed
  unfolding read_command get_options read_message send_message
  subscribe_round t p next =
      if t.sig
      then end_loop left_loop p
      else read_command o p
          (λ cmd q. read_by (get_options o cmd) t.gets q (λ r. send_message t r next))

  -- The loop of `subscribe`; where the list of rounds ends, it still runs.
  unfoldable pub subscribe_loop : List SubTurn → Subscribing → Exec Subscribed
  unfolding subscribe_round
  subscribe_loop [] p = stop blocked
  subscribe_loop (t ∷ ts) p = subscribe_round t p (subscribe_loop ts)

  -- `subscribe`, with what ach_open returns and the handle that it fills, and the memory on which
  -- ach_flush is called
  unfoldable pub subscribe :
      (opened : Status)
      → (os : Os) → Channel
      → Shm
      → (input : List ℕ) → List SubTurn
      → Exec Subscribed
  subscribe opened os chan shm input ts =
      if not (is_ok opened)
      then done (record { end = aborted; output = [] })
      else flush os chan shm >>= (λ f.
        if not (is_ok f.status)
        then done (record { end = aborted; output = [] })
        else subscribe_loop ts (record {
          frame = pipe_alloc (malloc init_buf_size) init_buf_size;
          max = init_buf_size;
          t0 = true;
          chan = f.chan;
          input = input;
          output = [];
        }))
