-- ===== src/Achpipe.antt =====
-- The program of src/achpipe-bin.c, which carries messages between a channel and a stream of frames.
-- Its calls of ach_put and ach_get are those of modules Put and Get; a stream is the bytes that are
-- still to come, so that `fread` gets fewer only at its end.
pub mod Publish
pub mod Relay
pub mod Options
pub mod Subscribe
use ach.Base.{
  ℕ, ◌+◌, Bool, true, false, not, ◌&&◌, ◌||◌, Option, none, some, List, [], ◌∷◌, ◌++◌, length, take,
  drop, ltb, ◌==◌, if◌then◌else◌, Exec, done, stop, blocked, ◌>>=◌,
}
use ach.Shm.{Shm, Channel, Status}
use ach.Sync.{Os, is_ok}
use ach.Put.{put}
use ach.Pipe.{Frame, get_size, pipe_alloc, pipe_magic}
use ach.Achd.Transport.{with_head, same_bytes}

-- INIT_BUF_SIZE
abbrev pub init_buf_size : ℕ
init_buf_size = 512

-- How a loop ends: it is left, or `hard_assert` aborts the program.
pub data PipeEnd : Type 0 where
  left_loop aborted : PipeEnd

-- What a round of `publish` meets: whether a signal has come before it, what other processes have
-- done to the channel when ach_put is called, and what the calls of ach_put return.
pub record PutTurn : Type 0 where
  pub sig : Bool
  pub others : Shm → Shm
  pub os : Os

-- the variables of the loop of `publish`, with the channel's memory and the bytes to come
pub record Publishing : Type 0 where
  pub frame : Frame
  pub max : ℕ
  pub shm : Shm
  pub input : List ℕ

-- how `publish` ends, and the memory that it leaves
pub record Published : Type 0 where
  pub end : PipeEnd
  pub shm : Shm

module _ (shl : ℕ → ℕ → ℕ) (malloc : ℕ → List ℕ) (chan : Channel) where
  -- "make sure buf can hold it"
  unfoldable pub grow : (cnt : ℕ) → Publishing → Publishing
  grow cnt p =
      if ltb p.max cnt then record p { max = cnt; frame = pipe_alloc (malloc cnt) cnt } else p

  -- "get data", of `cnt` bytes
  abbrev pub read_data : (cnt : ℕ) → Publishing → Publishing
  read_data cnt p = record p {
    frame = record p.frame {
      bytes = take cnt p.input ++ drop (length (take cnt p.input)) p.frame.bytes;
    };
    input = drop cnt p.input;
  }

  -- "put data", and the test of its result
  unfoldable pub put_data :
      PutTurn → (cnt : ℕ) → Publishing → (next : Publishing → Exec Published) → Exec Published
  put_data t cnt p next = put t.os chan (t.others p.shm) (some p.frame.bytes) cnt >>= (λ r.
      if is_ok r.status
      then next (record p { shm = r.shm })
      else done (record { end = aborted; shm = r.shm }))

  abbrev pub leave : Publishing → Exec Published
  leave p = done (record { end = left_loop; shm = p.shm })

  -- from "make sure buf can hold it" on
  unfoldable pub publish_data :
      PutTurn → (cnt : ℕ) → Publishing → (next : Publishing → Exec Published) → Exec Published
  unfolding grow put_data
  publish_data t cnt p next =
      if not (length (take cnt p.input) == cnt)
      then leave p
      else put_data t cnt (read_data cnt (grow cnt p)) next

  -- the frame's head has been read
  abbrev pub read_head : Publishing → Publishing
  read_head p = record p { frame = with_head (take 16 p.input) p.frame; input = drop 16 p.input }

  -- a round of the loop of `publish`
  unfoldable pub publish_round :
      PutTurn → Publishing → (next : Publishing → Exec Published) → Exec Published
  unfolding publish_data
  publish_round t p next =
      if t.sig
      then leave p
      else if not (length (take 16 p.input) == 16)
      then leave p
      else if not (same_bytes pipe_magic (take 8 p.input))
      then leave p
      else publish_data t (get_size shl (read_head p).frame) (read_head p) next

  -- The loop of `publish`; where the list of rounds ends, it still runs.
  unfoldable pub publish_loop : List PutTurn → Publishing → Exec Published
  unfolding publish_round
  publish_loop [] p = stop blocked
  publish_loop (t ∷ ts) p = publish_round t p (publish_loop ts)

  -- `publish`, with the channel opened as `shm`, or the program aborted
  unfoldable pub publish :
      (opened : Status) → Shm → (input : List ℕ) → List PutTurn → Exec Published
  publish opened shm input ts =
      if is_ok opened
      then publish_loop ts (record {
        frame = pipe_alloc (malloc init_buf_size) init_buf_size;
        max = init_buf_size;
        shm = shm;
        input = input;
      })
      else done (record { end = aborted; shm = shm })
