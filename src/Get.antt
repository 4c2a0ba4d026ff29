-- ===== src/Get.antt =====
-- `ach_get`, `ach_get_from_offset` and `ach_flush` of src/ach.c.
pub mod Choose
pub mod Copy
pub mod Fetch
pub mod Refine
pub mod Sequel
pub mod Flush
use ach.Base.{
  ℕ, ◌/◌, ◌%◌, Bool, true, false, not, ◌&&◌, ◌||◌, Option, none, some, List, [], ◌++◌, ltb, leb,
  ◌==◌, if◌then◌else◌, Exec, done, ◌>>=◌, ◌>>◌, assert, add64, sub64,
}
use ach.Memory.{memcpy}
use ach.Shm.{
  Status, ok, bug, overflow, stale_frames, missed_frame, Shm, Index, Channel, check_guards,
  load_index, oldest_index_i, last_index_i,
}
use ach.Sync.{Os, Code, Call, Wakeup, is_ok, rdlock, unrdlock}

-- the flags of `ach_get_opts_t` in `options`: ACH_O_WAIT is 1, ACH_O_LAST is 2, ACH_O_COPY is 4
abbrev pub o_wait : ℕ → Bool
o_wait options = options % 2 == 1

abbrev pub o_last : ℕ → Bool
o_last options = options / 2 % 2 == 1

abbrev pub o_copy : ℕ → Bool
o_copy options = options / 4 % 2 == 1

-- What reading a frame returns: the caller's buffer, and what is stored through `frame_size`
-- (`none` if nothing is).
pub record ReadResult : Type 0 where
  pub status : Status
  pub chan : Channel
  pub buf : List ℕ
  pub frame_size : Option ℕ

-- "simple memcpy" and "wraparound memcpy" of `ach_get_from_offset`
unfoldable pub copy_out : Shm → Index → List ℕ → Exec (List ℕ)
copy_out s e buf =
    if ltb (add64 e.offset e.size) s.data_size then memcpy buf 0 s.bytes e.offset e.size else (do
      let end_cnt = sub64 s.data_size e.offset
      d ← memcpy buf 0 s.bytes e.offset end_cnt
      memcpy d end_cnt s.bytes 0 (sub64 e.size end_cnt))

unfoldable pub get_from_offset :
    Channel → Shm → (index_offset : ℕ) → (buf : List ℕ) → (size : ℕ) → Exec ReadResult
get_from_offset chan s index_offset buf size = do
  assert (ltb index_offset s.index_cnt)
  e ← load_index s index_offset
  assert (not (e.seq_num == 0))
  assert (ltb e.offset s.data_size)
  if ltb e.seq_num chan.seq_num
      then done (record { status = bug; chan = chan; buf = buf; frame_size = none })
      else if ltb size e.size
      then done (record { status = overflow; chan = chan; buf = buf; frame_size = some e.size })
      else (do
        d ← copy_out s e buf
        done (record {
          status = ok;
          chan = record chan {
            seq_num = e.seq_num;
            next_index = add64 index_offset 1 % s.index_cnt;
          };
          buf = d;
          frame_size = some e.size;
        }))

-- "Compute the index to read"
unfoldable pub read_index : Channel → Shm → (last copy : Bool) → Exec ℕ
read_index chan s last copy = if last then done (last_index_i s) else (do
  next ← load_index s chan.next_index
  if next.seq_num == add64 chan.seq_num 1
      then done chan.next_index
      else if chan.seq_num == s.last_seq
      then (assert copy >> done (last_index_i s))
      else done (oldest_index_i s))

-- What `ach_get` does while it holds the mutex, with the status that it returns once the mutex is
-- released.
unfoldable pub read_frame :
    Channel → Shm → (options : ℕ) → (buf : List ℕ) → (size : ℕ) → Exec ReadResult
read_frame chan s options buf size = do
  assert (leb chan.seq_num s.last_seq)
  if ((chan.seq_num == s.last_seq) && not (o_copy options)) || (s.last_seq == 0)
      then (do
        assert (not (o_wait options))
        done (record { status = stale_frames; chan = chan; buf = buf; frame_size = none }))
      else (do
        i ← read_index chan s (o_last options) (o_copy options)
        e ← load_index s i
        let missed = ltb (add64 chan.seq_num 1) e.seq_num
        r ← get_from_offset chan s i buf size
        assert (ltb 0 e.seq_num)
        done (if is_ok r.status && missed then record r { status = missed_frame } else r))

-- what `ach_get` returns, with the memory as it was when the mutex was released
pub record GetResult : Type 0 where
  pub status : Status
  pub chan : Channel
  pub shm : Shm
  pub buf : List ℕ
  pub frame_size : Option ℕ
  pub calls : List Call

-- `timed` is whether `abstime` is given. `wakes` are the returns of the condition wait.
unfoldable pub get :
    Os
    → Channel
    → Shm
    → (buf : List ℕ) → (size : ℕ) → (timed : Bool) → (options : ℕ) → List Wakeup
    → Exec GetResult
get os chan s buf size timed options wakes =
    let guards = check_guards s in
    if not (is_ok guards)
    then done
        (record { status = guards; chan = chan; shm = s; buf = buf; frame_size = none; calls = [] })
    else (do
      l ← rdlock os.locked (o_wait options) timed chan s wakes
      if not (is_ok l.status)
          then done (record {
            status = l.status;
            chan = l.chan;
            shm = l.shm;
            buf = buf;
            frame_size = none;
            calls = l.calls;
          })
          else (do
            r ← read_frame l.chan l.shm options buf size
            (u, cs) ← unrdlock os l.shm
            done (record {
              status = if is_ok u then r.status else u;
              chan = r.chan;
              shm = l.shm;
              buf = r.buf;
              frame_size = r.frame_size;
              calls = l.calls ++ cs;
            })))

-- the status of `ach_flush`, and the handle and calls that it leaves
pub record FlushResult : Type 0 where
  pub status : Status
  pub chan : Channel
  pub calls : List Call

unfoldable pub flush : Os → Channel → Shm → Exec FlushResult
flush os chan s = do
  l ← rdlock os.locked false false chan s []
  if not (is_ok l.status)
      then done (record { status = l.status; chan = l.chan; calls = l.calls })
      else (do
        let chan' : Channel = record l.chan {
          seq_num = l.shm.last_seq;
          next_index = l.shm.index_head;
        }
        (u, cs) ← unrdlock os l.shm
        done (record { status = u; chan = chan'; calls = l.calls ++ cs }))
