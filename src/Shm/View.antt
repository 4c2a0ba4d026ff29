-- ===== src/Shm/View.antt =====
-- The memory of a channel as a log, and when a handle may use it.
use ach.Base.{suc, ◌%◌, ◌≤◌, ◌<◌, ◌≡◌, ◌≢◌, refl, ap, List, [], ◌∷◌, length, arith}
use ach.Ring.Window.{length-window}
use ach.Log.{Log, size_of}
use ach.Shm.{Shm, Index, Channel, check_guards, ok}
use ach.Shm.Invariant.{Inv, total, frames}

-- A memory with the entries `es` as a log.
abbrev pub view : Shm → List Index → Log
view s es = record { messages = frames s es; last = s.last_seq }

pub size_of-frames : (s : Shm) (es : List Index) → size_of (frames s es) ≡ total es
size_of-frames s [] = refl
size_of-frames s (e ∷ es) =
    omega (arith, length-window 0 s.data_size s.bytes e.offset e.size, size_of-frames s es)

pub length-frames : (s : Shm) (es : List Index) → length (frames s es) ≡ length es
length-frames s [] = refl
length-frames s (e ∷ es) = ap suc (length-frames s es)

-- A channel on which no operation is running: well formed, marked clean, its guard words intact,
-- and with a message in it once anything has been put.
pub record Ready (s : Shm) (es : List Index) : Type 0 where
  pub inv : Inv s es
  pub filled : 0 < s.last_seq → 0 < length es
  pub clean : s.dirty ≡ 0
  pub guarded : check_guards s ≡ ok

-- What a handle has seen of the channel. `next_index` is a hint: after a first message it is where
-- the next one will stand.
pub record CanRead (s : Shm) (chan : Channel) : Type 0 where
  pub seen : chan.seq_num ≤ s.last_seq
  pub hint_in : chan.next_index < s.index_cnt
  pub hint : chan.seq_num ≢ 0 → chan.next_index ≡ chan.seq_num % s.index_cnt
