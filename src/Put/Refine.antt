-- ===== src/Put/Refine.antt =====
-- `ach_put` against the log of include/ach.h.
use ach.Base.{
  ℕ, ◌+◌, ◌≤◌, ◌<◌, ◌≡◌, refl, ◌∙◌, true, some, List, [], ◌∷◌, ◌++◌, length, take, word, arith,
  Exec, done, le→ltb, ne→==,
}
use ach.Shm.{ok, Shm, Index, Channel, check_guards}
use ach.Shm.View.{view, Ready}
use ach.Shm.Places.{Inv-dirty}
use ach.Log.{store}
use ach.Sync.{Os, success, unlock, broadcast}
use ach.Sync.Discipline.{takes}
use ach.Sync.Results.{lock_calls, wrlock_clean, unwrlock_dirty}
use ach.Put.{put, put_frame, PutResult}
use ach.Put.Frame.{Framed, put_frame-Framed}

-- What a successful `ach_put` leaves: the mutex taken and released once and the readers woken, the
-- memory well formed and clean, and the log with the message put.
pub record Stored (s : Shm) (es : List Index) (os : Os) (m : List ℕ) (r : Exec PutResult)
    : Type 0 where
  pub last : Shm
  pub entries : List Index
  pub ends :
      r
      ≡ done (record {
        status = ok;
        shm = last;
        calls = lock_calls os.locked ++ (unlock ∷ broadcast ∷ []);
      })
  pub ready : Ready last entries
  pub stored : view last entries ≡ store s.index_cnt s.data_size m (view s es)
  pub index_cnt : last.index_cnt ≡ s.index_cnt
  pub data_size : last.data_size ≡ s.data_size

-- On a ready channel, through an open handle, with a mutex that can be taken and released and
-- with last_seq at most 2^64 - 3, ach_put of len readable bytes (0 < len <= data_size) returns
-- ACH_OK, takes and releases the mutex once and wakes the readers, leaves a ready channel, and
-- stores the message in the log: it is the newest, with the next number, and of the older ones
-- the newest stay that the index entries and the data bytes have room for.
pub put-Stored :
    (os : Os) (chan : Channel) {s : Shm} {es : List Index} (buf : List ℕ) (len : ℕ)
    → Ready s es
    → chan.mapped ≡ true
    → takes os.locked ≡ true
    → os.unlocked ≡ success
    → os.broadcasted ≡ success
    → len ≤ length buf
    → 0 < len
    → len ≤ s.data_size
    → s.last_seq + 2 < word
    → Stored s es os (take len buf) (put os chan s (some buf) len)
unfolding put check_guards
put-Stored os chan {s} {es} buf len v mapped hl hu hb given some_bytes fits no_wrap = record {
  last = record f.last { dirty = 0 };
  entries = f.entries;
  ends = rw (
    put,
    ne→== len 0 (omega arith),
    mapped,
    v.guarded,
    le→ltb s.data_size len fits,
    wrlock_clean os.locked s hl v.clean,
    f.ends,
    unwrlock_dirty os f.last hu hb f.dirty,
  );
  ready = record {
    inv = Inv-dirty f.inv 0;
    filled = λ _. f.filled;
    clean = refl;
    guarded = f.guarded ∙ v.guarded;
  };
  stored = f.stored;
  index_cnt = f.index_cnt;
  data_size = f.data_size;
}
  where
    f :
        Framed
          (record s { dirty = 1 })
          es
          (take len buf)
          (put_frame (record s { dirty = 1 }) buf len)
    f = put_frame-Framed (Inv-dirty v.inv 1) buf len given some_bytes fits no_wrap
