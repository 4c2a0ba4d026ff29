-- ===== src/Get/Flush.antt =====
-- `ach_flush`, then `ach_get`.
use ach.Base.{
  ℕ, ◌≤◌, ◌≡◌, refl, ap, ◌∙◌, Bool, true, false, none, List, [], ◌∷◌, ◌++◌, length, done, arith,
  eq→==,
}
use ach.Log.{Log, is_stale}
use ach.Shm.{ok, stale_frames, Shm, Index, Channel}
use ach.Shm.Invariant.{Inv}
use ach.Shm.View.{view, Ready, CanRead}
use ach.Sync.{Os, success, unlock, Wakeup}
use ach.Sync.Discipline.{takes}
use ach.Sync.Results.{lock_calls, rdlock-pass, unrdlock_clean}
use ach.Get.{get, flush, o_wait, o_copy}
use ach.Get.Fetch.{fetch}
use ach.Get.Refine.{got, get-now}

-- the handle that `ach_flush` leaves
abbrev pub flushed : Channel → Shm → Channel
flushed chan s = record chan { seq_num = s.last_seq; next_index = s.index_head }

flushed-CanRead :
    {s : Shm} {es : List Index} (chan : Channel) → Inv s es → CanRead s (flushed chan s)
flushed-CanRead {s} chan v = record { seen = omega arith; hint_in = v.head_in; hint = λ _. v.place }

seen_all : (g : Log) (copy : Bool) → copy ≡ false → is_stale g g.last copy ≡ true
seen_all g copy e = rw (e, eq→== g.last g.last refl)

fetch-stale :
    (g : Log) (cnt : ℕ) (chan : Channel) (options : ℕ) (buf : List ℕ) (size : ℕ)
    → is_stale g chan.seq_num (o_copy options) ≡ true
    → fetch g cnt chan options buf size
      ≡ record { status = stale_frames; chan = chan; buf = buf; frame_size = none }
fetch-stale g cnt chan options buf size e = rw (e)

-- what `ach_flush` does when the mutex can be taken and released
pub flush-flushed :
    (os : Os) (chan : Channel) {s : Shm} {es : List Index}
    → Ready s es
    → takes os.locked ≡ true
    → os.unlocked ≡ success
    → chan.cancel ≡ false
    → flush os chan s
      ≡ done (record {
        status = ok;
        chan = flushed chan s;
        calls = (lock_calls os.locked ++ []) ++ (unlock ∷ []);
      })
unfolding flush
flush-flushed os chan {s} v hl hu running = rw (
  flush,
  rdlock-pass false false chan s os.locked [] hl v.clean running (λ e. absurd (ground arith)),
  unrdlock_clean os s hu v.clean,
)

-- On a ready channel, with a handle that is not canceled and a mutex that can be taken and
-- released, ach_flush returns ACH_OK and moves the handle to the newest message; an ach_get that
-- follows it with neither ACH_O_WAIT nor ACH_O_COPY returns ACH_STALE_FRAMES and leaves the
-- buffer as it was.
get-flush :
    (os : Os) (chan : Channel) {s : Shm} {es : List Index} (buf : List ℕ) (size : ℕ) (timed : Bool)
    (options : ℕ) (wakes : List Wakeup)
    → Ready s es
    → takes os.locked ≡ true
    → os.unlocked ≡ success
    → chan.cancel ≡ false
    → size ≤ length buf
    → o_wait options ≡ false
    → o_copy options ≡ false
    → (flush os chan s
        ≡ done (record {
          status = ok;
          chan = flushed chan s;
          calls = (lock_calls os.locked ++ []) ++ (unlock ∷ []);
        }))
      × (get os (flushed chan s) s buf size timed options wakes
          ≡ done (
              got
                (record {
                  status = stale_frames;
                  chan = flushed chan s;
                  buf = buf;
                  frame_size = none;
                })
                (record {
                  status = ok;
                  chan = flushed chan s;
                  shm = s;
                  calls = lock_calls os.locked ++ [];
                })))
get-flush os chan {s} {es} buf size timed options wakes v hl hu running room no_wait no_copy = (
  flush-flushed os chan v hl hu running,
  get-now os (flushed chan s) s buf size timed options wakes v (flushed-CanRead chan v.inv) hl hu
        running (λ w. absurd (ground arith)) room
      ∙ ap
          (λ r. done (
            got r (record {
              status = ok;
              chan = flushed chan s;
              shm = s;
              calls = lock_calls os.locked ++ [];
            })))
          (fetch-stale (view s es) s.index_cnt (flushed chan s) options buf size
            (seen_all (view s es) (o_copy options) no_copy)),
)
