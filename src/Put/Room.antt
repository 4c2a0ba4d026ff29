-- ===== src/Put/Room.antt =====
-- The entries that `ach_put` keeps are those of the newest frames that leave room for the new one.
use ach.Base.{ℕ, ◌-◌, ◌≤◌, ◌<◌, ◌≡◌, refl, List, [], ◌∷◌, length, arith, dec_lt}
use ach.Ring.Window.{length-window}
use ach.Shm.{Shm, Index}
use ach.Shm.View.{size_of-frames, length-frames}
use ach.Shm.Invariant.{frames}
use ach.Log.{newest_within}
use ach.Put.Clear.{shed, shed_head, shed_head_room}

frames-shed :
    (s : Shm) (cnt room : ℕ) (es : List Index)
    → length es ≤ cnt
    → frames s (shed room es) ≡ newest_within cnt room (frames s es)
frames-shed s cnt room [] h = refl
frames-shed s cnt room (e ∷ es) h = ground (
  arith,
  frames-shed s cnt room es (omega arith),
  length-frames s es,
  size_of-frames s es,
  length-window 0 s.data_size s.bytes e.offset e.size,
)

-- `shed_head` and `shed`, as `ach_put` applies them, keep the newest messages that fit.
pub frames-shed-shed_head :
    (s : Shm) (cnt room : ℕ) (es : List Index)
    → 0 < cnt
    → length es ≤ cnt
    → frames s (shed room (shed_head cnt es)) ≡ newest_within (cnt - 1) room (frames s es)
frames-shed-shed_head s cnt room [] p h = refl
frames-shed-shed_head s cnt room (e ∷ es) p h = elim (dec_lt (length es) (cnt - 1)) [
  | yes few ↦
      rw (shed_head_room cnt (e ∷ es) (omega arith))
        (frames-shed s (cnt - 1) room (e ∷ es) (omega arith))
  | no all ↦ ground (arith, length-frames s es, frames-shed s (cnt - 1) room es (omega arith))
]
