-- ===== src/Sync/Balance.antt =====
-- The locking functions of src/ach.c keep the rule of `Discipline`.
use ach.Base.{
  ◌≡◌, ap, ◌∙◌, Bool, true, false, inl, inr, Bool-cases, none, some, List, [], ◌∷◌, ◌++◌, Exec,
  done, stop, arith, Option-cases,
}
use ach.Shm.{Status, Shm, Channel}
use ach.Sync.{
  Code, Call, wait, Locked, Wakeup, is_ok, check_lock, check_dirty, chan_lock, rdlock, rdlock_test,
  rdlock_loop, after_calls, map_done,
}
use ach.Sync.Discipline.{held_after, held_by}

-- After `cs`, then `ds`.
pub held_by-append :
    (h k : Bool) (cs ds : List Call) → held_by h cs ≡ some k → held_by h (cs ++ ds) ≡ held_by k ds
held_by-append h k [] ds e = ap (λ o. elim o [ none ↦ none | some b ↦ held_by b ds ]) e
held_by-append h k (c ∷ cs) ds e = elim (Option-cases (held_after h c)) [
  | inl misuse ↦ cc (rw (misuse, held_by) at e)
  | inr (b, fine) ↦ rw (fine, held_by) (held_by-append b k cs ds (rw (fine, held_by) at e))
]

-- `check_lock` holds the mutex exactly if it returns ACH_OK.
check_lock-wait :
    (c : Code) (s : Shm) (timed : Bool)
    → held_by true (wait timed c ∷ (check_lock c s true).1) ≡ some (is_ok (check_lock c s true).0)
unfolding check_lock check_dirty
check_lock-wait c s timed = ground arith

pub chan_lock-held :
    (c : Code) (s : Shm) → held_by false (chan_lock c s).1 ≡ some (is_ok (chan_lock c s).0)
unfolding chan_lock check_lock check_dirty
chan_lock-held c s = ground arith

rdlock_test-held :
    (wants_wait : Bool) (c : Channel) (s : Shm) (r : Status) (cs : List Call)
    → rdlock_test wants_wait c s ≡ some (r, cs)
    → held_by true cs ≡ some (is_ok r)
unfolding rdlock_test
rdlock_test-held wants_wait c s r cs e = ground arith

-- From holding the mutex or not, a run ends holding it exactly if it returns ACH_OK.
abbrev pub Holds : Bool → Exec Locked → Type 0
Holds h (done l) = held_by h l.calls ≡ some (is_ok l.status)
Holds h (stop e) = Unit {0}

Holds-after :
    (h : Bool) (cs : List Call) (m : Exec Locked)
    → held_by h cs ≡ some true
    → Holds true m
    → Holds h (map_done (after_calls cs) m)
Holds-after h cs (done l) e g = held_by-append h true cs l.calls e ∙ g
Holds-after h cs (stop x) e g = tt

rdlock_loop-Holds :
    (wants_wait timed : Bool) (c : Channel) (s : Shm) (ws : List Wakeup)
    → Holds true (rdlock_loop wants_wait timed c s ws)
unfolding rdlock_loop
rdlock_loop-Holds wants_wait timed c s [] = elim (Option-cases (rdlock_test wants_wait c s)) [
  | inl e ↦ rw (rdlock_loop, e) tt
  | inr ((r, cs), e) ↦ rw (rdlock_loop, e) (rdlock_test-held wants_wait c s r cs e)
]
rdlock_loop-Holds wants_wait timed c s (w ∷ ws) = elim (Option-cases (rdlock_test wants_wait c s)) [
  | inr ((r, cs), e) ↦ rw (rdlock_loop, e) (rdlock_test-held wants_wait c s r cs e)
  | inl e ↦ elim (Bool-cases (is_ok (check_lock w.code w.shm true).0)) [
    | inl good ↦
        rw (rdlock_loop, e, good)
          (Holds-after true (wait timed w.code ∷ (check_lock w.code w.shm true).1) _
            (check_lock-wait w.code w.shm timed ∙ ap some good)
            (rdlock_loop-Holds wants_wait timed (record c { cancel = w.cancel }) w.shm ws))
    | inr bad ↦ rw (rdlock_loop, e, bad) (check_lock-wait w.code w.shm timed)
  ]
]

-- `rdlock` returns holding the mutex exactly if it returns ACH_OK, and misuses it on no path.
pub rdlock-Holds :
    (i : Code) (wants_wait timed : Bool) (c : Channel) (s : Shm) (ws : List Wakeup)
    → Holds false (rdlock i wants_wait timed c s ws)
unfolding rdlock
rdlock-Holds i wants_wait timed c s ws = elim (Bool-cases (is_ok (chan_lock i s).0)) [
  | inl good ↦
      rw (rdlock, good)
        (Holds-after false (chan_lock i s).1 _ (chan_lock-held i s ∙ ap some good)
          (rdlock_loop-Holds wants_wait timed c s ws))
  | inr bad ↦ rw (rdlock, bad) (chan_lock-held i s)
]
