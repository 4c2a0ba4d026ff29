-- ===== src/Sync/Results.antt =====
-- What the locking functions of src/ach.c return when the mutex can be taken.
use ach.Base.{
  ◌≡◌, ◌≢◌, inl, inr, some, Bool-cases, ne→==, ◌++◌, Bool, true, false, List, [], ◌∷◌, done, arith,
}
use ach.Shm.{Shm, Channel, ok, failed_syscall}
use ach.Sync.Discipline.{takes}
use ach.Sync.{
  check_lock, check_dirty, is_success, Os, Code, success, eownerdead, Call, lock, unlock,
  make_consistent, broadcast, chan_lock, wrlock, unwrlock, unrdlock, Wakeup, rdlock_test,
  rdlock_loop, rdlock,
}

-- the calls by which a mutex is taken
abbrev pub lock_calls : Code → List Call
lock_calls eownerdead = lock eownerdead ∷ make_consistent ∷ []
lock_calls c = lock c ∷ []

pub chan_lock_clean :
    (c : Code) (s : Shm) → takes c ≡ true → s.dirty ≡ 0 → chan_lock c s ≡ (ok, lock_calls c)
unfolding chan_lock check_lock check_dirty
chan_lock_clean c s t h = ground arith

pub wrlock_clean :
    (c : Code) (s : Shm)
    → takes c ≡ true
    → s.dirty ≡ 0
    → wrlock c s ≡ done (ok, record s { dirty = 1 }, lock_calls c)
unfolding wrlock chan_lock check_lock check_dirty
wrlock_clean c s t h = ground arith

pub unwrlock_dirty :
    (os : Os) (s : Shm)
    → os.unlocked ≡ success
    → os.broadcasted ≡ success
    → s.dirty ≡ 1
    → unwrlock os s ≡ done (ok, record s { dirty = 0 }, unlock ∷ broadcast ∷ [])
unfolding unwrlock
unwrlock_dirty os s u b h = ground arith

pub unwrlock_refused :
    (os : Os) (s : Shm)
    → is_success os.unlocked ≡ false
    → s.dirty ≡ 1
    → unwrlock os s ≡ done (failed_syscall, record s { dirty = 0 }, unlock ∷ [])
unfolding unwrlock
unwrlock_refused os s u h = ground arith

pub unrdlock_clean :
    (os : Os) (s : Shm)
    → os.unlocked ≡ success
    → s.dirty ≡ 0
    → unrdlock os s ≡ done (ok, unlock ∷ [])
unfolding unrdlock
unrdlock_clean os s u h = ground arith

module _ (wants_wait timed : Bool) (c : Channel) (s : Shm) where
  rdlock_test-pass :
      c.cancel ≡ false
      → (wants_wait ≡ true → c.seq_num ≢ s.last_seq)
      → rdlock_test wants_wait c s ≡ some (ok, [])
  unfolding rdlock_test
  rdlock_test-pass running unread = elim (Bool-cases wants_wait) [
    | inl w ↦ rw (running, w, ne→== c.seq_num s.last_seq (unread w))
    | inr n ↦ rw (running, n)
  ]

  rdlock_loop-pass :
      (ws : List Wakeup)
      → rdlock_test wants_wait c s ≡ some (ok, [])
      → rdlock_loop wants_wait timed c s ws
        ≡ done (record { status = ok; chan = c; shm = s; calls = [] })
  unfolding rdlock_loop
  rdlock_loop-pass [] e = rw (rdlock_loop, e)
  rdlock_loop-pass (w ∷ ws) e = rw (rdlock_loop, e)

  -- The lock is granted at once where the handle need not wait.
  pub rdlock-pass :
      (i : Code) (ws : List Wakeup)
      → takes i ≡ true
      → s.dirty ≡ 0
      → c.cancel ≡ false
      → (wants_wait ≡ true → c.seq_num ≢ s.last_seq)
      → rdlock i wants_wait timed c s ws
        ≡ done (record { status = ok; chan = c; shm = s; calls = lock_calls i ++ [] })
  unfolding rdlock
  rdlock-pass i ws t clean running unread =
      rw
        (rdlock, chan_lock_clean i s t clean, rdlock_loop-pass ws (rdlock_test-pass running unread))
