-- ===== src/Sync.antt =====
-- Locking in src/ach.c: which calls are made on the mutex and the condition variable, and what
-- follows from their result codes. The codes come from the system and are arguments.
pub mod Discipline
pub mod Results
pub mod ReadLock
pub mod Balance
use ach.Base.{
  ℕ, Bool, true, false, not, Option, none, some, List, [], ◌∷◌, ◌++◌, ◌==◌, if◌then◌else◌, Exec,
  done, stop, blocked, ◌>>=◌, ◌>>◌, assert,
}
use ach.Shm.{Status, ok, timeout, corrupt, failed_syscall, canceled, Shm, Channel}

-- What a pthread call returns: 0, one of the errors that `check_lock` names, or another error.
pub data Code : Type 0 where
  success etimedout enotrecoverable eownerdead other_error : Code

-- A call made on `sync.mutex` or `sync.cond`, with its result where the code reads it.
-- `wait` is `pthread_cond_wait`, or `pthread_cond_timedwait` if `timed`.
pub data Call : Type 0 where
  lock : Code → Call
  unlock : Call
  make_consistent : Call
  wait : (timed : Bool) → Code → Call
  broadcast : Call

-- The results of the calls that one operation makes at most once.
pub record Os : Type 0 where
  pub locked : Code
  pub unlocked : Code
  pub broadcasted : Code

abbrev pub is_success : Code → Bool
is_success success = true
is_success _ = false

-- `check_lock`, from the `case 0` on: the mutex is held, and the dirty bit decides.
unfoldable pub check_dirty : Shm → Status × List Call
check_dirty s = if s.dirty == 0 then (ok, []) else (corrupt, unlock ∷ [])

unfoldable pub check_lock : Code → Shm → (is_cond_check : Bool) → Status × List Call
check_lock etimedout s true = (timeout, unlock ∷ [])
check_lock etimedout s false = (timeout, [])
check_lock enotrecoverable s c = (corrupt, [])
check_lock eownerdead s c = let (r, calls) = check_dirty s in (r, make_consistent ∷ calls)
check_lock success s c = check_dirty s
check_lock other_error s true = (failed_syscall, unlock ∷ [])
check_lock other_error s false = (failed_syscall, [])

unfoldable pub chan_lock : Code → Shm → Status × List Call
chan_lock i s = let (r, calls) = check_lock i s false in (r, lock i ∷ calls)

-- One return of the condition wait: its code, the memory as the other processes left it, and
-- whether the handle has been canceled meanwhile.
pub record Wakeup : Type 0 where
  pub code : Code
  pub shm : Shm
  pub cancel : Bool

-- What a locking function returns, with the state that it leaves and the calls that it made.
pub record Locked : Type 0 where
  pub status : Status
  pub chan : Channel
  pub shm : Shm
  pub calls : List Call

abbrev pub after_calls : List Call → Locked → Locked
after_calls cs l = record l { calls = cs ++ l.calls }

abbrev pub map_done {ℓ κ} : {A : Type ℓ} {B : Type κ} → (A → B) → Exec A → Exec B
map_done f m = m >>= λ a. done (f a)

abbrev pub is_ok : Status → Bool
is_ok ok = true
is_ok _ = false

-- The tests at the head of the loop of `rdlock`: a status ends the loop, `none` waits.
unfoldable pub rdlock_test : (wants_wait : Bool) → Channel → Shm → Option (Status × List Call)
rdlock_test wants_wait c s =
    if c.cancel
    then some (canceled, unlock ∷ [])
    else if not wants_wait
    then some (ok, [])
    else if c.seq_num == s.last_seq
    then none
    else some (ok, [])

-- The loop of `rdlock`. The list holds the returns of the condition wait, in order; where it ends
-- the call still waits.
unfoldable pub rdlock_loop : (wants_wait timed : Bool) → Channel → Shm → List Wakeup → Exec Locked
rdlock_loop wants_wait timed c s [] = elim (rdlock_test wants_wait c s) [
  | some (r, cs) ↦ done (record { status = r; chan = c; shm = s; calls = cs })
  | none ↦ stop blocked
]
rdlock_loop wants_wait timed c s (w ∷ ws) = elim (rdlock_test wants_wait c s) [
  | some (r, cs) ↦ done (record { status = r; chan = c; shm = s; calls = cs })
  | none ↦
      let c' : Channel = record c { cancel = w.cancel } in
      let (r, cs) = check_lock w.code w.shm true in
      let rest = rdlock_loop wants_wait timed c' w.shm ws in
      if is_ok r
      then map_done (after_calls (wait timed w.code ∷ cs)) rest
      else done (record { status = r; chan = c'; shm = w.shm; calls = wait timed w.code ∷ cs })
]

unfoldable pub rdlock : Code → (wants_wait timed : Bool) → Channel → Shm → List Wakeup → Exec Locked
rdlock i wants_wait timed c s wakes =
    let (r, cs) = chan_lock i s in
    if is_ok r
    then map_done (after_calls cs) (rdlock_loop wants_wait timed c s wakes)
    else done (record { status = r; chan = c; shm = s; calls = cs })

unfoldable pub unrdlock : Os → Shm → Exec (Status × List Call)
unrdlock os s = do
  assert (s.dirty == 0)
  done (if is_success os.unlocked then ok else failed_syscall, unlock ∷ [])

unfoldable pub wrlock : Code → Shm → Exec (Status × Shm × List Call)
wrlock i s =
    let (r, cs) = chan_lock i s in
    if is_ok r
    then (assert (s.dirty == 0) >> done (r, record s { dirty = 1 }, cs))
    else done (r, s, cs)

unfoldable pub unwrlock : Os → Shm → Exec (Status × Shm × List Call)
unwrlock os s = do
  assert (s.dirty == 1)
  let s' : Shm = record s { dirty = 0 }
  done (
      if not (is_success os.unlocked)
      then (failed_syscall, s', unlock ∷ [])
      else if not (is_success os.broadcasted)
      then (failed_syscall, s', unlock ∷ broadcast ∷ [])
      else (ok, s', unlock ∷ broadcast ∷ []))
