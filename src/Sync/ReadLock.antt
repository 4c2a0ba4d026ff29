-- ===== src/Sync/ReadLock.antt =====
-- What `rdlock` of src/ach.c establishes.
use ach.Base.{
  ◌≡◌, ◌≢◌, ap, Bool, true, false, inl, inr, Bool-cases, some, List, [], ◌∷◌, Exec, done, stop,
  arith, Option-cases,
}
use mathlib.Core.Path.{subst}
use ach.Shm.{Status, ok, Shm, Channel}
use ach.Sync.{
  Code, Call, lock, wait, Locked, Wakeup, is_ok, check_lock, check_dirty, chan_lock, rdlock,
  rdlock_test, rdlock_loop, after_calls, map_done,
}

-- Every memory that the call may meet: at the start, and after each wait.
abbrev pub All {ℓ κ} : {A : Type ℓ} → (A → Type κ) → List A → Type κ
All P [] = Unit
All P (x ∷ xs) = P x × All P xs

-- A read lock that is granted: the mutex is held over a clean memory that satisfies whatever all
-- memories met do, the handle has not been canceled, and one that waits has something to read.
pub record Granted (P : Shm → Type 0) (wants_wait : Bool) (chan : Channel) (l : Locked)
    : Type 0 where
  pub clean : l.shm.dirty ≡ 0
  pub met : P l.shm
  pub uncanceled : l.chan.cancel ≡ false
  pub unread : wants_wait ≡ true → l.chan.seq_num ≢ l.shm.last_seq
  pub same_handle : l.chan ≡ record chan { cancel = false }

rdlock_test-ok :
    (wants_wait : Bool) (c : Channel) (s : Shm) (cs : List Call)
    → rdlock_test wants_wait c s ≡ some (ok, cs)
    → (c.cancel ≡ false) × (cs ≡ []) × (wants_wait ≡ true → c.seq_num ≢ s.last_seq)
unfolding rdlock_test
rdlock_test-ok wants_wait c s cs e = (ground arith, ground arith, λ w. ground arith)

check_lock-ok : (i : Code) (s : Shm) (b : Bool) → is_ok (check_lock i s b).0 ≡ true → s.dirty ≡ 0
unfolding check_lock check_dirty
check_lock-ok i s b e = ground arith

-- A run of the locking code grants the lock whenever it returns ACH_OK.
abbrev pub Grants : (P : Shm → Type 0) → Bool → Channel → Exec Locked → Type 0
Grants P wants_wait chan (done l) = l.status ≡ ok → Granted P wants_wait chan l
Grants P wants_wait chan (stop e) = Unit {0}

module _ (P : Shm → Type 0) (wants_wait timed : Bool) where
  Grants-test :
      (c : Channel) (s : Shm) (r : Status) (cs : List Call)
      → s.dirty ≡ 0
      → P s
      → rdlock_test wants_wait c s ≡ some (r, cs)
      → Grants P wants_wait c (done (record { status = r; chan = c; shm = s; calls = cs }))
  Grants-test c s r cs clean p e k =
      let passed =
        rdlock_test-ok wants_wait c s cs
          (subst (λ t. rdlock_test wants_wait c s ≡ some (t, cs)) k e) in
      record {
        clean = clean;
        met = p;
        uncanceled = passed.0;
        unread = passed.2;
        same_handle = ap (λ b. record c { cancel = b }) passed.0;
      }

  Grants-after :
      (c : Channel) (b : Bool) (cs : List Call) (m : Exec Locked)
      → Grants P wants_wait (record c { cancel = b }) m
      → Grants P wants_wait c (map_done (after_calls cs) m)
  Grants-after c b cs (done l) g = λ k.
      let h = g k in
      record {
        clean = h.clean;
        met = h.met;
        uncanceled = h.uncanceled;
        unread = h.unread;
        same_handle = h.same_handle;
      }
  Grants-after c b cs (stop e) g = tt

  rdlock_loop-Grants :
      (c : Channel) (s : Shm) (ws : List Wakeup)
      → s.dirty ≡ 0
      → P s
      → All (λ w. P w.shm) ws
      → Grants P wants_wait c (rdlock_loop wants_wait timed c s ws)
  unfolding rdlock_loop
  rdlock_loop-Grants c s [] clean p ps = elim (Option-cases (rdlock_test wants_wait c s)) [
    | inl e ↦ rw (rdlock_loop, e) tt
    | inr ((r, cs), e) ↦ rw (rdlock_loop, e) (Grants-test c s r cs clean p e)
  ]
  rdlock_loop-Grants c s (w ∷ ws) clean p ps = elim (Option-cases (rdlock_test wants_wait c s)) [
    | inr ((r, cs), e) ↦ rw (rdlock_loop, e) (Grants-test c s r cs clean p e)
    | inl e ↦ elim (Bool-cases (is_ok (check_lock w.code w.shm true).0)) [
      | inl good ↦
          rw (rdlock_loop, e, good)
            (Grants-after c w.cancel (wait timed w.code ∷ (check_lock w.code w.shm true).1) _ (
              rdlock_loop-Grants (record c { cancel = w.cancel }) w.shm ws
                (check_lock-ok w.code w.shm true good) ps.0 ps.1))
      | inr bad ↦ rw (rdlock_loop, e, bad) (λ k. cc)
    ]
  ]

  -- `rdlock` grants the lock whenever it returns ACH_OK.
  rdlock-Grants :
      (i : Code) (c : Channel) (s : Shm) (ws : List Wakeup)
      → P s
      → All (λ w. P w.shm) ws
      → Grants P wants_wait c (rdlock i wants_wait timed c s ws)
  unfolding rdlock chan_lock
  rdlock-Grants i c s ws p ps = elim (Bool-cases (is_ok (check_lock i s false).0)) [
    | inl good ↦
        rw (rdlock, chan_lock, good)
          (Grants-after c c.cancel (lock i ∷ (check_lock i s false).1) _
            (rdlock_loop-Grants c s ws (check_lock-ok i s false good) p ps))
    | inr bad ↦ rw (rdlock, chan_lock, bad) (λ k. cc)
  ]

  -- If rdlock returns ACH_OK, the memory is marked clean, the handle is not canceled and
  -- otherwise as before, and, if it was to wait, there is a message that the handle has not
  -- seen; what every memory that it met satisfies, the memory that it leaves satisfies.
  pub rdlock-Granted :
      (i : Code) (c : Channel) (s : Shm) (ws : List Wakeup) (l : Locked)
      → P s
      → All (λ w. P w.shm) ws
      → rdlock i wants_wait timed c s ws ≡ done l
      → l.status ≡ ok
      → Granted P wants_wait c l
  rdlock-Granted i c s ws l p ps e = subst (Grants P wants_wait c) e (rdlock-Grants i c s ws p ps)
