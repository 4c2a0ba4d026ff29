-- ===== src/Cancel/Wake.antt =====
-- What canceling does to a reader, and the calls that it makes.
use ach.Base.{
  ℕ, ◌≡◌, refl, sym, ap, ◌∙◌, Bool, true, false, some, List, [], ◌∷◌, ◌++◌, done, arith, Bool-cases,
  inl, inr, eq→==,
}
use mathlib.Core.List.{append_assoc}
use ach.Shm.{canceled, Shm, Channel}
use ach.Sync.{
  Os, Code, Call, unlock, wait, broadcast, Wakeup, is_ok, is_success, check_lock, check_dirty,
  chan_lock, rdlock, rdlock_test, rdlock_loop, after_calls, map_done,
}
use ach.Sync.Discipline.{takes, held_by, Disciplined}
use ach.Sync.Results.{lock_calls, chan_lock_clean}
use ach.Sync.Balance.{held_by-append, chan_lock-held}
use ach.Sync.ReadLock.{All}
use ach.Cancel.{Fork, child, parent, fork_error, cancel, cancel_locked, cancel_child}

-- A return of the condition wait that leaves the reader waiting: nothing new, nothing wrong.
pub record Idle (seq : ℕ) (w : Wakeup) : Type 0 where
  pub taken : takes w.code ≡ true
  pub clean : w.shm.dirty ≡ 0
  pub nothing : seq ≡ w.shm.last_seq
  pub uncanceled : w.cancel ≡ false

-- the calls that a return of the condition wait leads to
abbrev pub wake_calls : (timed : Bool) → List Wakeup → List Call
wake_calls timed [] = []
wake_calls timed (w ∷ ws) =
    wait timed w.code ∷ (check_lock w.code w.shm true).1 ++ wake_calls timed ws

check_lock-taken :
    (c : Code) (s : Shm) (b : Bool)
    → takes c ≡ true
    → s.dirty ≡ 0
    → is_ok (check_lock c s b).0 ≡ true
unfolding check_lock check_dirty
check_lock-taken c s b t h = ground arith

module _ (timed : Bool) where
  -- a loop that finds the handle canceled
  rdlock_loop-canceled :
      (c : Channel) (s : Shm) (ws : List Wakeup)
      → rdlock_loop true timed (record c { cancel = true }) s ws
        ≡ done (record {
          status = canceled;
          chan = record c { cancel = true };
          shm = s;
          calls = unlock ∷ [];
        })
  unfolding rdlock_loop rdlock_test
  rdlock_loop-canceled c s [] = refl
  rdlock_loop-canceled c s (w ∷ ws) = refl

  rdlock_loop-idle :
      (c : Channel) (s : Shm) (w : Wakeup) (ws : List Wakeup) (b : Bool)
      → w.cancel ≡ b
      → c.cancel ≡ false
      → c.seq_num ≡ s.last_seq
      → takes w.code ≡ true
      → w.shm.dirty ≡ 0
      → rdlock_loop true timed c s (w ∷ ws)
        ≡ map_done
            (after_calls (wait timed w.code ∷ (check_lock w.code w.shm true).1))
            (rdlock_loop true timed (record c { cancel = b }) w.shm ws)
  unfolding rdlock_loop rdlock_test
  rdlock_loop-idle c s w ws b e running nothing t h = rw (
    ← e,
    rdlock_loop,
    rdlock_test,
    running,
    eq→== c.seq_num s.last_seq nothing,
    check_lock-taken w.code w.shm true t h,
  )

  loop-wakes :
      (c : Channel) (s : Shm) (ws : List Wakeup) (w : Wakeup) (later : List Wakeup)
      → c.cancel ≡ false
      → c.seq_num ≡ s.last_seq
      → All (Idle c.seq_num) ws
      → takes w.code ≡ true
      → w.shm.dirty ≡ 0
      → w.cancel ≡ true
      → rdlock_loop true timed c s (ws ++ (w ∷ later))
        ≡ done (record {
          status = canceled;
          chan = record c { cancel = true };
          shm = w.shm;
          calls = wake_calls timed (ws ++ (w ∷ [])) ++ (unlock ∷ []);
        })
  loop-wakes c s [] w later running nothing idle t h e =
      rdlock_loop-idle c s w later true e running nothing t h
      ∙ ap (map_done (after_calls (wait timed w.code ∷ (check_lock w.code w.shm true).1)))
          (rdlock_loop-canceled c w.shm later)
      ∙ ap
          (λ cs. done (record {
            status = canceled;
            chan = record c { cancel = true };
            shm = w.shm;
            calls = wait timed w.code ∷ cs;
          }))
          (sym (append_assoc (check_lock w.code w.shm true).1 [] (unlock ∷ [])))
  loop-wakes c s (v ∷ ws) w later running nothing idle t h e =
      rdlock_loop-idle c s v (ws ++ (w ∷ later)) false idle.0.uncanceled running nothing
        idle.0.taken idle.0.clean
      ∙ ap (map_done (after_calls (wait timed v.code ∷ (check_lock v.code v.shm true).1))) (
          loop-wakes (record c { cancel = false }) v.shm ws w later refl idle.0.nothing idle.1 t h
            e)
      ∙ ap
          (λ cs. done (record {
            status = canceled;
            chan = record c { cancel = true };
            shm = w.shm;
            calls = wait timed v.code ∷ cs;
          }))
          (sym (
            append_assoc (check_lock v.code v.shm true).1 (wake_calls timed (ws ++ (w ∷ [])))
              (unlock ∷ [])))

-- An rdlock that waits on a clean memory with nothing new, is woken any number of times with
-- nothing new and nothing wrong, and is then woken to find its handle canceled, returns
-- ACH_CANCELED whatever might come later, releases the mutex, and has made exactly the calls of
-- those waits.
pub rdlock-wakes :
    (i : Code) (timed : Bool) (c : Channel) (s : Shm) (ws : List Wakeup) (w : Wakeup)
    (later : List Wakeup)
    → takes i ≡ true
    → s.dirty ≡ 0
    → c.cancel ≡ false
    → c.seq_num ≡ s.last_seq
    → All (Idle c.seq_num) ws
    → takes w.code ≡ true
    → w.shm.dirty ≡ 0
    → w.cancel ≡ true
    → rdlock i true timed c s (ws ++ (w ∷ later))
      ≡ done (record {
        status = canceled;
        chan = record c { cancel = true };
        shm = w.shm;
        calls = lock_calls i ++ (wake_calls timed (ws ++ (w ∷ [])) ++ (unlock ∷ []));
      })
unfolding rdlock
rdlock-wakes i timed c s ws w later hi clean running nothing idle t h e = rw (
  rdlock,
  chan_lock_clean i s hi clean,
  loop-wakes timed c s ws w later running nothing idle t h e,
)

module _ (os : Os) (chan : Channel) (s : Shm) where
  gives_back :
      (t : List Call)
      → is_ok (chan_lock os.locked s).0 ≡ true
      → held_by true (unlock ∷ t) ≡ some false
      → Disciplined ((chan_lock os.locked s).1 ++ (unlock ∷ t))
  gives_back t good e =
      held_by-append false true (chan_lock os.locked s).1 (unlock ∷ t)
        (chan_lock-held os.locked s ∙ ap some good)
      ∙ e

  cancel_locked-Disciplined : Disciplined (cancel_locked os chan s).calls
  unfolding cancel_locked
  cancel_locked-Disciplined = elim (Bool-cases (is_ok (chan_lock os.locked s).0)) [
    | inr bad ↦ rw (cancel_locked, bad) (chan_lock-held os.locked s ∙ ap some bad)
    | inl good ↦ elim (Bool-cases (is_success os.unlocked)) [
      | inr stuck ↦ rw (cancel_locked, good, stuck) (gives_back [] good refl)
      | inl freed ↦ elim (Bool-cases (is_success os.broadcasted)) [
        | inr quiet ↦ rw (cancel_locked, good, freed, quiet) (gives_back (broadcast ∷ []) good refl)
        | inl woken ↦ rw (cancel_locked, good, freed, woken) (gives_back (broadcast ∷ []) good refl)
      ]
    ]
  ]

  cancel_child-Disciplined : Disciplined (cancel_child os chan s).calls
  unfolding cancel_child
  cancel_child-Disciplined = elim (Bool-cases (is_ok (chan_lock os.locked s).0)) [
    | inr bad ↦ rw (cancel_child, bad) (chan_lock-held os.locked s ∙ ap some bad)
    | inl good ↦ elim (Bool-cases (is_success os.unlocked)) [
      | inr stuck ↦ rw (cancel_child, good, stuck) (gives_back [] good refl)
      | inl freed ↦ elim (Bool-cases (is_success os.broadcasted)) [
        | inr quiet ↦ rw (cancel_child, good, freed, quiet) (gives_back (broadcast ∷ []) good refl)
        | inl woken ↦ rw (cancel_child, good, freed, woken) (gives_back (broadcast ∷ []) good refl)
      ]
    ]
  ]

-- On every path of ach_cancel, in the caller, in the child that it forks and on a failed fork,
-- with any result codes, its calls keep the rule on the mutex: taken at most once, released if
-- taken, and not held at the end.
pub cancel-Disciplined :
    (os : Os) (forked : Fork) (chan : Channel) (s : Shm) (async_unsafe : Bool)
    → Disciplined (cancel os forked chan s async_unsafe).calls
unfolding cancel
cancel-Disciplined os forked chan s true = cancel_locked-Disciplined os chan s
cancel-Disciplined os child chan s false =
    cancel_child-Disciplined os (record chan { cancel = true }) s
cancel-Disciplined os parent chan s false = refl
cancel-Disciplined os fork_error chan s false = refl
