-- ===== src/Put/Unlocked.antt =====
-- `ach_put` does not look at what `wrlock` returns: what that means for its calls on the mutex, and
-- for a channel whose last writer died.
use mathlib.Core.Path.{subst}
use ach.Base.{
  ℕ, ◌+◌, ◌≤◌, ◌<◌, ◌≡◌, refl, ◌∙◌, true, false, some, none, List, [], ◌∷◌, ◌++◌, length, take,
  word, arith, Bool-cases, inl, inr, not, ◌||◌, ◌==◌, ltb, Exec, done, stop, le→ltb, ne→==, ◌>>=◌,
  Option,
}
use ach.Shm.{ok, corrupt, failed_syscall, Shm, Index, Channel, check_guards}
use ach.Shm.View.{view}
use ach.Shm.Invariant.{Inv}
use ach.Log.{store}
use ach.Sync.{
  Os, Code, is_ok, is_success, unlock, broadcast, wrlock, unwrlock, chan_lock, check_lock,
  check_dirty,
}
use ach.Sync.Discipline.{takes, held_by, Disciplined}
use ach.Sync.Balance.{held_by-append}
use ach.Sync.Results.{lock_calls, wrlock_clean, unwrlock_refused}
use ach.Put.{put, put_frame, PutResult}
use ach.Put.Frame.{Framed, put_frame-Framed}

wrlock_marked :
    (c : Code) (s : Shm)
    → takes c ≡ true
    → s.dirty ≡ 1
    → wrlock c s ≡ done (corrupt, s, lock_calls c ++ (unlock ∷ []))
unfolding wrlock chan_lock check_lock check_dirty
wrlock_marked c s t h = ground arith

-- The result of `ach_put` on a memory that is marked as being written.
pub record Overwritten (s : Shm) (es : List Index) (os : Os) (m : List ℕ) (r : Exec PutResult)
    : Type 0 where
  pub last : Shm
  pub entries : List Index
  pub ends :
      r
      ≡ done (record {
        status = failed_syscall;
        shm = last;
        calls = (lock_calls os.locked ++ (unlock ∷ [])) ++ (unlock ∷ []);
      })
  pub unmarked : last.dirty ≡ 0
  pub stored : view last entries ≡ store s.index_cnt s.data_size m (view s es)
  pub undisciplined :
      held_by false ((lock_calls os.locked ++ (unlock ∷ [])) ++ (unlock ∷ [])) ≡ none

-- On a memory that is well formed but marked dirty, under the conditions of put-Stored
-- otherwise, where no other process writes meanwhile and the release of a mutex that is not held
-- fails, as that of a robust or error-checking mutex does, ach_put stores the message after
-- wrlock has released the mutex, removes the mark, calls the release a second time, which breaks
-- the rule, and returns ACH_FAILED_SYSCALL without waking the readers.
pub put-Overwritten :
    (os : Os) (chan : Channel) {s : Shm} {es : List Index} (buf : List ℕ) (len : ℕ)
    → Inv s es
    → check_guards s ≡ ok
    → s.dirty ≡ 1
    → chan.mapped ≡ true
    → takes os.locked ≡ true
    → is_success os.unlocked ≡ false
    → len ≤ length buf
    → 0 < len
    → len ≤ s.data_size
    → s.last_seq + 2 < word
    → Overwritten s es os (take len buf) (put os chan s (some buf) len)
unfolding put
put-Overwritten os chan {s} {es} buf len v guarded marked mapped hl hu given some_bytes fits
      no_wrap =
    record {
      last = record f.last { dirty = 0 };
      entries = f.entries;
      ends = rw (
        put,
        ne→== len 0 (omega arith),
        mapped,
        guarded,
        le→ltb s.data_size len fits,
        wrlock_marked os.locked s hl marked,
        f.ends,
        unwrlock_refused os f.last hu (f.dirty ∙ marked),
      );
      unmarked = refl;
      stored = f.stored;
      undisciplined = twice os.locked hl;
    }
  where
    f : Framed s es (take len buf) (put_frame s buf len)
    f = put_frame-Framed v buf len given some_bytes fits no_wrap

    twice :
        (c : Code)
        → takes c ≡ true
        → held_by false ((lock_calls c ++ (unlock ∷ [])) ++ (unlock ∷ [])) ≡ none
    twice c t = ground arith

module _ (os : Os) (chan : Channel) (s : Shm) (hl : takes os.locked ≡ true)
    (clean : s.dirty ≡ 0) where
  abbrev Keeps : Exec PutResult → Type 0
  Keeps (done r) = Disciplined r.calls
  Keeps (stop x) = Unit {0}

  lock_held : held_by false (lock_calls os.locked) ≡ some true
  lock_held = ground arith

  releases :
      (t : Shm)
      → Keeps (
          unwrlock os t >>= λ (r', s₃, ds).
          done (record { status = r'; shm = s₃; calls = lock_calls os.locked ++ ds }))
  unfolding unwrlock
  releases t = elim (Bool-cases (t.dirty == 1)) [
    | inr wrong ↦ rw (unwrlock, wrong) tt
    | inl right ↦ elim (Bool-cases (is_success os.unlocked)) [
      | inr refused ↦
          rw (unwrlock, right, refused)
            (held_by-append false true (lock_calls os.locked) (unlock ∷ []) lock_held)
      | inl released ↦ elim (Bool-cases (is_success os.broadcasted)) [
        | inr refused ↦
            rw (unwrlock, right, released, refused)
              (held_by-append false true (lock_calls os.locked) (unlock ∷ broadcast ∷ []) lock_held)
        | inl woken ↦
            rw (unwrlock, right, released, woken)
              (held_by-append false true (lock_calls os.locked) (unlock ∷ broadcast ∷ []) lock_held)
      ]
    ]
  ]

  releases_after :
      (m : Exec Shm)
      → Keeps (
          m >>= λ s₂. unwrlock os s₂ >>= λ (r', s₃, ds).
          done (record { status = r'; shm = s₃; calls = lock_calls os.locked ++ ds }))
  releases_after (done t) = releases t
  releases_after (stop x) = tt

  put-Keeps : (buf : Option (List ℕ)) (len : ℕ) → Keeps (put os chan s buf len)
  unfolding put
  put-Keeps none len = refl
  put-Keeps (some buf) len = elim (Bool-cases ((len == 0) || not chan.mapped)) [
    | inl invalid ↦ rw (put, invalid) refl
    | inr valid ↦ elim (Bool-cases (is_ok (check_guards s))) [
      | inr broken ↦ rw (put, valid, broken) refl
      | inl guarded ↦ elim (Bool-cases (ltb s.data_size len)) [
        | inl large ↦ rw (put, valid, guarded, large) refl
        | inr fits ↦
            rw (put, valid, guarded, fits, wrlock_clean os.locked s hl clean)
              (releases_after (put_frame (record s { dirty = 1 }) buf len))
      ]
    ]
  ]

  -- On a memory marked clean, with a mutex that can be taken, ach_put keeps the rule on the
  -- mutex on every path on which it returns, errors included.
  pub put-Disciplined :
      (buf : Option (List ℕ)) (len : ℕ) (r : PutResult)
      → put os chan s buf len ≡ done r
      → Disciplined r.calls
  put-Disciplined buf len r e = subst Keeps e (put-Keeps buf len)
