-- ===== src/Get/Refine.antt =====
-- `ach_get` as a whole: locking, waiting, reading, releasing.
use mathlib.Core.Path.{subst}
use ach.Base.{
  ℕ, ◌≤◌, ◌≡◌, ◌≢◌, refl, sym, ap, ◌∙◌, Bool, true, false, inl, inr, Bool-cases, none, some, List,
  [], ◌∷◌, ◌++◌, length, Exec, done, stop, arith, ◌==◌,
}
use ach.Log.{is_stale}
use ach.Shm.{Status, ok, Shm, Index, Channel, check_guards}
use ach.Shm.View.{view, Ready, CanRead}
use ach.Sync.{Os, success, unlock, Locked, Wakeup, is_ok, rdlock, unrdlock}
use ach.Sync.Discipline.{takes, Disciplined, held_by}
use ach.Sync.Results.{lock_calls, rdlock-pass, unrdlock_clean}
use ach.Sync.ReadLock.{All, Granted, rdlock-Granted}
use ach.Sync.Balance.{Holds, rdlock-Holds, held_by-append}
use ach.Get.{ReadResult, GetResult, get, o_wait, o_copy, read_frame}
use ach.Get.Fetch.{fetch, read_frame-fetch}

-- A memory that the handle can be used on, with its entries.
pub record Usable (chan : Channel) (s : Shm) : Type 0 where
  pub entries : List Index
  pub ready : Ready s entries
  pub reads : CanRead s chan

pub CanRead-cancel :
    {s : Shm} {chan : Channel} (b : Bool) → CanRead s chan → CanRead s (record chan { cancel = b })
CanRead-cancel b c = record { seen = c.seen; hint_in = c.hint_in; hint = c.hint }

-- What `ach_get` returns once the read lock `l` is granted and the frame is read.
abbrev pub got : ReadResult → Locked → GetResult
got r l = record {
  status = r.status;
  chan = r.chan;
  shm = l.shm;
  buf = r.buf;
  frame_size = r.frame_size;
  calls = l.calls ++ (unlock ∷ []);
}

is_ok-eq : (r : Status) → is_ok r ≡ true → r ≡ ok
is_ok-eq r e = ground arith

module _ (os : Os) (chan : Channel) (s : Shm) (buf : List ℕ) (size : ℕ) (timed : Bool) (options : ℕ)
    (wakes : List Wakeup) where
  -- the code after the lock
  get-locked :
      {l : Locked} {es : List Index}
      → check_guards s ≡ ok
      → rdlock os.locked (o_wait options) timed chan s wakes ≡ done l
      → l.status ≡ ok
      → Ready l.shm es
      → CanRead l.shm l.chan
      → (o_wait options ≡ true → l.chan.seq_num ≢ l.shm.last_seq)
      → os.unlocked ≡ success
      → size ≤ length buf
      → get os chan s buf size timed options wakes
        ≡ done (got (fetch (view l.shm es) l.shm.index_cnt l.chan options buf size) l)
  unfolding get
  get-locked {l} {es} guarded locked granted ready c unread hu room = rw (
    get,
    guarded,
    locked,
    granted,
    read_frame-fetch ready.inv c ready.filled options buf size room fresh,
    unrdlock_clean os l.shm hu ready.clean,
  )
    where
      fresh :
          o_wait options ≡ true → is_stale (view l.shm es) l.chan.seq_num (o_copy options) ≡ false
      fresh w = let u = unread w in ground (arith, c.seen)

  -- If the memory that ach_get starts on and each one that it wakes to are ready channels that
  -- its handle may use, the mutex can be released, and the buffer has size bytes, then an
  -- ach_get whose read lock is granted returns what the log of that moment promises its handle
  -- (Fetch.fetch) and releases the mutex.
  pub get-fetch :
      Usable chan s
      → All (λ w. Usable chan w.shm) wakes
      → os.unlocked ≡ success
      → size ≤ length buf
      → (l : Locked) → rdlock os.locked (o_wait options) timed chan s wakes ≡ done l
      → l.status ≡ ok
      → (es : List Index) × Ready l.shm es
        × (get os chan s buf size timed options wakes
            ≡ done (got (fetch (view l.shm es) l.shm.index_cnt l.chan options buf size) l))
  get-fetch u us hu room l locked granted =
      let g : Granted (Usable chan) (o_wait options) chan l =
        rdlock-Granted (Usable chan) (o_wait options) timed os.locked chan s wakes l u us locked
          granted in
      (
        g.met.entries,
        g.met.ready,
        get-locked u.ready.guarded locked granted g.met.ready
            (subst (CanRead l.shm) (sym g.same_handle) (CanRead-cancel false g.met.reads)) g.unread
            hu room,
      )

  -- A lock that is refused, by a timeout, a cancellation or a fault, is what `ach_get` returns: the
  -- caller's buffer is untouched.
  pub get-refused :
      (l : Locked)
      → check_guards s ≡ ok
      → rdlock os.locked (o_wait options) timed chan s wakes ≡ done l
      → is_ok l.status ≡ false
      → get os chan s buf size timed options wakes
        ≡ done (record {
          status = l.status;
          chan = l.chan;
          shm = l.shm;
          buf = buf;
          frame_size = none;
          calls = l.calls;
        })
  unfolding get
  get-refused l guarded locked refused = rw (get, guarded, locked, refused)

  -- On a ready channel, with a handle that may be used and is not canceled, a mutex that can
  -- be taken and released, and an unseen message if ACH_O_WAIT is given, ach_get returns at
  -- once what the log promises (Fetch.fetch), and its calls are the lock and the unlock.
  pub get-now :
      {es : List Index}
      → Ready s es
      → CanRead s chan
      → takes os.locked ≡ true
      → os.unlocked ≡ success
      → chan.cancel ≡ false
      → (o_wait options ≡ true → chan.seq_num ≢ s.last_seq)
      → size ≤ length buf
      → get os chan s buf size timed options wakes
        ≡ done (
            got
              (fetch (view s es) s.index_cnt chan options buf size)
              (record { status = ok; chan = chan; shm = s; calls = lock_calls os.locked ++ [] }))
  get-now ready c t hu running unread room =
      get-locked ready.guarded
        (rdlock-pass (o_wait options) timed chan s os.locked wakes t ready.clean running unread)
        refl ready c unread hu room

  abbrev Keeps : Exec GetResult → Type 0
  Keeps (done r) = Disciplined r.calls
  Keeps (stop x) = Unit {0}

  get-Keeps-read :
      (l : Locked) (m : Exec ReadResult)
      → check_guards s ≡ ok
      → rdlock os.locked (o_wait options) timed chan s wakes ≡ done l
      → is_ok l.status ≡ true
      → held_by false l.calls ≡ some true
      → read_frame l.chan l.shm options buf size ≡ m
      → Keeps (get os chan s buf size timed options wakes)
  unfolding get unrdlock
  get-Keeps-read l (stop x) guarded locked granted held e = rw (get, guarded, locked, granted, e) tt
  get-Keeps-read l (done r) guarded locked granted held e = elim (Bool-cases (l.shm.dirty == 0)) [
    | inl clean ↦
        rw (get, guarded, locked, granted, e, unrdlock, clean)
          (held_by-append false true l.calls (unlock ∷ []) held)
    | inr dirty ↦ rw (get, guarded, locked, granted, e, unrdlock, dirty) tt
  ]

  get-Keeps-locked :
      (m : Exec Locked)
      → check_guards s ≡ ok
      → rdlock os.locked (o_wait options) timed chan s wakes ≡ m
      → Holds false m
      → Keeps (get os chan s buf size timed options wakes)
  unfolding get
  get-Keeps-locked (stop x) guarded locked h = rw (get, guarded, locked) tt
  get-Keeps-locked (done l) guarded locked h = elim (Bool-cases (is_ok l.status)) [
    | inl granted ↦ get-Keeps-read l _ guarded locked granted (h ∙ ap some granted) refl
    | inr refused ↦ rw (get, guarded, locked, refused) (h ∙ ap some refused)
  ]

  get-Keeps : Keeps (get os chan s buf size timed options wakes)
  unfolding get
  get-Keeps = elim (Bool-cases (is_ok (check_guards s))) [
    | inl guarded ↦
        get-Keeps-locked _ (is_ok-eq _ guarded) refl
          (rdlock-Holds os.locked (o_wait options) timed chan s wakes)
    | inr broken ↦ rw (get, broken) refl
  ]

  -- On every path on which ach_get returns, errors included, its calls on the mutex keep the
  -- rule: it takes the mutex at most once, releases it once if it took it, and waits only
  -- while it holds it.
  pub get-Disciplined :
      (r : GetResult) → get os chan s buf size timed options wakes ≡ done r → Disciplined r.calls
  get-Disciplined r e = subst Keeps e get-Keeps
