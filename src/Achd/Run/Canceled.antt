-- ===== src/Achd/Run/Canceled.antt =====
-- A signal that comes while achd waits for a message: sighandler of src/achd/achd.c, ach_cancel and
-- ach_get of src/ach.c, and the loop of achd_push_tcp in src/achd/transport.c.
use ach.Base.{
  ℕ, ◌≡◌, refl, ap, ◌∙◌, Bool, true, false, not, none, some, List, [], ◌∷◌, ◌++◌, if◌then◌else◌,
  done, Stop,
}
use ach.Shm.{Status, ok, canceled, Shm, Channel, check_guards}
use ach.Sync.{Os, Wakeup, is_ok, is_success, chan_lock, rdlock}
use ach.Sync.Discipline.{takes}
use ach.Sync.ReadLock.{All}
use ach.Cancel.{Fork, child, parent, fork_error, CancelResult, cancel, cancel_child}
use ach.Cancel.Wake.{Idle, rdlock-wakes}
use ach.Get.{GetResult, get, o_wait}
use ach.Get.Refine.{get-refused}
use ach.Achd.Transport.{Conn, GetBack, Attempt, PushRound, take_result, get_frame, push_tcp}
use ach.Achd.Run.{Handled, sighandler}

by_test :
    (b : Bool) (x y : CancelResult)
    → x.chan.cancel ≡ true
    → y.chan.cancel ≡ true
    → (if b then x else y).chan.cancel ≡ true
by_test true x y h k = h
by_test false x y h k = k

cancel_child-canceled :
    (os : Os) (chan : Channel) (shm : Shm)
    → chan.cancel ≡ true
    → (cancel_child os chan shm).chan.cancel ≡ true
unfolding cancel_child
cancel_child-canceled os chan shm h = by_test (not (is_ok (chan_lock os.locked shm).0)) _ _ h (
    by_test (not (is_success os.unlocked)) _ _ h
      (by_test (not (is_success os.broadcasted)) _ _ h h))

-- After SIGTERM or SIGINT the flag is set and the handle of an open channel is canceled, also if fork
-- fails.
sighandler-cancels :
    (os : Os) (forked : Fork) (chan : Channel) (shm : Shm) (sig_received : Bool)
    → (r : CancelResult) × (sighandler os forked (some (chan, shm)) true sig_received
        ≡ record { sig_received = true; canceled = some r })
      × (r.chan.cancel ≡ true)
unfolding sighandler cancel
sighandler-cancels os parent chan shm sig_received = (_, refl, refl)
sighandler-cancels os fork_error chan shm sig_received = (_, refl, refl)
sighandler-cancels os child chan shm sig_received =
    (_, refl, cancel_child-canceled os (record chan { cancel = true }) shm refl)

-- whether a handle is canceled after the signal handler
abbrev pub is_canceled : Handled → Bool
is_canceled h = elim h.canceled [ none ↦ false | some r ↦ r.chan.cancel ]

handled-canceled :
    (os : Os) (forked : Fork) (chan : Channel) (shm : Shm) (sig_received : Bool)
    → is_canceled (sighandler os forked (some (chan, shm)) true sig_received) ≡ true
handled-canceled os forked chan shm sig_received =
    let (r, e, c) = sighandler-cancels os forked chan shm sig_received in ap is_canceled e ∙ c

handled-flag :
    (os : Os) (forked : Fork) (chan : Channel) (shm : Shm) (sig_received : Bool)
    → (sighandler os forked (some (chan, shm)) true sig_received).sig_received ≡ true
handled-flag os forked chan shm sig_received =
    let (r, e, c) = sighandler-cancels os forked chan shm sig_received in
    ap (λ (h : Handled). h.sig_received) e

-- what `get_frame` sees of a call of ach_get that has copied nothing
abbrev pub back_of : GetResult → Handled → GetBack
back_of r h = record { status = r.status; frame_size = 0; bytes = []; sig = h.sig_received }

module _ (shl : ℕ → ℕ → ℕ) (malloc : ℕ → List ℕ) (err : Status → Stop) (reconnect : Bool) where
  push_tcp-canceled :
      (g : GetBack) (gs : List GetBack) (attempts : List Attempt) (rounds : List PushRound)
      (c : Conn)
      → g.status ≡ canceled
      → g.sig ≡ true
      → push_tcp shl malloc err reconnect
          (record { gets = g ∷ gs; attempts = attempts } ∷ rounds)
          false
          c
        ≡ record { events = []; end = done c }
  unfolding push_tcp get_frame take_result
  push_tcp-canceled g gs attempts rounds c s sig = rw (push_tcp, s, sig)

  -- If ach_get with ACH_O_WAIT waits on a channel with good guards, a free mutex and nothing
  -- new, through a handle that is not canceled, and is woken any number of times with nothing
  -- new and nothing wrong and then after achd's signal handler has handled SIGTERM or SIGINT
  -- for that handle (however its fork and its calls end), the handle's flag as the handler
  -- leaves it, then that ach_get returns ACH_CANCELED with the buffer untouched, and the round
  -- of achd_push_tcp that has called it returns at once, nothing more being sent.
  pub sighandler-ends :
      (os handler_os : Os) (forked : Fork) (chan : Channel) (s shm : Shm) (buf : List ℕ)
      (size options : ℕ) (ws later : List Wakeup) (w : Wakeup) (gs : List GetBack)
      (attempts : List Attempt) (rounds : List PushRound) (c : Conn)
      → check_guards s ≡ ok
      → takes os.locked ≡ true
      → s.dirty ≡ 0
      → chan.cancel ≡ false
      → chan.seq_num ≡ s.last_seq
      → o_wait options ≡ true
      → All (Idle chan.seq_num) ws
      → takes w.code ≡ true
      → w.shm.dirty ≡ 0
      → w.cancel ≡ is_canceled (sighandler handler_os forked (some (chan, shm)) true false)
      → (r : GetResult) × (get os chan s buf size false options (ws ++ (w ∷ later)) ≡ done r)
        × (r.status ≡ canceled)
        × (r.buf ≡ buf)
        × (push_tcp shl malloc err reconnect
              (record {
                gets = back_of r (sighandler handler_os forked (some (chan, shm)) true false) ∷ gs;
                attempts = attempts;
              }
                ∷ rounds)
              false
              c
            ≡ record { events = []; end = done c })
  sighandler-ends os handler_os forked chan s shm buf size options ws later w gs attempts rounds c
        guards l clean running nothing waits idle t wclean e =
      (
        _,
        get-refused os chan s buf size false options (ws ++ (w ∷ later)) _ guards
            (ap (λ b. rdlock os.locked b false chan s (ws ++ (w ∷ later))) waits
              ∙ rdlock-wakes os.locked false chan s ws w later l clean running nothing idle t wclean
                  (e ∙ handled-canceled handler_os forked chan shm false))
            refl,
        refl,
        refl,
        push_tcp-canceled _ gs attempts rounds c refl
            (handled-flag handler_os forked chan shm false),
      )
