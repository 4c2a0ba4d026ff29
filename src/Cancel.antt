-- ===== src/Cancel.antt =====
-- `ach_cancel`, `ach_close` and `ach_unlink` of src/ach.c.
pub mod Wake
use ach.Base.{ℕ, Bool, true, false, not, Option, none, some, List, [], ◌∷◌, ◌++◌, if◌then◌else◌}
use ach.Shm.{Status, ok, failed_syscall, Shm, Channel, check_guards, invalid_name}
use ach.Sync.{Os, Call, unlock, broadcast, is_ok, is_success, chan_lock}
use ach.Name.{Errno, Sys, answer, failed, check_errno, retry, intr_retry, channel_name_ok}

-- what `fork` returns: in the child 0, in the parent the child's number, or an error
pub data Fork : Type 0 where
  child parent fork_error : Fork

-- How `ach_cancel` ends: it returns, or, in the child, the process exits.
pub data CancelEnd : Type 0 where
  returns : Status → CancelEnd
  exits : (succeeded : Bool) → CancelEnd

pub record CancelResult : Type 0 where
  pub end : CancelEnd
  pub chan : Channel
  pub calls : List Call

-- the other thread's way: `async_unsafe` is set
unfoldable pub cancel_locked : Os → Channel → Shm → CancelResult
cancel_locked os chan s =
    let (r, cs) = chan_lock os.locked s in
    let chan' : Channel = record chan { cancel = true } in
    if not (is_ok r)
    then record { end = returns r; chan = chan; calls = cs }
    else if not (is_success os.unlocked)
    then record { end = returns failed_syscall; chan = chan'; calls = cs ++ (unlock ∷ []) }
    else if not (is_success os.broadcasted)
    then record {
      end = returns failed_syscall;
      chan = chan';
      calls = cs ++ (unlock ∷ broadcast ∷ []);
    }
    else record { end = returns ok; chan = chan'; calls = cs ++ (unlock ∷ broadcast ∷ []) }

-- what the child of a signal handler does
unfoldable pub cancel_child : Os → Channel → Shm → CancelResult
cancel_child os chan s =
    let (r, cs) = chan_lock os.locked s in
    if not (is_ok r)
    then record { end = exits false; chan = chan; calls = cs }
    else if not (is_success os.unlocked)
    then record { end = exits false; chan = chan; calls = cs ++ (unlock ∷ []) }
    else if not (is_success os.broadcasted)
    then record { end = exits false; chan = chan; calls = cs ++ (unlock ∷ broadcast ∷ []) }
    else record { end = exits true; chan = chan; calls = cs ++ (unlock ∷ broadcast ∷ []) }

unfoldable pub cancel : Os → Fork → Channel → Shm → (async_unsafe : Bool) → CancelResult
cancel os forked chan s true = cancel_locked os chan s
cancel os child chan s false = cancel_child os (record chan { cancel = true }) s
cancel os parent chan s false = record {
  end = returns ok;
  chan = record chan { cancel = true };
  calls = [];
}
cancel os fork_error chan s false = record {
  end = returns failed_syscall;
  chan = record chan { cancel = true };
  calls = [];
}

-- `unmapped` is whether `munmap` returns 0, `closed` what each attempt at `close` returns.
unfoldable pub close :
    (unmapped : Bool) → (closed : ℕ → Sys (Unit {0})) → Channel → Shm → Status × Channel
close unmapped closed chan s =
    let guards = check_guards s in
    let chan' : Channel = record chan { mapped = false } in
    if not (is_ok guards)
    then (guards, chan)
    else if chan.map_anon
    then (ok, chan)
    else if not unmapped
    then (failed_syscall, chan)
    else elim (retry intr_retry 0 closed) [
      | failed e ↦ (failed_syscall, chan')
      | answer _ ↦ (ok, chan')
    ]

-- `unlinked` is what `shm_unlink` returns: `none` is success, `some` the `errno`.
unfoldable pub unlink : (isalnum : ℕ → Bool) → (unlinked : Option Errno) → (name : List ℕ) → Status
unlink isalnum unlinked name =
    if not (channel_name_ok isalnum name)
    then invalid_name
    else elim unlinked [ none ↦ ok | some e ↦ check_errno e ]
