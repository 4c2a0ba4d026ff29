-- ===== src/Loud/Read.antt =====
-- `rdlock_loud` and `ach_get_loud` of src/ach.c.
use ach.Base.{
  ℕ, Bool, true, not, ◌&&◌, ◌||◌, Option, none, some, List, [], ◌∷◌, ◌++◌, ltb, leb, ◌==◌,
  if◌then◌else◌, done, stop, blocked, assert, add64,
}
use ach.Shm.{
  Status, ok, canceled, stale_frames, missed_frame, Shm, Channel, check_guards, load_index,
  oldest_index_i, last_index_i,
}
use ach.Sync.{
  Os, Code, Call, unlock, wait, Wakeup, Locked, is_ok, chan_lock, check_lock, unrdlock, after_calls,
}
use ach.Get.{ReadResult, GetResult, get_from_offset, o_wait, o_last, o_copy}
use ach.Loud.{Loud, mark, times, say, quiet, and_then, map_loud}

-- what is printed before the condition wait
abbrev pub say_wait {ℓ} : {A : Type ℓ} → (timed : Bool) → Loud A → Loud A
say_wait timed m = record {
  printed = (if timed then mark 6 43101 ∷ times ∷ [] else mark 6 43111 ∷ []) ++ m.printed;
  result = m.result;
}

-- the tests at the head of the loop of `rdlock_loud`
unfoldable pub rdlock_test_loud :
    (wants_wait : Bool) → Channel → Shm → Loud (Option (Status × List Call))
rdlock_test_loud wants_wait c s =
    if c.cancel
    then say 6 401 (say 6 402 (quiet (done (some (canceled, unlock ∷ [])))))
    else if not wants_wait
    then say 6 411 (quiet (done (some (ok, []))))
    else if c.seq_num == s.last_seq
    then say 6 431 (quiet (done none))
    else say 6 421 (quiet (done (some (ok, []))))

unfoldable pub rdlock_loop_loud :
    (wants_wait timed : Bool) → Channel → Shm → List Wakeup → Loud Locked
rdlock_loop_loud wants_wait timed c s [] = and_then (rdlock_test_loud wants_wait c s) (λ o. elim o [
  | some (r, cs) ↦ say 6 5 (quiet (done (record { status = r; chan = c; shm = s; calls = cs })))
  | none ↦ say_wait timed (quiet (stop blocked))
])
rdlock_loop_loud wants_wait timed c s (w ∷ ws) = and_then (rdlock_test_loud wants_wait c s) (λ o.
    elim o [
      | some (r, cs) ↦ say 6 5 (quiet (done (record { status = r; chan = c; shm = s; calls = cs })))
      | none ↦
          let c' : Channel = record c { cancel = w.cancel } in
          let (r, cs) = check_lock w.code w.shm true in
          let rest = rdlock_loop_loud wants_wait timed c' w.shm ws in
          say_wait timed (
            say 6 432 (
              say 6 433 (
                if is_ok r
                then map_loud (after_calls (wait timed w.code ∷ cs)) rest
                else say 6 5 (
                    quiet (
                      done (record {
                        status = r;
                        chan = c';
                        shm = w.shm;
                        calls = wait timed w.code ∷ cs;
                      }))))))
    ])

unfoldable pub rdlock_loud :
    Code → (wants_wait timed : Bool) → Channel → Shm → List Wakeup → Loud Locked
rdlock_loud i wants_wait timed c s wakes =
    let (r, cs) = chan_lock i s in
    say 6 1 (
      say 6 2 (
        say 6 3 (
          if is_ok r
          then say 6 4 (map_loud (after_calls cs) (rdlock_loop_loud wants_wait timed c s wakes))
          else quiet (done (record { status = r; chan = c; shm = s; calls = cs })))))

-- "Compute the index to read"
unfoldable pub read_index_loud : Channel → Shm → (last copy : Bool) → Loud ℕ
read_index_loud chan s last copy =
    if last
    then say 9 1101 (quiet (done (last_index_i s)))
    else and_then (quiet (load_index s chan.next_index)) (λ next.
      if next.seq_num == add64 chan.seq_num 1
      then say 9 1111 (quiet (done chan.next_index))
      else say 9 1121 (
          if chan.seq_num == s.last_seq
          then say 9 112101
              (and_then (quiet (assert copy)) (λ _. say 9 112102 (quiet (done (last_index_i s)))))
          else say 9 112111 (quiet (done (oldest_index_i s)))))

-- what `ach_get_loud` does while it holds the mutex
unfoldable pub read_frame_loud :
    Channel → Shm → (options : ℕ) → (buf : List ℕ) → (size : ℕ) → Loud ReadResult
read_frame_loud chan s options buf size = say 8 0 (
    and_then (quiet (assert (leb chan.seq_num s.last_seq))) (λ _. say 9 0 (
      if ((chan.seq_num == s.last_seq) && not (o_copy options)) || (s.last_seq == 0)
      then say 9 1 (
          and_then (quiet (assert (not (o_wait options)))) (λ _. say 9 2 (
            quiet (
              done (record { status = stale_frames; chan = chan; buf = buf; frame_size = none })))))
      else say 9 11 (
          and_then (read_index_loud chan s (o_last options) (o_copy options)) (λ i. say 9 12 (
            and_then (quiet (load_index s i)) (λ e. say 9 13 (
              and_then (quiet (get_from_offset chan s i buf size)) (λ r. say 9 14 (
                and_then (quiet (assert (ltb 0 e.seq_num))) (λ _. quiet (
                  done (
                    if is_ok r.status && ltb (add64 chan.seq_num 1) e.seq_num
                    then record r { status = missed_frame }
                    else r)))))))))))))

unfoldable pub get_loud :
    Os
    → Channel
    → Shm
    → (buf : List ℕ) → (size : ℕ) → (timed : Bool) → (options : ℕ) → List Wakeup
    → Loud GetResult
get_loud os chan s buf size timed options wakes =
    let guards = check_guards s in
    say 1 0 (
      say 2 0 (
        say 3 0 (
          say 4 0 (
            if not (is_ok guards)
            then quiet (
                done (record {
                  status = guards;
                  chan = chan;
                  shm = s;
                  buf = buf;
                  frame_size = none;
                  calls = [];
                }))
            else say 5 0 (
                say 6 0 (
                  and_then (rdlock_loud os.locked (o_wait options) timed chan s wakes) (λ l.
                    say 7 0 (
                      if not (is_ok l.status)
                      then quiet (
                          done (record {
                            status = l.status;
                            chan = l.chan;
                            shm = l.shm;
                            buf = buf;
                            frame_size = none;
                            calls = l.calls;
                          }))
                      else and_then (read_frame_loud l.chan l.shm options buf size) (λ r. say 10 0 (
                          and_then (quiet (unrdlock os l.shm)) (λ (u, cs). say 11 0 (
                            if is_ok u
                            then say 12 0 (
                                quiet (
                                  done (record {
                                    status = r.status;
                                    chan = r.chan;
                                    shm = l.shm;
                                    buf = r.buf;
                                    frame_size = r.frame_size;
                                    calls = l.calls ++ cs;
                                  })))
                            else quiet (
                                done (record {
                                  status = u;
                                  chan = r.chan;
                                  shm = l.shm;
                                  buf = r.buf;
                                  frame_size = r.frame_size;
                                  calls = l.calls ++ cs;
                                }))))))))))))))
