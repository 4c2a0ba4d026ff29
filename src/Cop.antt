-- ===== src/Cop.antt =====
-- The process watcher of src/achcop.c, with the notifications of src/achutil.c: a child is started,
-- watched by its signals, and started again. What the system answers is an argument, and what the
-- program does to other processes is a list of actions; what it logs is left out.
pub mod Rounds
pub mod Child
pub mod Notice
pub mod Stops
pub mod Setup
use ach.Base.{ℕ, Bool, true, false, Option, none, some, List, [], ◌∷◌, ◌++◌, ◌==◌, if◌then◌else◌}

-- `achcop_signals`; ACH_SIG_OK is SIGUSR1, ACH_SIG_FAIL is SIGUSR2.
pub data Signal : Type 0 where
  sig_int sig_term sig_chld sig_ok sig_fail sig_alrm sig_hup : Signal

-- the status that `waitpid` stores: `exited` with WEXITSTATUS, `signaled`, or neither
pub data WaitStatus : Type 0 where
  exited : (code : ℕ) → WaitStatus
  signaled : WaitStatus
  neither : WaitStatus

-- what a call of `waitpid` with WNOHANG returns: an error, or a process number, 0 if the child has
-- not changed its state
pub data WaitPid : Type 0 where
  wait_interrupted wait_failed : WaitPid
  waited : (pid : ℕ) → WaitStatus → WaitPid

-- What is done to other processes: `reaped` is a `waitpid` that has taken the child's status.
pub data Action : Type 0 where
  forked : (pid : ℕ) → Action
  alarmed : Action
  killed : (pid : ℕ) → Action
  reaped : (pid : ℕ) → Action
  notified : (pid : ℕ) → Signal → Action

-- the variables of `run`, with `struct flags` and the global `ach_pid_notify`
pub record Cop : Type 0 where
  pub first_run : Bool
  pub restart : Bool
  pub force_restart : Bool
  pub start : Bool
  pub done : Bool
  pub pid_child : ℕ
  pub exit_status : ℕ
  pub pid_notify : ℕ

-- How a piece of the loop leaves the program: going on, exited by `ach_die`, or still in a call.
pub data After : Type 0 where
  goes_on : Cop → After
  dead : After
  stuck : After

-- a piece of the loop, with its actions
pub record Turn : Type 0 where
  pub state : After
  pub actions : List Action

-- EXIT_SUCCESS and EXIT_FAILURE
abbrev pub exit_success : ℕ
exit_success = 0

abbrev pub exit_failure : ℕ
exit_failure = 1

-- `ach_notify`: the state after it, and its action
unfoldable pub notify : Signal → Cop → Cop × List Action
notify sig c =
    if c.pid_notify == 0
    then (c, [])
    else (record c { pid_notify = 0 }, notified c.pid_notify sig ∷ [])

-- `ach_die`, before it exits; `parent` is what `getppid` returns.
unfoldable pub die : (parent : ℕ) → Cop → Turn
die parent c = record {
  state = dead;
  actions = if parent == c.pid_notify then [] else (notify sig_fail c).1;
}

-- `start_child` in the parent. `pid` is what `fork` returns, `none` for an error; `recorded` is
-- whether `write_pid` comes back, which exits the program if it cannot truncate the file.
unfoldable pub start_child : (parent : ℕ) → (pid : Option ℕ) → (recorded : Bool) → Cop → Turn
start_child parent none recorded c = die parent c
start_child parent (some pid) recorded c =
    let c' : Cop = record c { pid_child = pid } in
    if recorded
    then record { state = goes_on c'; actions = forked pid ∷ [] }
    else record { state = dead; actions = forked pid ∷ (die parent c').actions }

abbrev pub and_alarm : Turn → Turn
and_alarm t = elim t.state [
  | dead ↦ t
  | stuck ↦ t
  | goes_on c ↦ record {
    state = goes_on (record c { start = false; force_restart = false });
    actions = if c.first_run then t.actions ++ (alarmed ∷ []) else t.actions;
  }
]

-- "start"
unfoldable pub start_turn : (parent : ℕ) → (pid : Option ℕ) → (recorded : Bool) → Cop → Turn
start_turn parent pid recorded c =
    if c.start
    then and_alarm (start_child parent pid recorded c)
    else record { state = goes_on c; actions = [] }

abbrev pub status_of : WaitStatus → ℕ
status_of (exited code) = code
status_of _ = exit_failure

-- `waitloop`, on what each call of `waitpid` returns; where the list ends, it still tries.
unfoldable pub waitloop : (parent : ℕ) → List WaitPid → Cop → Turn
waitloop parent [] c = record { state = stuck; actions = [] }
waitloop parent (wait_interrupted ∷ ws) c = waitloop parent ws c
waitloop parent (wait_failed ∷ ws) c = die parent c
waitloop parent (waited pid st ∷ ws) c =
    if pid == c.pid_child
    then record {
      state = goes_on (record c { exit_status = status_of st });
      actions = reaped pid ∷ [];
    }
    else die parent c

-- "Decide whether to restart the child"
unfoldable pub decide : Cop → Cop
decide c =
    if c.force_restart
    then record c { start = true }
    else if c.exit_status == exit_success
    then record c { done = true }
    else if c.first_run
    then record c { done = true }
    else if c.restart
    then record c { start = true }
    else record c { done = true }

abbrev pub and_decide : Turn → Turn
and_decide t = elim t.state [
  | dead ↦ t
  | stuck ↦ t
  | goes_on c ↦ record { state = goes_on (decide c); actions = t.actions }
]

-- "handle signal"
unfoldable pub handle : (parent : ℕ) → List WaitPid → Signal → Cop → Turn
handle parent ws sig_term c = record {
  state = goes_on (record c { restart = false });
  actions = killed c.pid_child ∷ [];
}
handle parent ws sig_int c = record {
  state = goes_on (record c { restart = false });
  actions = killed c.pid_child ∷ [];
}
handle parent ws sig_chld c = and_decide (waitloop parent ws c)
handle parent ws sig_hup c = record {
  state = goes_on (record c { force_restart = true });
  actions = killed c.pid_child ∷ [];
}
handle parent ws sig_alrm c =
    let (c', acts) = notify sig_ok (record c { first_run = false }) in
    record { state = goes_on c'; actions = acts }
handle parent ws sig_ok c =
    let (c', acts) = notify sig_ok (record c { first_run = false }) in
    record { state = goes_on c'; actions = acts }
handle parent ws sig_fail c = record { state = goes_on c; actions = [] }

-- What a round of the loop meets: what `fork` returns if a child is started and whether its number
-- could be recorded, the signal that comes, and what `waitpid` returns.
pub record Round : Type 0 where
  pub fork : Option ℕ
  pub recorded : Bool
  pub signal : Signal
  pub waits : List WaitPid

-- how `run` ends, if it does
pub data RunEnd : Type 0 where
  returned : (status : ℕ) → RunEnd
  died : RunEnd
  running : RunEnd

pub record Ran : Type 0 where
  pub end : RunEnd
  pub actions : List Action

abbrev pub after_actions : List Action → Ran → Ran
after_actions acts r = record { end = r.end; actions = acts ++ r.actions }

-- "Signal status"
unfoldable pub finish : Cop → Ran
finish c = record {
  end = returned c.exit_status;
  actions = (notify (if c.exit_status == exit_success then sig_ok else sig_fail) c).1;
}

-- what follows a piece of the loop
abbrev pub and_next : Turn → (Cop → Ran) → Ran
and_next t next = elim t.state [
  | dead ↦ record { end = died; actions = t.actions }
  | stuck ↦ record { end = running; actions = t.actions }
  | goes_on c ↦ after_actions t.actions (next c)
]

-- The loop of `run`; where the list of rounds ends, it still runs.
unfoldable pub run_loop : (parent : ℕ) → List Round → Cop → Ran
run_loop parent [] c = if c.done then finish c else record { end = running; actions = [] }
run_loop parent (r ∷ rs) c =
    if c.done
    then finish c
    else and_next (start_turn parent r.fork r.recorded c)
        (λ c₁. and_next (handle parent r.waits r.signal c₁) (λ c₂. run_loop parent rs c₂))

-- `run`. Before the first child is started, `pid_child` is -1; it is not read then.
unfoldable pub run : (parent pid_notify : ℕ) → (restart : Bool) → List Round → Ran
run parent pid_notify restart rs = run_loop parent rs (record {
  first_run = true;
  restart = restart;
  force_restart = false;
  start = true;
  done = false;
  pid_child = 0;
  exit_status = exit_failure;
  pid_notify = pid_notify;
})

-- What the grandparent of `ach_detach` exits with, by the signal that it gets: its alarm, or what
-- the detached process reports.
unfoldable pub detach_exit : Signal → ℕ
detach_exit sig_alrm = exit_failure
detach_exit sig_fail = exit_failure
detach_exit sig_ok = exit_success
detach_exit _ = exit_failure
