-- ===== src/Cop/Notice.antt =====
-- What src/achcop.c reports to the process that detached it.
use mathlib.Core.Path.{subst}
use ach.Base.{
  ℕ, ◌+◌, ◌≤◌, ◌≡◌, sym, Bool, Option, none, some, List, [], ◌∷◌, ◌++◌, length, ◌==◌, if◌then◌else◌,
  Bool-cases, inl, inr, arith,
}
use ach.Cop.Rounds.{run_loop-goes, run_loop-done}
use ach.Cop.{
  Signal, sig_int, sig_term, sig_chld, sig_ok, sig_fail, sig_alrm, sig_hup, WaitPid,
  wait_interrupted, wait_failed, waited, Action, forked, alarmed, killed, reaped, notified, Cop,
  After, goes_on, dead, stuck, notify, die, start_child, start_turn, waitloop, decide, handle,
  Round, Ran, finish, run_loop, run, and_decide, and_next,
}

-- the notifications among the actions
abbrev pub notices : List Action → List (ℕ × Signal)
notices [] = []
notices (notified p s ∷ acts) = (p, s) ∷ notices acts
notices (_ ∷ acts) = notices acts

notices-append :
    (acts bs : List Action)
    → length (notices (acts ++ bs)) ≡ length (notices acts) + length (notices bs)
notices-append [] bs = omega arith
notices-append (notified p s ∷ acts) bs = omega (arith, notices-append acts bs)
notices-append (forked p ∷ acts) bs = notices-append acts bs
notices-append (alarmed ∷ acts) bs = notices-append acts bs
notices-append (killed p ∷ acts) bs = notices-append acts bs
notices-append (reaped p ∷ acts) bs = notices-append acts bs

-- how many notifications may still be sent
abbrev budget : Cop → ℕ
budget c = if c.pid_notify == 0 then 0 else 1

abbrev Spends : ℕ → After → List Action → Type 0
Spends n (goes_on c) acts = length (notices acts) + budget c ≤ n
Spends n dead acts = length (notices acts) ≤ n
Spends n stuck acts = length (notices acts) ≤ n

die-Spends : (parent : ℕ) (c : Cop) → length (notices (die parent c).actions) ≤ budget c
unfolding die notify
die-Spends parent c = ground arith

start_turn-Spends :
    (parent : ℕ) (pid : Option ℕ) (recorded : Bool) (c : Cop)
    → Spends
        (budget c)
        (start_turn parent pid recorded c).state
        (start_turn parent pid recorded c).actions
unfolding start_turn start_child die notify
start_turn-Spends parent none recorded c = ground arith
start_turn-Spends parent (some p) recorded c = ground arith

waitloop-Spends :
    (parent : ℕ) (ws : List WaitPid) (c : Cop)
    → Spends
        (budget c)
        (and_decide (waitloop parent ws c)).state
        (and_decide (waitloop parent ws c)).actions
unfolding waitloop decide die
waitloop-Spends parent [] c = omega arith
waitloop-Spends parent (wait_interrupted ∷ ws) c = waitloop-Spends parent ws c
waitloop-Spends parent (wait_failed ∷ ws) c = die-Spends parent c
waitloop-Spends parent (waited pid st ∷ ws) c = elim (Bool-cases (pid == c.pid_child)) [
  | inl right ↦ rw (right) (ground arith)
  | inr wrong ↦ rw (wrong) (die-Spends parent c)
]

handle-Spends :
    (parent : ℕ) (ws : List WaitPid) (sig : Signal) (c : Cop)
    → Spends (budget c) (handle parent ws sig c).state (handle parent ws sig c).actions
unfolding handle notify
handle-Spends parent ws sig_chld c = waitloop-Spends parent ws c
handle-Spends parent ws sig_int c = ground arith
handle-Spends parent ws sig_term c = ground arith
handle-Spends parent ws sig_hup c = ground arith
handle-Spends parent ws sig_alrm c = ground arith
handle-Spends parent ws sig_ok c = ground arith
handle-Spends parent ws sig_fail c = ground arith

finish-Spends : (c : Cop) → length (notices (finish c).actions) ≤ budget c
unfolding finish notify
finish-Spends c = ground arith

and_next-Spends :
    (n : ℕ) (a : After) (acts : List Action) (next : Cop → Ran)
    → Spends n a acts
    → ((c : Cop) → length (notices (next c).actions) ≤ budget c)
    → length (notices (and_next (record { state = a; actions = acts }) next).actions) ≤ n
and_next-Spends n dead acts next l h = l
and_next-Spends n stuck acts next l h = l
and_next-Spends n (goes_on c) acts next l h =
    omega (arith, notices-append acts (next c).actions, l, h c)

run_loop-Spends :
    (parent : ℕ) (rs : List Round) (c : Cop)
    → length (notices (run_loop parent rs c).actions) ≤ budget c
unfolding run_loop
run_loop-Spends parent [] c = elim (Bool-cases c.done) [
  | inl over ↦
      subst (λ (x : Ran). length (notices x.actions) ≤ budget c)
        (sym (run_loop-done parent [] c over)) (finish-Spends c)
  | inr on ↦ rw (on) (omega arith)
]
run_loop-Spends parent (r ∷ rs) c = elim (Bool-cases c.done) [
  | inl over ↦
      subst (λ (x : Ran). length (notices x.actions) ≤ budget c)
        (sym (run_loop-done parent (r ∷ rs) c over)) (finish-Spends c)
  | inr on ↦
      subst (λ (x : Ran). length (notices x.actions) ≤ budget c)
        (sym (run_loop-goes parent r rs c on))
        (and_next-Spends (budget c) (start_turn parent r.fork r.recorded c).state _ _
          (start_turn-Spends parent r.fork r.recorded c)
          (λ c₁.
            and_next-Spends (budget c₁) (handle parent r.waits r.signal c₁).state _ _
              (handle-Spends parent r.waits r.signal c₁) (run_loop-Spends parent rs)))
]

-- Whatever the system answers, a run of achcop sends at most one notification, and none if it
-- was told of no process to report to.
pub run-notices :
    (parent pid_notify : ℕ) (restart : Bool) (rs : List Round)
    → length (notices (run parent pid_notify restart rs).actions)
      ≤ (if pid_notify == 0 then 0 else 1)
unfolding run
run-notices parent pid_notify restart rs = run_loop-Spends parent rs _
