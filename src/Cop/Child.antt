-- ===== src/Cop/Child.antt =====
-- The child of src/achcop.c: at most one at a time, and signals only to it.
use mathlib.Core.Path.{subst}
use ach.Base.{
  ℕ, ◌≡◌, refl, sym, ap, ◌∙◌, Bool, true, false, Option, none, some, List, [], ◌∷◌, ◌++◌, ◌==◌,
  ◌||◌, if◌then◌else◌, Option-cases, Bool-cases, inl, inr, arith,
}
use ach.Cop.Rounds.{run_loop-goes, run_loop-done}
use ach.Cop.{
  Signal, sig_int, sig_term, sig_chld, sig_ok, sig_fail, sig_alrm, sig_hup, WaitPid,
  wait_interrupted, wait_failed, waited, Action, forked, alarmed, killed, reaped, notified, Cop,
  After, goes_on, dead, stuck, notify, die, start_child, start_turn, waitloop, decide, handle,
  Round, Ran, finish, run_loop, run, and_decide, and_alarm, and_next,
}

-- The child after an action, from the child before it. `none` is against the rule: a second child
-- is forked, or one is signaled or reaped that is not there.
abbrev pub child_after : Option ℕ → Action → Option (Option ℕ)
child_after none (forked p) = some (some p)
child_after (some q) (forked p) = none
child_after none (killed p) = none
child_after (some q) (killed p) = if p == q then some (some q) else none
child_after none (reaped p) = none
child_after (some q) (reaped p) = if p == q then some none else none
child_after child alarmed = some child
child_after child (notified p s) = some child

abbrev pub children : Option ℕ → List Action → Option (Option ℕ)
children child [] = some child
children child (a ∷ acts) = elim (child_after child a) [
  | none ↦ none
  | some next ↦ children next acts
]

children-append :
    (child next : Option ℕ) (acts bs : List Action)
    → children child acts ≡ some next
    → children child (acts ++ bs) ≡ children next bs
children-append child next [] bs e = ap (λ o. elim o [ none ↦ none | some k ↦ children k bs ]) e
children-append child next (a ∷ acts) bs e = elim (Option-cases (child_after child a)) [
  | inl wrong ↦ cc (rw (wrong, children) at e)
  | inr (k, fine) ↦ rw (fine, children) (children-append k next acts bs (rw (fine, children) at e))
]

-- The rule is kept.
abbrev pub IsLawful : Option ℕ → List Action → Type 0
IsLawful child acts = (k : Option ℕ) × (children child acts ≡ some k)

-- the child of a state between two rounds
abbrev child_of : Cop → Option ℕ
child_of c = if c.start || c.done then none else some c.pid_child

-- A piece of the loop keeps the rule, and leaves the child that its state says.
abbrev Leads : Option ℕ → After → List Action → Type 0
Leads child (goes_on c) acts = children child acts ≡ some (child_of c)
Leads child dead acts = IsLawful child acts
Leads child stuck acts = IsLawful child acts

die-IsLawful : (parent : ℕ) (child : Option ℕ) (c : Cop) → IsLawful child (die parent c).actions
unfolding die notify
die-IsLawful parent child c = (child, ground arith)

-- the child is started, and the loop waits for a signal
abbrev IsWaiting : After → Type 0
IsWaiting (goes_on c) = (c.start ≡ false) × (c.done ≡ false)
IsWaiting dead = Unit
IsWaiting stuck = Unit

start_turn-IsWaiting :
    (parent : ℕ) (pid : Option ℕ) (recorded : Bool) (c : Cop)
    → c.done ≡ false
    → IsWaiting (start_turn parent pid recorded c).state
unfolding start_turn start_child die notify
start_turn-IsWaiting parent none recorded c e = ground arith
start_turn-IsWaiting parent (some p) recorded c e = ground arith

start_turn-Leads :
    (parent : ℕ) (pid : Option ℕ) (recorded : Bool) (c : Cop)
    → c.done ≡ false
    → Leads
        (child_of c)
        (start_turn parent pid recorded c).state
        (start_turn parent pid recorded c).actions
unfolding start_turn start_child die
start_turn-Leads parent pid recorded c e = elim (Bool-cases c.start) [
  | inr older ↦ rw (older, e)
  | inl fresh ↦ rw (fresh) (started pid recorded (record c { start = true }) e)
]
  where
    started :
        (pid : Option ℕ) (recorded : Bool) (c : Cop)
        → c.done ≡ false
        → Leads none
            (and_alarm (start_child parent pid recorded c)).state
            (and_alarm (start_child parent pid recorded c)).actions
    started none recorded c d = die-IsLawful parent none c
    started (some p) true c d = ground arith
    started (some p) false c d = die-IsLawful parent (some p) (record c { pid_child = p })

waitloop-Leads :
    (parent : ℕ) (ws : List WaitPid) (c : Cop)
    → c.start ≡ false
    → c.done ≡ false
    → Leads
        (some c.pid_child)
        (and_decide (waitloop parent ws c)).state
        (and_decide (waitloop parent ws c)).actions
unfolding waitloop decide die
waitloop-Leads parent [] c e d = (_, refl)
waitloop-Leads parent (wait_interrupted ∷ ws) c e d = waitloop-Leads parent ws c e d
waitloop-Leads parent (wait_failed ∷ ws) c e d = die-IsLawful parent (some c.pid_child) c
waitloop-Leads parent (waited pid st ∷ ws) c e d = elim (Bool-cases (pid == c.pid_child)) [
  | inl right ↦ rw (right) (ground arith)
  | inr wrong ↦ rw (wrong) (die-IsLawful parent (some c.pid_child) c)
]

handle-Leads :
    (parent : ℕ) (ws : List WaitPid) (sig : Signal) (c : Cop)
    → c.start ≡ false
    → c.done ≡ false
    → Leads (some c.pid_child) (handle parent ws sig c).state (handle parent ws sig c).actions
unfolding handle notify
handle-Leads parent ws sig_chld c e d = waitloop-Leads parent ws c e d
handle-Leads parent ws sig_int c e d = ground arith
handle-Leads parent ws sig_term c e d = ground arith
handle-Leads parent ws sig_hup c e d = ground arith
handle-Leads parent ws sig_alrm c e d = ground arith
handle-Leads parent ws sig_ok c e d = ground arith
handle-Leads parent ws sig_fail c e d = ground arith

finish-IsLawful : (child : Option ℕ) (c : Cop) → IsLawful child (finish c).actions
unfolding finish notify
finish-IsLawful child c = (child, ground arith)

IsLawful-append :
    (child next : Option ℕ) (acts bs : List Action)
    → children child acts ≡ some next
    → IsLawful next bs
    → IsLawful child (acts ++ bs)
IsLawful-append child next acts bs e (k, h) = (k, children-append child next acts bs e ∙ h)

child_of-waiting : (c : Cop) → c.start ≡ false → c.done ≡ false → child_of c ≡ some c.pid_child
child_of-waiting c e d = rw (e, d)

and_next-IsLawful :
    (child : Option ℕ) (a : After) (acts : List Action) (next : Cop → Ran)
    → Leads child a acts
    → ((c : Cop) → a ≡ goes_on c → IsLawful (child_of c) (next c).actions)
    → IsLawful child (and_next (record { state = a; actions = acts }) next).actions
and_next-IsLawful child dead acts next l h = l
and_next-IsLawful child stuck acts next l h = l
and_next-IsLawful child (goes_on c) acts next l h =
    IsLawful-append child (child_of c) acts _ l (h c refl)

run_loop-IsLawful :
    (parent : ℕ) (rs : List Round) (c : Cop) → IsLawful (child_of c) (run_loop parent rs c).actions
unfolding run_loop
run_loop-IsLawful parent [] c = elim (Bool-cases c.done) [
  | inl over ↦
      subst (λ (x : Ran). IsLawful (child_of c) x.actions) (sym (run_loop-done parent [] c over))
        (finish-IsLawful _ c)
  | inr on ↦ rw (on) (_, refl)
]
run_loop-IsLawful parent (r ∷ rs) c = elim (Bool-cases c.done) [
  | inl over ↦
      subst (λ (x : Ran). IsLawful (child_of c) x.actions)
        (sym (run_loop-done parent (r ∷ rs) c over)) (finish-IsLawful _ c)
  | inr on ↦
      subst (λ (x : Ran). IsLawful (child_of c) x.actions) (sym (run_loop-goes parent r rs c on))
        (and_next-IsLawful (child_of c) (start_turn parent r.fork r.recorded c).state _ _
          (start_turn-Leads parent r.fork r.recorded c on)
          (λ c₁ e.
            let (w, d) : IsWaiting (goes_on c₁) =
              subst IsWaiting e (start_turn-IsWaiting parent r.fork r.recorded c on) in
            subst
              (λ k.
                IsLawful k
                  (and_next (handle parent r.waits r.signal c₁) (run_loop parent rs)).actions)
              (sym (child_of-waiting c₁ w d))
              (and_next-IsLawful (some c₁.pid_child) (handle parent r.waits r.signal c₁).state _ _
                (handle-Leads parent r.waits r.signal c₁ w d)
                (λ c₂ _. run_loop-IsLawful parent rs c₂))))
]

-- Whatever fork, the signals and waitpid answer, a run of achcop keeps the rule on its children:
-- a child is forked only when none is there, and signals and waits go only to the child that is
-- there.
pub run-IsLawful :
    (parent pid_notify : ℕ) (restart : Bool) (rs : List Round)
    → IsLawful none (run parent pid_notify restart rs).actions
unfolding run
run-IsLawful parent pid_notify restart rs = run_loop-IsLawful parent rs _
