-- ===== src/Cop/Stops.antt =====
-- What SIGTERM does to src/achcop.c, and what it does not do after a SIGHUP.
use mathlib.Core.Path.{subst}
use ach.Base.{
  ℕ, ◌≡◌, refl, sym, ap, ◌∙◌, Bool, true, false, Option, none, some, List, [], ◌∷◌, ◌++◌,
  if◌then◌else◌, eq→==, Bool-cases, inl, inr, arith,
}
use ach.Cop.Rounds.{run_loop-goes, run_loop-done}
use ach.Cop.{
  Signal, sig_int, sig_term, sig_chld, sig_ok, sig_fail, sig_alrm, sig_hup, WaitPid, WaitStatus,
  waited, status_of, Action, forked, alarmed, killed, reaped, notified, Cop, goes_on, Turn, notify,
  start_turn, start_child, waitloop, decide, handle, Round, Ran, returned, finish, run_loop,
  and_next, and_alarm,
}

-- the children that are started
abbrev pub forks : List Action → List ℕ
forks [] = []
forks (forked p ∷ acts) = p ∷ forks acts
forks (_ ∷ acts) = forks acts

forks-append : (acts bs : List Action) → forks acts ≡ [] → forks (acts ++ bs) ≡ forks bs
forks-append [] bs e = refl
forks-append (forked p ∷ acts) bs e = cc
forks-append (alarmed ∷ acts) bs e = forks-append acts bs e
forks-append (killed p ∷ acts) bs e = forks-append acts bs e
forks-append (reaped p ∷ acts) bs e = forks-append acts bs e
forks-append (notified p s ∷ acts) bs e = forks-append acts bs e

-- neither SIGHUP nor SIGCHLD
abbrev pub is_other : Signal → Bool
is_other sig_hup = false
is_other sig_chld = false
is_other _ = true

abbrev pub AllOther : List Round → Type 0
AllOther [] = Unit {0}
AllOther (r ∷ rs) = (is_other r.signal ≡ true) × AllOther rs

-- The child runs, and is not to be started again.
record Stopping (pid : ℕ) (c : Cop) : Type 0 where
  started : c.start ≡ false
  undone : c.done ≡ false
  unforced : c.force_restart ≡ false
  unwanted : c.restart ≡ false
  child : c.pid_child ≡ pid

-- The run returns the child's status, and starts no other.
pub record Stops (st : WaitStatus) (r : Ran) : Type 0 where
  pub end : r.end ≡ returned (status_of st)
  pub no_fork : forks r.actions ≡ []

abbrev Continues : ℕ → Turn → Type 0
Continues pid t = (c : Cop) × (t.state ≡ goes_on c) × Stopping pid c × (forks t.actions ≡ [])

handle-Continues :
    (parent pid : ℕ) (ws : List WaitPid) (sig : Signal) (c : Cop)
    → is_other sig ≡ true
    → Stopping pid c
    → Continues pid (handle parent ws sig c)
unfolding handle notify
handle-Continues parent pid ws sig_int c q s = (_, refl, ground arith, refl)
handle-Continues parent pid ws sig_term c q s = (_, refl, ground arith, refl)
handle-Continues parent pid ws sig_fail c q s = (_, refl, ground arith, refl)
handle-Continues parent pid ws sig_ok c q s = (_, refl, ground arith, ground arith)
handle-Continues parent pid ws sig_alrm c q s = (_, refl, ground arith, ground arith)
handle-Continues parent pid ws sig_hup c q s = cc
handle-Continues parent pid ws sig_chld c q s = cc

finish-Stops : (st : WaitStatus) (c : Cop) → c.exit_status ≡ status_of st → Stops st (finish c)
unfolding finish notify
finish-Stops st c e = record { end = ap returned e; no_fork = ground arith }

and_next-Stops :
    (st : WaitStatus) (pid : ℕ) (t : Turn) (next : Cop → Ran)
    → Continues pid t
    → ((c : Cop) → Stopping pid c → Stops st (next c))
    → Stops st (and_next t next)
and_next-Stops st pid t next (c, e, s, f) h = rw (e) (record {
  end = (h c s).end;
  no_fork = forks-append t.actions (next c).actions f ∙ (h c s).no_fork;
})

start_turn-Continues :
    (parent pid : ℕ) (fork : Option ℕ) (recorded : Bool) (c : Cop)
    → Stopping pid c
    → Continues pid (start_turn parent fork recorded c)
unfolding start_turn
start_turn-Continues parent pid fork recorded c s = rw (s.started) (c', refl, s', refl)
  where
    c' : Cop
    c' = record c { start = false }

    s' : Stopping pid c'
    s' = record {
      started = refl;
      undone = s.undone;
      unforced = s.unforced;
      unwanted = s.unwanted;
      child = s.child;
    }

module _ (parent pid : ℕ) (st : WaitStatus) where
  -- the child's end, in a state that does not start it again
  handle_end :
      (c : Cop)
      → Stopping pid c
      → (c' : Cop) × (handle parent (waited pid st ∷ []) sig_chld c
          ≡ record { state = goes_on c'; actions = reaped pid ∷ [] })
        × (c'.done ≡ true)
        × (c'.exit_status ≡ status_of st)
  unfolding handle waitloop decide
  handle_end c s =
      rw (s.child, eq→== pid pid refl)
        (_, refl, ground (arith, s.unforced, s.unwanted), ground arith)

  and_next-end :
      (rs : List Round) (t : Turn) (c' : Cop)
      → t ≡ record { state = goes_on c'; actions = reaped pid ∷ [] }
      → c'.done ≡ true
      → c'.exit_status ≡ status_of st
      → Stops st (and_next t (run_loop parent rs))
  and_next-end rs t c' e d x =
      rw (e, run_loop-done parent rs c' d)
        (record { end = (finish-Stops st c' x).end; no_fork = (finish-Stops st c' x).no_fork })

  run_loop-Stops :
      (qs : List Round) (r : Round) (later : List Round) (c : Cop)
      → AllOther qs
      → r.signal ≡ sig_chld
      → r.waits ≡ waited pid st ∷ []
      → Stopping pid c
      → Stops st (run_loop parent (qs ++ (r ∷ later)) c)
  run_loop-Stops [] r later c q g w s =
      subst (Stops st) (sym (run_loop-goes parent r later c s.undone)) (
        and_next-Stops st pid (start_turn parent r.fork r.recorded c) _
          (start_turn-Continues parent pid r.fork r.recorded c s)
          (λ c₁ s₁.
            let (c', e, d, x) = handle_end c₁ s₁ in
            and_next-end later (handle parent r.waits r.signal c₁) c'
              (ap (λ k. handle parent k r.signal c₁) w
                ∙ ap (λ k. handle parent (waited pid st ∷ []) k c₁) g
                ∙ e)
              d x))
  run_loop-Stops (k ∷ qs) r later c q g w s =
      subst (Stops st) (sym (run_loop-goes parent k (qs ++ (r ∷ later)) c s.undone)) (
        and_next-Stops st pid (start_turn parent k.fork k.recorded c) _
          (start_turn-Continues parent pid k.fork k.recorded c s)
          (λ c₁ s₁.
            and_next-Stops st pid (handle parent k.waits k.signal c₁) _
              (handle-Continues parent pid k.waits k.signal c₁ q.0 s₁)
              (λ c₂ s₂. run_loop-Stops qs r later c₂ q.1 g w s₂)))

start_turn-idle :
    (parent : ℕ) (fork : Option ℕ) (recorded : Bool) (c : Cop)
    → c.start ≡ false
    → start_turn parent fork recorded c ≡ record { state = goes_on c; actions = [] }
unfolding start_turn
start_turn-idle parent fork recorded c e =
    ap
      (λ b.
        if b
        then and_alarm (start_child parent fork recorded c)
        else record { state = goes_on c; actions = [] })
      e

module _ (parent : ℕ) (st : WaitStatus) (c : Cop) (started : c.start ≡ false)
    (undone : c.done ≡ false) where
  -- While a child runs and no SIGHUP is pending, a SIGTERM, then any signals other than SIGHUP
  -- and SIGCHLD, then the child's end make the loop of achcop return the child's status (its
  -- exit code, or EXIT_FAILURE), and it starts no child.
  pub term-Stops :
      (term : Round) (qs : List Round) (r : Round) (later : List Round)
      → c.force_restart ≡ false
      → term.signal ≡ sig_term
      → AllOther qs
      → r.signal ≡ sig_chld
      → r.waits ≡ waited c.pid_child st ∷ []
      → Stops st (run_loop parent (term ∷ (qs ++ (r ∷ later))) c)
  unfolding handle
  term-Stops term qs r later unforced e q g w =
      subst (Stops st) (sym (run_loop-goes parent term (qs ++ (r ∷ later)) c undone)) (
        rw (start_turn-idle parent term.fork term.recorded c started, e)
          (let rest =
              run_loop-Stops parent c.pid_child st qs r later (record c { restart = false }) q g w
                stopping in
            record { end = rest.end; no_fork = rest.no_fork }))
    where
      stopping : Stopping c.pid_child (record c { restart = false })
      stopping = record {
        started = started;
        undone = undone;
        unforced = unforced;
        unwanted = refl;
        child = refl;
      }

  -- While a child runs, a SIGHUP and then a SIGTERM before the child's end make achcop signal
  -- the child twice and, when the child has ended, start another one: the SIGTERM is lost.
  pub hup-term-forks :
      (pid : ℕ)
      → (run_loop parent
          (record { fork = none; recorded = true; signal = sig_hup; waits = [] }
            ∷ record { fork = none; recorded = true; signal = sig_term; waits = [] }
            ∷ record {
              fork = none;
              recorded = true;
              signal = sig_chld;
              waits = waited c.pid_child st ∷ [];
            }
            ∷ record { fork = some pid; recorded = true; signal = sig_fail; waits = [] }
            ∷ [])
          c).actions
        ≡ killed c.pid_child
          ∷ killed c.pid_child
          ∷ reaped c.pid_child
          ∷ forked pid
          ∷ (if c.first_run then alarmed ∷ [] else [])
  unfolding run_loop start_turn start_child handle waitloop decide
  hup-term-forks pid =
      rw (started, undone, eq→== c.pid_child c.pid_child refl)
        (elim (Bool-cases c.first_run) [ inl e ↦ rw (e) | inr e ↦ rw (e) ])
