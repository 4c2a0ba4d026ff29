-- ===== src/Cop/Setup/Locked.antt =====
-- The files that `main` of src/achcop.c locks and writes before it calls `run`.
use mathlib.Core.Path.{subst}
use mathlib.Core.List.{append_assoc}
use ach.Base.{
  ℕ, ◌≡◌, refl, sym, ap, ◌∙◌, Bool, true, false, ◌||◌, ◌&&◌, Option, none, some, List, [], ◌∷◌,
  ◌++◌, length, leb, ◌==◌, if◌then◌else◌, Exec, done, stop, exits, eq→==, Bool-cases, Option-cases,
  inl, inr, take, drop, map,
}
use ach.Achd.Transport.{same_bytes}
use ach.Cop.Setup.{
  nop_name, CopOpts, default_opts, cop_options, child_args, FileAction, opened, detached, locked,
  truncated, wrote, duplicated, closed, PidWrite, wrote_bytes, write_interrupted, write_failed,
  Files, Part, part, after_actions, and_then, open_named, open_out_file, lock_pid, write_loop,
  write_pid, redirect, RunArgs, prepare, setup, checked_setup, cop_main,
}

abbrev pub among : ℕ → List ℕ → Bool
among fd [] = false
among fd (x ∷ xs) = (fd == x) || among fd xs

abbrev pub without : ℕ → List ℕ → List ℕ
without fd [] = []
without fd (x ∷ xs) = if fd == x then without fd xs else x ∷ without fd xs

-- Whether only locked files are truncated and written, where `held` are locked; a file that is closed is
-- not locked any longer.
abbrev pub is_guarded : (held : List ℕ) → List FileAction → Bool
is_guarded held [] = true
is_guarded held (opened fd name append ∷ as_) = is_guarded held as_
is_guarded held (detached ∷ as_) = is_guarded held as_
is_guarded held (locked fd ∷ as_) = is_guarded (fd ∷ held) as_
is_guarded held (truncated fd ∷ as_) = among fd held && is_guarded held as_
is_guarded held (wrote fd bytes ∷ as_) = among fd held && is_guarded held as_
is_guarded held (duplicated from to ∷ as_) = is_guarded held as_
is_guarded held (closed fd ∷ as_) = is_guarded (without fd held) as_

abbrev pub Guarded {ℓ} : {A : Type ℓ} → List ℕ → Part A → Type 0
Guarded held p = is_guarded held p.actions ≡ true

after-then {ℓ κ} :
    {A : Type ℓ} {B : Type κ} (as_ bs : List FileAction) (end : Exec A) (next : A → Part B)
    → (and_then (after_actions as_ (part bs end)) next).actions
      ≡ as_ ++ (and_then (part bs end) next).actions
after-then as_ bs (stop e) next = refl
after-then as_ bs (done a) next = append_assoc as_ bs (next a).actions

module _ (f : Files) where
  open_named-none :
      (name : List ℕ) (append : Bool)
      → f.open_fd name ≡ none
      → open_named f (some name) append ≡ part [] (stop (exits 1))
  unfolding open_named
  open_named-none name append e = rw (open_named, e)

  open_named-some :
      (name : List ℕ) (append : Bool) (fd : ℕ)
      → f.open_fd name ≡ some fd
      → open_named f (some name) append ≡ part (opened fd name append ∷ []) (done (some fd))
  unfolding open_named
  open_named-some name append fd e = rw (open_named, e)

  open_out_file-nop :
      (name : List ℕ)
      → same_bytes nop_name name ≡ true
      → open_out_file f (some name) ≡ part [] (done none)
  unfolding open_out_file
  open_out_file-nop name e = rw (open_out_file, e)

  open_out_file-file :
      (name : List ℕ)
      → same_bytes nop_name name ≡ false
      → open_out_file f (some name) ≡ open_named f (some name) true
  unfolding open_out_file
  open_out_file-file name e = rw (open_out_file, e)

  pub lock_pid-held :
      (fd : ℕ) → f.lockf fd ≡ true → lock_pid f (some fd) ≡ part (locked fd ∷ []) (done tt)
  unfolding lock_pid
  lock_pid-held fd e = rw (lock_pid, e)

  pub lock_pid-refused :
      (fd : ℕ) → f.lockf fd ≡ false → lock_pid f (some fd) ≡ part [] (stop (exits 1))
  unfolding lock_pid
  lock_pid-refused fd e = rw (lock_pid, e)

  write_pid-refused :
      (fd : ℕ) → f.ftruncate fd ≡ false → write_pid f (some fd) ≡ part [] (stop (exits 1))
  unfolding write_pid
  write_pid-refused fd e = rw (write_pid, e)

  write_pid-long :
      (fd : ℕ)
      → f.ftruncate fd ≡ true
      → leb 32 (length f.pid) ≡ true
      → write_pid f (some fd) ≡ part (truncated fd ∷ []) (done tt)
  unfolding write_pid
  write_pid-long fd e l = rw (write_pid, e, l)

  write_pid-fits :
      (fd : ℕ)
      → f.ftruncate fd ≡ true
      → leb 32 (length f.pid) ≡ false
      → write_pid f (some fd) ≡ after_actions (truncated fd ∷ []) (write_loop fd f.pid f.writes)
  unfolding write_pid
  write_pid-fits fd e l = rw (write_pid, e, l)

redirect-nop :
    (name : List ℕ) (old new : ℕ)
    → same_bytes name nop_name ≡ true
    → redirect (some name) (some old) new ≡ part [] (done tt)
unfolding redirect
redirect-nop name old new e = rw (redirect, e)

redirect-file :
    (name : List ℕ) (old new : ℕ)
    → same_bytes name nop_name ≡ false
    → redirect (some name) (some old) new ≡ part (duplicated old new ∷ closed old ∷ []) (done tt)
unfolding redirect
redirect-file name old new e = rw (redirect, e)

module _ (held : List ℕ) {A : Type 0} where
  -- a part by an equation
  by_part {ℓ} :
      {B : Type ℓ} {p q : Part B} (next : B → Part A)
      → p ≡ q
      → Guarded held (and_then q next)
      → Guarded held (and_then p next)
  by_part next e h = subst (λ x. Guarded held (and_then x next)) (sym e) h

  open_named-then :
      (f : Files) (name : Option (List ℕ)) (append : Bool) (next : Option ℕ → Part A)
      → ((o : Option ℕ) → Guarded held (next o))
      → Guarded held (and_then (open_named f name append) next)
  unfolding open_named
  open_named-then f none append next h = h none
  open_named-then f (some name) append next h = elim (Option-cases (f.open_fd name)) [
    | inl e ↦ by_part next (open_named-none f name append e) refl
    | inr (fd, e) ↦ by_part next (open_named-some f name append fd e) (h (some fd))
  ]

  open_out_file-then :
      (f : Files) (name : Option (List ℕ)) (next : Option ℕ → Part A)
      → ((o : Option ℕ) → Guarded held (next o))
      → Guarded held (and_then (open_out_file f name) next)
  unfolding open_out_file
  open_out_file-then f none next h = h none
  open_out_file-then f (some name) next h = elim (Bool-cases (same_bytes nop_name name)) [
    | inl e ↦ by_part next (open_out_file-nop f name e) (h none)
    | inr e ↦ by_part next (open_out_file-file f name e) (open_named-then f (some name) true next h)
  ]

  lock_pid-then :
      (f : Files) (o : Option ℕ) (next : Unit {0} → Part A)
      → (o ≡ none → Guarded held (next tt))
      → ((fd : ℕ) → o ≡ some fd → Guarded (fd ∷ held) (next tt))
      → Guarded held (and_then (lock_pid f o) next)
  unfolding lock_pid
  lock_pid-then f none next h k = h refl
  lock_pid-then f (some fd) next h k = elim (Bool-cases (f.lockf fd)) [
    | inl e ↦ by_part next (lock_pid-held f fd e) (k fd refl)
    | inr e ↦ by_part next (lock_pid-refused f fd e) refl
  ]

  write_loop-then :
      (fd : ℕ) (text : List ℕ) (calls : List PidWrite) (next : Unit {0} → Part A)
      → among fd held ≡ true
      → Guarded held (next tt)
      → Guarded held (and_then (write_loop fd text calls) next)
  unfolding write_loop
  write_loop-then fd [] calls next m h = h
  write_loop-then fd (c ∷ cs) [] next m h = refl
  write_loop-then fd (c ∷ cs) (wrote_bytes n ∷ calls) next m h =
      ap (is_guarded held) (
        after-then (wrote fd (take n (c ∷ cs)) ∷ []) (write_loop fd (drop n (c ∷ cs)) calls).actions
          (write_loop fd (drop n (c ∷ cs)) calls).end next)
      ∙ rw (m) (write_loop-then fd (drop n (c ∷ cs)) calls next m h)
  write_loop-then fd (c ∷ cs) (write_interrupted ∷ calls) next m h =
      write_loop-then fd (c ∷ cs) calls next m h
  write_loop-then fd (c ∷ cs) (write_failed ∷ calls) next m h = h

  pub write_pid-then :
      (f : Files) (o : Option ℕ) (next : Unit {0} → Part A)
      → ((fd : ℕ) → o ≡ some fd → among fd held ≡ true)
      → Guarded held (next tt)
      → Guarded held (and_then (write_pid f o) next)
  unfolding write_pid
  write_pid-then f none next m h = h
  write_pid-then f (some fd) next m h = elim (Bool-cases (f.ftruncate fd)) [
    | inr e ↦ by_part next (write_pid-refused f fd e) refl
    | inl e ↦ elim (Bool-cases (leb 32 (length f.pid))) [
      | inl long ↦ by_part next (write_pid-long f fd e long) (rw (m fd refl) h)
      | inr fits ↦ by_part next (write_pid-fits f fd e fits) (
          ap (is_guarded held) (
            after-then (truncated fd ∷ []) (write_loop fd f.pid f.writes).actions
              (write_loop fd f.pid f.writes).end next)
          ∙ rw (m fd refl) (write_loop-then fd f.pid f.writes next (m fd refl) h))
    ]
  ]

redirect-then :
    (held : List ℕ) {A : Type 0} (name : Option (List ℕ)) (old : Option ℕ) (new : ℕ)
    (next : Unit {0} → Part A)
    → ((held' : List ℕ) → Guarded held' (next tt))
    → Guarded held (and_then (redirect name old new) next)
unfolding redirect
redirect-then held none old new next h = h (without new held)
redirect-then held (some name) none new next h = h held
redirect-then held (some name) (some old) new next h =
    elim (Bool-cases (same_bytes name nop_name)) [
      | inl e ↦ by_part held next (redirect-nop name old new e) (h held)
      | inr e ↦ by_part held next (redirect-file name old new e) (h (without old held))
    ]

pub or-true : (b : Bool) → (b || true) ≡ true
or-true true = refl
or-true false = refl

pub among-here : (fd : ℕ) (xs : List ℕ) → among fd (fd ∷ xs) ≡ true
among-here fd xs = rw (eq→== fd fd refl)

among-later : (fd x : ℕ) (xs : List ℕ) → among fd xs ≡ true → among fd (x ∷ xs) ≡ true
among-later fd x xs e = rw (e) (or-true (fd == x))

-- the part after the locks
prepared-Guarded :
    (held : List ℕ) (f : Files) (o : CopOpts) (cop child out err : Option ℕ)
    → ((fd : ℕ) → cop ≡ some fd → among fd held ≡ true)
    → Guarded {A = RunArgs} held (
        and_then (write_pid f cop) (λ _. and_then (redirect o.file_stdout out 1) (λ _.
          and_then (redirect o.file_stderr err 2) (λ _. part [] (
            done (record {
              restart = o.restart;
              fd_child_pid = child;
              args = map some o.child_args ++ (none ∷ []);
            }))))))
prepared-Guarded held f o cop child out err m = write_pid-then held f cop _ m (
    redirect-then held o.file_stdout out 1 _
      (λ held'. redirect-then held' o.file_stderr err 2 _ (λ held''. refl)))

prepare-Guarded :
    (f : Files) (o : CopOpts) (cop child out err : Option ℕ)
    → Guarded [] (prepare f o cop child out err)
unfolding prepare
prepare-Guarded f o cop child out err =
    lock_pid-then [] f cop _
      (λ e.
        lock_pid-then [] f child _ (λ _. prepared-Guarded [] f o cop child out err (λ fd e'. cc))
          (λ fd _. prepared-Guarded (fd ∷ []) f o cop child out err (λ fd' e'. cc)))
      (λ fd e.
        lock_pid-then (fd ∷ []) f child _
          (λ _.
            prepared-Guarded (fd ∷ []) f o cop child out err
              (λ fd' e'. same fd fd' (sym e ∙ e') (fd ∷ []) (among-here fd [])))
          (λ fd₂ _. prepared-Guarded (fd₂ ∷ (fd ∷ [])) f o cop child out err (λ fd' e'.
            same fd fd' (sym e ∙ e') (fd₂ ∷ (fd ∷ []))
              (among-later fd fd₂ (fd ∷ []) (among-here fd [])))))
  where
    same :
        (fd fd' : ℕ) → some fd ≡ some fd' → (xs : List ℕ) → among fd xs ≡ true → among fd' xs ≡ true
    same fd fd' e xs h =
        subst (λ x. among x xs ≡ true) (ap (λ (o : Option ℕ). elim o [ none ↦ 0 | some x ↦ x ]) e) h

setup-Guarded : (f : Files) (o : CopOpts) → Guarded [] (setup f o)
unfolding setup
setup-Guarded f o = open_named-then [] f o.file_cop_pid false _ (λ cop.
    open_named-then [] f o.file_child_pid false _ (λ child.
      open_out_file-then [] f o.file_stdout _ (λ out.
        open_out_file-then [] f o.file_stderr _ (λ err. by_detach o.detach cop child out err))))
  where
    by_detach :
        (b : Bool) (cop child out err : Option ℕ)
        → Guarded []
            (after_actions (if b then detached ∷ [] else []) (prepare f o cop child out err))
    by_detach true cop child out err = prepare-Guarded f o cop child out err
    by_detach false cop child out err = prepare-Guarded f o cop child out err

checked_setup-Guarded :
    (f : Files) (args : List (List ℕ)) (r : Exec CopOpts) → Guarded [] (checked_setup f args r)
checked_setup-Guarded f args (stop e) = refl
checked_setup-Guarded f args (done o) =
    elim (Bool-cases (length (child_args args o).child_args == 0)) [
      | inl e ↦ rw (e)
      | inr e ↦ rw (e) (setup-Guarded f (child_args args o))
    ]

-- Whatever the options, the files and the results of the calls are, main of achcop, before
-- it calls run, truncates a file or writes a process number to it only while it holds that file's lock.
pub cop_main-Locked :
    (f : Files) (verbosity : ℕ) (os : List (ℕ × Option (List ℕ))) (args : List (List ℕ))
    → is_guarded [] (cop_main f verbosity os args).actions ≡ true
unfolding cop_main
cop_main-Locked f verbosity os args =
    checked_setup-Guarded f args (cop_options os (default_opts verbosity))
