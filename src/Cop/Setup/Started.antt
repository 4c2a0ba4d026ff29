-- ===== src/Cop/Setup/Started.antt =====
-- The files of `main` and of the children that `run` of src/achcop.c starts.
use ach.Base.{
  ℕ, ◌≡◌, Bool, true, false, ◌||◌, ◌&&◌, not, Option, none, some, List, [], ◌∷◌, ◌==◌, done, stop,
}
use ach.Cop.Setup.{
  FileAction, opened, detached, locked, truncated, wrote, duplicated, closed, Part, RunArgs,
}
use ach.Cop.Setup.Locked.{without}

-- what is locked after the actions
abbrev held_after : List ℕ → List FileAction → List ℕ
held_after held [] = held
held_after held (opened fd name append ∷ as_) = held_after held as_
held_after held (detached ∷ as_) = held_after held as_
held_after held (locked fd ∷ as_) = held_after (fd ∷ held) as_
held_after held (truncated fd ∷ as_) = held_after held as_
held_after held (wrote fd bytes ∷ as_) = held_after held as_
held_after held (duplicated from to ∷ as_) = held_after held as_
held_after held (closed fd ∷ as_) = held_after (without fd held) as_

-- whether the file is locked among the actions, and whether it is never closed
abbrev has_locked : ℕ → List FileAction → Bool
has_locked fd [] = false
has_locked fd (locked k ∷ as_) = (fd == k) || has_locked fd as_
has_locked fd (_ ∷ as_) = has_locked fd as_

abbrev never_closed : ℕ → List FileAction → Bool
never_closed fd [] = true
never_closed fd (closed k ∷ as_) = not (fd == k) && never_closed fd as_
never_closed fd (_ ∷ as_) = never_closed fd as_

-- If the part ends well, the descriptor for the child's number is one that it has locked.
LocksChild : Part RunArgs → Type 0
LocksChild p =
    (r : RunArgs) (fd : ℕ)
    → p.end ≡ done r
    → r.fd_child_pid ≡ some fd
    → has_locked fd p.actions ≡ true

-- The descriptor is the one given.
Returns : Option ℕ → Part RunArgs → Type 0
Returns child p = (r : RunArgs) → p.end ≡ done r → r.fd_child_pid ≡ child

-- whether no redirection closes the file for the child's number
abbrev pub spares_child : Part RunArgs → Bool
spares_child p = elim p.end [
  | stop e ↦ true
  | done r ↦ elim r.fd_child_pid [ none ↦ true | some fd ↦ never_closed fd p.actions ]
]
