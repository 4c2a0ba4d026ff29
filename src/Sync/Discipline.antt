-- ===== src/Sync/Discipline.antt =====
-- The rule that calls on a mutex have to keep, by what POSIX says of each call.
use ach.Base.{◌≡◌, Bool, true, false, Option, none, some, List, [], ◌∷◌}
use ach.Sync.{
  Code, success, eownerdead, enotrecoverable, Call, lock, unlock, make_consistent, wait, broadcast,
}

-- The lock calls that return with the mutex held: also when its last owner died.
abbrev pub takes : Code → Bool
takes success = true
takes eownerdead = true
takes _ = false

-- The condition waits that return with the mutex held: all but the one that says that it cannot be.
abbrev pub retakes : Code → Bool
retakes enotrecoverable = false
retakes _ = true

-- Whether the process holds the mutex after a call, from whether it held it before. `none` is a
-- misuse: taking it twice, or releasing, repairing or waiting with a mutex that is not held.
abbrev pub held_after : Bool → Call → Option Bool
held_after false (lock c) = some (takes c)
held_after true unlock = some false
held_after true make_consistent = some true
held_after true (wait timed c) = some (retakes c)
held_after h broadcast = some h
held_after _ _ = none

abbrev pub held_by : Bool → List Call → Option Bool
held_by h [] = some h
held_by h (c ∷ cs) = elim (held_after h c) [ none ↦ none | some h' ↦ held_by h' cs ]

-- The calls keep the rule, from a mutex that is not held to one that is not held.
abbrev pub Disciplined : List Call → Type 0
Disciplined cs = held_by false cs ≡ some false
