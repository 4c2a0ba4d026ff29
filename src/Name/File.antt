-- ===== src/Name/File.antt =====
-- The shared memory file of a channel: shmfile_for_channel_name, fd_for_channel_name and ach_chmod of
-- src/ach.c.
use ach.Base.{
  ℕ, zero, suc, ◌+◌, ◌≤◌, ◌<◌, ◌≡◌, refl, sym, ap, ◌∙◌, Bool, true, false, not, Option, none, some,
  List, [], ◌∷◌, ◌++◌, length, take, drop, ltb, if◌then◌else◌, arith, Bool-cases, inl, inr, dec_lt,
  lt→ltb, le→ltb, le→leb,
}
use ach.Shm.{Status, ok, bug, invalid_name}
use ach.Name.{Sys, answer, failed, check_errno, retry, intr_retry, chan_name_max, channel_name_ok}
use ach.Achd.Words.{codes}

-- ACH_CHAN_NAME_PREFIX
abbrev pub name_prefix : List ℕ
name_prefix = codes "/achshm-"

-- the status, and the text in a buffer of `n` bytes
unfoldable pub shmfile_for_channel_name :
    (isalnum : ℕ → Bool) → (name : List ℕ) → (n : ℕ) → Status × List ℕ
shmfile_for_channel_name isalnum name n =
    if ltb n (chan_name_max + 16)
    then (bug, [])
    else if not (channel_name_ok isalnum name)
    then (invalid_name, [])
    else (ok, name_prefix ++ take chan_name_max name)

abbrev is_found : Status → Bool
is_found ok = true
is_found _ = false

-- The descriptor, or none for -1; `shm_open` gives what each attempt returns for a file. A name that is
-- not valid gives the number of ACH_BUG.
unfoldable pub fd_for_channel_name :
    (isalnum : ℕ → Bool) → (shm_open : List ℕ → ℕ → Sys ℕ) → (name : List ℕ) → Option ℕ
unfolding shmfile_for_channel_name
fd_for_channel_name isalnum shm_open name =
    let (r, file) = shmfile_for_channel_name isalnum name (chan_name_max + 16) in
    if not (is_found r)
    then some 11
    else elim (retry intr_retry 0 (shm_open file)) [ answer fd ↦ some fd | failed e ↦ none ]

-- `changed` is what `fchmod` returns.
unfoldable pub chmod : (changed : Sys (Unit {0})) → Status
unfolding check_errno
chmod (answer _) = ok
chmod (failed e) = check_errno e

take_short : (k : ℕ) (xs : List ℕ) → length xs ≤ k → take k xs ≡ xs
take_short zero [] l = refl
take_short (suc k) [] l = refl
take_short zero (x ∷ xs) l = absurd (omega (arith, l))
take_short (suc k) (x ∷ xs) l = ap (λ t. x ∷ t) (take_short k xs (omega (arith, l)))

channel_name_ok-short :
    (isalnum : ℕ → Bool) (name : List ℕ)
    → channel_name_ok isalnum name ≡ true
    → length name < chan_name_max
unfolding channel_name_ok
channel_name_ok-short isalnum name h = elim (dec_lt (length name) chan_name_max) [
  | yes l ↦ l
  | no l ↦ cc (rw (le→leb chan_name_max (length name) (omega (arith, l))) at h)
]

-- The file of a channel, and the length of its name.
abbrev IsFileOf : List ℕ → (n : ℕ) → Status × List ℕ → Type 0
IsFileOf name n (r, file) =
    (file ≡ name_prefix ++ name) × (length name < chan_name_max) × (chan_name_max + 16 ≤ n)

shmfile-IsFileOf :
    (isalnum : ℕ → Bool) (name : List ℕ) (n : ℕ)
    → (shmfile_for_channel_name isalnum name n).0 ≡ ok
    → IsFileOf name n (shmfile_for_channel_name isalnum name n)
unfolding shmfile_for_channel_name
shmfile-IsFileOf isalnum name n h = elim (dec_lt n (chan_name_max + 16)) [
  | yes l ↦ cc (rw (lt→ltb n (chan_name_max + 16) l) at h)
  | no l ↦ elim (Bool-cases (channel_name_ok isalnum name)) [
    | inr e ↦ cc (rw (le→ltb n (chan_name_max + 16) (omega (arith, l)), e) at h)
    | inl e ↦
        rw (le→ltb n (chan_name_max + 16) (omega (arith, l)), e)
          (
            ap (λ t. name_prefix ++ t)
                (take_short chan_name_max name
                  (omega (arith, channel_name_ok-short isalnum name e))),
            channel_name_ok-short isalnum name e,
            omega (arith, l),
          )
  ]
]

-- The text that shmfile_for_channel_name makes for a name, with the 0 at its end, fits in its buffer.
shmfile-fits :
    (isalnum : ℕ → Bool) (name : List ℕ) (n : ℕ)
    → (shmfile_for_channel_name isalnum name n).0 ≡ ok
    → length (shmfile_for_channel_name isalnum name n).1 + 1 ≤ n
shmfile-fits isalnum name n h =
    let (text, short, room) = shmfile-IsFileOf isalnum name n h in
    omega (arith, ap length text, short, room)

-- Two names for which it makes the same text are the same.
shmfile-same :
    (isalnum : ℕ → Bool) (name name' : List ℕ) (n n' : ℕ)
    → (shmfile_for_channel_name isalnum name n).0 ≡ ok
    → (shmfile_for_channel_name isalnum name' n').0 ≡ ok
    → (shmfile_for_channel_name isalnum name n).1 ≡ (shmfile_for_channel_name isalnum name' n').1
    → name ≡ name'
shmfile-same isalnum name name' n n' h h' e =
    ap (drop (length name_prefix))
      (sym (shmfile-IsFileOf isalnum name n h).0 ∙ e ∙ (shmfile-IsFileOf isalnum name' n' h').0)
