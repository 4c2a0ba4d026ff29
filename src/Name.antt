-- ===== src/Name.antt =====
-- Channel names, and system calls that are tried again, of src/ach.c.
pub mod File
use ach.Base.{
  ℕ, zero, suc, ◌+◌, ◌≤◌, ◌<◌, ◌≡◌, ◌≢◌, refl, ◌⊎◌, inl, inr, Bool, true, false, ◌&&◌, ◌||◌, List,
  [], ◌∷◌, length, leb, ◌==◌, if◌then◌else◌, arith, ap, ◌∙◌,
}
use Prim.Native.String.{String}
use ach.Shm.{
  Status, ok, overflow, invalid_name, bad_shm_file, failed_syscall, stale_frames, missed_frame,
  timeout, eexist, enoent, closed, bug, einval, corrupt, bad_header, eacces, canceled,
}

-- `errno` after a call that failed
pub data Errno : Type 0 where
  file_exists no_entry no_access interrupted other_errno : Errno

-- what a system call returns
pub data Sys {ℓ} (A : Type ℓ) : Type ℓ where
  answer : A → Sys A
  failed : Errno → Sys A

unfoldable pub check_errno : Errno → Status
check_errno file_exists = eexist
check_errno no_entry = enoent
check_errno no_access = eacces
check_errno _ = failed_syscall

-- ACH_INTR_RETRY
abbrev pub intr_retry : ℕ
intr_retry = 8

-- `do … while( -1 == r && EINTR == errno && i++ < ACH_INTR_RETRY )`. `tries` gives what each attempt
-- returns, from attempt `i` on; `left` counts the attempts that may still follow.
unfoldable pub retry {ℓ} : {A : Type ℓ} → (left i : ℕ) → (tries : ℕ → Sys A) → Sys A
retry zero i tries = tries i
retry (suc left) i tries = elim (tries i) [
  | answer a ↦ answer a
  | failed interrupted ↦ retry left (suc i) tries
  | failed e ↦ failed e
]

-- ACH_CHAN_NAME_MAX
abbrev pub chan_name_max : ℕ
chan_name_max = 64

-- the characters of a name: '-' is 45, '.' is 46, '_' is 95
unfoldable pub chars_ok : (isalnum : ℕ → Bool) → List ℕ → Bool
chars_ok isalnum [] = true
chars_ok isalnum (c ∷ name) =
    (isalnum c || ((c == 45) || ((c == 95) || (c == 46)))) && chars_ok isalnum name

abbrev pub is_hidden : List ℕ → Bool
is_hidden [] = false
is_hidden (c ∷ name) = c == 46

-- `isalnum` is the C library's.
unfoldable pub channel_name_ok : (isalnum : ℕ → Bool) → List ℕ → Bool
channel_name_ok isalnum name =
    if leb chan_name_max (length name)
    then false
    else if is_hidden name
    then false
    else chars_ok isalnum name

-- ach_result_to_string
unfoldable pub result_to_string : Status → String
result_to_string ok = "ACH_OK"
result_to_string overflow = "ACH_OVERFLOW"
result_to_string invalid_name = "ACH_INVALID_NAME"
result_to_string bad_shm_file = "ACH_BAD_SHM_FILE"
result_to_string failed_syscall = "ACH_FAILED_SYSCALL"
result_to_string stale_frames = "ACH_STALE_FRAMES"
result_to_string missed_frame = "ACH_MISSED_FRAME"
result_to_string timeout = "ACH_TIMEOUT"
result_to_string closed = "ACH_CLOSED"
result_to_string eexist = "ACH_EEXIST"
result_to_string enoent = "ACH_ENOENT"
result_to_string bug = "ACH_BUG"
result_to_string einval = "ACH_EINVAL"
result_to_string corrupt = "ACH_CORRUPT"
result_to_string bad_header = "ACH_BAD_HEADER"
result_to_string eacces = "ACH_EACCES"
result_to_string canceled = "ACH_CANCELED"

pub Sys-cases {ℓ} :
    {A : Type ℓ} (t : Sys A) → ((e : Errno) × (t ≡ failed e)) ⊎ ((a : A) × (t ≡ answer a))
Sys-cases (answer a) = inr (a, refl)
Sys-cases (failed e) = inl (e, refl)

pub check_errno-fails : (e : Errno) → check_errno e ≢ ok
unfolding check_errno
check_errno-fails e h = ground arith

module _ {ℓ} {A : Type ℓ} (tries : ℕ → Sys A) where
  retry_failed :
      (left i : ℕ) (e : Errno)
      → tries i ≡ failed e
      → e ≢ interrupted
      → retry (suc left) i tries ≡ tries i
  unfolding retry
  retry_failed left i file_exists h n = rw (retry, h)
  retry_failed left i no_entry h n = rw (retry, h)
  retry_failed left i no_access h n = rw (retry, h)
  retry_failed left i interrupted h n = absurd (n refl)
  retry_failed left i other_errno h n = rw (retry, h)

  retry_stop : (left i : ℕ) → tries i ≢ failed interrupted → retry left i tries ≡ tries i
  unfolding retry
  retry_stop zero i last = refl
  retry_stop (suc left) i last = elim (Sys-cases (tries i)) [
    | inl (e, h) ↦ retry_failed left i e h (λ k. last (h ∙ ap failed k))
    | inr (a, h) ↦ rw (retry, h)
  ]

  -- A system call that is interrupted at most as often as it is tried again ends with the
  -- first result that is not an interruption.
  retry-first :
      (left i k : ℕ)
      → k ≤ left
      → ((j : ℕ) → j < k → tries (i + j) ≡ failed interrupted)
      → tries (i + k) ≢ failed interrupted
      → retry left i tries ≡ tries (i + k)
  unfolding retry
  retry-first left i zero room before last =
      retry_stop left i (rw (at_zero) last) ∙ ap tries (omega arith)
    where
      at_zero : i ≡ i + zero
      at_zero = omega arith
  retry-first zero i (suc k) room before last = absurd (omega arith)
  retry-first (suc left) i (suc k) room before last =
      rw (retry, first)
        (retry-first left (suc i) k (omega arith)
            (λ j h. ap tries (omega arith) ∙ before (suc j) (omega arith))
            (λ e. last (ap tries (omega arith) ∙ e))
          ∙ ap tries (omega arith))
    where
      first : tries i ≡ failed interrupted
      first = ap tries (omega arith) ∙ before 0 (omega arith)
