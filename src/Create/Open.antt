-- ===== src/Create/Open.antt =====
-- What `ach_open` returns.
use ach.Base.{
  ℕ, ◌<◌, ◌≡◌, refl, true, false, Bool, List, arith, Option-cases, Bool-cases, ◌==◌, inl, inr,
}
use ach.Sync.{is_ok}
use ach.Shm.{Status, ok, Shm, Channel, check_guards, shm_magic_num}
use ach.Shm.View.{CanRead}
use ach.Name.{Sys-cases, check_errno-fails, retry, intr_retry, channel_name_ok}
use ach.Create.{OpenOs, OpenResult, ach_open, open_mapped, open_file, open_len}

-- What a successful `ach_open` gives: a handle that has seen no message, on a memory whose guard
-- words are intact.
pub record Opened (header_size : ℕ) (s : Shm) (r : OpenResult) : Type 0 where
  pub guarded : check_guards s ≡ ok
  pub mapped : r.chan.mapped ≡ true
  pub unseen : r.chan.seq_num ≡ 0
  pub running : r.chan.cancel ≡ false
  pub len : r.chan.len ≡ open_len header_size s
  pub next : r.chan.next_index ≡ 1

-- A run of `ach_open` is as `Opened` says whenever it returns ACH_OK.
abbrev Opens : (header_size : ℕ) → Shm → OpenResult → Type 0
Opens header_size s r = r.status ≡ ok → Opened header_size s r

is_ok-eq : (r : Status) → is_ok r ≡ true → r ≡ ok
is_ok-eq r e = ground arith

open_mapped-Opens :
    (header_size fd : ℕ) (chan : Channel) (s : Shm)
    → Opens header_size s (open_mapped header_size chan fd s)
unfolding open_mapped
open_mapped-Opens header_size fd chan s = elim (Bool-cases (is_ok (check_guards s))) [
  | inl good ↦
      rw (open_mapped, good)
        (λ _. record {
          guarded = is_ok-eq (check_guards s) good;
          mapped = refl;
          unseen = refl;
          running = refl;
          len = refl;
          next = refl;
        })
  | inr bad ↦ rw (open_mapped, bad) (λ e. cc bad)
]

open_file-Opens :
    (os : OpenOs) (header_size fd : ℕ) (chan : Channel) (s : Shm)
    → Opens header_size s (open_file os header_size chan fd s)
unfolding open_file
open_file-Opens os header_size fd chan s = elim (Bool-cases os.mapped) [
  | inr wrong ↦ rw (open_file, wrong) (λ k. cc)
  | inl mapped ↦ elim (Bool-cases (shm_magic_num == s.magic)) [
    | inr wrong ↦ rw (open_file, mapped, wrong) (λ k. cc)
    | inl magic ↦ elim (Option-cases os.unmapped) [
      | inr (e, wrong) ↦ rw (open_file, mapped, magic, wrong) (λ k. absurd (check_errno-fails e k))
      | inl unmapped ↦ elim (Option-cases os.remapped) [
        | inr (e, wrong) ↦
            rw (open_file, mapped, magic, unmapped, wrong) (λ k. absurd (check_errno-fails e k))
        | inl remapped ↦
            rw (open_file, mapped, magic, unmapped, remapped)
              (open_mapped-Opens header_size fd chan s)
      ]
    ]
  ]
]

ach_open-Opens :
    (isalnum : ℕ → Bool) (os : OpenOs) (header_size no_fd : ℕ) (chan : Channel) (name : List ℕ)
    (map_anon : Bool) (s : Shm)
    → Opens header_size s (ach_open isalnum os header_size no_fd chan name map_anon s)
unfolding ach_open
ach_open-Opens isalnum os header_size no_fd chan name true s =
    open_mapped-Opens header_size no_fd _ s
ach_open-Opens isalnum os header_size no_fd chan name false s =
    elim (Bool-cases (channel_name_ok isalnum name)) [
      | inr bad ↦ rw (ach_open, bad) (λ k. cc)
      | inl named ↦ elim (Sys-cases (retry intr_retry 0 os.opened)) [
        | inl (e, wrong) ↦ rw (ach_open, named, wrong) (λ k. absurd (check_errno-fails e k))
        | inr (fd, opened) ↦
            rw (ach_open, named, opened)
              (open_file-Opens os header_size fd (record chan { map_anon = false }) s)
      ]
    ]

-- ach_open returns ACH_OK only for a memory whose guard words are intact, and then with a handle
-- that has seen no message, is not canceled, and starts at index entry 1.
pub ach_open-Opened :
    (isalnum : ℕ → Bool) (os : OpenOs) (header_size no_fd : ℕ) (chan : Channel) (name : List ℕ)
    (map_anon : Bool) (s : Shm)
    → (ach_open isalnum os header_size no_fd chan name map_anon s).status ≡ ok
    → Opened header_size s (ach_open isalnum os header_size no_fd chan name map_anon s)
ach_open-Opened isalnum os header_size no_fd chan name map_anon s =
    ach_open-Opens isalnum os header_size no_fd chan name map_anon s

-- With two index entries or more, `ach_get` may read with a new handle.
Opened-CanRead :
    {header_size : ℕ} {s : Shm} {r : OpenResult}
    → Opened header_size s r
    → 1 < s.index_cnt
    → CanRead s r.chan
Opened-CanRead o two = record {
  seen = omega (arith, o.unseen);
  hint_in = omega (arith, o.next);
  hint = λ n. absurd (n o.unseen);
}
