-- ===== src/Create.antt =====
-- `ach_create` and `ach_open` of src/ach.c.
pub mod Fresh
pub mod Open
use ach.Base.{
  ℕ, ◌+◌, ◌*◌, Bool, true, false, not, Option, none, some, List, [], ◌∷◌, replicate, take, leb,
  ◌==◌, if◌then◌else◌, Exec, done, stop, out_of_bounds, ◌>>=◌, ◌>>◌, assert, add64, mul64,
}
use ach.Shm.{
  Status, ok, failed_syscall, invalid_name, bad_shm_file, Shm, Channel, no_index, shm_magic_num,
  guard_header_num, guard_index_num, guard_data_num, check_guards,
}
use ach.Sync.{is_ok}
use ach.Name.{
  Errno, Sys, answer, failed, check_errno, retry, intr_retry, channel_name_ok, chan_name_max,
}

-- What the system calls of `ach_create` return: `mapped` is whether `mmap` (or `malloc`) gives
-- memory, `inits` whether each of the `pthread_…` calls that set up the mutex and the condition
-- variable returns 0.
pub record CreateOs : Type 0 where
  pub opened : ℕ → Sys ℕ
  pub truncated : ℕ → Sys (Unit {0})
  pub mapped : Bool
  pub inits : List Bool
  pub unmapped : Bool
  pub closed : ℕ → Sys (Unit {0})

-- `len`: the header, whose size depends on the platform, the index entries of 24 bytes each, the
-- data bytes and three guard words
unfoldable pub shm_len : (header_size frame_cnt frame_size : ℕ) → ℕ
shm_len header_size frame_cnt frame_size =
    add64 (add64 (add64 header_size (mul64 frame_cnt 24)) (mul64 frame_cnt frame_size)) 24

-- Where the guard word behind the data bytes ends (ACH_SHM_GUARD_DATA).
unfoldable pub guard_data_end : (header_size index_cnt data_size : ℕ) → ℕ
guard_data_end header_size index_cnt data_size =
    header_size + 8 + 24 * index_cnt + 8 + data_size + 8

unfoldable pub all_ok : List Bool → Bool
all_ok [] = true
all_ok (b ∷ bs) = if b then all_ok bs else false

-- the memory that `ach_create` sets up in `len` bytes of zeros, from "initialize name" on
unfoldable pub init_shm :
    (header_size : ℕ) → (name : List ℕ) → (frame_cnt frame_size : ℕ) → Exec Shm
init_shm header_size name frame_cnt frame_size =
    let len = shm_len header_size frame_cnt frame_size in
    let data_size = mul64 frame_cnt frame_size in
    do
      assert (add64 (add64 (add64 header_size (mul64 frame_cnt 24)) data_size) 24 == len)
      if leb (guard_data_end header_size frame_cnt data_size) len
          then done (record {
            magic = shm_magic_num;
            len = len;
            name = take chan_name_max name;
            index_cnt = frame_cnt;
            data_size = data_size;
            data_head = 0;
            data_free = data_size;
            index_head = 0;
            index_free = frame_cnt;
            dirty = 0;
            last_seq = 0;
            guard_header = guard_header_num;
            index = replicate frame_cnt no_index;
            guard_index = guard_index_num;
            bytes = replicate data_size 0;
            guard_data = guard_data_num;
          })
          else stop out_of_bounds

-- the status of `ach_create`, with the memory if it was set up
pub record CreateResult : Type 0 where
  pub status : Status
  pub shm : Option Shm

abbrev pub give_up : Status → Exec CreateResult
give_up r = done (record { status = r; shm = none })

-- from "initialize synchronization" on
unfoldable pub create_mapped :
    CreateOs
    → (header_size : ℕ) → (name : List ℕ) → (frame_cnt frame_size : ℕ) → (map_anon : Bool)
    → Exec CreateResult
create_mapped os header_size name frame_cnt frame_size map_anon =
    if not (all_ok os.inits) then give_up failed_syscall else (do
      s ← init_shm header_size name frame_cnt frame_size
      if map_anon
          then done (record { status = ok; shm = some s })
          else if not os.unmapped
          then done (record { status = failed_syscall; shm = some s })
          else elim (retry intr_retry 0 os.closed) [
            | answer _ ↦ done (record { status = ok; shm = some s })
            | failed e ↦ done (record { status = failed_syscall; shm = some s })
          ])

-- The `oflag` that `attr->truncate` changes is an argument of the call that `opened` answers.
unfoldable pub create :
    (isalnum : ℕ → Bool)
    → CreateOs
    → (header_size : ℕ) → (name : List ℕ) → (frame_cnt frame_size : ℕ) → (map_anon : Bool)
    → Exec CreateResult
create isalnum os header_size name frame_cnt frame_size true =
    if os.mapped
    then create_mapped os header_size name frame_cnt frame_size true
    else stop out_of_bounds
create isalnum os header_size name frame_cnt frame_size false =
    if not (channel_name_ok isalnum name)
    then give_up invalid_name
    else elim (retry intr_retry 0 os.opened) [
      | failed e ↦ give_up (check_errno e)
      | answer fd ↦ elim (retry intr_retry 0 os.truncated) [
        | failed e ↦ give_up failed_syscall
        | answer _ ↦
            if os.mapped
            then create_mapped os header_size name frame_cnt frame_size false
            else give_up failed_syscall
      ]
    ]

-- What the system calls of `ach_open` return; for `munmap` and the second `mmap`, `none` is success
-- and `some` the `errno`.
pub record OpenOs : Type 0 where
  pub opened : ℕ → Sys ℕ
  pub mapped : Bool
  pub unmapped : Option Errno
  pub remapped : Option Errno

-- the length that `ach_open` maps
unfoldable pub open_len : (header_size : ℕ) → Shm → ℕ
open_len header_size s = add64 (add64 header_size (mul64 24 s.index_cnt)) s.data_size

pub record OpenResult : Type 0 where
  pub status : Status
  pub chan : Channel

-- "Check guard bytes" and "initialize struct"
unfoldable pub open_mapped : (header_size : ℕ) → Channel → (fd : ℕ) → Shm → OpenResult
open_mapped header_size chan fd s =
    let guards = check_guards s in
    if not (is_ok guards) then record { status = guards; chan = chan } else record {
      status = ok;
      chan = record chan {
        fd = fd;
        len = open_len header_size s;
        mapped = true;
        seq_num = 0;
        next_index = 1;
        cancel = false;
      };
    }

-- "open shm" to "remap", once the file is open
unfoldable pub open_file : OpenOs → (header_size : ℕ) → Channel → (fd : ℕ) → Shm → OpenResult
open_file os header_size chan fd s =
    if not os.mapped
    then record { status = failed_syscall; chan = chan }
    else if not (shm_magic_num == s.magic)
    then record { status = bad_shm_file; chan = chan }
    else elim os.unmapped [
      | some e ↦ record { status = check_errno e; chan = chan }
      | none ↦ elim os.remapped [
        | some e ↦ record { status = check_errno e; chan = chan }
        | none ↦ open_mapped header_size chan fd s
      ]
    ]

-- `s` is the memory of the channel of that name, or the one that `attr` gives if `map_anon`. The
-- descriptor of an anonymous channel is -1, `no_fd`.
unfoldable pub ach_open :
    (isalnum : ℕ → Bool)
    → OpenOs
    → (header_size no_fd : ℕ) → Channel
    → (name : List ℕ) → (map_anon : Bool) → Shm
    → OpenResult
ach_open isalnum os header_size no_fd chan name true s =
    open_mapped header_size (record chan { map_anon = true }) no_fd s
ach_open isalnum os header_size no_fd chan name false s =
    let chan' : Channel = record chan { map_anon = false } in
    if not (channel_name_ok isalnum name)
    then record { status = invalid_name; chan = chan' }
    else elim (retry intr_retry 0 os.opened) [
      | failed e ↦ record { status = check_errno e; chan = chan' }
      | answer fd ↦ open_file os header_size chan' fd s
    ]
