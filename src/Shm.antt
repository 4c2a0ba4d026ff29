-- ===== src/Shm.antt =====
-- The shared memory of a channel and the handle on it: the types, constants and macros of
-- include/ach.h, and the helpers of src/ach.c that read them.
pub mod Invariant
pub mod Free
pub mod Places
pub mod Lookup
pub mod View
use ach.Base.{
  ℕ, ◌+◌, ◌%◌, ◌≡◌, refl, Bool, true, false, ◌&&◌, List, [], ◌∷◌, length, get_or, set, ltb, ◌==◌,
  if◌then◌else◌, not, Exec, done, stop, out_of_bounds, ◌>>=◌, assert, add64, sub64, ◌>>◌,
}

-- `enum ach_status`
pub data Status : Type 0 where
  ok overflow invalid_name bad_shm_file failed_syscall stale_frames missed_frame timeout : Status
  eexist enoent closed bug einval corrupt bad_header eacces canceled : Status

-- `ach_index_t`
pub record Index : Type 0 where
  pub size : ℕ
  pub offset : ℕ
  pub seq_num : ℕ

-- `memset( &index_ar[i], 0, sizeof( ach_index_t ) )`
abbrev pub no_index : Index
no_index = record { size = 0; offset = 0; seq_num = 0 }

-- `ach_header_t` with the sections that lie behind it: the index array, the data bytes and the
-- three guard words. The mutex and the condition variable are seen through the calls that are made
-- on them (module Sync).
pub record Shm : Type 0 where
  pub magic : ℕ
  pub len : ℕ
  pub name : List ℕ
  pub index_cnt : ℕ
  pub data_size : ℕ
  pub data_head : ℕ
  pub data_free : ℕ
  pub index_head : ℕ
  pub index_free : ℕ
  pub dirty : ℕ
  pub last_seq : ℕ
  pub guard_header : ℕ
  pub index : List Index
  pub guard_index : ℕ
  pub bytes : List ℕ
  pub guard_data : ℕ

-- `ach_channel_t`; `mapped` is whether `shm` is not NULL, and `map_anon` that field of `attr`.
pub record Channel : Type 0 where
  pub mapped : Bool
  pub len : ℕ
  pub fd : ℕ
  pub seq_num : ℕ
  pub next_index : ℕ
  pub map_anon : Bool
  pub cancel : Bool

abbrev pub shm_magic_num : ℕ
shm_magic_num = 0xb07511f3

abbrev pub guard_header_num : ℕ
guard_header_num = 0x1A2A3A4A5A6A7A8A

abbrev pub guard_index_num : ℕ
guard_index_num = 0x1B2B3B4B5B6B7B8B

abbrev pub guard_data_num : ℕ
guard_data_num = 0x1C2C3C4C5C6C7C8C

unfoldable pub oldest_index_i : Shm → ℕ
oldest_index_i s = add64 s.index_head s.index_free % s.index_cnt

unfoldable pub last_index_i : Shm → ℕ
last_index_i s = sub64 (add64 s.index_head s.index_cnt) 1 % s.index_cnt

unfoldable pub check_guards : Shm → Status
check_guards s =
    if (shm_magic_num == s.magic)
      && ((guard_header_num == s.guard_header)
          && ((guard_index_num == s.guard_index) && (guard_data_num == s.guard_data)))
    then ok
    else corrupt

-- `index_ar[i]`
unfoldable pub load_index : Shm → ℕ → Exec Index
load_index s i =
    if ltb i (length s.index) then done (get_or s.index i no_index) else stop out_of_bounds

-- `free_index`
unfoldable pub free_index : Shm → ℕ → Exec Shm
free_index s i = do
  e ← load_index s i
  assert (not (e.seq_num == 0))
  assert (not (e.size == 0))
  assert (ltb s.index_free s.index_cnt)
  done (record s {
    data_free = add64 s.data_free e.size;
    index_free = add64 s.index_free 1;
    index = set s.index i no_index;
  })
