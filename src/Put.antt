-- ===== src/Put.antt =====
-- `ach_put` of src/ach.c. The memory that it is given is the one at the time when the mutex is
-- taken; what it reads before, no operation writes after `ach_create`.
pub mod Clear
pub mod Chains
pub mod Copy
pub mod Entry
pub mod Room
pub mod Frame
pub mod Refine
pub mod Unlocked
use ach.Base.{
  ℕ, zero, suc, ◌%◌, Bool, true, false, not, ◌||◌, Option, none, some, List, [], ◌∷◌, ◌++◌, set,
  ltb, leb, ◌==◌, if◌then◌else◌, Exec, done, stop, no_fuel, ◌>>=◌, ◌>>◌, assert, add64, sub64,
}
use ach.Memory.{memcpy}
use ach.Shm.{
  Status, ok, einval, overflow, Shm, Channel, check_guards, load_index, free_index, oldest_index_i,
}
use ach.Sync.{Os, Call, is_ok, wrlock, unwrlock}

-- "clear entry used by index"
unfoldable pub clear_head : Shm → Exec Shm
clear_head s =
    if s.index_free == 0
    then free_index s s.index_head
    else (do e ← load_index s s.index_head; assert (e.seq_num == 0); done s)

-- "clear overlapping entries": the rounds of the `for` loop are bounded by the fuel.
unfoldable pub clear_overlapping : (fuel : ℕ) → Shm → (len i : ℕ) → Exec Shm
clear_overlapping zero s len i = stop no_fuel
clear_overlapping (suc fuel) s len i = elim (ltb s.data_free len) [
  | false ↦ done s
  | true ↦ do
    assert (not (i == s.index_head))
    t ← free_index s i
    clear_overlapping fuel t len (add64 i 1 % t.index_cnt)
]

-- "copy buffer"
unfoldable pub copy_in : Shm → List ℕ → (len : ℕ) → Exec (List ℕ)
copy_in s buf len =
    let end_cnt = sub64 s.data_size s.data_head in
    if leb len end_cnt then memcpy s.bytes s.data_head buf 0 len else (do
      d ← memcpy s.bytes s.data_head buf 0 end_cnt
      memcpy d 0 buf end_cnt (sub64 len end_cnt))

-- "modify counts"; `idx` is the entry at `index_head`.
unfoldable pub add_entry : Shm → (len : ℕ) → Shm
add_entry s len =
    let seq = add64 s.last_seq 1 in
    record s {
      last_seq = seq;
      index = set s.index s.index_head (record { size = len; offset = s.data_head; seq_num = seq });
      data_head = add64 s.data_head len % s.data_size;
      data_free = sub64 s.data_free len;
      index_head = add64 s.index_head 1 % s.index_cnt;
      index_free = sub64 s.index_free 1;
    }

-- the assertions on the counts
unfoldable pub check_counts : Shm → Exec Shm
check_counts s = do
  assert (leb s.index_free s.index_cnt)
  assert (leb s.data_free s.data_size)
  assert (ltb 0 s.last_seq)
  done s

-- What `ach_put` does to the memory between `wrlock` and `unwrlock`.
unfoldable pub put_frame : Shm → List ℕ → (len : ℕ) → Exec Shm
put_frame s buf len = do
  s₁ ← clear_head s
  assert (ltb 0 s₁.index_free)
  s₂ ← clear_overlapping (suc s₁.index_cnt) s₁ len (oldest_index_i s₁)
  assert (leb len s₂.data_free)
  d ← copy_in s₂ buf len
  check_counts (add_entry (record s₂ { bytes = d }) len)

-- the status that `ach_put` returns, the memory that it leaves, and the calls that it made
pub record PutResult : Type 0 where
  pub status : Status
  pub shm : Shm
  pub calls : List Call

-- `buf` is `none` for NULL; else it holds the bytes that the caller's pointer may read.
unfoldable pub put : Os → Channel → Shm → (buf : Option (List ℕ)) → (len : ℕ) → Exec PutResult
put os chan s none len = done (record { status = einval; shm = s; calls = [] })
put os chan s (some buf) len =
    let guards = check_guards s in
    if (len == 0) || not chan.mapped
    then done (record { status = einval; shm = s; calls = [] })
    else if not (is_ok guards)
    then done (record { status = guards; shm = s; calls = [] })
    else if ltb s.data_size len
    then done (record { status = overflow; shm = s; calls = [] })
    else (do
      (r, s₁, cs) ← wrlock os.locked s
      s₂ ← put_frame s₁ buf len
      (r', s₃, ds) ← unwrlock os s₂
      done (record { status = r'; shm = s₃; calls = cs ++ ds }))
