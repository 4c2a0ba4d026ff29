-- ===== src/Loud.antt =====
-- The variants of src/ach.c that print where they are: `ach_put_loud` and `unwrlock_loud`. Those
-- that read are in the child Read.
pub mod Same
pub mod Read
pub mod ReadSame
use ach.Base.{
  ℕ, zero, suc, ◌%◌, Bool, true, false, not, ◌||◌, Option, none, some, List, [], ◌∷◌, ◌++◌, ltb,
  leb, ◌==◌, if◌then◌else◌, Exec, done, stop, no_fuel, ◌>>=◌, assert, add64, sub64,
}
use ach.Memory.{memcpy}
use ach.Shm.{
  Status, ok, einval, overflow, failed_syscall, Shm, Channel, check_guards, load_index, free_index,
  oldest_index_i,
}
use ach.Sync.{Os, Call, unlock, broadcast, is_ok, is_success, wrlock, map_done}
use ach.Put.{PutResult, add_entry}

-- What is printed: `"13.01 "` is `mark 13 1`, and `"13 "` is `mark 13 0`; `times` is the line with the
-- present time and the time limit.
pub data Mark : Type 0 where
  mark : (step part : ℕ) → Mark
  times : Mark

-- What a piece of code prints, and how it ends.
pub record Loud {ℓ} (A : Type ℓ) : Type ℓ where
  pub printed : List Mark
  pub result : Exec A

abbrev pub next_marks {ℓ κ} : {A : Type ℓ} {B : Type κ} → Exec A → (A → Loud B) → List Mark
next_marks (done a) f = (f a).printed
next_marks (stop e) f = []

-- first one piece, then the next
abbrev pub and_then {ℓ κ} : {A : Type ℓ} {B : Type κ} → Loud A → (A → Loud B) → Loud B
and_then m f = record {
  printed = m.printed ++ next_marks m.result f;
  result = m.result >>= λ a. (f a).result;
}

-- a mark, then a piece of code
abbrev pub say {ℓ} : {A : Type ℓ} → ℕ → ℕ → Loud A → Loud A
say n k m = record m { printed = mark n k ∷ m.printed }

-- code that prints nothing
abbrev pub quiet {ℓ} : {A : Type ℓ} → Exec A → Loud A
quiet m = record { printed = []; result = m }

abbrev pub map_loud {ℓ κ} : {A : Type ℓ} {B : Type κ} → (A → B) → Loud A → Loud B
map_loud f m = record { printed = m.printed; result = map_done f m.result }

unfoldable pub unwrlock_loud : Os → Shm → Loud (Status × Shm × List Call)
unwrlock_loud os s =
    let s' : Shm = record s { dirty = 0 } in
    say 19 1 (
      and_then (quiet (assert (s.dirty == 1))) λ _. say 19 2 (
        if not (is_success os.unlocked)
        then say 19 3 (quiet (done (failed_syscall, s', unlock ∷ [])))
        else say 19 4 (
            if not (is_success os.broadcasted)
            then say 19 5 (quiet (done (failed_syscall, s', unlock ∷ broadcast ∷ [])))
            else say 19 6 (quiet (done (ok, s', unlock ∷ broadcast ∷ []))))))

-- "clear entry used by index"
unfoldable pub clear_head_loud : Shm → Loud Shm
clear_head_loud s =
    if s.index_free == 0
    then say 10 1 (quiet (free_index s s.index_head))
    else say 10 11
        (quiet (load_index s s.index_head >>= λ e. (assert (e.seq_num == 0) >>= λ _. done s)))

-- "clear overlapping entries"; `print_iter` counts the rounds.
unfoldable pub clear_overlapping_loud : (fuel : ℕ) → Shm → (len i print_iter : ℕ) → Loud Shm
clear_overlapping_loud zero s len i print_iter = quiet (stop no_fuel)
clear_overlapping_loud (suc fuel) s len i print_iter = elim (ltb s.data_free len) [
  | false ↦ quiet (done s)
  | true ↦ say 12 print_iter (
      and_then (quiet (assert (not (i == s.index_head)))) λ _.
        and_then (quiet (free_index s i))
          λ t. clear_overlapping_loud fuel t len (add64 i 1 % t.index_cnt) (suc print_iter))
]

-- "copy buffer"
unfoldable pub copy_in_loud : Shm → List ℕ → (len : ℕ) → Loud (List ℕ)
copy_in_loud s buf len =
    let end_cnt = sub64 s.data_size s.data_head in
    if leb len end_cnt
    then say 13 1 (quiet (memcpy s.bytes s.data_head buf 0 len))
    else say 13 11 (
        say 13 12 (
          and_then (quiet (memcpy s.bytes s.data_head buf 0 end_cnt))
            λ d. say 13 13 (quiet (memcpy d 0 buf end_cnt (sub64 len end_cnt)))))

-- the assertions on the counts
unfoldable pub check_counts_loud : Shm → Loud Shm
check_counts_loud s = and_then (quiet (assert (leb s.index_free s.index_cnt))) λ _. say 17 0 (
    and_then (quiet (assert (leb s.data_free s.data_size)))
      λ _. say 18 0 (and_then (quiet (assert (ltb 0 s.last_seq))) λ _. quiet (done s)))

-- between `wrlock` and `unwrlock_loud`
unfoldable pub put_frame_loud : Shm → List ℕ → (len : ℕ) → Loud Shm
put_frame_loud s buf len = say 10 0 (
    and_then (clear_head_loud s) λ s₁. say 11 0 (
      and_then (quiet (assert (ltb 0 s₁.index_free))) λ _. say 12 0 (
        and_then (clear_overlapping_loud (suc s₁.index_cnt) s₁ len (oldest_index_i s₁) 1) λ s₂.
          say 13 0 (
            and_then (quiet (assert (leb len s₂.data_free))) λ _.
              and_then (copy_in_loud s₂ buf len) λ d. say 14 0 (
                say 15 0
                  (say 16 0 (check_counts_loud (add_entry (record s₂ { bytes = d }) len))))))))

unfoldable pub put_loud : Os → Channel → Shm → (buf : Option (List ℕ)) → (len : ℕ) → Loud PutResult
put_loud os chan s none len =
    say 1 0 (quiet (done (record { status = einval; shm = s; calls = [] })))
put_loud os chan s (some buf) len =
    let guards = check_guards s in
    if (len == 0) || not chan.mapped
    then say 1 0 (quiet (done (record { status = einval; shm = s; calls = [] })))
    else say 2 0 (
        say 3 0 (
          say 4 0 (
            if not (is_ok guards)
            then quiet (done (record { status = guards; shm = s; calls = [] }))
            else if ltb s.data_size len
            then say 5 0 (quiet (done (record { status = overflow; shm = s; calls = [] })))
            else say 6 0 (
                say 7 0 (
                  say 9 0 (
                    and_then (quiet (wrlock os.locked s)) λ (r, s₁, cs).
                      and_then (put_frame_loud s₁ buf len) λ s₂. say 19 0 (
                        and_then (unwrlock_loud os s₂) λ (r', s₃, ds).
                          say 20 0 (
                            quiet
                              (done (record { status = r'; shm = s₃; calls = cs ++ ds }))))))))))
