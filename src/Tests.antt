-- ===== src/Tests.antt =====
-- Runs of the channel of src/ach.c at small inputs: two index entries and four bytes of data.
pub mod Watch
pub mod Daemon
pub mod Serving
pub mod Messages
pub mod Tools
pub mod Asking
use ach.Base.{
  ℕ, zero, suc, ltb, ◌<◌, ◌+◌, ◌≡◌, ◌≢◌, refl, true, false, Bool, some, none, List, [], ◌∷◌, done,
  arith,
}
use ach.Shm.{
  canceled, ok, stale_frames, Shm, Index, Channel, no_index, check_guards, shm_magic_num,
  guard_header_num, guard_index_num, guard_data_num,
}
use ach.Shm.Invariant.{Inv, oldest}
use ach.Shm.Places.{Inv-dirty}
use ach.Shm.View.{Ready, CanRead, view}
use ach.Sync.{
  Os, success, eownerdead, other_error, Locked, Wakeup, lock, unlock, wait, broadcast, rdlock,
  rdlock_loop, rdlock_test, chan_lock, check_lock, check_dirty,
}
use ach.Sync.Discipline.{Disciplined}
use ach.Sync.ReadLock.{Granted, rdlock-Granted}
use ach.Put.{put, clear_overlapping}
use ach.Put.Clear.{Leaves, clear_overlapping-Leaves}
use ach.Put.Refine.{Stored, put-Stored}
use ach.Put.Unlocked.{Overwritten, put-Overwritten, put-Disciplined}
use ach.Get.{get, flush, read_frame}
use ach.Get.Fetch.{after_read, fetch, deliver, read_frame-fetch}
use ach.Get.Refine.{Usable, got, get-fetch, get-now, get-Disciplined}
use ach.Get.Sequel.{get-put, get-next}
use ach.Get.Flush.{flushed}
use ach.Cancel.{cancel, child}
use ach.Cancel.Wake.{rdlock-wakes, cancel-Disciplined}
use ach.Loud.{put_loud}
use ach.Loud.Same.{put_loud-eq-put}
use ach.Loud.Read.{get_loud}
use ach.Loud.ReadSame.{get_loud-eq-get}
use ach.Stream.{read_bytes, at_end, full, read_fill, read_fill-join}
use ach.Name.{Sys, answer, failed, interrupted, retry, channel_name_ok, chars_ok}
use ach.Create.{CreateOs, create, all_ok, OpenOs, ach_open, open_file, open_mapped}
use ach.Create.Fresh.{fresh, create-fresh}
use ach.Create.Open.{Opened, ach_open-Opened}

-- after a first message 1, 2, 3
abbrev pub one_message : Shm
one_message = record {
  magic = shm_magic_num;
  len = 300;
  name = 99 ∷ [];
  index_cnt = 2;
  data_size = 4;
  data_head = 3;
  data_free = 1;
  index_head = 1;
  index_free = 1;
  dirty = 0;
  last_seq = 1;
  guard_header = guard_header_num;
  index = record { size = 3; offset = 0; seq_num = 1 } ∷ no_index ∷ [];
  guard_index = guard_index_num;
  bytes = 1 ∷ 2 ∷ 3 ∷ 0 ∷ [];
  guard_data = guard_data_num;
}

abbrev one_entry : List Index
one_entry = record { size = 3; offset = 0; seq_num = 1 } ∷ []

-- after a second message 4, 5, which went round and superseded the first
abbrev wrapped : Shm
wrapped = record one_message {
  data_head = 1;
  data_free = 2;
  index_head = 0;
  last_seq = 2;
  index = no_index ∷ record { size = 2; offset = 3; seq_num = 2 } ∷ [];
  bytes = 5 ∷ 2 ∷ 3 ∷ 4 ∷ [];
}

abbrev wrapped_entry : List Index
wrapped_entry = record { size = 2; offset = 3; seq_num = 2 } ∷ []

-- a handle that has read the first message
abbrev handle : Channel
handle = record {
  mapped = true;
  len = 276;
  fd = 3;
  seq_num = 1;
  next_index = 1;
  map_anon = false;
  cancel = false;
}

abbrev all_well : Os
all_well = record { locked = success; unlocked = success; broadcasted = success }

one_message-Inv : Inv one_message one_entry
one_message-Inv = record {
  cnt_small = omega arith;
  size_small = omega arith;
  seq_small = omega arith;
  head_in = omega arith;
  data_head_in = omega arith;
  index_len = refl;
  bytes_len = refl;
  used = refl;
  in_use = refl;
  unused = refl;
  space = refl;
  counted = omega arith;
  chain = (refl, omega arith, refl, tt);
  place = refl;
}

wrapped-Inv : Inv wrapped wrapped_entry
wrapped-Inv = record {
  cnt_small = omega arith;
  size_small = omega arith;
  seq_small = omega arith;
  head_in = omega arith;
  data_head_in = omega arith;
  index_len = refl;
  bytes_len = refl;
  used = refl;
  in_use = refl;
  unused = refl;
  space = refl;
  counted = omega arith;
  chain = (refl, omega arith, refl, tt);
  place = refl;
}

one_message-Ready : Ready one_message one_entry
unfolding check_guards
one_message-Ready = record {
  inv = one_message-Inv;
  filled = λ _. omega arith;
  clean = refl;
  guarded = refl;
}

wrapped-Ready : Ready wrapped wrapped_entry
unfolding check_guards
wrapped-Ready = record {
  inv = wrapped-Inv;
  filled = λ _. omega arith;
  clean = refl;
  guarded = refl;
}

handle-one_message : CanRead one_message handle
handle-one_message = record { seen = omega arith; hint_in = omega arith; hint = λ _. refl }

handle-wrapped : CanRead wrapped handle
handle-wrapped = record { seen = omega arith; hint_in = omega arith; hint = λ _. refl }

six_seven-Stored :
    Stored wrapped wrapped_entry all_well
      (6 ∷ 7 ∷ 8 ∷ [])
      (put all_well handle wrapped (some (6 ∷ 7 ∷ 8 ∷ [])) 3)
six_seven-Stored =
    put-Stored all_well handle (6 ∷ 7 ∷ 8 ∷ []) 3 wrapped-Ready refl refl refl refl (omega arith)
      (omega arith) (omega arith) (omega arith)

put-Stored_example :
    Stored wrapped wrapped_entry all_well
      (6 ∷ 7 ∷ 8 ∷ [])
      (put all_well handle wrapped (some (6 ∷ 7 ∷ 8 ∷ [])) 3)
put-Stored_example =
    put-Stored all_well handle (6 ∷ 7 ∷ 8 ∷ []) 3 wrapped-Ready refl refl refl refl (omega arith)
      (omega arith) (omega arith) (omega arith)

-- the reader waits for the second message
abbrev woken : Wakeup
woken = record { code = success; shm = wrapped; cancel = false }

abbrev granted : Locked
granted = record {
  status = ok;
  chan = handle;
  shm = wrapped;
  calls = lock success ∷ wait false success ∷ [];
}

waits : rdlock success true false handle one_message (woken ∷ []) ≡ done granted
unfolding rdlock rdlock_loop rdlock_test chan_lock check_lock check_dirty
waits = refl

one_message-Usable : Usable handle one_message
one_message-Usable = record {
  entries = one_entry;
  ready = one_message-Ready;
  reads = handle-one_message;
}

wrapped-Usable : Usable handle wrapped
wrapped-Usable = record { entries = wrapped_entry; ready = wrapped-Ready; reads = handle-wrapped }

abbrev four_zeros : List ℕ
four_zeros = 0 ∷ 0 ∷ 0 ∷ 0 ∷ []

get-fetch_example :
    (es : List Index) × Ready wrapped es
    × (get all_well handle one_message four_zeros 4 false 1 (woken ∷ [])
        ≡ done (got (fetch (view wrapped es) 2 handle 1 four_zeros 4) granted))
get-fetch_example =
    get-fetch all_well handle one_message four_zeros 4 false 1 (woken ∷ []) one_message-Usable
      (wrapped-Usable, tt) refl (omega arith) granted waits refl

read_frame-fetch_example :
    read_frame handle wrapped 0 four_zeros 4
    ≡ done (fetch (view wrapped wrapped_entry) 2 handle 0 four_zeros 4)
read_frame-fetch_example =
    read_frame-fetch wrapped-Inv handle-wrapped (λ _. omega arith) 0 four_zeros 4 (omega arith)
      (λ e. ground arith)

get-put_example :
    get all_well (flushed handle wrapped) six_seven-Stored.last four_zeros 4 false 0 []
    ≡ done (
        got (deliver (flushed handle wrapped) 2 3 (6 ∷ 7 ∷ 8 ∷ []) four_zeros 4) (record {
          status = ok;
          chan = flushed handle wrapped;
          shm = six_seven-Stored.last;
          calls = lock success ∷ [];
        }))
get-put_example =
    get-put all_well (flushed handle wrapped) six_seven-Stored four_zeros 4 false 0 []
      (record { seen = omega arith; hint_in = omega arith; hint = λ _. refl }) refl refl refl refl
      (omega arith)

rdlock-Granted_example : Granted (λ s. s.last_seq ≢ 0) true handle granted
rdlock-Granted_example =
    rdlock-Granted (λ s. s.last_seq ≢ 0) true false success handle one_message (woken ∷ []) granted
      (λ e. ground arith) ((λ e. ground arith), tt) waits refl

get-Disciplined_example : Disciplined (lock success ∷ unlock ∷ [])
get-Disciplined_example = get-Disciplined all_well handle wrapped four_zeros 4 false 0 [] _ (
    get-now all_well handle wrapped four_zeros 4 false 0 [] wrapped-Ready handle-wrapped refl refl
      refl (λ e. ground arith) (omega arith))

put-Disciplined_example : Disciplined (lock success ∷ unlock ∷ broadcast ∷ [])
put-Disciplined_example =
    put-Disciplined all_well handle wrapped refl refl (some (6 ∷ 7 ∷ 8 ∷ [])) 3 _
      six_seven-Stored.ends

-- a writer died while it held the mutex
abbrev torn : Shm
torn = record wrapped { dirty = 1 }

abbrev owner_died : Os
owner_died = record { locked = eownerdead; unlocked = other_error; broadcasted = success }

torn-guarded : check_guards torn ≡ ok
unfolding check_guards
torn-guarded = refl

put-Overwritten_example :
    Overwritten torn wrapped_entry owner_died
      (6 ∷ 7 ∷ 8 ∷ [])
      (put owner_died handle torn (some (6 ∷ 7 ∷ 8 ∷ [])) 3)
put-Overwritten_example =
    put-Overwritten owner_died handle (6 ∷ 7 ∷ 8 ∷ []) 3 (Inv-dirty wrapped-Inv 1) torn-guarded refl
      refl refl refl (omega arith) (omega arith) (omega arith) (omega arith)

clear_overlapping-Leaves_example :
    Leaves one_message (clear_overlapping 3 one_message 4 (oldest one_message)) []
clear_overlapping-Leaves_example =
    clear_overlapping-Leaves 3 4 one_entry (omega arith) one_message-Inv (omega arith) (omega arith)

abbrev is_lower : ℕ → Bool
is_lower c = ltb 96 c

abbrev create_well : CreateOs
create_well = record {
  opened = λ i. answer 3;
  truncated = λ i. answer tt;
  mapped = true;
  inits = true ∷ true ∷ [];
  unmapped = true;
  closed = λ i. answer tt;
}

abbrev open_well : OpenOs
open_well = record { opened = λ i. answer 3; mapped = true; unmapped = none; remapped = none }

c_ok : channel_name_ok is_lower (99 ∷ []) ≡ true
unfolding channel_name_ok chars_ok
c_ok = refl

answered {ℓ} : {A : Type ℓ} (a : A) → retry 8 0 (λ i. answer a) ≡ answer a
unfolding retry
answered a = refl

all_inits : all_ok (true ∷ true ∷ []) ≡ true
unfolding all_ok
all_inits = refl

create-fresh_example :
    (create is_lower create_well 232 (99 ∷ []) 2 2 false
      ≡ done (record { status = ok; shm = some (fresh 232 (99 ∷ []) 2 2) }))
    × Ready (fresh 232 (99 ∷ []) 2 2) []
    × (view (fresh 232 (99 ∷ []) 2 2) [] ≡ record { messages = []; last = 0 })
create-fresh_example =
    create-fresh 232 (99 ∷ []) 2 2 (omega arith) (omega arith) (omega arith) is_lower create_well
      false 3 c_ok (answered 3) (answered tt) refl all_inits refl (answered tt)

opens : (ach_open is_lower open_well 232 0 handle (99 ∷ []) false wrapped).status ≡ ok
unfolding ach_open open_file open_mapped retry channel_name_ok chars_ok check_guards
opens = refl

ach_open-Opened_example :
    Opened 232 wrapped (ach_open is_lower open_well 232 0 handle (99 ∷ []) false wrapped)
ach_open-Opened_example =
    ach_open-Opened is_lower open_well 232 0 handle (99 ∷ []) false wrapped opens

-- a reader that has seen the second message, woken for nothing, then canceled
abbrev all_seen : Channel
all_seen = record handle { seq_num = 2; next_index = 0 }

abbrev stopped : Wakeup
stopped = record { code = success; shm = wrapped; cancel = true }

rdlock-wakes_example :
    rdlock success true false all_seen wrapped (woken ∷ stopped ∷ [])
    ≡ done (record {
      status = canceled;
      chan = record all_seen { cancel = true };
      shm = wrapped;
      calls = lock success ∷ wait false success ∷ wait false success ∷ unlock ∷ [];
    })
unfolding check_lock check_dirty
rdlock-wakes_example =
    rdlock-wakes success false all_seen wrapped (woken ∷ []) stopped [] refl refl refl refl
      (record { taken = refl; clean = refl; nothing = refl; uncanceled = refl }, tt) refl refl refl

cancel-Disciplined_example : Disciplined (cancel all_well child handle wrapped false).calls
cancel-Disciplined_example = cancel-Disciplined all_well child handle wrapped false

get-next_example :
    (get all_well handle wrapped four_zeros 4 false 0 []
      ≡ done (
          got
            (deliver handle 2 2 (4 ∷ 5 ∷ []) four_zeros 4)
            (record { status = ok; chan = handle; shm = wrapped; calls = lock success ∷ [] })))
    × CanRead wrapped (after_read handle 2 2)
get-next_example =
    get-next all_well handle four_zeros 4 false 0 [] wrapped-Ready handle-wrapped (omega arith)
      (omega arith) refl refl refl refl (omega arith)

put_loud-eq-put_example :
    (put_loud all_well handle wrapped (some (6 ∷ 7 ∷ 8 ∷ [])) 3).result
    ≡ put all_well handle wrapped (some (6 ∷ 7 ∷ 8 ∷ [])) 3
put_loud-eq-put_example = put_loud-eq-put all_well handle wrapped (some (6 ∷ 7 ∷ 8 ∷ [])) 3

get_loud-eq-get_example :
    (get_loud all_well handle one_message four_zeros 4 true 1 (woken ∷ [])).result
    ≡ get all_well handle one_message four_zeros 4 true 1 (woken ∷ [])
get_loud-eq-get_example =
    get_loud-eq-get all_well handle one_message four_zeros 4 true 1 (woken ∷ [])
