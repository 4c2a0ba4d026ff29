-- ===== src/Shm/Places.antt =====
-- The helpers of src/ach.c that compute index places, on a well-formed memory.
use ach.Base.{ℕ, ◌+◌, ◌-◌, ◌%◌, ◌≡◌, ap, add64-eq, sub64-eq, List, arith}
use ach.Shm.{Shm, Index, oldest_index_i, last_index_i}
use ach.Shm.Invariant.{Inv, oldest}

module _ {s : Shm} {es : List Index} (v : Inv s es) where
  pub oldest_index_i-eq : oldest_index_i s ≡ oldest s
  unfolding oldest_index_i
  oldest_index_i-eq =
      ap (λ t. t % s.index_cnt)
        (add64-eq s.index_head s.index_free (omega (arith, v.used, v.cnt_small)))

  pub last_index_i-eq : last_index_i s ≡ (s.index_head + (s.index_cnt - 1)) % s.index_cnt
  unfolding last_index_i
  last_index_i-eq =
      rw
        (
          add64-eq s.index_head s.index_cnt (omega arith),
          sub64-eq (s.index_head + s.index_cnt) 1 (omega arith) (omega arith),
        )
        (ap (λ t. t % s.index_cnt) (omega arith))

  -- Whether the channel is marked as being written makes no difference to its form.
  pub Inv-dirty : (d : ℕ) → Inv (record s { dirty = d }) es
  Inv-dirty d = record {
    cnt_small = v.cnt_small;
    size_small = v.size_small;
    seq_small = v.seq_small;
    head_in = v.head_in;
    data_head_in = v.data_head_in;
    index_len = v.index_len;
    bytes_len = v.bytes_len;
    used = v.used;
    in_use = v.in_use;
    unused = v.unused;
    space = v.space;
    counted = v.counted;
    chain = v.chain;
    place = v.place;
  }
