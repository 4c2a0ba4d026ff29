-- ===== src/Put/Copy.antt =====
-- The bytes that `ach_put` copies into the channel.
use ach.Base.{
  ℕ, ◌+◌, ◌-◌, ◌≤◌, ◌<◌, ◌≡◌, refl, ap, ◌∙◌, List, length, take, drop, length-take,
  take-append-take, le→leb, lt→leb, dec_lt, done, arith, sub64-eq,
}
use ach.Memory.Runs.{memcpy_in_bounds}
use ach.Ring.Copy.{
  write_run, write_round, write_run-eq-write_round, write_two_runs, length-write_run,
}
use ach.Shm.{Shm, Index}
use ach.Shm.Invariant.{Inv}
use ach.Put.{copy_in}

module _ {s : Shm} {es : List Index} (v : Inv s es) (buf : List ℕ) (len : ℕ)
    (fits : len ≤ s.data_size) (given : len ≤ length buf) where
  copy_in_one :
      len ≤ s.data_size - s.data_head
      → copy_in s buf len ≡ done (write_round s.data_size s.bytes s.data_head (take len buf))
  unfolding copy_in
  copy_in_one h =
      rw
        (
          copy_in,
          sub64-eq s.data_size s.data_head (omega arith) (omega arith),
          le→leb len (s.data_size - s.data_head) h,
          memcpy_in_bounds s.bytes s.data_head buf 0 len (omega arith) (omega arith),
        )
        (ap done (
          write_run-eq-write_round s.data_size s.bytes s.data_head (take len buf)
            (omega (arith, length-take len buf))))

  -- The two parts of a wrapped copy, `end_cnt` bytes and the rest.
  copy_in_two :
      (end_cnt : ℕ)
      → end_cnt ≡ s.data_size - s.data_head
      → end_cnt < len
      → copy_in s buf len ≡ done (write_round s.data_size s.bytes s.data_head (take len buf))
  unfolding copy_in
  copy_in_two end_cnt e h =
      rw
        (
          copy_in,
          sub64-eq s.data_size s.data_head (omega arith) (omega arith),
          ← e,
          lt→leb len end_cnt h,
          memcpy_in_bounds s.bytes s.data_head buf 0 end_cnt (omega arith) (omega arith),
          sub64-eq len end_cnt (omega arith) (omega arith),
          memcpy_in_bounds (write_run s.bytes s.data_head first) 0 buf end_cnt (len - end_cnt)
              (omega (arith, length-write_run s.bytes s.data_head first)) (omega arith),
        )
        (ap done (
          write_two_runs s.data_size s.bytes s.data_head first rest v.data_head_in
            (omega (arith, length-take end_cnt buf, v.data_head_in))
            (omega (arith, length-take (len - end_cnt) (drop end_cnt buf)))
          ∙ ap (write_round s.data_size s.bytes s.data_head)
              (take-append-take end_cnt (len - end_cnt) buf ∙ ap (λ k. take k buf) whole)))
    where
      first : List ℕ
      first = take end_cnt buf

      rest : List ℕ
      rest = take (len - end_cnt) (drop end_cnt buf)

      whole : end_cnt + (len - end_cnt) ≡ len
      whole = omega arith

  -- The copy in one piece or in two writes the `len` bytes of `buf` from `data_head` on, going round.
  pub copy_in-eq-write_round :
      copy_in s buf len ≡ done (write_round s.data_size s.bytes s.data_head (take len buf))
  copy_in-eq-write_round = elim (dec_lt (s.data_size - s.data_head) len) [
    | no n ↦ copy_in_one (omega arith)
    | yes p ↦ copy_in_two (s.data_size - s.data_head) refl p
  ]
