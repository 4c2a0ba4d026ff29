-- ===== src/Get/Copy.antt =====
-- The bytes that `ach_get_from_offset` copies to the caller.
use native.Mathlib.Nat.{mod_self}
use ach.Base.{
  ℕ, ◌+◌, ◌-◌, ◌%◌, ◌^◌, ◌≤◌, ◌<◌, ◌≡◌, refl, sym, ap, ◌∙◌, List, ◌++◌, length, drop, done, arith,
  dec_lt, add64-eq, sub64-eq, lt→ltb, le→ltb,
}
use ach.Memory.Runs.{memcpy_in_bounds}
use ach.Ring.Window.{window, window-append, length-window}
use ach.Ring.Copy.{write_run, write_run-append, write_run-zero, length-write_run, slice-eq-window}
use ach.Shm.{Shm, Index}
use ach.Shm.Invariant.{frame}
use ach.Get.{copy_out}

module _ (s : Shm) (e : Index) (buf : List ℕ) (size_small : s.data_size ≤ 2 ^ 63)
    (bytes_len : length s.bytes ≡ s.data_size) (starts_in : e.offset < s.data_size)
    (fits : e.size ≤ s.data_size) (room : e.size ≤ length buf) where
  copy_one : e.offset + e.size < s.data_size → copy_out s e buf ≡ done (write_run buf 0 (frame s e))
  unfolding copy_out
  copy_one h = rw (
    copy_out,
    add64-eq e.offset e.size (omega arith),
    lt→ltb (e.offset + e.size) s.data_size h,
    memcpy_in_bounds buf 0 s.bytes e.offset e.size (omega arith) (omega arith),
    slice-eq-window s.bytes s.data_size e.offset e.size (omega arith) (omega arith),
  )

  copy_two :
      (end_cnt : ℕ)
      → end_cnt ≡ s.data_size - e.offset
      → s.data_size ≤ e.offset + e.size
      → copy_out s e buf ≡ done (write_run buf 0 (frame s e))
  unfolding copy_out
  copy_two end_cnt q h =
      rw
        (
          copy_out,
          add64-eq e.offset e.size (omega arith),
          le→ltb (e.offset + e.size) s.data_size h,
          sub64-eq s.data_size e.offset (omega arith) (omega arith),
          ← q,
          memcpy_in_bounds buf 0 s.bytes e.offset end_cnt (omega arith) (omega arith),
          slice-eq-window s.bytes s.data_size e.offset end_cnt (omega arith) (omega arith),
          sub64-eq e.size end_cnt (omega arith) (omega arith),
          memcpy_in_bounds (write_run buf 0 first) end_cnt s.bytes 0 (e.size - end_cnt)
              (omega (arith, length-write_run buf 0 first)) (omega arith),
          slice-eq-window s.bytes s.data_size 0 (e.size - end_cnt) (omega arith) (omega arith),
        )
        (ap done (
          ap (λ p. write_run (write_run buf 0 first) p rest) at_end
          ∙ write_run-append buf 0 first rest
          ∙ ap (write_run buf 0) (sym whole)))
    where
      first : List ℕ
      first = window 0 s.data_size s.bytes e.offset end_cnt

      rest : List ℕ
      rest = window 0 s.data_size s.bytes 0 (e.size - end_cnt)

      at_end : end_cnt ≡ 0 + length first
      at_end = omega (arith, length-window 0 s.data_size s.bytes e.offset end_cnt)

      back_to_start : (e.offset + end_cnt) % s.data_size ≡ 0
      back_to_start =
          let turn : e.offset + end_cnt ≡ s.data_size = omega arith in
          ap (λ t. t % s.data_size) turn ∙ mod_self s.data_size

      whole : frame s e ≡ first ++ rest
      whole =
          let parts : e.size ≡ end_cnt + (e.size - end_cnt) = omega arith in
          ap (window 0 s.data_size s.bytes e.offset) parts
          ∙ window-append 0 s.data_size s.bytes e.offset end_cnt (e.size - end_cnt) starts_in
          ∙ ap (λ p. first ++ window 0 s.data_size s.bytes p (e.size - end_cnt)) back_to_start

  -- One copy or two, the caller's buffer starts with the frame and is otherwise as it was.
  pub copy_out-eq : copy_out s e buf ≡ done (frame s e ++ drop e.size buf)
  copy_out-eq =
      run
      ∙ ap done (
          write_run-zero buf (frame s e) (omega (arith, count))
          ∙ ap (λ k. frame s e ++ drop k buf) count)
    where
      count : length (frame s e) ≡ e.size
      count = length-window 0 s.data_size s.bytes e.offset e.size

      run : copy_out s e buf ≡ done (write_run buf 0 (frame s e))
      run = elim (dec_lt (e.offset + e.size) s.data_size) [
        | yes h ↦ copy_one h
        | no h ↦ copy_two (s.data_size - e.offset) refl (omega arith)
      ]
