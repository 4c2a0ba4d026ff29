-- ===== src/Memory/Runs.antt =====
-- `memcpy` as a run of bytes written to its target.
use ach.Base.{
  ℕ, ◌+◌, ◌≤◌, ◌≡◌, sym, ap, ◌∙◌, List, ◌++◌, length, take, drop, length-take, length-drop, le→leb,
  done, arith,
}
use ach.Ring.Copy.{write_run, splice-eq-write_run}
use ach.Memory.{memcpy}

-- In bounds, `memcpy` writes the `n` source bytes and nothing else.
pub memcpy_in_bounds :
    (dst : List ℕ) (dst_off : ℕ) (src : List ℕ) (src_off n : ℕ)
    → dst_off + n ≤ length dst
    → src_off + n ≤ length src
    → memcpy dst dst_off src src_off n ≡ done (write_run dst dst_off (take n (drop src_off src)))
unfolding memcpy
memcpy_in_bounds dst dst_off src src_off n hd hs =
    rw (le→leb (dst_off + n) (length dst) hd, le→leb (src_off + n) (length src) hs)
      (ap done (
        ap (λ k. take dst_off dst ++ (taken ++ drop (dst_off + k) dst)) (sym count)
        ∙ splice-eq-write_run dst dst_off taken (omega (arith, count))))
  where
    taken : List ℕ
    taken = take n (drop src_off src)

    count : length taken ≡ n
    count = omega (arith, length-take n (drop src_off src), length-drop src_off src)
