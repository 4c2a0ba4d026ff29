-- ===== src/Memory.antt =====
-- `memcpy` between byte arrays, as src/ach.c and src/achd/transport.c use it.
pub mod Runs
use ach.Base.{
  ℕ, ◌+◌, List, ◌++◌, length, take, drop, leb, ◌&&◌, if◌then◌else◌, Exec, done, stop, out_of_bounds,
}

-- `memcpy(dst + dst_off, src + src_off, n)`, on arrays that do not overlap. An access outside one
-- of them has no meaning in C.
unfoldable pub memcpy : List ℕ → ℕ → List ℕ → ℕ → ℕ → Exec (List ℕ)
memcpy dst dst_off src src_off n =
    if leb (dst_off + n) (length dst) && leb (src_off + n) (length src)
    then done (take dst_off dst ++ (take n (drop src_off src) ++ drop (dst_off + n) dst))
    else stop out_of_bounds
