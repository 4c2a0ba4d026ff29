-- ===== src/Create/Fresh.antt =====
-- What `ach_create` sets up.
use ach.Base.{
  ℕ, zero, suc, ◌+◌, ◌*◌, ◌%◌, ◌^◌, ◌<◌, ◌≡◌, refl, sym, true, false, Bool, some, List, [],
  replicate, take, length-replicate, get_or, done, arith, add64, mul64, add64-eq, mul64-eq, le→leb,
  eq→==,
}
use native.Mathlib.Nat.{zero-mod}
use ach.Ring.Window.{window}
use ach.Shm.{
  ok, Shm, no_index, check_guards, shm_magic_num, guard_header_num, guard_index_num, guard_data_num,
}
use ach.Shm.View.{Ready, view}
use ach.Name.{answer, retry, intr_retry, channel_name_ok, chan_name_max}
use ach.Create.{CreateOs, create, create_mapped, init_shm, shm_len, guard_data_end, all_ok}

-- The memory of a new channel.
abbrev pub fresh : (header_size : ℕ) → (name : List ℕ) → (cnt size : ℕ) → Shm
fresh header_size name cnt size = record {
  magic = shm_magic_num;
  len = header_size + cnt * 24 + cnt * size + 24;
  name = take chan_name_max name;
  index_cnt = cnt;
  data_size = cnt * size;
  data_head = 0;
  data_free = cnt * size;
  index_head = 0;
  index_free = cnt;
  dirty = 0;
  last_seq = 0;
  guard_header = guard_header_num;
  index = replicate cnt no_index;
  guard_index = guard_index_num;
  bytes = replicate (cnt * size) 0;
  guard_data = guard_data_num;
}

get_or-replicate {ℓ} : {A : Type ℓ} (a : A) (n i : ℕ) → get_or (replicate n a) i a ≡ a
get_or-replicate a zero i = refl
get_or-replicate a (suc n) zero = refl
get_or-replicate a (suc n) (suc i) = get_or-replicate a n i

window-replicate :
    (size cnt h n : ℕ) → window no_index size (replicate cnt no_index) h n ≡ replicate n no_index
window-replicate size cnt h zero = refl
window-replicate size cnt h (suc n) =
    rw (get_or-replicate no_index cnt h, window-replicate size cnt ((h + 1) % size) n)

module _ (header_size : ℕ) (name : List ℕ) (cnt size : ℕ) (some_frames : 0 < cnt)
    (some_bytes : 0 < cnt * size) (small : header_size + cnt * 24 + cnt * size + 24 < 2 ^ 63) where
  fresh-Ready : Ready (fresh header_size name cnt size) []
  unfolding check_guards
  fresh-Ready = record {
    inv = record {
      cnt_small = omega (arith, small);
      size_small = omega (arith, small);
      seq_small = omega arith;
      head_in = some_frames;
      data_head_in = some_bytes;
      index_len = length-replicate cnt no_index;
      bytes_len = length-replicate (cnt * size) 0;
      used = omega arith;
      in_use = refl;
      unused = window-replicate cnt cnt 0 cnt;
      space = omega arith;
      counted = omega arith;
      chain = tt;
      place = sym (zero-mod cnt);
    };
    filled = λ p. absurd (omega (arith, p));
    clean = refl;
    guarded = refl;
  }

  entries_len : mul64 cnt 24 ≡ cnt * 24
  entries_len = mul64-eq cnt 24 (omega (arith, small))

  data_len : mul64 cnt size ≡ cnt * size
  data_len = mul64-eq cnt size (omega (arith, small))

  sections_len :
      add64 (add64 (add64 header_size (cnt * 24)) (cnt * size)) 24
      ≡ header_size + cnt * 24 + cnt * size + 24
  sections_len =
      rw
        (
          add64-eq header_size (cnt * 24) (omega (arith, small)),
          add64-eq (header_size + cnt * 24) (cnt * size) (omega (arith, small)),
          add64-eq (header_size + cnt * 24 + cnt * size) 24 (omega (arith, small)),
        )
        refl

  shm_len-eq : shm_len header_size cnt size ≡ header_size + cnt * 24 + cnt * size + 24
  unfolding shm_len
  shm_len-eq = rw (shm_len, entries_len, data_len) sections_len

  init_shm-fresh : init_shm header_size name cnt size ≡ done (fresh header_size name cnt size)
  unfolding init_shm guard_data_end
  init_shm-fresh = rw (
    init_shm,
    shm_len-eq,
    entries_len,
    data_len,
    sections_len,
    eq→== (header_size + cnt * 24 + cnt * size + 24) (header_size + cnt * 24 + cnt * size + 24)
        refl,
    le→leb (header_size + 8 + 24 * cnt + 8 + cnt * size + 8)
        (header_size + cnt * 24 + cnt * size + 24) (omega arith),
  )

  -- If the name is valid, no system call fails, and the sizes fit (one frame and one byte or
  -- more, under 2^63 bytes in all), ach_create returns ACH_OK and sets up a ready channel that
  -- holds no message, in a memory of exactly the computed length.
  pub create-fresh :
      (isalnum : ℕ → Bool) (os : CreateOs) (map_anon : Bool) (fd : ℕ)
      → channel_name_ok isalnum name ≡ true
      → retry intr_retry 0 os.opened ≡ answer fd
      → retry intr_retry 0 os.truncated ≡ answer tt
      → os.mapped ≡ true
      → all_ok os.inits ≡ true
      → os.unmapped ≡ true
      → retry intr_retry 0 os.closed ≡ answer tt
      → (create isalnum os header_size name cnt size map_anon
          ≡ done (record { status = ok; shm = some (fresh header_size name cnt size) }))
        × Ready (fresh header_size name cnt size) []
        × (view (fresh header_size name cnt size) [] ≡ record { messages = []; last = 0 })
  unfolding create create_mapped
  create-fresh isalnum os true fd named opened truncated mapped inits unmapped closed =
      (rw (create, create_mapped, mapped, inits, init_shm-fresh), fresh-Ready, refl)
  create-fresh isalnum os false fd named opened truncated mapped inits unmapped closed = (
    rw (
      create, create_mapped, named, opened, truncated, mapped, inits, init_shm-fresh, unmapped,
      closed,
    ),
    fresh-Ready,
    refl,
  )
