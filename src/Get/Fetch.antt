-- ===== src/Get/Fetch.antt =====
-- What a reader is promised (include/ach.h, `ach_get`), and `ach_get`'s reading of a frame against it.
use native.Mathlib.Nat.{mod-lt}
use ach.Base.{
  ℕ, zero, suc, ◌+◌, ◌-◌, ◌%◌, ◌≤◌, ◌<◌, ◌≡◌, ap, ◌∙◌, Bool, true, false, List, [], ◌∷◌, ◌++◌,
  length, drop, some, none, get_or, done, arith, ltb, if◌then◌else◌, add64-eq, ne→==, le→leb,
  lt→ltb, le→ltb, Bool-cases, inl, inr, dec_lt,
}
use ach.Ring.Position.{mod-shift}
use ach.Ring.Window.{length-window}
use ach.Log.{Log, target, message, is_stale}
use ach.Shm.{Shm, Index, Channel, ok, stale_frames, overflow, missed_frame, no_index, load_index}
use ach.Shm.Invariant.{Inv, oldest, frame, frames, total}
use ach.Shm.Free.{load_index_at}
use ach.Shm.Lookup.{place-eq, entry_at, get_or-IsEntry, IsEntry, get_or-map}
use ach.Shm.View.{view, length-frames, CanRead}
use ach.Get.{ReadResult, read_frame, get_from_offset, read_index, o_wait, o_last, o_copy}
use ach.Get.Choose.{Chosen, read_index-Chosen}
use ach.Get.Copy.{copy_out-eq}

-- The handle after message number `n` of a channel of `cnt` entries has been read.
abbrev pub after_read : Channel → (cnt n : ℕ) → Channel
after_read chan cnt n = record chan { seq_num = n; next_index = n % cnt }

-- Message number `n`, of bytes `m`, handed to a reader whose buffer may hold `size` bytes: the
-- frame is copied and the handle moves on, or nothing but the frame's size is reported.
abbrev pub deliver : Channel → (cnt n : ℕ) → (m buf : List ℕ) → (size : ℕ) → ReadResult
deliver chan cnt n m buf size =
    if ltb size (length m)
    then record { status = overflow; chan = chan; buf = buf; frame_size = some (length m) }
    else record {
      status = if ltb (chan.seq_num + 1) n then missed_frame else ok;
      chan = after_read chan cnt n;
      buf = m ++ drop (length m) buf;
      frame_size = some (length m);
    }

-- What a reader gets of the log.
abbrev pub fetch :
    Log → (cnt : ℕ) → Channel → (options : ℕ) → (buf : List ℕ) → (size : ℕ) → ReadResult
fetch g cnt chan options buf size =
    if is_stale g chan.seq_num (o_copy options)
    then record { status = stale_frames; chan = chan; buf = buf; frame_size = none }
    else (let n = target g chan.seq_num (o_last options) in
        deliver chan cnt n (message g n) buf size)

size-le-total : (es : List Index) (j : ℕ) → j < length es → (get_or es j no_index).size ≤ total es
size-le-total [] j h = absurd (omega arith)
size-le-total (e ∷ es) zero h = omega arith
size-le-total (e ∷ es) (suc j) h = omega (arith, size-le-total es j (omega arith))

module _ {s : Shm} {es : List Index} {chan : Channel} (v : Inv s es) (c : CanRead s chan) (j : ℕ)
    (held : j < length es) where
  place_in : (oldest s + j) % s.index_cnt < s.index_cnt
  place_in = mod-lt (oldest s + j) (omega (arith, v.head_in))

  entry_loaded : load_index s ((oldest s + j) % s.index_cnt) ≡ done (get_or es j no_index)
  entry_loaded =
      load_index_at s ((oldest s + j) % s.index_cnt) (omega (arith, place_in, v.index_len))
      ∙ ap done (entry_at v j held)

  message_at : message (view s es) (s.last_seq - length es + j + 1) ≡ frame s (get_or es j no_index)
  message_at = ap (λ k. get_or (frames s es) k []) nth ∙ get_or-map (frame s) es j no_index [] held
    where
      nth : s.last_seq - length es + j + 1 - (s.last_seq + 1 - length (frames s es)) ≡ j
      nth = omega (arith, length-frames s es, v.counted)

  length-message :
      length (message (view s es) (s.last_seq - length es + j + 1)) ≡ (get_or es j no_index).size
  length-message = ap length message_at ∙ length-window 0 s.data_size s.bytes _ _

  next_place :
      ((oldest s + j) % s.index_cnt + 1) % s.index_cnt
      ≡ (s.last_seq - length es + j + 1) % s.index_cnt
  next_place =
      mod-shift (oldest s) j 1 s.index_cnt
      ∙ place-eq v (j + 1)
      ∙ ap (λ t. t % s.index_cnt) (omega arith)

  -- Reading the entry delivers its message.
  get_from_offset-deliver :
      (buf : List ℕ) (size : ℕ)
      → size ≤ length buf
      → chan.seq_num ≤ s.last_seq - length es + j + 1
      → get_from_offset chan s ((oldest s + j) % s.index_cnt) buf size
        ≡ done (
            if ltb size (get_or es j no_index).size
            then record {
              status = overflow;
              chan = chan;
              buf = buf;
              frame_size = some (get_or es j no_index).size;
            }
            else record {
              status = ok;
              chan = after_read chan s.index_cnt (s.last_seq - length es + j + 1);
              buf = frame s (get_or es j no_index) ++ drop (get_or es j no_index).size buf;
              frame_size = some (get_or es j no_index).size;
            })
  unfolding get_from_offset
  get_from_offset-deliver buf size room seen = elim (dec_lt size (get_or es j no_index).size) [
    | yes small ↦ rw (
      get_from_offset,
      lt→ltb ((oldest s + j) % s.index_cnt) s.index_cnt place_in,
      entry_loaded,
      ie.numbered,
      ne→== (s.last_seq - length es + j + 1) 0 (omega arith),
      lt→ltb (get_or es j no_index).offset s.data_size ie.starts_in,
      le→ltb (s.last_seq - length es + j + 1) chan.seq_num seen,
      lt→ltb size (get_or es j no_index).size small,
    )
    | no fits ↦ rw (
      get_from_offset,
      lt→ltb ((oldest s + j) % s.index_cnt) s.index_cnt place_in,
      entry_loaded,
      ie.numbered,
      ne→== (s.last_seq - length es + j + 1) 0 (omega arith),
      lt→ltb (get_or es j no_index).offset s.data_size ie.starts_in,
      le→ltb (s.last_seq - length es + j + 1) chan.seq_num seen,
      le→ltb size (get_or es j no_index).size (omega arith),
      copy_out-eq s (get_or es j no_index) buf v.size_small v.bytes_len ie.starts_in
          (omega (arith, size-le-total es j held, v.space)) (omega arith),
      add64-eq ((oldest s + j) % s.index_cnt) 1 (omega (arith, place_in, v.cnt_small)),
      next_place,
    )
  ]
    where
      ie : IsEntry s.data_size (s.last_seq - length es + j + 1) (get_or es j no_index)
      ie = get_or-IsEntry v j held

module _ {s : Shm} {es : List Index} {chan : Channel} (v : Inv s es) (c : CanRead s chan)
    (filled : 0 < s.last_seq → 0 < length es) (options : ℕ) (buf : List ℕ) (size : ℕ)
    (room : size ≤ length buf) where
  read_frame-stale :
      is_stale (view s es) chan.seq_num (o_copy options) ≡ true
      → o_wait options ≡ false
      → read_frame chan s options buf size
        ≡ done (record { status = stale_frames; chan = chan; buf = buf; frame_size = none })
  unfolding read_frame
  read_frame-stale stale no_wait =
      rw (read_frame, le→leb chan.seq_num s.last_seq c.seen, stale, no_wait)

  -- the same, for the entry that is read
  read_frame-nth :
      (j : ℕ)
      → j < length es
      → read_index chan s (o_last options) (o_copy options) ≡ done ((oldest s + j) % s.index_cnt)
      → is_stale (view s es) chan.seq_num (o_copy options) ≡ false
      → chan.seq_num ≤ s.last_seq - length es + j + 1
      → read_frame chan s options buf size
        ≡ done (
            deliver chan s.index_cnt
              (s.last_seq - length es + j + 1)
              (message (view s es) (s.last_seq - length es + j + 1))
              buf
              size)
  unfolding read_frame
  read_frame-nth j held chosen fresh seen =
      rw
        (
          read_frame,
          le→leb chan.seq_num s.last_seq c.seen,
          fresh,
          chosen,
          entry_loaded v c j held,
          get_from_offset-deliver v c j held buf size room seen,
          (get_or-IsEntry v j held).numbered,
          add64-eq chan.seq_num 1 (omega (arith, c.seen, v.seq_small)),
          length-message v c j held,
          message_at v c j held,
        )
        (ground arith)

  seen-le-target : (last : Bool) → chan.seq_num ≤ target (view s es) chan.seq_num last
  seen-le-target last = ground (arith, c.seen)

  read_frame-Chosen :
      is_stale (view s es) chan.seq_num (o_copy options) ≡ false
      → Chosen v c (o_last options) (read_index chan s (o_last options) (o_copy options))
      → read_frame chan s options buf size
        ≡ done (fetch (view s es) s.index_cnt chan options buf size)
  read_frame-Chosen fresh chosen =
      rw (fresh, ← chosen.right)
        (read_frame-nth chosen.nth chosen.held chosen.ends fresh
          (omega (arith, chosen.right, seen-le-target (o_last options))))

  -- On a well-formed memory that holds a message once one was put, with a handle that may be
  -- used, a buffer of size bytes, and something to read if ACH_O_WAIT is given, what ach_get
  -- does under the mutex is what the log promises (Fetch.fetch): no assertion fails and no
  -- access is out of bounds.
  pub read_frame-fetch :
      (o_wait options ≡ true → is_stale (view s es) chan.seq_num (o_copy options) ≡ false)
      → read_frame chan s options buf size
        ≡ done (fetch (view s es) s.index_cnt chan options buf size)
  read_frame-fetch waited = elim (Bool-cases (is_stale (view s es) chan.seq_num (o_copy options))) [
    | inl stale ↦ rw stale (read_frame-stale stale (no_wait stale))
    | inr fresh ↦ read_frame-Chosen fresh (
        read_index-Chosen v c (o_last options) (o_copy options) (filled (not_empty fresh))
          (allowed fresh))
  ]
    where
      no_wait : is_stale (view s es) chan.seq_num (o_copy options) ≡ true → o_wait options ≡ false
      no_wait stale = elim (Bool-cases (o_wait options)) [ inl w ↦ cc (waited w) | inr n ↦ n ]

      not_empty : is_stale (view s es) chan.seq_num (o_copy options) ≡ false → 0 < s.last_seq
      not_empty fresh = ground arith

      allowed :
          is_stale (view s es) chan.seq_num (o_copy options) ≡ false
          → chan.seq_num ≡ s.last_seq
          → o_copy options ≡ true
      allowed fresh seen = ground arith
