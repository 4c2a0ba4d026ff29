-- ===== src/Put/Frame.antt =====
-- What `ach_put` does between taking and releasing the mutex, against the log of include/ach.h.
use ach.Base.{
  ℕ, suc, ◌+◌, ◌-◌, ◌≤◌, ◌<◌, ◌≡◌, sym, ap, ap₂, map, ◌∙◌, List, [], ◌∷◌, ◌++◌, length, length-take,
  length-append, take, word, arith, Exec, done, lt→ltb, le→leb,
}
use mathlib.Core.Path.{subst}
use ach.Ring.Copy.{write_round}
use ach.Ring.Window.{window}
use ach.Shm.{Shm, Index, check_guards, oldest_index_i}
use ach.Shm.View.{view}
use ach.Shm.Invariant.{Inv, frames, total, oldest}
use ach.Shm.Places.{oldest_index_i-eq}
use ach.Log.{store, newest_within}
use ach.Put.{put_frame, clear_head, clear_overlapping, check_counts, add_entry}
use ach.Put.Clear.{
  Leaves, SameElse, SameElse-trans, shed, shed_head, clear_head-Leaves, clear_overlapping-Leaves,
  length-shed_head,
}
use ach.Put.Copy.{copy_in-eq-write_round}
use ach.Put.Entry.{added, new_entry, add_entry-eq-added, added-Inv, frames-added}
use ach.Put.Room.{frames-shed-shed_head}

-- the entries that stay when `len` bytes are put
abbrev pub kept : Shm → ℕ → List Index → List Index
kept s len es = shed (s.data_size - len) (shed_head s.index_cnt es)

length-shed : (room : ℕ) (es : List Index) → length (shed room es) ≤ length es
length-shed room [] = omega arith
length-shed room (e ∷ es) = ground (arith, length-shed room es)

total-shed : (room : ℕ) (es : List Index) → total (shed room es) ≤ room
total-shed room [] = omega arith
total-shed room (e ∷ es) = ground (arith, total-shed room es)

frames-same : {s t : Shm} → SameElse s t → (es : List Index) → frames t es ≡ frames s es
frames-same {s} {t} same es =
    ap₂ (λ n d. map (λ (e : Index). window 0 n d e.offset e.size) es) same.data_size same.bytes

-- The frame of the message `m` has been stored.
pub record Framed (s : Shm) (es : List Index) (m : List ℕ) (r : Exec Shm) : Type 0 where
  pub last : Shm
  pub entries : List Index
  pub ends : r ≡ done last
  pub inv : Inv last entries
  pub filled : 0 < length entries
  pub stored : view last entries ≡ store s.index_cnt s.data_size m (view s es)
  pub index_cnt : last.index_cnt ≡ s.index_cnt
  pub data_size : last.data_size ≡ s.data_size
  pub dirty : last.dirty ≡ s.dirty
  pub guarded : check_guards last ≡ check_guards s

module _ {s : Shm} {es : List Index} (v : Inv s es) (buf : List ℕ) (len : ℕ)
    (given : len ≤ length buf) (some_bytes : 0 < len) (fits : len ≤ s.data_size)
    (no_wrap : s.last_seq + 2 < word) where
  -- The memory after room is made, before the frame is copied.
  pub record Room : Type 0 where
    pub mid : Shm
    pub last : Shm
    pub head : clear_head s ≡ done mid
    pub head_free : 0 < mid.index_free
    pub cleared : clear_overlapping (suc mid.index_cnt) mid len (oldest_index_i mid) ≡ done last
    pub last_free : 0 < last.index_free
    pub inv : Inv last (kept s len es)
    pub same : SameElse s last
    pub enough : len ≤ last.data_free

  room : Room
  room = record {
    mid = l₁.last;
    last = l₂.last;
    head = l₁.ends;
    head_free = head_free;
    cleared =
        ap (clear_overlapping (suc l₁.last.index_cnt) l₁.last len) (oldest_index_i-eq l₁.inv)
        ∙ l₂.ends;
    last_free = omega (arith, inv.used, shorter, l₂.same.index_cnt, l₁.same.index_cnt, few);
    inv = inv;
    same = SameElse-trans l₁.same l₂.same;
    enough = omega (
      arith,
      inv.space,
      total-shed (s.data_size - len) (shed_head s.index_cnt es),
      l₁.same.data_size,
      l₂.same.data_size,
    );
  }
    where
      few : length (shed_head s.index_cnt es) < s.index_cnt
      few = length-shed_head s.index_cnt es (omega (arith, v.head_in)) (omega (arith, v.used))

      l₁ : Leaves s (clear_head s) (shed_head s.index_cnt es)
      l₁ = clear_head-Leaves es v

      head_free : 0 < l₁.last.index_free
      head_free = omega (arith, few, l₁.inv.used, l₁.same.index_cnt)

      l₂ :
          Leaves l₁.last
            (clear_overlapping (suc l₁.last.index_cnt) l₁.last len (oldest l₁.last))
            (shed (l₁.last.data_size - len) (shed_head s.index_cnt es))
      l₂ =
          clear_overlapping-Leaves (suc l₁.last.index_cnt) len (shed_head s.index_cnt es)
            (omega (arith, few, l₁.same.index_cnt)) l₁.inv head_free
            (omega (arith, l₁.same.data_size))

      inv : Inv l₂.last (kept s len es)
      inv =
          subst (λ n. Inv l₂.last (shed (n - len) (shed_head s.index_cnt es))) l₁.same.data_size
            l₂.inv

      shorter : length (kept s len es) ≤ length (shed_head s.index_cnt es)
      shorter = length-shed (s.data_size - len) (shed_head s.index_cnt es)

  count : length (take len buf) ≡ len
  count = omega (arith, length-take len buf)

  next : Shm
  next = added room.last (take len buf)

  next-Inv : Inv next (kept s len es ++ (new_entry room.last (length (take len buf)) ∷ []))
  unfolding next
  next-Inv =
      added-Inv room.inv (take len buf) room.last_free (omega (arith, count))
        (omega (arith, count, room.enough)) (omega (arith, room.same.last_seq))

  entry_added :
      add_entry
        (record room.last {
          bytes =
              write_round room.last.data_size room.last.bytes room.last.data_head (take len buf);
        })
        len
      ≡ next
  unfolding next
  entry_added =
      ap (add_entry _) (sym count)
      ∙ add_entry-eq-added room.inv (take len buf) room.last_free (omega (arith, count))
          (omega (arith, count, room.enough)) (omega (arith, room.same.last_seq))

  counts_hold : check_counts next ≡ done next
  unfolding check_counts next
  counts_hold = ground (arith, next-Inv.used, next-Inv.space)

  -- `ach_put` stores the frame: no assertion fails and no access is out of bounds.
  put_frame-eq-next : put_frame s buf len ≡ done next
  unfolding put_frame next
  put_frame-eq-next =
      rw
        (
          put_frame,
          room.head,
          lt→ltb 0 room.mid.index_free room.head_free,
          room.cleared,
          le→leb len room.last.data_free room.enough,
          copy_in-eq-write_round room.inv buf len (omega (arith, room.same.data_size)) given,
          entry_added,
        )
        counts_hold

  -- The stored memory is the log with the message put.
  view-next :
      view next (kept s len es ++ (new_entry room.last (length (take len buf)) ∷ []))
      ≡ store s.index_cnt s.data_size (take len buf) (view s es)
  unfolding next
  view-next =
      ap₂ (λ m l. record { messages = m; last = l })
        (frames-added room.inv (take len buf) room.last_free (omega (arith, count))
            (omega (arith, count, room.enough)) (omega (arith, room.same.last_seq))
          ∙ ap (λ l. l ++ (take len buf ∷ []))
              (frames-same room.same (kept s len es)
                ∙ frames-shed-shed_head s s.index_cnt (s.data_size - len) es (omega arith)
                    (omega (arith, v.used))
                ∙ ap (λ n. newest_within (s.index_cnt - 1) (s.data_size - n) (frames s es))
                    (sym count)))
        (ap (λ n. n + 1) room.same.last_seq)

  guarded : check_guards next ≡ check_guards s
  unfolding next check_guards
  guarded =
      rw (room.same.magic, room.same.guard_header, room.same.guard_index, room.same.guard_data)

  -- No assertion fails and no access is out of bounds: the frame is stored.
  pub put_frame-Framed : Framed s es (take len buf) (put_frame s buf len)
  unfolding next
  put_frame-Framed = record {
    last = next;
    entries = kept s len es ++ (new_entry room.last (length (take len buf)) ∷ []);
    ends = put_frame-eq-next;
    inv = next-Inv;
    filled =
        omega
          (arith, length-append (kept s len es) (new_entry room.last (length (take len buf)) ∷ []));
    stored = view-next;
    index_cnt = room.same.index_cnt;
    data_size = room.same.data_size;
    dirty = room.same.dirty;
    guarded = guarded;
  }
