-- ===== src/Put/Clear.antt =====
-- The entries that `ach_put` frees to make room.
use native.Mathlib.Nat.{mod-eq_of_lt}
use ach.Base.{
  ℕ, zero, suc, ◌-◌, ◌%◌, ◌≤◌, ◌<◌, ◌≡◌, refl, sym, ap, ◌∙◌, List, [], ◌∷◌, length, Exec, done,
  arith, add64-eq, leb, ◌==◌, if◌then◌else◌, dec_lt, le→ltb, lt→ltb, le→leb, lt→leb, ne→==, eq→==,
}
use ach.Ring.Position.{mod-ne_start}
use ach.Shm.{Shm, Index, free_index}
use ach.Shm.Invariant.{Inv, total, oldest}
use ach.Shm.Free.{
  freed, freed-Inv, free_index-oldest, head_entry, oldest_in, next_oldest, load_index_at,
}
use ach.Put.{clear_overlapping, clear_head}

-- the entries left when the oldest ones are dropped until at most `room` bytes are in use
abbrev pub shed : ℕ → List Index → List Index
shed room [] = []
shed room (e ∷ es) = if leb (total (e ∷ es)) room then e ∷ es else shed room es

-- What freeing entries leaves alone.
pub record SameElse (s t : Shm) : Type 0 where
  pub index_cnt : t.index_cnt ≡ s.index_cnt
  pub data_size : t.data_size ≡ s.data_size
  pub data_head : t.data_head ≡ s.data_head
  pub index_head : t.index_head ≡ s.index_head
  pub last_seq : t.last_seq ≡ s.last_seq
  pub bytes : t.bytes ≡ s.bytes
  pub dirty : t.dirty ≡ s.dirty
  pub magic : t.magic ≡ s.magic
  pub guard_header : t.guard_header ≡ s.guard_header
  pub guard_index : t.guard_index ≡ s.guard_index
  pub guard_data : t.guard_data ≡ s.guard_data

pub SameElse-refl : (s : Shm) → SameElse s s
SameElse-refl s = ground arith

pub SameElse-freed : (s : Shm) (n : ℕ) → SameElse s (freed s n)
SameElse-freed s n = ground arith

pub SameElse-trans : {s t u : Shm} → SameElse s t → SameElse t u → SameElse s u
SameElse-trans p q = ground arith

-- A run that ends in a memory with the entries `es`, with all else as it was in `s`.
pub record Leaves (s : Shm) (r : Exec Shm) (es : List Index) : Type 0 where
  pub last : Shm
  pub ends : r ≡ done last
  pub inv : Inv last es
  pub same : SameElse s last

Leaves-map :
    {s t : Shm} {r r' : Exec Shm} {es es' : List Index}
    → SameElse s t
    → r' ≡ r
    → es' ≡ es
    → Leaves t r es
    → Leaves s r' es'
Leaves-map {s} {t} same e e' l = record {
  last = l.last;
  ends = e ∙ l.ends;
  inv = rw e' l.inv;
  same = SameElse-trans same l.same;
}

clear_overlapping_stop :
    (fuel : ℕ) (s : Shm) (len i : ℕ)
    → len ≤ s.data_free
    → clear_overlapping (suc fuel) s len i ≡ done s
unfolding clear_overlapping
clear_overlapping_stop fuel s len i h = rw (clear_overlapping, le→ltb s.data_free len h)

clear_overlapping_round :
    (fuel : ℕ) {s : Shm} (len : ℕ) {e : Index} {es : List Index}
    → Inv s (e ∷ es)
    → 0 < s.index_free
    → s.data_free < len
    → clear_overlapping (suc fuel) s len (oldest s)
      ≡ clear_overlapping fuel (freed s e.size) len (oldest (freed s e.size))
unfolding clear_overlapping
clear_overlapping_round fuel {s} len {e} {es} v free h = rw (
  clear_overlapping,
  lt→ltb s.data_free len h,
  ne→== (oldest s) s.index_head
      (mod-ne_start s.index_head s.index_free s.index_cnt v.head_in free (omega (arith, v.used))),
  free_index-oldest v,
  add64-eq (oldest s) 1 (omega (arith, oldest_in v, v.cnt_small, v.index_len)),
  ← next_oldest v,
)

-- On a well-formed memory with a free index entry, given more rounds than there are entries and
-- len <= data_size, the loop of ach_put that clears overlapping entries ends with no assertion
-- failing, and keeps the longest run of newest entries that leaves len bytes free.
pub clear_overlapping-Leaves :
    (fuel : ℕ) {s : Shm} (len : ℕ) (es : List Index)
    → length es < fuel
    → Inv s es
    → 0 < s.index_free
    → len ≤ s.data_size
    → Leaves s (clear_overlapping fuel s len (oldest s)) (shed (s.data_size - len) es)
clear_overlapping-Leaves zero len es f v free fits = absurd (omega arith)
clear_overlapping-Leaves (suc fuel) {s} len [] f v free fits = record {
  last = s;
  ends = clear_overlapping_stop fuel s len (oldest s) (omega (arith, v.space));
  inv = v;
  same = SameElse-refl s;
}
clear_overlapping-Leaves (suc fuel) {s} len (e ∷ es) f v free fits = elim (dec_lt s.data_free len) [
  | no n ↦ record {
    last = s;
    ends = clear_overlapping_stop fuel s len (oldest s) (omega arith);
    inv = rw (le→leb (total (e ∷ es)) (s.data_size - len) (omega (arith, v.space))) v;
    same = SameElse-refl s;
  }
  | yes p ↦
      Leaves-map (SameElse-freed s e.size) (clear_overlapping_round fuel len v free p)
        (rw (lt→leb (total (e ∷ es)) (s.data_size - len) (omega (arith, v.space))))
        (clear_overlapping-Leaves fuel len es (omega arith) (freed-Inv v) (omega arith) fits)
]

-- the entries left after the head's own is cleared
abbrev pub shed_head : ℕ → List Index → List Index
shed_head cnt [] = []
shed_head cnt (e ∷ es) = if length (e ∷ es) == cnt then es else e ∷ es

clear_head_used :
    {s : Shm} (e : Index) (es : List Index)
    → Inv s (e ∷ es)
    → s.index_free ≡ 0
    → Leaves s (clear_head s) (shed_head s.index_cnt (e ∷ es))
unfolding clear_head
clear_head_used {s} e es v z = record {
  last = freed s e.size;
  ends = rw (clear_head, eq→== s.index_free 0 z) (ap (free_index s) at_head ∙ free_index-oldest v);
  inv = rw (eq→== (length (e ∷ es)) s.index_cnt (omega (arith, v.used))) (freed-Inv v);
  same = SameElse-freed s e.size;
}
  where
    at_head : s.index_head ≡ oldest s
    at_head = sym (ap (λ t. t % s.index_cnt) (omega arith) ∙ mod-eq_of_lt v.head_in)

pub shed_head_room : (cnt : ℕ) (es : List Index) → length es < cnt → shed_head cnt es ≡ es
shed_head_room cnt [] h = refl
shed_head_room cnt (e ∷ es) h = rw (ne→== (length (e ∷ es)) cnt (omega arith))

-- Clearing the entry at the head leaves at least one entry free.
pub clear_head-Leaves :
    {s : Shm} (es : List Index) → Inv s es → Leaves s (clear_head s) (shed_head s.index_cnt es)
unfolding clear_head
clear_head-Leaves {s} es v = elim (dec_lt 0 s.index_free) [
  | yes p ↦ record {
    last = s;
    ends = rw (
      clear_head,
      ne→== s.index_free 0 (omega arith),
      load_index_at s s.index_head (omega (arith, v.head_in, v.index_len)),
      head_entry v p,
    );
    inv = rw (shed_head_room s.index_cnt es (omega (arith, v.used))) v;
    same = SameElse-refl s;
  }
  | no n ↦ all_used es v (omega arith)
]
  where
    all_used :
        (es : List Index)
        → Inv s es
        → s.index_free ≡ 0
        → Leaves s (clear_head s) (shed_head s.index_cnt es)
    all_used [] v z = absurd (omega (arith, v.used, v.head_in))
    all_used (e ∷ es) v z = clear_head_used e es v z

pub length-shed_head :
    (cnt : ℕ) (es : List Index) → 0 < cnt → length es ≤ cnt → length (shed_head cnt es) < cnt
length-shed_head cnt [] p h = p
length-shed_head cnt (e ∷ es) p h = ground arith
