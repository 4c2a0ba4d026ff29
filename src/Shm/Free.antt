-- ===== src/Shm/Free.antt =====
-- `free_index` of src/ach.c, called on the oldest entry.
use native.Mathlib.Numerals.{add-one}
use mathlib.Core.Path.{subst₂}
use native.Mathlib.Nat.{mod-lt, mod-eq_of_lt, add-mod_right}
use ach.Base.{
  ℕ, suc, ◌+◌, ◌-◌, ◌%◌, ◌<◌, ◌≡◌, refl, sym, ap, ◌∙◌, List, ◌∷◌, ◌++◌, [], length, get_or, set,
  length-set, replicate, drop, done, arith, add64-eq,
}
use ach.Ring.Position.{mod-shift}
use ach.Ring.Window.{window, window-set_out, window-set_end}
use ach.Shm.{Shm, Index, no_index, free_index, load_index}
use ach.Shm.Invariant.{Inv, Chain, oldest, oldest_byte, entries_from}

-- Writing the place just before a window leaves the window alone.
pub window-set_before {ℓ} :
    {A : Type ℓ} (d : A) (size : ℕ) (arr : List A) (h n : ℕ) (v : A)
    → h < size
    → n < size
    → window d size (set arr h v) ((h + 1) % size) n ≡ window d size arr ((h + 1) % size) n
window-set_before d size arr h n v hh hn =
    ap (λ p. window d size (set arr p v) ((h + 1) % size) n) (sym turn)
    ∙ window-set_out d size arr ((h + 1) % size) (size - 1) n v (mod-lt (h + 1) (omega arith))
        (omega arith) (omega arith)
  where
    turn : ((h + 1) % size + (size - 1)) % size ≡ h
    turn =
        mod-shift h 1 (size - 1) size
        ∙ ap (λ t. t % size) (omega arith)
        ∙ add-mod_right h size
        ∙ mod-eq_of_lt hh

pub replicate-snoc {ℓ} :
    {A : Type ℓ} (n : ℕ) (a : A) → replicate n a ++ (a ∷ []) ≡ replicate (suc n) a
replicate-snoc ℕ.zero a = refl
replicate-snoc (suc n) a = ap (λ l. a ∷ l) (replicate-snoc n a)

-- the memory after the oldest entry, of `n` bytes, is freed
abbrev pub freed : Shm → ℕ → Shm
freed s n = record s {
  data_free = s.data_free + n;
  index_free = s.index_free + 1;
  index = set s.index (oldest s) no_index;
}

-- The entry at the head is unused while any entry is.
first-replicate :
    (arr : List Index) (size h n : ℕ)
    → 0 < n
    → window no_index size arr h n ≡ replicate n no_index
    → get_or arr h no_index ≡ no_index
first-replicate arr size h ℕ.zero p e = absurd (omega arith)
first-replicate arr size h (suc n) p e = ap (λ l. get_or l 0 no_index) e

pub head_entry :
    {s : Shm} {es : List Index}
    → Inv s es
    → 0 < s.index_free
    → get_or s.index s.index_head no_index ≡ no_index
head_entry {s} v p = first-replicate s.index s.index_cnt s.index_head s.index_free p v.unused

pub load_index_at :
    (s : Shm) (i : ℕ) → i < length s.index → load_index s i ≡ done (get_or s.index i no_index)
unfolding load_index
load_index_at s i h = ground arith

module _ {s : Shm} {e : Index} {es : List Index} (v : Inv s (e ∷ es)) where
  pub first_entry : get_or s.index (oldest s) no_index ≡ e
  first_entry = ap (λ l. get_or l 0 no_index) v.in_use

  pub oldest_in : oldest s < length s.index
  oldest_in = omega (arith, mod-lt (s.index_head + s.index_free) {m = s.index_cnt})

  pub free_index-oldest : free_index s (oldest s) ≡ done (freed s e.size)
  unfolding free_index
  free_index-oldest =
      rw (load_index_at s (oldest s) oldest_in, first_entry)
        (ground (
          arith,
          v.chain,
          add64-eq s.data_free e.size (omega arith),
          add64-eq s.index_free 1 (omega arith),
        ))

  pub next_oldest : oldest (freed s e.size) ≡ (oldest s + 1) % s.index_cnt
  next_oldest = sym (mod-shift s.index_head s.index_free 1 s.index_cnt)

  freed-in_use : entries_from (freed s e.size) (oldest (freed s e.size)) (length es) ≡ es
  freed-in_use =
      ap (λ p. window no_index s.index_cnt (freed s e.size).index p (length es)) next_oldest
      ∙ window-set_before no_index s.index_cnt s.index (oldest s) (length es) no_index
          (omega (arith, oldest_in)) (omega (arith, v.used))
      ∙ ap (drop 1) v.in_use

  freed-unused :
      entries_from (freed s e.size) s.index_head (s.index_free + 1)
      ≡ replicate (s.index_free + 1) no_index
  freed-unused =
      ap (entries_from (freed s e.size) s.index_head) (add-one s.index_free)
      ∙ window-set_end no_index s.index_cnt s.index s.index_head s.index_free no_index v.head_in
          (omega (arith, v.used)) (omega (arith, v.index_len))
      ∙ ap (λ l. l ++ (no_index ∷ [])) v.unused
      ∙ replicate-snoc s.index_free no_index
      ∙ ap (λ n. replicate n no_index) (sym (add-one s.index_free))

  freed-Chain : Chain s.data_size (s.last_seq - length es) (oldest_byte (freed s e.size)) es
  freed-Chain =
      subst₂ (λ q o. Chain s.data_size q o es) (omega (arith, v.counted))
        (mod-shift s.data_head s.data_free e.size s.data_size) v.chain.3

  pub freed-Inv : Inv (freed s e.size) es
  freed-Inv = record {
    cnt_small = v.cnt_small;
    size_small = v.size_small;
    seq_small = v.seq_small;
    head_in = v.head_in;
    data_head_in = v.data_head_in;
    index_len = length-set s.index (oldest s) no_index ∙ v.index_len;
    bytes_len = v.bytes_len;
    used = omega (arith, v.used);
    in_use = freed-in_use;
    unused = freed-unused;
    space = omega (arith, v.space);
    counted = omega (arith, v.counted);
    chain = freed-Chain;
    place = v.place;
  }
