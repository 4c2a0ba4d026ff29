-- ===== src/Put/Entry.antt =====
-- "modify counts" of `ach_put`: the new frame joins the ones in use.
use native.Mathlib.Nat.{mod-lt, add-mod_right, mod-eq_of_lt, mod-add-mod}
use mathlib.Core.List.{map-append}
use mathlib.Core.Path.{subst, subst₂}
use ach.Base.{
  ℕ, suc, ◌+◌, ◌-◌, ◌%◌, ◌≤◌, ◌<◌, ◌≡◌, sym, ap, ap₂, ◌∙◌, List, [], ◌∷◌, ◌++◌, length,
  length-append, length-set, set, drop, replicate, add64-eq, sub64-eq, word, arith,
}
use ach.Ring.Position.{mod-shift}
use ach.Ring.Window.{window, window-set_end}
use ach.Ring.Copy.{write_round, window-write_round_self, length-write_round}
use ach.Shm.{Shm, Index, no_index}
use ach.Shm.Invariant.{Inv, Chain, total, oldest, oldest_byte, entries_from, frames}
use ach.Shm.Free.{window-set_before}
use ach.Put.{add_entry}
use ach.Put.Chains.{Chain-snoc, frames_in, frames_in-write_round, total-append}

-- the entry of the frame that `ach_put` writes
abbrev pub new_entry : Shm → ℕ → Index
new_entry s len = record { size = len; offset = s.data_head; seq_num = s.last_seq + 1 }

-- the memory with that frame
abbrev pub added : Shm → List ℕ → Shm
added s bs = record s {
  last_seq = s.last_seq + 1;
  bytes = write_round s.data_size s.bytes s.data_head bs;
  index = set s.index s.index_head (new_entry s (length bs));
  data_head = (s.data_head + length bs) % s.data_size;
  data_free = s.data_free - length bs;
  index_head = (s.index_head + 1) % s.index_cnt;
  index_free = s.index_free - 1;
}

module _ {s : Shm} {es : List Index} (v : Inv s es) (bs : List ℕ) (entry_free : 0 < s.index_free)
    (some_bytes : 0 < length bs) (fits : length bs ≤ s.data_free)
    (no_wrap : s.last_seq + 2 < word) where
  pub add_entry-eq-added :
      add_entry (record s { bytes = write_round s.data_size s.bytes s.data_head bs }) (length bs)
      ≡ added s bs
  unfolding add_entry
  add_entry-eq-added = rw (
    add64-eq s.last_seq 1 (omega arith),
    add64-eq s.data_head (length bs) (omega arith),
    sub64-eq s.data_free (length bs) fits (omega arith),
    add64-eq s.index_head 1 (omega arith),
    sub64-eq s.index_free 1 entry_free (omega arith),
  )

  abbrev new : Index
  new = new_entry s (length bs)

  same_oldest : oldest (added s bs) ≡ oldest s
  same_oldest =
      mod-shift s.index_head 1 (s.index_free - 1) s.index_cnt
      ∙ ap (λ t. (s.index_head + t) % s.index_cnt) (omega arith)

  same_oldest_byte : oldest_byte (added s bs) ≡ oldest_byte s
  same_oldest_byte =
      mod-shift s.data_head (length bs) (s.data_free - length bs) s.data_size
      ∙ ap (λ t. (s.data_head + t) % s.data_size) (omega arith)

  -- going from the oldest entry past all entries in use ends at the head
  round_to_head : (oldest s + length es) % s.index_cnt ≡ s.index_head
  round_to_head =
      mod-shift s.index_head s.index_free (length es) s.index_cnt
      ∙ ap (λ t. (s.index_head + t) % s.index_cnt) v.used
      ∙ add-mod_right s.index_head s.index_cnt
      ∙ mod-eq_of_lt v.head_in

  round_to_data_head : (oldest_byte s + total es) % s.data_size ≡ s.data_head
  round_to_data_head =
      mod-shift s.data_head s.data_free (total es) s.data_size
      ∙ ap (λ t. (s.data_head + t) % s.data_size) v.space
      ∙ add-mod_right s.data_head s.data_size
      ∙ mod-eq_of_lt v.data_head_in

  one_more : length (es ++ (new ∷ [])) ≡ suc (length es)
  one_more = omega (arith, length-append es (new ∷ []))

  added-in_use :
      entries_from (added s bs) (oldest (added s bs)) (length (es ++ (new ∷ []))) ≡ es ++ (new ∷ [])
  added-in_use =
      ap₂ (entries_from (added s bs)) same_oldest one_more
      ∙ ap (λ p. window no_index s.index_cnt (set s.index p new) (oldest s) (suc (length es)))
          (sym round_to_head)
      ∙ window-set_end no_index s.index_cnt s.index (oldest s) (length es) new
          (mod-lt (s.index_head + s.index_free) (omega arith)) (omega (arith, v.used))
          (omega (arith, v.index_len))
      ∙ ap (λ l. l ++ (new ∷ [])) v.in_use

  added-unused :
      entries_from (added s bs) (added s bs).index_head (s.index_free - 1)
      ≡ replicate (s.index_free - 1) no_index
  added-unused =
      window-set_before no_index s.index_cnt s.index s.index_head (s.index_free - 1) new v.head_in
        (omega (arith, v.used))
      ∙ ap (drop 1) from_head
    where
      from_head :
          entries_from s s.index_head (suc (s.index_free - 1))
          ≡ replicate (suc (s.index_free - 1)) no_index
      from_head =
          let one_less : s.index_free ≡ suc (s.index_free - 1) = omega arith in
          subst (λ n. entries_from s s.index_head n ≡ replicate n no_index) one_less v.unused

  added-Chain :
      Chain s.data_size
        (s.last_seq + 1 - length (es ++ (new ∷ [])))
        (oldest_byte (added s bs))
        (es ++ (new ∷ []))
  added-Chain =
      subst₂ (λ q o. Chain s.data_size q o (es ++ (new ∷ []))) (omega (arith, one_more, v.counted))
        (sym same_oldest_byte)
        (Chain-snoc s.data_size (s.last_seq - length es) (oldest_byte s) es new
          (mod-lt (s.data_head + s.data_free) (omega arith)) v.chain (omega (arith, v.counted))
          some_bytes (sym round_to_data_head))

  -- The frames are those from before, and the new one behind them.
  pub frames-added :
      frames (added s bs) (es ++ (new_entry s (length bs) ∷ [])) ≡ frames s es ++ (bs ∷ [])
  frames-added =
      map-append _ es (new ∷ [])
      ∙ ap₂ ◌++◌
          (ap (λ p. frames_in s.data_size (write_round s.data_size s.bytes p bs) es)
              (sym round_to_data_head)
            ∙ frames_in-write_round s.data_size s.bytes (s.last_seq - length es) (oldest_byte s)
                (total es) es bs (mod-lt (s.data_head + s.data_free) (omega arith)) v.chain
                (omega arith) (omega (arith, v.space)))
          (ap (λ l. l ∷ [])
            (window-write_round_self s.data_size s.bytes s.data_head bs v.data_head_in
              (omega (arith, v.space)) (omega (arith, v.bytes_len))))

  -- The memory is well formed with the new entry.
  pub added-Inv : Inv (added s bs) (es ++ (new_entry s (length bs) ∷ []))
  added-Inv = record {
    cnt_small = v.cnt_small;
    size_small = v.size_small;
    seq_small = omega arith;
    head_in = mod-lt (s.index_head + 1) (omega arith);
    data_head_in = mod-lt (s.data_head + length bs) (omega arith);
    index_len = length-set s.index s.index_head new ∙ v.index_len;
    bytes_len = length-write_round s.data_size s.bytes s.data_head bs ∙ v.bytes_len;
    used = omega (arith, one_more, v.used);
    in_use = added-in_use;
    unused = added-unused;
    space = omega (arith, total-append es (new ∷ []), v.space);
    counted = omega (arith, one_more, v.counted);
    chain = added-Chain;
    place = ap (λ t. (t + 1) % s.index_cnt) v.place ∙ mod-add-mod s.last_seq s.index_cnt 1;
  }
