-- ===== src/Get/Choose.antt =====
-- Which frame `ach_get` reads: the log's `target`, whether or not the handle's hint is right.
use native.Mathlib.Nat.{mod-lt, mod-eq_of_lt, add-zero}
use ach.Base.{
  ℕ, ◌+◌, ◌-◌, ◌%◌, ◌≤◌, ◌<◌, ◌≡◌, ◌≢◌, refl, sym, ap, ◌∙◌, Bool, true, false, List, length, get_or,
  Exec, done, arith, dec_lt, ℕ_discrete, add64, add64-eq, ne→==, eq→==,
}
use ach.Ring.Position.{mod-shift}
use ach.Log.{target}
use ach.Shm.{Shm, Index, Channel, no_index, load_index, last_index_i}
use ach.Shm.Invariant.{Inv, oldest}
use ach.Shm.Free.{load_index_at}
use ach.Shm.Places.{oldest_index_i-eq, last_index_i-eq}
use ach.Shm.Lookup.{place-eq, entry_at, get_or-IsEntry, place_from_oldest, entry_past}
use ach.Shm.View.{view, length-frames, CanRead}
use ach.Get.{read_index}

module _ {s : Shm} {es : List Index} {chan : Channel} (v : Inv s es) (c : CanRead s chan) where
  abbrev hinted : Index
  hinted = get_or s.index chan.next_index no_index

  number_at :
      (j : ℕ)
      → (oldest s + j) % s.index_cnt ≡ chan.next_index
      → (get_or s.index ((oldest s + j) % s.index_cnt) no_index).seq_num ≡ hinted.seq_num
  number_at j at = ap (λ p. (get_or s.index p no_index).seq_num) at

  entry_number :
      (j : ℕ)
      → j < length es
      → (get_or s.index ((oldest s + j) % s.index_cnt) no_index).seq_num
        ≡ s.last_seq - length es + j + 1
  entry_number j used =
      ap (λ (e : Index). e.seq_num) (entry_at v j used) ∙ (get_or-IsEntry v j used).numbered

  -- The hint names an entry in use if its number is the next one.
  hint_right :
      hinted.seq_num ≡ chan.seq_num + 1
      → (j : ℕ) × (j < length es)
        × ((oldest s + j) % s.index_cnt ≡ chan.next_index)
        × (s.last_seq - length es + j ≡ chan.seq_num)
  hint_right m =
      let (j, lt, at) = place_from_oldest v chan.next_index c.hint_in in
      elim (dec_lt j (length es)) [
        | yes used ↦ (j, used, at, omega (arith, m, number_at j at, entry_number j used))
        | no past ↦ absurd (
            omega (
              arith,
              m,
              number_at j at,
              ap (λ (e : Index). e.seq_num) (entry_past v j (omega arith) lt),
            ))
      ]

  -- Else the next message is the oldest one, or is gone.
  hint_wrong :
      hinted.seq_num ≢ chan.seq_num + 1
      → chan.seq_num < s.last_seq
      → chan.seq_num ≤ s.last_seq - length es
  hint_wrong m unseen = elim (dec_lt (s.last_seq - length es) chan.seq_num) [
    | no old ↦ omega arith
    | yes held ↦
        let j : ℕ = chan.seq_num - (s.last_seq - length es) in
        let used : j < length es = omega (arith, v.counted) in
        let at : (oldest s + j) % s.index_cnt ≡ chan.next_index =
          place-eq v j ∙ ap (λ t. t % s.index_cnt) (omega arith) ∙ sym (c.hint (omega arith)) in
        absurd (m (omega (arith, number_at j at, entry_number j used)))
  ]

  hint_loaded : load_index s chan.next_index ≡ done hinted
  hint_loaded = load_index_at s chan.next_index (omega (arith, c.hint_in, v.index_len))

  next_number : add64 chan.seq_num 1 ≡ chan.seq_num + 1
  next_number = add64-eq chan.seq_num 1 (omega (arith, c.seen, v.seq_small))

  oldest_in : oldest s < s.index_cnt
  oldest_in = mod-lt (s.index_head + s.index_free) (omega (arith, v.head_in))

  -- The newest entry stands just before the head.
  last_place :
      0 < length es
      → (s.index_head + (s.index_cnt - 1)) % s.index_cnt
        ≡ (oldest s + (length es - 1)) % s.index_cnt
  last_place filled = sym (
      mod-shift s.index_head s.index_free (length es - 1) s.index_cnt
      ∙ ap (λ t. (s.index_head + t) % s.index_cnt) back)
    where
      back : s.index_free + (length es - 1) ≡ s.index_cnt - 1
      back = omega (arith, v.used)

  -- `read_index` finds the entry of the log's target, counted from the oldest one.
  pub record Chosen (last : Bool) (r : Exec ℕ) : Type 0 where
    pub nth : ℕ
    pub held : nth < length es
    pub ends : r ≡ done ((oldest s + nth) % s.index_cnt)
    pub right : s.last_seq - length es + nth + 1 ≡ target (view s es) chan.seq_num last

  choose_last :
      0 < length es
      → (last : Bool) (r : Exec ℕ) → r ≡ done (last_index_i s)
      → target (view s es) chan.seq_num last ≡ s.last_seq
      → Chosen last r
  choose_last filled last r e t = record {
    nth = length es - 1;
    held = omega arith;
    ends = e ∙ ap done (last_index_i-eq v ∙ last_place filled);
    right = omega (arith, t, v.counted);
  }

  choose_next :
      (copy : Bool)
      → hinted.seq_num ≡ chan.seq_num + 1
      → Chosen false (read_index chan s false copy)
  unfolding read_index
  choose_next copy m =
      let (j, used, at, q) = hint_right m in
      record {
        nth = j;
        held = used;
        ends =
            rw (read_index, hint_loaded, next_number, eq→== hinted.seq_num (chan.seq_num + 1) m)
              (ap done (sym at));
        right =
            rw (ne→== chan.seq_num s.last_seq (omega (arith, v.counted)))
              (omega (arith, length-frames s es, v.counted));
      }

  choose_oldest :
      (copy : Bool)
      → 0 < length es
      → hinted.seq_num ≢ chan.seq_num + 1
      → chan.seq_num < s.last_seq
      → Chosen false (read_index chan s false copy)
  unfolding read_index
  choose_oldest copy filled m unseen = record {
    nth = 0;
    held = filled;
    ends =
        rw
          (
            read_index,
            hint_loaded,
            next_number,
            ne→== hinted.seq_num (chan.seq_num + 1) m,
            ne→== chan.seq_num s.last_seq (omega arith),
          )
          (ap done (
            oldest_index_i-eq v
            ∙ sym (ap (λ t. t % s.index_cnt) (add-zero (oldest s)) ∙ mod-eq_of_lt oldest_in)));
    right =
        rw (ne→== chan.seq_num s.last_seq (omega arith))
          (omega (arith, length-frames s es, v.counted, hint_wrong m unseen));
  }

  -- Where there is something to read, the index chosen is that of the target.
  pub read_index-Chosen :
      (last copy : Bool)
      → 0 < length es
      → (chan.seq_num ≡ s.last_seq → copy ≡ true)
      → Chosen last (read_index chan s last copy)
  unfolding read_index
  read_index-Chosen true copy filled allowed = choose_last filled true _ refl refl
  read_index-Chosen false copy filled allowed =
      elim (ℕ_discrete hinted.seq_num (chan.seq_num + 1)) [
        | yes m ↦ choose_next copy m
        | no m ↦ elim (ℕ_discrete chan.seq_num s.last_seq) [
          | yes seen ↦
              choose_last filled false _
                (rw (
                  read_index,
                  hint_loaded,
                  next_number,
                  ne→== hinted.seq_num (chan.seq_num + 1) m,
                  eq→== chan.seq_num s.last_seq seen,
                  allowed seen,
                ))
                (rw (eq→== chan.seq_num s.last_seq seen))
          | no unseen ↦ choose_oldest copy filled m (omega (arith, c.seen))
        ]
      ]
