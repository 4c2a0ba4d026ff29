-- ===== src/Achchand/Talk.antt =====
-- What a client of src/achchand.c types and what is queued for it, over the lines that the bytes spell.
use mathlib.Core.Path.{subst}
use mathlib.Core.List.{append_assoc, append-nil}
use ach.Base.{
  ℕ, ◌+◌, ◌≤◌, ◌<◌, ◌≡◌, refl, sym, ap, ap₂, ◌∙◌, Bool, true, false, none, List, [], ◌∷◌, ◌++◌,
  length, drop, Exec, done, stop, out_of_bounds, word, arith, length-append, length-drop, add64-eq,
  ne→==,
}
use native.Mathlib.Nat.{zero-add}
use ach.Achd.Words.{all}
use ach.Achchand.{PollBits, Slot, strtok, is_print, scan, read_slot}
use ach.Achchand.Command.{talking, IsAnswered}
use ach.Achchand.Scan.{
  IsNewline, scan-chars, scan-line, scan-end, all-append, scan-to_line, scan-blank,
}

-- The bytes `received` after `pending` spell the lines, and then `rest`.
abbrev pub IsSpelled :
    (pending received : List ℕ) → (lines : List (List ℕ)) → (rest : List ℕ) → Type 0
IsSpelled pending received [] rest = (all is_print received ≡ true) × (rest ≡ pending ++ received)
IsSpelled pending received (line ∷ lines) rest =
    (part : List ℕ) × (c : ℕ) × (later : List ℕ) × (received ≡ part ++ (c ∷ later))
    × (all is_print part ≡ true)
    × IsNewline c
    × (line ≡ pending ++ part)
    × IsSpelled [] later lines rest

abbrev pub AllAnswered : (lines replies : List (List ℕ)) → Type 0
AllAnswered [] [] = Unit {0}
AllAnswered (line ∷ lines) (reply ∷ replies) = IsAnswered line reply × AllAnswered lines replies
AllAnswered _ _ = true ≡ false

abbrev pub concat : List (List ℕ) → List ℕ
concat [] = []
concat (x ∷ xs) = x ++ concat xs

-- A connection after its lines: what is queued, what is left of the input, and the sizes as before.
pub record Talked (base : Slot) (rest queued : List ℕ) (room : ℕ) (r : Exec (Slot × Bool))
    : Type 0 where
  pub events : PollBits
  pub old : List ℕ
  pub unused : List ℕ
  pub ends :
      r
      ≡ done (
        talking (record base { events = events }) (rest ++ old) (length rest) queued unused,
        false,
      )
  pub output : base.max_out ≡ length queued + length unused
  pub input : room ≡ length rest + length old

scan-Talked :
    (lines replies : List (List ℕ)) (rest pending received old queued unused : List ℕ) (left : ℕ)
    (base : Slot)
    → IsSpelled pending received lines rest
    → AllAnswered lines replies
    → all is_print pending ≡ true
    → left ≡ length received
    → base.max_out ≡ length queued + length unused
    → base.max_out < word
    → length (concat replies) ≤ length unused
    → length pending + length received + length old < word
    → Talked base rest (queued ++ concat replies) (length pending + length received + length old) (
        scan left (length pending) (
          talking base
            (pending ++ (received ++ old))
            (length pending + length received)
            queued
            unused))
scan-Talked [] [] rest pending received old queued unused left base (p, s) a pp l m w fits small =
    record {
      events = base.events;
      old = old;
      unused = unused;
      ends =
          scan-chars received left 0 pending old _ (omega (arith, l)) p refl (omega arith)
          ∙ scan-end (length pending + length received) _ (omega arith)
          ∙ ap₂
              (λ i n. done (
                record base {
                  input = i;
                  n_in = n;
                  output = queued ++ unused;
                  n_out = length queued;
                },
                false,
              ))
              (sym (append_assoc pending received old) ∙ ap (λ x. x ++ old) (sym s))
              (omega (arith, ap length s, length-append pending received))
          ∙ ap (λ q. done (talking base (rest ++ old) (length rest) q unused, false))
              (sym (append-nil queued));
      output = omega (arith, m, ap length (append-nil queued));
      input = omega (arith, ap length s, length-append pending received);
    }
scan-Talked (line ∷ lines) [] rest pending received old queued unused left base s a pp l m w fits
      small =
    cc a
scan-Talked [] (reply ∷ replies) rest pending received old queued unused left base s a pp l m w fits
      small =
    cc a
scan-Talked (line ∷ lines) (reply ∷ replies) rest pending received old queued unused left base
      (part, c, later, r, p, nl, e, s) (a, more) pp l m w fits small =
    let (ev, old', first, sizes) =
      scan-line line reply later old c (length later) base queued unused nl
        (subst (λ x. all is_print x ≡ true) (sym e) (all-append pending part pp p)) a m w
        (omega (arith, fits, length-append reply (concat replies))) (omega (arith, small, total)) in
    let t =
      scan-Talked lines replies rest [] later old' (queued ++ reply) (drop (length reply) unused)
        (length later) (record base { events = ev }) s more refl refl
        (omega (
          arith,
          m,
          fits,
          length-append queued reply,
          length-append reply (concat replies),
          length-drop (length reply) unused,
        ))
        w
        (omega
          (arith, fits, length-append reply (concat replies), length-drop (length reply) unused))
        (omega (arith, small, total, sizes)) in
    record {
      events = t.events;
      old = t.old;
      unused = t.unused;
      ends =
          scan-to_line pending part later old received line c left base queued unused r p e l
          ∙ first
          ∙ ap
              (λ n. scan (length later) 0 (
                talking (record base { events = ev }) (later ++ old') n (queued ++ reply)
                  (drop (length reply) unused)))
              (sym (zero-add (length later)))
          ∙ t.ends
          ∙ ap
              (λ q. done (
                talking (record base { events = t.events }) (rest ++ t.old) (length rest) q
                    t.unused,
                false,
              ))
              (append_assoc queued reply (concat replies));
      output = omega (arith, t.output, ap length (append_assoc queued reply (concat replies)));
      input = omega (arith, t.input, sizes, total);
    }
  where
    count : length received ≡ length part + (1 + length later)
    count = omega (arith, ap length r, length-append part (c ∷ later))

    total :
        length pending + length received + length old ≡ length line + 1 + length later + length old
    total = omega (arith, count, ap length e, length-append pending part)

module _ (aa_read_realloc : (bytes buf : List ℕ) → (n max : ℕ) → List ℕ × ℕ) where
  -- If aa_read_realloc adds the bytes received after the pending ones, the two spell lines of
  -- printable characters and a printable rest, each line holds a command other than quit, and
  -- the replies fit in the free part of the output buffer (sizes below 2^64), then the loop
  -- over the bytes queues the replies to the lines in order after what was queued, keeps the
  -- rest as the pending input, keeps the connection open, and leaves the sizes consistent; no
  -- assertion fails and no access is out of bounds.
  pub read_slot-Talked :
      (lines replies : List (List ℕ)) (rest pending received old more queued unused : List ℕ)
      (base : Slot)
      -- aa_read_realloc adds the bytes after those that are there.
      → aa_read_realloc received (pending ++ old) (length pending) base.max_in
        ≡ (pending ++ (received ++ more), length pending + length received + length more)
      → 0 < length received
      → IsSpelled pending received lines rest
      → AllAnswered lines replies
      → all is_print pending ≡ true
      → base.max_out ≡ length queued + length unused
      → base.max_out < word
      → length (concat replies) ≤ length unused
      → length pending + length received + length more < word
      → Talked
          (record base { max_in = length pending + length received + length more })
          rest
          (queued ++ concat replies)
          (length pending + length received + length more)
          (read_slot aa_read_realloc received
            (talking base (pending ++ old) (length pending) queued unused))
  unfolding read_slot
  read_slot-Talked lines replies rest pending received old more queued unused base reads some_bytes
        s a p m w fits small =
      rw
        (
          read_slot,
          reads,
          ne→== (length received) 0 (omega (arith, some_bytes)),
          add64-eq (length pending) (length received) (omega (arith, small)),
        )
        (scan-Talked lines replies rest pending received more queued unused (length received)
          (record base { max_in = length pending + length received + length more }) s a p refl m w
          fits small)

  -- If aa_read_realloc adds the bytes received after the pending ones, and the first line that
  -- ends in them is of printable characters and has no word, then the loop over the bytes
  -- reads address 0.
  pub read_slot-blank :
      (line pending part later received old more queued unused : List ℕ) (c : ℕ) (base : Slot)
      → aa_read_realloc received (pending ++ old) (length pending) base.max_in
        ≡ (pending ++ (received ++ more), length pending + length received + length more)
      → received ≡ part ++ (c ∷ later)
      → IsNewline c
      → line ≡ pending ++ part
      → all is_print pending ≡ true
      → all is_print part ≡ true
      → strtok line ≡ none
      → length pending + length received < word
      → read_slot aa_read_realloc received
          (talking base (pending ++ old) (length pending) queued unused)
        ≡ stop out_of_bounds
  unfolding read_slot
  read_slot-blank line pending part later received old more queued unused c base reads r nl e pp p
        blank small =
      rw
        (
          read_slot,
          reads,
          ne→== (length received) 0 (omega (arith, ap length r, length-append part (c ∷ later))),
          add64-eq (length pending) (length received) (omega (arith, small)),
        )
        (scan-to_line pending part later more received line c (length received)
            (record base { max_in = length pending + length received + length more }) queued unused
            r p e refl
          ∙ scan-blank line (later ++ more) c (length later) _ (omega arith) refl
              (subst (λ x. all is_print x ≡ true) (sym e) (all-append pending part pp p)) nl blank)
