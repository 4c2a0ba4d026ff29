-- ===== src/Achchand/Scan.antt =====
-- The loop of src/achchand.c that looks for newlines, up to the end of a line.
use mathlib.Core.List.{append_assoc}
use ach.Base.{
  take_front, drop_past, get_elem?-front, set-front, ℕ, zero, suc, ◌+◌, ◌-◌, ◌≤◌, ◌<◌, ◌≡◌, refl,
  sym, ap, ap₂, ◌∙◌, true, false, ◌||◌, Option, none, some, List, [], ◌∷◌, ◌++◌, length, drop, set,
  get_elem?, ◌==◌, Exec, done, stop, out_of_bounds, ◌>>=◌, word, arith, le→leb, lt→ltb, le→ltb,
  length-append, length-drop, sub64-eq, and_parts,
}
use ach.Memory.{memcpy}
use ach.Achd.Words.{all}
use ach.Achchand.{PollBits, Slot, strtok, move_input, is_print, byte_at, scan_byte, scan}
use ach.Achchand.Command.{
  is_print-plain, talking, IsAnswered, process_ctrl-Acted, process_ctrl-blank,
}

-- The line and its end are taken off the input.
move_input-line :
    (line later old : List ℕ) (c : ℕ) (base : Slot) (queued unused : List ℕ)
    → length line + 1 + length later + length old < word
    → (old' : List ℕ) × (move_input (length line) (
          talking base
            (line ++ (c ∷ (later ++ old)))
            (length line + 1 + length later)
            queued
            unused)
        ≡ done (talking base (later ++ old') (length later) queued unused))
      × (length line + 1 + length later + length old ≡ length later + length old')
unfolding move_input memcpy
move_input-line line later old c base queued unused w = (
  drop (0 + length later) whole,
  rw (
    move_input,
    sub64-eq (length line + 1 + length later) (length line) (omega arith) (omega (arith, w)),
    sub64-eq (length line + 1 + length later - length line) 1 (omega arith) (omega (arith, w)),
    count,
    le→leb (0 + length later) (length whole) (omega (arith, sizes)),
    le→leb (length line + 1 + length later) (length whole) (omega (arith, sizes)),
    drop_past line (c ∷ (later ++ old)) 1,
    take_front later old,
  ),
  omega (arith, sizes, length-drop (0 + length later) whole),
)
  where
    whole : List ℕ
    whole = line ++ (c ∷ (later ++ old))

    count : length line + 1 + length later - length line - 1 ≡ length later
    count = omega arith

    sizes : length whole ≡ length line + 1 + length later + length old
    sizes = omega (arith, length-append line (c ∷ (later ++ old)), length-append later old)

byte_at-front :
    (xs ys : List ℕ) (c : ℕ) (buf : List ℕ)
    → buf ≡ xs ++ (c ∷ ys)
    → byte_at buf (length xs) ≡ done c
byte_at-front xs ys c buf e =
    ap (λ (o : Option ℕ). elim o [ none ↦ stop out_of_bounds | some b ↦ done b ])
      (ap (λ b. get_elem? b (length xs)) e ∙ get_elem?-front xs ys c)

-- a round of the loop
scan-round :
    (k j c : ℕ) (f : Slot)
    → j < f.n_in
    → byte_at f.input j ≡ done c
    → scan (suc k) j f ≡ scan_byte c j f (scan k)
unfolding scan
scan-round k j c f l e =
    rw (scan, lt→ltb j f.n_in l) (ap (λ (r : Exec ℕ). r >>= (λ b. scan_byte b j f (scan k))) e)

abbrev pub IsNewline : ℕ → Type 0
IsNewline c = ((c == b'\n') || (c == b'\r')) ≡ true

pub scan-chars :
    (part : List ℕ) (left k : ℕ) (pre more : List ℕ) (f : Slot)
    → left ≡ length part + k
    → all is_print part ≡ true
    → f.input ≡ pre ++ (part ++ more)
    → length pre + length part ≤ f.n_in
    → scan left (length pre) f ≡ scan k (length pre + length part) f
unfolding scan
scan-chars [] left k pre more f l p i n = ap₂ (λ a b. scan a b f) (omega (arith, l)) (omega arith)
scan-chars (c ∷ part) zero k pre more f l p i n = absurd (omega (arith, l))
scan-chars (c ∷ part) (suc left) k pre more f l p i n =
    let (q, qs) = and_parts (is_print c) (all is_print part) p in
    let (nl, nz, l') = is_print-plain c q in
    scan-round left (length pre) c f (omega (arith, n))
      (byte_at-front pre (part ++ more) c f.input i)
    ∙ rw (nl, q, sym (length-append pre (c ∷ [])))
        (scan-chars part left k (pre ++ (c ∷ [])) more f (omega (arith, l)) qs
            (i ∙ sym (append_assoc pre (c ∷ []) (part ++ more)))
            (omega (arith, n, length-append pre (c ∷ [])))
          ∙ ap (λ m. scan k m f) (omega (arith, length-append pre (c ∷ []))))

-- The end of a line.
pub scan-line :
    (line reply later old : List ℕ) (c k : ℕ) (base : Slot) (queued unused : List ℕ)
    → IsNewline c
    → all is_print line ≡ true
    → IsAnswered line reply
    → base.max_out ≡ length queued + length unused
    → base.max_out < word
    → length reply ≤ length unused
    → length line + 1 + length later + length old < word
    → (e : PollBits) × (old' : List ℕ) × (scan (suc k) (length line) (
          talking base
            (line ++ (c ∷ (later ++ old)))
            (length line + 1 + length later)
            queued
            unused)
        ≡ scan k 0 (
            talking
              (record base { events = e })
              (later ++ old')
              (length later)
              (queued ++ reply)
              (drop (length reply) unused)))
      × (length line + 1 + length later + length old ≡ length later + length old')
scan-line line reply later old c k base queued unused nl p a m w fits small =
    let (e, acted) =
      process_ctrl-Acted line reply (later ++ old) base (length line + 1 + length later) queued
        unused p a m w fits in
    let (old', moved, sizes) =
      move_input-line line later old 0 (record base { events = e }) (queued ++ reply)
        (drop (length reply) unused) small in
    (
      e,
      old',
      scan-round k (length line) c _ (omega arith) (byte_at-front line (later ++ old) c _ refl)
          ∙ rw (nl, set-front line (later ++ old) c 0, acted, moved),
      sizes,
    )

pub scan-end : (j : ℕ) (f : Slot) → f.n_in ≤ j → scan 0 j f ≡ done (f, false)
unfolding scan
scan-end j f l = rw (scan, le→ltb j f.n_in l)

pub all-append :
    (xs ys : List ℕ)
    → all is_print xs ≡ true
    → all is_print ys ≡ true
    → all is_print (xs ++ ys) ≡ true
all-append [] ys e f = f
all-append (x ∷ xs) ys e f =
    let (p, q) = and_parts (is_print x) (all is_print xs) e in rw (p) (all-append xs ys q f)

-- Up to the end of the first line.
pub scan-to_line :
    (pending part later old received line : List ℕ) (c left : ℕ) (base : Slot)
    (queued unused : List ℕ)
    → received ≡ part ++ (c ∷ later)
    → all is_print part ≡ true
    → line ≡ pending ++ part
    → left ≡ length received
    → scan left (length pending) (
        talking base
          (pending ++ (received ++ old))
          (length pending + length received)
          queued
          unused)
      ≡ scan (suc (length later)) (length line) (
          talking base
            (line ++ (c ∷ (later ++ old)))
            (length line + 1 + length later)
            queued
            unused)
scan-to_line pending part later old received line c left base queued unused r p e l =
    scan-chars part left (suc (length later)) pending ((c ∷ later) ++ old) _
      (omega (arith, l, count)) p
      (ap (λ x. pending ++ x) (ap (λ x. x ++ old) r ∙ append_assoc part (c ∷ later) old))
      (omega (arith, count))
    ∙ ap
        (λ j. scan (suc (length later)) j (
          talking base (pending ++ (received ++ old)) (length pending + length received) queued
            unused))
        (omega (arith, ap length e, length-append pending part))
    ∙ ap₂ (λ i n. scan (suc (length later)) (length line) (talking base i n queued unused)) whole
        (omega (arith, count, ap length e, length-append pending part))
  where
    count : length received ≡ length part + (1 + length later)
    count = omega (arith, ap length r, length-append part (c ∷ later))

    whole : pending ++ (received ++ old) ≡ line ++ (c ∷ (later ++ old))
    whole =
        ap (λ x. pending ++ (x ++ old)) r
        ∙ ap (λ x. pending ++ x) (append_assoc part (c ∷ later) old)
        ∙ sym (append_assoc pending part (c ∷ (later ++ old)))
        ∙ ap (λ x. x ++ (c ∷ (later ++ old))) (sym e)

pub scan-blank :
    (line after : List ℕ) (c k : ℕ) (f : Slot)
    → length line < f.n_in
    → f.input ≡ line ++ (c ∷ after)
    → all is_print line ≡ true
    → IsNewline c
    → strtok line ≡ none
    → scan (suc k) (length line) f ≡ stop out_of_bounds
scan-blank line after c k f l i p nl blank =
    scan-round k (length line) c f l (byte_at-front line after c f.input i)
    ∙ rw (
      nl,
      process_ctrl-blank line after (record f { input = set f.input (length line) 0 })
          (ap (λ x. set x (length line) 0) i ∙ set-front line after c 0) p blank,
    )
