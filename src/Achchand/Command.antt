-- ===== src/Achchand/Command.antt =====
-- The commands that a client of src/achchand.c types: what `process_ctrl` does for a line.
use mathlib.Core.Path.{subst}
use mathlib.Core.List.{append_assoc, append-nil}
use ach.Base.{
  take_front, take_all, drop_past, ℕ, ◌+◌, ◌-◌, ◌≤◌, ◌<◌, ◌≡◌, refl, sym, ap, ap₂, ◌∙◌, Bool, true,
  false, not, ◌||◌, Option, none, some, List, [], ◌∷◌, ◌++◌, length, take, drop, min, ◌==◌, Exec,
  done, stop, out_of_bounds, ◌>>=◌, word, arith, le→leb, length-append, add64-eq, sub64-eq,
  and_parts,
}
use ach.Memory.{memcpy}
use ach.Achd.Words.{cut, all}
use ach.Achchand.{
  PollBits, Slot, queue_output, strtok, CtrlAction, says, nothing, quits, action_of, act,
  process_ctrl, is_print,
}

pub is_print-plain :
    (c : ℕ)
    → is_print c ≡ true
    → (((c == b'\n') || (c == b'\r')) ≡ false) × ((c == 0) ≡ false) × (not (c == b'\n') ≡ true)
is_print-plain c e = (ground arith, ground arith, ground arith)

cut-print : (xs ys : List ℕ) → all is_print xs ≡ true → cut 0 (xs ++ (0 ∷ ys)) ≡ xs
cut-print [] ys e = refl
cut-print (x ∷ xs) ys e =
    let (p, q) = and_parts (is_print x) (all is_print xs) e in
    let (nl, nz, l) = is_print-plain x p in rw (nz) (ap (λ t. x ∷ t) (cut-print xs ys q))

all-print : (xs : List ℕ) → all is_print xs ≡ true → all (λ c. not (c == b'\n')) xs ≡ true
all-print [] e = refl
all-print (x ∷ xs) e =
    let (p, q) = and_parts (is_print x) (all is_print xs) e in
    let (nl, nz, l) = is_print-plain x p in rw (l) (all-print xs q)

-- A connection with `n` bytes of input, and output that is queued in its buffer.
abbrev pub talking : Slot → (input : List ℕ) → (n : ℕ) → (queued unused : List ℕ) → Slot
talking base input n queued unused = record base {
  input = input;
  n_in = n;
  output = queued ++ unused;
  n_out = length queued;
}

abbrev pub asks_out : Slot → Slot
asks_out base = record base { events = record base.events { pollout = true } }

queue_output-fits :
    (str : List ℕ) (base : Slot) (input : List ℕ) (n : ℕ) (queued unused : List ℕ)
    → base.max_out ≡ length queued + length unused
    → base.max_out < word
    → length str ≤ length unused
    → queue_output str (talking base input n queued unused)
      ≡ done (talking (asks_out base) input n (queued ++ str) (drop (length str) unused))
unfolding queue_output memcpy
queue_output-fits str base input n queued unused m w fits =
    rw
      (
        queue_output,
        sub64-eq base.max_out (length queued) (omega (arith, m)) w,
        count,
        le→leb (length queued + length str) (length (queued ++ unused))
            (omega (arith, length-append queued unused)),
        le→leb (0 + length str) (length str) (omega arith),
        add64-eq (length queued) (length str) (omega (arith, m, w)),
      )
      (ap₂
        (λ out k.
          done (record (asks_out base) { input = input; n_in = n; output = out; n_out = k }))
        laid (sym (length-append queued str)))
  where
    count : min (base.max_out - length queued) (length str) ≡ length str
    count = omega (arith, m, fits)

    laid :
        take (length queued) (queued ++ unused)
          ++ (take (length str) str ++ drop (length queued + length str) (queued ++ unused))
        ≡ (queued ++ str) ++ drop (length str) unused
    laid =
        ap₂ (λ a b. a ++ (b ++ drop (length queued + length str) (queued ++ unused)))
          (take_front queued unused) (take_all str)
        ∙ ap (λ d. queued ++ (str ++ d)) (drop_past queued unused (length str))
        ∙ sym (append_assoc queued str (drop (length str) unused))

-- what an action queues; none if it ends the connection
abbrev pub reply_of : CtrlAction → Option (List ℕ)
reply_of (says text) = some text
reply_of nothing = some []
reply_of quits = none

-- The line holds a command other than "quit", which is answered with `reply`.
abbrev pub IsAnswered : (line reply : List ℕ) → Type 0
IsAnswered line reply =
    (tok : List ℕ) × (strtok line ≡ some tok) × (reply_of (action_of tok) ≡ some reply)

-- What is left of a connection's entry: only whether it asks for output may have changed.
abbrev pub Acted :
    Slot → Exec (Slot × Bool) → (input : List ℕ) → (n : ℕ) → (queued unused : List ℕ) → Type 0
Acted base r input n queued unused =
    (e : PollBits) × (r ≡ done (talking (record base { events = e }) input n queued unused, false))

act-Acted :
    (a : CtrlAction) (reply : List ℕ) (base : Slot) (input : List ℕ) (n : ℕ)
    (queued unused : List ℕ)
    → reply_of a ≡ some reply
    → base.max_out ≡ length queued + length unused
    → base.max_out < word
    → length reply ≤ length unused
    → Acted base
        (act a (talking base input n queued unused))
        input
        n
        (queued ++ reply)
        (drop (length reply) unused)
act-Acted (says text) reply base input n queued unused e m w fits =
    let same : text ≡ reply = ap (λ (o : Option (List ℕ)). elim o [ none ↦ [] | some t ↦ t ]) e in
    (
      (asks_out base).events,
      subst
          (λ t.
            act (says t) (talking base input n queued unused)
            ≡ done (
              talking (asks_out base) input n (queued ++ reply) (drop (length reply) unused),
              false,
            ))
          (sym same)
          (ap (λ r. r >>= (λ g. done (g, false)))
            (queue_output-fits reply base input n queued unused m w fits)),
    )
act-Acted nothing reply base input n queued unused e m w fits =
    let same : [] ≡ reply = ap (λ (o : Option (List ℕ)). elim o [ none ↦ [] | some t ↦ t ]) e in
    (
      base.events,
      subst
          (λ t.
            act nothing (talking base input n queued unused)
            ≡ done (talking base input n (queued ++ t) (drop (length t) unused), false))
          same (ap (λ q. done (talking base input n q unused, false)) (sym (append-nil queued))),
    )
act-Acted quits reply base input n queued unused e m w fits = cc e

pub process_ctrl-Acted :
    (line reply after : List ℕ) (base : Slot) (n : ℕ) (queued unused : List ℕ)
    → all is_print line ≡ true
    → IsAnswered line reply
    → base.max_out ≡ length queued + length unused
    → base.max_out < word
    → length reply ≤ length unused
    → Acted base
        (process_ctrl (talking base (line ++ (0 ∷ after)) n queued unused))
        (line ++ (0 ∷ after))
        n
        (queued ++ reply)
        (drop (length reply) unused)
unfolding process_ctrl
process_ctrl-Acted line reply after base n queued unused p (tok, t, a) m w fits =
    let (e, q) =
      act-Acted (action_of tok) reply base (line ++ (0 ∷ after)) n queued unused a m w fits in
    (e, rw (process_ctrl, cut-print line after p, all-print line p, t) q)

-- A line without a word.
pub process_ctrl-blank :
    (line after : List ℕ) (f : Slot)
    → f.input ≡ line ++ (0 ∷ after)
    → all is_print line ≡ true
    → strtok line ≡ none
    → process_ctrl f ≡ stop out_of_bounds
unfolding process_ctrl
process_ctrl-blank line after f i p blank =
    rw (process_ctrl, i, cut-print line after p, all-print line p, blank)
