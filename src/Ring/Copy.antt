-- ===== src/Ring/Copy.antt =====
-- Copies into and out of a circular byte array, in one piece or in two.
use native.Mathlib.Nat.{mod-eq_of_lt, mod-lt, mod_self, add-zero, zero-add, add-suc, suc-add}
use ach.Base.{
  ℕ, zero, suc, ◌+◌, ◌%◌, ◌≤◌, ◌<◌, ◌≡◌, refl, sym, ap, ap₂, ◌∙◌, List, [], ◌∷◌, ◌++◌, length,
  length-set, get_or, set, take, drop, arith,
}
use ach.Ring.Position.{mod-shift, mod-step_suc, suc-mod_of_lt}
use ach.Ring.Window.{get_or-set_self, window, window-set_out}

-- the bytes `bs` written from place `o` on, without going round
abbrev pub write_run : List ℕ → ℕ → List ℕ → List ℕ
write_run d o [] = d
write_run d o (b ∷ bs) = write_run (set d o b) (suc o) bs

pub write_run-cons :
    (x : ℕ) (d : List ℕ) (o : ℕ) (bs : List ℕ) → write_run (x ∷ d) (suc o) bs ≡ x ∷ write_run d o bs
write_run-cons x d o [] = refl
write_run-cons x d o (b ∷ bs) = write_run-cons x (set d o b) (suc o) bs

-- What `memcpy` leaves behind is that run.
pub splice-eq-write_run :
    (d : List ℕ) (o : ℕ) (bs : List ℕ)
    → o + length bs ≤ length d
    → take o d ++ (bs ++ drop (o + length bs) d) ≡ write_run d o bs
splice-eq-write_run d zero [] h = ap (λ t. drop t d) (zero-add 0)
splice-eq-write_run [] zero (b ∷ bs) h = absurd (omega arith)
splice-eq-write_run (x ∷ d) zero (b ∷ bs) h =
    ap (λ t. b ∷ (bs ++ drop t (x ∷ d))) (zero-add (suc (length bs)))
    ∙ ap (λ t. b ∷ (bs ++ drop t d)) (sym (zero-add (length bs)))
    ∙ ap (λ t. b ∷ t) (splice-eq-write_run d zero bs (omega arith))
    ∙ sym (write_run-cons b d zero bs)
splice-eq-write_run [] (suc o) bs h = absurd (omega arith)
splice-eq-write_run (x ∷ d) (suc o) bs h =
    ap (λ t. x ∷ (take o d ++ (bs ++ drop t (x ∷ d)))) (suc-add o (length bs))
    ∙ ap (λ t. x ∷ t) (splice-eq-write_run d o bs (omega arith))
    ∙ sym (write_run-cons x d o bs)

pub length-write_run : (d : List ℕ) (o : ℕ) (bs : List ℕ) → length (write_run d o bs) ≡ length d
length-write_run d o [] = refl
length-write_run d o (b ∷ bs) = length-write_run (set d o b) (suc o) bs ∙ length-set d o b

drop-eq-cons : (d : List ℕ) (o : ℕ) → o < length d → drop o d ≡ get_or d o 0 ∷ drop (suc o) d
drop-eq-cons [] o h = absurd (omega arith)
drop-eq-cons (x ∷ d) zero h = refl
drop-eq-cons (x ∷ d) (suc o) h = drop-eq-cons d o (omega arith)

-- A run read without going round.
pub slice-eq-window :
    (d : List ℕ) (size o n : ℕ)
    → o + n ≤ length d
    → length d ≤ size
    → take n (drop o d) ≡ window 0 size d o n
slice-eq-window d size o zero h k = refl
slice-eq-window d size o (suc zero) h k = rw (drop-eq-cons d o (omega arith))
slice-eq-window d size o (suc (suc n)) h k =
    ap (take (suc (suc n))) (drop-eq-cons d o (omega arith))
    ∙ ap (λ l. get_or d o 0 ∷ l)
        (slice-eq-window d size (suc o) (suc n) (omega arith) k
          ∙ ap (λ t. window 0 size d t (suc n)) (sym (suc-mod_of_lt o size (omega arith))))

module _ (size : ℕ) where
  -- the bytes written from place `h` on, going round
  abbrev pub write_round : List ℕ → ℕ → List ℕ → List ℕ
  write_round d h [] = d
  write_round d h (b ∷ bs) = write_round (set d h b) ((h + 1) % size) bs

  pub length-write_round :
      (d : List ℕ) (h : ℕ) (bs : List ℕ) → length (write_round d h bs) ≡ length d
  length-write_round d h [] = refl
  length-write_round d h (b ∷ bs) =
      length-write_round (set d h b) ((h + 1) % size) bs ∙ length-set d h b

  pub write_run-eq-write_round :
      (d : List ℕ) (h : ℕ) (bs : List ℕ)
      → h + length bs ≤ size
      → write_run d h bs ≡ write_round d h bs
  write_run-eq-write_round d h [] hh = refl
  write_run-eq-write_round d h (b ∷ []) hh = refl
  write_run-eq-write_round d h (b ∷ c ∷ bs) hh =
      write_run-eq-write_round (set d h b) (suc h) (c ∷ bs) (omega arith)
      ∙ ap (λ t. write_round (set d h b) t (c ∷ bs)) (sym (suc-mod_of_lt h size (omega arith)))

  pub write_round-append :
      (d : List ℕ) (h : ℕ) (cs bs : List ℕ)
      → h < size
      → write_round d h (cs ++ bs) ≡ write_round (write_round d h cs) ((h + length cs) % size) bs
  write_round-append d h [] bs hh = rw (add-zero, mod-eq_of_lt hh)
  write_round-append d h (a ∷ cs) bs hh =
      write_round-append (set d h a) ((h + 1) % size) cs bs (mod-lt (h + 1) (omega arith))
      ∙ ap (λ t. write_round (write_round (set d h a) ((h + 1) % size) cs) t bs)
          (mod-step_suc h (length cs) size)

  -- A run up to the end of the array, and one from its start, are one run going round.
  pub write_two_runs :
      (d : List ℕ) (h : ℕ) (cs bs : List ℕ)
      → h < size
      → h + length cs ≡ size
      → length bs ≤ size
      → write_run (write_run d h cs) 0 bs ≡ write_round d h (cs ++ bs)
  write_two_runs d h cs bs hh e hb =
      ap (λ t. write_run t 0 bs) (write_run-eq-write_round d h cs (omega arith))
      ∙ write_run-eq-write_round (write_round d h cs) 0 bs (omega arith)
      ∙ ap (λ p. write_round (write_round d h cs) p bs) (sym (ap (λ t. t % size) e ∙ mod_self size))
      ∙ sym (write_round-append d h cs bs hh)

  -- Bytes written past a window leave it alone, if they do not go all the way round to it.
  pub window-write_round :
      (d : List ℕ) (t n k : ℕ) (bs : List ℕ)
      → t < size
      → n ≤ k
      → k + length bs ≤ size
      → window 0 size (write_round d ((t + k) % size) bs) t n ≡ window 0 size d t n
  window-write_round d t n k [] ht nk kl = refl
  window-write_round d t n k (b ∷ bs) ht nk kl =
      ap (λ p. window 0 size (write_round (set d ((t + k) % size) b) p bs) t n)
        (mod-shift t k 1 size)
      ∙ window-write_round (set d ((t + k) % size) b) t n (k + 1) bs ht (omega arith) (omega arith)
      ∙ window-set_out 0 size d t k n b ht nk (omega arith)

  -- What has been written is read back.
  pub window-write_round_self :
      (d : List ℕ) (h : ℕ) (bs : List ℕ)
      → h < size
      → length bs ≤ size
      → size ≤ length d
      → window 0 size (write_round d h bs) h (length bs) ≡ bs
  window-write_round_self d h [] hh hl hs = refl
  window-write_round_self d h (b ∷ bs) hh hl hs =
      ap₂ ◌∷◌ (first ∙ get_or-set_self d h b 0 (omega arith)) (
        window-write_round_self (set d h b) ((h + 1) % size) bs (mod-lt (h + 1) (omega arith))
          (omega arith) (rw (length-set d h b) hs))
    where
      first : get_or (write_round (set d h b) ((h + 1) % size) bs) h 0 ≡ get_or (set d h b) h 0
      first =
          ap (λ l. get_or l 0 0)
            (window-write_round (set d h b) h 1 1 bs hh (omega arith) (omega arith))

-- Two runs, the second behind the first.
pub write_run-append :
    (d : List ℕ) (o : ℕ) (cs bs : List ℕ)
    → write_run (write_run d o cs) (o + length cs) bs ≡ write_run d o (cs ++ bs)
write_run-append d o [] bs = rw add-zero
write_run-append d o (c ∷ cs) bs =
    ap (λ p. write_run (write_run (set d o c) (suc o) cs) p bs)
      (add-suc o (length cs) ∙ sym (suc-add o (length cs)))
    ∙ write_run-append (set d o c) (suc o) cs bs

-- A run from the start of a buffer leaves the bytes behind it.
pub write_run-zero :
    (d bs : List ℕ) → length bs ≤ length d → write_run d 0 bs ≡ bs ++ drop (length bs) d
write_run-zero d bs h =
    sym (splice-eq-write_run d 0 bs (omega arith)) ∙ ap (λ k. bs ++ drop k d) (zero-add (length bs))
