-- ===== src/Put/Chains.antt =====
-- How the chain of frames in use, and the bytes of each, fare when a frame is written behind them.
use native.Mathlib.Nat.{mod-lt, add-zero, mod-eq_of_lt}
use ach.Base.{
  ℕ, suc, ◌+◌, ◌-◌, ◌%◌, ◌≤◌, ◌<◌, ◌≡◌, refl, sym, ap, ap₂, ◌∙◌, List, [], ◌∷◌, ◌++◌, length, map,
  arith,
}
use ach.Ring.Position.{mod-shift}
use ach.Ring.Window.{window}
use ach.Ring.Copy.{write_round, window-write_round}
use ach.Shm.{Index}
use ach.Shm.Invariant.{Chain, total}

pub total-append : (es fs : List Index) → total (es ++ fs) ≡ total es + total fs
total-append [] fs = omega arith
total-append (e ∷ es) fs = omega (arith, total-append es fs)

-- the frames of entries in an array of bytes
abbrev pub frames_in : (size : ℕ) → List ℕ → List Index → List (List ℕ)
frames_in size d = map (λ e. window 0 size d e.offset e.size)

module _ (size : ℕ) where
  pub Chain-snoc :
      (q o : ℕ) (es : List Index) (new : Index)
      → o < size
      → Chain size q o es
      → new.seq_num ≡ suc (q + length es)
      → 0 < new.size
      → new.offset ≡ (o + total es) % size
      → Chain size q o (es ++ (new ∷ []))
  Chain-snoc q o [] new ho c hq hn hf =
      (hq ∙ ap suc (add-zero q), hn, hf ∙ ap (λ t. t % size) (add-zero o) ∙ mod-eq_of_lt ho, tt)
  Chain-snoc q o (e ∷ es) new ho c hq hn hf = (
    c.0,
    c.1,
    c.2,
    Chain-snoc (suc q) ((o + e.size) % size) es new (mod-lt (o + e.size) (omega arith)) c.3
        (omega arith) hn (hf ∙ sym (mod-shift o e.size (total es) size)),
  )

  -- Bytes written behind the chain, `k` places from its start, leave its frames alone.
  pub frames_in-write_round :
      (d : List ℕ) (q o k : ℕ) (es : List Index) (bs : List ℕ)
      → o < size
      → Chain size q o es
      → total es ≤ k
      → k + length bs ≤ size
      → frames_in size (write_round size d ((o + k) % size) bs) es ≡ frames_in size d es
  frames_in-write_round d q o k [] bs ho c hk hb = refl
  frames_in-write_round d q o k (e ∷ es) bs ho c hk hb =
      ap₂ ◌∷◌ (rw c.2 (window-write_round size d o e.size k bs ho (omega arith) hb)) (
        ap (λ p. frames_in size (write_round size d p bs) es)
          (ap (λ t. (o + t) % size) whole ∙ sym (mod-shift o e.size (k - e.size) size))
        ∙ frames_in-write_round d (suc q) ((o + e.size) % size) (k - e.size) es bs
            (mod-lt (o + e.size) (omega arith)) c.3 (omega arith) (omega arith))
    where
      whole : k ≡ e.size + (k - e.size)
      whole = omega arith
