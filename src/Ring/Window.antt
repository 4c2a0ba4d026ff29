-- ===== src/Ring/Window.antt =====
-- The part of a circular array that is in use, as a list, and what a write does to it.
use native.Mathlib.Nat.{mod-eq_of_lt, mod-lt, add-zero, zero-add, suc-add}
use ach.Base.{
  ℕ, zero, suc, ◌+◌, ◌%◌, ◌≤◌, ◌<◌, ◌≡◌, refl, sym, ap, ap₂, ◌∙◌, ◌≢◌, List, [], ◌∷◌, ◌++◌, length,
  get_or, set, arith,
}
use ach.Ring.Position.{mod-ne_start, mod-step_suc}

module _ {ℓ} {A : Type ℓ} where
  pub get_or-set_self :
      (xs : List A) (i : ℕ) (v d : A) → i < length xs → get_or (set xs i v) i d ≡ v
  get_or-set_self [] i v d h = absurd (omega arith)
  get_or-set_self (x ∷ xs) zero v d h = refl
  get_or-set_self (x ∷ xs) (suc i) v d h = get_or-set_self xs i v d (omega arith)

  pub get_or-set_ne :
      (xs : List A) (i j : ℕ) (v d : A) → i ≢ j → get_or (set xs i v) j d ≡ get_or xs j d
  get_or-set_ne [] i j v d h = refl
  get_or-set_ne (x ∷ xs) zero zero v d h = absurd (h refl)
  get_or-set_ne (x ∷ xs) zero (suc j) v d h = refl
  get_or-set_ne (x ∷ xs) (suc i) zero v d h = refl
  get_or-set_ne (x ∷ xs) (suc i) (suc j) v d h = get_or-set_ne xs i j v d (λ e. h (ap suc e))

module _ {ℓ} {A : Type ℓ} (d : A) (size : ℕ) where
  -- the `n` elements from place `h` on, going round at `size`
  abbrev pub window : List A → ℕ → ℕ → List A
  window arr h zero = []
  window arr h (suc n) = get_or arr h d ∷ window arr ((h + 1) % size) n

  pub length-window : (arr : List A) (h n : ℕ) → length (window arr h n) ≡ n
  length-window arr h zero = refl
  length-window arr h (suc n) = ap suc (length-window arr ((h + 1) % size) n)

  pub window-append :
      (arr : List A) (h m n : ℕ)
      → h < size
      → window arr h (m + n) ≡ window arr h m ++ window arr ((h + m) % size) n
  window-append arr h zero n hh = rw (add-zero, mod-eq_of_lt hh, zero-add)
  window-append arr h (suc m) n hh =
      ap (window arr h) (suc-add m n)
      ∙ ap (λ t. get_or arr h d ∷ t)
          (window-append arr ((h + 1) % size) m n (mod-lt (h + 1) (omega arith))
            ∙ ap (λ t. window arr ((h + 1) % size) m ++ window arr t n) (mod-step_suc h m size))

  pub window-set_out :
      (arr : List A) (h k n : ℕ) (v : A)
      → h < size
      → n ≤ k
      → k < size
      → window (set arr ((h + k) % size) v) h n ≡ window arr h n
  window-set_out arr h k zero v hh nk kc = refl
  window-set_out arr h (suc k) (suc n) v hh nk kc =
      ap₂ ◌∷◌ (get_or-set_ne arr _ _ v d (mod-ne_start h (suc k) size hh (omega arith) kc)) (
        ap (λ t. window (set arr t v) ((h + 1) % size) n) (sym (mod-step_suc h k size))
        ∙ window-set_out arr ((h + 1) % size) k n v (mod-lt (h + 1) (omega arith)) (omega arith)
            (omega arith))
  window-set_out arr h zero (suc n) v hh nk kc = absurd (omega arith)

  pub window-set_end :
      (arr : List A) (h n : ℕ) (v : A)
      → h < size
      → n < size
      → size ≤ length arr
      → window (set arr ((h + n) % size) v) h (suc n) ≡ window arr h n ++ (v ∷ [])
  window-set_end arr h zero v hh nk kc =
      rw (add-zero, mod-eq_of_lt hh, get_or-set_self arr h v d (omega arith))
  window-set_end arr h (suc n) v hh nk kc =
      ap₂ ◌∷◌ (get_or-set_ne arr _ _ v d (mod-ne_start h (suc n) size hh (omega arith) nk)) (
        ap (λ t. window (set arr t v) ((h + 1) % size) (suc n)) (sym (mod-step_suc h n size))
        ∙ window-set_end arr ((h + 1) % size) n v (mod-lt (h + 1) (omega arith)) (omega arith) kc)
