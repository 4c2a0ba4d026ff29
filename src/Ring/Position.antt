-- ===== src/Ring/Position.antt =====
-- Positions in a circular array of `size` places: `(h + k) % size`.
use native.Mathlib.Nat.{mod-eq_of_lt, mod-eq-sub-mod, mod-add-mod}
use ach.Base.{ℕ, suc, ◌+◌, ◌-◌, ◌%◌, ◌≤◌, ◌<◌, ◌≡◌, ◌∙◌, ap, ◌≢◌, dec_lt, ◌⊎◌, inl, inr, arith}

-- A position less than one turn on: either short of the end, or past it.
pub mod-cases :
    (h k size : ℕ)
    → h < size
    → k ≤ size
    → ((h + k < size) × ((h + k) % size ≡ h + k))
      ⊎ ((size ≤ h + k) × ((h + k) % size ≡ h + k - size))
mod-cases h k size hh hk = elim (dec_lt (h + k) size) [
  | yes p ↦ inl (p, mod-eq_of_lt p)
  | no p ↦ inr (
    omega arith,
    mod-eq-sub-mod {n = h + k} {m = size} (omega arith)
        ∙ mod-eq_of_lt {n = h + k - size} {m = size} (omega arith),
  )
]

-- Two different distances of less than one turn lead to different places.
pub mod-ne :
    (h j k size : ℕ) → h < size → j < size → k < size → j ≢ k → (h + j) % size ≢ (h + k) % size
mod-ne h j k size hh hj hk ne =
    omega (arith, mod-cases h j size hh (omega arith), mod-cases h k size hh (omega arith))

-- One step, then `k` more.
pub mod-step : (h k size : ℕ) → ((h + 1) % size + k) % size ≡ (h + (k + 1)) % size
mod-step h k size = mod-add-mod (h + 1) size k ∙ ap (λ t. t % size) (omega arith)

pub mod-shift : (h j k size : ℕ) → ((h + j) % size + k) % size ≡ (h + (j + k)) % size
mod-shift h j k size = mod-add-mod (h + j) size k ∙ ap (λ t. t % size) (omega arith)

-- Less than a whole turn does not come back to the start.
pub mod-ne_start : (h k size : ℕ) → h < size → 0 < k → k < size → (h + k) % size ≢ h
mod-ne_start h k size hh k0 kc = omega (arith, mod-cases h k size hh (omega arith))

pub mod-step_suc : (h k size : ℕ) → ((h + 1) % size + k) % size ≡ (h + suc k) % size
mod-step_suc h k size = mod-step h k size ∙ ap (λ t. t % size) (omega arith)

pub suc-mod_of_lt : (h size : ℕ) → suc h < size → (h + 1) % size ≡ suc h
suc-mod_of_lt h size k = ap (λ t. t % size) (omega arith) ∙ mod-eq_of_lt k
