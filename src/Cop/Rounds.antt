-- ===== src/Cop/Rounds.antt =====
-- The rounds of the loop of src/achcop.c, one by one.
use ach.Base.{ℕ, ◌≡◌, ap, true, false, List, [], ◌∷◌, if◌then◌else◌}
use ach.Cop.{Cop, Round, Ran, and_next, start_turn, handle, run_loop, finish, running}

-- a round with its two pieces
abbrev pub round : (parent : ℕ) → Round → List Round → Cop → Ran
round parent r rs c =
    and_next (start_turn parent r.fork r.recorded c)
      (λ c₁. and_next (handle parent r.waits r.signal c₁) (λ c₂. run_loop parent rs c₂))

module _ (parent : ℕ) where
  pub run_loop-goes :
      (r : Round) (rs : List Round) (c : Cop)
      → c.done ≡ false
      → run_loop parent (r ∷ rs) c ≡ round parent r rs c
  unfolding run_loop
  run_loop-goes r rs c e = ap (λ b. if b then finish c else round parent r rs c) e

  pub run_loop-done : (rs : List Round) (c : Cop) → c.done ≡ true → run_loop parent rs c ≡ finish c
  unfolding run_loop
  run_loop-done [] c e = ap (λ b. if b then finish c else record { end = running; actions = [] }) e
  run_loop-done (r ∷ rs) c e = ap (λ b. if b then finish c else round parent r rs c) e
