-- ===== src/Base/Outcome.antt =====
-- How a piece of the C code ends: with a value, or stopped on the way to one.
use Prim.Native.Nat.{ℕ}
use mathlib.Core.Bool.{Bool, true, false}

pub data Stop : Type 0 where
  -- an `assert` is false
  assert_failed : Stop
  -- an array is read or written outside its bounds
  out_of_bounds : Stop
  -- the model's bound on the rounds of a loop is used up
  no_fuel : Stop
  -- a call of the system does not come back
  blocked : Stop
  -- a loop with an empty body whose condition stays true
  spins : Stop
  -- `exit`
  exits : (code : ℕ) → Stop

pub data Exec {ℓ} (A : Type ℓ) : Type ℓ where
  done : A → Exec A
  stop : Stop → Exec A

infixl 5 ◌>>=◌ ◌>>◌
abbrev pub ◌>>=◌ {ℓ κ} : {A : Type ℓ} {B : Type κ} → Exec A → (A → Exec B) → Exec B
done a >>= f = f a
stop e >>= f = stop e

abbrev pub ◌>>◌ {ℓ} : {B : Type ℓ} → Exec (Unit {0}) → Exec B → Exec B
m >> k = m >>= λ _. k

-- `assert(b)` of a build with --enable-debug; without it configure.ac defines NDEBUG.
abbrev pub assert : Bool → Exec (Unit {0})
assert true = done tt
assert false = stop assert_failed
