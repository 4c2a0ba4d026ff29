-- ===== src/Achd/Transport/Pull.antt =====
-- The loop of achd_pull_tcp in src/achd/transport.c, over frames that arrive whole.
use ach.Base.{ℕ, ◌<◌, ◌^◌, ◌≡◌, Bool, true, false, List, [], ◌∷◌, ◌++◌, length, take, Stop}
use ach.Shm.{Status, ok}
use ach.Pipe.{set_bytes, get_size, pipe_magic}
use ach.Achd.Io.Whole.{arrived, is_quiet}
use ach.Achd.Transport.{Conn, PullAttempt, PullRound}

-- the sixteen bytes before the data of a frame
abbrev pub head_of : List ℕ → List ℕ
head_of msg = pipe_magic ++ set_bytes 8 0 (length msg)

-- The frame of a message arrives in the first attempt, and the message is put.
abbrev pub Carries : PullRound → List ℕ → Type 0
Carries r msg =
    (a : PullAttempt) × (as_ : List PullAttempt) × (r.attempts ≡ a ∷ as_)
    × (is_quiet a.head ≡ true)
    × (arrived a.head ≡ head_of msg)
    × (is_quiet a.data_calls ≡ true)
    × (arrived a.data_calls ≡ msg)
    × (r.put ≡ ok)
    × (length msg < 2 ^ 32)

abbrev pub AllCarry : List PullRound → List (List ℕ) → Type 0
AllCarry [] [] = Unit {0}
AllCarry (r ∷ rs) (msg ∷ msgs) = Carries r msg × AllCarry rs msgs
AllCarry _ _ = true ≡ false

module _ (shl : ℕ → ℕ → ℕ) (malloc : ℕ → List ℕ) (err : Status → Stop) (reconnect : Bool)
    (zeros : (n : ℕ) → shl 0 n ≡ 0) where
  -- the message is in the frame
  abbrev Holds : List ℕ → Conn → Type 0
  Holds msg c = take (get_size shl c.pipeframe) c.pipeframe.bytes ≡ msg
