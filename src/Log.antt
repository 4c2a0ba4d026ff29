-- ===== src/Log.antt =====
-- What a channel promises its users (include/ach.h): a log of the newest messages, oldest first.
-- New messages supersede old ones; the oldest are dropped when the channel has no room.
use ach.Base.{
  ℕ, ◌+◌, ◌-◌, max, Bool, not, ◌&&◌, ◌||◌, ◌==◌, get_or, List, [], ◌∷◌, ◌++◌, length, leb,
  if◌then◌else◌,
}

-- the messages that the channel holds, and the sequence number of the newest one
pub record Log : Type 0 where
  pub messages : List (List ℕ)
  pub last : ℕ

abbrev pub size_of : List (List ℕ) → ℕ
size_of [] = 0
size_of (m ∷ ms) = length m + size_of ms

-- the newest messages that are at most `cnt` in number and `room` in bytes
abbrev pub newest_within : (cnt room : ℕ) → List (List ℕ) → List (List ℕ)
newest_within cnt room [] = []
newest_within cnt room (m ∷ ms) =
    if leb (length (m ∷ ms)) cnt && leb (size_of (m ∷ ms)) room
    then m ∷ ms
    else newest_within cnt room ms

-- A message is stored in a channel of `cnt` index entries and `size` bytes.
abbrev pub store : (cnt size : ℕ) → List ℕ → Log → Log
store cnt size m g = record {
  messages = newest_within (cnt - 1) (size - length m) g.messages ++ (m ∷ []);
  last = g.last + 1;
}

-- the sequence number of the oldest message
abbrev pub first : Log → ℕ
first g = g.last + 1 - length g.messages

-- Which message a reader gets that has last seen number `seq`: the newest if it asks for the newest
-- or has seen it, else the next one, or the oldest where the next one is gone.
abbrev pub target : Log → (seq : ℕ) → (newest : Bool) → ℕ
target g seq newest = if newest || (seq == g.last) then g.last else max (seq + 1) (first g)

-- the message of a sequence number that the log holds
abbrev pub message : Log → ℕ → List ℕ
message g n = get_or g.messages (n - first g) []

-- Whether there is nothing to get.
abbrev pub is_stale : Log → (seq : ℕ) → (copy : Bool) → Bool
is_stale g seq copy = ((seq == g.last) && not copy) || (g.last == 0)
