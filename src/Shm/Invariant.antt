-- ===== src/Shm/Invariant.antt =====
-- What holds of a channel's memory between operations (the header, index and data of
-- include/ach.h): which index entries are in use, and how their frames lie in the data bytes.
use ach.Base.{
  ℕ, suc, ◌+◌, ◌-◌, ◌%◌, ◌^◌, ◌≤◌, ◌<◌, ◌≡◌, List, [], ◌∷◌, length, map, replicate, word,
}
use ach.Ring.Window.{window}
use ach.Shm.{Shm, Index, no_index}

-- the bytes that a list of entries takes up
abbrev pub total : List Index → ℕ
total [] = 0
total (e ∷ es) = e.size + total es

-- Entries with the sequence numbers after `q`, whose frames lie one behind the other from place
-- `o` on in a circular array of `size` bytes.
abbrev pub Chain : (size q o : ℕ) → List Index → Type 0
Chain size q o [] = Unit {0}
Chain size q o (e ∷ es) =
    (e.seq_num ≡ suc q)
    × (0 < e.size)
    × (e.offset ≡ o)
    × Chain size (suc q) ((o + e.size) % size) es

-- `index_ar` from place `h` on, going round
abbrev pub entries_from : Shm → (h n : ℕ) → List Index
entries_from s h n = window no_index s.index_cnt s.index h n

-- the place of the oldest entry, and of the oldest byte
abbrev pub oldest : Shm → ℕ
oldest s = (s.index_head + s.index_free) % s.index_cnt

abbrev pub oldest_byte : Shm → ℕ
oldest_byte s = (s.data_head + s.data_free) % s.data_size

-- `es` are the entries in use, oldest first.
pub record Inv (s : Shm) (es : List Index) : Type 0 where
  pub cnt_small : s.index_cnt ≤ 2 ^ 63
  pub size_small : s.data_size ≤ 2 ^ 63
  pub seq_small : s.last_seq + 1 < word
  pub head_in : s.index_head < s.index_cnt
  pub data_head_in : s.data_head < s.data_size
  pub index_len : length s.index ≡ s.index_cnt
  pub bytes_len : length s.bytes ≡ s.data_size
  pub used : s.index_free + length es ≡ s.index_cnt
  pub in_use : entries_from s (oldest s) (length es) ≡ es
  pub unused : entries_from s s.index_head s.index_free ≡ replicate s.index_free no_index
  pub space : s.data_free + total es ≡ s.data_size
  pub counted : length es ≤ s.last_seq
  pub chain : Chain s.data_size (s.last_seq - length es) (oldest_byte s) es
  pub place : s.index_head ≡ s.last_seq % s.index_cnt

-- the frame of an entry, and the frames of the channel, oldest first
abbrev pub frame : Shm → Index → List ℕ
frame s e = window 0 s.data_size s.bytes e.offset e.size

abbrev pub frames : Shm → List Index → List (List ℕ)
frames s = map (frame s)
