-- ===== src/Shm/Lookup.antt =====
-- Where in the index array the entry of a sequence number stands.
use native.Mathlib.Nat.{mod-lt, mod-eq_of_lt, mod-add-mod, add-mod_right, add-zero, add_assoc}
use ach.Base.{
  ℕ, zero, suc, ◌+◌, ◌-◌, ◌%◌, ◌≤◌, ◌<◌, ◌≡◌, refl, sym, ap, ◌∙◌, List, [], ◌∷◌, length, get_or,
  map, replicate, arith, dec_lt,
}
use ach.Ring.Position.{mod-shift, mod-step_suc, mod-cases}
use ach.Ring.Window.{window}
use ach.Shm.{Shm, Index, no_index}
use ach.Shm.Invariant.{Inv, Chain, oldest, oldest_byte}

pub get_or-window {ℓ} :
    {A : Type ℓ} (d : A) (size : ℕ) (arr : List A) (h n j : ℕ)
    → h < size
    → j < n
    → get_or (window d size arr h n) j d ≡ get_or arr ((h + j) % size) d
get_or-window d size arr h zero j hh hj = absurd (omega arith)
get_or-window d size arr h (suc n) zero hh hj =
    ap (λ p. get_or arr p d) (sym (ap (λ t. t % size) (add-zero h) ∙ mod-eq_of_lt hh))
get_or-window d size arr h (suc n) (suc j) hh hj =
    get_or-window d size arr ((h + 1) % size) n j (mod-lt (h + 1) (omega arith)) (omega arith)
    ∙ ap (λ p. get_or arr p d) (mod-step_suc h j size)

pub get_or-replicate {ℓ} : {A : Type ℓ} (n j : ℕ) (a : A) → get_or (replicate n a) j a ≡ a
get_or-replicate zero j a = refl
get_or-replicate (suc n) zero a = refl
get_or-replicate (suc n) (suc j) a = get_or-replicate n j a

pub get_or-map {ℓ κ} :
    {A : Type ℓ} {B : Type κ} (f : A → B) (xs : List A) (j : ℕ) (a : A) (b : B)
    → j < length xs
    → get_or (map f xs) j b ≡ f (get_or xs j a)
get_or-map f [] j a b h = absurd (omega arith)
get_or-map f (x ∷ xs) zero a b h = refl
get_or-map f (x ∷ xs) (suc j) a b h = get_or-map f xs j a b (omega arith)

-- What the chain says of one of its entries.
pub record IsEntry (size seq : ℕ) (e : Index) : Type 0 where
  pub numbered : e.seq_num ≡ seq
  pub has_bytes : 0 < e.size
  pub starts_in : e.offset < size

pub Chain-IsEntry :
    (size q o : ℕ) (es : List Index) (j : ℕ)
    → o < size
    → Chain size q o es
    → j < length es
    → IsEntry size (q + j + 1) (get_or es j no_index)
Chain-IsEntry size q o [] j ho c h = absurd (omega arith)
Chain-IsEntry size q o (e ∷ es) zero ho c h = record {
  numbered = c.0 ∙ (omega arith);
  has_bytes = c.1;
  starts_in = omega (arith, c.2);
}
Chain-IsEntry size q o (e ∷ es) (suc j) ho c h =
    let r =
      Chain-IsEntry size (suc q) ((o + e.size) % size) es j (mod-lt (o + e.size) (omega arith)) c.3
        (omega arith) in
    record {
      numbered = r.numbered ∙ (omega arith);
      has_bytes = r.has_bytes;
      starts_in = r.starts_in;
    }

module _ {s : Shm} {es : List Index} (v : Inv s es) where
  abbrev before : ℕ
  before = s.last_seq - length es

  -- The entry with sequence number `k + 1` stands at `k % index_cnt`.
  pub oldest-eq : oldest s ≡ (s.last_seq - length es) % s.index_cnt
  oldest-eq =
      ap (λ h. (h + s.index_free) % s.index_cnt) v.place
      ∙ mod-add-mod s.last_seq s.index_cnt s.index_free
      ∙ ap (λ t. t % s.index_cnt) whole
      ∙ add-mod_right before s.index_cnt
    where
      whole : s.last_seq + s.index_free ≡ before + s.index_cnt
      whole = omega (arith, v.used, v.counted)

  pub place-eq : (j : ℕ) → (oldest s + j) % s.index_cnt ≡ (s.last_seq - length es + j) % s.index_cnt
  place-eq j = ap (λ h. (h + j) % s.index_cnt) oldest-eq ∙ mod-add-mod before s.index_cnt j

  pub entry_at :
      (j : ℕ)
      → j < length es
      → get_or s.index ((oldest s + j) % s.index_cnt) no_index ≡ get_or es j no_index
  entry_at j h =
      sym (
        get_or-window no_index s.index_cnt s.index (oldest s) (length es) j
          (mod-lt (s.index_head + s.index_free) (omega (arith, v.head_in))) h)
      ∙ ap (λ l. get_or l j no_index) v.in_use

  pub get_or-IsEntry :
      (j : ℕ)
      → j < length es
      → IsEntry s.data_size (s.last_seq - length es + j + 1) (get_or es j no_index)
  get_or-IsEntry j h =
      Chain-IsEntry s.data_size before (oldest_byte s) es j
        (mod-lt (s.data_head + s.data_free) (omega (arith, v.data_head_in))) v.chain h

  oldest_in : oldest s < s.index_cnt
  oldest_in = mod-lt (s.index_head + s.index_free) (omega (arith, v.head_in))

  -- Any place of the index array, counted from the oldest entry.
  pub place_from_oldest :
      (p : ℕ) → p < s.index_cnt → (j : ℕ) × (j < s.index_cnt) × ((oldest s + j) % s.index_cnt ≡ p)
  place_from_oldest p h = elim (dec_lt p (oldest s)) [
    | no after ↦ (
      p - oldest s,
      omega arith,
      omega (arith, mod-cases (oldest s) (p - oldest s) s.index_cnt oldest_in (omega arith)),
    )
    | yes round ↦ (
      p + s.index_cnt - oldest s,
      omega (arith, oldest_in),
      omega (
        arith,
        oldest_in,
        mod-cases (oldest s) (p + s.index_cnt - oldest s) s.index_cnt oldest_in
            (omega (arith, oldest_in)),
      ),
    )
  ]

  -- Past the entries in use all are empty.
  pub entry_past :
      (j : ℕ)
      → length es ≤ j
      → j < s.index_cnt
      → get_or s.index ((oldest s + j) % s.index_cnt) no_index ≡ no_index
  entry_past j lo hi =
      ap (λ p. get_or s.index p no_index) from_head
      ∙ sym (
          get_or-window no_index s.index_cnt s.index s.index_head s.index_free (j - length es)
            v.head_in (omega (arith, v.used)))
      ∙ ap (λ l. get_or l (j - length es) no_index) v.unused
      ∙ get_or-replicate s.index_free (j - length es) no_index
    where
      whole : s.index_free + j ≡ j - length es + s.index_cnt
      whole = omega (arith, v.used)

      from_head : (oldest s + j) % s.index_cnt ≡ (s.index_head + (j - length es)) % s.index_cnt
      from_head =
          mod-shift s.index_head s.index_free j s.index_cnt
          ∙ ap (λ t. (s.index_head + t) % s.index_cnt) whole
          ∙ ap (λ t. t % s.index_cnt) (sym (add_assoc s.index_head (j - length es) s.index_cnt))
          ∙ add-mod_right (s.index_head + (j - length es)) s.index_cnt
