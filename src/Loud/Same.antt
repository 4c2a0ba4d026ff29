-- ===== src/Loud/Same.antt =====
-- Printing changes nothing: the loud variants do and return what the others do.
use ach.Base.{
  ℕ, zero, suc, ◌%◌, ◌≡◌, refl, ap, ◌∙◌, not, ◌||◌, Option, none, some, List, ltb, leb, ◌==◌, Exec,
  done, stop, ◌>>=◌, assert, add64, sub64, Bool-cases, inl, inr,
}
use ach.Shm.{Shm, Channel, free_index, check_guards, oldest_index_i}
use ach.Sync.{Os, is_ok, is_success, wrlock, unwrlock}
use ach.Put.{put, put_frame, clear_head, clear_overlapping, copy_in, check_counts}
use ach.Loud.{
  unwrlock_loud, clear_head_loud, clear_overlapping_loud, copy_in_loud, check_counts_loud,
  put_frame_loud, put_loud,
}

pub bind-same {ℓ κ} :
    {A : Type ℓ} {B : Type κ} (m : Exec A) {f g : A → Exec B}
    → ((a : A) → f a ≡ g a)
    → (m >>= f) ≡ (m >>= g)
bind-same (done a) h = h a
bind-same (stop x) h = refl

pub bind-cong {ℓ κ} :
    {A : Type ℓ} {B : Type κ} {m n : Exec A} {f g : A → Exec B}
    → m ≡ n
    → ((a : A) → f a ≡ g a)
    → (m >>= f) ≡ (n >>= g)
bind-cong {m = m} {f = f} e h = ap (λ k. k >>= f) e ∙ bind-same _ h

unwrlock_loud-eq : (os : Os) (s : Shm) → (unwrlock_loud os s).result ≡ unwrlock os s
unfolding unwrlock_loud unwrlock
unwrlock_loud-eq os s = elim (Bool-cases (is_success os.unlocked)) [
  | inr a ↦ rw (a)
  | inl a ↦ elim (Bool-cases (is_success os.broadcasted)) [ inr b ↦ rw (a, b) | inl b ↦ rw (a, b) ]
]

clear_head_loud-eq : (s : Shm) → (clear_head_loud s).result ≡ clear_head s
unfolding clear_head_loud clear_head
clear_head_loud-eq s = elim (Bool-cases (s.index_free == 0)) [ inl a ↦ rw (a) | inr a ↦ rw (a) ]

copy_in_loud-eq :
    (s : Shm) (buf : List ℕ) (len : ℕ) → (copy_in_loud s buf len).result ≡ copy_in s buf len
unfolding copy_in_loud copy_in
copy_in_loud-eq s buf len = elim (Bool-cases (leb len (sub64 s.data_size s.data_head))) [
  | inl a ↦ rw (a)
  | inr a ↦ rw (a)
]

clear_overlapping_loud-eq :
    (fuel : ℕ) (s : Shm) (len i print_iter : ℕ)
    → (clear_overlapping_loud fuel s len i print_iter).result ≡ clear_overlapping fuel s len i
unfolding clear_overlapping_loud clear_overlapping
clear_overlapping_loud-eq zero s len i n = refl
clear_overlapping_loud-eq (suc fuel) s len i n = elim (Bool-cases (ltb s.data_free len)) [
  | inr a ↦ rw (clear_overlapping_loud, clear_overlapping, a)
  | inl a ↦
      rw (clear_overlapping_loud, clear_overlapping, a)
        (bind-same (assert (not (i == s.index_head))) (λ _.
          bind-same (free_index s i)
            (λ t. clear_overlapping_loud-eq fuel t len (add64 i 1 % t.index_cnt) (suc n))))
]

put_frame_loud-eq :
    (s : Shm) (buf : List ℕ) (len : ℕ) → (put_frame_loud s buf len).result ≡ put_frame s buf len
unfolding put_frame_loud put_frame check_counts_loud check_counts
put_frame_loud-eq s buf len = bind-cong (clear_head_loud-eq s) (λ s₁.
    bind-same (assert (ltb 0 s₁.index_free)) (λ _.
      bind-cong (clear_overlapping_loud-eq (suc s₁.index_cnt) s₁ len (oldest_index_i s₁) 1) (λ s₂.
        bind-same (assert (leb len s₂.data_free))
          (λ _. bind-cong (copy_in_loud-eq s₂ buf len) (λ d. refl)))))

-- On all arguments and result codes, ach_put_loud makes the same calls, leaves the same memory
-- and returns the same status as ach_put, and stops where ach_put stops.
pub put_loud-eq-put :
    (os : Os) (chan : Channel) (s : Shm) (buf : Option (List ℕ)) (len : ℕ)
    → (put_loud os chan s buf len).result ≡ put os chan s buf len
unfolding put_loud put
put_loud-eq-put os chan s none len = refl
put_loud-eq-put os chan s (some buf) len = elim (Bool-cases ((len == 0) || not chan.mapped)) [
  | inl invalid ↦ rw (put_loud, put, invalid)
  | inr valid ↦ elim (Bool-cases (is_ok (check_guards s))) [
    | inr broken ↦ rw (put_loud, put, valid, broken)
    | inl guarded ↦ elim (Bool-cases (ltb s.data_size len)) [
      | inl large ↦ rw (put_loud, put, valid, guarded, large)
      | inr fits ↦
          rw (put_loud, put, valid, guarded, fits)
            (bind-same (wrlock os.locked s) (λ (r, s₁, cs).
              bind-cong (put_frame_loud-eq s₁ buf len)
                (λ s₂. bind-cong (unwrlock_loud-eq os s₂) (λ (r', s₃, ds). refl))))
    ]
  ]
]
