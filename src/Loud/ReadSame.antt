-- ===== src/Loud/ReadSame.antt =====
-- Printing changes nothing in `rdlock_loud` and `ach_get_loud` either.
use ach.Base.{
  ℕ, ◌≡◌, refl, ap, Bool, true, false, not, ◌&&◌, ◌||◌, List, [], ◌∷◌, leb, ◌==◌, Exec, done,
  assert, add64, if◌then◌else◌, Bool-cases, Option-cases, inl, inr,
}
use ach.Shm.{Shm, Channel, check_guards, load_index}
use ach.Sync.{
  Os, Code, Wakeup, is_ok, chan_lock, check_lock, rdlock, rdlock_loop, rdlock_test, unrdlock,
  after_calls, map_done,
}
use ach.Get.{get, read_frame, read_index, o_wait, o_last, o_copy}
use ach.Loud.{Loud, map_loud, say, quiet}
use ach.Loud.Same.{bind-same, bind-cong}
use ach.Loud.Read.{
  rdlock_test_loud, rdlock_loop_loud, rdlock_loud, read_index_loud, read_frame_loud, get_loud,
}

rdlock_test_loud-eq :
    (wants_wait : Bool) (c : Channel) (s : Shm)
    → (rdlock_test_loud wants_wait c s).result ≡ done (rdlock_test wants_wait c s)
unfolding rdlock_test_loud rdlock_test
rdlock_test_loud-eq wants_wait c s = elim (Bool-cases c.cancel) [
  | inl a ↦ rw (a)
  | inr a ↦ elim (Bool-cases wants_wait) [
    | inr b ↦ rw (a, b)
    | inl b ↦ elim (Bool-cases (c.seq_num == s.last_seq)) [
      | inl d ↦ rw (a, b, d)
      | inr d ↦ rw (a, b, d)
    ]
  ]
]

if-eq {ℓ} :
    {A : Type ℓ} (b : Bool) (f : A → A) (m : Loud A) (n x : Exec A)
    → m.result ≡ n
    → (if b then map_loud f m else say 6 5 (quiet x)).result ≡ (if b then map_done f n else x)
if-eq true f m n x e = ap (map_done f) e
if-eq false f m n x e = refl

rdlock_loop_loud-eq :
    (wants_wait timed : Bool) (c : Channel) (s : Shm) (ws : List Wakeup)
    → (rdlock_loop_loud wants_wait timed c s ws).result ≡ rdlock_loop wants_wait timed c s ws
unfolding rdlock_loop_loud rdlock_loop
rdlock_loop_loud-eq wants_wait timed c s [] = elim (Option-cases (rdlock_test wants_wait c s)) [
  | inl a ↦ rw (rdlock_loop_loud, rdlock_loop, rdlock_test_loud-eq wants_wait c s, a)
  | inr ((r, cs), a) ↦ rw (rdlock_loop_loud, rdlock_loop, rdlock_test_loud-eq wants_wait c s, a)
]
rdlock_loop_loud-eq wants_wait timed c s (w ∷ ws) =
    elim (Option-cases (rdlock_test wants_wait c s)) [
      | inr ((r, cs), a) ↦ rw (rdlock_loop_loud, rdlock_loop, rdlock_test_loud-eq wants_wait c s, a)
      | inl a ↦
          rw (rdlock_loop_loud, rdlock_loop, rdlock_test_loud-eq wants_wait c s, a)
            (if-eq (is_ok (check_lock w.code w.shm true).0) _ _ _ _
              (rdlock_loop_loud-eq wants_wait timed (record c { cancel = w.cancel }) w.shm ws))
    ]

rdlock_loud-eq :
    (i : Code) (wants_wait timed : Bool) (c : Channel) (s : Shm) (ws : List Wakeup)
    → (rdlock_loud i wants_wait timed c s ws).result ≡ rdlock i wants_wait timed c s ws
unfolding rdlock_loud rdlock
rdlock_loud-eq i wants_wait timed c s ws = elim (Bool-cases (is_ok (chan_lock i s).0)) [
  | inr a ↦ rw (a)
  | inl a ↦
      rw (a) (
        ap (map_done (after_calls (chan_lock i s).1)) (rdlock_loop_loud-eq wants_wait timed c s ws))
]

read_index_loud-eq :
    (chan : Channel) (s : Shm) (last copy : Bool)
    → (read_index_loud chan s last copy).result ≡ read_index chan s last copy
unfolding read_index_loud read_index
read_index_loud-eq chan s true copy = refl
read_index_loud-eq chan s false copy = bind-same (load_index s chan.next_index) (λ next.
    elim (Bool-cases (next.seq_num == add64 chan.seq_num 1)) [
      | inl a ↦ rw (a)
      | inr a ↦ elim (Bool-cases (chan.seq_num == s.last_seq)) [
        | inl b ↦ rw (a, b)
        | inr b ↦ rw (a, b)
      ]
    ])

read_frame_loud-eq :
    (chan : Channel) (s : Shm) (options : ℕ) (buf : List ℕ) (size : ℕ)
    → (read_frame_loud chan s options buf size).result ≡ read_frame chan s options buf size
unfolding read_frame_loud read_frame
read_frame_loud-eq chan s options buf size = bind-same (assert (leb chan.seq_num s.last_seq)) (λ _.
    elim (Bool-cases
      (((chan.seq_num == s.last_seq) && not (o_copy options)) || (s.last_seq == 0))) [
        | inl a ↦ rw (a)
        | inr a ↦
            rw (a)
              (bind-cong (read_index_loud-eq chan s (o_last options) (o_copy options)) (λ i. refl))
      ])

-- On all arguments, result codes and returns of the condition wait, ach_get_loud makes the same
-- calls, leaves the same handle and buffer and returns the same status as ach_get, and stops
-- where ach_get stops.
pub get_loud-eq-get :
    (os : Os) (chan : Channel) (s : Shm) (buf : List ℕ) (size : ℕ) (timed : Bool) (options : ℕ)
    (wakes : List Wakeup)
    → (get_loud os chan s buf size timed options wakes).result
      ≡ get os chan s buf size timed options wakes
unfolding get_loud get
get_loud-eq-get os chan s buf size timed options wakes =
    elim (Bool-cases (is_ok (check_guards s))) [
      | inr broken ↦ rw (broken)
      | inl guarded ↦ rw (guarded) (
          bind-cong (rdlock_loud-eq os.locked (o_wait options) timed chan s wakes) (λ l.
            elim (Bool-cases (is_ok l.status)) [
              | inr refused ↦ rw (refused)
              | inl granted ↦ rw (granted) (
                  bind-cong (read_frame_loud-eq l.chan l.shm options buf size) (λ r.
                    bind-same (unrdlock os l.shm)
                      (λ (u, cs). elim (Bool-cases (is_ok u)) [ inl a ↦ rw (a) | inr a ↦ rw (a) ])))
            ]))
    ]
