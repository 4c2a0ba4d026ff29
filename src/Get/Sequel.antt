-- ===== src/Get/Sequel.antt =====
-- `ach_put`, then `ach_get`, and one `ach_get` after the other.
use ach.Base.{
  ℕ, suc, ◌+◌, ◌-◌, ◌%◌, ◌≤◌, ◌<◌, ◌≡◌, refl, sym, ap, ◌∙◌, Bool, true, false, List, [], ◌∷◌, ◌++◌,
  length, get_or, Exec, done, arith, ne→==, ◌||◌, ◌==◌,
}
use ach.Log.{Log, target, message, is_stale, store, newest_within, first}
use ach.Shm.{ok, Shm, Index, Channel}
use ach.Shm.View.{view, Ready, CanRead, length-frames}
use ach.Sync.{Os, success, Wakeup}
use ach.Sync.Discipline.{takes}
use ach.Sync.Results.{lock_calls}
use ach.Put.{PutResult}
use ach.Put.Refine.{Stored}
use ach.Get.{get, o_last, o_copy}
use native.Mathlib.Nat.{mod-lt}
use ach.Get.Fetch.{fetch, deliver, after_read}
use ach.Get.Refine.{got, get-now}

get_or-last : (ms : List (List ℕ)) (m : List ℕ) → get_or (ms ++ (m ∷ [])) (length ms) [] ≡ m
get_or-last [] m = refl
get_or-last (x ∷ ms) m = get_or-last ms m

length-snoc : (ms : List (List ℕ)) (m : List ℕ) → length (ms ++ (m ∷ [])) ≡ suc (length ms)
length-snoc [] m = refl
length-snoc (x ∷ ms) m = ap suc (length-snoc ms m)

-- the newest message of a log is the one stored last
message-store :
    (cnt size : ℕ) (m : List ℕ) (g : Log)
    → length (store cnt size m g).messages ≤ g.last + 1
    → message (store cnt size m g) (g.last + 1) ≡ m
message-store cnt size m g counted =
    ap (λ k. get_or (kept ++ (m ∷ [])) k []) at_end ∙ get_or-last kept m
  where
    kept : List (List ℕ)
    kept = newest_within (cnt - 1) (size - length m) g.messages

    at_end : g.last + 1 - first (store cnt size m g) ≡ length kept
    at_end = omega (arith, length-snoc kept m)

fetch-deliver :
    (g : Log) (cnt : ℕ) (chan : Channel) (options : ℕ) (buf : List ℕ) (size : ℕ)
    → is_stale g chan.seq_num (o_copy options) ≡ false
    → fetch g cnt chan options buf size
      ≡ deliver chan cnt
          (target g chan.seq_num (o_last options))
          (message g (target g chan.seq_num (o_last options)))
          buf
          size
fetch-deliver g cnt chan options buf size e = rw (e)

target-last :
    (g : Log) (l seq : ℕ) (newest : Bool)
    → g.last ≡ l + 1
    → seq ≤ l
    → (newest || (seq == l)) ≡ true
    → first g ≤ l + 1
    → target g seq newest ≡ l + 1
target-last g l seq true e h d f = e
target-last g l seq false e h d f = rw (ne→== seq g.last (omega arith)) (ground arith)

-- A reader that has seen all that was there before, or asks for the newest, is next given what was stored last.
fetch-store :
    (g : Log) (cnt room : ℕ) (m : List ℕ) (chan : Channel) (options : ℕ) (buf : List ℕ) (size : ℕ)
    → length (store cnt room m g).messages ≤ g.last + 1
    → chan.seq_num ≤ g.last
    → (o_last options || (chan.seq_num == g.last)) ≡ true
    → fetch (store cnt room m g) cnt chan options buf size
      ≡ deliver chan cnt (g.last + 1) m buf size
fetch-store g cnt room m chan options buf size counted seen due =
    fetch-deliver (store cnt room m g) cnt chan options buf size fresh
    ∙ (ap (λ n. deliver chan cnt n (message (store cnt room m g) n) buf size) chosen
        ∙ ap (λ b. deliver chan cnt (g.last + 1) b buf size) (message-store cnt room m g counted))
  where
    first_in : first (store cnt room m g) ≤ g.last + 1
    first_in = omega (arith, length-snoc (newest_within (cnt - 1) (room - length m) g.messages) m)

    fresh : is_stale (store cnt room m g) chan.seq_num (o_copy options) ≡ false
    fresh =
        rw (ne→== chan.seq_num (g.last + 1) (omega arith), ne→== (g.last + 1) 0 (omega arith)) refl

    chosen : target (store cnt room m g) chan.seq_num (o_last options) ≡ g.last + 1
    chosen =
        target-last (store cnt room m g) g.last chan.seq_num (o_last options) refl seen due first_in

-- After a successful ach_put of m to a ready channel, an ach_get through a handle that had seen
-- all messages before, or with ACH_O_LAST, delivers m and its number, or only its size if the
-- buffer is too small. The handle is one that may be used and is not canceled, and the mutex can
-- be taken and released.
pub get-put :
    (os : Os) (chan : Channel) {s : Shm} {es : List Index} {w : Os} {m : List ℕ}
    {r : Exec PutResult} (p : Stored s es w m r) (buf : List ℕ) (size : ℕ) (timed : Bool)
    (options : ℕ) (wakes : List Wakeup)
    → CanRead s chan
    → (o_last options || (chan.seq_num == s.last_seq)) ≡ true
    → takes os.locked ≡ true
    → os.unlocked ≡ success
    → chan.cancel ≡ false
    → size ≤ length buf
    → get os chan p.last buf size timed options wakes
      ≡ done (
          got
            (deliver chan s.index_cnt (s.last_seq + 1) m buf size)
            (record { status = ok; chan = chan; shm = p.last; calls = lock_calls os.locked ++ [] }))
get-put os chan {s} {es} {w} {m} p buf size timed options wakes c due hl hu running room =
    get-now os chan p.last buf size timed options wakes p.ready after hl hu running
      (λ w. omega (arith, c.seen, number)) room
    ∙ ap
        (λ f. done (
          got f (record {
            status = ok;
            chan = chan;
            shm = p.last;
            calls = lock_calls os.locked ++ [];
          })))
        (ap (λ g. fetch g p.last.index_cnt chan options buf size) p.stored
          ∙ ap (λ n. fetch (store s.index_cnt s.data_size m (view s es)) n chan options buf size)
              p.index_cnt
          ∙ fetch-store (view s es) s.index_cnt s.data_size m chan options buf size counted c.seen
              due)
  where
    number : p.last.last_seq ≡ s.last_seq + 1
    number = ap (λ (g : Log). g.last) p.stored

    counted : length (store s.index_cnt s.data_size m (view s es)).messages ≤ s.last_seq + 1
    counted = omega (
      arith,
      ap (λ (g : Log). length g.messages) p.stored,
      length-frames p.last p.entries,
      p.ready.inv.counted,
      number,
    )

    after : CanRead p.last chan
    after = record {
      seen = omega (arith, c.seen, number);
      hint_in = omega (arith, c.hint_in, p.index_cnt);
      hint = λ n. c.hint n ∙ ap (λ k. chan.seq_num % k) (sym p.index_cnt);
    }

target-next : (g : Log) (seq : ℕ) → seq < g.last → first g ≤ seq + 1 → target g seq false ≡ seq + 1
target-next g seq h f = rw (ne→== seq g.last (omega arith)) (ground arith)

-- On a ready channel that still holds the message after the last one that the handle has seen,
-- with a handle that may be used and is not canceled and a mutex that can be taken and released,
-- ach_get without ACH_O_LAST delivers exactly that next message (or its size if the buffer is
-- too small), and the handle moved on to it may be used for the next ach_get.
pub get-next :
    (os : Os) (chan : Channel) {s : Shm} {es : List Index} (buf : List ℕ) (size : ℕ) (timed : Bool)
    (options : ℕ) (wakes : List Wakeup)
    → Ready s es
    → CanRead s chan
    → chan.seq_num < s.last_seq
    → first (view s es) ≤ chan.seq_num + 1
    → o_last options ≡ false
    → takes os.locked ≡ true
    → os.unlocked ≡ success
    → chan.cancel ≡ false
    → size ≤ length buf
    → (get os chan s buf size timed options wakes
        ≡ done (
            got
              (deliver chan s.index_cnt
                (chan.seq_num + 1)
                (message (view s es) (chan.seq_num + 1))
                buf
                size)
              (record { status = ok; chan = chan; shm = s; calls = lock_calls os.locked ++ [] })))
      × CanRead s (after_read chan s.index_cnt (chan.seq_num + 1))
get-next os chan {s} {es} buf size timed options wakes v c unseen held next hl hu running room = (
  get-now os chan s buf size timed options wakes v c hl hu running (λ w. omega (arith, unseen)) room
      ∙ ap
          (λ f. done (
            got f
              (record { status = ok; chan = chan; shm = s; calls = lock_calls os.locked ++ [] })))
          (fetch-deliver (view s es) s.index_cnt chan options buf size fresh
            ∙ ap (λ n. deliver chan s.index_cnt n (message (view s es) n) buf size) chosen),
  record {
    seen = omega (arith, unseen);
    hint_in = mod-lt (chan.seq_num + 1) (omega (arith, v.inv.head_in));
    hint = λ _. refl;
  },
)
  where
    fresh : is_stale (view s es) chan.seq_num (o_copy options) ≡ false
    fresh =
        rw
          (
            ne→== chan.seq_num s.last_seq (omega (arith, unseen)),
            ne→== s.last_seq 0 (omega (arith, unseen)),
          )
          refl

    chosen : target (view s es) chan.seq_num (o_last options) ≡ chan.seq_num + 1
    chosen =
        ap (target (view s es) chan.seq_num) next ∙ target-next (view s es) chan.seq_num unseen held
