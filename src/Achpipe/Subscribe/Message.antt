-- ===== src/Achpipe/Subscribe/Message.antt =====
-- A message that `subscribe` of src/achpipe-bin.c gets, and sends.
use mathlib.Core.Path.{subst}
use ach.Base.{
  ℕ, ◌+◌, ◌<◌, ◌≤◌, ◌^◌, ◌%◌, ◌≡◌, ◌≢◌, refl, sym, ap, ◌∙◌, true, false, List, [], ◌∷◌, ◌++◌,
  length, take, drop, min, Exec, done, blocked, arith, dec_lt, lt→ltb, le→ltb, eq→==, length-append,
  length-drop,
}
use ach.Log.{message, first}
use ach.Shm.{Index, Channel, ok}
use ach.Shm.View.{Ready, view}
use ach.Sync.{success}
use ach.Sync.Discipline.{takes}
use ach.Sync.Results.{lock_calls}
use ach.Get.{get}
use ach.Get.Fetch.{deliver, after_read}
use ach.Get.Refine.{got}
use ach.Get.Sequel.{get-next}
use ach.Pipe.{get_size, set_size, pipe_alloc, pipe_magic}
use ach.Pipe.Size.{get_size-set_size}
use ach.Achd.Transport.{frame_bytes}
use ach.Achd.Transport.Push.{frame_of, IsFull, frame_out-full}
use ach.Achpipe.Subscribe.{
  SubOpts, GetTurn, SubTurn, Subscribing, Subscribed, sized, check_result, with_get, read_message,
  send_message,
}

-- Neither "-c", "-l" nor "-f" has been given.
abbrev pub pushes : SubOpts
pushes = record { sync = false; last = false; is_freq = false }

-- The handle is not canceled and can be used on a channel of `cnt` entries.
abbrev pub IsHandle : (cnt : ℕ) → Channel → Type 0
IsHandle cnt chan =
    (chan.cancel ≡ false)
    × (chan.next_index < cnt)
    × (chan.seq_num ≢ 0 → chan.next_index ≡ chan.seq_num % cnt)

-- When ach_get is called, the channel holds message `m` after number `seq`, and the mutex can be
-- taken and released.
pub record HasNext (cnt seq : ℕ) (m : List ℕ) (g : GetTurn) : Type 0 where
  pub entries : List Index
  pub ready : Ready g.shm entries
  pub index_cnt : g.shm.index_cnt ≡ cnt
  pub unseen : seq < g.shm.last_seq
  pub held : first (view g.shm entries) ≤ seq + 1
  pub is_next : message (view g.shm entries) (seq + 1) ≡ m
  pub locks : takes g.os.locked ≡ true
  pub unlocks : g.os.unlocked ≡ success

-- what ach_get gives of the next message
abbrev GetsNext : (cnt : ℕ) (m : List ℕ) → GetTurn → Channel → (buf : List ℕ) → (size : ℕ) → Type 0
GetsNext cnt m g chan buf size =
    get g.os chan g.shm buf size false 1 g.wakes
    ≡ done (
        got (deliver chan cnt (chan.seq_num + 1) m buf size)
          (record { status = ok; chan = chan; shm = g.shm; calls = lock_calls g.os.locked ++ [] }))

get-HasNext :
    (cnt : ℕ) (m : List ℕ) (g : GetTurn) (chan : Channel) (buf : List ℕ) (size : ℕ)
    → IsHandle cnt chan
    → HasNext cnt chan.seq_num m g
    → size ≤ length buf
    → GetsNext cnt m g chan buf size × IsHandle cnt (after_read chan cnt (chan.seq_num + 1))
get-HasNext cnt m g chan buf size (running, inside, hint) h room =
    let (e, c) =
      get-next g.os chan buf size false 1 g.wakes h.ready
        (record {
          seen = omega (arith, h.unseen);
          hint_in = omega (arith, inside, h.index_cnt);
          hint = λ n. hint n ∙ ap (λ k. chan.seq_num % k) (sym h.index_cnt);
        })
        h.unseen h.held refl h.locks h.unlocks running room in
    (
      e
          ∙ ap
              (λ k. done (
                got
                  (deliver chan k (chan.seq_num + 1)
                    (message (view g.shm h.entries) (chan.seq_num + 1)) buf size)
                  (record {
                    status = ok;
                    chan = chan;
                    shm = g.shm;
                    calls = lock_calls g.os.locked ++ [];
                  })))
              h.index_cnt
          ∙ ap
              (λ x. done (
                got (deliver chan cnt (chan.seq_num + 1) x buf size) (record {
                  status = ok;
                  chan = chan;
                  shm = g.shm;
                  calls = lock_calls g.os.locked ++ [];
                })))
              h.is_next,
      (
        running,
        subst (λ k. (chan.seq_num + 1) % k < cnt) h.index_cnt
            (subst (λ k. (chan.seq_num + 1) % g.shm.index_cnt < k) h.index_cnt c.hint_in),
        λ _. refl,
      ),
    )

-- What a round is once the message is in the frame.
pub record HasGot (cnt : ℕ) (m : List ℕ) (p q : Subscribing) : Type 0 where
  pub full : IsFull m q.frame
  pub room : q.max ≤ length q.frame.bytes
  pub handle : IsHandle cnt q.chan
  pub seq_num : q.chan.seq_num ≡ p.chan.seq_num + 1
  pub output : q.output ≡ p.output

module _ (shl : ℕ → ℕ → ℕ) (malloc : ℕ → List ℕ) (zeros : (n : ℕ) → shl 0 n ≡ 0)
    (allocates : (n : ℕ) → n ≤ length (malloc n)) where
  -- the frame is large enough
  read_message-fits :
      (cnt : ℕ) (m : List ℕ) (g : GetTurn) (gs : List GetTurn) (p : Subscribing)
      (next : Subscribing → Exec Subscribed)
      → IsHandle cnt p.chan
      → HasNext cnt p.chan.seq_num m g
      → p.frame.magic ≡ pipe_magic
      → p.max ≤ length p.frame.bytes
      → length m ≤ p.max
      → (q : Subscribing) × (read_message shl malloc pushes (g ∷ gs) 1 p next ≡ next q)
        × HasGot cnt m p q
  unfolding read_message check_result set_size
  read_message-fits cnt m g gs p next u h magic room fits =
      let (e, u') = get-HasNext cnt m g p.chan p.frame.bytes p.max u h room in
      (
        sized (length m) (
            with_get shl malloc pushes (after_read p.chan cnt (p.chan.seq_num + 1))
              (m ++ drop (length m) p.frame.bytes) p),
        rw (
          read_message,
          e,
          le→ltb p.max (length m) fits,
          le→ltb (p.chan.seq_num + 1) (p.chan.seq_num + 1) (omega arith),
        ),
        record {
          full = record {
            magic = magic;
            size = refl;
            rest = drop (length m) p.frame.bytes;
            bytes = refl;
          };
          room = omega (
            arith,
            room,
            fits,
            length-append m (drop (length m) p.frame.bytes),
            length-drop (length m) p.frame.bytes,
          );
          handle = u';
          seq_num = refl;
          output = refl;
        },
      )

  -- The message is got, if need be into a larger frame.
  pub read_message-HasGot :
      (cnt : ℕ) (m : List ℕ) (g g' : GetTurn) (gs : List GetTurn) (p : Subscribing)
      (next : Subscribing → Exec Subscribed)
      → IsHandle cnt p.chan
      → HasNext cnt p.chan.seq_num m g
      → HasNext cnt p.chan.seq_num m g'
      → p.frame.magic ≡ pipe_magic
      → p.max ≤ length p.frame.bytes
      → (q : Subscribing) × (read_message shl malloc pushes (g ∷ (g' ∷ gs)) 1 p next ≡ next q)
        × HasGot cnt m p q
  unfolding read_message check_result pipe_alloc set_size
  read_message-HasGot cnt m g g' gs p next u h h' magic room = elim (dec_lt p.max (length m)) [
    | no fits ↦ read_message-fits cnt m g (g' ∷ gs) p next u h magic room (omega arith)
    | yes l ↦
        let (q, e, k) =
          read_message-fits cnt m g' gs
            (record p { max = length m; frame = pipe_alloc (malloc (length m)) (length m) }) next u
            h' refl (allocates (length m)) (omega arith) in
        (
          q,
          rw
              (
                read_message,
                (get-HasNext cnt m g p.chan p.frame.bytes p.max u h room).0,
                lt→ltb p.max (length m) l,
                lt→ltb p.max (length m) l,
              )
              e,
          record {
            full = k.full;
            room = k.room;
            handle = k.handle;
            seq_num = k.seq_num;
            output = k.output;
          },
        )
  ]

  -- The frame goes out whole.
  pub send_message-frame :
      (m : List ℕ) (t : SubTurn) (p : Subscribing) (next : Subscribing → Exec Subscribed)
      → IsFull m p.frame
      → length m < 2 ^ 32
      → t.written ≡ 16 + length m
      → t.flushed ≡ true
      → send_message shl malloc pushes t p next
        ≡ next (record p { output = p.output ++ frame_of m; t0 = false })
  unfolding send_message set_size
  send_message-frame m t p next f small w fl =
      rw
        (
          send_message,
          fl,
          eq→== t.written (16 + get_size shl p.frame) (w ∙ ap (λ n. 16 + n) (sym known)),
        )
        (ap (λ x. next (record p { output = p.output ++ x; t0 = false }))
          (ap (λ n. take n (frame_bytes p.frame)) whole
            ∙ frame_out-full shl malloc (λ _. blocked) false zeros m p.frame small f))
    where
      known : get_size shl p.frame ≡ length m
      known =
          ap (λ x. get_size shl (record p.frame { size_bytes = x })) f.size
          ∙ get_size-set_size shl p.frame (length m) zeros small

      whole : min t.written (16 + get_size shl p.frame) ≡ 16 + get_size shl p.frame
      whole = omega (arith, w, known)
