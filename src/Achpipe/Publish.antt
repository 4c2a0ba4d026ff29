-- ===== src/Achpipe/Publish.antt =====
-- What `publish` of src/achpipe-bin.c makes of a stream of frames: the messages are stored in the log.
use mathlib.Core.Path.{subst}
use mathlib.Core.List.{append_assoc}
use ach.Base.{
  take_front, drop_front, ℕ, ◌+◌, ◌<◌, ◌≤◌, ◌^◌, ◌≡◌, refl, sym, ap, ◌∙◌, true, false, some, List,
  [], ◌∷◌, ◌++◌, length, length-append, take, drop, ◌==◌, Exec, done, arith, eq→==, ne→==,
  length-take, Bool-cases, inl, inr, word,
}
use ach.Log.{Log, store}
use ach.Shm.{Shm, Index, Channel, ok}
use ach.Shm.View.{Ready, view}
use ach.Sync.{success}
use ach.Sync.Discipline.{takes}
use ach.Put.{put}
use ach.Put.Refine.{Stored, put-Stored}
use ach.Pipe.{set_size, set_bytes, get_size}
use ach.Pipe.Size.{get_size-set_size}
use ach.Achd.Transport.{with_head}
use ach.Achd.Transport.Pull.{head_of}
use ach.Achd.Transport.Push.{frame_of}
use ach.Achpipe.{
  PutTurn, Publishing, Published, left_loop, grow, read_data, put_data, publish_data, read_head,
  publish_round, publish_loop, publish,
}

-- the frames of the messages, one after the other
abbrev pub frames_of : List (List ℕ) → List ℕ
frames_of [] = []
frames_of (m ∷ ms) = frame_of m ++ frames_of ms

-- the messages stored in order
abbrev pub store_all : (cnt size : ℕ) → List (List ℕ) → Log → Log
store_all cnt size [] g = g
store_all cnt size (m ∷ ms) g = store_all cnt size ms (store cnt size m g)

-- No signal comes, no other process changes the channel, and the mutex can be taken and released.
abbrev pub IsQuiet : PutTurn → Type 0
IsQuiet t =
    (t.sig ≡ false)
    × ((s : Shm) → t.others s ≡ s)
    × (takes t.os.locked ≡ true)
    × (t.os.unlocked ≡ success)
    × (t.os.broadcasted ≡ success)

-- Each message fits in the channel, and its length in the frame's size; and its round is quiet.
abbrev pub AllPut : (size : ℕ) → List PutTurn → List (List ℕ) → Type 0
AllPut size [] [] = Unit {0}
AllPut size (t ∷ ts) (m ∷ ms) =
    (IsQuiet t × (0 < length m) × (length m ≤ size) × (length m < 2 ^ 32)) × AllPut size ts ms
AllPut size _ _ = true ≡ false

-- A channel on which a message has been stored, and the bytes after its frame.
record After (msg rest : List ℕ) (s : Shm) (es : List Index) (q : Publishing) : Type 0 where
  entries : List Index
  ready : Ready q.shm entries
  stored : view q.shm entries ≡ store s.index_cnt s.data_size msg (view s es)
  index_cnt : q.shm.index_cnt ≡ s.index_cnt
  data_size : q.shm.data_size ≡ s.data_size
  input : q.input ≡ rest

module _ (shl : ℕ → ℕ → ℕ) (malloc : ℕ → List ℕ) (chan : Channel) (zeros : (n : ℕ) → shl 0 n ≡ 0)
    (mapped : chan.mapped ≡ true) where
  put_data-After :
      (t : PutTurn) (msg rest old : List ℕ) (p : Publishing) (es : List Index)
      (next : Publishing → Exec Published)
      → IsQuiet t
      → Ready p.shm es
      → 0 < length msg
      → length msg ≤ p.shm.data_size
      → p.shm.last_seq + 2 < word
      → p.frame.bytes ≡ msg ++ old
      → p.input ≡ rest
      → (q : Publishing) × (put_data shl malloc chan t (length msg) p next ≡ next q)
        × After msg rest p.shm es q
  unfolding put_data
  put_data-After t msg rest old p es next (s, same, k, u, b) v some_bytes fits wrap e i = (
    record p { shm = w.last },
    rw (same p.shm, w.ends),
    record {
      entries = w.entries;
      ready = w.ready;
      stored = w.stored ∙ ap (λ m. store p.shm.index_cnt p.shm.data_size m (view p.shm es)) taken;
      index_cnt = w.index_cnt;
      data_size = w.data_size;
      input = i;
    },
  )
    where
      taken : take (length msg) p.frame.bytes ≡ msg
      taken = ap (take (length msg)) e ∙ take_front msg old

      w :
          Stored p.shm es t.os
            (take (length msg) p.frame.bytes)
            (put t.os chan p.shm (some p.frame.bytes) (length msg))
      w =
          put-Stored t.os chan p.frame.bytes (length msg) v mapped k u b
            (omega (arith, ap length e, length-append msg old)) some_bytes fits wrap

  grow-shm : (cnt : ℕ) (p : Publishing) → (grow shl malloc chan cnt p).shm ≡ p.shm
  unfolding grow
  grow-shm cnt p = ground arith

  grow-input : (cnt : ℕ) (p : Publishing) → (grow shl malloc chan cnt p).input ≡ p.input
  unfolding grow
  grow-input cnt p = ground arith

  -- the data of the frame follow
  publish_data-After :
      (t : PutTurn) (msg rest : List ℕ) (p : Publishing) (es : List Index)
      (next : Publishing → Exec Published)
      → IsQuiet t
      → Ready p.shm es
      → 0 < length msg
      → length msg ≤ p.shm.data_size
      → p.shm.last_seq + 2 < word
      → p.input ≡ msg ++ rest
      → (q : Publishing) × (publish_data shl malloc chan t (length msg) p next ≡ next q)
        × After msg rest p.shm es q
  unfolding publish_data
  publish_data-After t msg rest p es next quiet v some_bytes fits wrap i =
      let (q, e, a) =
        put_data-After t msg rest (drop (length (take (length msg) p'.input)) p'.frame.bytes)
          (read_data shl malloc chan (length msg) p') es next quiet
          (subst (λ s. Ready s es) (sym (grow-shm (length msg) p)) v) some_bytes
          (omega (arith, fits, ap (λ (s : Shm). s.data_size) (grow-shm (length msg) p)))
          (omega (arith, wrap, ap (λ (s : Shm). s.last_seq) (grow-shm (length msg) p)))
          (ap (λ x. x ++ drop (length (take (length msg) p'.input)) p'.frame.bytes) taken)
          (ap (drop (length msg)) i' ∙ drop_front msg rest) in
      (
        q,
        rw (publish_data, whole) e,
        subst (λ s. After msg rest s es q) (grow-shm (length msg) p) a,
      )
    where
      p' : Publishing
      p' = grow shl malloc chan (length msg) p

      i' : p'.input ≡ msg ++ rest
      i' = grow-input (length msg) p ∙ i

      taken : take (length msg) p'.input ≡ msg
      taken = ap (take (length msg)) i' ∙ take_front msg rest

      whole : (length (take (length msg) p.input) == length msg) ≡ true
      whole =
          eq→== (length (take (length msg) p.input)) (length msg)
            (ap length (ap (take (length msg)) i ∙ take_front msg rest))

  -- a frame follows
  publish_round-After :
      (t : PutTurn) (msg rest : List ℕ) (p : Publishing) (es : List Index)
      (next : Publishing → Exec Published)
      → IsQuiet t
      → Ready p.shm es
      → 0 < length msg
      → length msg ≤ p.shm.data_size
      → length msg < 2 ^ 32
      → p.shm.last_seq + 2 < word
      → p.input ≡ frame_of msg ++ rest
      → (q : Publishing) × (publish_round shl malloc chan t p next ≡ next q)
        × After msg rest p.shm es q
  unfolding publish_round set_bytes set_size
  publish_round-After t msg rest p es next (s, same, k, u, b) v some_bytes fits small wrap i =
      let (q, e, a) =
        publish_data-After t msg rest (read_head shl malloc chan p) es next (s, same, k, u, b) v
          some_bytes fits wrap (ap (drop 16) i) in
      (q, rw (publish_round, s, ap (λ x. length (take 16 x)) i, ap (take 8) i, known) e, a)
    where
      known : get_size shl (read_head shl malloc chan p).frame ≡ length msg
      known =
          ap (λ x. get_size shl (with_head (take 16 x) p.frame)) i
          ∙ get_size-set_size shl (with_head (head_of msg) p.frame) (length msg) zeros small

  -- fewer bytes than a head: the loop is left
  publish_round-end :
      (t : PutTurn) (p : Publishing) (next : Publishing → Exec Published)
      → length p.input < 16
      → publish_round shl malloc chan t p next ≡ done (record { end = left_loop; shm = p.shm })
  unfolding publish_round
  publish_round-end t p next l = elim (Bool-cases t.sig) [
    | inl e ↦ rw (publish_round, e)
    | inr e ↦ rw (
      publish_round,
      e,
      ne→== (length (take 16 p.input)) 16 (omega (arith, length-take 16 p.input)),
    )
  ]

  -- The messages are in the log.
  pub record AllStored (msgs : List (List ℕ)) (s : Shm) (es : List Index) (r : Exec Published)
      : Type 0 where
    pub last : Shm
    pub entries : List Index
    pub ends : r ≡ done (record { end = left_loop; shm = last })
    pub ready : Ready last entries
    pub stored : view last entries ≡ store_all s.index_cnt s.data_size msgs (view s es)

  publish_loop-AllStored :
      (msgs : List (List ℕ)) (ts later : List PutTurn) (t : PutTurn) (p : Publishing)
      (es : List Index) (rest : List ℕ)
      → Ready p.shm es
      → AllPut p.shm.data_size ts msgs
      → p.shm.last_seq + length msgs + 1 < word
      → length rest < 16
      → p.input ≡ frames_of msgs ++ rest
      → AllStored msgs p.shm es (publish_loop shl malloc chan (ts ++ (t ∷ later)) p)
  unfolding publish_loop
  publish_loop-AllStored [] [] later t p es rest v h wrap short i = record {
    last = p.shm;
    entries = es;
    ends =
        publish_round-end t p (publish_loop shl malloc chan later)
          (omega (arith, short, ap length i));
    ready = v;
    stored = refl;
  }
  publish_loop-AllStored (m ∷ ms) [] later t p es rest v h wrap short i = cc
  publish_loop-AllStored [] (q ∷ qs) later t p es rest v h wrap short i = cc
  publish_loop-AllStored (m ∷ ms) (u ∷ ts) later t p es rest v
        ((quiet, some_bytes, fits, small), hs) wrap short i =
      let (q, e, a) =
        publish_round-After u m (frames_of ms ++ rest) p es
          (publish_loop shl malloc chan (ts ++ (t ∷ later))) quiet v some_bytes fits small
          (omega (arith, wrap)) (i ∙ append_assoc (frame_of m) (frames_of ms) rest) in
      let w =
        publish_loop-AllStored ms ts later t q a.entries rest a.ready
          (subst (λ n. AllPut n ts ms) (sym a.data_size) hs)
          (omega (arith, wrap, ap (λ (g : Log). g.last) a.stored)) short a.input in
      record {
        last = w.last;
        entries = w.entries;
        ends = e ∙ w.ends;
        ready = w.ready;
        stored =
            w.stored
            ∙ ap (λ n. store_all n q.shm.data_size ms (view q.shm a.entries)) a.index_cnt
            ∙ ap (λ n. store_all p.shm.index_cnt n ms (view q.shm a.entries)) a.data_size
            ∙ ap (store_all p.shm.index_cnt p.shm.data_size ms) a.stored;
      }

  pub publish-AllStored :
      (msgs : List (List ℕ)) (ts later : List PutTurn) (t : PutTurn) (s : Shm) (es : List Index)
      (rest : List ℕ)
      → Ready s es
      → AllPut s.data_size ts msgs
      → s.last_seq + length msgs + 1 < word
      → length rest < 16
      → AllStored msgs s es
          (publish shl malloc chan ok s (frames_of msgs ++ rest) (ts ++ (t ∷ later)))
  unfolding publish
  publish-AllStored msgs ts later t s es rest v h wrap short =
      publish_loop-AllStored msgs ts later t _ es rest v h wrap short refl
