-- ===== src/Achpipe/Subscribe/Sent.antt =====
-- What `subscribe` of src/achpipe-bin.c sends when it pushes messages: the frames of the channel's
-- messages, in order; and what `publish` makes of them on another channel.
use mathlib.Core.Path.{subst}
use mathlib.Core.List.{append_assoc, append-nil}
use ach.Base.{
  ℕ, ◌+◌, ◌<◌, ◌≤◌, ◌^◌, ◌≡◌, refl, sym, ap, ◌∙◌, true, false, List, [], ◌∷◌, ◌++◌, length, Exec,
  done,
}
use ach.Shm.{Shm, Index, Channel, ok}
use ach.Shm.View.{Ready}
use ach.Sync.{Os, success}
use ach.Sync.Discipline.{takes}
use ach.Get.Flush.{flush-flushed}
use ach.Pipe.{set_size, pipe_alloc, pipe_magic}
use ach.Achd.Transport.Push.{frame_of}
use ach.Achpipe.{left_loop}
use ach.Achpipe.Publish.{frames_of}
use ach.Achpipe.Subscribe.{
  GetTurn, SubTurn, Subscribing, Subscribed, send_message, subscribe_round, subscribe_loop,
  subscribe,
}
use ach.Achpipe.Subscribe.Message.{
  pushes, IsHandle, HasNext, read_message-HasGot, send_message-frame,
}

-- In a round without a signal the next message is `m` when ach_get is called, and still is if it is called
-- again; and the frame is written whole.
abbrev pub Sends : (cnt seq : ℕ) → SubTurn → (m : List ℕ) → Type 0
Sends cnt seq t m =
    (t.sig ≡ false)
    × (length m < 2 ^ 32)
    × (t.written ≡ 16 + length m)
    × (t.flushed ≡ true)
    × (g : GetTurn) × (g' : GetTurn) × (gs : List GetTurn) × (t.gets ≡ g ∷ (g' ∷ gs))
    × HasNext cnt seq m g
    × HasNext cnt seq m g'

abbrev pub AllSend : (cnt seq : ℕ) → List SubTurn → List (List ℕ) → Type 0
AllSend cnt seq [] [] = Unit {0}
AllSend cnt seq (t ∷ ts) (m ∷ ms) = Sends cnt seq t m × AllSend cnt (seq + 1) ts ms
AllSend cnt seq _ _ = true ≡ false

-- what stays true of the frame from round to round
record IsRoomy (p : Subscribing) : Type 0 where
  magic : p.frame.magic ≡ pipe_magic
  room : p.max ≤ length p.frame.bytes

module _ (shl : ℕ → ℕ → ℕ) (malloc : ℕ → List ℕ) (zeros : (n : ℕ) → shl 0 n ≡ 0)
    (allocates : (n : ℕ) → n ≤ length (malloc n)) where
  subscribe_round-sent :
      (cnt : ℕ) (m : List ℕ) (t : SubTurn) (p : Subscribing) (next : Subscribing → Exec Subscribed)
      → IsHandle cnt p.chan
      → IsRoomy p
      → Sends cnt p.chan.seq_num t m
      → (q : Subscribing) × (subscribe_round shl malloc pushes t p next ≡ next q)
        × IsHandle cnt q.chan
        × IsRoomy q
        × (q.chan.seq_num ≡ p.chan.seq_num + 1)
        × (q.output ≡ p.output ++ frame_of m)
  unfolding subscribe_round
  subscribe_round-sent cnt m t p next u r (s, small, w, fl, g, g', gs, e, h, h') =
      let (q, got_it, k) =
        read_message-HasGot shl malloc zeros allocates cnt m g g' gs p
          (λ x. send_message shl malloc pushes t x next) u h h' r.magic r.room in
      (
        record q { output = q.output ++ frame_of m; t0 = false },
        rw (subscribe_round, s, e, got_it)
            (send_message-frame shl malloc zeros allocates m t q next k.full small w fl),
        k.handle,
        record { magic = k.full.magic; room = k.room },
        k.seq_num,
        ap (λ x. x ++ frame_of m) k.output,
      )

  subscribe_loop-sent :
      (cnt : ℕ) (ms : List (List ℕ)) (ts later : List SubTurn) (t : SubTurn) (p : Subscribing)
      → IsHandle cnt p.chan
      → IsRoomy p
      → AllSend cnt p.chan.seq_num ts ms
      → t.sig ≡ true
      → subscribe_loop shl malloc pushes (ts ++ (t ∷ later)) p
        ≡ done (record { end = left_loop; output = p.output ++ frames_of ms })
  unfolding subscribe_loop subscribe_round
  subscribe_loop-sent cnt [] [] later t p u r h s =
      rw (subscribe_loop, s)
        (ap (λ x. done (record { end = left_loop; output = x })) (sym (append-nil p.output)))
  subscribe_loop-sent cnt (m ∷ ms) [] later t p u r h s = cc
  subscribe_loop-sent cnt [] (x ∷ ts) later t p u r h s = cc
  subscribe_loop-sent cnt (m ∷ ms) (x ∷ ts) later t p u r (h, hs) s =
      let (q, e, u', r', n, o) =
        subscribe_round-sent cnt m x p (subscribe_loop shl malloc pushes (ts ++ (t ∷ later))) u r
          h in
      e
      ∙ subscribe_loop-sent cnt ms ts later t q u' r' (subst (λ k. AllSend cnt k ts ms) (sym n) hs)
          s
      ∙ ap (λ k. done (record { end = left_loop; output = k }))
          (ap (λ k. k ++ frames_of ms) o ∙ append_assoc p.output (frame_of m) (frames_of ms))

  -- If shifting 0 gives 0 and malloc gives as many bytes as are asked for, a channel is ready,
  -- the handle is not canceled and the mutex can be taken and released, neither -c, -l nor -f
  -- is given, and in each round without a signal the next message in turn is there when
  -- ach_get is called (and still is if it is called again for a larger buffer), is shorter
  -- than 2^32 bytes and goes out whole, then subscribe flushes the channel and sends exactly
  -- the frames of these messages in order until a signal comes, and ends its loop.
  pub subscribe-frames :
      (ms : List (List ℕ)) (ts later : List SubTurn) (t : SubTurn) (os : Os) (chan : Channel)
      (s : Shm) (es : List Index) (input : List ℕ)
      → Ready s es
      → takes os.locked ≡ true
      → os.unlocked ≡ success
      → chan.cancel ≡ false
      → AllSend s.index_cnt s.last_seq ts ms
      → t.sig ≡ true
      → subscribe shl malloc pushes ok os chan s input (ts ++ (t ∷ later))
        ≡ done (record { end = left_loop; output = frames_of ms })
  unfolding subscribe pipe_alloc set_size
  subscribe-frames ms ts later t os chan s es input v hl hu running h sig =
      rw (subscribe, flush-flushed os chan v hl hu running)
        (subscribe_loop-sent s.index_cnt ms ts later t _ (running, v.inv.head_in, λ _. v.inv.place)
          (record { magic = refl; room = allocates 512 }) h sig)
