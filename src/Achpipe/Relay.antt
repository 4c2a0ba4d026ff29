-- ===== src/Achpipe/Relay.antt =====
-- Two programs of src/achpipe-bin.c on the ends of a pipe: one subscribes to a channel, the other
-- publishes what it reads on another channel.
use mathlib.Core.List.{append-nil}
use mathlib.Core.Path.{subst}
use ach.Base.{ℕ, ◌+◌, ◌<◌, ◌≤◌, ◌≡◌, true, false, List, [], ◌∷◌, ◌++◌, length, done, word, arith}
use ach.Shm.{Shm, Index, Channel, ok}
use ach.Shm.View.{Ready}
use ach.Sync.{Os, success}
use ach.Sync.Discipline.{takes}
use ach.Achpipe.{PutTurn, left_loop, publish}
use ach.Achpipe.Publish.{AllPut, AllStored, frames_of, publish-AllStored}
use ach.Achpipe.Subscribe.{SubTurn, subscribe}
use ach.Achpipe.Subscribe.Message.{pushes}
use ach.Achpipe.Subscribe.Sent.{AllSend, subscribe-frames}

module _ (shl : ℕ → ℕ → ℕ) (malloc : ℕ → List ℕ) (zeros : (n : ℕ) → shl 0 n ≡ 0)
    (allocates : (n : ℕ) → n ≤ length (malloc n)) where
  -- If shifting 0 gives 0 and malloc gives as many bytes as are asked for, one achpipe
  -- subscribes to a ready channel with a handle that is not canceled (neither -c, -l nor -f
  -- given, ach_flush's mutex free), in each of its rounds the next message in turn is there
  -- when ach_get is called (and still is if it is called again for a larger buffer), is
  -- shorter than 2^32 bytes and goes out whole, and then a signal ends it; and a second
  -- achpipe publishes what the first has sent on another ready channel whose data area each
  -- message fits, no one else changing it, with free mutexes and sequence numbers below 2^64:
  -- then the first ends with a stream for which the second stores exactly these messages, in
  -- order, in its channel's log, ends its loop, and leaves the channel ready.
  pub subscribe-publish :
      (ms : List (List ℕ))
      -- the subscriber
      (gets later : List SubTurn) (last : SubTurn) (os : Os) (chan : Channel) (s : Shm)
      (es : List Index) (input : List ℕ)
      -- the publisher
      (puts puts_later : List PutTurn) (put_last : PutTurn) (chan' : Channel) (s' : Shm)
      (es' : List Index) (mapped : chan'.mapped ≡ true)
      → Ready s es
      → takes os.locked ≡ true
      → os.unlocked ≡ success
      → chan.cancel ≡ false
      → AllSend s.index_cnt s.last_seq gets ms
      → last.sig ≡ true
      → Ready s' es'
      → AllPut s'.data_size puts ms
      → s'.last_seq + length ms + 1 < word
      → (stream : List ℕ) × (subscribe shl malloc pushes ok os chan s input (gets ++ (last ∷ later))
          ≡ done (record { end = left_loop; output = stream }))
        × AllStored shl malloc chan' zeros mapped ms s' es'
            (publish shl malloc chan' ok s' stream (puts ++ (put_last ∷ puts_later)))
  subscribe-publish ms gets later last os chan s es input puts puts_later put_last chan' s' es'
        mapped v hl hu running h sig v' h' wrap =
      (
        frames_of ms,
        subscribe-frames shl malloc zeros allocates ms gets later last os chan s es input v hl hu
            running h sig,
        subst
            (λ x.
              AllStored shl malloc chan' zeros mapped ms s' es'
                (publish shl malloc chan' ok s' x (puts ++ (put_last ∷ puts_later))))
            (append-nil (frames_of ms))
            (publish-AllStored shl malloc chan' zeros mapped ms puts puts_later put_last s' es' []
              v' h' wrap (omega arith)),
      )
