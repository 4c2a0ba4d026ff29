-- ===== src/Achd/Transport/Push.antt =====
-- The loop of achd_push_tcp in src/achd/transport.c, over messages that the channel gives.
use mathlib.Core.Path.{subst}
use mathlib.Core.List.{append-nil}
use ach.Base.{
  take_front, ℕ, ◌+◌, ◌<◌, ◌^◌, ◌≡◌, refl, sym, ap, ◌∙◌, Bool, true, false, List, [], ◌∷◌, ◌++◌,
  map, length, take, drop, Exec, done, Stop, arith, lt→ltb,
}
use ach.Shm.{Status, ok, overflow, missed_frame, canceled}
use ach.Pipe.{Frame, set_size, set_bytes, get_size, pipe_alloc, pipe_magic}
use ach.Pipe.Size.{get_size-set_size}
use ach.Achd.Io.{achd_write, wrote_all}
use ach.Achd.Io.Whole.{taken, is_calm, achd_write-whole}
use ach.Achd.Transport.{
  Conn, GetBack, sent, after, Attempt, PushRound, enlarge, take_result, filled, and_get, get_frame,
  send_frame, frame_out, frame_bytes, and_pushed, and_send, push_tcp,
}
use ach.Achd.Transport.Pull.{head_of}

-- what ach_get returns for a message: the buffer may be too small at first, or the wait be canceled
abbrev GiveStep : Status → GetBack → (size : ℕ) → (msg : List ℕ) → (rest : ℕ → Type 0) → Type 0
GiveStep overflow g size msg rest = (size < g.frame_size) × rest g.frame_size
GiveStep canceled g size msg rest = rest size
GiveStep ok g size msg rest = (g.frame_size ≡ length msg) × (g.bytes ≡ msg)
GiveStep missed_frame g size msg rest = (g.frame_size ≡ length msg) × (g.bytes ≡ msg)
GiveStep _ g size msg rest = true ≡ false

abbrev pub Gives : (size : ℕ) → List GetBack → (msg : List ℕ) → Type 0
Gives size [] msg = true ≡ false
Gives size (g ∷ gs) msg = (g.sig ≡ false) × GiveStep g.status g size msg (λ s. Gives s gs msg)

abbrev size_step : Status → (frame_size size : ℕ) → (rest : ℕ → ℕ) → ℕ
size_step overflow frame_size size rest = rest frame_size
size_step ok frame_size size rest = size
size_step missed_frame frame_size size rest = size
size_step _ frame_size size rest = rest size

-- the size of the frame after that
abbrev pub size_after : (size : ℕ) → List GetBack → ℕ
size_after size [] = size
size_after size (g ∷ gs) = size_step g.status g.frame_size size (λ s. size_after s gs)

-- The frame holds the message.
pub record IsFull (msg : List ℕ) (f : Frame) : Type 0 where
  pub magic : f.magic ≡ pipe_magic
  pub size : f.size_bytes ≡ set_bytes 8 0 (length msg)
  pub rest : List ℕ
  pub bytes : f.bytes ≡ msg ++ rest

pipe_alloc-magic : (memory : List ℕ) (size : ℕ) → (pipe_alloc memory size).magic ≡ pipe_magic
unfolding pipe_alloc set_size
pipe_alloc-magic memory size = refl

module _ (malloc : ℕ → List ℕ) where
  abbrev Full : List GetBack → List ℕ → (size : ℕ) → Exec (Conn × Bool) → Type 0
  Full gs msg size r =
      (c : Conn) × (r ≡ done (c, false)) × (c.pipeframe_size ≡ size) × IsFull msg c.pipeframe

  filled-IsFull :
      (g : GetBack) (msg : List ℕ) (c : Conn)
      → c.pipeframe.magic ≡ pipe_magic
      → g.frame_size ≡ length msg
      → g.bytes ≡ msg
      → IsFull msg (filled malloc g c).pipeframe
  unfolding set_size
  filled-IsFull g msg c m s b = record {
    magic = m;
    size = ap (set_bytes 8 0) s;
    rest = drop (length g.bytes) c.pipeframe.bytes;
    bytes = ap (λ x. x ++ drop (length g.bytes) c.pipeframe.bytes) b;
  }

  get_step :
      (st : Status) (g : GetBack) (gs : List GetBack) (msg : List ℕ) (c : Conn)
      → c.pipeframe.magic ≡ pipe_magic
      → GiveStep st g c.pipeframe_size msg (λ s. Gives s gs msg)
      → ((c' : Conn)
          → c'.pipeframe.magic ≡ pipe_magic
          → Gives c'.pipeframe_size gs msg
          → Full gs msg (size_after c'.pipeframe_size gs) (get_frame malloc gs c'))
      → Full gs msg
          (size_step st g.frame_size c.pipeframe_size (λ s. size_after s gs))
          (and_get malloc false (take_result malloc st g c) (get_frame malloc gs))
  unfolding take_result enlarge
  get_step overflow g gs msg c m (l, h) next = rw (lt→ltb c.pipeframe_size g.frame_size l) (
      next
        (record c {
          pipeframe_size = g.frame_size;
          pipeframe = pipe_alloc (malloc g.frame_size) g.frame_size;
        })
        (pipe_alloc-magic (malloc g.frame_size) g.frame_size) h)
  get_step ok g gs msg c m (s, b) next = (_, refl, refl, filled-IsFull g msg c m s b)
  get_step missed_frame g gs msg c m (s, b) next = (_, refl, refl, filled-IsFull g msg c m s b)
  get_step canceled g gs msg c m h next = next c m h
  get_step _ g gs msg c m h next = cc h

  get_frame-Full :
      (gs : List GetBack) (msg : List ℕ) (c : Conn)
      → c.pipeframe.magic ≡ pipe_magic
      → Gives c.pipeframe_size gs msg
      → Full gs msg (size_after c.pipeframe_size gs) (get_frame malloc gs c)
  unfolding get_frame
  get_frame-Full [] msg c m h = cc
  get_frame-Full (g ∷ gs) msg c m (s, h) =
      subst
        (λ b.
          Full gs msg (size_step g.status g.frame_size c.pipeframe_size (λ k. size_after k gs))
            (and_get malloc b (take_result malloc g.status g c) (get_frame malloc gs)))
        (sym s) (get_step g.status g gs msg c m h (λ c' m' h'. get_frame-Full gs msg c' m' h'))

-- the frame of a message, as it goes out
abbrev pub frame_of : List ℕ → List ℕ
frame_of msg = head_of msg ++ msg

frame_of-length : (msg : List ℕ) → 16 + length msg ≡ length (frame_of msg)
unfolding set_bytes
frame_of-length msg = omega arith

-- The channel gives the message, and the first attempt writes its frame whole, in any pieces.
abbrev pub Forwards : (size : ℕ) → PushRound → List ℕ → Type 0
Forwards size r msg =
    Gives size r.gets msg
    × (length msg < 2 ^ 32)
    × (a : Attempt) × (as_ : List Attempt) × (r.attempts ≡ a ∷ as_)
    × (is_calm a.writes ≡ true)
    × (taken a.writes ≡ 16 + length msg)

abbrev pub AllForward : (size : ℕ) → List PushRound → List (List ℕ) → Type 0
AllForward size [] [] = Unit {0}
AllForward size (r ∷ rs) (msg ∷ msgs) =
    Forwards size r msg × AllForward (size_after size r.gets) rs msgs
AllForward _ _ _ = true ≡ false

module _ (shl : ℕ → ℕ → ℕ) (malloc : ℕ → List ℕ) (err : Status → Stop) (reconnect : Bool)
    (zeros : (n : ℕ) → shl 0 n ≡ 0) where
  pub frame_out-full :
      (msg : List ℕ) (c : Frame)
      → length msg < 2 ^ 32
      → IsFull msg c
      → frame_out shl malloc err reconnect c ≡ frame_of msg
  unfolding set_bytes set_size
  frame_out-full msg c l f =
      ap (λ x. take (16 + get_size shl c) x) laid
      ∙ ap (λ n. take (16 + n) (frame_of msg ++ f.rest)) known
      ∙ ap (λ n. take n (frame_of msg ++ f.rest)) (frame_of-length msg)
      ∙ take_front (frame_of msg) f.rest
    where
      laid : frame_bytes c ≡ frame_of msg ++ f.rest
      laid =
          ap (λ x. x ++ (c.size_bytes ++ c.bytes)) f.magic
          ∙ ap (λ x. pipe_magic ++ (x ++ c.bytes)) f.size
          ∙ ap (λ x. pipe_magic ++ (set_bytes 8 0 (length msg) ++ x)) f.bytes

      known : get_size shl c ≡ length msg
      known =
          ap (λ x. get_size shl (record c { size_bytes = x })) f.size
          ∙ get_size-set_size shl c (length msg) zeros l

  send_frame-first :
      (bytes : List ℕ) (a : Attempt) (as_ : List Attempt) (attempts : List Attempt)
      → attempts ≡ a ∷ as_
      → is_calm a.writes ≡ true
      → taken a.writes ≡ length bytes
      → send_frame reconnect bytes false attempts ≡ record {
        events = sent bytes ∷ [];
        end = done (record { sent_frame = true; sig = false });
      }
  unfolding send_frame
  send_frame-first bytes a as_ attempts e q t =
      ap (send_frame reconnect bytes false) e ∙ rw (send_frame, went)
    where
      went :
          achd_write bytes [] false a.writes
          ≡ done (record { end = wrote_all; out = bytes; sig = false })
      went =
          ap (achd_write bytes [] false) (sym (append-nil a.writes))
          ∙ achd_write-whole bytes [] a.writes [] q t

  push_round :
      (r : PushRound) (rs : List PushRound) (msg : List ℕ) (c : Conn)
      → c.pipeframe.magic ≡ pipe_magic
      → Forwards c.pipeframe_size r msg
      → (c' : Conn) × (push_tcp shl malloc err reconnect (r ∷ rs) false c
          ≡ after (sent (frame_of msg) ∷ []) (push_tcp shl malloc err reconnect rs false c'))
        × (c'.pipeframe_size ≡ size_after c.pipeframe_size r.gets)
        × (c'.pipeframe.magic ≡ pipe_magic)
  unfolding push_tcp
  push_round r rs msg c m (g, l, a, as_, e, q, t) =
      let (c', got, size, full) = get_frame-Full malloc r.gets msg c m g in
      let out = frame_out-full msg c'.pipeframe l full in
      (
        c',
        (ap
              (λ x.
                and_send shl malloc err reconnect r.attempts x
                  (push_tcp shl malloc err reconnect rs))
              got
            ∙ ap
                (λ x.
                  and_pushed shl malloc err reconnect c' x (push_tcp shl malloc err reconnect rs))
                (ap (λ b. send_frame reconnect b false r.attempts) out
                  ∙ send_frame-first (frame_of msg) a as_ r.attempts e q
                      (t ∙ frame_of-length msg))),
        size,
        full.magic,
      )

  -- If shifting 0 gives 0, the frame's magic is set, and for each message in turn ach_get
  -- gives it (after results that say the buffer is too small or the wait was canceled, and
  -- with no signal) and the first attempt's calls of write take its frame whole, in any
  -- pieces, then achd_push_tcp sends the frames of the messages in order, with no message
  -- lost, and goes on with what comes later.
  pub push_tcp-frames :
      (msgs : List (List ℕ)) (rounds later : List PushRound) (c : Conn)
      → c.pipeframe.magic ≡ pipe_magic
      → AllForward c.pipeframe_size rounds msgs
      → (c' : Conn) × (push_tcp shl malloc err reconnect (rounds ++ later) false c
          ≡ after
              (map (λ msg. sent (frame_of msg)) msgs)
              (push_tcp shl malloc err reconnect later false c'))
  push_tcp-frames [] [] later c m h = (c, refl)
  push_tcp-frames (msg ∷ msgs) [] later c m h = cc
  push_tcp-frames [] (r ∷ rounds) later c m h = cc
  push_tcp-frames (msg ∷ msgs) (r ∷ rounds) later c m (h, hs) =
      let (c₁, first, size, magic) = push_round r (rounds ++ later) msg c m h in
      let (c₂, rest) =
        push_tcp-frames msgs rounds later c₁ magic
          (subst (λ n. AllForward n rounds msgs) (sym size) hs) in
      (c₂, first ∙ ap (after (sent (frame_of msg) ∷ [])) rest)
