-- ===== src/Achd/Udp/Pull.antt =====
-- The loop of achd_pull_udp in src/achd/transport.c: whose packets are put.
use mathlib.Core.Path.{subst}
use ach.Base.{
  take_front, ℕ, ◌<◌, ◌≤◌, ◌^◌, ◌≡◌, refl, sym, ap, ◌∙◌, Bool, true, false, Option, List, [], ◌∷◌,
  ◌++◌, map, length, take, take-nil, drop, suc, zero, if◌then◌else◌, done, Stop, arith, Bool-cases,
  inl, inr,
}
use ach.Shm.{Status, ok}
use ach.Pipe.{set_size}
use ach.Pipe.Size.{get_size-set_size}
use ach.Achd.Transport.{Conn, message, Run, after, with_data, put_frame}
use ach.Achd.Udp.{
  Address, PollCall, polled, udp_poll, WaitStep, wait_ready, RecvCall, received, recv_packet,
  same_address, UdpPull, and_waited, and_put_packet, with_packet, and_received, pull_udp,
}

-- The event is there at once, and a packet that fits; ach_put would return ACH_OK.
abbrev pub Arrives : (size : ℕ) → UdpPull → (packet : List ℕ × Address) → Type 0
Arrives size r (bytes, from) =
    (found : Option Address) × (polls : List PollCall) × (ws : List WaitStep) × (rest : List
      RecvCall)
    × (r.waits ≡ record { polls = polled true false false ∷ polls; peer = found } ∷ ws)
    × (r.receives ≡ received bytes from false ∷ rest)
    × (length bytes ≤ size)
    × (length bytes < 2 ^ 32)
    × (r.put ≡ ok)

abbrev pub AllArrive : (size : ℕ) → List UdpPull → List (List ℕ × Address) → Type 0
AllArrive size [] [] = Unit {0}
AllArrive size (r ∷ rs) (p ∷ ps) = Arrives size r p × AllArrive size rs ps
AllArrive size _ _ = true ≡ false

-- the packets that this peer has sent
abbrev pub from_peer : Address → List (List ℕ × Address) → List (List ℕ)
from_peer peer [] = []
from_peer peer ((bytes, from) ∷ ps) =
    if same_address from peer then bytes ∷ from_peer peer ps else from_peer peer ps

take_fits : (n : ℕ) (xs : List ℕ) → length xs ≤ n → take n xs ≡ xs
take_fits n [] h = take-nil ℕ n
take_fits zero (x ∷ xs) h = absurd (omega arith)
take_fits (suc n) (x ∷ xs) h = ap (λ l. x ∷ l) (take_fits n xs (omega arith))

wait_ready-first :
    (err : Status → Stop) (reconnect : Bool) (found : Option Address) (polls : List PollCall)
    (ws waits : List WaitStep) (peer : Address)
    → waits ≡ record { polls = polled true false false ∷ polls; peer = found } ∷ ws
    → wait_ready err reconnect waits peer
      ≡ record { events = []; end = done (record { peer = peer; goes_on = true }) }
unfolding wait_ready udp_poll
wait_ready-first err reconnect found polls ws waits peer e =
    ap (λ w. wait_ready err reconnect w peer) e

recv_packet-first :
    (size : ℕ) (bytes : List ℕ) (from : Address) (rest calls : List RecvCall)
    → calls ≡ received bytes from false ∷ rest
    → length bytes ≤ size
    → recv_packet size calls
      ≡ done (record { size = length bytes; bytes = bytes; from = from; sig = false })
unfolding recv_packet
recv_packet-first size bytes from rest calls e l =
    ap (recv_packet size) e
    ∙ ap (λ b. done (record { size = length b; bytes = b; from = from; sig = false }))
        (take_fits size bytes l)

module _ (shl : ℕ → ℕ → ℕ) (malloc : ℕ → List ℕ) (err : Status → Stop) (reconnect : Bool)
    (zeros : (n : ℕ) → shl 0 n ≡ 0) where
  put_frame-packet :
      (bytes : List ℕ) (from : Address) (c : Conn)
      → length bytes < 2 ^ 32
      → put_frame shl malloc err reconnect ok false (
          with_packet shl malloc err reconnect
            (record { size = length bytes; bytes = bytes; from = from; sig = false })
            c)
        ≡ record { events = message bytes ∷ []; end = done tt }
  unfolding put_frame set_size
  put_frame-packet bytes from c l =
      ap (λ b. record { events = message b ∷ []; end = done tt })
        (ap (λ n. take n (bytes ++ drop (length bytes) c.pipeframe.bytes))
            (get_size-set_size shl (with_data bytes c).pipeframe (length bytes) zeros l)
          ∙ take_front bytes (drop (length bytes) c.pipeframe.bytes))

  -- a packet that is there
  after_packet :
      (bytes : List ℕ) (from peer : Address) (c : Conn) (next : Bool → Conn → Run Conn)
      → length bytes < 2 ^ 32
      → (c' : Conn) × (and_received shl malloc err reconnect ok peer c
            (done (record { size = length bytes; bytes = bytes; from = from; sig = false }))
            next
          ≡ after (map message (from_peer peer ((bytes, from) ∷ []))) (next false c'))
        × (c'.pipeframe_size ≡ c.pipeframe_size)
  after_packet bytes from peer c next l = elim (Bool-cases (same_address from peer)) [
    | inl same ↦ (
      with_packet shl malloc err reconnect
          (record { size = length bytes; bytes = bytes; from = from; sig = false }) c,
      rw (same) (
          ap
            (λ u. and_put_packet shl malloc err reconnect u (
              next false (
                with_packet shl malloc err reconnect
                  (record { size = length bytes; bytes = bytes; from = from; sig = false }) c)))
            (put_frame-packet bytes from c l)),
      refl,
    )
    | inr other ↦ (with_data bytes c, rw (other), refl)
  ]

  pull_round :
      (r : UdpPull) (rs : List UdpPull) (bytes : List ℕ) (from peer : Address) (c : Conn)
      → Arrives c.pipeframe_size r (bytes, from)
      → (c' : Conn) × (pull_udp shl malloc err reconnect (r ∷ rs) false peer c
          ≡ after
              (map message (from_peer peer ((bytes, from) ∷ [])))
              (pull_udp shl malloc err reconnect rs false peer c'))
        × (c'.pipeframe_size ≡ c.pipeframe_size)
  unfolding pull_udp
  pull_round r rs bytes from peer c (found, polls, ws, rest, w, v, l, small, p) =
      let (c', e, size) =
        after_packet bytes from peer c (λ s k. pull_udp shl malloc err reconnect rs s peer k)
          small in
      (
        c',
        ap
              (λ x. and_waited shl malloc err reconnect x c (λ peer'.
                and_received shl malloc err reconnect r.put peer' c
                  (recv_packet c.pipeframe_size r.receives)
                  (λ s k. pull_udp shl malloc err reconnect rs s peer' k)))
              (wait_ready-first err reconnect found polls ws r.waits peer w)
            ∙ ap
                (λ x.
                  and_received shl malloc err reconnect r.put peer c x
                    (λ s k. pull_udp shl malloc err reconnect rs s peer k))
                (recv_packet-first c.pipeframe_size bytes from rest r.receives v l)
            ∙ ap
                (λ x.
                  and_received shl malloc err reconnect x peer c
                    (done (record { size = length bytes; bytes = bytes; from = from; sig = false }))
                    (λ s k. pull_udp shl malloc err reconnect rs s peer k))
                p
            ∙ e,
        size,
      )

  after_from :
      (peer from : Address) (bytes : List ℕ) (ps : List (List ℕ × Address)) (x : Run Conn)
      → after
          (map message (from_peer peer ((bytes, from) ∷ [])))
          (after (map message (from_peer peer ps)) x)
        ≡ after (map message (from_peer peer ((bytes, from) ∷ ps))) x
  after_from peer from bytes ps x = elim (Bool-cases (same_address from peer)) [
    | inl same ↦ rw (same)
    | inr other ↦ rw (other)
  ]

  -- If shifting 0 gives 0, and in each round a packet of less than 2^32 bytes that fits in the
  -- buffer is there at once, with no signal, and ach_put would return ACH_OK, then
  -- achd_pull_udp puts the packets that the peer has sent, in order, and none of another
  -- sender's.
  pub pull_udp-from_peer :
      (ps : List (List ℕ × Address)) (rounds later : List UdpPull) (peer : Address) (c : Conn)
      → AllArrive c.pipeframe_size rounds ps
      → (c' : Conn) × (pull_udp shl malloc err reconnect (rounds ++ later) false peer c
          ≡ after
              (map message (from_peer peer ps))
              (pull_udp shl malloc err reconnect later false peer c'))
  pull_udp-from_peer [] [] later peer c h = (c, refl)
  pull_udp-from_peer (p ∷ ps) [] later peer c h = cc
  pull_udp-from_peer [] (r ∷ rounds) later peer c h = cc
  pull_udp-from_peer ((bytes, from) ∷ ps) (r ∷ rounds) later peer c (h, hs) =
      let (c₁, round, size) = pull_round r (rounds ++ later) bytes from peer c h in
      let (c₂, rest) =
        pull_udp-from_peer ps rounds later peer c₁
          (subst (λ n. AllArrive n rounds ps) (sym size) hs) in
      (
        c₂,
        round
            ∙ ap (after (map message (from_peer peer ((bytes, from) ∷ [])))) rest
            ∙ after_from peer from bytes ps (pull_udp shl malloc err reconnect later false peer c₂),
      )
