-- ===== src/Tests/Tools.antt =====
-- achpipe and achchand at small inputs.
use ach.Base.{
  ℕ, ◌+◌, ◌≤◌, ◌≡◌, refl, true, false, List, [], ◌∷◌, ◌++◌, length, take, replicate,
  length-replicate, arith, done, stop, out_of_bounds,
}
use ach.Shm.{ok}
use ach.Achd.Words.{codes}
use ach.Achpipe.{PutTurn, left_loop, publish}
use ach.Achpipe.Publish.{AllStored, frames_of}
use ach.Achpipe.Relay.{subscribe-publish}
use ach.Achpipe.Subscribe.{GetTurn, SubTurn, subscribe}
use ach.Achpipe.Subscribe.Message.{pushes, HasNext}
use ach.Achpipe.Subscribe.Sent.{subscribe-frames}
use ach.Achchand.{Slot, ctrl_conn, action_of, read_slot}
use ach.Achchand.Command.{talking}
use ach.Achchand.Talk.{Talked, read_slot-Talked, read_slot-blank}
use ach.Tests.Watch.{x86_shl, zeros_shifted}
use ach.Tests.{
  one_message, one_entry, wrapped, wrapped_entry, handle, all_well, one_message-Ready,
  wrapped-Ready,
}

abbrev pub zeros : ℕ → List ℕ
zeros n = replicate n 0

zeros-long : (n : ℕ) → n ≤ length (zeros n)
zeros-long n = omega (arith, length-replicate {A = ℕ} n 0)

-- the message after the one that the handle has read
abbrev second : List ℕ
second = 4 ∷ 5 ∷ []

abbrev get_second : GetTurn
get_second = record { shm = wrapped; os = all_well; wakes = [] }

get_second-HasNext : HasNext 2 1 second get_second
get_second-HasNext = record {
  entries = wrapped_entry;
  ready = wrapped-Ready;
  index_cnt = refl;
  unseen = omega arith;
  held = omega arith;
  is_next = refl;
  locks = refl;
  unlocks = refl;
}

abbrev send_second : SubTurn
send_second = record {
  sig = false;
  gets = get_second ∷ get_second ∷ [];
  written = 18;
  flushed = true;
}

abbrev end_sending : SubTurn
end_sending = record { sig = true; gets = []; written = 0; flushed = true }

subscribe-frames_example :
    subscribe x86_shl zeros pushes ok all_well handle one_message []
      (send_second ∷ end_sending ∷ [])
    ≡ done (record { end = left_loop; output = frames_of (second ∷ []) })
subscribe-frames_example =
    subscribe-frames x86_shl zeros zeros_shifted zeros-long (second ∷ []) (send_second ∷ []) []
      end_sending all_well handle one_message one_entry [] one_message-Ready refl refl refl
      (
        (
          refl,
          omega arith,
          refl,
          refl,
          get_second,
          get_second,
          [],
          refl,
          get_second-HasNext,
          get_second-HasNext,
        ),
        tt,
      )
      refl

abbrev put_turn : PutTurn
put_turn = record { sig = false; others = λ s. s; os = all_well }

subscribe-publish_example :
    (stream : List ℕ) × (subscribe x86_shl zeros pushes ok all_well handle one_message []
        (send_second ∷ end_sending ∷ [])
      ≡ done (record { end = left_loop; output = stream }))
    × AllStored x86_shl zeros handle zeros_shifted refl
        (second ∷ [])
        one_message
        one_entry
        (publish x86_shl zeros handle ok one_message stream (put_turn ∷ put_turn ∷ []))
subscribe-publish_example =
    subscribe-publish x86_shl zeros zeros_shifted zeros-long (second ∷ []) (send_second ∷ []) []
      end_sending all_well handle one_message one_entry [] (put_turn ∷ []) [] put_turn handle
      one_message one_entry refl one_message-Ready refl refl refl
      (
        (
          refl,
          omega arith,
          refl,
          refl,
          get_second,
          get_second,
          [],
          refl,
          get_second-HasNext,
          get_second-HasNext,
        ),
        tt,
      )
      refl one_message-Ready
      (((refl, (λ s. refl), refl, refl, refl), omega arith, omega arith, omega arith), tt)
      (omega arith)

-- the entry of a connection, with room for 40 bytes of output
abbrev connection : Slot
connection = record {
  fd = 7;
  events = record {
    pollin = true;
    pollout = false;
    pollerr = false;
    pollhup = false;
    pollnval = false;
  };
  revents = record {
    pollin = true;
    pollout = false;
    pollerr = false;
    pollhup = false;
    pollnval = false;
  };
  type = ctrl_conn;
  input = [];
  n_in = 0;
  max_in = 8;
  output = [];
  n_out = 0;
  max_out = 40;
}

-- a buffer that grows by eight bytes
abbrev read_more : (bytes buf : List ℕ) → (n max : ℕ) → List ℕ × ℕ
read_more bytes buf n max =
    let buf' : List ℕ = take n buf ++ (bytes ++ zeros 8) in (buf', n + length bytes + 8)

-- "HE" was there, and "LO\nx\ry" comes.
read_slot-Talked_example :
    Talked
      (record connection { max_in = 16 })
      (codes "y")
      (codes "elho\n" ++ codes "bad command\n")
      16
      (read_slot read_more
        (codes "LO\nx\ry")
        (talking connection (codes "HE" ++ zeros 6) 2 [] (zeros 40)))
unfolding action_of
read_slot-Talked_example =
    read_slot-Talked read_more (codes "HELO" ∷ codes "x" ∷ [])
      (codes "elho\n" ∷ codes "bad command\n" ∷ []) (codes "y") (codes "HE") (codes "LO\nx\ry")
      (zeros 6) (zeros 8) [] (zeros 40) connection refl (omega arith)
      (
        codes "LO",
        b'\n',
        codes "x\ry",
        refl,
        refl,
        refl,
        refl,
        (codes "x", b'\r', codes "y", refl, refl, refl, refl, (refl, refl)),
      )
      ((codes "HELO", refl, refl), ((codes "x", refl, refl), tt)) refl refl (omega arith)
      (omega arith) (omega arith)

read_slot-blank_example :
    read_slot read_more (codes " \n") (talking connection (codes " " ++ zeros 7) 1 [] (zeros 40))
    ≡ stop out_of_bounds
read_slot-blank_example =
    read_slot-blank read_more (codes "  ") (codes " ") (codes " ") [] (codes " \n") (zeros 7)
      (zeros 8) [] (zeros 40) b'\n' connection refl refl refl refl refl refl refl (omega arith)
