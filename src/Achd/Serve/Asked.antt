-- ===== src/Achd/Serve/Asked.antt =====
-- A server of src/achd/achd.c that is asked by a client for a channel over TCP.
use mathlib.Core.List.{append-nil}
use ach.Base.{
  ℕ, ◌<◌, ◌≡◌, refl, sym, ap, ◌∙◌, ◌⊎◌, Bool, true, false, Option, some, List, [], length, done,
  arith,
}
use ach.Shm.{Status, ok, Shm}
use ach.Achd.Io.Whole.{taken, is_calm}
use ach.Achd.Words.{codes, all}
use ach.Achd.Headers.{Direction, void, push, pull, no_headers, parse_headers, error_header}
use ach.Achd.Headers.Lines.{is_value}
use ach.Achd.Greeting.{
  Vtab, find_vtab, get_vtab, connect_nop, push_tcp, pull_tcp, unlines, request_lines, reply_lines,
}
use ach.Achd.Greeting.Asked.{LinesDeliver, requested, served_direction, request-read}
use ach.Achd.Client.{UdpSock, connect}
use ach.Achd.Client.Channel.{printf-whole}
use ach.Achd.Serve.{Request, check_request, open_for, conn_of, answer, achd_serve}

-- the row of `handlers` for a client with this direction
abbrev pub serving_row : Direction → Vtab
serving_row pull = record {
  transport = "tcp";
  direction = push;
  connect = connect_nop;
  handler = push_tcp;
}
serving_row _ = record {
  transport = "tcp";
  direction = pull;
  connect = connect_nop;
  handler = pull_tcp;
}

get_vtab-served :
    (d : Direction)
    → get_vtab error_header (some (codes "tcp")) (served_direction d) ≡ done (serving_row d)
unfolding get_vtab find_vtab
get_vtab-served pull = refl
get_vtab-served push = refl
get_vtab-served void = refl

check_request-served :
    (chan : List ℕ) (n l : ℕ) (d : Direction)
    → check_request (requested chan (codes "tcp") n l d no_headers) ≡ done chan
unfolding check_request
check_request-served chan n l pull = refl
check_request-served chan n l push = refl
check_request-served chan n l void = refl

open_for-ok :
    (open_channel : List ℕ → Status × Shm) (name : List ℕ) (shm : Shm)
    → open_channel name ≡ (ok, shm)
    → open_for open_channel name ≡ done shm
unfolding open_for
open_for-ok open_channel name shm e = rw (open_for, e) (ap (λ x. done x.1) e)

connect-served :
    (print_int : ℕ → List ℕ) (u : UdpSock) (d : Direction)
    → connect (serving_row d).connect error_header print_int false u ≡ done ([], false)
unfolding connect
connect-served print_int u pull = refl
connect-served print_int u push = refl
connect-served print_int u void = refl

module _ (strtol strtoul : List ℕ → Option ℕ) (signed : Bool)
    (print_ul print_int print_size : ℕ → List ℕ) (malloc : ℕ → List ℕ) where
  answer-served :
      (r : Request) (chan : List ℕ) (n l : ℕ) (d : Direction) (shm : Shm)
      → r.open_channel chan ≡ (ok, shm)
      → is_calm r.writes ≡ true
      → taken r.writes ≡ length (unlines (reply_lines print_size shm))
      → answer strtol strtoul signed print_int print_size malloc r false
          (requested chan (codes "tcp") n l d no_headers)
        ≡ done (record {
          chan_name = chan;
          vtab = serving_row d;
          conn = conn_of malloc (requested chan (codes "tcp") n l d no_headers) shm;
          sent = unlines (reply_lines print_size shm);
          sig = false;
        })
  unfolding answer
  answer-served r chan n l d shm o q t = rw (
    check_request-served chan n l d,
    open_for-ok r.open_channel chan shm o,
    get_vtab-served d,
    connect-served print_int r.udp d,
    printf-whole (unlines (reply_lines print_size shm)) r.writes q t,
  )

  -- If the peer has a name, the lines of a client's request for a channel over TCP arrive (the
  -- name and the printed period short and of characters that headers can hold, strtoul reading
  -- the period back, get_last 0 or 1 and printed so), ach_open opens the channel, and the
  -- calls of write take the answer whole, then achd_serve opens the channel asked for, sends
  -- the answer for it, and is ready to serve it over TCP in the direction opposite to the
  -- client's.
  pub achd_serve-serves :
      (r : Request) (chan : List ℕ) (n l : ℕ) (d : Direction) (shm : Shm)
      → r.peer_known ≡ true
      → LinesDeliver r.lines (request_lines print_ul print_int chan (codes "tcp") n l d)
      → all is_value chan ≡ true
      → length chan < 1000
      → all is_value (print_ul n) ≡ true
      → length (print_ul n) < 1000
      → strtoul (print_ul n) ≡ some n
      → ((l ≡ 0) × (print_int l ≡ codes "0")) ⊎ ((l ≡ 1) × (print_int l ≡ codes "1"))
      → r.open_channel chan ≡ (ok, shm)
      → is_calm r.writes ≡ true
      → taken r.writes ≡ length (unlines (reply_lines print_size shm))
      → achd_serve strtol strtoul signed print_int print_size malloc r
        ≡ done (record {
          chan_name = chan;
          vtab = serving_row d;
          conn = conn_of malloc (requested chan (codes "tcp") n l d no_headers) shm;
          sent = unlines (reply_lines print_size shm);
          sig = false;
        })
  unfolding achd_serve
  achd_serve-serves r chan n l d shm k i c lc p lp e g o q t =
      rw (k, came) (answer-served r chan n l d shm o q t)
    where
      came :
          parse_headers error_header strtol strtoul signed false r.lines no_headers
          ≡ done (ok, (requested chan (codes "tcp") n l d no_headers, false))
      came =
          ap (λ x. parse_headers error_header strtol strtoul signed false x no_headers)
            (sym (append-nil r.lines))
          ∙ request-read error_header strtol strtoul signed print_ul print_int chan (codes "tcp") n
              l d r.lines [] no_headers c lc refl (omega arith) p lp e g i
