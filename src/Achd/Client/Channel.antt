-- ===== src/Achd/Client/Channel.antt =====
-- The channel that a client of src/achd/client.c makes for itself.
use mathlib.Core.List.{append-nil}
use ach.Base.{
  ℕ, ◌/◌, ◌<◌, ◌^◌, ◌≡◌, ◌≢◌, sym, ap, ◌∙◌, Bool, true, false, Option, some, List, [], ◌∷◌, length,
  ltb, done, ◌>>=◌, ne→==, lt→ltb, Bool-cases, inl, inr,
}
use ach.Shm.{Shm, ok, enoent, bug}
use ach.Achd.Io.{ReadCall, WriteCall, achd_printf, achd_write, wrote_all, line_length}
use ach.Achd.Io.Whole.{taken, is_calm, achd_write-whole}
use ach.Achd.Words.{codes}
use ach.Achd.Headers.{Direction, Headers, status_number, parse_headers, error_log}
use ach.Achd.Greeting.{connect_nop, unlines, request_lines, reply_lines}
use ach.Achd.Greeting.Asked.{LinesDeliver}
use ach.Achd.Greeting.Answered.{Readable, reply-read}
use ach.Achd.Client.{
  size_of_int, opened, created, flushed, ChannelResults, Calls, flush_channel, create_channel,
  ensure_channel, connect, Meeting, get_response, text_of, greet, server_connect,
}

pub printf-whole :
    (text : List ℕ) (writes : List WriteCall)
    → is_calm writes ≡ true
    → taken writes ≡ length text
    → achd_printf (some text) false writes ≡ done (record { status = ok; out = text; sig = false })
unfolding achd_printf
printf-whole text writes c t = elim (Bool-cases (ltb (length text) line_length)) [
  | inl short ↦ rw (short, went)
  | inr long ↦ rw (long, went)
]
  where
    went :
        achd_write text [] false writes ≡ done (record { end = wrote_all; out = text; sig = false })
    went =
        ap (achd_write text [] false) (sym (append-nil writes))
        ∙ achd_write-whole text [] writes [] c t

size_of_int-small : (n : ℕ) → n < 2 ^ 31 → size_of_int n ≡ n
size_of_int-small n l = rw (lt→ltb n (2 ^ 31) l)

-- no channel is there, and the calls that make it succeed
abbrev pub making : ChannelResults
making = record { first_open = enoent; create = ok; reopen = ok; flush = ok }

ensure-creates :
    (name : List ℕ) (recv : Headers)
    → recv.frame_count ≢ 0
    → recv.frame_size ≢ 0
    → recv.frame_count < 2 ^ 31
    → recv.frame_size < 2 ^ 31
    → ensure_channel false name recv making ≡ record {
      calls =
          opened name ∷ created name recv.frame_count recv.frame_size ∷ opened name ∷ flushed ∷ [];
      end = done tt;
    }
unfolding ensure_channel create_channel flush_channel
ensure-creates name recv c s lc ls =
    rw (ne→== recv.frame_count 0 c, ne→== recv.frame_size 0 s)
      (rw (lt→ltb recv.frame_count (2 ^ 31) lc, lt→ltb recv.frame_size (2 ^ 31) ls))

module _ (strtol strtoul : List ℕ → Option ℕ) (signed : Bool)
    (print_ul print_int print_size : ℕ → List ℕ) (direction : Direction) (send recv : Headers)
    (shm : Shm) where
  abbrev pub request : List ℕ
  request = unlines (
      request_lines print_ul print_int (text_of send.chan_name) (text_of send.transport)
        send.period_ns send.get_last direction)

  abbrev pub answered : Headers
  answered = record recv {
    frame_count = shm.index_cnt;
    frame_size = shm.data_size / shm.index_cnt;
    status = 0;
  }

  get_response-reply :
      (csss : List (List (List ReadCall)))
      → Readable error_log strtol strtoul signed print_size shm.index_cnt
      → Readable error_log strtol strtoul signed print_size (shm.data_size / shm.index_cnt)
      → strtol (codes "0 ") ≡ some 0
      → LinesDeliver csss (reply_lines print_size shm)
      → get_response strtol strtoul signed print_ul print_int connect_nop direction false recv csss
        ≡ done (answered, false)
  unfolding get_response
  get_response-reply csss c s z d = rw (came)
    where
      came :
          parse_headers error_log strtol strtoul signed false csss
            (record recv { status = status_number bug })
          ≡ done (ok, (answered, false))
      came =
          ap
            (λ l.
              parse_headers error_log strtol strtoul signed false l
                (record recv { status = status_number bug }))
            (sym (append-nil csss))
          ∙ reply-read error_log strtol strtoul signed print_size shm csss []
              (record recv { status = status_number bug }) c s z d

  greet-reply :
      (m : Meeting)
      → is_calm m.writes ≡ true
      → taken m.writes ≡ length request
      → Readable error_log strtol strtoul signed print_size shm.index_cnt
      → Readable error_log strtol strtoul signed print_size (shm.data_size / shm.index_cnt)
      → strtol (codes "0 ") ≡ some 0
      → LinesDeliver m.answer (reply_lines print_size shm)
      → greet strtol strtoul signed print_ul print_int connect_nop direction false send recv m
        ≡ done (record { is_sent = true; out = request; recv = answered; sig = false })
  unfolding greet connect
  greet-reply m q t c s z d =
      rw (printf-whole request m.writes q t, get_response-reply m.answer c s z d)

  -- If a client over TCP without a local channel gets a socket, its calls of write take the
  -- request whole, the lines of the answer that the server prints for its channel arrive, no
  -- local channel is found but can be created, strtol reads back how the server's frame count
  -- and size are printed (both below 2^31 and not 0) and reads "0 " as 0, then server_connect
  -- sends the request, creates the channel with the frame count and the frame size of the
  -- server's, opens and flushes it, and returns the socket.
  pub server_connect-creates :
      (name : List ℕ) (fd : ℕ) (m : Meeting)
      → m.fd ≡ some fd
      → is_calm m.writes ≡ true
      → taken m.writes ≡ length request
      → LinesDeliver m.answer (reply_lines print_size shm)
      → m.channel ≡ making
      → Readable error_log strtol strtoul signed print_size shm.index_cnt
      → Readable error_log strtol strtoul signed print_size (shm.data_size / shm.index_cnt)
      → strtol (codes "0 ") ≡ some 0
      → shm.index_cnt ≢ 0
      → shm.data_size / shm.index_cnt ≢ 0
      → server_connect strtol strtoul signed print_ul print_int connect_nop direction false name
          false send recv m
        ≡ record {
          calls =
              opened name
              ∷ created name shm.index_cnt (shm.data_size / shm.index_cnt)
              ∷ opened name
              ∷ flushed
              ∷ [];
          end = done (record {
            fd = some fd;
            greeted = record { is_sent = true; out = request; recv = answered; sig = false };
          });
        }
  unfolding server_connect
  server_connect-creates name fd m f q t d k c s z cn sn =
      rw (f, greet-reply m q t c s z d, k)
        (ap
          (λ (r : Calls (Unit {0})). record {
            calls = r.calls;
            end = r.end >>= (λ _. done (record {
              fd = some fd;
              greeted = record { is_sent = true; out = request; recv = answered; sig = false };
            }));
          })
          (ensure-creates name answered cn sn c.0 s.0))
