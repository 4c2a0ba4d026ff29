-- ===== src/Achd/Run/Meets.antt =====
-- A client of achd from its command line, and the server that it meets: src/achd/client.c and
-- src/achd/achd.c.
use ach.Base.{
  ℕ, ◌/◌, ◌<◌, ◌≡◌, ◌≢◌, refl, ap, ◌⊎◌, Bool, true, false, Option, some, List, [], ◌∷◌, length,
  done, ◌>>=◌, inl, inr, Option-cases,
}
use ach.Shm.{ok, Shm}
use ach.Pipe.{pipe_alloc}
use ach.Achd.Words.{codes, all}
use ach.Achd.Io.Whole.{taken, is_calm}
use ach.Achd.Headers.{push, pull, Headers, no_headers, error_log}
use ach.Achd.Headers.Lines.{is_value}
use ach.Achd.Greeting.Asked.{LinesDeliver, requested}
use ach.Achd.Greeting.Answered.{Readable}
use ach.Achd.Serve.{Request, Serving, conn_of, achd_serve}
use ach.Achd.Serve.Asked.{serving_row, achd_serve-serves}
use ach.Achd.Greeting.{
  Vtab, connect_nop, push_tcp, pull_tcp, unlines, request_lines, reply_lines, get_vtab, find_vtab,
}
use ach.Achd.Client.{Meeting, opened, created, flushed, server_connect}
use ach.Achd.Client.Channel.{making, server_connect-creates}
use ach.Achd.Options.Asked.{Order, direction_of, remote_of, period_of, last_of, cx_of}
use ach.Achd.Run.{Running, send_headers, running_of, achd_client}

-- the row of `handlers` for a client over TCP
abbrev pub client_row : (pushes : Bool) → Vtab
client_row true = record {
  transport = "tcp";
  direction = push;
  connect = connect_nop;
  handler = push_tcp;
}
client_row false = record {
  transport = "tcp";
  direction = pull;
  connect = connect_nop;
  handler = pull_tcp;
}

get_vtab-client :
    (pushes : Bool)
    → get_vtab error_log (some (codes "tcp")) (direction_of pushes) ≡ done (client_row pushes)
unfolding get_vtab find_vtab
get_vtab-client true = refl
get_vtab-client false = refl

-- the headers that the client sends
abbrev pub asked_headers : Order → Headers
asked_headers o = record no_headers {
  chan_name = some (remote_of o);
  transport = some (codes "tcp");
  period_ns = period_of o;
  get_last = last_of o;
}

send_headers-asked :
    (pushes : Bool) (verbosity : ℕ) (o : Order)
    → o.pushes ≡ pushes
    → send_headers (cx_of verbosity o).cl_opts ≡ done (asked_headers o)
unfolding send_headers
send_headers-asked true v o e = rw (send_headers, e)
send_headers-asked false v o e = rw (send_headers, e)

-- A text that headers can hold.
abbrev pub IsShort : List ℕ → Type 0
IsShort text = (all is_value text ≡ true) × (length text < 1000)

printed_last :
    (print_int : ℕ → List ℕ) (o : Order)
    → print_int 0 ≡ codes "0"
    → print_int 1 ≡ codes "1"
    → ((last_of o ≡ 0) × (print_int (last_of o) ≡ codes "0"))
      ⊎ ((last_of o ≡ 1) × (print_int (last_of o) ≡ codes "1"))
printed_last print_int o z u = elim (Option-cases o.period) [
  | inl e ↦ rw (e) (inl (refl, z))
  | inr (p, e) ↦ rw (e) (inr (refl, u))
]

module _ (strtol strtoul : List ℕ → Option ℕ) (signed : Bool)
    (print_ul print_int print_size : ℕ → List ℕ) (malloc : ℕ → List ℕ) where
  -- the lines of the client's request
  abbrev pub asked_lines : Order → List (List ℕ)
  asked_lines o =
      request_lines print_ul print_int (remote_of o) (codes "tcp") (period_of o) (last_of o)
        (direction_of o.pushes)

  -- the client, ready to forward
  abbrev pub running : Order → (fd : ℕ) → (server client : Shm) → Running
  running o fd server client = record {
    fd = fd;
    vtab = client_row o.pushes;
    conn = record {
      send_hdr = asked_headers o;
      recv_hdr = record no_headers {
        frame_count = server.index_cnt;
        frame_size = server.data_size / server.index_cnt;
        status = 0;
      };
      pipeframe_size = client.data_size / client.index_cnt;
      pipeframe =
          pipe_alloc (malloc (client.data_size / client.index_cnt))
            (client.data_size / client.index_cnt);
      sent_before = false;
    };
    out = unlines (asked_lines o);
    sig = false;
  }

  -- the server, ready to forward
  abbrev pub serving : Order → Shm → Serving
  serving o server = record {
    chan_name = remote_of o;
    vtab = serving_row (direction_of o.pushes);
    conn =
        conn_of malloc
          (requested (remote_of o) (codes "tcp") (period_of o) (last_of o) (direction_of o.pushes)
            no_headers)
          server;
    sent = unlines (reply_lines print_size server);
    sig = false;
  }

  achd_client-running :
      (verbosity : ℕ) (o : Order) (fd : ℕ) (m : Meeting) (server client : Shm)
      → m.fd ≡ some fd
      → is_calm m.writes ≡ true
      → taken m.writes ≡ length (unlines (asked_lines o))
      → LinesDeliver m.answer (reply_lines print_size server)
      → m.channel ≡ making
      → Readable error_log strtol strtoul signed print_size server.index_cnt
      → Readable error_log strtol strtoul signed print_size (server.data_size / server.index_cnt)
      → strtol (codes "0 ") ≡ some 0
      → server.index_cnt ≢ 0
      → server.data_size / server.index_cnt ≢ 0
      → achd_client strtol strtoul signed print_ul print_int malloc
          (cx_of verbosity o)
          false
          m
          client
        ≡ record {
          calls =
              opened o.chan
              ∷ created o.chan server.index_cnt (server.data_size / server.index_cnt)
              ∷ opened o.chan
              ∷ flushed
              ∷ [];
          end = done (running o fd server client);
        }
  unfolding achd_client
  achd_client-running v o fd m server client f q t d k c s z cn sn =
      rw (achd_client, get_vtab-client o.pushes, send_headers-asked o.pushes v o refl)
        (ap
          (λ x. record {
            calls = x.calls;
            end = x.end >>= running_of malloc (client_row o.pushes) (asked_headers o) client;
          })
          (by_row o.pushes))
    where
      by_row :
          (pushes : Bool)
          → server_connect strtol strtoul signed print_ul print_int
              (client_row pushes).connect
              (direction_of o.pushes)
              false
              o.chan
              false
              (asked_headers o)
              no_headers
              m
            ≡ record {
              calls =
                  opened o.chan
                  ∷ created o.chan server.index_cnt (server.data_size / server.index_cnt)
                  ∷ opened o.chan
                  ∷ flushed
                  ∷ [];
              end = done (record {
                fd = some fd;
                greeted = record {
                  is_sent = true;
                  out = unlines (asked_lines o);
                  recv = (running o fd server client).conn.recv_hdr;
                  sig = false;
                };
              });
            }
      by_row true =
          server_connect-creates strtol strtoul signed print_ul print_int print_size
            (direction_of o.pushes) (asked_headers o) no_headers server o.chan fd m f q t d k c s z
            cn sn
      by_row false =
          server_connect-creates strtol strtoul signed print_ul print_int print_size
            (direction_of o.pushes) (asked_headers o) no_headers server o.chan fd m f q t d k c s z
            cn sn

  -- If the remote name and the printed period are short texts that headers can hold, strtoul
  -- reads the period back, 0 and 1 are printed so, the client gets a socket and its request
  -- goes out whole, its lines arrive at a server that has the channel and whose answer goes
  -- out whole, its lines arrive at the client, where strtol reads back the frame count and the
  -- frame size (both below 2^31 and not 0) and reads "0 " as 0, and the client has no channel
  -- yet but can create it, then the client of a push or pull over TCP creates, opens and
  -- flushes its channel with the server's frame count and size and is ready with the handler
  -- of its direction, and the server has opened the channel asked for and is ready with the
  -- handler of the opposite direction, the period and get_last of the client.
  pub achd_client-meets :
      (verbosity : ℕ) (o : Order) (fd : ℕ) (m : Meeting) (r : Request) (server client : Shm)
      -- the texts
      → IsShort (remote_of o)
      → IsShort (print_ul (period_of o))
      → strtoul (print_ul (period_of o)) ≡ some (period_of o)
      → print_int 0 ≡ codes "0"
      → print_int 1 ≡ codes "1"
      -- the request
      → m.fd ≡ some fd
      → is_calm m.writes ≡ true
      → taken m.writes ≡ length (unlines (asked_lines o))
      → LinesDeliver r.lines (asked_lines o)
      -- the server
      → r.peer_known ≡ true
      → r.open_channel (remote_of o) ≡ (ok, server)
      → is_calm r.writes ≡ true
      → taken r.writes ≡ length (unlines (reply_lines print_size server))
      -- its answer
      → LinesDeliver m.answer (reply_lines print_size server)
      → Readable error_log strtol strtoul signed print_size server.index_cnt
      → Readable error_log strtol strtoul signed print_size (server.data_size / server.index_cnt)
      → strtol (codes "0 ") ≡ some 0
      → server.index_cnt ≢ 0
      → server.data_size / server.index_cnt ≢ 0
      -- the client's channel
      → m.channel ≡ making
      → (achd_client strtol strtoul signed print_ul print_int malloc
            (cx_of verbosity o)
            false
            m
            client
          ≡ record {
            calls =
                opened o.chan
                ∷ created o.chan server.index_cnt (server.data_size / server.index_cnt)
                ∷ opened o.chan
                ∷ flushed
                ∷ [];
            end = done (running o fd server client);
          })
        × (achd_serve strtol strtoul signed print_int print_size malloc r ≡ done (serving o server))
  achd_client-meets v o fd m r server client (name, short) (p, lp) e z u f q t d known opens rq rt
        da c s zero cn sn k =
      (
        achd_client-running v o fd m server client f q t da k c s zero cn sn,
        achd_serve-serves strtol strtoul signed print_ul print_int print_size malloc r (remote_of o)
            (period_of o) (last_of o) (direction_of o.pushes) server known d name short p lp e
            (printed_last print_int o z u) opens rq rt,
      )
