-- ===== src/Achd/Run.antt =====
-- The client of achd: `achd_client` of src/achd/client.c, from its options to the call of the handler,
-- and `sighandler` of src/achd/achd.c. What detaches the process from its terminal is left out.
pub mod Meets
pub mod Canceled
use ach.Base.{
  ℕ, ◌/◌, Bool, true, false, not, if◌then◌else◌, Option, none, some, List, [], Exec, done, stop,
  Stop, exits, ◌>>=◌, ◌>>◌, assert,
}
use ach.Sync.{Os}
use ach.Cancel.{Fork, CancelResult, cancel}
use ach.Shm.{Status, bad_header, Shm, Channel}
use ach.Pipe.{pipe_alloc}
use ach.Achd.Headers.{Direction, void, push, pull, Headers, no_headers, error_log}
use ach.Achd.Greeting.{Vtab, get_vtab}
use ach.Achd.Transport.{Conn}
use ach.Achd.Client.{Meeting, Calls, Connected, text_of, server_connect}
use ach.Achd.Options.{Cx}

-- "Create request headers"
unfoldable pub send_headers : Headers → Exec Headers
send_headers o = elim o.remote_chan_name [
  | none ↦ stop (error_log bad_header)
  | some name ↦
      assert (elim o.direction [ push ↦ true | pull ↦ true | void ↦ false ])
      >> done (record no_headers {
        chan_name = some name;
        transport = o.transport;
        period_ns = o.period_ns;
        get_last = o.get_last;
      })
]

-- What a client is ready to do: the row of `handlers`, the connection, what it has sent to the server,
-- and `cx.sig_received`, which keeps the handler from being called.
pub record Running : Type 0 where
  pub fd : ℕ
  pub vtab : Vtab
  pub conn : Conn
  pub out : List ℕ
  pub sig : Bool

-- "Allocate buffers"; the channel is open, with memory `shm`.
abbrev pub running_of : (malloc : ℕ → List ℕ) → Vtab → Headers → Shm → Connected → Exec Running
running_of malloc v send shm c = elim c.fd [
  | none ↦ stop (exits 1)
  | some fd ↦
      let size : ℕ = shm.data_size / shm.index_cnt in
      done (record {
        fd = fd;
        vtab = v;
        conn = record {
          send_hdr = send;
          recv_hdr = c.greeted.recv;
          pipeframe_size = size;
          pipeframe = pipe_alloc (malloc size) size;
          sent_before = false;
        };
        out = c.greeted.out;
        sig = c.greeted.sig;
      })
]

abbrev pub is_given : Option (List ℕ) → Bool
is_given none = false
is_given (some text) = true

module _ (strtol strtoul : List ℕ → Option ℕ) (signed : Bool) (print_ul print_int : ℕ → List ℕ)
    (malloc : ℕ → List ℕ) where
  -- the connection to the server, which needs the name of a host
  abbrev pub connect_client :
      (cx : Cx) → (sig : Bool) → Meeting → Shm → Vtab → Headers → Calls Running
  connect_client cx sig m shm v send =
      if not (is_given cx.cl_opts.remote_host)
      then record { calls = []; end = assert false >> stop (exits 1) }
      else let c : Calls Connected =
          server_connect strtol strtoul signed print_ul print_int v.connect cx.cl_opts.direction
            false (text_of cx.cl_opts.chan_name) sig send no_headers m in
        record { calls = c.calls; end = c.end >>= running_of malloc v send shm }

  -- `achd_client`, up to the call of the handler: `m` is what `server_connect` meets, `shm` the memory of
  -- the channel that it opens.
  unfoldable pub achd_client : Cx → (sig : Bool) → Meeting → Shm → Calls Running
  unfolding send_headers
  achd_client cx sig m shm = elim (get_vtab error_log cx.cl_opts.transport cx.cl_opts.direction) [
    | stop e ↦ record { calls = []; end = stop e }
    | done v ↦ elim (send_headers cx.cl_opts) [
      | stop e ↦ record { calls = []; end = stop e }
      | done send ↦ connect_client cx sig m shm v send
    ]
  ]

-- What `sighandler` leaves: `cx.sig_received`, and what ach_cancel does if the channel is open.
pub record Handled : Type 0 where
  pub sig_received : Bool
  pub canceled : Option CancelResult

-- `sighandler`; `is_end` is whether the signal is SIGTERM or SIGINT.
unfoldable pub sighandler :
    Os → Fork → (channel : Option (Channel × Shm)) → (is_end sig_received : Bool) → Handled
sighandler os forked channel is_end sig_received =
    if not is_end then record { sig_received = sig_received; canceled = none } else record {
      sig_received = true;
      canceled = elim channel [
        | none ↦ none
        | some (chan, shm) ↦ some (cancel os forked chan shm false)
      ];
    }
