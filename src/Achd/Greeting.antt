-- ===== src/Achd/Greeting.antt =====
-- What the client of src/achd/client.c asks for, and what the server of src/achd/achd.c answers:
-- the texts that are printed, and what the server makes of the headers it has read.
pub mod Asked
pub mod Answered
pub mod Refused
use Prim.Native.String.{String}
use ach.Base.{
  ℕ, ◌+◌, ◌/◌, Bool, true, false, Option, none, some, List, [], ◌∷◌, ◌++◌, ◌==◌, if◌then◌else◌,
  Exec, done, stop, Stop, ◌>>=◌, not,
}
use ach.Shm.{Status, ok, bad_header, Shm}
use ach.Achd.Words.{codes, same_word}
use ach.Achd.Headers.{Direction, void, push, pull, Headers, status_number}
use ach.Name.{result_to_string}

-- the lines, each with its newline
abbrev pub unlines : List (List ℕ) → List ℕ
unlines [] = []
unlines (line ∷ lines) = line ++ (b'\n' ∷ unlines lines)

-- the direction that a client names: the remote end does the opposite
abbrev pub asked_direction : Direction → String
asked_direction pull = "push"
asked_direction _ = "pull"

-- The request of `server_connect`. `print_ul` is the format %lu, `print_int` is %d.
unfoldable pub request_lines :
    (print_ul print_int : ℕ → List ℕ)
    → (chan transport : List ℕ) → (period_ns get_last : ℕ) → Direction
    → List (List ℕ)
request_lines print_ul print_int chan transport period_ns get_last direction =
    (codes "channel-name: " ++ chan)
    ∷ (codes "transport: " ++ transport)
    ∷ (codes "period-ns: " ++ print_ul period_ns)
    ∷ (codes "get-last: " ++ print_int get_last)
    ∷ (codes "direction: " ++ codes (asked_direction direction))
    ∷ codes "."
    ∷ []

-- The answer of `achd_serve` for a channel. `print_size` is the format of a `size_t`.
unfoldable pub reply_lines : (print_size : ℕ → List ℕ) → Shm → List (List ℕ)
reply_lines print_size shm =
    (codes "frame-count: " ++ print_size shm.index_cnt)
    ∷ (codes "frame-size: " ++ print_size (shm.data_size / shm.index_cnt))
    ∷ codes "status: 0 # ACH_OK"
    ∷ codes "."
    ∷ []

-- what `achd_error_header` prints, for a message without newlines
unfoldable pub error_lines : (print_int : ℕ → List ℕ) → Status → (message : List ℕ) → List (List ℕ)
unfolding result_to_string
error_lines print_int code message =
    (codes "status: "
      ++ (print_int (status_number code) ++ (codes " # " ++ codes (result_to_string code))))
    ∷ (codes "message: " ++ message)
    ∷ codes "."
    ∷ []

-- the functions of a row of `handlers`
pub data Connect : Type 0 where
  connect_nop connect_udp_sock : Connect

pub data Handler : Type 0 where
  push_tcp pull_tcp push_udp pull_udp : Handler

-- `struct achd_conn_vtab`
pub record Vtab : Type 0 where
  pub transport : String
  pub direction : Direction
  pub connect : Connect
  pub handler : Handler

abbrev pub handlers : List Vtab
handlers =
    record { transport = "tcp"; direction = push; connect = connect_nop; handler = push_tcp }
    ∷ record { transport = "tcp"; direction = pull; connect = connect_nop; handler = pull_tcp }
    ∷ record { transport = "udp"; direction = push; connect = connect_udp_sock; handler = push_udp }
    ∷ record { transport = "udp"; direction = pull; connect = connect_udp_sock; handler = pull_udp }
    ∷ []

abbrev pub same_direction : Direction → Direction → Bool
same_direction push push = true
same_direction pull pull = true
same_direction void void = true
same_direction _ _ = false

-- the loop of `achd_get_vtab`
unfoldable pub find_vtab : List Vtab → (transport : List ℕ) → Direction → Option Vtab
find_vtab [] transport direction = none
find_vtab (v ∷ vs) transport direction =
    if same_direction direction v.direction
    then if same_word (codes v.transport) transport
      then some v
      else find_vtab vs transport direction
    else find_vtab vs transport direction

module _ (err : Status → Stop) where
  unfoldable pub get_vtab : (transport : Option (List ℕ)) → Direction → Exec Vtab
  get_vtab none direction = stop (err bad_header)
  get_vtab (some transport) void = stop (err bad_header)
  get_vtab (some transport) direction = elim (find_vtab handlers transport direction) [
    | none ↦ stop (err bad_header)
    | some v ↦ done v
  ]

-- a missing channel name is taken from the remote one
abbrev pub or_remote : Headers → Headers
or_remote h = elim h.chan_name [
  | none ↦ record h { chan_name = h.remote_chan_name }
  | some name ↦ h
]
