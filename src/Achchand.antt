-- ===== src/Achchand.antt =====
-- The control sockets of src/achchand.c: an entry of the table of descriptors, and the commands that
-- clients type. What the system's calls do is an argument, as is aa_read_realloc, which is not
-- in the repository; what is printed and logged is left out.
pub mod Command
pub mod Scan
pub mod Talk
pub mod Table
use ach.Base.{
  ℕ, zero, suc, ◌+◌, Bool, true, false, not, ◌&&◌, ◌||◌, Option, none, some, List, [], ◌∷◌, ◌++◌,
  length, take, set, get_elem?, min, ltb, leb, ◌==◌, if◌then◌else◌, Exec, done, stop, out_of_bounds,
  no_fuel, blocked, exits, ◌>>=◌, ◌>>◌, assert, add64, sub64,
}
use ach.Memory.{memcpy}
use ach.Achd.Words.{codes, same_word, cut, all}

-- `enum achd_fdtype`
pub data FdType : Type 0 where
  ctrl_bad ctrl_srv ctrl_conn : FdType

-- the bits of `events` and `revents`
pub record PollBits : Type 0 where
  pub pollin : Bool
  pub pollout : Bool
  pub pollerr : Bool
  pub pollhup : Bool
  pub pollnval : Bool

-- an entry of `pfds` and of `fds`
pub record Slot : Type 0 where
  pub fd : ℕ
  pub events : PollBits
  pub revents : PollBits
  pub type : FdType
  pub input : List ℕ
  pub n_in : ℕ
  pub max_in : ℕ
  pub output : List ℕ
  pub n_out : ℕ
  pub max_out : ℕ

abbrev pub no_bits : PollBits
no_bits = record {
  pollin = false;
  pollout = false;
  pollerr = false;
  pollhup = false;
  pollnval = false;
}

abbrev pub only_in : PollBits
only_in = record no_bits { pollin = true }

-- `strncpy` copies at most the room that is left; the length is added whole.
unfoldable pub queue_output : (str : List ℕ) → Slot → Exec Slot
queue_output str f =
    memcpy f.output f.n_out str 0 (min (sub64 f.max_out f.n_out) (length str)) >>= (λ d.
      done (record f {
        output = d;
        n_out = add64 f.n_out (length str);
        events = record f.events { pollout = true };
      }))

-- `help_string`
abbrev pub help_string : List ℕ
help_string =
    codes "COMMANDS: \n"
    ++ (codes "  help:  print this message\n"
        ++ (codes "  helo:  server responds with `elho'\n"
            ++ (codes "  quit:  server closes connection\n"
                ++ codes "  achnotify CHANNEL:  send notification messages to CHANNEL\n")))

abbrev is_blank : ℕ → Bool
is_blank c = (c == b' ') || (c == b'\t')

abbrev token_rest : List ℕ → List ℕ
token_rest [] = []
token_rest (c ∷ cs) = if is_blank c then [] else c ∷ token_rest cs

-- `strtok(buf, " \t")`, or none for NULL
abbrev pub strtok : List ℕ → Option (List ℕ)
strtok [] = none
strtok (c ∷ cs) = if is_blank c then strtok cs else some (c ∷ token_rest cs)

-- What a command does.
pub data CtrlAction : Type 0 where
  says : (text : List ℕ) → CtrlAction
  nothing : CtrlAction
  quits : CtrlAction

unfoldable pub action_of : (tok : List ℕ) → CtrlAction
action_of tok =
    if same_word tok (codes "helo")
    then says (codes "elho\n")
    else if same_word tok (codes "help")
    then says help_string
    else if same_word tok (codes "achnotify")
    then nothing
    else if same_word tok (codes "quit")
    then quits
    else says (codes "bad command\n")

abbrev pub act : CtrlAction → Slot → Exec (Slot × Bool)
act (says text) f = queue_output text f >>= (λ g. done (g, false))
act nothing f = done (f, false)
act quits f = done (f, true)

-- `process_ctrl`, with whether it returns -1. strcasecmp reads its argument, also if it is NULL. What
-- strtok writes into the line is not read again.
unfoldable pub process_ctrl : Slot → Exec (Slot × Bool)
unfolding queue_output action_of
process_ctrl f =
    assert (all (λ c. not (c == b'\n')) (cut 0 f.input)) >> elim (strtok (cut 0 f.input)) [
      | none ↦ stop out_of_bounds
      | some tok ↦ act (action_of tok) f
    ]

-- "move": the bytes after position `j` go to the front.
unfoldable pub move_input : (j : ℕ) → Slot → Exec Slot
move_input j f =
    let n : ℕ = sub64 (sub64 f.n_in j) 1 in
    memcpy f.input 0 f.input (j + 1) n >>= (λ d. done (record f { input = d; n_in = n }))

-- `isascii` and `isprint`
abbrev pub is_print : ℕ → Bool
is_print c = leb b' ' c && leb c b'~'

-- a byte of a buffer
abbrev pub byte_at : List ℕ → ℕ → Exec ℕ
byte_at buf j = elim (get_elem? buf j) [ none ↦ stop out_of_bounds | some c ↦ done c ]

-- after a line has been processed
abbrev pub and_processed :
    (j : ℕ) → (next : ℕ → Slot → Exec (Slot × Bool)) → Slot × Bool → Exec (Slot × Bool)
and_processed j next (f, quit) = if quit then done (f, true) else move_input j f >>= next 0

-- the body of the loop that looks for a newline, for the byte at `j`
abbrev pub scan_byte :
    (c j : ℕ) → Slot → (next : ℕ → Slot → Exec (Slot × Bool)) → Exec (Slot × Bool)
scan_byte c j f next =
    if (c == b'\n') || (c == b'\r')
    then process_ctrl (record f { input = set f.input j 0 }) >>= and_processed j next
    else if not (is_print c)
    then done (f, true)
    else next (j + 1) f

-- "look for newline", with `left` bytes to go; and whether the connection is to be closed
unfoldable pub scan : (left j : ℕ) → Slot → Exec (Slot × Bool)
unfolding process_ctrl move_input
scan zero j f = if ltb j f.n_in then stop no_fuel else done (f, false)
scan (suc left) j f =
    if not (ltb j f.n_in)
    then done (f, false)
    else byte_at f.input j >>= (λ c. scan_byte c j f (scan left))

-- "check ctrl connections for input": the entry, and whether it is to be closed
unfoldable pub read_slot :
    (aa_read_realloc : (bytes buf : List ℕ) → (n max : ℕ) → List ℕ × ℕ)
    → (received : List ℕ) → Slot
    → Exec (Slot × Bool)
unfolding scan
read_slot aa_read_realloc received f =
    let (buf, max) = aa_read_realloc received f.input f.n_in f.max_in in
    if length received == 0
    then done (record f { input = buf; max_in = max }, false)
    else scan (length received) f.n_in
        (record f { input = buf; max_in = max; n_in = add64 f.n_in (length received) })
