-- ===== src/Achd/Headers.antt =====
-- The headers of src/achd/achd.c: lines `key: value`, up to a line with a dot.
pub mod Lines
use Prim.Native.String.{String}
use ach.Base.{
  ℕ, ◌+◌, ◌%◌, ◌^◌, Bool, true, false, ◌&&◌, ◌||◌, not, Option, none, some, List, [], ◌∷◌, ◌==◌,
  if◌then◌else◌, Exec, done, stop, Stop, blocked, exits, ◌>>=◌,
}
use ach.Shm.{
  Status, ok, overflow, invalid_name, bad_shm_file, failed_syscall, stale_frames, missed_frame,
  timeout, eexist, enoent, closed, bug, einval, corrupt, bad_header, eacces, canceled,
}
use ach.Achd.Io.{ReadCall, Line, achd_readline, line_length}
use ach.Achd.Words.{codes, same_word, cut, is_space, is_word, all, skip_space}

-- `enum achd_direction`
pub data Direction : Type 0 where
  void push pull : Direction

-- `struct achd_headers`; an `int` is a word of 32 bits, a text that is missing is `none`.
pub record Headers : Type 0 where
  pub chan_name : Option (List ℕ)
  pub remote_chan_name : Option (List ℕ)
  pub frame_count : ℕ
  pub frame_size : ℕ
  pub local_port : ℕ
  pub remote_port : ℕ
  pub tcp_nodelay : ℕ
  pub retry : ℕ
  pub get_last : ℕ
  pub retry_delay_us : ℕ
  pub period_ns : ℕ
  pub remote_host : Option (List ℕ)
  pub transport : Option (List ℕ)
  pub direction : Direction
  pub status : ℕ
  pub message : Option (List ℕ)

-- all bytes 0
abbrev pub no_headers : Headers
no_headers = record {
  chan_name = none;
  remote_chan_name = none;
  frame_count = 0;
  frame_size = 0;
  local_port = 0;
  remote_port = 0;
  tcp_nodelay = 0;
  retry = 0;
  get_last = 0;
  retry_delay_us = 0;
  period_ns = 0;
  remote_host = none;
  transport = none;
  direction = void;
  status = 0;
  message = none;
}

-- the numbers of `enum ach_status`
abbrev pub status_number : Status → ℕ
status_number ok = 0
status_number overflow = 1
status_number invalid_name = 2
status_number bad_shm_file = 3
status_number failed_syscall = 4
status_number stale_frames = 5
status_number missed_frame = 6
status_number timeout = 7
status_number eexist = 8
status_number enoent = 9
status_number closed = 10
status_number bug = 11
status_number einval = 12
status_number corrupt = 13
status_number bad_header = 14
status_number eacces = 15
status_number canceled = 16

-- `achd_exit_failure`, as `achd_error_header` calls it
unfoldable pub error_header : Status → Stop
error_header s = exits (if status_number s == 0 then 1 else status_number s)

-- the end of `achd_error_log`
unfoldable pub error_log : Status → Stop
error_log s = exits 1

-- the pattern of a line with a dot: "^SPACE.SPACE$", where the dot stands for any character
unfoldable pub is_dot : List ℕ → Bool
is_dot [] = false
is_dot (c ∷ cs) = all is_space cs || (is_space c && is_dot cs)

-- the key, and what follows it
abbrev pub split_word : List ℕ → List ℕ × List ℕ
split_word [] = ([], [])
split_word (c ∷ cs) =
    let (word, rest) = split_word cs in if is_word c then (c ∷ word, rest) else ([], c ∷ cs)

abbrev pub match_value : (key rest : List ℕ) → Option (Option (List ℕ × List ℕ))
match_value key [] = none
match_value key (c ∷ rest) =
    if c == b'\n'
    then none
    else if all is_word (skip_space rest)
    then some (some (key, skip_space rest))
    else none

-- The pattern of a header: `none` if the line does not match, `some none` for an empty line, or the
-- key and the value. The words take the blanks behind them, since the leftmost longest match
-- is meant; a line of `achd_readline` holds no newline.
unfoldable pub match_line : List ℕ → Option (Option (List ℕ × List ℕ))
match_line text =
    if all is_space text
    then some none
    else let (key, rest) = split_word (skip_space text) in match_value key rest

abbrev pub any_word : List String → List ℕ → Bool
any_word [] value = false
any_word (w ∷ ws) value = same_word (codes w) value || any_word ws value

-- `cx.error` is `err`, and never returns. `strtol` and `strtoul` in base 10 are the C library's:
-- the number as a word of 64 bits, or `none` if they set `errno`.
module _ (err : Status → Stop) (strtol strtoul : List ℕ → Option ℕ) where
  unfoldable pub set_int : List ℕ → Exec ℕ
  set_int val = elim (strtol val) [ none ↦ stop (err bad_header) | some i ↦ done (i % 2 ^ 32) ]

  unfoldable pub set_ul : List ℕ → Exec ℕ
  set_ul val = elim (strtoul val) [ none ↦ stop (err bad_header) | some i ↦ done i ]

  unfoldable pub set_status : List ℕ → Exec ℕ
  set_status val = elim (strtol val) [ none ↦ stop (err bad_header) | some i ↦ done (i % 2 ^ 32) ]

  unfoldable pub parse_boolean : List ℕ → Exec ℕ
  parse_boolean value =
      if any_word ("yes" ∷ "true" ∷ "1" ∷ "t" ∷ "y" ∷ "+" ∷ "aye" ∷ []) value
      then done 1
      else if any_word ("no" ∷ "false" ∷ "0" ∷ "f" ∷ "n" ∷ "-" ∷ "nay" ∷ []) value
      then done 0
      else stop (err bad_header)

  unfoldable pub set_direction : List ℕ → Exec Direction
  set_direction val =
      if same_word (codes "push") val
      then done push
      else if same_word (codes "pull") val
      then done pull
      else stop (err bad_header)

  unfoldable pub set_header : (key val : List ℕ) → Headers → Exec Headers
  unfolding set_int set_ul set_status parse_boolean set_direction
  set_header key val h =
      if same_word (codes "channel-name") key
      then done (record h { chan_name = some val })
      else if same_word (codes "frame-size") key
      then set_int val >>= (λ i. done (record h { frame_size = i }))
      else if same_word (codes "frame-count") key
      then set_int val >>= (λ i. done (record h { frame_count = i }))
      else if same_word (codes "remote-port") key
      then set_int val >>= (λ i. done (record h { remote_port = i }))
      else if same_word (codes "local-port") key
      then set_int val >>= (λ i. done (record h { local_port = i }))
      else if same_word (codes "remote-host") key
      then done (record h { remote_host = some val })
      else if same_word (codes "period-ns") key
      then set_ul val >>= (λ i. done (record h { period_ns = i }))
      else if same_word (codes "get-last") key
      then parse_boolean val >>= (λ b. done (record h { get_last = b }))
      else if same_word (codes "transport") key
      then done (record h { transport = some val })
      else if same_word (codes "tcp-nodelay") key
      then parse_boolean val >>= (λ b. done (record h { tcp_nodelay = b }))
      else if same_word (codes "retry") key
      then parse_boolean val >>= (λ b. done (record h { retry = b }))
      else if same_word (codes "direction") key
      then set_direction val >>= (λ d. done (record h { direction = d }))
      else if same_word (codes "status") key
      then set_status val >>= (λ i. done (record h { status = i }))
      else if same_word (codes "message") key
      then done (record h { message = some val })
      else stop (err bad_header)

  -- what is done with the match of a line that is not the last
  unfoldable pub take_header : Option (Option (List ℕ × List ℕ)) → Headers → Exec Headers
  take_header none h = stop (err bad_header)
  take_header (some none) h = done h
  take_header (some (some (key, val))) h = set_header key val h

  -- `achd_parse_headers`: the result, the headers and `cx.sig_received`. There is a list of calls
  -- for each character of each line; where the lines end, it still waits.
  unfoldable pub parse_headers :
      (signed sig : Bool) → List (List (List ReadCall)) → Headers → Exec (Status × (Headers × Bool))
  parse_headers signed sig [] h = stop blocked
  parse_headers signed sig (calls ∷ more) h = do
    l ← achd_readline signed line_length [] sig calls
    let text : List ℕ = cut 0 l.text in
        if not (status_number l.status == 0)
        then done (l.status, (h, l.sig))
        else if is_dot text
        then done (ok, (h, l.sig))
        else take_header (match_line (cut b'#' text)) h
          >>= (λ h'. parse_headers signed l.sig more h')
