-- ===== src/Achchand/Table.antt =====
-- The table of descriptors of src/achchand.c, and the loop of `run_io` over it.
use ach.Base.{
  ℕ, zero, suc, Bool, false, not, ◌||◌, Option, none, some, List, [], ◌∷◌, ◌++◌, length, take, set,
  get_elem?, ltb, leb, ◌==◌, if◌then◌else◌, Exec, done, stop, out_of_bounds, no_fuel, blocked,
  exits, ◌>>=◌, ◌>>◌, assert, add64, sub64,
}
use ach.Memory.{memcpy}
use ach.Achchand.{
  FdType, PollBits, Slot, ctrl_bad, ctrl_srv, ctrl_conn, no_bits, only_in, read_slot,
}

-- what goes on with the sockets
pub data SocketEvent : Type 0 where
  accepted : (fd : ℕ) → SocketEvent
  wrote : (fd : ℕ) → (bytes : List ℕ) → SocketEvent
  closed : (fd : ℕ) → SocketEvent

-- `struct achd_cx`, as far as `run_io` uses it, with what has gone on
pub record Table : Type 0 where
  pub slots : List Slot
  pub log : List SocketEvent

-- What the visit of an entry meets: what `accept` returns, the bytes that `read` gives (none at the end
-- of the input and on an error), and how many `write` takes.
pub record Visit : Type 0 where
  pub connection : Option ℕ
  pub received : List ℕ
  pub written : ℕ

abbrev pub slot_at : Table → (i : ℕ) → Exec Slot
slot_at t i = elim (get_elem? t.slots i) [ none ↦ stop out_of_bounds | some f ↦ done f ]

abbrev pub put_slot : (i : ℕ) → Slot → Table → Table
put_slot i f t = record t { slots = set t.slots i f }

abbrev remove : ℕ → List Slot → List Slot
remove i [] = []
remove zero (f ∷ fs) = fs
remove (suc i) (f ∷ fs) = f ∷ remove i fs

unfoldable pub rm_fd : (i : ℕ) → Table → Exec Table
rm_fd i t =
    slot_at t i
    >>= (λ f. done (record { slots = remove i t.slots; log = t.log ++ (closed f.fd ∷ []) }))

-- the assertions on an entry
unfoldable pub check_slot : Slot → Exec (Unit {0})
check_slot f = assert (leb f.n_in f.max_in) >> assert (leb f.n_out f.max_out)

-- "check ctrl connections for output"
unfoldable pub write_slot : (s : ℕ) → Slot → Exec (Slot × List ℕ)
write_slot s f =
    if not (leb f.n_out (length f.output))
    then stop out_of_bounds
    else if s == 0
    then done (f, [])
    else assert (leb s f.n_out)
      >> (memcpy f.output 0 f.output s (sub64 f.n_out s)
          >>= (λ d. done (record f { output = d; n_out = sub64 f.n_out s }, take s f.output)))

-- "POLLOUT" is no longer asked for once all is written.
abbrev pub all_written : Slot → Slot
all_written f =
    if f.n_out == 0 then record f { events = record f.events { pollout = false } } else f

unfoldable pub write_conn : Visit → (i : ℕ) → Table → Exec (ℕ × Table)
unfolding write_slot
write_conn v i t = slot_at t i >>= (λ f.
    if not f.revents.pollout
    then done (i, t)
    else if f.n_out == 0
    then done (i, put_slot i (all_written f) t)
    else write_slot v.written f >>= (λ r. done (
      i,
      record (put_slot i (all_written r.0) t) {
        log = if v.written == 0 then t.log else t.log ++ (wrote f.fd r.1 ∷ []);
      },
    )))

-- an entry that has been removed, and the index before it
abbrev pub drop_conn : (i : ℕ) → Table → Exec (ℕ × Table)
drop_conn i t = rm_fd i t >>= (λ u. done (sub64 i 1, u))

unfoldable pub hup_conn : (i : ℕ) → Table → Exec (ℕ × Table)
unfolding rm_fd
hup_conn i t = slot_at t i >>= (λ f.
    if f.revents.pollhup || (f.revents.pollerr || f.revents.pollnval)
    then drop_conn i t
    else done (i, t))

module _ (aa_read_realloc : (bytes buf : List ℕ) → (n max : ℕ) → List ℕ × ℕ)
    (malloc : ℕ → List ℕ) where
  unfoldable pub new_fd : (fd : ℕ) → Table → Table
  new_fd fd t = record {
    slots =
        t.slots
        ++ (record {
          fd = fd;
          events = only_in;
          revents = no_bits;
          type = ctrl_conn;
          input = malloc 4000;
          n_in = 0;
          max_in = 4000;
          output = malloc 4000;
          n_out = 0;
          max_out = 4000;
        }
            ∷ []);
    log = t.log ++ (accepted fd ∷ []);
  }

  -- the case ACHD_FD_CTRL_SRV
  unfoldable pub visit_srv : Visit → (i : ℕ) → Slot → Table → ℕ × Table
  unfolding new_fd
  visit_srv v i f t =
      if f.revents.pollin
      then elim v.connection [ none ↦ (i, t) | some fd ↦ (i, new_fd fd t) ]
      else (i, t)

  unfoldable pub read_conn : Visit → (i : ℕ) → Table → Exec (ℕ × Table)
  unfolding read_slot rm_fd
  read_conn v i t = slot_at t i >>= (λ f.
      if not f.revents.pollin
      then done (i, t)
      else read_slot aa_read_realloc v.received f
        >>= (λ r. if r.1 then drop_conn i (put_slot i r.0 t) else done (i, put_slot i r.0 t)))

  -- The case ACHD_FD_CTRL_CONN. Where the input has removed the entry, what follows is about the one
  -- before it.
  unfoldable pub visit_conn : Visit → (i : ℕ) → Table → Exec (ℕ × Table)
  unfolding read_conn write_conn hup_conn
  visit_conn v i t = read_conn v i t >>= (λ p. write_conn v p.0 p.1 >>= (λ q. hup_conn q.0 q.1))

  -- the switch on the type
  abbrev pub visit_by : FdType → Visit → (i : ℕ) → Slot → Table → Exec (ℕ × Table)
  visit_by ctrl_srv v i f t = done (visit_srv v i f t)
  visit_by ctrl_conn v i f t = visit_conn v i t
  visit_by ctrl_bad v i f t = done (i, t)

  -- the body of the loop over the entries
  unfoldable pub visit : Visit → (i : ℕ) → Table → Exec (ℕ × Table)
  unfolding visit_srv visit_conn check_slot
  visit v i t = do
    f ← slot_at t i
    check_slot f
    p ← visit_by f.type v i f t
    g ← slot_at p.1 p.0
    check_slot g
    done (add64 p.0 1, p.1)

  -- the loop over the entries, of which each visit has its own results
  unfoldable pub visit_all : List Visit → (i : ℕ) → Table → Exec Table
  unfolding visit
  visit_all [] i t = if ltb i (length t.slots) then stop no_fuel else done t
  visit_all (v ∷ vs) i t =
      if not (ltb i (length t.slots)) then done t else visit v i t >>= (λ p. visit_all vs p.0 p.1)

  abbrev set_revents : List PollBits → List Slot → List Slot
  set_revents (r ∷ rs) (f ∷ fs) = record f { revents = r } ∷ set_revents rs fs
  set_revents _ fs = fs

  -- what a round of `run_io` meets: events, with their visits; nothing, EINTR or EAGAIN; or a failure
  pub data Polling : Type 0 where
    polled : (bits : List PollBits) → (visits : List Visit) → Polling
    nothing_yet : Polling
    poll_failed : Polling

  abbrev pub poll_round : Polling → Table → (next : Table → Exec Table) → Exec Table
  poll_round (polled bits visits) t next =
      visit_all visits 0 (record t { slots = set_revents bits t.slots }) >>= next
  poll_round nothing_yet t next = next t
  poll_round poll_failed t next = stop (exits 255)

  -- The loop of `run_io`: whether the daemon has been told to quit, and what the round meets.
  unfoldable pub run_io : List (Bool × Polling) → Table → Exec Table
  unfolding visit_all
  run_io [] t = stop blocked
  run_io ((quit, p) ∷ ps) t = if quit then done t else poll_round p t (run_io ps)

-- the table that `init` makes, with the listening socket
unfoldable pub init_table : (fd : ℕ) → Table
init_table fd = record {
  slots =
      record {
        fd = fd;
        events = only_in;
        revents = no_bits;
        type = ctrl_srv;
        input = [];
        n_in = 0;
        max_in = 0;
        output = [];
        n_out = 0;
        max_out = 0;
      }
      ∷ [];
  log = [];
}
