-- ===== src/Lib.antt =====
-- Ach: message channels in shared memory, where the newest data matters most. A channel is a ring of
-- index entries over a ring of data bytes; any number of processes put messages and get them, each
-- reader through a handle of its own that knows the last number it has seen.
--
-- The library's core is modelled, function by function (the C names lose their prefix `ach_`; `open`
-- is `ach_open`, since the plain word is reserved):
-- - Shm: the types and constants of include/ach.h, the helpers of src/ach.c that read them
--   (check_guards, oldest_index_i, last_index_i, free_index). Shm/Invariant says what holds of a
--   channel between operations, Shm/Free, Shm/Places and Shm/Lookup where its entries stand, and
--   Shm/View reads it as a log and says when it is ready and when a handle may be used.
-- - Sync: check_lock, chan_lock, rdlock, unrdlock, wrlock and unwrlock of src/ach.c. What the pthread
--   calls return is an argument; the calls made are recorded. rdlock's waits are a list of returns,
--   each with the memory as other processes left it, so that every interleaving with them is such a
--   list. Sync/Discipline is the rule that the calls have to keep; Sync/ReadLock and Sync/Balance
--   prove it of the locks, Sync/Results gives the results of locks that are granted.
-- - Put: ach_put, in the steps that its comments name. Put/Clear to Put/Frame prove them one by one,
--   Put/Refine the whole; Put/Unlocked is about the result of wrlock, which ach_put does not read.
-- - Get: ach_get, ach_get_from_offset and ach_flush. Get/Choose proves which frame is read, Get/Copy
--   which bytes are copied, Get/Fetch and Get/Refine the whole; Get/Sequel puts,
--   then gets, or gets again; Get/Flush flushes, then gets.
-- - Name: check_errno, channel_name_ok, ach_result_to_string and the loops that try an interrupted
--   system call again; Name/File is the file of a channel, and ach_chmod.
-- - Create: ach_create and ach_open; Create/Fresh is what the first sets up, Create/Open what the
--   second returns.
-- - Cancel: ach_cancel, ach_close and ach_unlink; Cancel/Wake is what canceling does to a reader.
-- - Loud: rdlock_loud, unwrlock_loud, ach_get_loud and ach_put_loud with the marks that they print;
--   Loud/Same and Loud/ReadSame compare them with the others.
-- - Stream: ach_stream_read_fill of src/ach_stream.c; Stream/Message its messages,
--   Stream/Line is ach_read_line.
-- - Pipe: the frames of src/pipe.c; Pipe/Size is about their size field.
-- - Cop: the process watcher of src/achcop.c, with ach_notify and ach_die of src/achutil.c. What
--   fork, the signals and waitpid answer is an argument, what it does to other processes a list of
--   actions. Cop/Setup is what main does before, with the files of the children that run starts
--   (Cop/Setup/Locked, Cop/Setup/Started), Cop/Rounds steps its loop, Cop/Child, Cop/Notice and
--   Cop/Stops prove what it does.
-- - Achd: the daemon of src/achd. Achd/Io is io.c, over what the calls of read and write return;
--   Achd/Words and Achd/Headers read the headers of achd.c, Achd/Greeting prints those of client.c and
--   achd.c; Achd/Transport is get_frame, put_frame, achd_push_tcp and achd_pull_tcp of transport.c,
--   Achd/Udp its UDP transport; Achd/Client is server_connect and achd_reconnect, Achd/Serve is
--   achd_serve. Achd/Options is the command line, Achd/Run is achd_client and the signal handler; Achd/Run/Meets lets
--   a client and a server meet, Achd/Run/Canceled sends a signal to a waiting daemon.
-- - Achpipe: the loops of src/achpipe-bin.c, publish, and subscribe in Achpipe/Subscribe, over the
--   functions of Put, Get and Pipe; Achpipe/Relay puts the two on the ends of a pipe,
--   Achpipe/Options is the command line.
-- - Achchand: the control sockets of src/achchand.c; Achchand/Table is its
--   table with the loop of run_io, Achchand/Command is about a line, Achchand/Scan
--   about the loop that looks for lines, Achchand/Talk about what is queued for a client.
-- - Log: what a channel promises (the comments of include/ach.h), with no word of rings or bytes.
-- - Base, Memory, Ring: shared lemmas, memcpy, and circular arrays. Tests runs it all on small inputs.
--
-- State is passed explicitly: an operation takes the memory (Shm) and the handle (Channel) and
-- returns what it leaves. A failing assert and an access outside an array stop the run
-- (Base/Outcome): the asserts are those of a build with --enable-debug, which configure.ac builds
-- without NDEBUG; the default build leaves them out; the theorems about ready channels say that
-- neither happens. size_t and uint64_t are natural numbers whose arithmetic wraps at 2^64
-- (Base/Word). Sizes up to 2^63 and sequence numbers that have not yet wrapped are assumed where a
-- theorem needs them. The loop that clears overlapping entries runs on index_cnt + 1 rounds: it
-- frees an entry in each round but the last, and at most index_cnt are in use.
--
-- Not modelled: ach_dump; of src/achd detaching from the terminal, achd_sleep_till and the lookup of a
-- host; the set-up of the socket of src/achchand.c; the other command line tools, benchmarks, tests and
-- bindings. The system calls, getopt, aa_read_realloc, memcpy's own code, isalnum, strtol and strtoul are
-- not this program's: all but memcpy are arguments. That an attribute asks for
-- another clock or for a truncated file reaches only the system calls.
pub mod Base
pub mod Memory
pub mod Ring
pub mod Shm
pub mod Sync
pub mod Put
pub mod Log
pub mod Get
pub mod Name
pub mod Create
pub mod Cancel
pub mod Loud
pub mod Stream
pub mod Pipe
pub mod Cop
pub mod Achd
pub mod Achpipe
pub mod Achchand
pub mod Tests
