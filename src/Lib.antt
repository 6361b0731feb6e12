-- ===== src/Lib.antt =====
-- Verification of three programs of this repository: the ring buffer in shared memory (project2),
-- the client that calls one procedure on many servers (project3/examples/xmlrpc_client.c) and the
-- library for recoverable virtual memory (project4) with its sample programs. The client calls the
-- server of the examples of Xmlrpc-c, xmlrpc_sample_add_server.c, which is modelled with its
-- synchronous client. The rest of project3 is a copy of the library Xmlrpc-c; it is not modelled.
--
-- Prelude: what the parts share. Numbers are native ℕ; Int has C's int as ℤ with `%` as `rem`,
-- Text has byte strings, Lists and Slices the array operations, Tests the Boolean tests, Finite a
-- test on all numbers below a bound.
--
-- Ring (project2). Client threads write requests (x, p) into a buffer that a server process
-- drains; the answer is (int) pow(2.0, x) % p. Ring/Buffer has struct ring_buffer as the record
-- RingBuffer and init_ring_buffer, write_request, read_request and process_requests of
-- ringbuffer.c under their names; take_response is the critical section of make_requests in
-- client.c. The counters are 32-bit and wrap. The mutex is its owner, a condition variable is the
-- list of the threads that wait on it, and a signal wakes the one at its head. A call either
-- returns, waits for the mutex for ever, or divides by zero. Each call is atomic, as it runs with
-- the mutex. Ring/Threads has the loop of make_requests and the server's loop as a step relation
-- on the buffer and the threads' phases (ProcessStep), one step for each call, wait and wake-up; a
-- woken thread goes on when the mutex is free, and nothing wakes it but a signal. Its server step
-- serves one request, as a round of process_requests does. (int) pow(2.0, x) is a parameter, pow2.
-- The loop of process_requests is on fuel; one more than the number of waiting requests is enough.
-- Ring/Window reads the requests and the responses that wait off the arrays as lists, which the
-- theorems of Ring/Requests, Ring/Responses, Ring/Slots and Ring/Service are about. Ring/Balance
-- and Ring/Outstanding are about the runs of the step relation. Ring/Deadlock and Ring/Jammed have
-- runs at whose end nobody goes on. Ring/Main has main of client.c, which creates and joins the
-- threads, as steps between those of the threads and the server (ClientStep); whether mmap and
-- pthread_create succeed is left open. Ring/Joined is about its runs, with Ring/Joining and
-- Ring/Rounds for the threads and their rounds. Ring/Completed has the run in which it returns,
-- with Ring/Rounding for a round of it. Ring/Main has main of server.c up to its loop too
-- (server_main), which comes first; the name of the shared memory, a server that starts while
-- clients run, and the timings are not modelled.
--
-- Multirpc (project3/examples/xmlrpc_client.c). client_start_sync starts a thread for each server,
-- and waits until the response handler signals that enough servers have answered: a majority, any,
-- or all. Multirpc/Client has the globals, handle_sample_add_response and the arguments of main;
-- Multirpc/Threads has the threads as a step relation, one step for each part that runs on its
-- own. What the calls of Xmlrpc-c in the handler come to is its argument, a Reply; atoi is a
-- parameter. A wait ends with a signal only; spurious wake-ups are not modelled. Theorems:
-- Multirpc/Quorum (the handler on a sequence of replies), Multirpc/Safety (what every run keeps),
-- Multirpc/Races (runs with races) and Multirpc/Arguments. Multirpc/Custom and Multirpc/Asked are
-- about project3/examples/xmlrpc_asynch_client.c, an earlier version with the same globals and
-- handler, in which CustomClientStart (custom_client_start) passes each thread its own server
-- name. Multirpc/Main has what both programs' main does with its arguments, in the asynchronous
-- and the synchronous mode, as steps of the main thread between those of the client's threads
-- (MainStep), with what the process prints on stdout (Multirpc/Messages; says and custom_says for
-- the threads' part); pthread_create of the client's thread succeeds, as main does not ask.
-- Multirpc/Ordering is about these runs, with Multirpc/Moves, Multirpc/Says and Multirpc/Printed
-- for its steps. Multirpc/Server has sample_add and main of
-- project3/examples/xmlrpc_sample_add_server.c up to the server's loop, and the runs of the client
-- in which Xmlrpc-c carries sample_add's result back or fails the call (Served); Multirpc/Sum is
-- about the number that the client prints then. Multirpc/Sample has main of
-- project3/examples/xmlrpc_sample_add_client.c, which calls the server once and waits; the
-- library's calls are parameters, and what it writes to stderr is left out.
--
-- Rvm (project4). A store is a directory; a segment is a file of it, mapped privately into memory.
-- A transaction announces the ranges it changes; a commit writes them to the file, an abort reads
-- the file back. store.log and a log for each segment record the calls. Rvm/State has the record
-- Rvm with the globals of rvm.c, the process's mappings and locks, what it printed, and the files;
-- and logRVM (log_rvm) and logSegment (log_segment). Rvm/Table has the loops over the table
-- `mapped`, getSegmentFromSegBase (find_base) among them, Rvm/Mapping rvm_init, rvm_map,
-- rvm_unmap, rvm_destroy and rvm_verbose, Rvm/Transaction rvm_begin_trans, rvm_about_to_modify,
-- rvm_commit_trans and rvm_abort_trans, Rvm/Truncation rvm_truncate_log. A call is done, faults
-- (an access outside of an object), or hangs (a loop that does not end). The loop of
-- rvm_truncate_log is on fuel, the number of bytes of segments.log, of which each round reads one
-- at least; the one that prints store.log (played) likewise. What is assumed of POSIX: a file is
-- its bytes; an open fails only where the file is missing and O_CREAT is not given; a read or
-- write of an open file moves all the bytes there are; a lock waits for nobody, as other processes
-- are not modelled; closing a file drops the process's locks on it; mmap returns the address that
-- is the argument `at`, and a private mapping is a copy, made when it is mapped. Offsets and sizes
-- are not negative. The list of bases that a transaction keeps is taken as it was when the
-- transaction began. Not modelled: mkdir, descriptors that stay open, the sizes of malloc for
-- names, a read of segments.log while it is being truncated. Theorems: Rvm/Ranges and Rvm/Commit
-- (commits), Rvm/Restore (aborts), Rvm/Mapped, Rvm/Growth and Rvm/Unmapping (the table),
-- Rvm/Recovery (a process after a crash), Rvm/Modify, Rvm/Begin and Rvm/Emptied (the logs'
-- truncation). Rvm/Reuse is about entries of the table that are used again. Rvm/Negative is about
-- rvm_unmap with nothing mapped. Rvm/Queue has the rvm_unmap of one entry after the other.
-- Rvm/Loops has their shared lemmas. Rvm/Crash has a commit in a process that does not survive it:
-- it ends between two ranges, each of which is written whole or not at all.
--
-- Rvm/Ends and the tree under Rvm/Session are about whole programs over the library. Rvm/Ends has
-- rules of total correctness for the actions of Rvm/State. A Session says of a process that the
-- first k of the n segments of a store are mapped, and what the bytes of each are, in memory and
-- in the file, and which ranges are announced; Names has what is assumed of their names and
-- addresses. Rvm/Session/View has the abstract operations on these bytes: announce, commit,
-- restore, opened, destroyed. Rvm/Session/Logs, Change, Announced, Committed and Restored have the
-- lemmas for the logs and for one segment, Rvm/Session/Transactions, Mapping and Start those for
-- the calls, and Rvm/Session/Refinement takes the calls as these operations. Start also has what a
-- process finds that starts after another (Fresh). Rvm/Session/Crashed is about what a commit
-- leaves that was cut short. Rvm/Session/Listed has the transactions on any addresses,
-- Rvm/Session/Full the calls on a full table.
--
-- Rvm/Programs and its children Abort, Multi, Limits and Single have the sample programs of
-- project4: abort.c, multi-abort.c, multi.c, maxsegments.c, unmapinvalid.c, basic.c, verbose.c and
-- truncate.c, each main as an action whose result is the exit code. The addresses that mmap
-- returns are parameters, as is whether fork succeeds; the child that ends in abort() leaves its
-- files and nothing else, and what a child with undefined behaviour leaves of the files is a
-- parameter; the parent's output is that of its own. The texts are copied to a buffer with their
-- terminator, strcmp and %s read up to it, and an access past the mapping's end faults. What `ls`
-- prints is a parameter. Theorems: Rvm/Programs/Passes (abort.c), Pair (multi-abort.c), Forked
-- (multi.c), Emptying (truncate.c) and Faults (basic.c and verbose.c); Texts, Committed and Shared
-- have their lemmas. Exceeded (maxsegments.c, with Named, Rounds and Maximum for its names, texts
-- and rounds) and Invalid (unmapinvalid.c) follow from the sessions too.
--
-- Ring/Tests, Ring/MainTests, Multirpc/Tests, Multirpc/MainTests, Rvm/Tests, Rvm/ReuseTests,
-- Rvm/Session/Tests (with its store in Rvm/Session/Sample) and Rvm/Programs/Tests run the
-- definitions and apply the theorems to small states.
pub mod Prelude
pub mod Ring
pub mod Multirpc
pub mod Rvm
