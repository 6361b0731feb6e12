-- ===== src/Ring/Main.antt =====
-- project2/client.c: main, which creates the threads, joins them and ends. project2/server.c: main up to
-- its loop.
use cs6210proj.Prelude.{
  ℕ, ◌+◌, ◌≤◌, ◌<◌, ◌≡◌, ℤ, some, List, [], ◌∷◌, ◌++◌, get_elem?, length, Bool, true, false, Bytes,
  codes, if◌then◌else◌,
}
use cs6210proj.Ring.Threads.{asking, finished, Processes, ProcessStep, start_threads, num_threads}

-- The server has ended with this exit code and message, or its loop runs, on the initial buffer that it has
-- written to the shared memory.
pub data ServerStart : Type 0 where
  server_failed : ℕ → Bytes → ServerStart
  server_runs : Processes → ServerStart

-- `mapped` is whether `mmap` of the shared memory succeeds.
unfoldable pub server_main : Bool → ServerStart
server_main mapped =
    if mapped
    then server_runs (start_threads 0)
    else server_failed 1 (codes "Unable to map shared memory.")

-- main is about to create thread `i`, or to join it, has returned a code, or has joined a thread that was never
-- created, whose `pthread_t` is not set.
pub data MainPhase : Type 0 where
  creating : ℕ → MainPhase
  joining : ℕ → MainPhase
  exited : ℕ → MainPhase
  undefined : MainPhase

pub record ClientMain : Type 0 where
  pub processes : Processes
  pub main : MainPhase
  pub unlinked : Bool
  pub errors : List Bytes

-- From a server that runs; `mapped` is whether the client's `mmap` succeeds.
unfoldable pub client_main : Bool → ClientMain
client_main mapped =
    if mapped
    then record { processes = start_threads 0; main = creating 0; unlinked = false; errors = [] }
    else record {
      processes = start_threads 0;
      main = exited 1;
      unlinked = true;
      errors = codes "Unable to map shared memory." ∷ [];
    }

abbrev pub add_thread : Processes → Processes
add_thread s = record s { clients = s.clients ++ asking 0 ∷ [] }

-- `thread` is a step of a thread or of the server.
pub data ClientStep (pow2 : ℤ → ℤ) (u : ClientMain) : ClientMain → Type 0 where
  thread :
      (s : Processes)
      → ProcessStep pow2 u.processes s
      → ClientStep pow2 u (record u { processes = s })
  create :
      (i : ℕ)
      → u.main ≡ creating i
      → i < num_threads
      → ClientStep pow2 u (record u { processes = add_thread u.processes; main = creating (i + 1) })
  create_failed :
      (i : ℕ)
      → u.main ≡ creating i
      → i < num_threads
      → ClientStep pow2 u
          (record u { main = joining 0; errors = codes "Unable to create thread" ∷ u.errors })
  created : u.main ≡ creating num_threads → ClientStep pow2 u (record u { main = joining 0 })
  join :
      (j : ℕ)
      → u.main ≡ joining j
      → j < num_threads
      → get_elem? u.processes.clients j ≡ some finished
      → ClientStep pow2 u (record u { main = joining (j + 1) })
  join_unset :
      (j : ℕ)
      → u.main ≡ joining j
      → j < num_threads
      → length u.processes.clients ≤ j
      → ClientStep pow2 u (record u { main = undefined })
  leave :
      u.main ≡ joining num_threads
      → ClientStep pow2 u (record u { main = exited 0; unlinked = true })

pub data ClientReach (pow2 : ℤ → ℤ) (u : ClientMain) : ClientMain → Type 0 where
  start : ClientReach pow2 u u
  later : {v w : ClientMain} → ClientReach pow2 u v → ClientStep pow2 v w → ClientReach pow2 u w
