-- ===== src/Ring/Threads.antt =====
-- project2/client.c and project2/server.c: the loops of the client's threads and of the server, as
-- interleaved steps on the shared buffer.
use cs6210proj.Prelude.{
  ℕ, ◌+◌, ◌-◌, ◌^◌, ◌<◌, ◌≡◌, ℤ, pos, negsuc, none, some, List, [], ◌∷◌, ◌++◌, get_elem?, get_or,
  set, replicate, ltb, if◌then◌else◌,
}
use cs6210proj.Ring.Buffer.{
  Thread, RingBuffer, returned, sub32, init_ring_buffer, write_request, take_response, read_request,
}

abbrev pub prime : ℤ
prime = pos 97

-- The client's threads have the numbers from 0 on.
abbrev pub num_threads : ℕ
num_threads = 128

abbrev pub server_thread : Thread
server_thread = num_threads

-- make_requests: the thread is about to write request `i`, has the slot of its response, waits for the
-- response with that slot, or is done.
pub data ClientPhase : Type 0 where
  asking : ℕ → ClientPhase
  asked : ℕ → ℕ → ClientPhase
  awaiting : ℕ → ℕ → ClientPhase
  finished : ClientPhase

-- The server is about to wait for requests, waits, or is in process_requests.
pub data ServerPhase : Type 0 where
  listening : ServerPhase
  sleeping : ServerPhase
  serving : ServerPhase

-- `i++` and the test `pow(2.0, i) < INT_MAX`
unfoldable pub next_round : ℕ → ClientPhase
next_round i = if ltb (2 ^ (i + 1)) (2 ^ 31 - 1) then asking (i + 1) else finished

-- `results` are the requests and values that the threads have printed.
pub record Processes : Type 0 where
  pub buffer : RingBuffer
  pub clients : List ClientPhase
  pub server : ServerPhase
  pub results : List (ℕ × ℤ)

-- The server has initialised the buffer, and `n` client threads start.
unfoldable pub start_threads : ℕ → Processes
start_threads n = record {
  buffer = init_ring_buffer;
  clients = replicate n (asking 0);
  server = listening;
  results = [];
}

-- `pthread_cond_wait` gives the mutex up as it begins.
abbrev pub await_response : Thread → ℕ → RingBuffer → RingBuffer
await_response t k r = record r {
  response_ready = set r.response_ready k (get_or r.response_ready k [] ++ t ∷ []);
}

abbrev pub await_nonempty : Thread → RingBuffer → RingBuffer
await_nonempty t r = record r { nonempty = r.nonempty ++ t ∷ [] }

abbrev pub move : ℕ → ClientPhase → RingBuffer → Processes → Processes
move t p b s = record s { buffer = b; clients = set s.clients t p }

-- A thread that has been signalled goes on when it gets the mutex.
pub data ProcessStep (pow2 : ℤ → ℤ) (s : Processes) : Processes → Type 0 where
  write :
      (t i k : ℕ) (b : RingBuffer)
      → get_elem? s.clients t ≡ some (asking i)
      → write_request t (pos i) prime s.buffer ≡ returned (pos k) b
      → ProcessStep pow2 s (move t (asked i k) b s)
  refused :
      (t i : ℕ) (b : RingBuffer)
      → get_elem? s.clients t ≡ some (asking i)
      → write_request t (pos i) prime s.buffer ≡ returned (negsuc 0) b
      → ProcessStep pow2 s (move t (next_round i) b s)
  await :
      (t i k : ℕ)
      → get_elem? s.clients t ≡ some (asked i k)
      → s.buffer.data_mutex ≡ none
      → ProcessStep pow2 s (move t (awaiting i k) (await_response t k s.buffer) s)
  take :
      (t i k : ℕ) (v : ℤ) (earlier later : List Thread) (b : RingBuffer)
      → get_elem? s.clients t ≡ some (awaiting i k)
      → s.buffer.woken ≡ earlier ++ t ∷ later
      → take_response t (record s.buffer { woken = earlier ++ later }) ≡ returned v b
      → ProcessStep pow2 s (record (move t (next_round i) b s) { results = (i, v) ∷ s.results })
  listen :
      s.server ≡ listening
      → s.buffer.data_mutex ≡ none
      → ProcessStep pow2 s
          (record s { buffer = await_nonempty server_thread s.buffer; server = sleeping })
  wake :
      (earlier later : List Thread)
      → s.server ≡ sleeping
      → s.buffer.woken ≡ earlier ++ server_thread ∷ later
      → s.buffer.data_mutex ≡ none
      → ProcessStep pow2 s
          (record s { buffer = record s.buffer { woken = earlier ++ later }; server = serving })
  serve :
      (b : RingBuffer)
      → s.server ≡ serving
      → 0 < sub32 s.buffer.request_writes s.buffer.request_reads
      → read_request pow2 server_thread s.buffer ≡ returned tt b
      → ProcessStep pow2 s (record s { buffer = b })
  rest :
      s.server ≡ serving
      → sub32 s.buffer.request_writes s.buffer.request_reads ≡ 0
      → ProcessStep pow2 s (record s { server = listening })

pub data ProcessReach (pow2 : ℤ → ℤ) (s : Processes) : Processes → Type 0 where
  here : ProcessReach pow2 s s
  next : {t u : Processes} → ProcessReach pow2 s t → ProcessStep pow2 t u → ProcessReach pow2 s u
