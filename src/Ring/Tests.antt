-- ===== src/Ring/Tests.antt =====
-- project2: runs of the ring buffer, and the theorems at concrete buffers.
use cs6210proj.Prelude.{
  ◌^◌, ℕ, ◌<◌, ◌+◌, ◌≤◌, get_elem?, ◌≡◌, ◌≢◌, refl, ℤ, pos, negsuc, some, none, List, [], ◌∷◌, ◌++◌,
  arith, get_or, rem, Option, set, length-set,
}
use mathlib.Core.Option
use cs6210proj.Ring.Buffer.{
  Request, RingBuffer, next_write, Outcome, returned, blocked, next_read, write_request,
  read_request, take_response, process_requests, init_ring_buffer,
}
use cs6210proj.Ring.Requests.{
  IsValid, pending_count, pending, after_write, init-IsValid, after_write-IsValid,
  write_request-append,
}
use cs6210proj.Ring.Responses.{ready_count, ready, read_request-serve, take_response-oldest}
use cs6210proj.Ring.Slots.{IsNumbered, All, init-IsNumbered, write_request-IsNumbered}
use cs6210proj.Ring.Threads.{
  prime, Processes, ProcessReach, ProcessStep, start_threads, asking, awaiting, listening, sleeping,
}
use cs6210proj.Ring.Threads
use cs6210proj.Ring.Outstanding.{start_threads-outstanding}
use cs6210proj.Ring.Deadlock.{all_asleep}
use cs6210proj.Ring.Jammed.{all_jammed}
use cs6210proj.Ring.Service.{IsIdle, process_requests-drain, request-response}

-- `(int) pow(2.0, x)` where the power is a small integer; negative powers are cut off to 0.
abbrev pub pow2 : ℤ → ℤ
pow2 (pos n) = pos (2 ^ n)
pow2 (negsuc n) = pos 0

abbrev asked : ℤ → Request
asked x = record { x = x; p = pos 97; response = 0 }

-- Thread 1 has asked for 2^10 % 97, thread 2 for 2^3 % 97, and thread 2 waits for its response.
abbrev busy : RingBuffer
busy = after_write 2 (pos 3) (pos 97) (after_write 1 (pos 10) (pos 97) init_ring_buffer)

-- One response waits.
abbrev responded : RingBuffer
responded = record init_ring_buffer { response_writes = 1 }

busy-IsValid : IsValid busy
busy-IsValid =
    after_write-IsValid 2 (pos 3) (pos 97)
      (after_write-IsValid 1 (pos 10) (pos 97) init-IsValid (omega arith)) (omega arith)

outcome_value : Outcome ℤ → Option ℤ
outcome_value (returned v r) = some v
outcome_value blocked = none
outcome_value Outcome.fault = none

first_slot : outcome_value (write_request 1 (pos 10) (pos 97) init_ring_buffer) ≡ some (pos 0)
unfolding outcome_value write_request
first_slot = refl

drained : Outcome (Unit {0}) → List ℤ
drained (returned _ r) = ready r
drained blocked = []
drained Outcome.fault = []

busy-drained : Option.map drained (process_requests pow2 3 0 busy) ≡ some (pos 54 ∷ pos 8 ∷ [])
unfolding drained process_requests read_request rem
busy-drained = refl

write_request-append_example :
    (s : RingBuffer) × (write_request 2 (pos 4) (pos 97) busy ≡ returned (pos 2) s)
    × (pending s ≡ pending busy ++ record { x = pos 4; p = pos 97; response = 2 } ∷ [])
    × (s.data_mutex ≡ none)
    × (s.response_buffer ≡ busy.response_buffer)
    × (s.response_writes ≡ 0)
    × (s.response_reads ≡ 0)
    × IsValid s
write_request-append_example =
    write_request-append 2 (pos 4) (pos 97) busy busy-IsValid refl (omega arith)

-- Thread 1 waits for its response too.
abbrev awaited : RingBuffer
awaited = record busy { response_ready = set busy.response_ready 0 (1 ∷ []) }

awaited-IsValid : IsValid awaited
awaited-IsValid = ground (arith, busy-IsValid, length-set busy.response_ready 0 (1 ∷ []))

read_request-serve_example :
    (s : RingBuffer) × (read_request pow2 0 awaited ≡ returned tt s)
    × (pending awaited ≡ next_read awaited ∷ pending s)
    × (ready s ≡ ready awaited ++ pos 54 ∷ [])
    × (get_or s.response_ready 0 [] ≡ [])
    × (s.woken ≡ 1 ∷ awaited.woken)
    × (s.data_mutex ≡ none)
    × IsValid s
unfolding rem
read_request-serve_example =
    read_request-serve pow2 0 awaited (pos 54) awaited-IsValid refl (omega arith) (omega arith) refl

responded-IsValid : IsValid responded
responded-IsValid = omega arith

take_response-oldest_example :
    (s : RingBuffer) × (take_response 9 responded ≡ returned (pos 0) s)
    × (ready s ≡ [])
    × (pending s ≡ pending responded)
    × (s.data_mutex ≡ none)
    × IsValid s
take_response-oldest_example =
    take_response-oldest 9 responded (pos 0) [] responded-IsValid refl refl

process_requests-drain_example :
    (s : RingBuffer) × (process_requests pow2 3 0 busy ≡ some (returned tt s))
    × (pending s ≡ [])
    × (ready s ≡ ready busy ++ pos 54 ∷ pos 8 ∷ [])
    × (s.data_mutex ≡ none)
    × IsValid s
unfolding rem
process_requests-drain_example =
    process_requests-drain pow2 3 0 busy (pos 54 ∷ pos 8 ∷ []) busy-IsValid refl (omega arith)
      (omega arith) (refl, (refl, tt))

write_request-IsNumbered_example :
    (s : RingBuffer) × (write_request 3 (pos 1) (pos 97) init_ring_buffer ≡ returned (pos 0) s)
    × All (λ q. q.response ≢ 0) (pending init_ring_buffer)
    × IsNumbered s
write_request-IsNumbered_example =
    write_request-IsNumbered 3 (pos 1) (pos 97) init_ring_buffer init-IsValid init-IsNumbered refl
      (omega arith)

request-response_example :
    (s₁ : RingBuffer) × (s₂ : RingBuffer) × (s₃ : RingBuffer) × (write_request 1
        (pos 10)
        (pos 97)
        init_ring_buffer
      ≡ returned (pos 0) s₁)
    × (process_requests pow2 2 0 s₁ ≡ some (returned tt s₂))
    × (take_response 1 s₂ ≡ returned (pos 54) s₃)
    × IsIdle s₃
unfolding rem
request-response_example =
    request-response pow2 1 0 (pos 10) (pos 97) (pos 54) init_ring_buffer
      (init-IsValid, refl, refl, refl) refl

-- Two threads start, and thread 1 asks.
abbrev one_asked : Processes
one_asked = record {
  buffer = after_write 1 (pos 0) (pos 97) init_ring_buffer;
  clients = asking 0 ∷ Threads.asked 0 0 ∷ [];
  server = listening;
  results = [];
}

one_asked_run : ProcessReach pow2 (start_threads 2) one_asked
unfolding start_threads write_request
one_asked_run =
    Threads.next Threads.here
      (Threads.write 1 0 0 (after_write 1 (pos 0) (pos 97) init_ring_buffer) refl refl)

start_threads-outstanding_example :
    (one_asked.buffer.data_mutex ≡ none)
    × (pending_count one_asked.buffer + ready_count one_asked.buffer ≡ 1)
    × (pending_count one_asked.buffer + ready_count one_asked.buffer ≤ 128)
    × ((t i : ℕ)
        → get_elem? one_asked.clients t ≡ some (asking i)
        → (b : RingBuffer) × (write_request t (pos i) (pos 97) one_asked.buffer
            ≡ returned (pos (next_write one_asked.buffer).response) b))
start_threads-outstanding_example =
    start_threads-outstanding pow2 2 one_asked (omega arith) one_asked_run

-- Two threads and the server wait for each other.
all_asleep_example :
    (s : Processes) × ProcessReach pow2 (start_threads 2) s
    × (pending_count s.buffer ≡ 2)
    × (s.server ≡ sleeping)
    × ((t : ℕ) → t < 2 → (k : ℕ) × (get_elem? s.clients t ≡ some (awaiting 0 k)))
    × ((t : Processes) → ¬ ProcessStep pow2 s t)
all_asleep_example = all_asleep pow2 2 (omega arith)

all_jammed_example :
    (s : Processes) × ProcessReach pow2 (start_threads 200) s
    × (pending_count s.buffer ≡ 128)
    × (s.results ≡ [])
    × ((b : RingBuffer) × (write_request 0 (pos 0) prime b ≡ returned (negsuc 0) s.buffer))
    × (s.buffer.data_mutex ≡ some 0)
    × ((t : Processes) → ¬ ProcessStep pow2 s t)
all_jammed_example = all_jammed pow2 200 (omega arith)
