-- ===== src/Ring/Buffer.antt =====
-- project2/ringbuffer.h and project2/ringbuffer.c: the shared record and the four functions on it.
use cs6210proj.Prelude.{
  ℕ, zero, suc, ◌+◌, ◌-◌, ◌%◌, ◌^◌, ℤ, pos, negsuc, ltb_ℤ, rem, true, false, Option, none, some,
  List, [], ◌∷◌, ltb, if◌then◌else◌, get_or, set, replicate,
}

-- A thread of either process.
abbrev pub Thread : Type 0
Thread = ℕ

abbrev pub max_size : ℕ
max_size = 128

pub record Request : Type 0 where
  pub x : ℤ
  pub p : ℤ
  pub response : ℕ

-- The mutex is its owner; a condition variable is the threads that wait on it, and `woken` holds
-- those that a signal has released and that have yet to run.
pub record RingBuffer : Type 0 where
  pub request_buffer : List Request
  pub request_writes : ℕ
  pub request_reads : ℕ
  pub data_mutex : Option Thread
  pub nonempty : List Thread
  pub response_ready : List (List Thread)
  pub response_buffer : List ℤ
  pub response_writes : ℕ
  pub response_reads : ℕ
  pub woken : List Thread

-- What a call does: it returns, it waits for the mutex for ever, or it divides by zero.
pub data Outcome (A : Type 0) : Type 0 where
  returned : A → RingBuffer → Outcome A
  blocked : Outcome A
  fault : Outcome A

-- `unsigned int` addition and subtraction, and the conversion to `int`.
abbrev pub inc32 : ℕ → ℕ
inc32 a = (a + 1) % 2 ^ 32

abbrev pub sub32 : ℕ → ℕ → ℕ
sub32 a b = (a + 2 ^ 32 - b) % 2 ^ 32

abbrev pub to_int : ℕ → ℤ
to_int w = if ltb w (2 ^ 31) then pos w else negsuc (2 ^ 32 - w - 1)

abbrev pub unused : Request
unused = record { x = pos 0; p = pos 0; response = 0 }

-- The mutex is not recursive: a second lock by its owner waits too.
abbrev pub lock : {A : Type 0} → Thread → RingBuffer → (RingBuffer → Outcome A) → Outcome A
lock t r body = elim r.data_mutex [
  | none ↦ body (record r { data_mutex = some t })
  | some _ ↦ blocked
]

abbrev pub unlock : RingBuffer → RingBuffer
unlock r = record r { data_mutex = none }

abbrev pub first_waiter : List Thread → List Thread
first_waiter [] = []
first_waiter (t ∷ ts) = t ∷ []

abbrev pub other_waiters : List Thread → List Thread
other_waiters [] = []
other_waiters (t ∷ ts) = ts

abbrev pub wake : List Thread → List Thread → List Thread
wake [] woken = woken
wake (t ∷ ts) woken = t ∷ woken

abbrev pub signal_nonempty : RingBuffer → RingBuffer
signal_nonempty r = record r {
  nonempty = other_waiters r.nonempty;
  woken = wake r.nonempty r.woken;
}

abbrev pub signal_response : ℕ → RingBuffer → RingBuffer
signal_response i r =
    let waiting : List Thread = get_or r.response_ready i [] in
    record r {
      response_ready = set r.response_ready i (other_waiters waiting);
      woken = wake waiting r.woken;
    }

-- `int size = rbuff->request_writes - rbuff->request_reads`
abbrev pub size_of : RingBuffer → ℤ
size_of r = to_int (sub32 r.request_writes r.request_reads)

abbrev pub write_slot : RingBuffer → ℕ
write_slot r = r.request_writes % max_size

abbrev pub next_write : RingBuffer → Request
next_write r = get_or r.request_buffer (write_slot r) unused

abbrev pub next_read : RingBuffer → Request
next_read r = get_or r.request_buffer (r.request_reads % max_size) unused

abbrev pub put_request : ℤ → ℤ → RingBuffer → RingBuffer
put_request x p r = record r {
  request_buffer = set r.request_buffer (write_slot r) (record (next_write r) { x = x; p = p });
  request_writes = inc32 r.request_writes;
}

-- A full buffer is reported with the mutex still held, as in the source.
unfoldable pub write_request : Thread → ℤ → ℤ → RingBuffer → Outcome ℤ
write_request t x p r = lock t r λ s.
    if ltb_ℤ (pos (max_size - 1)) (size_of s)
    then returned (negsuc 0) s
    else returned (pos (next_write s).response) (unlock (signal_nonempty (put_request x p s)))

abbrev pub put_response : ℤ → RingBuffer → RingBuffer
put_response v r = record r {
  request_reads = inc32 r.request_reads;
  response_buffer = set r.response_buffer (r.response_writes % max_size) v;
  response_writes = inc32 r.response_writes;
}

abbrev pub slots : ℕ → ℕ → List Request
slots i zero = []
slots i (suc n) = record { x = pos 0; p = pos 0; response = i } ∷ slots (i + 1) n

-- The requests' `x` and `p`, and the responses, are not initialised; they are read after a write only.
abbrev pub init_ring_buffer : RingBuffer
init_ring_buffer = record {
  request_buffer = slots 0 max_size;
  request_writes = 0;
  request_reads = 0;
  data_mutex = none;
  nonempty = [];
  response_ready = replicate max_size [];
  response_buffer = replicate max_size (pos 0);
  response_writes = 0;
  response_reads = 0;
  woken = [];
}

-- The client's part of `make_requests` that runs with the mutex, once its wait is over.
unfoldable pub take_response : Thread → RingBuffer → Outcome ℤ
take_response t r = lock t r λ s.
    returned (get_or s.response_buffer (s.response_reads % max_size) (pos 0))
      (unlock (record s { response_reads = inc32 s.response_reads }))

-- `pow2 x` is `(int) pow(2.0, x)`, of the C library's floating point.
module _ (pow2 : ℤ → ℤ) where
  abbrev pub answer : Request → Option ℤ
  answer q = rem (pow2 q.x) q.p

  -- An empty buffer is left with the mutex still held, as in the source.
  unfoldable pub read_request : Thread → RingBuffer → Outcome (Unit {0})
  read_request t r = lock t r λ s.
      if ltb_ℤ (size_of s) (pos 1) then returned tt s else elim (answer (next_read s)) [
        | none ↦ fault
        | some v ↦ returned tt (unlock (signal_response (next_read s).response (put_response v s)))
      ]

  -- The first argument is fuel; out of fuel the call has not returned. The test is on `unsigned int`.
  unfoldable pub process_requests : ℕ → Thread → RingBuffer → Option (Outcome (Unit {0}))
  process_requests zero t r = none
  process_requests (suc f) t r = elim (ltb 0 (sub32 r.request_writes r.request_reads)) [
    | false ↦ some (returned tt r)
    | true ↦ elim (read_request t r) [
      | returned _ s ↦ process_requests f t s
      | blocked ↦ some blocked
      | fault ↦ some fault
    ]
  ]
