-- ===== src/Ring/Requests.antt =====
-- project2/ringbuffer.c: the requests that wait, as a queue of at most 128.
use cs6210proj.Prelude.{
  ℕ, suc, ◌^◌, ◌≤◌, ◌<◌, ◌≡◌, refl, ℤ, pos, none, some, List, [], ◌∷◌, ◌++◌, arith, length,
  length-set,
}
use cs6210proj.Ring.Buffer.{
  Thread, Request, RingBuffer, returned, unused, sub32, next_write, write_slot, put_request, unlock,
  signal_nonempty, write_request, init_ring_buffer,
}
use cs6210proj.Ring.Window.{window, window-set}

pub record IsValid (r : RingBuffer) : Type 0 where
  pub request_slots : length r.request_buffer ≡ 128
  pub response_slots : length r.response_buffer ≡ 128
  pub condition_slots : length r.response_ready ≡ 128
  pub writes_word : r.request_writes < 2 ^ 32
  pub reads_word : r.request_reads < 2 ^ 32
  pub pending_fits : sub32 r.request_writes r.request_reads ≤ 128
  pub answers_word : r.response_writes < 2 ^ 32
  pub taken_word : r.response_reads < 2 ^ 32

abbrev pub pending_count : RingBuffer → ℕ
pending_count r = sub32 r.request_writes r.request_reads

-- oldest first
abbrev pub pending : RingBuffer → List Request
pending r = window unused r.request_buffer r.request_reads (pending_count r)

pub init-IsValid : IsValid init_ring_buffer
init-IsValid = omega arith

abbrev pub after_write : Thread → ℤ → ℤ → RingBuffer → RingBuffer
after_write t x p r = unlock (signal_nonempty (put_request x p (record r { data_mutex = some t })))

pub write_request-room :
    (t : Thread) (x p : ℤ) (r : RingBuffer)
    → r.data_mutex ≡ none
    → pending_count r < 128
    → write_request t x p r ≡ returned (pos (next_write r).response) (after_write t x p r)
unfolding write_request
write_request-room t x p r m h = ground arith

pub after_write-IsValid :
    (t : Thread) (x p : ℤ) {r : RingBuffer}
    → IsValid r
    → pending_count r < 128
    → IsValid (after_write t x p r)
after_write-IsValid t x p {r} v h =
    ground
      (arith, length-set r.request_buffer (write_slot r) (record (next_write r) { x = x; p = p }))

pending-after_write :
    (t : Thread) (x p : ℤ) (r : RingBuffer)
    → IsValid r
    → pending_count r < 128
    → pending (after_write t x p r) ≡ pending r ++ record (next_write r) { x = x; p = p } ∷ []
pending-after_write t x p r v h =
    let e : pending_count (after_write t x p r) ≡ suc (pending_count r) = omega arith in
    rw e (
      window-set unused r.request_buffer r.request_reads (pending_count r) (write_slot r) _
        v.request_slots h (omega arith))

-- With the mutex free and fewer than 128 requests waiting, `write_request` returns the response
-- slot of the array entry that it fills, appends the request to those that wait, frees the mutex,
-- leaves the responses alone and keeps the buffer well-formed.
pub write_request-append :
    (t : Thread) (x p : ℤ) (r : RingBuffer)
    → IsValid r
    → r.data_mutex ≡ none
    → pending_count r < 128
    → (s : RingBuffer) × (write_request t x p r ≡ returned (pos (next_write r).response) s)
      × (pending s ≡ pending r ++ record (next_write r) { x = x; p = p } ∷ [])
      × (s.data_mutex ≡ none)
      × (s.response_buffer ≡ r.response_buffer)
      × (s.response_writes ≡ r.response_writes)
      × (s.response_reads ≡ r.response_reads)
      × IsValid s
write_request-append t x p r v m h = (
  after_write t x p r,
  write_request-room t x p r m h,
  pending-after_write t x p r v h,
  refl,
  refl,
  refl,
  refl,
  after_write-IsValid t x p v h,
)
