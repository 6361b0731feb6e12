-- ===== src/Ring/Slots.antt =====
-- project2/ringbuffer.c: which entry, and so which condition variable, each request gets.
use cs6210proj.Prelude.{
  ℕ, zero, suc, ◌+◌, ◌-◌, ◌%◌, ◌≤◌, ◌<◌, ◌≡◌, ◌≢◌, ap, ◌∙◌, ℤ, pos, none, List, [], ◌∷◌, arith,
  get_or, get_or-set_ne, get_or-set_self,
}
use native.Mathlib.Decide.{ℕ_discrete}
use cs6210proj.Ring.Buffer.{
  Thread, Request, RingBuffer, returned, unused, slots, write_request, init_ring_buffer, write_slot,
}
use cs6210proj.Ring.Window.{window}
use cs6210proj.Ring.Requests.{IsValid, pending_count, pending, after_write, write_request-room}

-- Every array entry names the condition variable of its own index.
abbrev pub IsNumbered : RingBuffer → Type 0
IsNumbered r = (i : ℕ) → i < 128 → (get_or r.request_buffer i unused).response ≡ i

slots-response : (n k i : ℕ) → i < n → (get_or (slots k n) i unused).response ≡ k + i
slots-response zero k i h = elim h [ ]
slots-response (suc n) k zero h = omega arith
slots-response (suc n) k (suc i) h = omega (arith, slots-response n (k + 1) i)

pub init-IsNumbered : IsNumbered init_ring_buffer
init-IsNumbered i h = omega (arith, slots-response 128 0 i h)

pub after_write-IsNumbered :
    (t : Thread) (x p : ℤ) (r : RingBuffer)
    → IsValid r
    → IsNumbered r
    → IsNumbered (after_write t x p r)
after_write-IsNumbered t x p r v n i h = elim (ℕ_discrete (write_slot r) i) [
  | yes e ↦ rw (e, get_or-set_self r.request_buffer i _ unused (omega arith)) (n i h)
  | no e ↦ rw (get_or-set_ne r.request_buffer _ unused e) (n i h)
]

abbrev pub All : (Request → Type 0) → List Request → Type 0
All P [] = Unit
All P (q ∷ qs) = P q × All P qs

window-slots :
    (buf : List Request) (h n m : ℕ)
    → ((i : ℕ) → i < 128 → (get_or buf i unused).response ≡ i)
    → n ≤ m
    → m < 128
    → All (λ q. q.response ≢ (h + m) % 128) (window unused buf h n)
window-slots buf h zero m num b c = tt
window-slots buf h (suc n) m num b c = (
  λ (e : (get_or buf (h % 128) unused).response ≡ (h + m) % 128).
      omega (arith, num (h % 128) (omega arith)),
  let e : (h + 1 + (m - 1)) % 128 ≡ (h + m) % 128 = omega arith in
      rw e at (window-slots buf (h + 1) n (m - 1) num (omega arith) (omega arith)),
)

-- In a buffer whose entries are numbered, with the mutex free and fewer than 128 requests waiting,
-- `write_request` returns the number of the entry that it fills, no request that waits has this
-- number, and the entries stay numbered.
pub write_request-IsNumbered :
    (t : Thread) (x p : ℤ) (r : RingBuffer)
    → IsValid r
    → IsNumbered r
    → r.data_mutex ≡ none
    → pending_count r < 128
    → (s : RingBuffer) × (write_request t x p r ≡ returned (pos (write_slot r)) s)
      × All (λ q. q.response ≢ write_slot r) (pending r)
      × IsNumbered s
write_request-IsNumbered t x p r v n m h = (
  after_write t x p r,
  write_request-room t x p r m h
      ∙ ap (λ i. returned (pos i) (after_write t x p r)) (n (write_slot r) (omega arith)),
  let e : (r.request_reads + pending_count r) % 128 ≡ write_slot r = omega arith in
      rw e at (
        window-slots r.request_buffer r.request_reads (pending_count r) (pending_count r) n
          (omega arith) h),
  after_write-IsNumbered t x p r v n,
)
