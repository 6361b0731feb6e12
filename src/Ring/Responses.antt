-- ===== src/Ring/Responses.antt =====
-- project2/ringbuffer.c, project2/client.c: the responses that wait, and how each side moves them.
use cs6210proj.Prelude.{
  ℕ, zero, suc, ◌+◌, ◌%◌, ◌<◌, ◌≡◌, refl, ap, sym, ℤ, pos, none, some, List, [], ◌∷◌, ◌++◌, arith,
  length, get_or, set, length-set,
}
use cs6210proj.Ring.Buffer.{
  Thread, RingBuffer, returned, unused, inc32, sub32, next_read, put_response, unlock,
  signal_response, other_waiters, wake, read_request, take_response, answer,
}
use cs6210proj.Ring.Window.{window, length-window, window-mod, window-set}
use cs6210proj.Ring.Requests.{IsValid, pending_count, pending}

abbrev pub ready_count : RingBuffer → ℕ
ready_count r = sub32 r.response_writes r.response_reads

-- oldest first
abbrev pub ready : RingBuffer → List ℤ
ready r = window (pos 0) r.response_buffer r.response_reads (ready_count r)

-- `window` matches on `suc`, the code compares counters.
window_of_pos {ℓ} :
    {A : Type ℓ} (blank : A) (buf : List A) (h h' n m : ℕ)
    → n ≡ suc m
    → h' % 128 ≡ (h + 1) % 128
    → window blank buf h n ≡ get_or buf (h % 128) blank ∷ window blank buf h' m
window_of_pos blank buf h h' n m e e' =
    rw e (ap (◌∷◌ (get_or buf (h % 128) blank)) (window-mod blank buf (h + 1) h' m (sym e')))

get_or-set_other :
    (xss : List (List Thread)) (i : ℕ)
    → get_or (set xss i (other_waiters (get_or xss i []))) i [] ≡ other_waiters (get_or xss i [])
get_or-set_other [] i = refl
get_or-set_other (xs ∷ xss) zero = refl
get_or-set_other (xs ∷ xss) (suc i) = get_or-set_other xss i

abbrev pub after_take : Thread → RingBuffer → RingBuffer
after_take t r = unlock (record r { data_mutex = some t; response_reads = inc32 r.response_reads })

abbrev pub after_read : Thread → ℤ → RingBuffer → RingBuffer
after_read t v r =
    unlock
      (signal_response (next_read r).response (put_response v (record r { data_mutex = some t })))

pub after_read-IsValid :
    (t : Thread) (v : ℤ) {r : RingBuffer}
    → IsValid r
    → 0 < pending_count r
    → IsValid (after_read t v r)
after_read-IsValid t v {r} w h = ground (
  arith,
  length-set r.response_buffer (r.response_writes % 128) v,
  length-set r.response_ready (next_read r).response
      (other_waiters (get_or r.response_ready (next_read r).response [])),
)

ready-after_read :
    (t : Thread) (v : ℤ) (r : RingBuffer)
    → IsValid r
    → ready_count r < 128
    → ready (after_read t v r) ≡ ready r ++ v ∷ []
ready-after_read t v r w h =
    let e : ready_count (after_read t v r) ≡ suc (ready_count r) = omega arith in
    rw e (
      window-set (pos 0) r.response_buffer r.response_reads (ready_count r) _ v w.response_slots h
        (omega arith))

pub pending-after_read :
    (t : Thread) (v : ℤ) (r : RingBuffer)
    → IsValid r
    → 0 < pending_count r
    → pending r ≡ next_read r ∷ pending (after_read t v r)
pending-after_read t v r w h =
    window_of_pos unused r.request_buffer r.request_reads (inc32 r.request_reads) (pending_count r)
      (pending_count (after_read t v r)) (omega arith) (omega arith)

module _ (pow2 : ℤ → ℤ) where
  pub read_request-some :
      (t : Thread) (r : RingBuffer) {v : ℤ}
      → IsValid r
      → r.data_mutex ≡ none
      → 0 < pending_count r
      → answer pow2 (next_read r) ≡ some v
      → read_request pow2 t r ≡ returned tt (after_read t v r)
  unfolding read_request
  read_request-some t r w m h a = ground arith

  -- With the mutex free, a request waiting whose answer `v` is defined, and fewer than 128 responses
  -- untaken, `read_request` takes the oldest request, appends `v` to the responses, moves the
  -- first thread that waits for the request's slot, if one does, to those that are woken, frees the mutex and keeps the buffer well-formed.
  pub read_request-serve :
      (t : Thread) (r : RingBuffer) (v : ℤ)
      → IsValid r
      → r.data_mutex ≡ none
      → 0 < pending_count r
      → ready_count r < 128
      → answer pow2 (next_read r) ≡ some v
      → (s : RingBuffer) × (read_request pow2 t r ≡ returned tt s)
        × (pending r ≡ next_read r ∷ pending s)
        × (ready s ≡ ready r ++ v ∷ [])
        × (get_or s.response_ready (next_read r).response []
            ≡ other_waiters (get_or r.response_ready (next_read r).response []))
        × (s.woken ≡ wake (get_or r.response_ready (next_read r).response []) r.woken)
        × (s.data_mutex ≡ none)
        × IsValid s
  read_request-serve t r v w m h k a = (
    after_read t v r,
    read_request-some t r w m h a,
    pending-after_read t v r w h,
    ready-after_read t v r w k,
    get_or-set_other r.response_ready (next_read r).response,
    refl,
    refl,
    after_read-IsValid t v w h,
  )

-- With the mutex free and `v` the oldest response, whichever thread comes takes `v`, whatever slot
-- it waited for; the other responses and the requests stay, and the mutex is free again.
pub take_response-oldest :
    (t : Thread) (r : RingBuffer) (v : ℤ) (rest : List ℤ)
    → IsValid r
    → r.data_mutex ≡ none
    → ready r ≡ v ∷ rest
    → (s : RingBuffer) × (take_response t r ≡ returned v s)
      × (ready s ≡ rest)
      × (pending s ≡ pending r)
      × (s.data_mutex ≡ none)
      × IsValid s
unfolding take_response
take_response-oldest t r v rest w m e =
    let some_ready : ready_count r ≡ suc (length rest) = omega (
      arith,
      ap length e,
      length-window (pos 0) r.response_buffer r.response_reads (ready_count r),
    ) in
    let split : ready r ≡ oldest ∷ ready (after_take t r) =
      window_of_pos (pos 0) r.response_buffer r.response_reads (inc32 r.response_reads)
        (ready_count r) (ready_count (after_take t r)) (omega arith) (omega arith) in
    (
      after_take t r,
      rw (m, take_response) (ap (λ a. returned a (after_take t r)) (cc (split, e))),
      cc (split, e),
      refl,
      refl,
      omega arith,
    )
  where
    oldest : ℤ
    oldest = get_or r.response_buffer (r.response_reads % 128) (pos 0)
