-- ===== src/Ring/Service.antt =====
-- project2/ringbuffer.c, project2/server.c, project2/client.c: what the server's loop does to all that
-- waits, and one request from its client and back.
use cs6210proj.Prelude.{
  ℕ, zero, suc, ◌+◌, ◌≤◌, ◌<◌, ◌≡◌, refl, ap, sym, ◌∙◌, ℤ, pos, none, some, List, [], ◌∷◌, ◌++◌,
  arith, length, append-nil, append_assoc, length-append, rem,
}
use cs6210proj.Ring.Buffer.{
  Thread, Request, RingBuffer, returned, unused, next_read, next_write, read_request, take_response,
  answer, write_request, process_requests,
}
use cs6210proj.Ring.Window.{window, length-window}
use cs6210proj.Ring.Requests.{IsValid, pending_count, pending, write_request-append}
use cs6210proj.Ring.Responses.{
  ready_count, ready, read_request-serve, take_response-oldest, pending-after_read,
}

pending-length : (r : RingBuffer) → length (pending r) ≡ pending_count r
pending-length r = length-window unused r.request_buffer r.request_reads (pending_count r)

ready-length : (r : RingBuffer) → length (ready r) ≡ ready_count r
ready-length r = length-window (pos 0) r.response_buffer r.response_reads (ready_count r)

module _ (pow2 : ℤ → ℤ) where
  -- The values of `vs` are the answers to the requests `qs`, in order.
  abbrev pub Answers : List Request → List ℤ → Type 0
  Answers [] [] = Unit
  Answers [] (v ∷ vs) = ⊥
  Answers (q ∷ qs) [] = ⊥
  Answers (q ∷ qs) (v ∷ vs) = (answer pow2 q ≡ some v) × Answers qs vs

  process_requests_idle :
      (f : ℕ) (t : Thread) (r : RingBuffer)
      → pending_count r ≡ 0
      → process_requests pow2 (suc f) t r ≡ some (returned tt r)
  unfolding process_requests
  process_requests_idle f t r h = ground arith

  process_requests_next :
      (f : ℕ) (t : Thread) (r s : RingBuffer)
      → 0 < pending_count r
      → read_request pow2 t r ≡ returned tt s
      → process_requests pow2 (suc f) t r ≡ process_requests pow2 f t s
  unfolding process_requests
  process_requests_next f t r s h e = ground arith

  abbrev Drained : ℕ → Thread → RingBuffer → List ℤ → Type 0
  Drained f t r vs =
      (s : RingBuffer) × (process_requests pow2 f t r ≡ some (returned tt s))
      × (pending s ≡ [])
      × (ready s ≡ ready r ++ vs)
      × (s.data_mutex ≡ none)
      × IsValid s

  drain :
      (f : ℕ) (t : Thread) (r : RingBuffer) (qs : List Request) (vs : List ℤ)
      → IsValid r
      → r.data_mutex ≡ none
      → pending r ≡ qs
      → length qs < f
      → ready_count r + length qs ≤ 128
      → Answers qs vs
      → Drained f t r vs
  drain zero t r qs vs w m e h k a = elim h [ ]
  drain (suc f) t r [] [] w m e h k a = (
    r,
    process_requests_idle f t r (omega (arith, ap length e, pending-length r)),
    e,
    sym (append-nil (ready r)),
    m,
    w,
  )
  drain (suc f) t r [] (v ∷ vs) w m e h k a = absurd a
  drain (suc f) t r (q ∷ qs) [] w m e h k a = absurd a
  drain (suc f) t r (q ∷ qs) (v ∷ vs) w m e h k a =
      let waits : 0 < pending_count r = omega (arith, ap length e, pending-length r) in
      let first : next_read r ≡ q = cc (pending-after_read t v r w waits) in
      let (s, served, moved, grown, _, _, free, valid) =
        read_request-serve pow2 t r v w m waits (omega arith) (rw first a.0) in
      let rest : pending s ≡ qs = cc in
      let (s', ran, none_left, all, free', valid') =
        drain f t s qs vs valid free rest (omega arith)
          (omega (
            arith,
            ap length grown,
            ready-length r,
            ready-length s,
            length-append (ready r) (v ∷ []),
          ))
          a.1 in
      (
        s',
        process_requests_next f t r s waits served ∙ ran,
        none_left,
        all ∙ rw grown (append_assoc (ready r) (v ∷ []) vs),
        free',
        valid',
      )

  -- With the mutex free, answers `vs` defined for the requests that wait, in their order, and room
  -- for them among the responses, the server's loop ends within one round more than there are
  -- requests. Then no request waits, the responses have grown by `vs`, the mutex is free and
  -- the buffer well-formed.
  pub process_requests-drain :
      (f : ℕ) (t : Thread) (r : RingBuffer) (vs : List ℤ)
      → IsValid r
      → r.data_mutex ≡ none
      → pending_count r < f
      → ready_count r + pending_count r ≤ 128
      → Answers (pending r) vs
      → (s : RingBuffer) × (process_requests pow2 f t r ≡ some (returned tt s))
        × (pending s ≡ [])
        × (ready s ≡ ready r ++ vs)
        × (s.data_mutex ≡ none)
        × IsValid s
  process_requests-drain f t r vs w m h k a =
      drain f t r (pending r) vs w m refl (omega (arith, pending-length r))
        (omega (arith, pending-length r)) a

no_window {ℓ} :
    {A : Type ℓ} (blank : A) (buf : List A) (h n : ℕ) → n ≡ 0 → window blank buf h n ≡ []
no_window blank buf h n e = rw e

abbrev pub IsIdle : RingBuffer → Type 0
IsIdle r = IsValid r × (r.data_mutex ≡ none) × (pending_count r ≡ 0) × (ready_count r ≡ 0)

-- From an idle buffer, and for a divisor for which the remainder `v` of `(int) pow(2.0, x)` is
-- defined: a client's `write_request`, the server's loop and the client's read, one after the other,
-- all return, the client gets `v`, and the buffer is idle again.
pub request-response :
    (pow2 : ℤ → ℤ) (client server : Thread) (x p v : ℤ) (r : RingBuffer)
    → IsIdle r
    → rem (pow2 x) p ≡ some v
    → (s₁ : RingBuffer) × (s₂ : RingBuffer) × (s₃ : RingBuffer) × (write_request client x p r
        ≡ returned (pos (next_write r).response) s₁)
      × (process_requests pow2 2 server s₁ ≡ some (returned tt s₂))
      × (take_response client s₂ ≡ returned v s₃)
      × IsIdle s₃
request-response pow2 client server x p v r idle a =
    let (s₁, wrote, waits, free₁, _, answers, taken, valid₁) =
      write_request-append client x p r idle.0 idle.1 (omega arith) in
    let waits₁ : pending s₁ ≡ record (next_write r) { x = x; p = p } ∷ [] =
      waits
      ∙ ap (λ qs. qs ++ record (next_write r) { x = x; p = p } ∷ [])
          (no_window unused r.request_buffer r.request_reads (pending_count r) (omega arith)) in
    let ready₁ : ready s₁ ≡ [] =
      no_window (pos 0) s₁.response_buffer s₁.response_reads (ready_count s₁) (omega arith) in
    let (s₂, ran, none_left, all, free₂, valid₂) =
      drain pow2 2 server s₁ _ (v ∷ []) valid₁ free₁ waits₁ (omega arith)
        (omega (arith, ap length ready₁, ready-length s₁)) (a, tt) in
    let (s₃, took, rest, same, free₃, valid₃) =
      take_response-oldest client s₂ v [] valid₂ free₂ (all ∙ ap (λ vs. vs ++ v ∷ []) ready₁) in
    (
      s₁,
      s₂,
      s₃,
      wrote,
      ran,
      took,
      (
        valid₃,
        free₃,
        omega (arith, ap length (same ∙ none_left), pending-length s₃),
        omega (arith, ap length rest, ready-length s₃),
      ),
    )
