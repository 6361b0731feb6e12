-- ===== src/Ring/Rounding.antt =====
-- project2/client.c and project2/server.c: one round of a thread, with the server, on a buffer that rests.
use cs6210proj.Prelude.{
  ℕ, ◌%◌, ◌<◌, ◌≡◌, refl, ap, ap₂, ◌∙◌, subst, ℤ, pos, none, some, List, [], ◌∷◌, ◌++◌, get_elem?,
  get_or, set, length, length-set, arith, rem, get_or-set_self, get_or-set_ne, get_elem?-set_self,
  get_elem?-lt,
}
use native.Mathlib.Decide.{ℕ_discrete}
use cs6210proj.Ring.Buffer.{
  Thread, RingBuffer, returned, unused, next_read, next_write, write_slot, other_waiters,
  read_request, take_response, wake,
}
use cs6210proj.Ring.Requests.{
  IsValid, pending_count, after_write, write_request-room, after_write-IsValid,
}
use cs6210proj.Ring.Responses.{
  ready_count, after_read, after_take, read_request-some, after_read-IsValid,
}
use cs6210proj.Ring.Slots.{IsNumbered, after_write-IsNumbered}
use cs6210proj.Ring.Threads.{
  ClientPhase, asking, asked, awaiting, sleeping, serving, listening, Processes, ProcessStep,
  ProcessReach, await_response, await_nonempty, prime, server_thread, next_round,
}
use cs6210proj.Ring.Threads

-- Nothing waits in the buffer, nobody waits for a response, and the server waits for requests.
pub record IsResting (b : RingBuffer) : Type 0 where
  pub valid : IsValid b
  pub numbered : IsNumbered b
  pub free : b.data_mutex ≡ none
  pub no_requests : pending_count b ≡ 0
  pub no_responses : ready_count b ≡ 0
  pub unwoken : b.woken ≡ []
  pub listener : b.nonempty ≡ server_thread ∷ []
  pub unawaited : (k : ℕ) → get_or b.response_ready k [] ≡ []

module _ (pow2 : ℤ → ℤ) (t i : ℕ) (v : ℤ) (b : RingBuffer) (h : IsResting b)
    (defined : rem (pow2 (pos i)) prime ≡ some v) where
  abbrev pub k : ℕ
  k = (next_write b).response

  slot_k : k ≡ write_slot b
  slot_k = h.numbered (write_slot b) (omega arith)

  abbrev b₁ : RingBuffer
  b₁ = after_write t (pos i) prime b

  abbrev b₂ : RingBuffer
  b₂ = await_response t k b₁

  abbrev b₃ : RingBuffer
  b₃ = record b₂ { woken = [] }

  abbrev b₄ : RingBuffer
  b₄ = after_read server_thread v b₃

  abbrev b₅ : RingBuffer
  b₅ = await_nonempty server_thread b₄

  abbrev pub b₆ : RingBuffer
  b₆ = after_take t (record b₅ { woken = [] })

  room : pending_count b < 128
  room = omega (arith, h.no_requests)

  valid₁ : IsValid b₁
  valid₁ = after_write-IsValid t (pos i) prime h.valid room

  valid₃ : IsValid b₃
  valid₃ =
      omega
        (arith, valid₁, length-set b₁.response_ready k (get_or b₁.response_ready k [] ++ t ∷ []))

  woken₁ : b₁.woken ≡ server_thread ∷ []
  woken₁ = ap₂ wake h.listener h.unwoken

  waits₃ : 0 < pending_count b₃
  waits₃ = omega (arith, h.valid, h.no_requests)

  same_slot : b.request_reads % 128 ≡ write_slot b
  same_slot = omega (arith, h.valid, h.no_requests)

  request₃ : next_read b₃ ≡ record (next_write b) { x = pos i; p = prime }
  request₃ =
      rw same_slot
        (get_or-set_self b.request_buffer (write_slot b) _ unused (omega (arith, h.valid)))

  served : read_request pow2 server_thread b₃ ≡ returned tt b₄
  served = read_request-some pow2 server_thread b₃ valid₃ refl waits₃ (rw request₃ defined)

  slot₃ : (next_read b₃).response ≡ k
  slot₃ = ap (λ q. q.response) request₃

  waiting₃ : get_or b₃.response_ready (next_read b₃).response [] ≡ t ∷ []
  waiting₃ =
      ap (λ x. get_or b₃.response_ready x []) slot₃
      ∙ (get_or-set_self b.response_ready k _ [] (omega (arith, slot_k, h.valid))
          ∙ ap (λ ts. ts ++ t ∷ []) (h.unawaited k))

  woken₄ : b₄.woken ≡ t ∷ []
  woken₄ = ap (λ ts. wake ts []) waiting₃

  unawaited₆ : (m : ℕ) → get_or b₆.response_ready m [] ≡ []
  unawaited₆ m =
      let rr : List (List Thread) = b₃.response_ready in
      let left : get_or b₆.response_ready m [] ≡ get_or (set rr k []) m [] =
        ap (λ x. get_or (set rr x (other_waiters (get_or rr (next_read b₃).response []))) m [])
          slot₃
        ∙ ap (λ ts. get_or (set rr k (other_waiters ts)) m []) waiting₃ in
      left ∙ elim (ℕ_discrete k m) [
        | yes e ↦
            subst (λ x. get_or (set rr k []) x [] ≡ []) e
              (get_or-set_self rr k [] [] (omega (arith, slot_k, valid₃)))
        | no e ↦
            get_or-set_ne rr [] [] e
            ∙ (get_or-set_ne b.response_ready (get_or b.response_ready k [] ++ t ∷ []) [] e
                ∙ h.unawaited m)
      ]

  pub resting₆ : IsResting b₆
  resting₆ = record {
    valid = omega (arith, after_read-IsValid server_thread v valid₃ waits₃);
    numbered = after_write-IsNumbered t (pos i) prime b h.valid h.numbered;
    free = refl;
    no_requests = omega (arith, h.valid, h.no_requests);
    no_responses = omega (arith, h.valid, h.no_responses);
    unwoken = refl;
    listener = ap (λ ts. other_waiters ts ++ server_thread ∷ []) h.listener;
    unawaited = unawaited₆;
  }

  took : (w : ℤ) × (take_response t (record b₅ { woken = [] }) ≡ returned w b₆)
  unfolding take_response
  took = (get_or b₅.response_buffer (b₅.response_reads % 128) (pos 0), refl)

  abbrev pub clients₁ : List ClientPhase → List ClientPhase
  clients₁ clients = set (set (set clients t (asked i k)) t (awaiting i k)) t (next_round i)

  -- The server's loop and the thread's round, one step after the other.
  pub round_run :
      (clients : List ClientPhase) (results : List (ℕ × ℤ))
      → get_elem? clients t ≡ some (asking i)
      → (w : ℤ) × ProcessReach pow2
          (record { buffer = b; clients = clients; server = sleeping; results = results })
          (record {
            buffer = b₆;
            clients = clients₁ clients;
            server = sleeping;
            results = (i, w) ∷ results;
          })
  round_run clients results mine =
      let s : Processes = record {
        buffer = b;
        clients = clients;
        server = sleeping;
        results = results;
      } in
      let inside = get_elem?-lt clients t mine in
      let asked_ : get_elem? (set clients t (asked i k)) t ≡ some (asked i k) =
        get_elem?-set_self clients t (asked i k) inside in
      let inside' : t < length (set clients t (asked i k)) =
        omega (arith, length-set clients t (asked i k)) in
      let awaits : get_elem? (set (set clients t (asked i k)) t (awaiting i k)) t
          ≡ some (awaiting i k) =
        get_elem?-set_self (set clients t (asked i k)) t (awaiting i k) inside' in
      let (w, taken) = took in
      (
        w,
        Threads.next
            (Threads.next
              (Threads.next
                (Threads.next
                  (Threads.next
                    (Threads.next
                      (Threads.next Threads.here (
                        Threads.write t i k b₁ mine
                          (write_request-room t (pos i) prime b h.free room)))
                      (Threads.await t i k asked_ refl))
                    (Threads.wake [] [] refl woken₁ refl))
                  (Threads.serve b₄ refl waits₃ served))
                (Threads.rest refl (omega (arith, h.valid, h.no_requests))))
              (Threads.listen refl refl))
            (Threads.take t i k w [] [] b₆ awaits woken₄ taken),
      )
