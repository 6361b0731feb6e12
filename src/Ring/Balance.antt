-- ===== src/Ring/Balance.antt =====
-- project2/client.c and project2/server.c: as many requests and responses are in the buffer as
-- threads of the client are about to wait or wait.
use cs6210proj.Prelude.{
  ℕ, zero, suc, ◌+◌, ◌≤◌, ◌<◌, ◌≡◌, refl, ap, ◌∙◌, ℤ, none, some, List, [], ◌∷◌, ◌++◌, get_elem?,
  get_or, set, replicate, length, length-set, ltb, if◌then◌else◌, arith, Option-cases, inl, inr,
}
use cs6210proj.Ring.Buffer.{
  Thread, RingBuffer, returned, fault, next_read, answer, take_response, read_request, wake,
  other_waiters,
}
use cs6210proj.Ring.Requests.{IsValid, pending_count, after_write, after_write-IsValid}
use cs6210proj.Ring.Responses.{ready_count, after_read, after_read-IsValid, after_take}
use cs6210proj.Ring.Threads.{
  ClientPhase, asking, asked, awaiting, finished, Processes, ProcessStep, ProcessReach,
  start_threads, await_response, await_nonempty, num_threads, server_thread, next_round,
}
use cs6210proj.Ring.Threads

-- Whether the thread has a request or a response in the buffer.
abbrev pub weight : ClientPhase → ℕ
weight (asking i) = 0
weight (asked i k) = 1
weight (awaiting i k) = 1
weight finished = 0

abbrev pub outstanding : List ClientPhase → ℕ
outstanding [] = 0
outstanding (p ∷ ps) = weight p + outstanding ps

-- How many of these threads are the client's.
abbrev pub clients_in : List Thread → ℕ
clients_in [] = 0
clients_in (t ∷ ts) = (if ltb t 128 then 1 else 0) + clients_in ts

weight_le : (p : ClientPhase) → weight p ≤ 1
weight_le (asking i) = omega arith
weight_le (asked i k) = omega arith
weight_le (awaiting i k) = omega arith
weight_le finished = omega arith

pub outstanding_le : (ps : List ClientPhase) → outstanding ps ≤ length ps
outstanding_le [] = omega arith
outstanding_le (p ∷ ps) = omega (arith, weight_le p, outstanding_le ps)

outstanding-set :
    (ps : List ClientPhase) (t : ℕ) (old new : ClientPhase)
    → get_elem? ps t ≡ some old
    → (outstanding (set ps t new) + weight old ≡ outstanding ps + weight new)
      × (outstanding ps + 1 ≤ length ps + weight old)
      × (t < length ps)
outstanding-set [] t old new e = cc
outstanding-set (p ∷ ps) zero old new e =
    let same : weight p ≡ weight old = cc in
    (omega (arith, same), omega (arith, same, outstanding_le ps), omega arith)
outstanding-set (p ∷ ps) (suc t) old new e =
    let (sum, room, inside) = outstanding-set ps t old new e in
    (omega arith, omega (arith, weight_le p), omega arith)

pub clients_in-append :
    (ts us : List Thread) → clients_in (ts ++ us) ≡ clients_in ts + clients_in us
clients_in-append [] us = omega arith
clients_in-append (t ∷ ts) us = omega (arith, clients_in-append ts us)

clients_in-wake :
    (ts us : List Thread)
    → (clients_in (wake ts us) ≤ clients_in us + 1)
      × (clients_in (wake ts us) + clients_in (other_waiters ts) ≡ clients_in ts + clients_in us)
      × (clients_in (other_waiters ts) ≤ clients_in ts)
clients_in-wake [] us = (omega arith, omega arith, omega arith)
clients_in-wake (t ∷ ts) us = (ground arith, omega arith, omega arith)

pub outstanding-start : (n : ℕ) → outstanding (replicate n (asking 0)) ≡ 0
outstanding-start zero = refl
outstanding-start (suc n) = omega (arith, outstanding-start n)

pub take_response-after :
    (t : Thread) (r b : RingBuffer) (v : ℤ)
    → r.data_mutex ≡ none
    → take_response t r ≡ returned v b
    → b ≡ after_take t r
unfolding take_response
take_response-after t r b v m e = cc (rw (m, take_response) at e)

pub read_request-after :
    (pow2 : ℤ → ℤ) (t : Thread) (r b : RingBuffer)
    → r.data_mutex ≡ none
    → IsValid r
    → 0 < pending_count r
    → read_request pow2 t r ≡ returned tt b
    → (v : ℤ) × (b ≡ after_read t v r)
unfolding read_request
read_request-after pow2 t r b m w h e = elim (Option-cases (answer pow2 (next_read r))) [
  | inl none_left ↦
      let stops : read_request pow2 t r ≡ fault = ground arith in absurd (cc (stops, e))
  | inr (v, given) ↦
      let goes : read_request pow2 t r ≡ returned tt (after_read t v r) = ground arith in
      (v, cc (goes, e))
]

weight-next_round : (i : ℕ) → weight (next_round i) ≡ 0
unfolding next_round
weight-next_round i = ground arith

-- `n` client threads. `owed`: each client that has been woken has a response to take.
pub record Balanced (n : ℕ) (s : Processes) : Type 0 where
  pub valid : IsValid s.buffer
  pub free : s.buffer.data_mutex ≡ none
  pub threads : length s.clients ≡ n
  pub balance : pending_count s.buffer + ready_count s.buffer ≡ outstanding s.clients
  pub owed : clients_in s.buffer.woken ≤ ready_count s.buffer
  pub alone : clients_in s.buffer.nonempty ≡ 0

module _ (n : ℕ) (few : n ≤ 128) (s : Processes) (a : Balanced n s) where
  pub asking-room :
      (t i : ℕ) → get_elem? s.clients t ≡ some (asking i) → pending_count s.buffer < 128
  asking-room t i e =
      omega (arith, (outstanding-set s.clients t (asking i) finished e).1, a.threads, a.balance)

  pub write-Balanced :
      (t i k : ℕ) (x p : ℤ)
      → get_elem? s.clients t ≡ some (asking i)
      → Balanced n (Threads.move t (asked i k) (after_write t x p s.buffer) s)
  write-Balanced t i k x p e =
      let room : pending_count s.buffer < 128 = asking-room t i e in
      let (sum, _, _) = outstanding-set s.clients t (asking i) (asked i k) e in
      let (_, woken, others) = clients_in-wake s.buffer.nonempty s.buffer.woken in
      record {
        valid = after_write-IsValid t x p a.valid room;
        free = refl;
        threads = length-set s.clients t (asked i k) ∙ a.threads;
        balance = omega (arith, a.balance, a.valid, sum);
        owed = omega (arith, a.owed, a.alone, woken);
        alone = omega (arith, a.alone, others);
      }

  pub await-Balanced :
      (t i k : ℕ)
      → get_elem? s.clients t ≡ some (asked i k)
      → Balanced n (Threads.move t (awaiting i k) (await_response t k s.buffer) s)
  await-Balanced t i k e =
      let (sum, _, _) = outstanding-set s.clients t (asked i k) (awaiting i k) e in
      record {
        valid = omega (
          arith,
          a.valid,
          length-set s.buffer.response_ready k (get_or s.buffer.response_ready k [] ++ t ∷ []),
        );
        free = a.free;
        threads = length-set s.clients t (awaiting i k) ∙ a.threads;
        balance = omega (arith, a.balance, sum);
        owed = a.owed;
        alone = a.alone;
      }

  pub take-Balanced :
      (t i k : ℕ) (v : ℤ) (earlier later : List Thread)
      → get_elem? s.clients t ≡ some (awaiting i k)
      → s.buffer.woken ≡ earlier ++ t ∷ later
      → Balanced n
          (record (Threads.move t
            (next_round i)
            (after_take t (record s.buffer { woken = earlier ++ later }))
            s) { results = (i, v) ∷ s.results })
  take-Balanced t i k v earlier later e w =
      let (sum, _, inside) = outstanding-set s.clients t (awaiting i k) (next_round i) e in
      let client : t < 128 = omega (arith, inside, a.threads) in
      let here : clients_in s.buffer.woken ≡ clients_in earlier + (1 + clients_in later) =
        ap clients_in w ∙ clients_in-append earlier (t ∷ later) ∙ ground (arith, client) in
      let gone : clients_in (earlier ++ later) ≡ clients_in earlier + clients_in later =
        clients_in-append earlier later in
      let some_ready : 0 < ready_count s.buffer = omega (arith, a.owed, here) in
      record {
        valid = omega (arith, a.valid);
        free = refl;
        threads = length-set s.clients t (next_round i) ∙ a.threads;
        balance = omega (arith, a.balance, a.valid, sum, weight-next_round i);
        owed = omega (arith, a.owed, a.valid, here, gone);
        alone = a.alone;
      }

  pub serve-Balanced :
      (t : Thread) (v : ℤ)
      → 0 < pending_count s.buffer
      → Balanced n (record s { buffer = after_read t v s.buffer })
  serve-Balanced t v h =
      let slot : ℕ = (next_read s.buffer).response in
      let (woken, _, _) = clients_in-wake (get_or s.buffer.response_ready slot []) s.buffer.woken in
      record {
        valid = after_read-IsValid t v a.valid h;
        free = refl;
        threads = a.threads;
        balance = omega (arith, a.balance, a.valid, outstanding_le s.clients, a.threads);
        owed =
            omega (arith, a.owed, a.valid, a.balance, outstanding_le s.clients, a.threads, woken);
        alone = a.alone;
      }
