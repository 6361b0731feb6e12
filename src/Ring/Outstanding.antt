-- ===== src/Ring/Outstanding.antt =====
-- project2/client.c and project2/server.c: what every run of up to 128 client threads and the server
-- keeps.
use cs6210proj.Prelude.{
  ℕ, ◌+◌, ◌≤◌, ◌≡◌, refl, ap, sym, ◌∙◌, subst, ℤ, pos, none, some, [], ◌∷◌, ◌++◌, get_elem?,
  length-replicate, arith,
}
use cs6210proj.Ring.Buffer.{RingBuffer, returned, next_write, write_request}
use cs6210proj.Ring.Requests.{pending_count, init-IsValid, after_write, write_request-room}
use cs6210proj.Ring.Responses.{ready_count, after_take}
use cs6210proj.Ring.Threads.{
  ClientPhase, asking, asked, awaiting, Processes, ProcessStep, ProcessReach, start_threads, write,
  refused, await, take, listen, wake, serve, rest, here, next, prime, server_thread, next_round,
}
use cs6210proj.Ring.Threads
use cs6210proj.Ring.Balance.{
  outstanding, outstanding_le, outstanding-start, clients_in, clients_in-append, Balanced,
  asking-room, write-Balanced, await-Balanced, take-Balanced, serve-Balanced, take_response-after,
  read_request-after,
}

module _ (pow2 : ℤ → ℤ) (n : ℕ) (few : n ≤ 128) where
  pub step-Balanced : (s t : Processes) → Balanced n s → ProcessStep pow2 s t → Balanced n t
  step-Balanced s _ a (write t i k b e ran) =
      let accepted =
        write_request-room t (pos i) prime s.buffer a.free (asking-room n few s a t i e) in
      let same : after_write t (pos i) prime s.buffer ≡ b = cc (accepted, ran) in
      subst (λ c. Balanced n (Threads.move t (asked i k) c s)) same
        (write-Balanced n few s a t i k (pos i) prime e)
  step-Balanced s _ a (refused t i b e ran) =
      let accepted =
        write_request-room t (pos i) prime s.buffer a.free (asking-room n few s a t i e) in
      absurd (cc (accepted, ran))
  step-Balanced s _ a (await t i k e _) = await-Balanced n few s a t i k e
  step-Balanced s _ a (take t i k v earlier later b e w ran) =
      let same : b ≡ after_take t (record s.buffer { woken = earlier ++ later }) =
        take_response-after t _ b v a.free ran in
      subst
        (λ c.
          Balanced n (record (Threads.move t (next_round i) c s) { results = (i, v) ∷ s.results }))
        (sym same) (take-Balanced n few s a t i k v earlier later e w)
  step-Balanced s _ a (listen _ _) = record {
    valid = omega (arith, a.valid);
    free = a.free;
    threads = a.threads;
    balance = a.balance;
    owed = a.owed;
    alone = clients_in-append s.buffer.nonempty (server_thread ∷ []) ∙ omega (arith, a.alone);
  }
  step-Balanced s _ a (wake earlier later _ w _) = record {
    valid = omega (arith, a.valid);
    free = a.free;
    threads = a.threads;
    balance = a.balance;
    owed = omega (
      arith,
      a.owed,
      ap clients_in w ∙ clients_in-append earlier (server_thread ∷ later),
      clients_in-append earlier later,
    );
    alone = a.alone;
  }
  step-Balanced s _ a (serve b _ waits ran) =
      let (v, same) = read_request-after pow2 server_thread s.buffer b a.free a.valid waits ran in
      subst (λ c. Balanced n (record s { buffer = c })) (sym same)
        (serve-Balanced n few s a server_thread v waits)
  step-Balanced s _ a (rest _ _) = record {
    valid = a.valid;
    free = a.free;
    threads = a.threads;
    balance = a.balance;
    owed = a.owed;
    alone = a.alone;
  }

  pub start-Balanced : Balanced n (start_threads n)
  unfolding start_threads
  start-Balanced = record {
    valid = init-IsValid;
    free = refl;
    threads = length-replicate n (asking 0);
    balance = omega (arith, outstanding-start n);
    owed = omega arith;
    alone = refl;
  }

  pub reach-Balanced : (s : Processes) → ProcessReach pow2 (start_threads n) s → Balanced n s
  reach-Balanced s here = start-Balanced
  reach-Balanced s (next earlier step) = step-Balanced _ s (reach-Balanced _ earlier) step

-- In every run of at most 128 client threads and the server, in whatever order they take their steps,
-- the mutex is free between the calls, requests and responses in the buffer are as many as threads
-- that have asked and not been answered, so at most 128, and a thread that is about to ask is not
-- refused.
pub start_threads-outstanding :
    (pow2 : ℤ → ℤ) (n : ℕ) (s : Processes)
    → n ≤ 128
    → ProcessReach pow2 (start_threads n) s
    → (s.buffer.data_mutex ≡ none)
      × (pending_count s.buffer + ready_count s.buffer ≡ outstanding s.clients)
      × (pending_count s.buffer + ready_count s.buffer ≤ 128)
      × ((t i : ℕ)
          → get_elem? s.clients t ≡ some (asking i)
          → (b : RingBuffer) × (write_request t (pos i) prime s.buffer
              ≡ returned (pos (next_write s.buffer).response) b))
start_threads-outstanding pow2 n s few run =
    let a : Balanced n s = reach-Balanced pow2 n few s run in
    (
      a.free,
      a.balance,
      omega (arith, a.balance, a.threads, outstanding_le s.clients),
      λ t i e. (
        after_write t (pos i) prime s.buffer,
        write_request-room t (pos i) prime s.buffer a.free (asking-room n few s a t i e),
      ),
    )
