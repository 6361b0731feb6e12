-- ===== src/Ring/Deadlock.antt =====
-- project2/client.c and project2/server.c: a run in which all threads of both programs wait.
use cs6210proj.Prelude.{
  ℕ, zero, suc, ◌≤◌, ◌<◌, ◌≡◌, refl, ap, ◌∙◌, subst, ℤ, pos, some, [], ◌∷◌, get_elem?,
  get_elem?-set_self, get_elem?-set_ne, get_elem?-lt, get_elem?-replicate, length, length-set,
  length-replicate, arith,
}
use native.Mathlib.Decide.{ℕ_discrete}
use cs6210proj.Ring.Buffer.{next_write, other_waiters}
use cs6210proj.Ring.Requests.{pending_count, after_write, write_request-room}
use cs6210proj.Ring.Threads.{
  ClientPhase, asking, asked, awaiting, listening, sleeping, Processes, ProcessStep, ProcessReach,
  start_threads, await_response, write, refused, await, take, listen, wake, serve, rest, here, next,
  prime, server_thread,
}
use cs6210proj.Ring.Threads
use cs6210proj.Ring.Balance.{Balanced, asking-room}
use cs6210proj.Ring.Outstanding.{reach-Balanced}

-- Nobody waits on `nonempty`, and nobody has been woken.
record IsQuiet (n : ℕ) (s : Processes) : Type 0 where
  threads : length s.clients ≡ n
  nobody : s.buffer.nonempty ≡ []
  unwoken : s.buffer.woken ≡ []
  server : s.server ≡ listening

-- The first `j` threads have written a request.
record Written (n j : ℕ) (s : Processes) : Type 0 where
  quiet : IsQuiet n s
  count : pending_count s.buffer ≡ j
  asked_ : (t : ℕ) → t < j → (k : ℕ) × (get_elem? s.clients t ≡ some (asked 0 k))
  yet : (t : ℕ) → j ≤ t → t < n → get_elem? s.clients t ≡ some (asking 0)

-- All have, and the first `j` wait.
record Waiting (n j : ℕ) (s : Processes) : Type 0 where
  quiet : IsQuiet n s
  count : pending_count s.buffer ≡ n
  waits : (t : ℕ) → t < j → (k : ℕ) × (get_elem? s.clients t ≡ some (awaiting 0 k))
  yet : (t : ℕ) → j ≤ t → t < n → (k : ℕ) × (get_elem? s.clients t ≡ some (asked 0 k))

module _ (pow2 : ℤ → ℤ) (n : ℕ) (few : n ≤ 128) where
  all_write :
      (j : ℕ) → j ≤ n → (s : Processes) × ProcessReach pow2 (start_threads n) s × Written n j s
  unfolding start_threads
  all_write zero h = (
    start_threads n,
    here,
    record {
      quiet = record {
        threads = length-replicate n (asking 0);
        nobody = refl;
        unwoken = refl;
        server = refl;
      };
      count = omega arith;
      asked_ = λ t l. absurd (omega arith);
      yet = λ t lo l. get_elem?-replicate n t (asking 0) l;
    },
  )
  all_write (suc j) h =
      let (s, run, w) = all_write j (omega arith) in
      let balanced : Balanced n s = reach-Balanced pow2 n few s run in
      let mine = w.yet j (omega arith) (omega arith) in
      let room = asking-room n few s balanced j 0 mine in
      let k : ℕ = (next_write s.buffer).response in
      let t : Processes = Threads.move j (asked 0 k) (after_write j (pos 0) prime s.buffer) s in
      (
        t,
        next run
            (write j 0 k _ mine (write_request-room j (pos 0) prime s.buffer balanced.free room)),
        record {
          quiet = record {
            threads = length-set s.clients j (asked 0 k) ∙ w.quiet.threads;
            nobody = ap other_waiters w.quiet.nobody;
            unwoken = rw (w.quiet.nobody, w.quiet.unwoken) refl;
            server = w.quiet.server;
          };
          count = omega (arith, w.count, balanced.valid);
          asked_ = λ m l. elim (ℕ_discrete j m) [
            | yes e ↦ (
              k,
              subst (λ x. get_elem? t.clients x ≡ some (asked 0 k)) e
                  (get_elem?-set_self s.clients j (asked 0 k) (omega (arith, w.quiet.threads))),
            )
            | no e ↦
                let (k', old) = w.asked_ m (omega arith) in
                (k', get_elem?-set_ne s.clients (asked 0 k) e ∙ old)
          ];
          yet = λ m lo l.
              get_elem?-set_ne s.clients (asked 0 k) (λ (e : j ≡ m). omega arith)
              ∙ w.yet m (omega arith) l;
        },
      )

  all_wait :
      (j : ℕ) → j ≤ n → (s : Processes) × ProcessReach pow2 (start_threads n) s × Waiting n j s
  all_wait zero h =
      let (s, run, w) = all_write n (omega arith) in
      (
        s,
        run,
        record {
          quiet = w.quiet;
          count = w.count;
          waits = λ t l. absurd (omega arith);
          yet = λ t lo l. w.asked_ t l;
        },
      )
  all_wait (suc j) h =
      let (s, run, w) = all_wait j (omega arith) in
      let balanced : Balanced n s = reach-Balanced pow2 n few s run in
      let (k, mine) = w.yet j (omega arith) (omega arith) in
      let t : Processes = Threads.move j (awaiting 0 k) (await_response j k s.buffer) s in
      (
        t,
        next run (await j 0 k mine balanced.free),
        record {
          quiet = record {
            threads = length-set s.clients j (awaiting 0 k) ∙ w.quiet.threads;
            nobody = w.quiet.nobody;
            unwoken = w.quiet.unwoken;
            server = w.quiet.server;
          };
          count = w.count;
          waits = λ m l. elim (ℕ_discrete j m) [
            | yes e ↦ (
              k,
              subst (λ x. get_elem? t.clients x ≡ some (awaiting 0 k)) e
                  (get_elem?-set_self s.clients j (awaiting 0 k) (omega (arith, w.quiet.threads))),
            )
            | no e ↦
                let (k', old) = w.waits m (omega arith) in
                (k', get_elem?-set_ne s.clients (awaiting 0 k) e ∙ old)
          ];
          yet = λ m lo l.
              let (k', old) = w.yet m (omega arith) l in
              (k', get_elem?-set_ne s.clients (awaiting 0 k) (λ (e : j ≡ m). omega arith) ∙ old);
        },
      )

  sole_phase :
      (s : Processes) (p : ClientPhase) (t : ℕ)
      → Waiting n n s
      → get_elem? s.clients t ≡ some p
      → (k : ℕ) × (p ≡ awaiting 0 k)
  sole_phase s p t w e =
      let (k, known) = w.waits t (omega (arith, get_elem?-lt s.clients t e, w.quiet.threads)) in
      (k, cc)

  stuck :
      (s t : Processes)
      → Waiting n n s
      → ¬ ProcessStep pow2
          (record s { server = sleeping; buffer = Threads.await_nonempty server_thread s.buffer })
          t
  stuck s _ w (write t i k b e _) = let (k', q) = sole_phase s _ t w e in cc
  stuck s _ w (refused t i b e _) = let (k', q) = sole_phase s _ t w e in cc
  stuck s _ w (await t i k e _) = let (k', q) = sole_phase s _ t w e in cc
  stuck s _ w (take t i k v [] later b e awake _) = let q = w.quiet.unwoken in cc
  stuck s _ w (take t i k v (u ∷ us) later b e awake _) = let q = w.quiet.unwoken in cc
  stuck s _ w (listen e _) = cc
  stuck s _ w (wake [] later _ awake _) = let q = w.quiet.unwoken in cc
  stuck s _ w (wake (u ∷ us) later _ awake _) = let q = w.quiet.unwoken in cc
  stuck s _ w (serve b e _ _) = cc
  stuck s _ w (rest e _) = cc

-- Up to 128 client threads and the server have a run in which each thread has written a request and waits for its
-- response, the server waits for requests, all of these are in the buffer, and nothing is left to happen.
pub all_asleep :
    (pow2 : ℤ → ℤ) (n : ℕ)
    → n ≤ 128
    → (s : Processes) × ProcessReach pow2 (start_threads n) s
      × (pending_count s.buffer ≡ n)
      × (s.server ≡ sleeping)
      × ((t : ℕ) → t < n → (k : ℕ) × (get_elem? s.clients t ≡ some (awaiting 0 k)))
      × ((t : Processes) → ¬ ProcessStep pow2 s t)
all_asleep pow2 n few =
    let (s, run, w) = all_wait pow2 n few n (omega arith) in
    let balanced : Balanced n s = reach-Balanced pow2 n few s run in
    (
      record s { server = sleeping; buffer = Threads.await_nonempty server_thread s.buffer },
      next run (listen w.quiet.server balanced.free),
      w.count,
      refl,
      w.waits,
      λ t step. stuck pow2 n few s t w step,
    )
