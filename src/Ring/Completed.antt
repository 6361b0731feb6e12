-- ===== src/Ring/Completed.antt =====
-- project2/client.c and project2/server.c: a run of both programs in which main returns.
use cs6210proj.Prelude.{
  ℕ, zero, suc, ◌+◌, ◌≤◌, ◌<◌, ◌≡◌, ◌≢◌, refl, ap, ◌∙◌, subst, ℤ, pos, some, true, false,
  get_elem?-replicate, length-replicate, List, [], ◌∷◌, ◌++◌, get_elem?, get_or, set, length,
  length-set, replicate, arith, rem, get_elem?-set_self, get_elem?-set_ne, get_elem?-lt,
}
use native.Mathlib.Decide.{ℕ_discrete}
use cs6210proj.Ring.Buffer.{Thread, RingBuffer, init_ring_buffer}
use cs6210proj.Ring.Requests.{init-IsValid}
use cs6210proj.Ring.Slots.{init-IsNumbered}
use cs6210proj.Ring.Threads.{
  ClientPhase, asking, finished, sleeping, listening, Processes, ProcessStep, ProcessReach,
  start_threads, await_nonempty, prime, server_thread, next_round,
}
use cs6210proj.Ring.Threads
use cs6210proj.Ring.Rounds.{next_round-early, next_round-last}
use cs6210proj.Ring.Joining.{FirstFinished}
use cs6210proj.Ring.Rounding.{IsResting, clients₁, round_run, resting₆}
use cs6210proj.Ring.Main.{
  MainPhase, creating, joining, exited, ClientMain, client_main, thread, create, created, join,
  leave, ClientReach, start, later,
}

-- The server waits for requests.
abbrev resting : RingBuffer → List ClientPhase → List (ℕ × ℤ) → Processes
resting b clients results = record {
  buffer = b;
  clients = clients;
  server = sleeping;
  results = results;
}

reach-join :
    {pow2 : ℤ → ℤ} {s t u : Processes}
    → ProcessReach pow2 s t
    → ProcessReach pow2 t u
    → ProcessReach pow2 s u
reach-join run Threads.here = run
reach-join run (Threads.next more step) = Threads.next (reach-join run more) step

no_waiters : (n k : ℕ) → get_or {A = List Thread} (replicate n []) k [] ≡ []
no_waiters zero k = refl
no_waiters (suc n) zero = refl
no_waiters (suc n) (suc k) = no_waiters n k

init-IsResting : IsResting (await_nonempty server_thread init_ring_buffer)
init-IsResting = record {
  valid = omega (arith, init-IsValid);
  numbered = init-IsNumbered;
  free = refl;
  no_requests = refl;
  no_responses = refl;
  unwoken = refl;
  listener = refl;
  unawaited = no_waiters 128;
}

-- The threads before `j` are done, it is about to ask its request `i`, those behind it their first.
record Current (j i : ℕ) (clients : List ClientPhase) : Type 0 where
  count : length clients ≡ 128
  before : FirstFinished j clients
  mine : get_elem? clients j ≡ some (asking i)
  after : (t : ℕ) → j < t → t < 128 → get_elem? clients t ≡ some (asking 0)

-- The threads before `j` are done, the others are about to ask their first request.
record Progress (j : ℕ) (clients : List ClientPhase) : Type 0 where
  count : length clients ≡ 128
  before : FirstFinished j clients
  after : (t : ℕ) → j ≤ t → t < 128 → get_elem? clients t ≡ some (asking 0)

set-thrice {ℓ} :
    {A : Type ℓ} (xs : List A) (t : ℕ) (p q r : A)
    → t < length xs
    → (length (set (set (set xs t p) t q) t r) ≡ length xs)
      × (get_elem? (set (set (set xs t p) t q) t r) t ≡ some r)
      × ((u : ℕ) → t ≢ u → get_elem? (set (set (set xs t p) t q) t r) u ≡ get_elem? xs u)
set-thrice xs t p q r l =
    let one = length-set xs t p in
    let two = length-set (set xs t p) t q in
    (
      length-set (set (set xs t p) t q) t r ∙ two ∙ one,
      get_elem?-set_self (set (set xs t p) t q) t r (omega arith),
      λ u e.
          get_elem?-set_ne (set (set xs t p) t q) r e
          ∙ get_elem?-set_ne (set xs t p) q e
          ∙ get_elem?-set_ne xs p e,
    )

replicate-append {ℓ} : {A : Type ℓ} (n : ℕ) (x : A) → replicate n x ++ x ∷ [] ≡ replicate (suc n) x
replicate-append zero x = refl
replicate-append (suc n) x = ap (◌∷◌ x) (replicate-append n x)

abbrev running : Processes → MainPhase → ClientMain
running s m = record { processes = s; main = m; unlinked = false; errors = [] }

abbrev with_clients : List ClientPhase → Processes
with_clients clients = record {
  buffer = init_ring_buffer;
  clients = clients;
  server = listening;
  results = [];
}

module _ (pow2 : ℤ → ℤ)
    (defined : (i : ℕ) → i < 31 → (v : ℤ) × (rem (pow2 (pos i)) prime ≡ some v)) where
  -- The processes come to rest with the threads as `P` says.
  abbrev Rests : Processes → (List ClientPhase → Type 0) → Type 0
  Rests s P =
      (b : RingBuffer) × (clients : List ClientPhase) × (results : List (ℕ × ℤ)) × ProcessReach pow2
        s (resting b clients results)
      × IsResting b
      × P clients

  one_round :
      (j i : ℕ) (b : RingBuffer) (clients : List ClientPhase) (results : List (ℕ × ℤ))
      → i < 31
      → IsResting b
      → get_elem? clients j ≡ some (asking i)
      → Rests (resting b clients results) (λ after.
        (length after ≡ length clients)
        × (get_elem? after j ≡ some (next_round i))
        × ((u : ℕ) → j ≢ u → get_elem? after u ≡ get_elem? clients u))
  one_round j i b clients results l h mine =
      let (v, value) = defined i l in
      let (w, run) = round_run pow2 j i v b h value clients results mine in
      (
        _,
        clients₁ pow2 j i v b h value clients,
        _,
        run,
        resting₆ pow2 j i v b h value,
        set-thrice clients j _ _ (next_round i) (get_elem?-lt clients j mine),
      )

  thread_run :
      (left j i : ℕ) (b : RingBuffer) (clients : List ClientPhase) (results : List (ℕ × ℤ))
      → i + left ≡ 30
      → IsResting b
      → Current j i clients
      → Rests (resting b clients results) (Progress (j + 1))
  thread_run zero j i b clients results e h c =
      let (b', clients', results', run, h', same) =
        one_round j i b clients results (omega arith) h c.mine in
      let (size, self, others) = same in
      let last : next_round i ≡ finished =
        ap next_round (let q : i ≡ 30 = omega arith in q) ∙ next_round-last in
      (
        b',
        clients',
        results',
        run,
        h',
        record {
          count = size ∙ c.count;
          before = λ t b. elim (ℕ_discrete j t) [
            | yes here ↦
                subst (λ x. get_elem? clients' x ≡ some finished) here (self ∙ ap some last)
            | no other ↦ others t other ∙ c.before t (omega arith)
          ];
          after = λ t lo b. others t (λ q. omega arith) ∙ c.after t (omega arith) b;
        },
      )
  thread_run (suc left) j i b clients results e h c =
      let (b', clients', results', run, h', same) =
        one_round j i b clients results (omega arith) h c.mine in
      let (size, self, others) = same in
      let next : next_round i ≡ asking (i + 1) = next_round-early i (omega arith) in
      let (b'', clients'', results'', run', h'', done_) =
        thread_run left j (i + 1) b' clients' results' (omega arith) h' (record {
          count = size ∙ c.count;
          before = λ t b. others t (λ q. omega arith) ∙ c.before t b;
          mine = self ∙ ap some next;
          after = λ t lo b. others t (λ q. omega arith) ∙ c.after t lo b;
        }) in
      (b'', clients'', results'', reach-join run run', h'', done_)

  all_run :
      (left j : ℕ) (b : RingBuffer) (clients : List ClientPhase) (results : List (ℕ × ℤ))
      → j + left ≡ 128
      → IsResting b
      → Progress j clients
      → Rests (resting b clients results) (FirstFinished 128)
  all_run zero j b clients results e h p =
      (b, clients, results, Threads.here, h, λ t l. p.before t (omega arith))
  all_run (suc left) j b clients results e h p =
      let (b', clients', results', run, h', p') =
        thread_run 30 j 0 b clients results refl h (record {
          count = p.count;
          before = p.before;
          mine = p.after j (omega arith) (omega arith);
          after = λ t lo l. p.after t (omega arith) l;
        }) in
      let (b'', clients'', results'', run', h'', done_) =
        all_run left (j + 1) b' clients' results' (omega arith) h' p' in
      (b'', clients'', results'', reach-join run run', h'', done_)

  lift_run :
      {u : ClientMain} {s t : Processes} (m : MainPhase)
      → ProcessReach pow2 s t
      → ClientReach pow2 u (running s m)
      → ClientReach pow2 u (running t m)
  lift_run m Threads.here run = run
  lift_run m (Threads.next {t} more step) run = later (lift_run m more run) (thread _ step)

  all_created :
      (n : ℕ)
      → n ≤ 128
      → ClientReach pow2 (client_main true) (running (start_threads n) (creating n))
  unfolding client_main start_threads
  all_created zero l = start
  all_created (suc n) l =
      subst
        (λ clients.
          ClientReach pow2 (client_main true) (running (with_clients clients) (creating (suc n))))
        (replicate-append n (asking 0))
        (subst
          (λ i.
            ClientReach pow2 (client_main true)
              (running (with_clients (replicate n (asking 0) ++ asking 0 ∷ [])) (creating i)))
          (omega arith) (later (all_created n (omega arith)) (create n refl (omega arith))))

  all_joined :
      (n : ℕ) {u : ClientMain} (s : Processes)
      → n ≤ 128
      → FirstFinished 128 s.clients
      → ClientReach pow2 u (running s (joining 0))
      → ClientReach pow2 u (running s (joining n))
  all_joined zero s l f run = run
  all_joined (suc n) {u} s l f run =
      subst (λ j. ClientReach pow2 u (running s (joining j))) (omega arith)
        (later (all_joined n s (omega arith) f run) (join n refl (omega arith) (f n (omega arith))))

-- (int) pow(2.0, i) % 97 is defined for the requests. There is a run of both programs, all 128 threads of the
-- client among them, in which main returns 0.
pub client_main-returns :
    (pow2 : ℤ → ℤ)
    → ((i : ℕ) → i < 31 → (v : ℤ) × (rem (pow2 (pos i)) prime ≡ some v))
    → (u : ClientMain) × ClientReach pow2 (client_main true) u × (u.main ≡ exited 0)
unfolding start_threads
client_main-returns pow2 defined =
    let begun : ClientReach pow2 (client_main true) (running (start_threads 128) (joining 0)) =
      later (all_created pow2 defined 128 (omega arith)) (created refl) in
    let b : RingBuffer = await_nonempty server_thread init_ring_buffer in
    let clients : List ClientPhase = replicate 128 (asking 0) in
    let (b', clients', results', run, _, f) =
      all_run pow2 defined 128 0 b clients [] refl init-IsResting (record {
        count = length-replicate 128 (asking 0);
        before = λ t l. absurd (omega arith);
        after = λ t lo l. get_elem?-replicate 128 t (asking 0) l;
      }) in
    let listens : ProcessReach pow2 (start_threads 128) (resting b clients []) =
      Threads.next Threads.here (Threads.listen refl refl) in
    let ended = lift_run pow2 defined (joining 0) (reach-join listens run) begun in
    (
      _,
      later (all_joined pow2 defined 128 (resting b' clients' results') (omega arith) f ended)
          (leave refl),
      refl,
    )
