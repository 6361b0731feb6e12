-- ===== src/Ring/Joined.antt =====
-- project2/client.c: what main finds when it has joined the threads.
use cs6210proj.Prelude.{
  ℕ, zero, suc, ◌+◌, ◌≤◌, ◌<◌, ◌≡◌, refl, ap, sym, ◌∙◌, subst, ℤ, some, List, [], ◌∷◌, ◌++◌,
  get_elem?, length, length-append, arith, Bool, true, false, get_elem?-lt,
}
use native.Mathlib.Decide.{ℕ_discrete}
use cs6210proj.Ring.Requests.{pending_count}
use cs6210proj.Ring.Responses.{ready_count}
use cs6210proj.Ring.Threads.{ClientPhase, asking, finished, Processes, ProcessStep, start_threads}
use cs6210proj.Ring.Balance.{Balanced, outstanding}
use cs6210proj.Ring.Outstanding.{step-Balanced, start-Balanced}
use cs6210proj.Ring.Rounds.{printed, all_passed, Tallied, step-Tallied}
use cs6210proj.Ring.Main.{
  MainPhase, creating, joining, exited, undefined, ClientMain, client_main, add_thread, ClientStep,
  thread, create, create_failed, created, join, join_unset, leave, ClientReach, start, later,
}
use cs6210proj.Ring.Joining.{FirstFinished, add_thread-Balanced, add_thread-Tallied, step-finished}

-- What main knows of its threads.
abbrev Settled : MainPhase → List ClientPhase → Type 0
Settled (creating i) clients = (length clients ≡ i) × (i ≤ 128)
Settled (joining j) clients = (j ≤ length clients) × FirstFinished j clients
Settled (exited zero) clients = (length clients ≡ 128) × FirstFinished 128 clients
Settled (exited (suc c)) clients = clients ≡ []
Settled undefined clients = length clients < 128

record IsSettled (u : ClientMain) : Type 0 where
  few : length u.processes.clients ≤ 128
  balanced : Balanced (length u.processes.clients) u.processes
  tallied : Tallied u.processes.clients u.processes.results
  settled : Settled u.main u.processes.clients

step-Settled :
    (pow2 : ℤ → ℤ) (s t : Processes) (m : MainPhase)
    → length t.clients ≡ length s.clients
    → ProcessStep pow2 s t
    → Settled m s.clients
    → Settled m t.clients
step-Settled pow2 s t (creating i) e step h = (e ∙ h.0, h.1)
step-Settled pow2 s t (joining j) e step h =
    (omega (arith, h.0), λ u l. step-finished pow2 s t u step (h.1 u l))
step-Settled pow2 s t (exited zero) e step h =
    (e ∙ h.0, λ u l. step-finished pow2 s t u step (h.1 u l))
step-Settled pow2 s t (exited (suc c)) e step h = no_clients t.clients (e ∙ ap length h)
  where
    no_clients : (ps : List ClientPhase) → length ps ≡ 0 → ps ≡ []
    no_clients [] q = refl
    no_clients (p ∷ ps) q = absurd (omega arith)
step-Settled pow2 s t undefined e step h = omega (arith, h)

step-IsSettled : (pow2 : ℤ → ℤ) (u w : ClientMain) → IsSettled u → ClientStep pow2 u w → IsSettled w
step-IsSettled pow2 u _ h (thread t step) =
    let s = u.processes in
    let b : Balanced (length s.clients) t =
      step-Balanced pow2 (length s.clients) h.few s t h.balanced step in
    record {
      few = omega (arith, b.threads, h.few);
      balanced = subst (λ n. Balanced n t) (sym b.threads) b;
      tallied = step-Tallied pow2 (length s.clients) s t h.few h.balanced h.tallied step;
      settled = step-Settled pow2 s t u.main b.threads step h.settled;
    }
step-IsSettled pow2 u _ h (create i e l) =
    let s = u.processes in
    let (count, _) = subst (λ m. Settled m s.clients) e h.settled in
    let more : length (s.clients ++ asking 0 ∷ []) ≡ length s.clients + 1 =
      length-append s.clients (asking 0 ∷ []) in
    record {
      few = omega (arith, more, count);
      balanced =
          subst (λ n. Balanced n (add_thread s)) (sym more)
            (add_thread-Balanced (length s.clients) s h.balanced);
      tallied = add_thread-Tallied s h.tallied;
      settled = (omega (arith, more, count), omega arith);
    }
step-IsSettled pow2 u _ h (create_failed i e l) = record {
  few = h.few;
  balanced = h.balanced;
  tallied = h.tallied;
  settled = (omega arith, λ t b. absurd (omega arith));
}
step-IsSettled pow2 u _ h (created e) = record {
  few = h.few;
  balanced = h.balanced;
  tallied = h.tallied;
  settled = (omega arith, λ t b. absurd (omega arith));
}
step-IsSettled pow2 u _ h (join j e l ended) =
    let (_, before) = subst (λ m. Settled m u.processes.clients) e h.settled in
    record {
      few = h.few;
      balanced = h.balanced;
      tallied = h.tallied;
      settled = (
        omega (arith, get_elem?-lt u.processes.clients j ended),
        λ t b. elim (ℕ_discrete j t) [
          | yes here ↦ subst (λ x. get_elem? u.processes.clients x ≡ some finished) here ended
          | no other ↦ before t (omega arith)
        ],
      );
    }
step-IsSettled pow2 u _ h (join_unset j e l none_there) = record {
  few = h.few;
  balanced = h.balanced;
  tallied = h.tallied;
  settled = omega arith;
}
step-IsSettled pow2 u _ h (leave e) =
    let (all, before) = subst (λ m. Settled m u.processes.clients) e h.settled in
    record {
      few = h.few;
      balanced = h.balanced;
      tallied = h.tallied;
      settled = (omega (arith, h.few), before);
    }

start-IsSettled : (pow2 : ℤ → ℤ) (mapped : Bool) → IsSettled (client_main mapped)
unfolding client_main start_threads
start-IsSettled pow2 true = record {
  few = omega arith;
  balanced = start-Balanced pow2 0 (omega arith);
  tallied = record { rounds = λ t p e. cc; tally = λ m l. refl };
  settled = (refl, omega arith);
}
start-IsSettled pow2 false = record {
  few = omega arith;
  balanced = start-Balanced pow2 0 (omega arith);
  tallied = record { rounds = λ t p e. cc; tally = λ m l. refl };
  settled = refl;
}

reach-IsSettled :
    (pow2 : ℤ → ℤ) (mapped : Bool) (u : ClientMain)
    → ClientReach pow2 (client_main mapped) u
    → IsSettled u
reach-IsSettled pow2 mapped u start = start-IsSettled pow2 mapped
reach-IsSettled pow2 mapped u (later earlier step) =
    step-IsSettled pow2 _ u (reach-IsSettled pow2 mapped _ earlier) step

all_finished :
    (m : ℕ) (clients : List ClientPhase)
    → FirstFinished (length clients) clients
    → (all_passed m clients ≡ length clients) × (outstanding clients ≡ 0)
all_finished m [] h = (refl, refl)
all_finished m (p ∷ ps) h =
    let (passed_, weights) = all_finished m ps (λ t l. h (suc t) (omega arith)) in
    let first : p ≡ finished = let e = h 0 (omega arith) in cc in
    rw first (omega (arith, passed_), omega (arith, weights))

-- What main's phase says of the threads: those that it has created or joined, and at the end of main, that all
-- 128 are done, that 128 results of each of the requests 0 to 30 were printed, and that the buffer is empty.
abbrev pub Accounted : MainPhase → Processes → Type 0
Accounted (creating i) s = length s.clients ≡ i
Accounted (joining j) s = FirstFinished j s.clients
Accounted (exited zero) s =
    (length s.clients ≡ 128)
    × FirstFinished 128 s.clients
    × ((m : ℕ) → m < 31 → printed m s.results ≡ 128)
    × (pending_count s.buffer + ready_count s.buffer ≡ 0)
Accounted (exited (suc c)) s = s.clients ≡ []
Accounted undefined s = length s.clients < 128

Settled-Accounted :
    (m : MainPhase) (s : Processes)
    → Balanced (length s.clients) s
    → Tallied s.clients s.results
    → Settled m s.clients
    → Accounted m s
Settled-Accounted (creating i) s a h k = k.0
Settled-Accounted (joining j) s a h k = k.1
Settled-Accounted (exited zero) s a h (count, before) =
    let finished_ : (m : ℕ)
        → (all_passed m s.clients ≡ length s.clients) × (outstanding s.clients ≡ 0) =
      λ m. all_finished m s.clients (λ t l. before t (omega arith)) in
    (
      count,
      before,
      λ m l. h.tally m l ∙ ((finished_ m).0 ∙ count),
      omega (arith, a.balance, (finished_ 0).1),
    )
Settled-Accounted (exited (suc c)) s a h k = k
Settled-Accounted undefined s a h k = k

-- In every run of the client's main with its threads and the server, in whatever order they take their steps
-- and whether or not a thread can be created: of each request the threads have together printed as many
-- results as there are threads past it. When main has returned 0, 128 threads were created and are done, 128 results of each of the requests
-- 0 to 30 were printed, and the buffer is empty. Where main has joined a `pthread_t` that was never set, fewer
-- than 128 were created.
pub client_main-joins :
    (pow2 : ℤ → ℤ) (mapped : Bool) (u : ClientMain)
    → ClientReach pow2 (client_main mapped) u
    → ((m : ℕ) → m < 31 → printed m u.processes.results ≡ all_passed m u.processes.clients)
      × Accounted u.main u.processes
client_main-joins pow2 mapped u run =
    let h : IsSettled u = reach-IsSettled pow2 mapped u run in
    (h.tallied.tally, Settled-Accounted u.main u.processes h.balanced h.tallied h.settled)
