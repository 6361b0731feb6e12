-- ===== src/Ring/MainTests.antt =====
-- project2/client.c: a run of main that has created a thread, and one that cannot.
use cs6210proj.Prelude.{◌^◌, ◌%◌, rem, ℕ, ◌<◌, ◌≡◌, refl, pos, true, false, [], ◌∷◌, arith}
use cs6210proj.Ring.Buffer.{write_request, init_ring_buffer}
use cs6210proj.Ring.Requests.{after_write}
use cs6210proj.Ring.Threads.{start_threads, listening}
use cs6210proj.Ring.Threads
use cs6210proj.Ring.Main.{
  ClientMain, server_main, server_runs, exited, creating, undefined, client_main, create,
  create_failed, thread, join_unset, ClientReach, start, later,
}
use cs6210proj.Ring.Rounds.{printed, all_passed}
use cs6210proj.Ring.Completed.{client_main-returns}
use cs6210proj.Ring.Joined.{Accounted, client_main-joins}
use cs6210proj.Ring.Tests.{pow2}

-- main has created one thread, which has asked.
abbrev one_created : ClientMain
one_created = record {
  processes = record {
    buffer = after_write 0 (pos 0) (pos 97) init_ring_buffer;
    clients = Threads.asked 0 0 ∷ [];
    server = listening;
    results = [];
  };
  main = creating 1;
  unlinked = false;
  errors = [];
}

one_created_run : ClientReach pow2 (client_main true) one_created
unfolding client_main start_threads write_request
one_created_run =
    later (later start (create 0 refl (omega arith)))
      (thread _ (Threads.write 0 0 0 (after_write 0 (pos 0) (pos 97) init_ring_buffer) refl refl))

client_main-joins_example :
    ((m : ℕ) → m < 31 → printed m [] ≡ all_passed m (Threads.asked 0 0 ∷ []))
    × Accounted (creating 1) one_created.processes
client_main-joins_example = client_main-joins pow2 true one_created one_created_run

-- No thread can be created, and main joins the first one all the same.
none_created : (u : ClientMain) × ClientReach pow2 (client_main true) u × (u.main ≡ undefined)
unfolding client_main start_threads
none_created = (
  _,
  later (later start (create_failed 0 refl (omega arith)))
      (join_unset 0 refl (omega arith) (omega arith)),
  refl,
)

client_main-returns_example :
    (u : ClientMain) × ClientReach pow2 (client_main true) u × (u.main ≡ exited 0)
unfolding rem
client_main-returns_example = client_main-returns pow2 (λ i l. (pos (2 ^ i % 97), refl))

-- The client's main begins in the state that the server's has made.
server_started : server_main true ≡ server_runs (client_main true).processes
unfolding server_main client_main
server_started = refl
