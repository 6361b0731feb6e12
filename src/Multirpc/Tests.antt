-- ===== src/Multirpc/Tests.antt =====
-- project3/examples/xmlrpc_client.c: runs of the client, and the theorems at concrete server lists.
use cs6210proj.Prelude.{◌≤◌, ◌≡◌, ◌↔◌, refl, pos, List, [], ◌∷◌, Bytes, codes, arith}
use cs6210proj.Multirpc.Client.{
  Client, creating, waiting, woken, printed, failed, answered, fresh_client,
  handle_sample_add_response, count_response, satisfied,
}
use cs6210proj.Multirpc.Quorum.{handle_all, handle_all-quorum}
use cs6210proj.Multirpc.Threads.{
  System, Step, Reach, here, next, create, read_request, respond, wait, wake, client_start_sync,
}
use cs6210proj.Multirpc.Custom.{
  CustomSystem, CustomStep, CustomReach, custom_client_start, parse_custom,
}
use cs6210proj.Multirpc.Custom
use cs6210proj.Multirpc.Asked.{asked-once}
use mathlib.Core.List.{Perm}
use cs6210proj.Multirpc.Safety.{printed-quorum}
use cs6210proj.Multirpc.Races.{all_ask_last, signal_lost}

abbrev servers : List Bytes
servers = codes "h:8080" ∷ codes "h:8081" ∷ codes "h:8082" ∷ []

-- A majority of three servers is asked for, and the thread waits.
abbrev waiting_client : Client
waiting_client = record {
  value = pos 0;
  num_responses = 0;
  option = pos 0;
  num_servers = 3;
  phase = waiting;
}

handle_all-quorum_example :
    ((handle_all
        (answered (pos 6) ∷ failed (codes "timeout") ∷ answered (pos 7) ∷ [])
        waiting_client).phase
      ≡ woken)
    ↔ (2 ≤ 2)
handle_all-quorum_example =
    handle_all-quorum (answered (pos 6) ∷ failed (codes "timeout") ∷ answered (pos 7) ∷ [])
      waiting_client refl refl (omega arith) (omega arith) tt

-- One server: its thread is created, the creating thread waits, and the answer 6 comes and is printed.
abbrev pub one : List Bytes
one = codes "h:8080" ∷ []

abbrev pub all_done : System
all_done = record {
  servers = one;
  launched = 1;
  request_name = codes "h:8080";
  x = pos 4;
  y = pos 2;
  unread = 0;
  asked = codes "h:8080" ∷ [];
  sent = (pos 4, pos 2) ∷ [];
  flying = 0;
  client = record {
    value = pos 6;
    num_responses = 1;
    option = pos 0;
    num_servers = 1;
    phase = printed 1 (pos 6);
  };
}

one_run : Reach (client_start_sync (pos 0) one (pos 4) (pos 2)) all_done
unfolding client_start_sync fresh_client handle_sample_add_response count_response satisfied
one_run =
    next
      (next
        (next (next (next here (create (codes "h:8080") refl refl)) (wait refl refl))
          (read_request (λ e. cc) (omega arith)))
        (respond (answered (pos 6)) (λ e. cc) (omega arith)))
      (wake refl)

printed-quorum_example : (1 ≤ 1) × (1 ≤ 1)
printed-quorum_example = printed-quorum (pos 0) one (pos 4) (pos 2) 1 (pos 6) one_run refl

all_ask_last_example :
    (s : System) × Reach (client_start_sync (pos 2) servers (pos 4) (pos 2)) s
    × (s.asked ≡ codes "h:8082" ∷ codes "h:8082" ∷ codes "h:8082" ∷ [])
    × (s.sent ≡ (pos 4, pos 2) ∷ (pos 4, pos 2) ∷ (pos 4, pos 2) ∷ [])
    × (s.flying ≡ 3)
all_ask_last_example = all_ask_last (pos 2) servers (pos 4) (pos 2)

signal_lost_example :
    (s : System) × Reach (client_start_sync (pos 1) servers (pos 4) (pos 2)) s
    × (s.client.num_responses ≡ 3)
    × (s.client.phase ≡ waiting)
    × ((t : System) → ¬ Step s t)
signal_lost_example = signal_lost (pos 1) servers (pos 4) (pos 2) (pos 6)

-- Two servers, whose threads run in the other order than they were created in.
abbrev pub both : List Bytes
both = codes "h:8080" ∷ codes "h:8081" ∷ []

abbrev both_asked : CustomSystem
both_asked = record {
  servers = both;
  launched = 2;
  given = [];
  asked = codes "h:8080" ∷ codes "h:8081" ∷ [];
  flying = 2;
  client = record {
    value = pos 0;
    num_responses = 0;
    option = pos 0;
    num_servers = 2;
    phase = creating;
  };
}

both_run : CustomReach (custom_client_start (pos 0) both) both_asked
unfolding custom_client_start fresh_client
both_run =
    Custom.next
      (Custom.next
        (Custom.next (Custom.next Custom.here (Custom.create (codes "h:8080") refl refl))
          (Custom.create (codes "h:8081") refl refl))
        (Custom.make_request (codes "h:8080" ∷ []) (codes "h:8081") [] (λ e. cc) refl))
      (Custom.make_request [] (codes "h:8080") [] (λ e. cc) refl)

asked-once_example : Perm (codes "h:8080" ∷ codes "h:8081" ∷ []) both × (2 ≤ 2)
asked-once_example = asked-once (pos 0) both both_asked both_run
