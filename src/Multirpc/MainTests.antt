-- ===== src/Multirpc/MainTests.antt =====
-- project3/examples: runs of whole programs, with the server that adds.
use cs6210proj.Prelude.{
  ℕ, some, false, print_int, ℤ, inl, Bytes, eqb, if◌then◌else◌, ◌≡◌, refl, pos, some, [], ◌∷◌,
  codes, arith,
}
use cs6210proj.Multirpc.Messages.{
  nonblocking_made, answered_by, rpc_failed, stdout, message_text, client_callback,
}
use cs6210proj.Multirpc.Client.{
  Arguments, parse_arguments, printed, answered, fresh_client, handle_sample_add_response,
  count_response, satisfied,
}
use cs6210proj.Multirpc.Tests.{one, all_done, both}
use cs6210proj.Multirpc.Threads.{
  System, create, read_request, respond, wait, wake, client_start_sync,
}
use cs6210proj.Multirpc.Main.{
  MainPhase, Process, MainStep, MainReach, start, start_here, work, return, client_start_async,
  finished, client_main,
}
use cs6210proj.Multirpc.Main
use cs6210proj.Multirpc.Ordering.{custom_finished-Reported}
use cs6210proj.Multirpc.Server.{Served, Answer, faulted, overflow, sum, sample_add, arrives}
use cs6210proj.Multirpc.Sample.{CallResult, call_failed, int, sample_client_main}
use cs6210proj.Multirpc.Server
use cs6210proj.Multirpc.Printed.{Reported, others}
use cs6210proj.Multirpc.Sum.{printed-sum}
use cs6210proj.Multirpc.Custom.{
  CustomSystem, CustomStep, CustomReach, custom_client_start, custom_says,
}
use cs6210proj.Multirpc.Custom

abbrev number : Bytes → ℤ
number b = if eqb b (codes "4") then pos 4 else if eqb b (codes "2") then pos 2 else pos 0

abbrev arguments : Arguments
arguments = record { server_list = one; option = pos 0; sync = pos 0; x = pos 4; y = pos 2 }

-- The one server adds 4 and 2.
one-Served : Served (client_start_sync (pos 0) one (pos 4) (pos 2)) all_done
unfolding client_start_sync fresh_client handle_sample_add_response count_response satisfied
    sample_add
one-Served =
    Server.next
      (Server.next
        (Server.next
          (Server.next (Server.next Server.here (create (codes "h:8080") refl refl) tt)
            (wait refl refl) tt)
          (read_request (λ e. cc) (omega arith)) tt)
        (respond (answered (pos 6)) (λ e. cc) (omega arith))
        ((pos 4, pos 2), inl refl, arrives (pos 6) refl))
      (wake refl) tt

printed-sum_example : pos 6 ≡ pos 6
unfolding parse_arguments client_main
printed-sum_example =
    printed-sum number (codes "h:8080" ∷ codes "0" ∷ codes "0" ∷ codes "4" ∷ codes "2" ∷ [])
      arguments (start (pos 0) (client_start_sync (pos 0) one (pos 4) (pos 2))) 1 (pos 6) refl refl
      (omega arith) one-Served refl

-- Any of two servers is asked for, and the first call fails.
abbrev any_done : System
any_done = record {
  servers = both;
  launched = 2;
  request_name = codes "h:8081";
  x = pos 4;
  y = pos 2;
  unread = 0;
  asked = codes "h:8081" ∷ codes "h:8081" ∷ [];
  sent = (pos 4, pos 2) ∷ (pos 4, pos 2) ∷ [];
  flying = 0;
  client = record {
    value = pos 6;
    num_responses = 1;
    option = pos 1;
    num_servers = 2;
    phase = printed 1 (pos 6);
  };
}

-- The asynchronous mode: the callback runs before `main` prints its line.
abbrev ended : Process System
ended = record {
  sync = pos 0;
  phase = finished;
  system = any_done;
  output = rpc_failed (codes "timeout") ∷ answered_by 1 (pos 6) ∷ nonblocking_made ∷ [];
}

ended_text :
    stdout ended.output
    ≡ codes
        "The RPC failed.  timeoutYour RPC request was answered by 1 server(s) with a value of 6\nThe client has made a nonblocking request.\n"
unfolding message_text client_callback print_int
ended_text = refl

-- The earlier version, in its synchronous mode.
abbrev custom_done : CustomSystem
custom_done = record {
  servers = one;
  launched = 1;
  given = [];
  asked = codes "h:8080" ∷ [];
  flying = 0;
  client = all_done.client;
}

abbrev custom_ended : Process CustomSystem
custom_ended = record {
  sync = pos 1;
  phase = finished;
  system = custom_done;
  output = answered_by 1 (pos 6) ∷ [];
}

custom_main_run :
    MainReach CustomStep
      (λ s. s.client)
      custom_says
      (start (pos 1) (custom_client_start (pos 0) one))
      custom_ended
unfolding custom_client_start fresh_client handle_sample_add_response count_response satisfied
    client_start_async
custom_main_run =
    Main.next
      (Main.next
        (Main.next
          (Main.next
            (Main.next
              (Main.next (Main.next Main.here (start_here refl refl))
                (work refl (Custom.create (codes "h:8080") refl refl)))
              (work refl (Custom.wait refl refl)))
            (work refl (Custom.make_request [] (codes "h:8080") [] (λ e. cc) refl)))
          (work refl (Custom.respond (answered (pos 6)) (λ e. cc) (omega arith))))
        (work refl (Custom.wake refl)))
      (return 1 (pos 6) refl refl)

custom_finished-Reported_example :
    (n : ℕ) × (v : ℤ) × (custom_ended.system.client.phase ≡ printed n v)
    × Reported (pos 1) n v (others custom_ended.output)
custom_finished-Reported_example =
    custom_finished-Reported (pos 1) (pos 0) one custom_ended custom_main_run refl

-- What the synchronous client reads when the server answers it.
abbrev from_server : Answer → CallResult
from_server faulted = call_failed
from_server overflow = call_failed
from_server (sum z) = int z

-- The client and the server together print the sum of 5 and 7.
sample_run :
    sample_client_main false (λ url name xy. from_server (sample_add (some xy)).1) [] ≡ record {
      exit_code = 0;
      output =
          codes
            "Making XMLRPC call to server url 'http://localhost:8080/RPC2' method 'sample.add' to request the sum of 5 and 7...\nThe sum is 12\n";
    }
unfolding sample_client_main sample_add print_int
sample_run = refl
