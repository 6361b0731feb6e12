-- ===== src/Multirpc/Client.antt =====
-- project3/examples/xmlrpc_client.c: the globals, the response handler and the arguments of `main`.
use cs6210proj.Prelude.{
  ℕ, ◌+◌, ◌-◌, ◌/◌, ℤ, pos, negsuc, Bool, true, false, Option, none, some, List, [], Bytes, ltb,
  leb, ◌==◌, if◌then◌else◌, length, take, get_or,
}

-- The thread that runs client_start_sync: it creates the other threads, waits on `client_satisfied`,
-- has been signalled, or has run the callback, which prints the count and the value. `exited` is the
-- whole process after `exit(1)`.
pub data Phase : Type 0 where
  creating waiting woken exited : Phase
  printed : ℕ → ℤ → Phase

pub record Client : Type 0 where
  pub value : ℤ
  pub num_responses : ℕ
  pub option : ℤ
  pub num_servers : ℕ
  pub phase : Phase

-- `option == MAJORITY` and `option == ANY`; all other values stand for ALL.
abbrev pub is_majority : ℤ → Bool
is_majority (pos n) = n == 0
is_majority (negsuc n) = false

abbrev pub is_any : ℤ → Bool
is_any (pos n) = n == 1
is_any (negsuc n) = false

-- The condition under which a response signals.
unfoldable pub satisfied : ℤ → ℕ → ℕ → Bool
satisfied option num_responses num_servers =
    if is_majority option
    then leb (num_servers / 2 + 1) num_responses
    else if is_any option
    then true
    else num_responses == num_servers

-- A signal that nobody waits for is lost.
abbrev pub signal : Phase → Phase
signal creating = creating
signal waiting = woken
signal woken = woken
signal exited = exited
signal (printed n v) = printed n v

-- What the library's calls in the handler come to: the parameters cannot be taken apart, the call
-- failed, with the fault's text, its result is no number, or it is this number.
pub data Reply : Type 0 where
  bad_parameters bad_result : Reply
  failed : Bytes → Reply
  answered : ℤ → Reply

abbrev pub die : Client → Client
die c = record c { phase = exited }

-- The part that runs with `result_mutex`.
unfoldable pub count_response : ℤ → Client → Client
count_response sum c =
    let responses : ℕ = c.num_responses + 1 in
    record c {
      value = sum;
      num_responses = responses;
      phase = if satisfied c.option responses c.num_servers then signal c.phase else c.phase;
    }

unfoldable pub handle_sample_add_response : Reply → Client → Client
handle_sample_add_response bad_parameters c = die c
handle_sample_add_response (failed fault_string) c = c
handle_sample_add_response bad_result c = die c
handle_sample_add_response (answered sum) c = count_response sum c

-- What client_start_sync sets before it creates the threads.
unfoldable pub fresh_client : ℤ → ℕ → Client
fresh_client option num_servers = record {
  value = pos 0;
  num_responses = 0;
  option = option;
  num_servers = num_servers;
  phase = creating;
}

pub record Arguments : Type 0 where
  pub server_list : List Bytes
  pub option : ℤ
  pub sync : ℤ
  pub x : ℤ
  pub y : ℤ

-- `main` on the arguments behind the program's name; `atoi` is the C library's. `none` is the usage
-- message and `exit(1)`.
unfoldable pub parse_arguments : (Bytes → ℤ) → List Bytes → Option Arguments
parse_arguments atoi argv =
    let argc : ℕ = length argv + 1 in
    let num_servers : ℕ = argc - 5 in
    if ltb argc 6
    then none
    else some (record {
      server_list = take num_servers argv;
      option = atoi (get_or argv (argc - 4 - 1) []);
      sync = atoi (get_or argv (argc - 3 - 1) []);
      x = atoi (get_or argv (argc - 2 - 1) []);
      y = atoi (get_or argv (argc - 1 - 1) []);
    })
