-- ===== src/Multirpc/Sample.antt =====
-- project3/examples/xmlrpc_sample_add_client.c: the client that calls the server once and waits.
use cs6210proj.Prelude.{
  ℕ, ◌-◌, ◌+◌, ℤ, pos, Bool, List, [], ◌++◌, Bytes, codes, length, ltb, if◌then◌else◌,
}
use cs6210proj.Multirpc.Messages.{print_value}

-- What `xmlrpc_client_call` and `xmlrpc_read_int` come to.
pub data CallResult : Type 0 where
  call_failed not_int : CallResult
  int : ℤ → CallResult

abbrev pub server_url : Bytes
server_url = codes "http://localhost:8080/RPC2"

abbrev pub method_name : Bytes
method_name = codes "sample.add"

-- `main` has ended with this exit code and printed this; what it writes to stderr is left out.
pub record Ended : Type 0 where
  pub exit_code : ℕ
  pub output : Bytes

-- `die_if_fault_occurred` on a fault; `output` is what the process has printed before.
abbrev pub died : Bytes → Ended
died output = record { exit_code = 1; output = output }

-- The print behind the call.
abbrev pub print_sum : Bytes → CallResult → Ended
print_sum output call_failed = died output
print_sum output not_int = died output
print_sum output (int z) = record {
  exit_code = 0;
  output = output ++ (codes "The sum is " ++ (print_value z ++ codes "\n"));
}

-- `main` on the arguments behind the program's name; `init_fails` says whether `xmlrpc_client_init2`
-- fails, and `call` makes the remote call.
unfoldable pub sample_client_main : Bool → (Bytes → Bytes → ℤ × ℤ → CallResult) → List Bytes → Ended
sample_client_main init_fails call argv =
    let argc : ℕ = length argv + 1 in
    let making : Bytes =
      codes "Making XMLRPC call to server url '"
      ++ (server_url
          ++ (codes "' method '"
              ++ (method_name ++ codes "' to request the sum of 5 and 7...\n"))) in
    if ltb 0 (argc - 1)
    then record { exit_code = 1; output = [] }
    else if init_fails
    then died []
    else print_sum making (call server_url method_name (pos 5, pos 7))
