-- ===== src/Multirpc/Messages.antt =====
-- project3/examples/xmlrpc_client.c, project3/examples/xmlrpc_asynch_client.c: what the process prints on
-- stdout, one message for each printf.
use cs6210proj.Prelude.{ℕ, suc, ℤ, pos, negsuc, List, [], ◌∷◌, ◌++◌, Bytes, codes, print_int}
use cs6210proj.Multirpc.Client.{Reply, bad_parameters, failed, bad_result, answered}

-- The line of `main`, the callback's, and the handler's for a call that failed.
pub data Message : Type 0 where
  nonblocking_made : Message
  answered_by : ℕ → ℤ → Message
  rpc_failed : Bytes → Message

-- `printf("%d")` of a number of either sign
abbrev pub print_value : ℤ → Bytes
print_value (pos n) = print_int n
print_value (negsuc n) = codes "-" ++ print_int (suc n)

unfoldable pub client_callback : ℕ → ℤ → Bytes
client_callback num_responses value =
    codes "Your RPC request was answered by "
    ++ (print_int num_responses
        ++ (codes " server(s) with a value of " ++ (print_value value ++ codes "\n")))

abbrev pub nonblocking : Bytes
nonblocking = codes "The client has made a nonblocking request.\n"

-- No newline is printed behind the fault's text.
unfoldable pub message_text : Message → Bytes
message_text nonblocking_made = nonblocking
message_text (answered_by n v) = client_callback n v
message_text (rpc_failed fault_string) = codes "The RPC failed.  " ++ fault_string

abbrev pub stdout : List Message → Bytes
stdout [] = []
stdout (m ∷ ms) = message_text m ++ stdout ms

-- What handle_sample_add_response prints.
abbrev pub handler_says : Reply → List Message
handler_says bad_parameters = []
handler_says bad_result = []
handler_says (failed fault_string) = rpc_failed fault_string ∷ []
handler_says (answered v) = []
