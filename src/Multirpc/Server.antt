-- ===== src/Multirpc/Server.antt =====
-- project3/examples/xmlrpc_sample_add_server.c: the server that the clients call.
use cs6210proj.Prelude.{
  ℕ, ◌+◌, ◌-◌, ◌≡◌, ℤ, pos, negsuc, ◌+ℤ◌, is_int32, Bool, false, Option, none, some, List, [], ◌∷◌,
  ◌⊎◌, Bytes, codes, ◌==◌, not, if◌then◌else◌, length, get_or,
}
use cs6210proj.Multirpc.Client.{Reply, failed, answered}
use cs6210proj.Multirpc.Threads.{
  System, Step, create, create_fails, read_request, call_fails, respond, wait, wake,
}

-- What a call comes to: the parameters are not two numbers, the sum overflows, which C leaves
-- undefined, or it is returned.
pub data Answer : Type 0 where
  faulted overflow : Answer
  sum : ℤ → Answer

abbrev is_one : ℤ → Bool
is_one (pos n) = n == 1
is_one (negsuc n) = false

-- The seconds that the call sleeps, and its result; `none` is a parameter array without two numbers.
unfoldable pub sample_add : Option (ℤ × ℤ) → ℕ × Answer
sample_add none = (0, faulted)
sample_add (some (x, y)) =
    let z : ℤ = x +ℤ y in (if is_one y then 2 else 0, if is_int32 z then sum z else overflow)

pub record Serverparm : Type 0 where
  pub config_file_name : Option Bytes
  pub registry : List (Bytes × (Option (ℤ × ℤ) → ℕ × Answer))
  pub port_number : ℤ
  pub log_file_name : Bytes

-- `main` on the arguments behind the program's name, up to the server's loop, which does not return.
-- `none` is the message and `exit(1)`.
unfoldable pub server_main : (Bytes → ℤ) → List Bytes → Option Serverparm
server_main atoi argv =
    let argc : ℕ = length argv + 1 in
    if not (argc - 1 == 1)
    then none
    else some (record {
      config_file_name = none;
      registry = (codes "sample.add", sample_add) ∷ [];
      port_number = atoi (get_or argv (1 - 1) []);
      log_file_name = codes "/tmp/xmlrpc_log";
    })

-- What Xmlrpc-c hands the client's handler for a call: a failure, or the number that the server returned.
pub data Carries (a : Answer) : Reply → Type 0 where
  lost : (fault_string : Bytes) → Carries a (failed fault_string)
  arrives : (z : ℤ) → a ≡ sum z → Carries a (answered z)

-- Whether these are the parameters of one of the calls.
abbrev pub IsSent : ℤ × ℤ → List (ℤ × ℤ) → Type 0
IsSent p [] = ⊥
IsSent p (q ∷ qs) = (p ≡ q) ⊎ IsSent p qs

-- A reply is what the server's sample_add makes of the parameters of a call that was made.
abbrev pub Carried : {s t : System} → Step s t → Type 0
Carried (create _ _ _) = Unit
Carried (create_fails _ _) = Unit
Carried (read_request _ _) = Unit
Carried (call_fails _ _) = Unit
Carried {s} (respond r _ _) = (p : ℤ × ℤ) × IsSent p s.sent × Carries (sample_add (some p)).1 r
Carried (wait _ _) = Unit
Carried (wake _) = Unit

-- The runs of the client in which all its servers are this server.
pub data Served (s : System) : System → Type 0 where
  here : Served s s
  next : {t u : System} → Served s t → (step : Step t u) → Carried step → Served s u
