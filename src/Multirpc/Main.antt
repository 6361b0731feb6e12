-- ===== src/Multirpc/Main.antt =====
-- project3/examples/xmlrpc_client.c, project3/examples/xmlrpc_asynch_client.c: `main` behind the
-- arguments.
use cs6210proj.Prelude.{
  ℕ, ◌≡◌, ◌≢◌, ℤ, pos, negsuc, Bool, true, false, Option, none, some, List, ◌++◌, ◌∷◌, [], Bytes,
  ◌==◌,
}
use cs6210proj.Multirpc.Client.{Client, exited, printed, parse_arguments}
use cs6210proj.Multirpc.Messages.{Message, nonblocking_made}
use cs6210proj.Multirpc.Threads.{System, client_start_sync}
use cs6210proj.Multirpc.Custom.{CustomSystem, custom_client_start, parse_custom}

-- `sync == ASYNC`
abbrev pub is_async : ℤ → Bool
is_async (pos n) = n == 0
is_async (negsuc n) = false

-- The main thread: before the branch on `sync`, with the thread created, in pthread_join, in its own
-- call of client_start_sync, or returned, which ends the process.
pub data MainPhase : Type 0 where
  starting announcing joining calling finished : MainPhase

-- The process, over the state of its other threads.
pub record Process (S : Type 0) : Type 0 where
  pub sync : ℤ
  pub phase : MainPhase
  pub system : S
  pub output : List Message

-- pthread_create succeeds: `main` does not ask.
unfoldable pub client_start_async : {S : Type 0} → Process S → Process S
client_start_async p = record p { phase = announcing }

abbrev pub running : MainPhase → Bool
running starting = false
running announcing = true
running joining = true
running calling = true
running finished = false

-- The main thread waits for the callback to have run.
abbrev pub awaiting : MainPhase → Bool
awaiting starting = false
awaiting announcing = false
awaiting joining = true
awaiting calling = true
awaiting finished = false

-- `work` is a step of the client's threads, the others are the main thread's.
pub data MainStep {S : Type 0} (R : S → S → Type 0) (client : S → Client)
    (says : (s t : S) → R s t → List Message) (p : Process S) : Process S → Type 0 where
  start_thread :
      p.phase ≡ starting → is_async p.sync ≡ true → MainStep R client says p (client_start_async p)
  start_here :
      p.phase ≡ starting
      → is_async p.sync ≡ false
      → MainStep R client says p (record p { phase = calling })
  announce :
      p.phase ≡ announcing
      → (client p.system).phase ≢ exited
      → MainStep R client says p
          (record p { phase = joining; output = p.output ++ nonblocking_made ∷ [] })
  work :
      {t : S}
      → running p.phase ≡ true
      → (step : R p.system t)
      → MainStep R client says p
          (record p { system = t; output = p.output ++ says p.system t step })
  return :
      (n : ℕ) (v : ℤ)
      → awaiting p.phase ≡ true
      → (client p.system).phase ≡ printed n v
      → MainStep R client says p (record p { phase = finished })

pub data MainReach {S : Type 0} (R : S → S → Type 0) (client : S → Client)
    (says : (s t : S) → R s t → List Message) (p : Process S) : Process S → Type 0 where
  here : MainReach R client says p p
  next :
      {q r : Process S}
      → MainReach R client says p q
      → MainStep R client says q r
      → MainReach R client says p r

abbrev pub start : {S : Type 0} → ℤ → S → Process S
start sync system = record { sync = sync; phase = starting; system = system; output = [] }

-- `none` is the usage message and `exit(1)`.
unfoldable pub client_main : (Bytes → ℤ) → List Bytes → Option (Process System)
client_main atoi argv = elim (parse_arguments atoi argv) [
  | none ↦ none
  | some a ↦ some (start a.sync (client_start_sync a.option a.server_list a.x a.y))
]

unfoldable pub custom_main : (Bytes → ℤ) → List Bytes → Option (Process CustomSystem)
custom_main atoi argv = elim (parse_custom atoi argv) [
  | none ↦ none
  | some a ↦ some (start a.sync (custom_client_start a.option a.server_list))
]
