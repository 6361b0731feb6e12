-- ===== src/Multirpc/Moves.antt =====
-- project3/examples/xmlrpc_client.c, project3/examples/xmlrpc_asynch_client.c: how a step changes the
-- phase of the waiting thread.
use cs6210proj.Prelude.{ℕ, sym, subst, ℤ, Bool, true, false, if◌then◌else◌}
use cs6210proj.Multirpc.Client.{
  Client, Phase, creating, waiting, woken, exited, printed, signal, Reply, bad_parameters, failed,
  bad_result, answered, handle_sample_add_response, count_response,
}
use cs6210proj.Multirpc.Threads.{
  System, Step, create, create_fails, read_request, call_fails, respond, wait, wake,
}
use cs6210proj.Multirpc.Custom.{CustomSystem, CustomStep, custom_client_start}
use cs6210proj.Multirpc.Custom

-- How the client's phase changes in a step.
pub data Moves : Phase → Phase → Type 0 where
  stays : {p : Phase} → Moves p p
  dies : {p : Phase} → Moves p exited
  waits : Moves creating waiting
  wakes : Moves waiting woken
  prints : (n : ℕ) (v : ℤ) → Moves woken (printed n v)

signal-Moves : (b : Bool) (p : Phase) → Moves p (if b then signal p else p)
signal-Moves false p = stays
signal-Moves true creating = stays
signal-Moves true waiting = wakes
signal-Moves true woken = stays
signal-Moves true exited = stays
signal-Moves true (printed n v) = stays

handle-Moves : (r : Reply) (c : Client) → Moves c.phase (handle_sample_add_response r c).phase
unfolding handle_sample_add_response count_response
handle-Moves bad_parameters c = dies
handle-Moves (failed _) c = stays
handle-Moves bad_result c = dies
handle-Moves (answered v) c = signal-Moves _ c.phase

pub step-Moves : (s t : System) → Step s t → Moves s.client.phase t.client.phase
step-Moves s _ (create _ _ _) = stays
step-Moves s _ (create_fails _ _) = dies
step-Moves s _ (read_request _ _) = stays
step-Moves s _ (call_fails _ _) = dies
step-Moves s _ (respond r _ _) = handle-Moves r s.client
step-Moves s _ (wait e _) = subst (λ p. Moves p waiting) (sym e) waits
step-Moves s _ (wake e) =
    subst (λ p. Moves p (printed s.client.num_responses s.client.value)) (sym e) (prints _ _)

pub custom-Moves : (s t : CustomSystem) → CustomStep s t → Moves s.client.phase t.client.phase
custom-Moves s _ (Custom.create _ _ _) = stays
custom-Moves s _ (Custom.create_fails _ _) = dies
custom-Moves s _ (Custom.make_request _ _ _ _ _) = stays
custom-Moves s _ (Custom.call_fails _ _) = dies
custom-Moves s _ (Custom.respond r _ _) = handle-Moves r s.client
custom-Moves s _ (Custom.wait e _) = subst (λ p. Moves p waiting) (sym e) waits
custom-Moves s _ (Custom.wake e) =
    subst (λ p. Moves p (printed s.client.num_responses s.client.value)) (sym e) (prints _ _)
