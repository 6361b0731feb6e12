-- ===== src/Multirpc/Says.antt =====
-- project3/examples/xmlrpc_client.c, project3/examples/xmlrpc_asynch_client.c: what a step prints, failed calls
-- aside, and how it changes the phase.
use cs6210proj.Prelude.{◌≡◌, refl, sym, subst, Bool, true, false, if◌then◌else◌, []}
use cs6210proj.Multirpc.Client.{
  Client, Phase, creating, waiting, woken, exited, printed, signal, Reply, bad_parameters, failed,
  bad_result, answered, handle_sample_add_response, count_response,
}
use cs6210proj.Multirpc.Messages.{handler_says}
use cs6210proj.Multirpc.Threads.{
  System, Step, create, create_fails, read_request, call_fails, respond, wait, wake, says,
}
use cs6210proj.Multirpc.Custom.{CustomSystem, CustomStep, custom_says}
use cs6210proj.Multirpc.Custom
use cs6210proj.Multirpc.Printed.{others, callback, callback_says, callback_says-same}

callback_says-exited : (p : Phase) → [] ≡ callback_says p exited
callback_says-exited creating = refl
callback_says-exited waiting = refl
callback_says-exited woken = refl
callback_says-exited exited = refl
callback_says-exited (printed n v) = refl

callback_says-signal : (b : Bool) (p : Phase) → [] ≡ callback_says p (if b then signal p else p)
callback_says-signal false p = sym (callback_says-same p)
callback_says-signal true creating = refl
callback_says-signal true waiting = refl
callback_says-signal true woken = refl
callback_says-signal true exited = refl
callback_says-signal true (printed n v) = refl

handler_says-others :
    (r : Reply) (c : Client)
    → others (handler_says r) ≡ callback_says c.phase (handle_sample_add_response r c).phase
unfolding handle_sample_add_response count_response
handler_says-others bad_parameters c = callback_says-exited c.phase
handler_says-others (failed _) c = sym (callback_says-same c.phase)
handler_says-others bad_result c = callback_says-exited c.phase
handler_says-others (answered v) c = callback_says-signal _ c.phase

pub says-others :
    (s t : System) (step : Step s t)
    → others (says s t step) ≡ callback_says s.client.phase t.client.phase
says-others s _ (create _ _ _) = sym (callback_says-same s.client.phase)
says-others s _ (create_fails _ _) = callback_says-exited s.client.phase
says-others s _ (read_request _ _) = sym (callback_says-same s.client.phase)
says-others s _ (call_fails _ _) = callback_says-exited s.client.phase
says-others s _ (respond r _ _) = handler_says-others r s.client
says-others s _ (wait e _) = subst (λ p. [] ≡ callback_says p waiting) (sym e) refl
says-others s _ (wake e) =
    let n = s.client.num_responses in
    let v = s.client.value in subst (λ p. callback n v ≡ callback_says p (printed n v)) (sym e) refl

pub custom_says-others :
    (s t : CustomSystem) (step : CustomStep s t)
    → others (custom_says s t step) ≡ callback_says s.client.phase t.client.phase
custom_says-others s _ (Custom.create _ _ _) = sym (callback_says-same s.client.phase)
custom_says-others s _ (Custom.create_fails _ _) = callback_says-exited s.client.phase
custom_says-others s _ (Custom.make_request _ _ _ _ _) = sym (callback_says-same s.client.phase)
custom_says-others s _ (Custom.call_fails _ _) = callback_says-exited s.client.phase
custom_says-others s _ (Custom.respond r _ _) = handler_says-others r s.client
custom_says-others s _ (Custom.wait e _) = subst (λ p. [] ≡ callback_says p waiting) (sym e) refl
custom_says-others s _ (Custom.wake e) =
    let n = s.client.num_responses in
    let v = s.client.value in subst (λ p. callback n v ≡ callback_says p (printed n v)) (sym e) refl
