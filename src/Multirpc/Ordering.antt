-- ===== src/Multirpc/Ordering.antt =====
-- project3/examples/xmlrpc_client.c, project3/examples/xmlrpc_asynch_client.c: `main` returns behind the
-- callback.
use cs6210proj.Prelude.{
  ℕ, ◌≡◌, refl, sym, subst, ap, ◌∙◌, ◌++◌, ◌∷◌, ℤ, ◌⊎◌, inl, inr, List, [], Bytes,
}
use cs6210proj.Multirpc.Client.{Client, exited, printed, fresh_client}
use cs6210proj.Multirpc.Threads.{
  create, create_fails, read_request, call_fails, respond, wait, wake, says,
}
use cs6210proj.Multirpc.Threads
use cs6210proj.Multirpc.Custom.{CustomSystem, CustomStep, custom_client_start, custom_says}
use cs6210proj.Multirpc.Main.{
  starting, joining, finished, Process, start, client_start_async, MainStep, start_thread,
  start_here, announce, work, return, MainReach, here, next,
}
use cs6210proj.Multirpc.Moves.{Moves, custom-Moves}
use cs6210proj.Multirpc.Printed.{
  heard, others, others-append, callback_says, Reported, Good, work-Good, return-Good,
  announce-Good,
}
use cs6210proj.Multirpc.Says.{custom_says-others}
use cs6210proj.Multirpc.Messages.{Message, nonblocking_made}

module _ {S : Type 0} (R : S → S → Type 0) (client : S → Client)
    (says : (s t : S) → R s t → List Message)
    (moves : (s t : S) → R s t → Moves (client s).phase (client t).phase)
    (heard_of : (s t : S) (step : R s t)
      → others (says s t step) ≡ callback_says (client s).phase (client t).phase) where
  abbrev Fine : Process S → Type 0
  Fine p = Good p.sync p.phase (client p.system).phase (others p.output)

  begins :
      (p : Process S)
      → p.phase ≡ starting
      → Fine p
      → ((client p.system).phase ≡ exited) ⊎ (others p.output ≡ heard (client p.system).phase)
  begins p e g = subst (λ m. Good p.sync m (client p.system).phase (others p.output)) e g

  step-Fine : (p q : Process S) → MainStep R client says p q → Fine p → Fine q
  unfolding client_start_async
  step-Fine p _ (start_thread e a) g = elim (begins p e g) [
    | inl dead ↦ inl dead
    | inr h ↦ inr (a, h)
  ]
  step-Fine p _ (start_here e a) g = elim (begins p e g) [
    | inl dead ↦ inl dead
    | inr h ↦ inr (a, h)
  ]
  step-Fine p _ (announce e _) g =
      subst (Good p.sync joining (client p.system).phase)
        (sym (others-append p.output (nonblocking_made ∷ [])))
        (announce-Good p.sync (others p.output)
          (subst (λ m. Good p.sync m (client p.system).phase (others p.output)) e g))
  step-Fine p _ (work {t} r st) g =
      let now : others p.output ++ callback_says (client p.system).phase (client t).phase
          ≡ others (p.output ++ says p.system t st) =
        ap (λ l. others p.output ++ l) (sym (heard_of p.system t st))
        ∙ sym (others-append p.output (says p.system t st)) in
      subst (Good p.sync p.phase (client t).phase) now
        (work-Good p.sync p.phase (others p.output) r (moves p.system t st) g)
  step-Fine p _ (return n v w e) g = return-Good p.sync p.phase (others p.output) w e g

  reach-Fine : {p q : Process S} → Fine p → MainReach R client says p q → Fine q
  reach-Fine g here = g
  reach-Fine g (next {q} {r} run st) = step-Fine q r st (reach-Fine g run)

  reach-sync : {p q : Process S} → MainReach R client says p q → q.sync ≡ p.sync
  unfolding client_start_async
  reach-sync here = refl
  reach-sync (next run (start_thread _ _)) = reach-sync run
  reach-sync (next run (start_here _ _)) = reach-sync run
  reach-sync (next run (announce _ _)) = reach-sync run
  reach-sync (next run (work _ _)) = reach-sync run
  reach-sync (next run (return _ _ _ _)) = reach-sync run

  finished-Reported :
      (sync : ℤ) (s : S)
      → heard (client s).phase ≡ []
      → {p : Process S} → MainReach R client says (start sync s) p
      → p.phase ≡ finished
      → (n : ℕ) × (v : ℤ) × ((client p.system).phase ≡ printed n v)
        × Reported sync n v (others p.output)
  finished-Reported sync s silent {p} run e =
      let g : Fine p = reach-Fine (inr (sym silent)) run in
      subst
        (λ x.
          (n : ℕ) × (v : ℤ) × ((client p.system).phase ≡ printed n v)
          × Reported x n v (others p.output))
        (reach-sync run) (subst (λ m. Good p.sync m (client p.system).phase (others p.output)) e g)

-- The same lines, in the same orders and besides the messages on calls that failed, are what
-- xmlrpc_asynch_client.c has printed once its `main` has returned, with the count and the value of the
-- phase.
pub custom_finished-Reported :
    (sync option : ℤ) (servers : List Bytes) (p : Process CustomSystem)
    → MainReach CustomStep
        (λ s. s.client)
        custom_says
        (start sync (custom_client_start option servers))
        p
    → p.phase ≡ finished
    → (n : ℕ) × (v : ℤ) × (p.system.client.phase ≡ printed n v)
      × Reported sync n v (others p.output)
unfolding custom_client_start fresh_client
custom_finished-Reported sync option servers p run e =
    finished-Reported CustomStep (λ s. s.client) custom_says custom-Moves custom_says-others sync _
      refl run e
