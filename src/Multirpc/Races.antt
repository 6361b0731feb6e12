-- ===== src/Multirpc/Races.antt =====
-- project3/examples/xmlrpc_client.c: two races of the program, as runs that can happen.
use cs6210proj.Prelude.{
  ℕ, zero, suc, ◌+◌, ◌-◌, ◌≤◌, ◌≡◌, refl, ℤ, pos, List, [], Bytes, length, get_or, replicate, arith,
  get_elem?-eq-get_or, subst,
}
use cs6210proj.Multirpc.Client.{
  Client, creating, waiting, exited, answered, handle_sample_add_response, count_response,
  fresh_client,
}
use cs6210proj.Multirpc.Threads.{
  System, Step, create, create_fails, read_request, call_fails, respond, wait, wake, Reach, here,
  next, client_start_sync, enter,
}

-- `server_list[k - 1]`, which the loop has written last when it has created `k` threads.
abbrev last_name : List Bytes → ℕ → Bytes
last_name servers zero = []
last_name servers (suc k) = get_or servers k []

module _ (option : ℤ) (servers : List Bytes) (x y : ℤ) where
  -- `k` threads created, none of them run yet
  abbrev created : ℕ → System
  created k = record {
    servers = servers;
    launched = k;
    request_name = last_name servers k;
    x = x;
    y = y;
    unread = k;
    asked = [];
    sent = [];
    flying = 0;
    client = fresh_client option (length servers);
  }

  -- all created, and `j` of them have read their request
  abbrev reading : ℕ → System
  reading j = record (created (length servers)) {
    unread = length servers - j;
    asked = replicate j (last_name servers (length servers));
    sent = replicate j (x, y);
    flying = j;
  }

  Reach-created :
      (k : ℕ) → k ≤ length servers → Reach (client_start_sync option servers x y) (created k)
  unfolding client_start_sync fresh_client
  Reach-created zero h = here
  Reach-created (suc k) h =
      let step : Step (created k) (record (created k) {
        launched = k + 1;
        request_name = get_or servers k [];
        unread = k + 1;
      }) =
        create (get_or servers k []) refl (get_elem?-eq-get_or servers k [] h) in
      let e : k + 1 ≡ suc k = omega arith in next (Reach-created k (omega arith)) (rw e at step)

  Reach-reading :
      (j : ℕ) → j ≤ length servers → Reach (client_start_sync option servers x y) (reading j)
  unfolding fresh_client
  Reach-reading zero h =
      let e : length servers ≡ length servers - 0 = omega arith in
      subst (λ u. Reach (client_start_sync option servers x y) (record (reading 0) { unread = u }))
        e (Reach-created (length servers) (omega arith))
  Reach-reading (suc j) h =
      let step : Step (reading j)
          (record (reading (suc j)) { unread = length servers - j - 1; flying = j + 1 }) =
        read_request (λ (e : creating ≡ exited). cc) (omega arith) in
      let less : length servers - j - 1 ≡ length servers - suc j = omega arith in
      let more : j + 1 ≡ suc j = omega arith in
      next (Reach-reading j (omega arith)) (
        subst
          (λ (c : ℕ × ℕ).
            Step (reading j) (record (reading (suc j)) { unread = c.0; flying = c.1 }))
          {x = (length servers - j - 1, j + 1)} {y = (length servers - suc j, suc j)}
          (λ i. (less i, more i)) step)

-- Every server list has a run in which the threads ask the last server, each of them, and no other: the
-- loop has overwritten the request before they read it. Each sends the two numbers.
pub all_ask_last :
    (option : ℤ) (servers : List Bytes) (x y : ℤ)
    → (s : System) × Reach (client_start_sync option servers x y) s
      × (s.asked ≡ replicate (length servers) (last_name servers (length servers)))
      × (s.sent ≡ replicate (length servers) (x, y))
      × (s.flying ≡ length servers)
all_ask_last option servers x y = (
  reading option servers x y (length servers),
  Reach-reading option servers x y (length servers) (omega arith),
  refl,
  refl,
  refl,
)

-- A thread that waits, with no other one left to run.
stuck :
    (s : System) {t : System} → s.client.phase ≡ waiting → s.unread ≡ 0 → s.flying ≡ 0 → ¬ Step s t
stuck s w u f (create name p e) = cc
stuck s w u f (create_fails p h) = cc
stuck s w u f (read_request p h) = omega arith
stuck s w u f (call_fails p h) = omega arith
stuck s w u f (respond r p h) = omega arith
stuck s w u f (wait p h) = cc
stuck s w u f (wake p) = cc

module _ (option : ℤ) (servers : List Bytes) (x y v : ℤ) where
  abbrev value_after : ℕ → ℤ
  value_after zero = pos 0
  value_after (suc j) = v

  -- `j` servers have answered `v` before the creating thread waits.
  abbrev early : ℕ → Client
  early j = record {
    value = value_after j;
    num_responses = j;
    option = option;
    num_servers = length servers;
    phase = creating;
  }

  abbrev answering : ℕ → System
  answering j = record (reading option servers x y (length servers)) {
    unread = 0;
    flying = length servers - j;
    client = early j;
  }

  early-suc : (j : ℕ) → handle_sample_add_response (answered v) (early j) ≡ early (suc j)
  unfolding handle_sample_add_response count_response
  early-suc j = ground arith

  Reach-answering :
      (j : ℕ) → j ≤ length servers → Reach (client_start_sync option servers x y) (answering j)
  unfolding fresh_client
  Reach-answering zero h =
      let none_unread : length servers - length servers ≡ 0 = omega arith in
      let all_flying : length servers ≡ length servers - 0 = omega arith in
      subst
        (λ (c : ℕ × ℕ).
          Reach (client_start_sync option servers x y)
            (record (answering 0) { unread = c.0; flying = c.1 }))
        {x = (length servers - length servers, length servers)} {y = (0, length servers - 0)}
        (λ i. (none_unread i, all_flying i))
        (Reach-reading option servers x y (length servers) (omega arith))
  Reach-answering (suc j) h =
      let step : Step (answering j) (record (answering j) {
        flying = length servers - j - 1;
        client = handle_sample_add_response (answered v) (early j);
      }) =
        respond (answered v) (λ (e : creating ≡ exited). cc) (omega arith) in
      let less : length servers - j - 1 ≡ length servers - suc j = omega arith in
      next (Reach-answering j (omega arith)) (
        subst
          (λ (c : ℕ × Client).
            Step (answering j) (record (answering j) { flying = c.0; client = c.1 }))
          {x = (length servers - j - 1, handle_sample_add_response (answered v) (early j))}
          {y = (length servers - suc j, early (suc j))} (λ i. (less i, early-suc j i)) step)

  -- Every option, server list and value has a run in which each server answers with the value and the
  -- creating thread, whose wait begins behind the last signal, waits with nothing left to happen.
  pub signal_lost :
      (s : System) × Reach (client_start_sync option servers x y) s
      × (s.client.num_responses ≡ length servers)
      × (s.client.phase ≡ waiting)
      × ((t : System) → ¬ Step s t)
  signal_lost = (
    final,
    next (Reach-answering (length servers) (omega arith)) (wait refl refl),
    refl,
    refl,
    λ t st. stuck final refl refl (omega arith) st,
  )
    where
      final : System
      final = record (answering (length servers)) {
        client = enter waiting (early (length servers));
      }
