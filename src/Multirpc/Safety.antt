-- ===== src/Multirpc/Safety.antt =====
-- project3/examples/xmlrpc_client.c: when the callback prints, the answers counted make the quorum.
use cs6210proj.Prelude.{
  ℕ, ◌+◌, ◌≤◌, ◌≡◌, refl, ap, sym, ◌∙◌, ℤ, List, Bytes, length, get_elem?-lt, arith, Bool, true,
  false, if◌then◌else◌, subst,
}
use cs6210proj.Multirpc.Client.{
  Client, Phase, signal, creating, waiting, woken, exited, printed, Reply, bad_parameters, failed,
  bad_result, answered, handle_sample_add_response, count_response, satisfied, fresh_client,
}
use cs6210proj.Multirpc.Quorum.{quorum}
use cs6210proj.Multirpc.Threads.{
  System, Step, create, create_fails, read_request, call_fails, respond, wait, wake, Reach, here,
  next, client_start_sync, enter,
}

abbrev Settled : ℕ → ℕ → ℕ → Phase → Type 0
Settled q n m creating = Unit
Settled q n m waiting = Unit
Settled q n m woken = q ≤ m
Settled q n m exited = Unit
Settled q n m (printed k v) = (q ≤ k) × (k ≤ n)

record Inv (option : ℤ) (servers : List Bytes) (s : System) : Type 0 where
  same_servers : s.servers ≡ servers
  same_option : s.client.option ≡ option
  servers_count : s.client.num_servers ≡ length servers
  counted : s.client.num_responses + s.flying + s.unread ≤ s.launched
  launched_le : s.launched ≤ length servers
  settled :
      Settled
        (quorum option (length servers))
        (length servers)
        s.client.num_responses
        s.client.phase

init-Inv :
    (option : ℤ) (servers : List Bytes) (x y : ℤ)
    → Inv option servers (client_start_sync option servers x y)
unfolding client_start_sync fresh_client
init-Inv option servers x y = record {
  same_servers = refl;
  same_option = refl;
  servers_count = refl;
  counted = omega arith;
  launched_le = omega arith;
  settled = tt;
}

Settled-more :
    (q n m : ℕ) (p : Phase) (b : Bool)
    → (b ≡ true → q ≤ m + 1)
    → Settled q n m p
    → Settled q n (m + 1) (if b then signal p else p)
Settled-more q n m creating true e h = tt
Settled-more q n m creating false e h = tt
Settled-more q n m waiting true e h = e refl
Settled-more q n m waiting false e h = tt
Settled-more q n m woken true e h = omega arith
Settled-more q n m woken false e h = omega arith
Settled-more q n m exited true e h = tt
Settled-more q n m exited false e h = tt
Settled-more q n m (printed k v) true e h = h
Settled-more q n m (printed k v) false e h = h

satisfied-quorum :
    (option : ℤ) (m n : ℕ) → satisfied option (m + 1) n ≡ true → quorum option n ≤ m + 1
unfolding satisfied
satisfied-quorum option m n e = ground arith

respond-Settled :
    (r : Reply) (c : Client) (n : ℕ)
    → n ≡ c.num_servers
    → Settled (quorum c.option n) n c.num_responses c.phase
    → Settled
        (quorum c.option n)
        n
        (handle_sample_add_response r c).num_responses
        (handle_sample_add_response r c).phase
unfolding handle_sample_add_response count_response
respond-Settled bad_parameters c n e h = tt
respond-Settled (failed _) c n e h = h
respond-Settled bad_result c n e h = tt
respond-Settled (answered v) c n e h =
    Settled-more (quorum c.option n) n c.num_responses c.phase _
      (λ t.
        satisfied-quorum c.option c.num_responses n
          (ap (λ k. satisfied c.option (c.num_responses + 1) k) e ∙ t))
      h

respond-same :
    (r : Reply) (c : Client)
    → let d = handle_sample_add_response r c in
      (d.option ≡ c.option)
      × (d.num_servers ≡ c.num_servers)
      × (d.num_responses ≤ c.num_responses + 1)
unfolding handle_sample_add_response count_response
respond-same bad_parameters c = (refl, refl, omega arith)
respond-same (failed _) c = (refl, refl, omega arith)
respond-same bad_result c = (refl, refl, omega arith)
respond-same (answered v) c = (refl, refl, omega arith)

module _ {option : ℤ} {servers : List Bytes} where
  enter-Inv :
      {s : System} (p : Phase)
      → Inv option servers s
      → Settled (quorum option (length servers)) (length servers) s.client.num_responses p
      → Inv option servers (record s { client = enter p s.client })
  enter-Inv p v h = record {
    same_servers = v.same_servers;
    same_option = v.same_option;
    servers_count = v.servers_count;
    counted = v.counted;
    launched_le = v.launched_le;
    settled = h;
  }

  Step-Inv : {s t : System} → Step s t → Inv option servers s → Inv option servers t
  Step-Inv {s} (create name p e) v = record {
    same_servers = v.same_servers;
    same_option = v.same_option;
    servers_count = v.servers_count;
    counted = omega (arith, v.counted);
    launched_le = omega (arith, get_elem?-lt s.servers s.launched e, ap length v.same_servers);
    settled = v.settled;
  }
  Step-Inv (create_fails p h) v = enter-Inv exited v tt
  Step-Inv (read_request p h) v = record {
    same_servers = v.same_servers;
    same_option = v.same_option;
    servers_count = v.servers_count;
    counted = omega (arith, v.counted);
    launched_le = v.launched_le;
    settled = v.settled;
  }
  Step-Inv (call_fails p h) v = enter-Inv exited v tt
  Step-Inv {s} (respond r p h) v =
      let (o, n, more) = respond-same r s.client in
      record {
        same_servers = v.same_servers;
        same_option = o ∙ v.same_option;
        servers_count = n ∙ v.servers_count;
        counted = omega (arith, v.counted);
        launched_le = v.launched_le;
        settled =
            subst
              (λ q.
                Settled (quorum q (length servers)) (length servers)
                  (handle_sample_add_response r s.client).num_responses
                  (handle_sample_add_response r s.client).phase)
              v.same_option
              (respond-Settled r s.client (length servers) (sym v.servers_count) (
                subst
                  (λ q.
                    Settled (quorum q (length servers)) (length servers) s.client.num_responses
                      s.client.phase)
                  (sym v.same_option) v.settled));
      }
  Step-Inv (wait p h) v = enter-Inv waiting v tt
  Step-Inv {s} (wake p) v =
      let q : quorum option (length servers) ≤ s.client.num_responses =
        subst (Settled (quorum option (length servers)) (length servers) s.client.num_responses) p
          v.settled in
      enter-Inv (printed s.client.num_responses s.client.value) v
        (q, omega (arith, v.counted, v.launched_le))

  Reach-Inv : {s t : System} → Inv option servers s → Reach s t → Inv option servers t
  Reach-Inv v here = v
  Reach-Inv v (next r st) = Step-Inv st (Reach-Inv v r)

-- Whatever the interleaving, when the callback prints a count of answers, the count is no larger than the
-- number of servers and at least `quorum` of it: half of the number and one more, one, or the whole number,
-- as the option says. From which servers the answers came is not said.
pub printed-quorum :
    (option : ℤ) (servers : List Bytes) (x y : ℤ) {s : System} (k : ℕ) (v : ℤ)
    → Reach (client_start_sync option servers x y) s
    → s.client.phase ≡ printed k v
    → (quorum option (length servers) ≤ k) × (k ≤ length servers)
printed-quorum option servers x y {s} k v r e =
    subst (Settled (quorum option (length servers)) (length servers) s.client.num_responses) e
      (Reach-Inv (init-Inv option servers x y) r).settled
