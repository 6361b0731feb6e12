-- ===== src/Multirpc/Sum.antt =====
-- project3/examples/xmlrpc_client.c with project3/examples/xmlrpc_sample_add_server.c: the number that the
-- client prints.
use cs6210proj.Prelude.{
  ℕ, ◌<◌, ◌≡◌, refl, subst, sym, ap, ap₂, ◌∙◌, ◌∷◌, ℤ, ◌+ℤ◌, is_int32, Bool, true, false, ◌⊎◌, inl,
  inr, some, List, Bytes, length, arith, if◌then◌else◌, Bool-cases,
}
use cs6210proj.Multirpc.Main.{Process, client_main, start}
use cs6210proj.Multirpc.Client.{
  Arguments, parse_arguments, Client, Phase, creating, waiting, woken, exited, printed, signal,
  Reply, bad_parameters, bad_result, failed, answered, handle_sample_add_response, count_response,
  fresh_client,
}
use cs6210proj.Multirpc.Quorum.{quorum}
use cs6210proj.Multirpc.Threads.{
  System, Step, create, create_fails, read_request, call_fails, respond, wait, wake, Reach,
  client_start_sync,
}
use cs6210proj.Multirpc.Threads
use cs6210proj.Multirpc.Safety.{printed-quorum}
use cs6210proj.Multirpc.Server.{
  Answer, sum, overflow, sample_add, IsSent, Carries, arrives, Carried, Served, here, next,
}

sample_add-sum : (x y z : ℤ) → (sample_add (some (x, y))).1 ≡ sum z → z ≡ x +ℤ y
unfolding sample_add
sample_add-sum x y z e = elim (Bool-cases (is_int32 (x +ℤ y))) [
  | inl fits ↦ let q : sum (x +ℤ y) ≡ sum z = rw fits at e in cc
  | inr large ↦ let q : overflow ≡ sum z = rw large at e in cc
]

Served-Reach : {s t : System} → Served s t → Reach s t
Served-Reach here = Threads.here
Served-Reach (next run step _) = Threads.next (Served-Reach run) step

module _ (z : ℤ) where
  -- A count of answers comes with the sum.
  abbrev Told : Phase → Type 0
  Told creating = Unit
  Told waiting = Unit
  Told woken = Unit
  Told exited = Unit
  Told (printed k v) = (k ≡ 0) ⊎ (v ≡ z)

  record Right (c : Client) : Type 0 where
    valued : (c.num_responses ≡ 0) ⊎ (c.value ≡ z)
    told : Told c.phase

  signal-Told : (b : Bool) (p : Phase) → Told p → Told (if b then signal p else p)
  signal-Told false p h = h
  signal-Told true creating h = tt
  signal-Told true waiting h = tt
  signal-Told true woken h = tt
  signal-Told true exited h = tt
  signal-Told true (printed k v) h = h

  respond-Right :
      (a : Answer)
      → ((v : ℤ) → a ≡ sum v → v ≡ z)
      → (r : Reply) (c : Client) → Carries a r
      → Right c
      → Right (handle_sample_add_response r c)
  unfolding handle_sample_add_response count_response
  respond-Right a known bad_parameters c m h = elim m [ ]
  respond-Right a known bad_result c m h = elim m [ ]
  respond-Right a known (failed _) c m h = h
  respond-Right a known (answered _) c (arrives v e) h = record {
    valued = inr (known v e);
    told = signal-Told _ c.phase h.told;
  }

-- The request, the parameters of the calls and the client's value.
record Sums (x y : ℤ) (s : System) : Type 0 where
  first : s.x ≡ x
  second : s.y ≡ y
  all_sent : (p : ℤ × ℤ) → IsSent p s.sent → p ≡ (x, y)
  right : Right (x +ℤ y) s.client

module _ (x y : ℤ) where
  enter-Sums :
      (s : System) (p : Phase)
      → Told (x +ℤ y) p
      → Sums x y s
      → Sums x y (record s { client = record s.client { phase = p } })
  enter-Sums s p told h = record {
    first = h.first;
    second = h.second;
    all_sent = h.all_sent;
    right = record { valued = h.right.valued; told = told };
  }

  step-Sums : (s t : System) (step : Step s t) → Carried step → Sums x y s → Sums x y t
  step-Sums s _ (create _ _ _) m h = record {
    first = h.first;
    second = h.second;
    all_sent = h.all_sent;
    right = h.right;
  }
  step-Sums s _ (create_fails _ _) m h = enter-Sums s exited tt h
  step-Sums s _ (read_request _ _) m h = record {
    first = h.first;
    second = h.second;
    all_sent = λ p sent. known p sent;
    right = h.right;
  }
    where
      known : (p : ℤ × ℤ) → IsSent p ((s.x, s.y) ∷ s.sent) → p ≡ (x, y)
      known p (inl e) = e ∙ ap₂ (λ a b. (a, b)) h.first h.second
      known p (inr sent) = h.all_sent p sent
  step-Sums s _ (call_fails _ _) m h = enter-Sums s exited tt h
  step-Sums s _ (respond r _ _) (p, sent, carried) h = record {
    first = h.first;
    second = h.second;
    all_sent = h.all_sent;
    right =
        respond-Right (x +ℤ y) (sample_add (some p)).1
          (λ v e.
            sample_add-sum x y v
              (subst (λ q. (sample_add (some q)).1 ≡ sum v) (h.all_sent p sent) e))
          r s.client carried h.right;
  }
  step-Sums s _ (wait _ _) m h = enter-Sums s waiting tt h
  step-Sums s _ (wake _) m h =
      enter-Sums s (printed s.client.num_responses s.client.value) h.right.valued h

  Served-Sums : {s t : System} → Sums x y s → Served s t → Sums x y t
  Served-Sums h here = h
  Served-Sums h (next {t} {u} run step m) = step-Sums t u step m (Served-Sums h run)

quorum-positive : (option : ℤ) (n : ℕ) → 0 < n → 0 < quorum option n
quorum-positive option n h = ground arith

started-sum :
    (option : ℤ) (servers : List Bytes) (x y : ℤ) {s : System} (k : ℕ) (v : ℤ)
    → 0 < length servers
    → Served (client_start_sync option servers x y) s
    → s.client.phase ≡ printed k v
    → v ≡ x +ℤ y
unfolding client_start_sync fresh_client
started-sum option servers x y {s} k v some_server run e =
    let (enough, _) = printed-quorum option servers x y k v (Served-Reach run) e in
    let sums : Sums x y s =
      Served-Sums x y
        (record {
          first = refl;
          second = refl;
          all_sent = λ p none_yet. absurd none_yet;
          right = record { valued = inl refl; told = tt };
        })
        run in
    elim (subst (Told (x +ℤ y)) e sums.right.told) [
      | inl none_yet ↦ absurd (omega (arith, quorum-positive option (length servers) some_server))
      | inr it ↦ it
    ]

client_main-start :
    (atoi : Bytes → ℤ) (argv : List Bytes) (a : Arguments)
    → parse_arguments atoi argv ≡ some a
    → client_main atoi argv ≡ some (start a.sync (client_start_sync a.option a.server_list a.x a.y))
unfolding client_main
client_main-start atoi argv a e = simp (e, client_main)

-- The client's main reads its arguments, with one server at least. In every run of its threads in which each
-- reply that is not a failure carries what sample_add of the server returns for the parameters of a call
-- that was made, the number that the callback prints is the sum of the last two arguments.
pub printed-sum :
    (atoi : Bytes → ℤ) (argv : List Bytes) (a : Arguments) (p : Process System)
    → {s : System} (k : ℕ) (v : ℤ) → parse_arguments atoi argv ≡ some a
    → client_main atoi argv ≡ some p
    → 0 < length a.server_list
    → Served p.system s
    → s.client.phase ≡ printed k v
    → v ≡ a.x +ℤ a.y
printed-sum atoi argv a p {s} k v parsed started some_server run e =
    let begins : start a.sync (client_start_sync a.option a.server_list a.x a.y) ≡ p =
      let from_main = client_main-start atoi argv a parsed in cc in
    started-sum a.option a.server_list a.x a.y k v some_server
      (subst (λ u. Served u s) (ap (λ q. q.system) (sym begins)) run) e
