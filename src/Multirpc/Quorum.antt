-- ===== src/Multirpc/Quorum.antt =====
-- project3/examples/xmlrpc_client.c: after how many answers the waiting thread is signalled.
use cs6210proj.Prelude.{
  ℕ, suc, ◌+◌, ◌/◌, ◌≤◌, ◌<◌, ◌≡◌, ◌↔◌, refl, ℤ, List, [], ◌∷◌, arith, if◌then◌else◌, leb,
}
use cs6210proj.Multirpc.Client.{
  Client, waiting, woken, satisfied, count_response, handle_sample_add_response, answered,
  is_majority, is_any, Reply, failed, bad_parameters, bad_result,
}

-- The number of answers that the option asks for, as the report of project3 has it: more than half of
-- the servers, one, or all of them.
abbrev pub quorum : ℤ → ℕ → ℕ
quorum option n = if is_majority option then n / 2 + 1 else if is_any option then 1 else n

-- The handler's calls, one after the other.
abbrev pub handle_all : List Reply → Client → Client
handle_all [] c = c
handle_all (r ∷ rs) c = handle_all rs (handle_sample_add_response r c)

abbrev pub answers : List Reply → ℕ
answers [] = 0
answers (answered v ∷ rs) = suc (answers rs)
answers (r ∷ rs) = answers rs

-- No reply makes the handler exit.
abbrev pub Readable : List Reply → Type 0
Readable [] = Unit
Readable (bad_parameters ∷ rs) = ⊥
Readable (bad_result ∷ rs) = ⊥
Readable (failed _ ∷ rs) = Readable rs
Readable (answered v ∷ rs) = Readable rs

abbrev Waits : Client → Type 0
Waits c = c.phase ≡ (if leb (quorum c.option c.num_servers) c.num_responses then woken else waiting)

count_response-Waits :
    (v : ℤ) (c : Client)
    → 0 < c.num_servers
    → c.num_responses < c.num_servers
    → Waits c
    → Waits (count_response v c)
unfolding count_response satisfied
count_response-Waits v c h k w = ground arith

handle_all-Waits :
    (rs : List Reply) (c : Client)
    → 0 < c.num_servers
    → c.num_responses + answers rs ≤ c.num_servers
    → Readable rs
    → Waits c
    → Waits (handle_all rs c)
      × ((handle_all rs c).num_responses ≡ c.num_responses + answers rs)
      × ((handle_all rs c).num_servers ≡ c.num_servers)
      × ((handle_all rs c).option ≡ c.option)
unfolding handle_sample_add_response count_response
handle_all-Waits [] c h k r w = (w, omega arith, refl, refl)
handle_all-Waits (bad_parameters ∷ rs) c h k r w = absurd r
handle_all-Waits (bad_result ∷ rs) c h k r w = absurd r
handle_all-Waits (failed _ ∷ rs) c h k r w = handle_all-Waits rs c h k r w
handle_all-Waits (answered v ∷ rs) c h k r w =
    let (waits, count, servers, option) =
      handle_all-Waits rs (count_response v c) h (omega arith) r
        (count_response-Waits v c h (omega arith) w) in
    (waits, omega arith, servers, option)

starts_waiting :
    (c : Client) → c.phase ≡ waiting → c.num_responses ≡ 0 → 0 < c.num_servers → Waits c
starts_waiting c w z h = ground arith

-- `Waits`, read off.
Waits-iff :
    (c d : Client) (k : ℕ)
    → Waits d
    → d.num_servers ≡ c.num_servers
    → d.option ≡ c.option
    → d.num_responses ≡ k
    → (d.phase ≡ woken) ↔ (quorum c.option c.num_servers ≤ k)
Waits-iff c d k w n o e = (λ p. ground arith, λ p. ground arith)

-- A thread that waits from before the first response on, over one server or more and with no more
-- answers than servers, failed calls among them: it is signalled exactly when the answers have come to
-- more than half of the servers, to one or to all of them, as the option says; failed calls do
-- not count.
pub handle_all-quorum :
    (rs : List Reply) (c : Client)
    → c.phase ≡ waiting
    → c.num_responses ≡ 0
    → 0 < c.num_servers
    → answers rs ≤ c.num_servers
    → Readable rs
    → ((handle_all rs c).phase ≡ woken) ↔ (quorum c.option c.num_servers ≤ answers rs)
handle_all-quorum rs c w z h k r =
    let (waits, count, servers, option) =
      handle_all-Waits rs c h (omega arith) r (starts_waiting c w z h) in
    Waits-iff c (handle_all rs c) (answers rs) waits servers option (omega arith)
