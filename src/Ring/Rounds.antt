-- ===== src/Ring/Rounds.antt =====
-- project2/client.c: which requests each thread has printed the result of.
use cs6210proj.Prelude.{
  ℕ, zero, suc, ◌+◌, ◌^◌, ◌-◌, ◌≤◌, ◌<◌, ◌≡◌, refl, ap, sym, ◌∙◌, subst, ℤ, pos, some, List, [],
  ◌∷◌, ◌++◌, get_elem?, set, ltb, ◌==◌, if◌then◌else◌, arith, all_below, all_below-each, true,
  get_elem?-set_ne, get_elem?-lt, get_elem?-set_self,
}
use native.Mathlib.Decide.{ℕ_discrete, dec_lt}
use cs6210proj.Ring.Threads.{
  ClientPhase, asking, asked, awaiting, finished, Processes, ProcessStep, write, refused, await,
  take, listen, wake, serve, rest, next_round, prime,
}
use cs6210proj.Ring.Balance.{Balanced, asking-room}
use cs6210proj.Ring.Requests.{write_request-room}

-- How many results of request `m` were printed.
abbrev pub printed : ℕ → List (ℕ × ℤ) → ℕ
printed m [] = 0
printed m ((i, v) ∷ results) = (if i == m then 1 else 0) + printed m results

-- Whether the thread is past request `m`.
abbrev pub passed : ℕ → ClientPhase → ℕ
passed m (asking i) = if ltb m i then 1 else 0
passed m (asked i k) = if ltb m i then 1 else 0
passed m (awaiting i k) = if ltb m i then 1 else 0
passed m finished = 1

abbrev pub all_passed : ℕ → List ClientPhase → ℕ
all_passed m [] = 0
all_passed m (p ∷ ps) = passed m p + all_passed m ps

-- The requests of a thread are 0 to 30.
abbrev pub InRound : ClientPhase → Type 0
InRound (asking i) = i < 31
InRound (asked i k) = i < 31
InRound (awaiting i k) = i < 31
InRound finished = Unit

early : (i : ℕ) → i < 30 → ltb (2 ^ (i + 1)) (2 ^ 31 - 1) ≡ true
unfolding all_below
early = all_below-each 30 (λ i. ltb (2 ^ (i + 1)) (2 ^ 31 - 1)) refl

pub next_round-early : (i : ℕ) → i < 30 → next_round i ≡ asking (i + 1)
unfolding next_round
next_round-early i l = rw (early i l) refl

pub next_round-last : next_round 30 ≡ finished
unfolding next_round
next_round-last = refl

next_round-InRound : (i : ℕ) → i < 31 → InRound (next_round i)
next_round-InRound i l = elim (dec_lt i 30) [
  | yes b ↦ subst InRound (sym (next_round-early i b)) (omega arith)
  | no b ↦
      let last : i ≡ 30 = omega arith in
      subst (λ x. InRound (next_round x)) (sym last) (subst InRound (sym next_round-last) tt)
]

passed-next_round :
    (i m : ℕ)
    → i < 31
    → m < 31
    → passed m (next_round i) ≡ (if i == m then 1 else 0) + (if ltb m i then 1 else 0)
passed-next_round i m l b = elim (dec_lt i 30) [
  | yes c ↦ ap (passed m) (next_round-early i c) ∙ ground arith
  | no c ↦
      let last : i ≡ 30 = omega arith in
      ap (λ x. passed m (next_round x)) last ∙ (ap (passed m) next_round-last ∙ ground arith)
]

all_passed-set :
    (m : ℕ) (ps : List ClientPhase) (t : ℕ) (old new : ClientPhase)
    → get_elem? ps t ≡ some old
    → all_passed m (set ps t new) + passed m old ≡ all_passed m ps + passed m new
all_passed-set m [] t old new e = cc
all_passed-set m (p ∷ ps) zero old new e =
    let same : passed m p ≡ passed m old = cc in omega (arith, same)
all_passed-set m (p ∷ ps) (suc t) old new e = omega (arith, all_passed-set m ps t old new e)

pub all_passed-append :
    (m : ℕ) (ps qs : List ClientPhase) → all_passed m (ps ++ qs) ≡ all_passed m ps + all_passed m qs
all_passed-append m [] qs = omega arith
all_passed-append m (p ∷ ps) qs = omega (arith, all_passed-append m ps qs)

-- Of each request as many results were printed as there are threads past it.
pub record Tallied (clients : List ClientPhase) (results : List (ℕ × ℤ)) : Type 0 where
  pub rounds : (t : ℕ) (p : ClientPhase) → get_elem? clients t ≡ some p → InRound p
  pub tally : (m : ℕ) → m < 31 → printed m results ≡ all_passed m clients

Tallied-set :
    {clients : List ClientPhase} {results results' : List (ℕ × ℤ)} (t : ℕ) (old new : ClientPhase)
    → Tallied clients results
    → get_elem? clients t ≡ some old
    → InRound new
    → ((m : ℕ) → m < 31 → printed m results' + passed m old ≡ printed m results + passed m new)
    → Tallied (set clients t new) results'
Tallied-set {clients} {results} {results'} t old new h e inside same = record {
  rounds = λ u p q. elim (ℕ_discrete t u) [
    | yes here ↦
        let known : get_elem? (set clients t new) u ≡ some new =
          subst (λ x. get_elem? (set clients t new) x ≡ some new) here
            (get_elem?-set_self clients t new (get_elem?-lt clients t e)) in
        let equal : new ≡ p = cc in subst InRound equal inside
    | no other ↦ h.rounds u p (sym (get_elem?-set_ne clients new other) ∙ q)
  ];
  tally = λ m l. omega (arith, same m l, h.tally m l, all_passed-set m clients t old new e);
}

pub step-Tallied :
    (pow2 : ℤ → ℤ) (n : ℕ) (s t : Processes)
    → n ≤ 128
    → Balanced n s
    → Tallied s.clients s.results
    → ProcessStep pow2 s t
    → Tallied t.clients t.results
step-Tallied pow2 n s _ few a h (write t i k b e _) =
    Tallied-set t (asking i) (asked i k) h e (h.rounds t (asking i) e) (λ m l. refl)
step-Tallied pow2 n s _ few a h (refused t i b e ran) =
    let accepted =
      write_request-room t (pos i) prime s.buffer a.free (asking-room n few s a t i e) in
    absurd (cc (accepted, ran))
step-Tallied pow2 n s _ few a h (await t i k e _) =
    Tallied-set t (asked i k) (awaiting i k) h e (h.rounds t (asked i k) e) (λ m l. refl)
step-Tallied pow2 n s _ few a h (take t i k v earlier later b e _ _) =
    let inside : i < 31 = h.rounds t (awaiting i k) e in
    Tallied-set t (awaiting i k) (next_round i) h e (next_round-InRound i inside)
      (λ m l. omega (arith, passed-next_round i m inside l))
step-Tallied pow2 n s _ few a h (listen _ _) = record { rounds = h.rounds; tally = h.tally }
step-Tallied pow2 n s _ few a h (wake _ _ _ _ _) = record { rounds = h.rounds; tally = h.tally }
step-Tallied pow2 n s _ few a h (serve _ _ _ _) = record { rounds = h.rounds; tally = h.tally }
step-Tallied pow2 n s _ few a h (rest _ _) = record { rounds = h.rounds; tally = h.tally }
