-- ===== src/Ring/Joining.antt =====
-- project2/client.c: a thread is created, and a thread that is done stays so.
use cs6210proj.Prelude.{
  ℕ, zero, suc, ◌+◌, ◌<◌, ◌≡◌, ◌≢◌, refl, sym, ◌∙◌, subst, ℤ, some, List, [], ◌∷◌, ◌++◌, get_elem?,
  length-append, arith, get_elem?-set_ne, set, ◌⊎◌, inl, inr,
}
use native.Mathlib.Decide.{ℕ_discrete}
use cs6210proj.Ring.Threads.{
  ClientPhase, asking, finished, Processes, ProcessStep, write, refused, await, take, listen, wake,
  serve, rest,
}
use cs6210proj.Ring.Balance.{Balanced, outstanding}
use cs6210proj.Ring.Rounds.{passed, all_passed-append, InRound, Tallied}
use cs6210proj.Ring.Main.{add_thread}

get_elem?-append {ℓ} :
    {A : Type ℓ} (xs : List A) (y : A) (t : ℕ) (p : A)
    → get_elem? (xs ++ y ∷ []) t ≡ some p
    → (get_elem? xs t ≡ some p) ⊎ (y ≡ p)
get_elem?-append [] y zero p e = inr cc
get_elem?-append [] y (suc t) p e = cc
get_elem?-append (x ∷ xs) y zero p e = inl e
get_elem?-append (x ∷ xs) y (suc t) p e = get_elem?-append xs y t p e

outstanding-append : (ps : List ClientPhase) → outstanding (ps ++ asking 0 ∷ []) ≡ outstanding ps
outstanding-append [] = refl
outstanding-append (p ∷ ps) = omega (arith, outstanding-append ps)

pub add_thread-Balanced : (n : ℕ) (s : Processes) → Balanced n s → Balanced (n + 1) (add_thread s)
add_thread-Balanced n s a = record {
  valid = a.valid;
  free = a.free;
  threads = omega (arith, length-append s.clients (asking 0 ∷ []), a.threads);
  balance = omega (arith, a.balance, outstanding-append s.clients);
  owed = a.owed;
  alone = a.alone;
}

new_passed : (m : ℕ) → passed m (asking 0) ≡ 0
new_passed m = ground arith

pub add_thread-Tallied :
    (s : Processes) → Tallied s.clients s.results → Tallied (add_thread s).clients s.results
add_thread-Tallied s h = record {
  rounds = λ t p e. elim (get_elem?-append s.clients (asking 0) t p e) [
    | inl old ↦ h.rounds t p old
    | inr new ↦ subst InRound new (omega arith)
  ];
  tally = λ m l.
      omega (arith, h.tally m l, all_passed-append m s.clients (asking 0 ∷ []), new_passed m);
}

-- The first `j` threads are done.
abbrev pub FirstFinished : ℕ → List ClientPhase → Type 0
FirstFinished j clients = (t : ℕ) → t < j → get_elem? clients t ≡ some finished

other_phase :
    (clients : List ClientPhase) (t u : ℕ) (old new : ClientPhase)
    → get_elem? clients t ≡ some old
    → old ≢ finished
    → get_elem? clients u ≡ some finished
    → get_elem? (set clients t new) u ≡ some finished
other_phase clients t u old new e busy done_ = elim (ℕ_discrete t u) [
  | yes same ↦
      let both : get_elem? clients t ≡ some finished =
        subst (λ x. get_elem? clients x ≡ some finished) (sym same) done_ in
      absurd (busy cc)
  | no other ↦ get_elem?-set_ne clients new other ∙ done_
]

-- A thread that is done takes no step.
pub step-finished :
    (pow2 : ℤ → ℤ) (s t : Processes) (u : ℕ)
    → ProcessStep pow2 s t
    → get_elem? s.clients u ≡ some finished
    → get_elem? t.clients u ≡ some finished
step-finished pow2 s _ u (write t i k b e _) f = other_phase s.clients t u _ _ e (λ q. cc) f
step-finished pow2 s _ u (refused t i b e _) f = other_phase s.clients t u _ _ e (λ q. cc) f
step-finished pow2 s _ u (await t i k e _) f = other_phase s.clients t u _ _ e (λ q. cc) f
step-finished pow2 s _ u (take t i k v _ _ b e _ _) f = other_phase s.clients t u _ _ e (λ q. cc) f
step-finished pow2 s _ u (listen _ _) f = f
step-finished pow2 s _ u (wake _ _ _ _ _) f = f
step-finished pow2 s _ u (serve _ _ _ _) f = f
step-finished pow2 s _ u (rest _ _) f = f
