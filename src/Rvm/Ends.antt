-- ===== src/Rvm/Ends.antt =====
-- Calls that end: total correctness of the actions on the process and its files, one rule for each way
-- to build an action.
use cs6210proj.Prelude.{◌≡◌, refl, ap, ◌∙◌}
use cs6210proj.Rvm.State.{Rvm, done, M, pure, ◌>>=◌, ◌>>◌}
use cs6210proj.Rvm.Loops.{>>=-done}

-- From a state with `P` the action returns, and its result and the new state are related by `Q`.
pub record Ends {A : Type 0} (P : Rvm → Type 0) (m : M A) (Q : A → Rvm → Type 0) : Type 0 where
  pub at : (s : Rvm) → P s → (a : A) × (t : Rvm) × (m s ≡ done a t) × Q a t

-- where the result is known
abbrev pub Gives : {A : Type 0} → (Rvm → Type 0) → M A → A → (Rvm → Type 0) → Type 0
Gives {A} P m v Q = Ends P m (λ a t. (a ≡ v) × Q t)

abbrev pub Runs : (Rvm → Type 0) → M (Unit {0}) → (Rvm → Type 0) → Type 0
Runs P m Q = Ends P m (λ _. Q)

pub Ends-pure :
    {A : Type 0} {P : Rvm → Type 0} {Q : A → Rvm → Type 0} (a : A)
    → ((s : Rvm) → P s → Q a s)
    → Ends P (pure a) Q
Ends-pure a h = record { at = λ s p. (a, s, refl, h s p) }

pub Ends-bind :
    {A B : Type 0} {P : Rvm → Type 0} {Q : A → Rvm → Type 0} {R : B → Rvm → Type 0} {m : M A}
    (f : A → M B)
    → Ends P m Q
    → ((a : A) → Ends (Q a) (f a) R)
    → Ends P (m >>= f) R
Ends-bind {m = m} f hm hf = record {
  at = λ s p.
      let (a, t, ran, q) = hm.at s p in
      let (b, u, ran', r) = (hf a).at t q in (b, u, >>=-done m f ran ∙ ran', r);
}

pub Ends-bind_at :
    {A B : Type 0} {P Q : Rvm → Type 0} {R : B → Rvm → Type 0} {m : M A} (f : A → M B) {v : A}
    → Gives P m v Q
    → Ends Q (f v) R
    → Ends P (m >>= f) R
Ends-bind_at {m = m} f hm hf = record {
  at = λ s p.
      let (a, t, ran, q) = hm.at s p in
      let (b, u, ran', r) = hf.at t q.1 in
      (b, u, >>=-done m f (ran ∙ ap (λ x. done x t) q.0) ∙ ran', r);
}

pub Ends-then :
    {B : Type 0} {P Q : Rvm → Type 0} {R : B → Rvm → Type 0} {m : M (Unit {0})} {k : M B}
    → Runs P m Q
    → Ends Q k R
    → Ends P (m >> k) R
Ends-then {m = m} {k = k} hm hk = record {
  at = λ s p.
      let (a, t, ran, q) = hm.at s p in
      let (b, u, ran', r) = hk.at t q in (b, u, >>=-done m (λ _. k) ran ∙ ran', r);
}

-- where the result is one of a family
pub Ends-bind_of :
    {A B X : Type 0} {P Q : Rvm → Type 0} {R : B → Rvm → Type 0} {m : M A} (g : X → A) (f : A → M B)
    → Ends P m (λ a t. ((x : X) × (a ≡ g x)) × Q t)
    → ((x : X) → Ends Q (f (g x)) R)
    → Ends P (m >>= f) R
Ends-bind_of {m = m} g f hm hf = record {
  at = λ s p.
      let (a, t, ran, known) = hm.at s p in
      let ((x, e), q) = known in
      let (b, u, ran', r) = (hf x).at t q in
      (b, u, >>=-done m f (ran ∙ ap (λ y. done y t) e) ∙ ran', r);
}

-- From a state with `P` the action goes on as the second one does from a state with `Q`.
pub record Leads {A : Type 0} (P : Rvm → Type 0) (m : M A) (Q : Rvm → Type 0) (m' : M A)
    : Type 0 where
  pub at : (s : Rvm) → P s → (t : Rvm) × (m s ≡ m' t) × Q t

pub Leads-here :
    {A : Type 0} {P Q : Rvm → Type 0} {m : M A} → ((s : Rvm) → P s → Q s) → Leads P m Q m
Leads-here h = record { at = λ s p. (s, refl, h s p) }

pub Leads-chain :
    {A : Type 0} {P Q R : Rvm → Type 0} {m m' m'' : M A}
    → Leads P m Q m'
    → Leads Q m' R m''
    → Leads P m R m''
Leads-chain h h' = record {
  at = λ s p. let (t, e, q) = h.at s p in let (u, e', r) = h'.at t q in (u, e ∙ e', r);
}

pub Leads-bind_at :
    {A B : Type 0} {P Q R : Rvm → Type 0} {m : M A} {m' : M B} (f : A → M B) {v : A}
    → Gives P m v Q
    → Leads Q (f v) R m'
    → Leads P (m >>= f) R m'
Leads-bind_at {m = m} f hm hf = record {
  at = λ s p.
      let (a, t, ran, q) = hm.at s p in
      let (u, e, r) = hf.at t q.1 in (u, >>=-done m f (ran ∙ ap (λ x. done x t) q.0) ∙ e, r);
}

pub Leads-then :
    {B : Type 0} {P Q R : Rvm → Type 0} {m : M (Unit {0})} {k m' : M B}
    → Runs P m Q
    → Leads Q k R m'
    → Leads P (m >> k) R m'
Leads-then {m = m} {k = k} hm hk = record {
  at = λ s p.
      let (a, t, ran, q) = hm.at s p in
      let (u, e, r) = hk.at t q in (u, >>=-done m (λ _. k) ran ∙ e, r);
}

pub Leads-bind_of :
    {A B X : Type 0} {P Q R : Rvm → Type 0} {m : M A} {m' : M B} (g : X → A) (f : A → M B)
    → Ends P m (λ a t. ((x : X) × (a ≡ g x)) × Q t)
    → ((x : X) → Leads Q (f (g x)) R m')
    → Leads P (m >>= f) R m'
Leads-bind_of {m = m} g f hm hf = record {
  at = λ s p.
      let (a, t, ran, known) = hm.at s p in
      let ((x, e), q) = known in
      let (u, e', r) = (hf x).at t q in (u, >>=-done m f (ran ∙ ap (λ y. done y t) e) ∙ e', r);
}
