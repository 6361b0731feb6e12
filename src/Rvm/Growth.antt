-- ===== src/Rvm/Growth.antt =====
-- project4/rvm.c: rvm_map keeps the table.
use cs6210proj.Prelude.{ℕ, ◌+◌, ◌<◌, ◌≡◌, ◌≢◌, ap, sym, ◌∙◌, pos, Bytes, arith}
use native.Mathlib.Decide.{ℕ_discrete}
use cs6210proj.Rvm.State.{Rvm, done}
use cs6210proj.Rvm.Table.{slot}
use cs6210proj.Rvm.Mapping.{rvm_map}
use cs6210proj.Rvm.Loops.{base_at}
use cs6210proj.Rvm.Mapped.{CanMap, rvm_map-maps}
use cs6210proj.Rvm.Unmapping.{IsTable}

-- A new value behind distinct ones.
distinct {ℓ} :
    {A : Type ℓ} (n : ℕ) (f g : ℕ → A) (a : A)
    → ((m : ℕ) → m < n → g m ≡ f m)
    → g n ≡ a
    → ((m : ℕ) → m < n → f m ≢ a)
    → ((m k : ℕ) → m < n → k < n → f m ≡ f k → m ≡ k)
    → (m k : ℕ) → m < n + 1
    → k < n + 1
    → g m ≡ g k
    → m ≡ k
distinct n f g a same new other inj m k hm hk e = elim (ℕ_discrete m n) [
  | yes p ↦ elim (ℕ_discrete k n) [
    | yes q ↦ p ∙ sym q
    | no q ↦ absurd (other k (omega arith) (sym (same k (omega arith)) ∙ sym e ∙ ap g p ∙ new))
  ]
  | no p ↦ elim (ℕ_discrete k n) [
    | yes q ↦ absurd (other m (omega arith) (sym (same m (omega arith)) ∙ e ∙ ap g q ∙ new))
    | no q ↦
        inj m k (omega arith) (omega arith) (sym (same m (omega arith)) ∙ e ∙ same k (omega arith))
  ]
]

-- `rvm_map` under `CanMap` keeps the table: one segment more, and still no two at one address or under
-- one name.
pub rvm_map-IsTable :
    (dir segname old c : Bytes) (size at n : ℕ) (s : Rvm)
    → IsTable n s
    → CanMap dir segname old c size at n s
    → (s' : Rvm) × (rvm_map dir segname size at s ≡ done at s') × IsTable (n + 1) s'
rvm_map-IsTable dir segname old c size at n s v can =
    let (s', ran, _, _, new, count, others, entries) =
      rvm_map-maps dir segname old c size at n s can in
    let kept : (m : ℕ) → m < n → slot m s' ≡ slot m s = λ m h. others m (λ e. omega arith) in
    (
      s',
      ran,
      record {
        count = count ∙ ap pos (omega arith);
        room = omega (arith, can.room);
        entries = entries ∙ v.entries;
        addresses =
            distinct n (λ m. base_at m s) (λ m. base_at m s') at
              (λ m h. ap (λ g. g.address) (kept m h)) (ap (λ g. g.address) new)
              (λ m h. can.fresh m (omega arith)) v.addresses;
        names =
            distinct n (λ m. (slot m s).name) (λ m. (slot m s').name) segname
              (λ m h. ap (λ g. g.name) (kept m h)) (ap (λ g. g.name) new) can.unnamed v.names;
      },
    )
