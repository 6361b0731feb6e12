-- ===== src/Rvm/Restore.antt =====
-- project4/rvm.c: rvm_abort_trans brings the file's bytes back into memory.
use cs6210proj.Prelude.{
  ℕ, ◌≡◌, ◌≢◌, refl, ap, ap₂, ◌∙◌, some, [], ◌∷◌, ◌++◌, Bytes, codes, length, take, drop, take_all,
  drop_all, append-nil, arith, eqb-ne, length-append, Bool-cases, inl, inr, eqb,
}
use native.Mathlib.Decide.{ℕ_discrete}
use cs6210proj.Rvm.State.{
  Segment, Rvm, done, contents, close_file, store_log, segment_log, segment_file, newline,
  log_segment, update_at, fits,
}
use cs6210proj.Rvm.Table.{slot}
use cs6210proj.Rvm.Transaction.{read_back, abort_entry, rvm_abort_trans}
use cs6210proj.Rvm.Loops.{
  base_at, for_bases-once, >>=-done, fits-done, log_rvm-done, after_log, after_segment_log,
}
use cs6210proj.Rvm.Commit.{IsMapped, CanLog, log_apart}

-- The mapping at `at` holds `f`, and no other mapping has changed.
abbrev pub Restored : ℕ → Bytes → Rvm → Rvm → Type 0
Restored at f s s' =
    (s'.memory at ≡ some f)
    × ((a : ℕ) → at ≢ a → s'.memory a ≡ s.memory a)
    × (s'.file ≡ s.file)
    × (s'.mapped ≡ s.mapped)
    × (s'.num_mapped ≡ s.num_mapped)

read_back-nothing :
    (path : Bytes) (seg : Segment) (s : Rvm)
    → seg.size ≡ 0
    → read_back path seg s ≡ done tt (close_file path s)
unfolding read_back
read_back-nothing path seg s e = rw e

read_back-whole :
    (path : Bytes) (seg : Segment) (s : Rvm) {bytes f : Bytes}
    → seg.size ≢ 0
    → s.file path ≡ some f
    → s.memory seg.address ≡ some bytes
    → length f ≡ seg.size
    → length bytes ≡ seg.size
    → read_back path seg s
      ≡ done tt (
          close_file path (record s {
            memory = update_at s.memory seg.address (some (take seg.size f ++ drop seg.size bytes));
          }))
unfolding read_back
read_back-whole path seg s h ef em lf lb = ground arith

update_at_self {ℓ} : {A : Type ℓ} (m : ℕ → A) (a : ℕ) (v : A) → update_at m a v a ≡ v
update_at_self m a v = ground arith

pub read_back-Restored :
    (path : Bytes) (seg : Segment) (s : Rvm) {bytes f : Bytes}
    → s.file path ≡ some f
    → s.memory seg.address ≡ some bytes
    → length f ≡ seg.size
    → length bytes ≡ seg.size
    → (s' : Rvm) × (read_back path seg s ≡ done tt s') × Restored seg.address f s s'
read_back-Restored path seg s {bytes} {f} ef em lf lb = elim (ℕ_discrete seg.size 0) [
  | yes e ↦ (
    close_file path s,
    read_back-nothing path seg s e,
    (em ∙ ap some (both_empty bytes f (lb ∙ e) (lf ∙ e)), λ a h. refl, refl, refl, refl),
  )
  | no h ↦ (
    _,
    read_back-whole path seg s h ef em lf lb,
    (update_at_self s.memory seg.address _ ∙ ap some whole, λ a k. ground arith, refl, refl, refl),
  )
]
  where
    both_empty : (a b : Bytes) → length a ≡ 0 → length b ≡ 0 → a ≡ b
    both_empty [] [] p q = refl
    both_empty [] (y ∷ b) p q = absurd (omega arith)
    both_empty (x ∷ a) b p q = absurd (omega arith)

    whole : take seg.size f ++ drop seg.size bytes ≡ f
    whole =
        ap₂ ◌++◌ (take_all f seg.size (omega arith)) (drop_all seg.size bytes (omega arith))
        ∙ append-nil f

-- Where the two logs are one file the store's log only grows.
still_logged :
    (dir name msg c : Bytes) (s : Rvm)
    → s.file (store_log dir) ≡ some c
    → (c' : Bytes) × ((after_segment_log dir name msg s).file (store_log dir) ≡ some c')
still_logged dir name msg c s e = elim (Bool-cases (eqb (segment_log dir name) (store_log dir))) [
  | inl same ↦ (contents (s.file (segment_log dir name)) ++ msg, rw same)
  | inr other ↦ (c, rw other e)
]

module _ (dir : Bytes) (n j : ℕ) (bytes f : Bytes) (s : Rvm)
    (mapped : IsMapped dir n j bytes f s) where
  abbrev path : Bytes
  path = segment_file dir (slot j s).name

  abort_entry-Restored :
      (c : Bytes)
      → CanLog dir (slot j s).name c s
      → (s' : Rvm) × (abort_entry dir j s ≡ done tt s')
        × (s'.memory (base_at j s) ≡ some f)
        × ((a : ℕ) → base_at j s ≢ a → s'.memory a ≡ s.memory a)
        × (s'.file path ≡ some f)
        × (s'.mapped ≡ s.mapped)
        × (s'.num_mapped ≡ s.num_mapped)
  unfolding abort_entry log_segment
  abort_entry-Restored c can =
      let name : Bytes = (slot j s).name in
      let msg : Bytes = codes "RVM_ABORTTRANS " ++ (name ++ newline) in
      let s₁ : Rvm = after_segment_log dir name msg s in
      let file₁ : s₁.file path ≡ some f =
        rw (eqb-ne (segment_log dir name) path (log_apart dir name)) mapped.in_file in
      let (s₂, ran, kept) =
        read_back-Restored path (slot j s) s₁ file₁ mapped.in_memory mapped.file_size
          mapped.memory_size in
      let (c', log₁) = still_logged dir name msg c s can.log in
      let log₂ : s₂.file (store_log dir) ≡ some c' = ap (λ g. g (store_log dir)) kept.2 ∙ log₁ in
      let file₂ : s₂.file path ≡ some f = ap (λ g. g path) kept.2 ∙ file₁ in
      (
        after_log dir (codes "RVM_ABORTTRANS \n") s₂,
        >>=-done (fits (length msg) 100) _ (
              fits-done (length msg) 100 s (
                omega (
                  arith,
                  can.short,
                  length-append (codes "RVM_ABORTTRANS ") (name ++ newline),
                  length-append name newline,
                )))
            ∙ (>>=-done (read_back path (slot j s)) _ ran ∙ log_rvm-done dir _ c' s₂ log₂),
        kept.0,
        kept.1,
        rw (eqb-ne (store_log dir) path can.apart) file₂,
        kept.3,
        kept.4,
      )

  -- A transaction of one mapped segment, under `IsMapped` and `CanLog`, whatever its mapping has come
  -- to hold: the abort ends, the
  -- mapping holds the bytes of the segment's file again, and every other mapping, the segment's file
  -- and the table stay as they were.
  pub rvm_abort_trans-Restored :
      (c : Bytes) (tid : ℕ)
      → CanLog dir (slot j s).name c s
      → (s' : Rvm) × (rvm_abort_trans
            (record { segbases = base_at j s ∷ []; tid = tid; dir = dir })
            s
          ≡ done tt s')
        × (s'.memory (base_at j s) ≡ some f)
        × ((a : ℕ) → base_at j s ≢ a → s'.memory a ≡ s.memory a)
        × (s'.file path ≡ some f)
        × (s'.mapped ≡ s.mapped)
        × (s'.num_mapped ≡ s.num_mapped)
  unfolding rvm_abort_trans
  rvm_abort_trans-Restored c tid can =
      let (s', ran, memory, others, file, table, count) = abort_entry-Restored c can in
      (
        s',
        for_bases-once n j (abort_entry dir) s s' mapped.count mapped.index mapped.only ran table,
        memory,
        others,
        file,
        table,
        count,
      )
