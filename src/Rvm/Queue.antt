-- ===== src/Rvm/Queue.antt =====
-- project4/rvm.c: rvm_unmap of the entries of a table from the first one on, and of what is not in it.
use cs6210proj.Prelude.{
  ℕ, suc, ◌-◌, ◌<◌, ◌≡◌, ◌≢◌, refl, ap, sym, ◌∙◌, subst, pos, none, some, List, ◌∷◌, ◌++◌, Bytes,
  codes, length, get_or, arith, eqb_refl,
}
use cs6210proj.Rvm.State.{Rvm, done, store_log, segment_log, contents, newline}
use cs6210proj.Rvm.Table.{slot, find_base}
use cs6210proj.Rvm.Mapping.{rvm_unmap, remove_entry, print_error}
use cs6210proj.Rvm.Loops.{base_at, after_log}
use cs6210proj.Rvm.Mapped.{find_base-none}
use cs6210proj.Rvm.Ends.{Runs}
use cs6210proj.Rvm.Unmapping.{
  IsTable, unmapped, before, slot-remove, remove_entry-IsTable, unmapped-IsTable, rvm_unmap-state,
}
use cs6210proj.Rvm.Session.Mapping.{set_file-logged}

-- The addresses in the table, in its order, and the errors that were printed.
pub record Lists (dir : Bytes) (addresses : List ℕ) (errors : List Bytes) (s : Rvm) : Type 0 where
  pub table : IsTable (length addresses) s
  pub bases : (m : ℕ) → m < length addresses → base_at m s ≡ get_or addresses m 0
  pub sized : (m : ℕ) → m < length addresses → (slot m s).size ≢ 0
  pub short : (m : ℕ) → m < length addresses → length (slot m s).name < 75
  pub logged : (c : Bytes) × (s.file (store_log dir) ≡ some c)
  pub printed : s.errors ≡ errors

rvm_unmap-missing :
    (dir : Bytes) (base n : ℕ) (s : Rvm)
    → s.num_mapped ≡ pos (suc n)
    → find_base (suc n) 0 base s ≡ none
    → rvm_unmap dir base s ≡ done tt (print_error "No record of memory to unmap.\n" s)
unfolding rvm_unmap
rvm_unmap-missing dir base n s e found = simp (e, found, rvm_unmap)

-- An address that is not in the table, which is not empty.
pub unmap_missing-Runs :
    (dir : Bytes) (base a : ℕ) (later : List ℕ) (errors : List Bytes)
    → ((m : ℕ) → m < suc (length later) → get_or (a ∷ later) m 0 ≢ base)
    → Runs
        (Lists dir (a ∷ later) errors)
        (rvm_unmap dir base)
        (Lists dir (a ∷ later) (codes "No record of memory to unmap.\n" ∷ errors))
unmap_missing-Runs dir base a later errors others = record {
  at = λ s h.
      let v = h.table in
      (
        tt,
        print_error "No record of memory to unmap.\n" s,
        rvm_unmap-missing dir base (length later) s v.count (
            find_base-none (suc (length later)) 0 base s
              (λ m l e. others m (omega arith) (sym (h.bases m (omega arith)) ∙ e))),
        record {
          table = record {
            count = v.count;
            room = v.room;
            entries = v.entries;
            addresses = v.addresses;
            names = v.names;
          };
          bases = h.bases;
          sized = h.sized;
          short = h.short;
          logged = h.logged;
          printed = ap (◌∷◌ (codes "No record of memory to unmap.\n")) h.printed;
        },
      );
}

-- The first address in the table.
pub unmap_first-Runs :
    (dir : Bytes) (a : ℕ) (later : List ℕ) (errors : List Bytes)
    → Runs (Lists dir (a ∷ later) errors) (rvm_unmap dir a) (Lists dir later errors)
unmap_first-Runs dir a later errors = record {
  at = λ s h.
      let n : ℕ = length later in
      let v : IsTable (suc n) s = h.table in
      let (c, log) = h.logged in
      let t : Rvm = remove_entry (suc n) 0 (unmapped dir 0 s) in
      let table : IsTable (suc n - 1) t =
        remove_entry-IsTable (suc n) 0 (unmapped dir 0 s) (unmapped-IsTable dir (suc n) 0 s v)
          (omega arith) in
      let count : suc n - 1 ≡ n = omega arith in
      let moved : (m : ℕ) → m < n → slot m t ≡ slot (suc m) s = λ m l.
        let next : before 0 m ≡ suc m = ground arith in
        slot-remove (suc n) 0 m (unmapped dir 0 s) (omega arith) (omega (arith, v.room, v.entries))
          (omega arith)
        ∙ ap (λ x. slot x s) next in
      let msg : Bytes = codes "RVM_UNMAP SEGMENT " ++ ((slot 0 s).name ++ newline) in
      let first : (c' : Bytes) × ((after_log dir msg s).file (store_log dir) ≡ some c') =
        (contents (s.file (store_log dir)) ++ msg, rw (eqb_refl (store_log dir)) refl) in
      (
        tt,
        t,
        subst (λ b. rvm_unmap dir b s ≡ done tt t) (h.bases 0 (omega arith))
            (rvm_unmap-state dir c n 0 s v (omega arith) (h.sized 0 (omega arith)) log
              (h.short 0 (omega arith))),
        record {
          table = subst (λ x. IsTable x t) count table;
          bases = λ m l. ap (λ g. g.address) (moved m l) ∙ h.bases (suc m) (omega arith);
          sized = λ m l e. h.sized (suc m) (omega arith) (ap (λ g. g.size) (sym (moved m l)) ∙ e);
          short = λ m l.
              omega (arith, h.short (suc m) (omega arith), ap (λ g. length g.name) (moved m l));
          logged =
              set_file-logged dir (segment_log dir (slot 0 s).name) _ (after_log dir msg s) first;
          printed = h.printed;
        },
      );
}
