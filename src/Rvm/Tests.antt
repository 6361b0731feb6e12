-- ===== src/Rvm/Tests.antt =====
-- project4: runs of the library, and the theorems at a small store.
use cs6210proj.Prelude.{
  ℕ, zero, suc, ◌<◌, ◌≡◌, ◌≢◌, refl, ap, pos, none, some, List, [], ◌∷◌, ◌++◌, map, Bytes, codes,
  eqb, ◌==◌, if◌then◌else◌, length, get_or, replicate, arith,
}
use cs6210proj.Rvm.State.{
  Range, Segment, Trans, Rvm, done, fault, hang, unused, log_both, contents, log_rvm, log_segment,
  fits,
}
use cs6210proj.Rvm.Table.{slot, find_base, for_base}
use cs6210proj.Rvm.Mapping.{rvm_init, rvm_map, rvm_unmap}
use cs6210proj.Rvm.Transaction.{
  for_bases, commit_entry, write_segment, rvm_about_to_modify, rvm_commit_trans, write_ranges,
}
use cs6210proj.Rvm.Ranges.{covered, Within, write_ranges-get}
use cs6210proj.Rvm.Loops.{base_at}
use cs6210proj.Rvm.Commit.{IsMapped, CanLog, Merged}
use cs6210proj.Rvm.Mapped.{CanMap}
use cs6210proj.Rvm.Recovery.{CanRestart, restart, rvm_commit_trans-survives}
use cs6210proj.Rvm.Unmapping.{IsTable, before, rvm_unmap-removes}
use cs6210proj.Rvm.Truncation.{rvm_truncate_log}
use cs6210proj.Rvm.Emptied.{IsLine, IsLog, rvm_truncate_log-empties}
use cs6210proj.Rvm.Negative.{unmap_each, rvm_unmap-empty}
use cs6210proj.Rvm.Modify.{rvm_about_to_modify-exhausted}

abbrev ranges : List Range
ranges = record { offset = 0; size = 2 } ∷ record { offset = 4; size = 1 } ∷ []

abbrev changed : Bytes
changed = 1 ∷ 2 ∷ 3 ∷ 4 ∷ 5 ∷ 6 ∷ []

abbrev stored : Bytes
stored = replicate 6 0

abbrev segment : Segment
segment = record {
  address = 4096;
  name = codes "a";
  size = 6;
  num_ranges = 2;
  ranges = map some ranges ++ replicate 8 none;
}

-- One segment of six bytes is mapped at 4096, changed in memory, and two ranges of it are announced.
abbrev store : Rvm
store = record {
  file = λ p.
      if eqb p (codes "d/a")
      then some stored
      else if eqb p (codes "d/store.log")
      then some []
      else none;
  memory = λ a. if a == 4096 then some changed else none;
  mapped = segment ∷ replicate 29 unused;
  num_mapped = pos 1;
  verbose = 0;
  tid = 7;
  locks = [];
  output = [];
  errors = [];
}

abbrev merged : Bytes
merged = 1 ∷ 2 ∷ 0 ∷ 0 ∷ 5 ∷ 0 ∷ []

store-IsMapped : IsMapped (codes "d/") 1 0 changed stored store
store-IsMapped = record {
  count = refl;
  index = omega arith;
  only = λ m h e. omega arith;
  in_memory = refl;
  in_file = refl;
  memory_size = refl;
  file_size = refl;
}

store-CanLog : CanLog (codes "d/") (codes "a") [] store
store-CanLog = record { log = refl; apart = λ e. cc; short = omega arith }

store-CanRestart : CanRestart (codes "d") (codes "d/") (codes "a") 8192
store-CanRestart = record {
  slash = refl;
  apart = λ e. cc;
  list_apart = λ e. cc;
  short = omega arith;
  log_short = omega arith;
  path_short = omega arith;
  list_short = omega arith;
  not_null = omega arith;
  succeeds = omega arith;
}

store-IsTable : IsTable 1 store
store-IsTable = record {
  count = refl;
  room = omega arith;
  entries = refl;
  addresses = λ m k h h' e. omega arith;
  names = λ m k h h' e. omega arith;
}

abbrev trans : Trans
trans = record { segbases = 4096 ∷ []; tid = 7; dir = codes "d/" }

-- The commit at this store writes the two ranges and nothing else.
commit_run :
    elim (rvm_commit_trans trans store) [
      | done _ t ↦ t.file (codes "d/a")
      | fault ↦ none
      | hang ↦ none
    ]
    ≡ some merged
unfolding rvm_commit_trans for_bases for_base commit_entry write_segment write_ranges log_both
    log_rvm log_segment fits
commit_run = refl

rvm_commit_trans-survives_example :
    (s' t t' : Rvm) × (f' : Bytes) × (rvm_commit_trans trans store ≡ done tt s')
    × (rvm_init (codes "d") (restart s') ≡ done (codes "d/") t)
    × (rvm_map (codes "d/") (codes "a") 6 8192 t ≡ done 8192 t')
    × (t'.memory 8192 ≡ some f')
    × Merged ranges changed stored f'
rvm_commit_trans-survives_example =
    rvm_commit_trans-survives (codes "d") (codes "d/") 1 0 changed stored store ranges [] 7 8192
      store-IsMapped refl (omega arith, (omega arith, tt)) store-CanLog store-CanRestart

write_ranges-get_example :
    (out : ℕ × Bytes) × (write_ranges changed 6 (map some ranges) (0, stored) ≡ some out)
    × (length out.1 ≡ 6)
    × ((i : ℕ)
        → get_or out.1 i 0 ≡ (if covered ranges i then get_or changed i 0 else get_or stored i 0))
write_ranges-get_example =
    write_ranges-get changed 6 refl ranges 0 stored refl (omega arith, (omega arith, tt))

-- The second segment, which has no file yet, is asked for with three bytes.
store-CanMap : CanMap (codes "d/") (codes "b") [] [] 3 8192 1 store
store-CanMap = record {
  count = refl;
  room = omega arith;
  table = refl;
  unnamed = λ m h e. other m h e;
  fresh = λ m h e. elsewhere m h e;
  succeeds = omega arith;
  old_file = refl;
  small = omega arith;
  log = refl;
  apart = λ e. cc;
  list_apart = λ e. cc;
  short = omega arith;
  path_short = omega arith;
  list_short = omega arith;
}
  where
    other : (m : ℕ) → m < 1 → (slot m store).name ≢ codes "b"
    other zero h e = omega (arith, ap (λ b. get_or b 0 0) e)
    other (suc m) h e = absurd (omega arith)

    elsewhere : (m : ℕ) → m < 2 → base_at m store ≢ 8192
    elsewhere zero h e = omega arith
    elsewhere (suc zero) h e = omega arith
    elsewhere (suc (suc m)) h e = absurd (omega arith)

rvm_unmap-removes_example :
    (s' : Rvm) × (rvm_unmap (codes "d/") 4096 store ≡ done tt s')
    × IsTable 0 s'
    × (s'.memory 4096 ≡ none)
    × ((m : ℕ) → m < 0 → slot m s' ≡ slot (before 0 m) store)
    × (find_base 0 0 4096 s' ≡ none)
rvm_unmap-removes_example =
    rvm_unmap-removes (codes "d/") [] 1 0 store store-IsTable (omega arith) (λ e. omega arith) refl
      (omega arith)

-- The segment has a log.
abbrev with_log : Rvm
with_log = record store {
  file = λ p. if eqb p (codes "d/a.log") then some (codes "y\n") else store.file p;
}

abbrev emptied : Rvm
emptied = record store { num_mapped = pos 0 }

rvm_unmap-empty_example :
    (s' : Rvm) × (unmap_each (codes "d/") (4096 ∷ 8192 ∷ []) emptied ≡ done tt s')
    × (s'.file ≡ emptied.file)
    × (s'.memory ≡ emptied.memory)
    × (rvm_map (codes "d/") (codes "a") 6 8192 s' ≡ fault)
rvm_unmap-empty_example =
    rvm_unmap-empty (codes "d/") (codes "a") (4096 ∷ 8192 ∷ []) 6 8192 emptied refl (omega arith)
      (λ e. omega arith)

-- Ten ranges of one byte are announced.
abbrev ten : List Range
ten = replicate 10 (record { offset = 1; size = 1 })

abbrev filled : Rvm
filled = record store {
  mapped = record segment { num_ranges = 10; ranges = map some ten } ∷ replicate 29 unused;
}

filled-IsMapped : IsMapped (codes "d/") 1 0 changed stored filled
filled-IsMapped = record {
  count = refl;
  index = omega arith;
  only = λ m h e. omega arith;
  in_memory = refl;
  in_file = refl;
  memory_size = refl;
  file_size = refl;
}

filled-CanLog : CanLog (codes "d/") (codes "a") [] filled
filled-CanLog = record { log = refl; apart = λ e. cc; short = omega arith }

ten-Within : (k : ℕ) → Within 6 (replicate k (record { offset = 1; size = 1 }))
ten-Within zero = tt
ten-Within (suc k) = (omega arith, ten-Within k)

rvm_about_to_modify-exhausted_example :
    (s' : Rvm) × (rvm_commit_trans trans filled ≡ done tt s')
    × (rvm_about_to_modify (record trans { tid = 8 }) 4096 0 1 s' ≡ fault)
rvm_about_to_modify-exhausted_example =
    rvm_about_to_modify-exhausted (codes "d/") 1 0 changed stored filled ten [] 7
      (record trans { tid = 8 }) 0 1 filled-IsMapped refl (ten-Within 10) filled-CanLog refl

-- A log of the store, and one of segment "a", the only one that was ever mapped.
abbrev logged : Rvm
logged = record store {
  file = λ p.
      if eqb p (codes "d/segments.log")
      then some (codes "a\n")
      else if eqb p (codes "d/store.log")
      then some (codes "x\n")
      else if eqb p (codes "d/a.log")
      then some (codes "y\n")
      else none;
}

a-IsLine : IsLine (codes "d/") (codes "a")
a-IsLine = record {
  text = (λ e. omega arith, λ e. omega arith, tt);
  short = omega arith;
  path_short = omega arith;
  apart = λ e. omega (arith, ap length e);
  list_apart = λ e. omega (arith, ap length e);
}

rvm_truncate_log-empties_example :
    (s' : Rvm) × (rvm_truncate_log (codes "d/") logged ≡ done tt s')
    × (s'.file (codes "d/store.log") ≡ some [])
    × ((p : Bytes) → IsLog (codes "d/") (codes "a" ∷ []) p → contents (s'.file p) ≡ [])
    × ((p : Bytes)
        → ¬ IsLog (codes "d/") (codes "a" ∷ []) p
        → codes "d/store.log" ≢ p
        → s'.file p ≡ logged.file p)
    × (s'.output ≡ codes "x\n")
    × (s'.memory ≡ logged.memory)
    × (s'.mapped ≡ logged.mapped)
    × (s'.num_mapped ≡ logged.num_mapped)
rvm_truncate_log-empties_example =
    rvm_truncate_log-empties (codes "d/") (codes "a" ∷ []) logged refl (a-IsLine, tt) (omega arith)
      (omega arith) (λ e. omega arith, (λ e. omega arith, tt))
