-- ===== src/Rvm/Programs/Tests.antt =====
-- project4: the sample programs on a store that other processes have left files in.
use cs6210proj.Prelude.{
  ℕ, zero, suc, ◌+◌, ◌*◌, ◌≤◌, ◌<◌, ◌≡◌, ◌≢◌, refl, pos, true, none, some, [], ◌∷◌, Bytes, codes,
  eqb, if◌then◌else◌, replicate, length, ap, arith,
}
use cs6210proj.Rvm.State.{
  Rvm, done, fault, unused, contents, store_log, segment_log, segments_log, segment_file, ◌>>=◌,
}
use cs6210proj.Rvm.State
use cs6210proj.Rvm.Recovery.{restart}
use cs6210proj.Rvm.Emptied.{IsLine, IsLog}
use cs6210proj.Rvm.Programs.Abort.{multi_abort_main}
use cs6210proj.Rvm.Programs.Multi.{multi_main}
use cs6210proj.Rvm.Programs.Single.{basic_proc1, verbose_main, truncate_main}
use cs6210proj.Rvm.Programs.Pair.{Addresses, multi_abort_main-passes}
use cs6210proj.Rvm.Programs.Forked.{multi_main-passes}
use cs6210proj.Rvm.Programs.Faults.{basic_proc1-faults}
use cs6210proj.Rvm.Programs.Emptying.{truncate_main-empties}
use cs6210proj.Rvm.Programs.Shared.{store_dir}
use cs6210proj.Rvm.Mapping.{rvm_init}
use cs6210proj.Rvm.Programs.Abort.{store_name}
use cs6210proj.Rvm.Programs.Limits.{max_rounds, max_proc1, max_main, unmap_main, seg_name}
use cs6210proj.Rvm.Programs.Named.{AreAddresses}
use cs6210proj.Rvm.Programs.Rounds.{HasBoth}
use cs6210proj.Rvm.Programs.Exceeded.{max_main-exceeds}
use cs6210proj.Rvm.Programs.Invalid.{complaint, unmap_main-complains}

-- A segment's file, its log and segments.log are there.
abbrev used : Rvm
used = record {
  file = λ p.
      if eqb p (codes "rvm_segments/testseg")
      then some (1 ∷ 2 ∷ 3 ∷ [])
      else if eqb p (codes "rvm_segments/segments.log")
      then some (codes "testseg\n")
      else if eqb p (codes "rvm_segments/testseg.log")
      then some (codes "RVM_MAP SEGMENT testseg\n")
      else none;
  memory = λ a. none;
  mapped = replicate 30 unused;
  num_mapped = pos 0;
  verbose = 0;
  tid = 0;
  locks = [];
  output = [];
  errors = [];
}

abbrev pages : ℕ → ℕ
pages zero = 4096
pages (suc m) = 8192

pages-Addresses : Addresses pages
pages-Addresses = record { apart = λ e. omega arith; not_null = not_zero; succeeds = small }
  where
    not_zero : (m : ℕ) → pages m ≢ 0
    not_zero zero e = omega arith
    not_zero (suc m) e = omega arith

    small : (m : ℕ) → pages m ≢ State.map_failed
    small zero e = omega arith
    small (suc m) e = omega arith

multi_abort_main-passes_example : (t : Rvm) × (multi_abort_main pages (restart used) ≡ done 0 t)
multi_abort_main-passes_example = multi_abort_main-passes pages used pages-Addresses

multi_main-passes_example :
    (t : Rvm) × (multi_main true (λ s p. none) pages pages (restart used) ≡ done 0 t)
multi_main-passes_example =
    multi_main-passes (λ s p. none) pages pages used pages-Addresses pages-Addresses

basic_proc1-faults_example :
    (basic_proc1 4096 (restart used) ≡ fault) × (verbose_main 4096 (restart used) ≡ fault)
basic_proc1-faults_example = basic_proc1-faults 4096 used (λ e. omega arith) (λ e. omega arith)

testseg-IsLine : IsLine store_dir (codes "testseg")
testseg-IsLine = record {
  text = (
    λ e. omega arith,
    λ e. omega arith,
    (
      λ e. omega arith,
      λ e. omega arith,
      (
        λ e. omega arith,
        λ e. omega arith,
        (
          λ e. omega arith,
          λ e. omega arith,
          (
            λ e. omega arith,
            λ e. omega arith,
            (λ e. omega arith, λ e. omega arith, (λ e. omega arith, λ e. omega arith, tt)),
          ),
        ),
      ),
    ),
  );
  short = omega arith;
  path_short = omega arith;
  apart = λ e. omega (arith, ap length e);
  list_apart = λ e. omega (arith, ap length e);
}

-- `ls` prints nothing here.
truncate_main-empties_example :
    (t : Rvm) × (truncate_main (λ s. []) used ≡ done 0 t)
    × (t.file (store_log store_dir) ≡ some [])
    × ((p : Bytes) → IsLog store_dir (codes "testseg" ∷ []) p → contents (t.file p) ≡ [])
    × ((p : Bytes)
        → ¬ IsLog store_dir (codes "testseg" ∷ []) p
        → store_log store_dir ≢ p
        → t.file p ≡ used.file p)
truncate_main-empties_example =
    truncate_main-empties (λ s. []) (codes "testseg" ∷ []) used refl (testseg-IsLine, tt)

abbrev page : ℕ → ℕ
page m = 4096 * (m + 1)

page-AreAddresses : (n : ℕ) → n ≤ 30 → AreAddresses n page
page-AreAddresses n l = record {
  apart = λ m k b c e. omega arith;
  not_null = λ m b e. omega arith;
  succeeds = λ m b e. omega arith;
}

-- The array holds zeros. Both processes are given the same addresses.
max_main-exceeds_example :
    (t u : Rvm) × ((rvm_init store_name >>= λ rvm. max_rounds page rvm 30 0 (replicate 31 0))
        (restart used)
      ≡ done tt t)
    × ((m : ℕ) → m < 30 → HasBoth (contents (t.file (segment_file store_dir (seg_name m)))))
    × (max_proc1 page (replicate 31 0) (restart used) ≡ fault)
    × (max_main true (λ r. t.file) page page (replicate 31 0) (restart used) ≡ done 0 u)
max_main-exceeds_example =
    max_main-exceeds page page (replicate 31 0) used (page-AreAddresses 30 (omega arith))
      (page-AreAddresses 30 (omega arith)) refl

-- Every file has three bytes, and the two entries of the array are 0 and 1.
unmap_main-complains_example :
    (t : Rvm) × (unmap_main page 0 1 (restart (record used { file = λ p. some (1 ∷ 2 ∷ 3 ∷ []) }))
      ≡ done 0 t)
    × (t.errors ≡ complaint ∷ complaint ∷ [])
unmap_main-complains_example =
    unmap_main-complains page 0 1 (record used { file = λ p. some (1 ∷ 2 ∷ 3 ∷ []) })
      (page-AreAddresses 10 (omega arith)) (λ m b. omega arith) (λ m b e. omega arith)
      (λ m b e. omega arith)
