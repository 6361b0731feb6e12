-- ===== src/Rvm/Programs/Single.antt =====
-- project4/basic.c, project4/verbose.c, project4/truncate.c
use cs6210proj.Prelude.{
  ℕ, Option, Bool, List, [], ◌∷◌, Bytes, codes, set, length, ltb, if◌then◌else◌,
}
use cs6210proj.Rvm.State.{Rvm, M, done, fault, pure, ◌>>=◌, ◌>>◌}
use cs6210proj.Rvm.Mapping.{rvm_init, rvm_map, rvm_destroy, rvm_verbose}
use cs6210proj.Rvm.Transaction.{rvm_begin_trans, rvm_about_to_modify, rvm_commit_trans}
use cs6210proj.Rvm.Truncation.{rvm_truncate_log}
use cs6210proj.Rvm.Programs.{print, put_text, expect, fork_and_wait}
use cs6210proj.Rvm.Programs.Abort.{store_name}
use cs6210proj.Rvm.Programs.Limits.{test_string}

-- A write to an entry of an array; `get_entry` reads one.
abbrev pub set_entry : List ℕ → ℕ → ℕ → M (List ℕ)
set_entry segs i v s = if ltb i (length segs) then done (set segs i v) s else fault

abbrev pub get_entry : List ℕ → ℕ → M ℕ
get_entry [] i s = fault
get_entry (x ∷ segs) Prim.Native.Nat.zero s = done x s
get_entry (x ∷ segs) (Prim.Native.Nat.suc i) s = get_entry segs i s

-- What proc1 of basic.c and of verbose.c do behind `rvm_init`, on the array that they declare.
unfoldable pub write_and_commit : ℕ → List ℕ → Bytes → M (Unit {0})
write_and_commit at segs rvm = do
  rvm_destroy rvm (codes "testseg")
  seg ← rvm_map rvm (codes "testseg") 10000 at
  segs' ← set_entry segs 0 seg
  base ← get_entry segs' 0
  trans ← rvm_begin_trans rvm (base ∷ [])
  rvm_about_to_modify trans base 0 100
  put_text base 0 test_string
  rvm_about_to_modify trans base 1000 100
  put_text base 1000 test_string
  rvm_commit_trans trans

-- `char* segs[0];`
abbrev pub segs : List ℕ
segs = []

unfoldable pub basic_proc1 : ℕ → M (Unit {0})
basic_proc1 at = rvm_init store_name >>= write_and_commit at segs

unfoldable pub basic_proc2 : ℕ → M ℕ
basic_proc2 at = do
  rvm ← rvm_init store_name
  seg ← rvm_map rvm (codes "testseg") 10000 at
  expect seg 0 test_string (print (codes "ERROR: first hello not present\n")) (
      expect seg 1000 test_string (print (codes "ERROR: second hello not present\n"))
        (print (codes "OK\n") >> pure 0))

unfoldable pub basic_main : Bool → (Rvm → Bytes → Option Bytes) → ℕ → ℕ → M ℕ
basic_main forked crashed at at' = fork_and_wait forked crashed (basic_proc1 at) (basic_proc2 at')

unfoldable pub verbose_main : ℕ → M ℕ
verbose_main at = do
  rvm_verbose 1
  rvm ← rvm_init store_name
  write_and_commit at segs rvm
  print (codes "OK\n")
  pure 0

-- `list` is what `ls -l rvm_segments` prints.
unfoldable pub truncate_main : (Rvm → Bytes) → M ℕ
truncate_main list = do
  print (codes "Before Truncation:\n")
  λ s. print (list s) s
  rvm ← rvm_init store_name
  rvm_truncate_log rvm
  print (codes "\nAfter Truncation:\n")
  λ s. print (list s) s
  pure 0
