-- ===== src/Rvm/Programs/Limits.antt =====
-- project4/maxsegments.c, project4/unmapinvalid.c: more segments than the table has room for, and
-- segments unmapped that never were mapped.
use cs6210proj.Prelude.{
  ℕ, zero, suc, ◌+◌, ◌-◌, Bool, List, ◌++◌, Bytes, Option, codes, print_int, set, ◌==◌,
  if◌then◌else◌,
}
use cs6210proj.Rvm.State.{Rvm, M, pure, ◌>>=◌, ◌>>◌}
use cs6210proj.Rvm.Mapping.{rvm_init, rvm_map, rvm_unmap, rvm_destroy}
use cs6210proj.Rvm.Transaction.{rvm_begin_trans, rvm_about_to_modify, rvm_commit_trans}
use cs6210proj.Rvm.Programs.{print, put_text, expect, fork_and_wait}
use cs6210proj.Rvm.Programs.Abort.{store_name}

abbrev pub num_segs : ℕ
num_segs = 31

abbrev pub test_string : Bytes
test_string = codes "hello, world"

-- `sprintf(name, "testseg%d", i)`
unfoldable pub seg_name : ℕ → Bytes
seg_name i = codes "testseg" ++ print_int i

-- The rounds that are left, from round `i` on; `segs` is the array, which begins with whatever its
-- memory held.
unfoldable pub max_rounds : (ℕ → ℕ) → Bytes → ℕ → ℕ → List ℕ → M (Unit {0})
max_rounds at rvm zero i segs = pure tt
max_rounds at rvm (suc left) i segs = do
  rvm_destroy rvm (seg_name i)
  seg ← rvm_map rvm (seg_name i) 10000 (at i)
  trans ← rvm_begin_trans rvm (set segs i seg)
  rvm_about_to_modify trans seg 0 100
  put_text seg 0 test_string
  rvm_about_to_modify trans seg 1000 100
  put_text seg 1000 test_string
  rvm_commit_trans trans
  max_rounds at rvm left (i + 1) (set segs i seg)

unfoldable pub max_proc1 : (ℕ → ℕ) → List ℕ → M (Unit {0})
max_proc1 at segs = do rvm ← rvm_init store_name; max_rounds at rvm num_segs 0 segs

abbrev pub finish : M ℕ
finish = print (codes "OK\n") >> pure 0

unfoldable pub max_checks : (ℕ → ℕ) → Bytes → ℕ → ℕ → M ℕ
max_checks at rvm zero i = finish
max_checks at rvm (suc left) i =
    let rest : M ℕ = max_checks at rvm left (i + 1) in
    rvm_map rvm (seg_name i) 10000 (at i) >>= λ seg.
    if i == num_segs - 1
    then finish
    else expect seg 0 test_string (print (codes "ERROR: first hello not present\n"))
        (expect seg 1000 test_string (print (codes "ERROR: second hello not present\n")) rest)

unfoldable pub max_proc2 : (ℕ → ℕ) → M ℕ
max_proc2 at = do rvm ← rvm_init store_name; max_checks at rvm num_segs 0

unfoldable pub max_main : Bool → (Rvm → Bytes → Option Bytes) → (ℕ → ℕ) → (ℕ → ℕ) → List ℕ → M ℕ
max_main forked crashed at at' segs =
    fork_and_wait forked crashed (max_proc1 at segs) (max_proc2 at')

-- unmapinvalid.c; `segs1` and `segs7` are what the entries 1 and 7 of the array hold, which nothing sets.
unfoldable pub unmap_main : (ℕ → ℕ) → ℕ → ℕ → M ℕ
unmap_main at segs1 segs7 = do
  rvm ← rvm_init store_name
  seg0 ← rvm_map rvm (codes "testseg0") 10000 (at 0)
  seg2 ← rvm_map rvm (codes "testseg2") 10000 (at 2)
  seg3 ← rvm_map rvm (codes "testseg3") 10000 (at 3)
  seg4 ← rvm_map rvm (codes "testseg4") 10000 (at 4)
  seg5 ← rvm_map rvm (codes "testseg5") 10000 (at 5)
  seg6 ← rvm_map rvm (codes "testseg6") 10000 (at 6)
  seg8 ← rvm_map rvm (codes "testseg8") 10000 (at 8)
  seg9 ← rvm_map rvm (codes "testseg9") 10000 (at 9)
  rvm_unmap rvm seg0
  rvm_unmap rvm segs1
  rvm_unmap rvm seg2
  rvm_unmap rvm seg3
  rvm_unmap rvm seg4
  rvm_unmap rvm seg5
  rvm_unmap rvm seg6
  rvm_unmap rvm segs7
  rvm_unmap rvm seg8
  rvm_unmap rvm seg9
  print (codes "OK, Should see 2 handled exceptions above.\n")
  pure 0
