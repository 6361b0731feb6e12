-- ===== src/Rvm/Programs/Multi.antt =====
-- project4/multi.c: a process commits to two segments, and one after it reads them.
use cs6210proj.Prelude.{ℕ, Bool, [], ◌∷◌, Bytes, Option, codes}
use cs6210proj.Rvm.State.{Rvm, M, pure, ◌>>=◌, ◌>>◌}
use cs6210proj.Rvm.Mapping.{rvm_init, rvm_map, rvm_destroy}
use cs6210proj.Rvm.Transaction.{rvm_begin_trans, rvm_about_to_modify, rvm_commit_trans}
use cs6210proj.Rvm.Programs.{print, put_text, expect, complain_at, fork_and_wait}
use cs6210proj.Rvm.Programs.Abort.{store_name, segname0, segname1}

abbrev pub string0 : Bytes
string0 = codes "hello, world"

abbrev pub string1 : Bytes
string1 = codes "black agagadrof!"

-- It ends in `abort`, which takes the process's memory with it.
unfoldable pub multi_proc1 : (ℕ → ℕ) → M (Unit {0})
multi_proc1 at = do
  rvm ← rvm_init store_name
  rvm_destroy rvm segname0
  rvm_destroy rvm segname1
  seg0 ← rvm_map rvm segname0 1000 (at 0)
  seg1 ← rvm_map rvm segname1 1000 (at 1)
  trans ← rvm_begin_trans rvm (seg0 ∷ seg1 ∷ [])
  rvm_about_to_modify trans seg0 10 100
  put_text seg0 10 string0
  rvm_about_to_modify trans seg1 100 100
  put_text seg1 100 string1
  rvm_commit_trans trans

-- With the exit code of `main` behind it.
unfoldable pub multi_proc2 : (ℕ → ℕ) → M ℕ
multi_proc2 at = do
  rvm ← rvm_init store_name
  seg0 ← rvm_map rvm segname0 1000 (at 0)
  seg1 ← rvm_map rvm segname1 1000 (at 1)
  expect seg0 10 string0 (complain_at (codes "ERROR in segment 0 (") seg0 10) (
      expect seg1 100 string1 (complain_at (codes "ERROR in segment 1 (") seg1 100)
        (print (codes "OK\n") >> pure 0))

-- `at` and `at'` give the addresses that `mmap` returns to the child and to the parent.
unfoldable pub multi_main : Bool → (Rvm → Bytes → Option Bytes) → (ℕ → ℕ) → (ℕ → ℕ) → M ℕ
multi_main forked crashed at at' = fork_and_wait forked crashed (multi_proc1 at) (multi_proc2 at')
