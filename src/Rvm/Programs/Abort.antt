-- ===== src/Rvm/Programs/Abort.antt =====
-- project4/abort.c, project4/multi-abort.c: a transaction is committed, and one after it aborted.
use cs6210proj.Prelude.{ℕ, [], ◌∷◌, Bytes, codes}
use cs6210proj.Rvm.State.{M, pure, ◌>>=◌, ◌>>◌}
use cs6210proj.Rvm.Mapping.{rvm_init, rvm_map, rvm_unmap, rvm_destroy}
use cs6210proj.Rvm.Transaction.{
  rvm_begin_trans, rvm_about_to_modify, rvm_commit_trans, rvm_abort_trans,
}
use cs6210proj.Rvm.Programs.{print, put_text, expect, complain_at}

abbrev pub store_name : Bytes
store_name = codes "rvm_segments"

abbrev pub test_string1 : Bytes
test_string1 = codes "hello, world"

abbrev pub test_string2 : Bytes
test_string2 = codes "bleg!"

-- abort.c, once its segment is mapped.
unfoldable pub abort_run : Bytes → ℕ → M ℕ
abort_run rvm seg = do
  trans ← rvm_begin_trans rvm (seg ∷ [])
  rvm_about_to_modify trans seg 0 100
  put_text seg 0 test_string1
  rvm_about_to_modify trans seg 1000 100
  put_text seg 1000 test_string1
  rvm_commit_trans trans
  trans' ← rvm_begin_trans rvm (seg ∷ [])
  rvm_about_to_modify trans' seg 0 100
  put_text seg 0 test_string2
  rvm_about_to_modify trans' seg 1000 100
  put_text seg 1000 test_string2
  rvm_abort_trans trans'
  expect seg 1000 test_string1 (complain_at (codes "ERROR: second hello is incorrect (") seg 1000) (
      expect seg 0 test_string1 (complain_at (codes "ERROR: first hello is incorrect (") seg 0)
        (rvm_unmap rvm seg >> (print (codes "OK\n") >> pure 0)))

-- `at` is the address that `mmap` returns.
unfoldable pub abort_main : ℕ → M ℕ
abort_main at = do
  rvm ← rvm_init store_name
  rvm_destroy rvm (codes "testseg")
  seg ← rvm_map rvm (codes "testseg") 10000 at
  abort_run rvm seg

abbrev pub good_string : Bytes
good_string = codes "hello, world"

abbrev pub bad_string : Bytes
bad_string = codes "i am a rock"

abbrev pub segname0 : Bytes
segname0 = codes "testseg1"

abbrev pub segname1 : Bytes
segname1 = codes "testseg2"

-- multi-abort.c, once its segments are mapped.
unfoldable pub multi_abort_run : Bytes → ℕ → ℕ → M ℕ
multi_abort_run rvm seg0 seg1 = do
  trans ← rvm_begin_trans rvm (seg0 ∷ seg1 ∷ [])
  rvm_about_to_modify trans seg0 10 100
  put_text seg0 10 good_string
  rvm_about_to_modify trans seg1 100 100
  put_text seg1 100 good_string
  rvm_commit_trans trans
  trans' ← rvm_begin_trans rvm (seg0 ∷ seg1 ∷ [])
  rvm_about_to_modify trans' seg0 10 100
  put_text seg0 10 bad_string
  rvm_about_to_modify trans' seg1 100 100
  put_text seg1 100 bad_string
  rvm_abort_trans trans'
  expect seg0 10 good_string (complain_at (codes "ERROR in segment 0 (") seg0 10) (
      expect seg1 100 good_string (complain_at (codes "ERROR in segment 1 (") seg1 100)
        (print (codes "OK\n") >> pure 0))

-- `at` gives the addresses that `mmap` returns.
unfoldable pub multi_abort_main : (ℕ → ℕ) → M ℕ
multi_abort_main at = do
  rvm ← rvm_init store_name
  rvm_destroy rvm segname0
  rvm_destroy rvm segname1
  seg0 ← rvm_map rvm segname0 1000 (at 0)
  seg1 ← rvm_map rvm segname1 1000 (at 1)
  multi_abort_run rvm seg0 seg1
