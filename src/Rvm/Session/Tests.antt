-- ===== src/Rvm/Session/Tests.antt =====
-- project4/rvm.c: the calls on a session of three segments, two of which are mapped.
use cs6210proj.Prelude.{◌≡◌, refl, [], ◌∷◌, codes, arith}
use cs6210proj.Rvm.State.{Rvm, done}
use cs6210proj.Rvm.Mapping.{rvm_map, rvm_destroy}
use cs6210proj.Rvm.Transaction.{rvm_commit_trans, rvm_abort_trans}
use cs6210proj.Rvm.Session.{Session}
use cs6210proj.Rvm.Session.Change.{each_of}
use cs6210proj.Rvm.Session.View.{commit, restore, opened, destroyed}
use cs6210proj.Rvm.Session.Transactions.{on}
use cs6210proj.Rvm.Session.Refinement.{
  rvm_commit_trans-refines, rvm_abort_trans-refines, rvm_map-refines, rvm_destroy-refines,
}
use cs6210proj.Rvm.Session.Sample.{dir, segs, contents, store, names, store-Session}
use cs6210proj.Rvm.Session.Start.{Fresh}
use cs6210proj.Rvm.Recovery.{restart}
use cs6210proj.Rvm.Crash.{crashed_commit}
use cs6210proj.Rvm.Session.Crashed.{commit_some, crashed_commit-restart}

-- Both mapped segments are committed in a transaction, then restored in one.
rvm_commit_trans-refines_example :
    (t : Rvm) × (rvm_commit_trans (on dir segs (1 ∷ 0 ∷ []) 7) store ≡ done tt t)
    × Session dir 3 segs 2 (each_of commit (1 ∷ 0 ∷ []) contents) t
rvm_commit_trans-refines_example =
    rvm_commit_trans-refines names (1 ∷ 0 ∷ []) contents 7 store (omega arith, (omega arith, tt))
      store-Session

-- The bytes 1 and 2 of the first segment's file are now the mapping's.
committed : (each_of commit (1 ∷ 0 ∷ []) contents 0).file ≡ 5 ∷ 2 ∷ 3 ∷ 8 ∷ []
committed = refl

rvm_abort_trans-refines_example :
    (t : Rvm) × (rvm_abort_trans (on dir segs (1 ∷ 0 ∷ []) 7) store ≡ done tt t)
    × Session dir 3 segs 2 (each_of restore (1 ∷ 0 ∷ []) contents) t
rvm_abort_trans-refines_example =
    rvm_abort_trans-refines names (1 ∷ 0 ∷ []) contents 7 store (omega arith, (omega arith, tt))
      store-Session

rvm_map-refines_example :
    (t : Rvm) × (rvm_map dir (codes "c") 5 12288 store ≡ done 12288 t)
    × Session dir 3 segs 3 (opened 5 2 contents) t
rvm_map-refines_example =
    rvm_map-refines names contents store (omega arith) (omega arith) store-Session

rvm_destroy-refines_example :
    (t : Rvm) × (rvm_destroy dir (codes "c") store ≡ done tt t)
    × Session dir 3 segs 2 (destroyed 2 contents) t
rvm_destroy-refines_example =
    rvm_destroy-refines names contents 2 store (omega arith) (omega arith) store-Session

-- The process ends when the first segment is committed and the first range of the second one is written.
crashed_commit-restart_example :
    (t : Rvm) × (crashed_commit (on dir segs (0 ∷ 1 ∷ []) 7) 1 1 store ≡ done tt t)
    × Fresh names (commit_some 1 1 (0 ∷ 1 ∷ []) contents) (restart t)
crashed_commit-restart_example =
    crashed_commit-restart names (0 ∷ 1 ∷ []) contents 7 1 1 store (omega arith, (omega arith, tt))
      store-Session

torn : (commit_some 1 1 (0 ∷ 1 ∷ []) contents 1).file ≡ 1 ∷ 0 ∷ 0 ∷ []
torn = refl

whole : (each_of commit (0 ∷ 1 ∷ []) contents 1).file ≡ 1 ∷ 0 ∷ 1 ∷ []
whole = refl
