-- ===== src/Rvm/Programs/Faults.antt =====
-- project4/basic.c, project4/verbose.c: the array without elements.
use cs6210proj.Prelude.{ℕ, ◌≡◌, ◌≢◌, refl, ap, ◌∙◌, codes, arith}
use cs6210proj.Rvm.State.{Rvm, done, fault, map_failed, M, pure, ◌>>◌}
use cs6210proj.Rvm.Mapping.{rvm_init, rvm_map, rvm_destroy, rvm_verbose}
use cs6210proj.Rvm.Loops.{>>=-done, >>=-fault}
use cs6210proj.Rvm.Recovery.{restart, slot-blank}
use cs6210proj.Rvm.Session.{Contents}
use cs6210proj.Rvm.Session.Mapping.{rvm_map-Session}
use cs6210proj.Rvm.Session.Start.{Fresh, rvm_init-Session, rvm_destroy-Session}
use cs6210proj.Rvm.Programs.{print}
use cs6210proj.Rvm.Programs.Abort.{store_name}
use cs6210proj.Rvm.Programs.Shared.{store_dir, found}
use cs6210proj.Rvm.Programs.Passes.{testseg, testseg-Names}
use cs6210proj.Rvm.Programs.Single.{write_and_commit, segs, basic_proc1, verbose_main}

module _ (at : ℕ) (z : at ≢ 0) (f : at ≢ map_failed) where
  -- The segment is mapped and its address written to the array.
  write-faults :
      (v : ℕ → Contents) (s : Rvm)
      → Fresh (testseg-Names at z f) v s
      → (t : Rvm) × (rvm_init store_name s ≡ done store_dir t)
        × (write_and_commit at segs store_dir t ≡ fault)
  unfolding write_and_commit
  write-faults v s fresh =
      let names = testseg-Names at z f in
      let (a, t, ran, (e, h)) = (rvm_init-Session names store_name v refl).at s fresh in
      let (_, t', ran', h') = (rvm_destroy-Session names v 0 (omega arith) (omega arith)).at t h in
      let (b, t'', ran'', _) = (rvm_map-Session names _ (omega arith) (omega arith)).at t' h' in
      (
        t,
        ran ∙ ap (λ x. done x t) e,
        >>=-done (rvm_destroy store_dir (codes "testseg")) _ ran'
            ∙ >>=-done (rvm_map store_dir (codes "testseg") 10000 at) _ ran'',
      )

-- `at` is an address that mmap can return. Whatever files there are, proc1 of basic.c and the program
-- verbose.c access their array `segs` outside of its bounds: it has no elements.
pub basic_proc1-faults :
    (at : ℕ) (s : Rvm)
    → at ≢ 0
    → at ≢ map_failed
    → (basic_proc1 at (restart s) ≡ fault) × (verbose_main at (restart s) ≡ fault)
unfolding basic_proc1 verbose_main rvm_verbose
basic_proc1-faults at s z f =
    let v = found store_dir (testseg at) s in
    let (t, opened, wrong) =
      write-faults at z f v (restart s)
        (record { table = refl; null_free = refl; blank = slot-blank 30; on_disk = λ m b. refl }) in
    let (t', opened', wrong') =
      write-faults at z f v (record (restart s) { verbose = 1 })
        (record { table = refl; null_free = refl; blank = slot-blank 30; on_disk = λ m b. refl }) in
    let after : M ℕ = print (codes "OK\n") >> pure 0 in
    let stuck : (write_and_commit at segs store_dir >> after) t' ≡ fault =
      >>=-fault (write_and_commit at segs store_dir) _ wrong' in
    (
      >>=-done (rvm_init store_name) (write_and_commit at segs) opened ∙ wrong,
      >>=-done (rvm_init store_name) (λ rvm. write_and_commit at segs rvm >> after) opened' ∙ stuck,
    )
