-- ===== src/Rvm/Programs/Passes.antt =====
-- project4/abort.c, project4/multi-abort.c: the programs find the texts that they committed.
use cs6210proj.Prelude.{
  ℕ, ◌+◌, ◌≤◌, ◌≡◌, ◌≢◌, refl, ap, sym, ◌∙◌, List, [], ◌∷◌, ◌++◌, codes, length, arith, print_int,
  length-replicate, length-append,
}
use cs6210proj.Rvm.State.{Range, Rvm, done, map_failed}
use cs6210proj.Rvm.Transaction.{rvm_begin_trans}
use cs6210proj.Rvm.Recovery.{restart}
use cs6210proj.Rvm.Ends.{Ends, Ends-bind_at, Ends-bind_of, Ends-then}
use cs6210proj.Rvm.Session.{Entry, Contents, Names, Session}
use cs6210proj.Rvm.Session.Transactions.{
  on, rvm_begin_trans-Session, rvm_commit_trans-Session, rvm_abort_trans-Session,
}
use cs6210proj.Rvm.Session.Mapping.{rvm_map-Session}
use cs6210proj.Rvm.Session.Start.{Fresh, restart-Fresh, rvm_init-Session, rvm_destroy-Session}
use cs6210proj.Rvm.Programs.Abort.{store_name, abort_run, test_string1, test_string2, abort_main}
use cs6210proj.Rvm.Programs.Texts.{compare_text-Session, change-Ends, range}
use cs6210proj.Rvm.Programs.Shared.{store_dir, found, ok, rvm_unmap-ends}
use cs6210proj.Rvm.Programs.Committed.{first-committed, second-committed}

abbrev pub testseg : ℕ → ℕ → Entry
testseg at m = record { at = at; name = codes "testseg"; size = 10000 }

pub testseg-Names : (at : ℕ) → at ≢ 0 → at ≢ map_failed → Names store_dir 1 (testseg at)
testseg-Names at z f = record {
  room = omega arith;
  addresses = λ m k b c e. omega arith;
  names = λ m k b c e. omega arith;
  files = λ m k b c e. omega arith;
  apart = λ m b e. omega (arith, ap length e);
  list_apart = λ m b e. omega (arith, ap length e);
  own_log = λ m b e. omega (arith, ap length e);
  logs_apart = λ m k b c e. omega (arith, ap length e);
  short = λ m b. omega arith;
  paths = λ m b. omega arith;
  log_short = omega arith;
  list_short = omega arith;
  not_null = λ m b. z;
  succeeds = λ m b. f;
}

length-two_ranges :
    (rs : List Range) → length ((rs ++ range 0 100 ∷ []) ++ range 1000 100 ∷ []) ≡ length rs + 2
length-two_ranges rs = omega (
  arith,
  length-append (rs ++ range 0 100 ∷ []) (range 1000 100 ∷ []),
  length-append rs (range 0 100 ∷ []),
)

abort_run-Ends :
    {at : ℕ} (names : Names store_dir 1 (testseg at)) (v : ℕ → Contents)
    → length (v 0).bytes ≡ 10000
    → length (v 0).file ≡ 10000
    → length (v 0).ranges ≤ 6
    → Ends (Session store_dir 1 (testseg at) 1 v) (abort_run store_dir at) (λ a t. a ≡ 0)
unfolding abort_run print_int
abort_run-Ends {at} names v lb lf few =
    let segs = testseg at in
    let js : List ℕ = 0 ∷ [] in
    let rs : List Range = (v 0).ranges in
    let begin : (w : ℕ → Contents)
        → Ends (Session store_dir 1 segs 1 w) (rvm_begin_trans store_dir (at ∷ [])) (λ trans t.
          ((tid : ℕ) × (trans ≡ on store_dir segs js tid)) × Session store_dir 1 segs 1 w t) =
      λ w. rvm_begin_trans-Session names js w (omega arith, tt) in
    let far =
      second-committed test_string1 test_string1 0 1000 (v 0).bytes (v 0).file rs (omega arith)
        (omega arith) (lb ∙ sym lf) (omega arith) (omega arith) in
    let near =
      first-committed test_string1 test_string1 0 1000 (v 0).bytes (v 0).file rs (omega arith)
        (omega arith) (lb ∙ sym lf) (omega arith) (omega arith) in
    Ends-bind_of (on store_dir segs js) _ (begin v) λ tid.
      change-Ends names 0 0 100 test_string1 js tid (omega arith) (omega arith) (omega arith)
        (omega arith) (omega arith)
        (change-Ends names 0 1000 100 test_string1 js tid (omega arith)
          (omega (arith, length-append rs (range 0 100 ∷ []))) (omega arith) (omega arith)
          (omega arith)
          (Ends-then (rvm_commit_trans-Session names js _ tid (omega arith, tt)) (
            Ends-bind_of (on store_dir segs js) _ (begin _) λ tid'.
              change-Ends names 0 0 100 test_string2 js tid' (omega arith)
                (omega (arith, length-two_ranges rs)) (omega arith) (omega arith) (omega arith)
                (change-Ends names 0 1000 100 test_string2 js tid' (omega arith)
                  (omega (
                    arith,
                    length-two_ranges rs,
                    length-append ((rs ++ range 0 100 ∷ []) ++ range 1000 100 ∷ [])
                        (range 0 100 ∷ []),
                  ))
                  (omega arith) (omega arith) (omega arith)
                  (Ends-then (rvm_abort_trans-Session names js _ tid' (omega arith, tt)) (
                    Ends-bind_at _
                      (compare_text-Session names _ 0 1000 test_string1 (omega arith) far)
                      (Ends-bind_at _
                        (compare_text-Session names _ 0 0 test_string1 (omega arith) near)
                        (Ends-then (rvm_unmap-ends names 0 (omega arith) (omega arith)) ok))))))))

abort_main-Ends :
    (at : ℕ) (z : at ≢ 0) (f : at ≢ map_failed) (v : ℕ → Contents)
    → Ends (Fresh (testseg-Names at z f) v) (abort_main at) (λ a t. a ≡ 0)
unfolding abort_main
abort_main-Ends at z f v =
    let names = testseg-Names at z f in
    Ends-bind_at _ (rvm_init-Session names store_name v refl) (
      Ends-then (rvm_destroy-Session names v 0 (omega arith) (omega arith)) (
        Ends-bind_at _ (rvm_map-Session names _ (omega arith) (omega arith)) (
          abort_run-Ends names _ (omega (arith, length-replicate {A = ℕ} 10000 0))
            (omega (arith, length-replicate {A = ℕ} 10000 0)) (omega arith))))

-- `at` is an address that `mmap` can return. Whatever files the process finds, the program ends with
-- exit code 0: after the abort both texts that it committed are in the segment's memory.
pub abort_main-passes :
    (at : ℕ) (s : Rvm)
    → at ≢ 0
    → at ≢ map_failed
    → (t : Rvm) × (abort_main at (restart s) ≡ done 0 t)
abort_main-passes at s z f =
    let names = testseg-Names at z f in
    let (a, t, ran, zero_code) =
      (abort_main-Ends at z f (found store_dir (testseg at) s)).at (restart s)
        (restart-Fresh names _ s (λ m b. refl)) in
    (t, ran ∙ ap (λ x. done x t) zero_code)
