-- ===== src/Rvm/Programs/Pair.antt =====
-- project4/multi.c, project4/multi-abort.c: the programs find the texts that they committed to two
-- segments.
use cs6210proj.Prelude.{
  ℕ, zero, suc, ◌<◌, ◌≡◌, ◌≢◌, refl, ap, sym, ◌∙◌, List, [], ◌∷◌, Bytes, codes, length, get_or,
  arith, print_int, length-replicate, length-append,
}
use cs6210proj.Rvm.State.{Trans, Rvm, M, done, segment_file, map_failed, ◌>>=◌, ◌>>◌}
use cs6210proj.Rvm.Transaction.{rvm_begin_trans, rvm_about_to_modify}
use cs6210proj.Rvm.Mapping.{rvm_init, rvm_map, rvm_destroy}
use cs6210proj.Rvm.Recovery.{restart}
use cs6210proj.Rvm.Ends.{Ends, Ends-bind_at, Ends-bind_of, Ends-then}
use cs6210proj.Rvm.Session.{Entry, Contents, Names, Session}
use cs6210proj.Rvm.Session.Transactions.{
  on, rvm_begin_trans-Session, rvm_commit_trans-Session, rvm_abort_trans-Session,
}
use cs6210proj.Rvm.Session.Mapping.{rvm_map-Session}
use cs6210proj.Rvm.Session.Start.{Fresh, restart-Fresh, rvm_init-Session, rvm_destroy-Session}
use cs6210proj.Rvm.Session.View.{announce, opened, destroyed}
use cs6210proj.Rvm.Programs.Abort.{
  store_name, multi_abort_run, good_string, bad_string, multi_abort_main, segname0, segname1,
}
use cs6210proj.Rvm.Programs.Texts.{compare_text-Session, change-Ends, put_in, range}
use cs6210proj.Rvm.Programs.{put_text}
use cs6210proj.Rvm.Programs.Shared.{store_dir, found, ok}
use cs6210proj.Rvm.Programs.Committed.{one-committed}

abbrev pub pair_name : ℕ → Bytes
pair_name zero = segname0
pair_name (suc m) = segname1

abbrev pub pair : (ℕ → ℕ) → ℕ → Entry
pair at m = record { at = at m; name = pair_name m; size = 1000 }

-- Two addresses that `mmap` can return.
pub record Addresses (at : ℕ → ℕ) : Type 0 where
  pub apart : at 0 ≢ at 1
  pub not_null : (m : ℕ) → at m ≢ 0
  pub succeeds : (m : ℕ) → at m ≢ map_failed

length-pair_name : (m : ℕ) → length (pair_name m) ≡ 8
length-pair_name zero = refl
length-pair_name (suc m) = refl

pair-one {ℓ} : {A : Type ℓ} (f : ℕ → A) (m k : ℕ) → m < 2 → k < 2 → f 0 ≢ f 1 → f m ≡ f k → m ≡ k
pair-one f zero zero b c h e = refl
pair-one f zero (suc zero) b c h e = absurd (h e)
pair-one f (suc zero) zero b c h e = absurd (h (sym e))
pair-one f (suc zero) (suc zero) b c h e = refl
pair-one f (suc (suc m)) k b c h e = absurd (omega arith)
pair-one f zero (suc (suc k)) b c h e = absurd (omega arith)
pair-one f (suc zero) (suc (suc k)) b c h e = absurd (omega arith)

pub pair-Names : (at : ℕ → ℕ) → Addresses at → Names store_dir 2 (pair at)
pair-Names at a = record {
  room = omega arith;
  addresses = λ m k b c e. pair-one at m k b c a.apart e;
  names = λ m k b c e. pair-one pair_name m k b c (λ q. omega (arith, ap (λ x. get_or x 7 0) q)) e;
  files = λ m k b c e.
      pair-one (λ x. segment_file store_dir (pair_name x)) m k b c
        (λ q. omega (arith, ap (λ x. get_or x 20 0) q)) e;
  apart = λ m b e. omega (arith, ap length e, length-pair_name m);
  list_apart = λ m b e. omega (arith, ap length e, length-pair_name m);
  own_log = λ m b e.
      omega (arith, ap length e, length-pair_name m, length-append (pair_name m) (codes ".log"));
  logs_apart = λ m k b c e. omega (
    arith,
    ap length e,
    length-pair_name m,
    length-pair_name k,
    length-append (pair_name m) (codes ".log"),
  );
  short = λ m b. omega (arith, length-pair_name m);
  paths = λ m b. omega (arith, length-pair_name m);
  log_short = omega arith;
  list_short = omega arith;
  not_null = λ m b. a.not_null m;
  succeeds = λ m b. a.succeeds m;
}

module _ {at : ℕ → ℕ} (names : Names store_dir 2 (pair at)) where
  abbrev pub js : List ℕ
  js = 0 ∷ 1 ∷ []

  pub begin :
      (w : ℕ → Contents)
      → Ends
          (Session store_dir 2 (pair at) 2 w)
          (rvm_begin_trans store_dir (at 0 ∷ at 1 ∷ []))
          (λ trans t.
            ((tid : ℕ) × (trans ≡ on store_dir (pair at) js tid))
            × Session store_dir 2 (pair at) 2 w t)
  begin w = rvm_begin_trans-Session names js w (omega arith, (omega arith, tt))

  -- The two texts are announced and written.
  abbrev pub both_put : Bytes → Bytes → (ℕ → Contents) → ℕ → Contents
  both_put text0 text1 w =
      put_in 100 text1 1
        (announce (range 100 100) 1 (put_in 10 text0 0 (announce (range 10 100) 0 w)))

  pub change_both-Ends :
      {A : Type 0} {R : A → Rvm → Type 0} (w : ℕ → Contents) (text0 text1 : Bytes)
      (rest : Trans → M A)
      → length (w 0).ranges < 10
      → length (w 1).ranges < 10
      → length text0 < 100
      → length text1 < 100
      → ((tid : ℕ)
          → Ends
              (Session store_dir 2 (pair at) 2 (both_put text0 text1 w))
              (rest (on store_dir (pair at) js tid))
              R)
      → Ends
          (Session store_dir 2 (pair at) 2 w)
          (rvm_begin_trans store_dir (at 0 ∷ at 1 ∷ []) >>= λ trans.
            rvm_about_to_modify trans (at 0) 10 100
            >> (put_text (at 0) 10 text0
                >> (rvm_about_to_modify trans (at 1) 100 100
                    >> (put_text (at 1) 100 text1 >> rest trans))))
          R
  unfolding print_int
  change_both-Ends w text0 text1 rest few0 few1 short0 short1 after =
      Ends-bind_of (on store_dir (pair at) js) _ (begin w) λ tid.
        change-Ends names 0 10 100 text0 js tid (omega arith) few0 (omega arith) (omega arith)
          short0
          (change-Ends names 1 100 100 text1 js tid (omega arith) few1 (omega arith) (omega arith)
            short1 (after tid))

  multi_abort_run-Ends :
      (v : ℕ → Contents)
      → ((m : ℕ) → m < 2 → length (v m).bytes ≡ 1000)
      → ((m : ℕ) → m < 2 → length (v m).file ≡ 1000)
      → ((m : ℕ) → m < 2 → (v m).ranges ≡ [])
      → Ends
          (Session store_dir 2 (pair at) 2 v)
          (multi_abort_run store_dir (at 0) (at 1))
          (λ a t. a ≡ 0)
  unfolding multi_abort_run
  multi_abort_run-Ends v lb lf none_yet =
      let lb0 = lb 0 (omega arith) in
      let lb1 = lb 1 (omega arith) in
      let lf0 = lf 0 (omega arith) in
      let lf1 = lf 1 (omega arith) in
      let r0 : length (v 0).ranges ≡ 0 = ap length (none_yet 0 (omega arith)) in
      let r1 : length (v 1).ranges ≡ 0 = ap length (none_yet 1 (omega arith)) in
      let text0 =
        one-committed good_string 10 (v 0).bytes (v 0).file (v 0).ranges (omega arith)
          (lb0 ∙ sym lf0) (omega arith) in
      let text1 =
        one-committed good_string 100 (v 1).bytes (v 1).file (v 1).ranges (omega arith)
          (lb1 ∙ sym lf1) (omega arith) in
      change_both-Ends v good_string good_string _ (omega arith) (omega arith) (omega arith)
        (omega arith)
        λ tid.
          Ends-then (rvm_commit_trans-Session names js _ tid (omega arith, (omega arith, tt))) (
            change_both-Ends _ bad_string bad_string _
              (omega (arith, length-append (v 0).ranges (range 10 100 ∷ [])))
              (omega (arith, length-append (v 1).ranges (range 100 100 ∷ []))) (omega arith)
              (omega arith)
              λ tid'.
                Ends-then (rvm_abort_trans-Session names js _ tid' (omega arith, (omega arith, tt)))
                  (Ends-bind_at _
                    (compare_text-Session names _ 0 10 good_string (omega arith) text0)
                    (Ends-bind_at _
                      (compare_text-Session names _ 1 100 good_string (omega arith) text1) ok)))

  -- The store that rvm_destroy and rvm_map of both segments leave.
  abbrev pub emptied_pair : (ℕ → Contents) → ℕ → Contents
  emptied_pair v = opened 1000 1 (opened 1000 0 (destroyed 1 (destroyed 0 v)))

  pub emptied-bytes : (v : ℕ → Contents) (m : ℕ) → m < 2 → length (emptied_pair v m).bytes ≡ 1000
  emptied-bytes v zero l = length-replicate {A = ℕ} 1000 0
  emptied-bytes v (suc zero) l = length-replicate {A = ℕ} 1000 0
  emptied-bytes v (suc (suc m)) l = absurd (omega arith)

  pub emptied-file : (v : ℕ → Contents) (m : ℕ) → m < 2 → length (emptied_pair v m).file ≡ 1000
  emptied-file v zero l = length-replicate {A = ℕ} 1000 0
  emptied-file v (suc zero) l = length-replicate {A = ℕ} 1000 0
  emptied-file v (suc (suc m)) l = absurd (omega arith)

  pub emptied-ranges : (v : ℕ → Contents) (m : ℕ) → m < 2 → (emptied_pair v m).ranges ≡ []
  emptied-ranges v zero l = refl
  emptied-ranges v (suc zero) l = refl
  emptied-ranges v (suc (suc m)) l = absurd (omega arith)

  -- A program that opens the store, removes both segments and maps them.
  pub open_both-Ends :
      {A : Type 0} {R : A → Rvm → Type 0} (v : ℕ → Contents) (run : Bytes → ℕ → ℕ → M A)
      → Ends (Session store_dir 2 (pair at) 2 (emptied_pair v)) (run store_dir (at 0) (at 1)) R
      → Ends
          (Fresh names v)
          (rvm_init store_name >>= λ rvm.
            rvm_destroy rvm segname0
            >> (rvm_destroy rvm segname1
                >> (rvm_map rvm segname0 1000 (at 0) >>= λ seg0.
                    rvm_map rvm segname1 1000 (at 1) >>= λ seg1. run rvm seg0 seg1)))
          R
  open_both-Ends v run after = Ends-bind_at _ (rvm_init-Session names store_name v refl) (
      Ends-then (rvm_destroy-Session names v 0 (omega arith) (omega arith)) (
        Ends-then (rvm_destroy-Session names _ 1 (omega arith) (omega arith)) (
          Ends-bind_at _ (rvm_map-Session names _ (omega arith) (omega arith))
            (Ends-bind_at _ (rvm_map-Session names _ (omega arith) (omega arith)) after))))

  multi_abort_main-Ends :
      (v : ℕ → Contents) → Ends (Fresh names v) (multi_abort_main at) (λ a t. a ≡ 0)
  unfolding multi_abort_main
  multi_abort_main-Ends v =
      open_both-Ends v multi_abort_run (
        multi_abort_run-Ends (emptied_pair v) (emptied-bytes v) (emptied-file v) (emptied-ranges v))

-- `at` gives two addresses that `mmap` can return. Whatever files the process finds, the program ends
-- with exit code 0: after the abort the text that it committed is in the memory of either segment.
pub multi_abort_main-passes :
    (at : ℕ → ℕ) (s : Rvm) → Addresses at → (t : Rvm) × (multi_abort_main at (restart s) ≡ done 0 t)
multi_abort_main-passes at s a =
    let names = pair-Names at a in
    let (x, t, ran, zero_code) =
      (multi_abort_main-Ends names (found store_dir (pair at) s)).at (restart s)
        (restart-Fresh names _ s (λ m b. refl)) in
    (t, ran ∙ ap (λ y. done y t) zero_code)
