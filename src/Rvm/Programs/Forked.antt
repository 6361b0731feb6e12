-- ===== src/Rvm/Programs/Forked.antt =====
-- project4/multi.c: the second process finds the texts that the first one committed before it ended.
use cs6210proj.Prelude.{
  ℕ, Bytes, Option, ◌<◌, ◌≡◌, refl, ap, sym, ◌∙◌, true, [], ◌∷◌, length, arith,
}
use cs6210proj.Rvm.State.{Rvm, done}
use cs6210proj.Rvm.Recovery.{restart}
use cs6210proj.Rvm.Ends.{Ends, Runs, Ends-bind_at}
use cs6210proj.Rvm.Session.{Contents, Names, Session}
use cs6210proj.Rvm.Session.Transactions.{rvm_commit_trans-Session}
use cs6210proj.Rvm.Session.Mapping.{rvm_map-Session}
use cs6210proj.Rvm.Session.Start.{Fresh, restart-Fresh, Session-restart, rvm_init-Session}
use cs6210proj.Rvm.Programs.Abort.{store_name}
use cs6210proj.Rvm.Programs.Pair.{
  pair, pair-Names, Addresses, emptied_pair, emptied-bytes, emptied-file, open_both-Ends,
  change_both-Ends,
}
use cs6210proj.Rvm.Programs.Multi.{string0, string1, multi_proc1, multi_proc2, multi_main}
use cs6210proj.Rvm.Session.Change.{each_of}
use cs6210proj.Rvm.Session.View.{announce, commit, length-merge}
use cs6210proj.Rvm.Programs.Texts.{put_in}
use cs6210proj.Rvm.Programs.Texts.{HasText, compare_text-Session, range}
use cs6210proj.Rvm.Programs.Shared.{store_dir, found, ok}
use cs6210proj.Rvm.Programs.Committed.{one-committed, HasText-pad}

-- The store that the first process leaves.
abbrev pub left : (ℕ → Contents) → ℕ → Contents
left v = each_of commit (0 ∷ 1 ∷ []) (
    put_in 100 string1 1
      (announce (range 100 100) 1 (put_in 10 string0 0 (announce (range 10 100) 0 v))))

-- What the second process needs of it.
record Written (w : ℕ → Contents) : Type 0 where
  pub size0 : length (w 0).file ≡ 1000
  pub size1 : length (w 1).file ≡ 1000
  pub text0 : HasText (w 0).file 10 string0
  pub text1 : HasText (w 1).file 100 string1

module _ {at : ℕ → ℕ} (names : Names store_dir 2 (pair at)) where
  left-Written :
      (v : ℕ → Contents)
      → ((m : ℕ) → m < 2 → length (v m).bytes ≡ 1000)
      → ((m : ℕ) → m < 2 → length (v m).file ≡ 1000)
      → Written (left v)
  left-Written v lb lf = record {
    size0 = length-merge _ _ (v 0).file ∙ lf 0 (omega arith);
    size1 = length-merge _ _ (v 1).file ∙ lf 1 (omega arith);
    text0 =
        one-committed string0 10 (v 0).bytes (v 0).file (v 0).ranges
          (omega (arith, lb 0 (omega arith))) (lb 0 (omega arith) ∙ sym (lf 0 (omega arith)))
          (omega arith);
    text1 =
        one-committed string1 100 (v 1).bytes (v 1).file (v 1).ranges
          (omega (arith, lb 1 (omega arith))) (lb 1 (omega arith) ∙ sym (lf 1 (omega arith)))
          (omega arith);
  }

  multi_proc1-Ends :
      (v : ℕ → Contents)
      → Runs
          (Fresh names v)
          (multi_proc1 at)
          (Session store_dir 2 (pair at) 2 (left (emptied_pair names v)))
  unfolding multi_proc1
  multi_proc1-Ends v =
      let few0 : length (emptied_pair names v 0).ranges ≡ 0 = refl in
      let few1 : length (emptied_pair names v 1).ranges ≡ 0 = refl in
      open_both-Ends names v _ (
        change_both-Ends names (emptied_pair names v) string0 string1 _ (omega arith) (omega arith)
          (omega arith) (omega arith)
          λ tid. rvm_commit_trans-Session names (0 ∷ 1 ∷ []) _ tid (omega arith, (omega arith, tt)))

  multi_proc2-Ends :
      (w : ℕ → Contents) → Written w → Ends (Fresh names w) (multi_proc2 at) (λ a t. a ≡ 0)
  unfolding multi_proc2
  multi_proc2-Ends w h = Ends-bind_at _ (rvm_init-Session names store_name w refl) (
      Ends-bind_at _ (rvm_map-Session names _ (omega arith) (omega (arith, h.size0))) (
        Ends-bind_at _ (rvm_map-Session names _ (omega arith) (omega (arith, h.size1))) (
          Ends-bind_at _
            (compare_text-Session names _ 0 10 string0 (omega arith)
              (HasText-pad (w 0).file 1000 10 string0 h.text0))
            (Ends-bind_at _
              (compare_text-Session names _ 1 100 string1 (omega arith)
                (HasText-pad (w 1).file 1000 100 string1 h.text1))
              ok))))

-- `at` and `at'` give two addresses each that `mmap` can return to the child and to the parent, and
-- `fork` succeeds. Whatever files the processes find, the program ends with exit code 0: the parent
-- reads both texts that the child committed before it aborted.
pub multi_main-passes :
    (crashed : Rvm → Bytes → Option Bytes) (at at' : ℕ → ℕ) (s : Rvm)
    → Addresses at
    → Addresses at'
    → (t : Rvm) × (multi_main true crashed at at' (restart s) ≡ done 0 t)
unfolding multi_main
multi_main-passes crashed at at' s a a' =
    let names = pair-Names at a in
    let names' = pair-Names at' a' in
    let v = found store_dir (pair at) s in
    let (_, t, ran, h) =
      (multi_proc1-Ends names v).at (restart s) (restart-Fresh names v s (λ m b. refl)) in
    let fresh = Session-restart names (left (emptied_pair names v)) t h in
    let (x, u, ran', zero_code) =
      (multi_proc2-Ends names' (left (emptied_pair names v)) (
          left-Written names (emptied_pair names v) (emptied-bytes names v)
            (emptied-file names v))).at
        (restart (record s { file = t.file }))
        (restart-Fresh names' (left (emptied_pair names v)) (record s { file = t.file })
          fresh.on_disk) in
    (u, rw ran (ran' ∙ ap (λ y. done y u) zero_code))
