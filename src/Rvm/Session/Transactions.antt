-- ===== src/Rvm/Session/Transactions.antt =====
-- project4/rvm.c: the calls of a transaction, on a session of any number of segments.
use cs6210proj.Prelude.{ℕ, ◌+◌, ◌≡◌, refl, subst, List, [], ◌∷◌, Bytes}
use cs6210proj.Rvm.State.{Trans, Rvm}
use cs6210proj.Rvm.Transaction.{
  begin_entry, rvm_begin_trans, for_bases, rvm_commit_trans, commit_entry, rvm_abort_trans,
  abort_entry,
}
use cs6210proj.Rvm.Loops.{>>=-done}
use cs6210proj.Rvm.Ends.{Ends, Runs}
use cs6210proj.Rvm.Session.{Entry, Contents, Names, Session}
use cs6210proj.Rvm.Session.Logs.{Session-kept}
use cs6210proj.Rvm.Session.Change.{AllBelow, each_of, bases, for_bases-Session}
use cs6210proj.Rvm.Session.Announced.{begin_entry-Session}
use cs6210proj.Rvm.Session.Committed.{commit_entry-Session}
use cs6210proj.Rvm.Session.Restored.{abort_entry-Session}
use cs6210proj.Rvm.Session.View.{commit, restore}

pub each_of-same : (js : List ℕ) (v : ℕ → Contents) → each_of (λ j w. w) js v ≡ v
each_of-same [] v = refl
each_of-same (j ∷ js) v = each_of-same js v

-- The transaction on these segments, under its number.
abbrev pub on : Bytes → (ℕ → Entry) → List ℕ → ℕ → Trans
on dir segs js tid = record { segbases = bases segs js; tid = tid; dir = dir }

module _ {dir : Bytes} {n : ℕ} {segs : ℕ → Entry} (names : Names dir n segs) {k : ℕ} where
  -- A transaction begins on mapped segments of a session, listed in any order and as often as one likes:
  -- the call returns a transaction of these segments, and memory, files and announced ranges stay.
  pub rvm_begin_trans-Session :
      (js : List ℕ) (v : ℕ → Contents)
      → AllBelow k js
      → Ends
          (Session dir n segs k v)
          (rvm_begin_trans dir (bases segs js))
          (λ trans t. ((tid : ℕ) × (trans ≡ on dir segs js tid)) × Session dir n segs k v t)
  unfolding rvm_begin_trans
  rvm_begin_trans-Session js v l = record {
    at = λ s h.
        let (c, log) = h.logged in
        let next : Rvm = record s { tid = s.tid + 1 } in
        let h₁ : Session dir n segs k v next = Session-kept h (record {
          memory = refl;
          mapped = refl;
          num_mapped = refl;
          logged = (c, log);
          files = λ m b. refl;
        }) in
        let (_, t, ran, h₂) =
          (for_bases-Session names (begin_entry dir) (λ j w. w) (begin_entry-Session names) js v
              l).at
            next h₁ in
        (
          on dir segs js s.tid,
          t,
          >>=-done (for_bases (bases segs js) (begin_entry dir)) _ ran,
          ((s.tid, refl), subst (λ w. Session dir n segs k w t) (each_of-same js v) h₂),
        );
  }

  -- The commit of a transaction on mapped segments of a session ends: each segment's file holds what
  -- `merge` makes of its mapping and its old file, and all else stays.
  pub rvm_commit_trans-Session :
      (js : List ℕ) (v : ℕ → Contents) (tid : ℕ)
      → AllBelow k js
      → Runs
          (Session dir n segs k v)
          (rvm_commit_trans (on dir segs js tid))
          (Session dir n segs k (each_of commit js v))
  unfolding rvm_commit_trans
  rvm_commit_trans-Session js v tid l =
      for_bases-Session names (commit_entry dir) commit (commit_entry-Session names) js v l

  -- The abort of a transaction on mapped segments of a session ends: each segment's mapping holds its
  -- file again, and all else stays.
  pub rvm_abort_trans-Session :
      (js : List ℕ) (v : ℕ → Contents) (tid : ℕ)
      → AllBelow k js
      → Runs
          (Session dir n segs k v)
          (rvm_abort_trans (on dir segs js tid))
          (Session dir n segs k (each_of restore js v))
  unfolding rvm_abort_trans
  rvm_abort_trans-Session js v tid l =
      for_bases-Session names (abort_entry dir) restore (abort_entry-Session names) js v l
