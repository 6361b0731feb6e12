-- ===== src/Rvm/Session/Refinement.antt =====
-- project4/rvm.c: the calls implement a store of byte strings: a commit merges, an abort restores, a
-- mapping opens a file and a removal empties it.
use cs6210proj.Prelude.{ℕ, ◌+◌, ◌≤◌, ◌<◌, ◌≡◌, ◌∙◌, ap, List, Bytes, length}
use cs6210proj.Rvm.State.{Rvm, done}
use cs6210proj.Rvm.Mapping.{rvm_map, rvm_destroy}
use cs6210proj.Rvm.Transaction.{rvm_commit_trans, rvm_abort_trans}
use cs6210proj.Rvm.Session.{Entry, Contents, Names, Session}
use cs6210proj.Rvm.Session.Change.{AllBelow, each_of}
use cs6210proj.Rvm.Session.View.{commit, restore, opened, destroyed}
use cs6210proj.Rvm.Session.Transactions.{on, rvm_commit_trans-Session, rvm_abort_trans-Session}
use cs6210proj.Rvm.Session.Mapping.{rvm_map-Session}
use cs6210proj.Rvm.Session.Start.{rvm_destroy-Session}

-- The names and addresses are as `Names` says. A commit of a transaction on mapped segments of a session, listed in any order, ends, and the session
-- goes on: the file of each of these segments has the mapping's bytes where a range is announced and
-- its own elsewhere, and the mappings, the ranges and the other segments are as before.
pub rvm_commit_trans-refines :
    {dir : Bytes} {n k : ℕ} {segs : ℕ → Entry}
    → Names dir n segs
    → (js : List ℕ) (v : ℕ → Contents) (tid : ℕ) (s : Rvm) → AllBelow k js
    → Session dir n segs k v s
    → (t : Rvm) × (rvm_commit_trans (on dir segs js tid) s ≡ done tt t)
      × Session dir n segs k (each_of commit js v) t
rvm_commit_trans-refines names js v tid s l h =
    let (_, t, ran, after) = (rvm_commit_trans-Session names js v tid l).at s h in (t, ran, after)

-- The names and addresses are as `Names` says. An abort of a transaction on mapped segments of a session, listed in any order, ends, and the session
-- goes on: the mapping of each of these segments has the bytes of its file, and the files, the ranges
-- and the other segments are as before.
pub rvm_abort_trans-refines :
    {dir : Bytes} {n k : ℕ} {segs : ℕ → Entry}
    → Names dir n segs
    → (js : List ℕ) (v : ℕ → Contents) (tid : ℕ) (s : Rvm) → AllBelow k js
    → Session dir n segs k v s
    → (t : Rvm) × (rvm_abort_trans (on dir segs js tid) s ≡ done tt t)
      × Session dir n segs k (each_of restore js v) t
rvm_abort_trans-refines names js v tid s l h =
    let (_, t, ran, after) = (rvm_abort_trans-Session names js v tid l).at s h in (t, ran, after)

-- The names and addresses are as `Names` says. The next segment of a session, whose file is no larger than the size asked for, is mapped at the
-- address of mmap, and the session has one segment more: mapping and file hold the file's bytes with
-- zeros behind them, no range is announced, and the other segments are as before.
pub rvm_map-refines :
    {dir : Bytes} {n k : ℕ} {segs : ℕ → Entry}
    → Names dir n segs
    → (v : ℕ → Contents) (s : Rvm) → k < n
    → length (v k).file ≤ (segs k).size
    → Session dir n segs k v s
    → (t : Rvm) × (rvm_map dir (segs k).name (segs k).size (segs k).at s ≡ done (segs k).at t)
      × Session dir n segs (k + 1) (opened (segs k).size k v) t
rvm_map-refines names v s l small h =
    let (a, t, ran, (e, after)) = (rvm_map-Session names v l small).at s h in
    (t, ran ∙ ap (λ x. done x t) e, after)

-- The names and addresses are as `Names` says. The removal of a segment of the store that is not mapped ends, and the session goes on: the segment's
-- file is empty for the next rvm_map, and the other segments are as before.
pub rvm_destroy-refines :
    {dir : Bytes} {n k : ℕ} {segs : ℕ → Entry}
    → Names dir n segs
    → (v : ℕ → Contents) (j : ℕ) (s : Rvm) → k ≤ j
    → j < n
    → Session dir n segs k v s
    → (t : Rvm) × (rvm_destroy dir (segs j).name s ≡ done tt t)
      × Session dir n segs k (destroyed j v) t
rvm_destroy-refines names v j s lo l h =
    let (_, t, ran, after) = (rvm_destroy-Session names v j lo l).at s h in (t, ran, after)
