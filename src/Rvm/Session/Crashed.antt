-- ===== src/Rvm/Session/Crashed.antt =====
-- project4/rvm.c: what the segments' files hold when the process ends within a commit.
use cs6210proj.Prelude.{
  ℕ, zero, suc, min, ◌<◌, ◌≡◌, refl, ap, ◌∙◌, Option, some, List, [], ◌∷◌, map, Bytes, take, arith,
}
use cs6210proj.Rvm.State.{Range, Segment, Rvm, done}
use cs6210proj.Rvm.Table.{slot, rounds, for_base}
use cs6210proj.Rvm.Transaction.{recorded, commit_entry}
use cs6210proj.Rvm.Crash.{write_some, commit_until, crashed_commit}
use cs6210proj.Rvm.Ranges.{Within}
use cs6210proj.Rvm.Loops.{>>=-done}
use cs6210proj.Rvm.Recovery.{restart}
use cs6210proj.Rvm.Ends.{Runs}
use cs6210proj.Rvm.Session.{Entry, Contents, Names, Session}
use cs6210proj.Rvm.Session.Change.{AllBelow, bases, for_base-Session}
use cs6210proj.Rvm.Session.View.{commit, commit_ranges}
use cs6210proj.Rvm.Session.Committed.{write_segment-part, commit_entry-Session}
use cs6210proj.Rvm.Session.Transactions.{on}
use cs6210proj.Rvm.Session.Start.{Fresh, Session-restart}

take-min {ℓ} : {A : Type ℓ} (r n : ℕ) (xs : List A) → take (min r n) xs ≡ take r (take n xs)
take-min zero n xs = let e : min 0 n ≡ 0 = omega arith in rw e refl
take-min (suc r) zero xs = let e : min (suc r) 0 ≡ 0 = omega arith in rw e refl
take-min (suc r) (suc n) [] = let e : min (suc r) (suc n) ≡ suc (min r n) = omega arith in rw e refl
take-min (suc r) (suc n) (x ∷ xs) =
    let e : min (suc r) (suc n) ≡ suc (min r n) = omega arith in rw e (ap (◌∷◌ x) (take-min r n xs))

take-map :
    (r : ℕ) (rs : List Range) → take r (map {B = Option Range} some rs) ≡ map some (take r rs)
take-map zero rs = refl
take-map (suc r) [] = refl
take-map (suc r) (x ∷ rs) = ap (◌∷◌ (some x)) (take-map r rs)

Within-take : (r size : ℕ) (rs : List Range) → Within size rs → Within size (take r rs)
Within-take zero size rs w = tt
Within-take (suc r) size [] w = tt
Within-take (suc r) size (x ∷ rs) w = (w.0, Within-take r size rs w.1)

-- `d` segments are committed, and of the next one the first `r` ranges are.
abbrev pub commit_some : ℕ → ℕ → List ℕ → (ℕ → Contents) → ℕ → Contents
commit_some d r [] v = v
commit_some zero r (j ∷ js) v = commit_ranges (take r (v j).ranges) j v
commit_some (suc d) r (j ∷ js) v = commit_some d r js (commit j v)

module _ {dir : Bytes} {n : ℕ} {segs : ℕ → Entry} (names : Names dir n segs) {k : ℕ} where
  write_some-Session :
      (v : ℕ → Contents) (r j : ℕ)
      → j < k
      → Runs
          (Session dir n segs k v)
          (write_some dir r j)
          (Session dir n segs k (commit_ranges (take r (v j).ranges) j v))
  unfolding write_some
  write_some-Session v r j l = record {
    at = λ s h.
        let e = h.each j l in
        let seg : Segment = slot j s in
        let fewer : recorded (record seg { num_ranges = min r seg.num_ranges })
            ≡ map some (take r (v j).ranges) =
          take-min r seg.num_ranges seg.ranges
          ∙ ap (take r) e.announced
          ∙ take-map r (v j).ranges in
        let (t, ran, after) =
          write_segment-part names v j s (record seg { num_ranges = min r seg.num_ranges })
            (take r (v j).ranges) l h refl refl refl fewer
            (Within-take r (segs j).size (v j).ranges e.inside) in
        (tt, t, ran, after);
  }

  commit_until-Session :
      (d r : ℕ) (js : List ℕ) (v : ℕ → Contents)
      → AllBelow k js
      → Runs
          (Session dir n segs k v)
          (commit_until dir d r (bases segs js))
          (Session dir n segs k (commit_some d r js v))
  unfolding commit_until
  commit_until-Session d r [] v l = record { at = λ s h. (tt, s, refl, h) }
  commit_until-Session zero r (j ∷ js) v l = record {
    at = λ s h.
        let (_, t, ran, after) = (write_some-Session v r j l.0).at s h in
        (tt, t, for_base-Session names (write_some dir r) j l.0 h ran after, after);
  }
  commit_until-Session (suc d) r (j ∷ js) v l = record {
    at = λ s h.
        let (_, t, ran, h') = (commit_entry-Session names v j l.0).at s h in
        let (_, u, ran', after) = (commit_until-Session d r js (commit j v) l.1).at t h' in
        (
          tt,
          u,
          >>=-done (for_base (rounds s.num_mapped) 0 (segs j).at (commit_entry dir)) _
                (for_base-Session names (commit_entry dir) j l.0 h ran h')
              ∙ ran',
          after,
        );
  }

-- The names and addresses are as `Names` says. A process with a session that ends within a commit, after
-- `d` segments and `r` ranges of the next one: a process that starts then finds those segments' files as the whole
-- commit makes them, in the next one's the first `r` ranges, and all others as they were.
pub crashed_commit-restart :
    {dir : Bytes} {n k : ℕ} {segs : ℕ → Entry} (names : Names dir n segs)
    → (js : List ℕ) (v : ℕ → Contents) (tid d r : ℕ) (s : Rvm) → AllBelow k js
    → Session dir n segs k v s
    → (t : Rvm) × (crashed_commit (on dir segs js tid) d r s ≡ done tt t)
      × Fresh names (commit_some d r js v) (restart t)
unfolding crashed_commit
crashed_commit-restart names js v tid d r s l h =
    let (_, t, ran, after) = (commit_until-Session names d r js v l).at s h in
    (t, ran, Session-restart names (commit_some d r js v) t after)
