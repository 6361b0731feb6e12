-- ===== src/Rvm/Crash.antt =====
-- project4/rvm.c: rvm_commit_trans in a process that does not survive it.
use cs6210proj.Prelude.{ℕ, zero, suc, min, List, [], ◌∷◌, Bytes}
use cs6210proj.Rvm.State.{Segment, Trans, done, M, ◌>>◌}
use cs6210proj.Rvm.Table.{rounds, slot, for_base}
use cs6210proj.Rvm.Transaction.{write_segment, commit_entry}

-- The first `r` of a segment's ranges are written, or all of them.
unfoldable pub write_some : Bytes → ℕ → ℕ → M (Unit {0})
write_some dir r j s =
    let seg : Segment = slot j s in
    write_segment dir (record seg { num_ranges = min r seg.num_ranges }) s

-- The loops of the commit: `d` segments are committed, and the process ends when `r` ranges of the next
-- one are written.
unfoldable pub commit_until : Bytes → ℕ → ℕ → List ℕ → M (Unit {0})
commit_until dir d r [] s = done tt s
commit_until dir zero r (base ∷ bases) s =
    for_base (rounds s.num_mapped) 0 base (write_some dir r) s
commit_until dir (suc d) r (base ∷ bases) s =
    (for_base (rounds s.num_mapped) 0 base (commit_entry dir) >> commit_until dir d r bases) s

unfoldable pub crashed_commit : Trans → ℕ → ℕ → M (Unit {0})
crashed_commit trans d r = commit_until trans.dir d r trans.segbases
