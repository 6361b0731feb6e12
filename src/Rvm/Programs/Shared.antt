-- ===== src/Rvm/Programs/Shared.antt =====
-- project4: what the proofs of the sample programs share.
use cs6210proj.Prelude.{
  ℕ, ◌<◌, ◌≡◌, ◌≢◌, refl, ap, sym, ◌∙◌, subst, [], ◌++◌, Bytes, codes, length, arith,
}
use cs6210proj.Rvm.State.{Rvm, done, pure, contents, segment_file, ◌>>◌}
use cs6210proj.Rvm.Mapping.{rvm_unmap}
use cs6210proj.Rvm.Unmapping.{rvm_unmap-removes}
use cs6210proj.Rvm.Ends.{Ends, Runs}
use cs6210proj.Rvm.Session.{Entry, Contents, Names, Session}
use cs6210proj.Rvm.Session.Change.{Session-IsTable}
use cs6210proj.Rvm.Programs.{print}

abbrev pub store_dir : Bytes
store_dir = codes "rvm_segments/"

-- What the disk holds of a store's segments.
abbrev pub found : Bytes → (ℕ → Entry) → Rvm → ℕ → Contents
found dir segs s m = record {
  bytes = [];
  file = contents (s.file (segment_file dir (segs m).name));
  ranges = [];
}

pub ok : {P : Rvm → Type 0} → Ends {A = ℕ} P (print (codes "OK\n") >> pure 0) (λ a t. a ≡ 0)
ok = record { at = λ s p. (0, record s { output = s.output ++ codes "OK\n" }, refl, refl) }

pub rvm_unmap-ends :
    {dir : Bytes} {n k : ℕ} {segs : ℕ → Entry} {v : ℕ → Contents}
    → Names dir n segs
    → (j : ℕ) → j < k
    → (segs j).size ≢ 0
    → Runs (Session dir n segs k v) (rvm_unmap dir (segs j).at) (λ t. Unit)
rvm_unmap-ends {dir} {n} {k} {segs} names j l z = record {
  at = λ s h.
      let e = h.each j l in
      let (c, log) = h.logged in
      let (t, ran, _, _, _, _) =
        rvm_unmap-removes dir c k j s (Session-IsTable names h) l (λ q. z (sym e.size ∙ q)) log
          (omega (arith, names.short j (omega (arith, h.bound)), ap length e.name)) in
      (tt, t, subst (λ b. rvm_unmap dir b s ≡ done tt t) e.address ran, tt);
}
