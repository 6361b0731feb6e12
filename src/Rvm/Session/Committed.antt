-- ===== src/Rvm/Session/Committed.antt =====
-- project4/rvm.c: one mapped segment of a session is committed.
use cs6210proj.Prelude.{
  ℕ, ◌<◌, ◌≡◌, ap, sym, ◌∙◌, subst, refl, map, List, some, Bytes, codes, length, get_or, arith,
}
use cs6210proj.Rvm.State.{Range, Segment, Rvm, done, unused, segment_file, log_both}
use cs6210proj.Rvm.Table.{slot}
use cs6210proj.Rvm.Transaction.{recorded, write_segment, commit_entry}
use cs6210proj.Rvm.Ranges.{Within}
use cs6210proj.Rvm.Loops.{>>=-done}
use cs6210proj.Rvm.Commit.{write_segment-Wrote}
use cs6210proj.Rvm.Ends.{Runs}
use cs6210proj.Rvm.Session.{Entry, Contents, Names, Session}
use cs6210proj.Rvm.Session.Logs.{log_both-Session}
use cs6210proj.Rvm.Session.Change.{Session-changed}
use cs6210proj.Rvm.Session.View.{merge, length-merge, Merged-merge, commit, commit_ranges}

module _ {dir : Bytes} {n : ℕ} {segs : ℕ → Entry} (names : Names dir n segs) {k : ℕ} where
  -- Ranges of a segment of the session are written: those of its entry, or of one that has fewer.
  pub write_segment-part :
      (v : ℕ → Contents) (j : ℕ) (s : Rvm) (seg : Segment) (rs : List Range)
      → j < k
      → Session dir n segs k v s
      → seg.address ≡ (slot j s).address
      → seg.name ≡ (slot j s).name
      → seg.size ≡ (slot j s).size
      → recorded seg ≡ map some rs
      → Within (segs j).size rs
      → (t : Rvm) × (write_segment dir seg s ≡ done tt t)
        × Session dir n segs k (commit_ranges rs j v) t
  write_segment-part v j s seg rs l h same_address same_name same_size er inside =
      let e = h.each j l in
      let at : seg.address ≡ (segs j).at = same_address ∙ e.address in
      let size : seg.size ≡ (segs j).size = same_size ∙ e.size in
      let path : segment_file dir seg.name ≡ segment_file dir (segs j).name =
        ap (λ x. segment_file dir x) (same_name ∙ e.name) in
      let (f', t, ran, wrote, merged) =
        write_segment-Wrote dir seg s (ap s.memory at ∙ e.in_memory) (ap s.file path ∙ e.in_file)
          (e.memory_size ∙ sym size) (e.file_size ∙ sym size) rs er
          (subst (λ z. Within z rs) (sym size) inside) in
      let (in_file, memory, mapped, num_mapped, others) = wrote in
      let f : Bytes = merge rs (v j).bytes (v j).file in
      let same : f' ≡ f =
        Merged-merge rs (v j).bytes (v j).file f' (e.memory_size ∙ sym e.file_size) merged in
      let (c, log) = h.logged in
      let slots : (m : ℕ) → slot m t ≡ slot m s = λ m. ap (λ g. get_or g m unused) mapped in
      (
        t,
        ran,
        Session-changed names j (record (v j) { file = f }) l h
            (record {
              num_mapped = num_mapped;
              table = ap length mapped;
              slots = λ m q. slots m;
              memory = λ a q. ap (λ g. g a) memory;
              files = λ m b q.
                  others _ (λ x. q (names.files j m (omega (arith, h.bound)) b (sym path ∙ x)));
              logged =
                  (c, others _ (λ x. names.apart j (omega (arith, h.bound)) (sym x ∙ path)) ∙ log);
            })
            (rw (slots j) (record {
              address = e.address;
              name = e.name;
              size = e.size;
              count = e.count;
              array = e.array;
              announced = e.announced;
              inside = e.inside;
              in_memory = ap (λ g. g (segs j).at) memory ∙ e.in_memory;
              in_file = ap t.file (sym path) ∙ in_file ∙ ap some same;
              memory_size = e.memory_size;
              file_size = length-merge rs (v j).bytes (v j).file ∙ e.file_size;
            })),
      )

  write_segment-Session :
      (v : ℕ → Contents) (j : ℕ) (s : Rvm)
      → j < k
      → Session dir n segs k v s
      → (t : Rvm) × (write_segment dir (slot j s) s ≡ done tt t)
        × Session dir n segs k (commit j v) t
  write_segment-Session v j s l h =
      let e = h.each j l in
      write_segment-part v j s (slot j s) (v j).ranges l h refl refl refl e.announced e.inside

  pub commit_entry-Session :
      (v : ℕ → Contents) (j : ℕ)
      → j < k
      → Runs (Session dir n segs k v) (commit_entry dir j) (Session dir n segs k (commit j v))
  unfolding commit_entry
  commit_entry-Session v j l = record {
    at = λ s h.
        let (s₁, ran, h₁) = write_segment-Session v j s l h in
        let what : Bytes = codes "RVM_COMMITTRANS SEGMENT " in
        let (_, t, ran', h₂) =
          (log_both-Session names what j (omega (arith, h.bound)) (omega arith)).at s₁ h₁ in
        (
          tt,
          t,
          >>=-done (write_segment dir (slot j s)) _ ran
              ∙ (ap (λ x. log_both dir what x s₁) (h.each j l).name ∙ ran'),
          h₂,
        );
  }
