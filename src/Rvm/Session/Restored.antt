-- ===== src/Rvm/Session/Restored.antt =====
-- project4/rvm.c: one mapped segment of a session is restored.
use cs6210proj.Prelude.{
  ℕ, ◌<◌, ◌≡◌, ◌≢◌, refl, ap, sym, ◌∙◌, subst, ◌++◌, Bytes, codes, length, length-append, get_or,
  arith,
}
use cs6210proj.Rvm.State.{
  Segment, Rvm, done, unused, fits, store_log, segment_log, segment_file, newline, log_segment,
}
use cs6210proj.Rvm.Table.{slot}
use cs6210proj.Rvm.Transaction.{read_back, abort_entry}
use cs6210proj.Rvm.Loops.{>>=-done, fits-done, after_segment_log}
use cs6210proj.Rvm.Restore.{read_back-Restored}
use cs6210proj.Rvm.Ends.{Runs}
use cs6210proj.Rvm.Session.{Entry, Contents, Names, Holds, Session}
use cs6210proj.Rvm.Session.Logs.{Session-kept, after_segment_log-Keeps, log_rvm-Session}
use cs6210proj.Rvm.Session.Change.{Session-changed}
use cs6210proj.Rvm.Session.View.{restore}

module _ {dir : Bytes} {n : ℕ} {segs : ℕ → Entry} (names : Names dir n segs) {k : ℕ} where
  read_back-Session :
      (v : ℕ → Contents) (j : ℕ) (s : Rvm) (g : Segment)
      → j < k
      → Session dir n segs k v s
      → slot j s ≡ g
      → (t : Rvm) × (read_back (segment_file dir g.name) g s ≡ done tt t)
        × Session dir n segs k (restore j v) t
  read_back-Session v j s g l h same =
      let e : Holds dir (segs j) (v j) g s = rw same at (h.each j l) in
      let path : segment_file dir g.name ≡ segment_file dir (segs j).name =
        ap (λ x. segment_file dir x) e.name in
      let (t, ran, back) =
        read_back-Restored (segment_file dir g.name) g s (ap s.file path ∙ e.in_file)
          (ap s.memory e.address ∙ e.in_memory) (e.file_size ∙ sym e.size)
          (e.memory_size ∙ sym e.size) in
      let (restored, others, files, mapped, num_mapped) = back in
      let (c, log) = h.logged in
      let slots : (m : ℕ) → slot m t ≡ slot m s = λ m. ap (λ g. get_or g m unused) mapped in
      (
        t,
        ran,
        Session-changed names j (record (v j) { bytes = (v j).file }) l h
            (record {
              num_mapped = num_mapped;
              table = ap length mapped;
              slots = λ m q. slots m;
              memory = λ a q. others a (λ x. q (sym e.address ∙ x));
              files = λ m b q. ap (λ g. g (segment_file dir (segs m).name)) files;
              logged = (c, ap (λ g. g (store_log dir)) files ∙ log);
            })
            (rw (slots j, same)
              (record {
                address = e.address;
                name = e.name;
                size = e.size;
                count = e.count;
                array = e.array;
                announced = e.announced;
                inside = e.inside;
                in_memory = ap t.memory (sym e.address) ∙ restored;
                in_file = ap (λ g. g (segment_file dir (segs j).name)) files ∙ e.in_file;
                memory_size = e.file_size;
                file_size = e.file_size;
              })),
      )

  pub abort_entry-Session :
      (v : ℕ → Contents) (j : ℕ)
      → j < k
      → Runs (Session dir n segs k v) (abort_entry dir j) (Session dir n segs k (restore j v))
  unfolding abort_entry log_segment
  abort_entry-Session v j l = record {
    at = λ s h.
        let name : Bytes = (slot j s).name in
        let msg : Bytes = codes "RVM_ABORTTRANS " ++ (name ++ newline) in
        let same : name ≡ (segs j).name = (h.each j l).name in
        let s₁ : Rvm = after_segment_log dir name msg s in
        let (c, log) = h.logged in
        let h₁ : Session dir n segs k v s₁ = Session-kept h (
          after_segment_log-Keeps name msg
            (λ m b.
              subst (λ x. segment_log dir x ≢ segment_file dir (segs m).name) (sym same)
                (names.logs_apart j m (omega (arith, h.bound)) b))
            log) in
        let (s₂, ran₂, h₂) = read_back-Session v j s₁ (slot j s) l h₁ refl in
        let (_, t, ran₃, h₃) = (log_rvm-Session names (codes "RVM_ABORTTRANS \n")).at s₂ h₂ in
        let fit : length msg < 100 = omega (
          arith,
          names.short j (omega (arith, h.bound)),
          ap length same,
          length-append (codes "RVM_ABORTTRANS ") (name ++ newline),
          length-append name newline,
        ) in
        (
          tt,
          t,
          >>=-done (fits (length msg) 100) _ (fits-done (length msg) 100 s fit)
              ∙ (>>=-done (read_back (segment_file dir name) (slot j s)) _ ran₂ ∙ ran₃),
          h₃,
        );
  }
