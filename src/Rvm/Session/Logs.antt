-- ===== src/Rvm/Session/Logs.antt =====
-- project4/rvm.c: the log entries leave a session as it is.
use cs6210proj.Prelude.{
  ℕ, ◌<◌, ◌≡◌, ◌≢◌, refl, ap, ◌∙◌, some, ◌++◌, Bytes, length, arith, eqb, eqb_refl, eqb-ne,
  Bool-cases, inl, inr,
}
use cs6210proj.Rvm.State.{
  Rvm, store_log, segment_log, segment_file, newline, log_rvm, log_segment, log_both, contents,
  null,
}
use cs6210proj.Rvm.Loops.{after_log, after_segment_log, after_logs, log_rvm-done, log_both-done}
use cs6210proj.Rvm.Ends.{Runs}
use cs6210proj.Rvm.Session.{Entry, Contents, Names, Session, Keeps}

module _ {dir : Bytes} {n : ℕ} {segs : ℕ → Entry} where
  pub Session-kept :
      {k : ℕ} {v : ℕ → Contents} {s t : Rvm}
      → Session dir n segs k v s
      → Keeps dir n segs s t
      → Session dir n segs k v t
  Session-kept {k} {v} {s} {t} h e = record {
    count = e.num_mapped ∙ h.count;
    bound = h.bound;
    table = ap length e.mapped ∙ h.table;
    null_free = ap (λ g. g null) e.memory ∙ h.null_free;
    logged = e.logged;
    blank = λ m l. rw e.mapped (h.blank m l);
    each = λ m l.
        let old = h.each m l in
        rw e.mapped (record {
          address = old.address;
          name = old.name;
          size = old.size;
          count = old.count;
          array = old.array;
          announced = old.announced;
          inside = old.inside;
          in_memory = ap (λ g. g (segs m).at) e.memory ∙ old.in_memory;
          in_file = e.files m (omega (arith, h.bound)) ∙ old.in_file;
          memory_size = old.memory_size;
          file_size = old.file_size;
        });
    on_disk = λ m l b. ap contents (e.files m b) ∙ h.on_disk m l b;
  }

  -- A log entry of a file that no segment has.
  pub after_log-Keeps :
      (msg : Bytes) {c : Bytes} {s : Rvm}
      → Names dir n segs
      → s.file (store_log dir) ≡ some c
      → Keeps dir n segs s (after_log dir msg s)
  after_log-Keeps msg {c} {s} names e = record {
    memory = refl;
    mapped = refl;
    num_mapped = refl;
    logged = (contents (s.file (store_log dir)) ++ msg, rw (eqb_refl (store_log dir)) refl);
    files = λ m h. rw (eqb-ne (store_log dir) _ (names.apart m h)) refl;
  }

  pub after_segment_log-Keeps :
      (name msg : Bytes) {c : Bytes} {s : Rvm}
      → ((m : ℕ) → m < n → segment_log dir name ≢ segment_file dir (segs m).name)
      → s.file (store_log dir) ≡ some c
      → Keeps dir n segs s (after_segment_log dir name msg s)
  after_segment_log-Keeps name msg {c} {s} apart e = record {
    memory = refl;
    mapped = refl;
    num_mapped = refl;
    logged = elim (Bool-cases (eqb (segment_log dir name) (store_log dir))) [
      | inl same ↦ (contents (s.file (segment_log dir name)) ++ msg, rw same)
      | inr other ↦ (c, rw other e)
    ];
    files = λ m h. rw (eqb-ne (segment_log dir name) _ (apart m h)) refl;
  }

  module _ (names : Names dir n segs) {k : ℕ} {v : ℕ → Contents} where
    pub log_rvm-Session :
        (msg : Bytes) → Runs (Session dir n segs k v) (log_rvm dir msg) (Session dir n segs k v)
    log_rvm-Session msg = record {
      at = λ s h.
          let (c, e) = h.logged in
          (
            tt,
            after_log dir msg s,
            log_rvm-done dir msg c s e,
            Session-kept h (after_log-Keeps msg names e),
          );
    }

    pub log_segment-Session :
        (msg : Bytes) (j : ℕ)
        → j < n
        → Runs (Session dir n segs k v) (log_segment dir (segs j).name msg) (Session dir n segs k v)
    unfolding log_segment
    log_segment-Session msg j l = record {
      at = λ s h.
          let (c, e) = h.logged in
          (
            tt,
            after_segment_log dir (segs j).name msg s,
            refl,
            Session-kept h
                (after_segment_log-Keeps (segs j).name msg (λ m b. names.logs_apart j m l b) e),
          );
    }

    pub log_both-Session :
        (what : Bytes) (j : ℕ)
        → j < n
        → length what < 25
        → Runs (Session dir n segs k v) (log_both dir what (segs j).name) (Session dir n segs k v)
    log_both-Session what j l w = record {
      at = λ s h.
          let (c, e) = h.logged in
          let msg : Bytes = what ++ ((segs j).name ++ newline) in
          let first = Session-kept h (after_log-Keeps msg names e) in
          let (c', e') = first.logged in
          (
            tt,
            after_logs dir (segs j).name msg s,
            log_both-done dir what (segs j).name c s e (omega (arith, names.short j l)),
            Session-kept first
                (after_segment_log-Keeps (segs j).name msg (λ m b. names.logs_apart j m l b) e'),
          );
    }
