-- ===== src/Rvm/Programs/Exceeded.antt =====
-- project4/maxsegments.c: thirty segments are kept, and the thirty-first is not mapped.
use cs6210proj.Prelude.{
  ℕ, zero, suc, ◌+◌, ◌≤◌, ◌<◌, ◌≡◌, ◌≢◌, refl, ap, sym, ◌∙◌, subst, true, none, List, Bytes, length,
  set, arith, ==-ne, ==-refl,
}
use cs6210proj.Rvm.State.{Rvm, M, done, fault, null, contents, segment_file, ◌>>=◌}
use cs6210proj.Rvm.Mapping.{rvm_init, pad}
use cs6210proj.Rvm.Loops.{>>=-fault}
use cs6210proj.Rvm.Recovery.{restart}
use cs6210proj.Rvm.Ends.{
  Ends, Ends-bind_at, Leads, Leads-then, Leads-bind_at, Leads-bind_of, Leads-chain, Leads-here,
}
use cs6210proj.Rvm.Session.{Contents, Names, Session}
use cs6210proj.Rvm.Session.View.{opened}
use cs6210proj.Rvm.Session.Mapping.{rvm_map-Session}
use cs6210proj.Rvm.Session.Start.{Fresh, restart-Fresh, Session-restart, rvm_init-Session}
use cs6210proj.Rvm.Session.Listed.{begin_listed-Session}
use cs6210proj.Rvm.Session.Full.{full-Session, modify_missed-Session, destroy_other-Session}
use cs6210proj.Rvm.Programs.{put_text}
use cs6210proj.Rvm.Programs.Abort.{store_name}
use cs6210proj.Rvm.Programs.Texts.{HasText, compare_text-Session}
use cs6210proj.Rvm.Programs.Committed.{HasText-pad}
use cs6210proj.Rvm.Programs.Shared.{store_dir, found, ok}
use cs6210proj.Rvm.Programs.Limits.{
  max_rounds, max_checks, max_proc1, max_proc2, max_main, test_string, seg_name,
}
use cs6210proj.Rvm.Programs.Named.{
  max_segs, AreAddresses, max-Names, seg_name-short, files-apart, logs-apart, log-apart,
  own_log-apart, length-log,
}
use cs6210proj.Rvm.Programs.Rounds.{HasBoth}
use cs6210proj.Rvm.Programs.Maximum.{IsRound, rounds-Leads}

abbrev faulty : {A : Type 0} → M A
faulty s = fault

put_text-null :
    (offset : ℕ) (text : Bytes) (s : Rvm)
    → s.memory null ≡ none
    → put_text null offset text s ≡ fault
unfolding put_text
put_text-null offset text s e = rw (e, put_text) refl

-- Before the second process maps segment `i`: those from there on have both texts in their files.
record IsOpen {at : ℕ → ℕ} (names : Names store_dir 30 (max_segs at)) (i : ℕ) (s : Rvm)
    : Type 0 where
  pub contents : ℕ → Contents
  pub session : Session store_dir 30 (max_segs at) i contents s
  pub texts : (m : ℕ) → i ≤ m → m < 30 → HasBoth (contents m).file

module _ {at : ℕ → ℕ} (names : Names store_dir 30 (max_segs at)) where
  start-Leads :
      (v : ℕ → Contents) (total more : ℕ) (segs : List ℕ)
      → total ≡ 30 + more
      → length segs ≡ 31
      → (segs' : List ℕ) × Leads
          (Fresh names v)
          (rvm_init store_name >>= λ rvm. max_rounds at rvm total 0 segs)
          (IsRound names 30)
          (max_rounds at store_dir more 30 segs')
  start-Leads v total more segs e len =
      let (segs', _, rounds) = rounds-Leads names 30 total more 0 segs e refl len in
      let begun : Leads (Session store_dir 30 (max_segs at) 0 v)
          (max_rounds at store_dir total 0 segs) (IsRound names 0)
          (max_rounds at store_dir total 0 segs) =
        Leads-here (λ s h. record {
          contents = v;
          session = h;
          ready = λ m b. absurd (omega arith);
          written = λ m b. absurd (omega arith);
        }) in
      (segs', Leads-bind_at _ (rvm_init-Session names store_name v refl) (Leads-chain begun rounds))

  last-Session :
      (segs : List ℕ) (v : ℕ → Contents)
      → Leads
          (Session store_dir 30 (max_segs at) 30 v)
          (max_rounds at store_dir 1 30 segs)
          (λ t. Unit)
          faulty
  unfolding max_rounds
  last-Session segs v =
      let short = seg_name-short 30 (omega arith) in
      Leads-then
        (destroy_other-Session names v (seg_name 30)
          (λ m b e. omega (arith, files-apart 30 m (omega arith) (omega arith) e))
          (λ m b. logs-apart 30 m (omega arith) (omega arith)) (λ e. log-apart 30 (sym e))
          (own_log-apart 30 (omega arith)) (omega (arith, short))
          (omega (arith, short, length-log 30)))
        (Leads-bind_at _ (full-Session names v (seg_name 30) 10000 (at 30)) (
          Leads-bind_of (λ tid. record { segbases = set segs 30 null; tid = tid; dir = store_dir })
            _ (begin_listed-Session names (set segs 30 null) v)
            λ tid.
              Leads-then (modify_missed-Session names v _ null 0 100 (λ m b. names.not_null m b))
                (record {
                  at = λ s h. (
                    s,
                    >>=-fault (put_text null 0 test_string) _
                        (put_text-null 0 test_string s h.null_free),
                    tt,
                  );
                })))

  -- The round of the thirty-first segment.
  last-Leads :
      (segs : List ℕ)
      → Leads (IsRound names 30) (max_rounds at store_dir 1 30 segs) (λ t. Unit) faulty
  last-Leads segs = record { at = λ s r. (last-Session segs r.contents).at s r.session }

  opened-file : (i : ℕ) (v : ℕ → Contents) (m : ℕ) → i ≢ m → opened 10000 i v m ≡ v m
  opened-file i v m e = rw (==-ne i m e) refl

  opened-bytes : (z i : ℕ) (v : ℕ → Contents) → (opened z i v i).bytes ≡ pad (v i).file z
  opened-bytes z i v = rw (==-refl i) refl

  checks-Ends :
      (left total i : ℕ)
      → total ≡ suc left
      → i + left ≡ 30
      → Ends (IsOpen names i) (max_checks at store_dir total i) (λ a t. a ≡ 0)
  unfolding max_checks
  checks-Ends left zero i e e' = absurd (omega arith)
  checks-Ends zero (suc total) i e e' =
      let last : i ≡ 30 = omega arith in
      rw last (record {
        at = λ s r.
            (Ends-bind_at _ (full-Session names r.contents (seg_name 30) 10000 (at 30)) ok).at s
              r.session;
      })
  checks-Ends (suc left) (suc total) i e e' =
      let before : i ≢ 30 = omega arith in
      record {
        at = λ s r.
            let v = r.contents in
            let text = r.texts i (omega arith) (omega arith) in
            let bytes = opened-bytes 10000 i v in
            let run : Ends (Session store_dir 30 (max_segs at) i v)
                (max_checks at store_dir (suc total) i) (λ a t. a ≡ 0) =
              Ends-bind_at _ (rvm_map-Session names v (omega arith) (omega (arith, text.size))) (
                rw (==-ne i 30 before) (
                  Ends-bind_at _
                    (compare_text-Session names (opened 10000 i v) i 0 test_string (omega arith) (
                      subst (λ b. HasText b 0 test_string) (sym bytes)
                        (HasText-pad (v i).file 10000 0 test_string text.near)))
                    (Ends-bind_at _
                      (compare_text-Session names (opened 10000 i v) i 1000 test_string
                        (omega arith)
                        (subst (λ b. HasText b 1000 test_string) (sym bytes)
                          (HasText-pad (v i).file 10000 1000 test_string text.far)))
                      (record {
                        at = λ t h.
                            (checks-Ends left total (i + 1) (omega arith) (omega arith)).at t
                              (record {
                                contents = opened 10000 i v;
                                session = h;
                                texts = λ m b c.
                                    subst (λ x. HasBoth x.file)
                                      (sym (opened-file i v m (λ (q : i ≡ m). omega arith)))
                                      (r.texts m (omega arith) c);
                              });
                      })))) in
            run.at s r.session;
      }

-- `at` and `at'` give thirty addresses each that `mmap` can return, and `segs` is the array of 31 addresses with
-- whatever it held. Whatever files the first process finds, its first thirty rounds end, and leave both texts
-- in the file of each of the thirty segments. The thirty-first round writes to NULL. Where the process leaves
-- the files as the thirty rounds do, and `fork` succeeds, the program ends with exit code 0.
pub max_main-exceeds :
    (at at' : ℕ → ℕ) (segs : List ℕ) (s : Rvm)
    → AreAddresses 30 at
    → AreAddresses 30 at'
    → length segs ≡ 31
    → (t u : Rvm) × ((rvm_init store_name >>= λ rvm. max_rounds at rvm 30 0 segs) (restart s)
        ≡ done tt t)
      × ((m : ℕ) → m < 30 → HasBoth (contents (t.file (segment_file store_dir (seg_name m)))))
      × (max_proc1 at segs (restart s) ≡ fault)
      × (max_main true (λ r. t.file) at at' segs (restart s) ≡ done 0 u)
unfolding max_main max_proc1 max_proc2 max_rounds
max_main-exceeds at at' segs s a a' len =
    let names = max-Names at a in
    let names' = max-Names at' a' in
    let v = found store_dir (max_segs at) s in
    let fresh = restart-Fresh names v s (λ m b. refl) in
    let (segs₁, thirty) = start-Leads names v 30 0 segs (omega arith) len in
    let (t, ran, r) = thirty.at (restart s) fresh in
    let (segs₂, all) = start-Leads names v 31 1 segs (omega arith) len in
    let (x, ran₂, r₂) = all.at (restart s) fresh in
    let (_, ran₃, _) = (last-Leads names segs₂).at x r₂ in
    let failed : max_proc1 at segs (restart s) ≡ fault = ran₂ ∙ ran₃ in
    let files = (Session-restart names r.contents t r.session).on_disk in
    let next : Rvm = record s { file = t.file } in
    let parent : Ends (Fresh names' r.contents) (max_proc2 at') (λ a t. a ≡ 0) =
      Ends-bind_at _ (rvm_init-Session names' store_name r.contents refl) (record {
        at = λ y h.
            (checks-Ends names' 30 31 0 refl refl).at y
              (record { contents = r.contents; session = h; texts = λ m b c. r.written m c });
      }) in
    let (code, u, ran₄, zero_code) =
      parent.at (restart next) (restart-Fresh names' r.contents next files) in
    (
      t,
      u,
      ran,
      λ m b. subst HasBoth (sym (files m b)) (r.written m b),
      failed,
      rw failed (ran₄ ∙ ap (λ y. done y u) zero_code),
    )
