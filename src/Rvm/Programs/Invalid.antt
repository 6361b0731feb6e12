-- ===== src/Rvm/Programs/Invalid.antt =====
-- project4/unmapinvalid.c: two addresses of no segment are unmapped among those of eight segments.
use cs6210proj.Prelude.{
  ℕ, zero, suc, ◌+◌, ◌≤◌, ◌<◌, ◌≡◌, ◌≢◌, refl, ap, sym, ◌∙◌, List, [], ◌∷◌, Bytes, codes, length,
  get_or, arith, print_int, leb, if◌then◌else◌,
}
use cs6210proj.Rvm.State.{Rvm, done, contents, segment_file, pure, ◌>>◌}
use cs6210proj.Rvm.Mapping.{rvm_map, rvm_unmap}
use cs6210proj.Rvm.Recovery.{restart}
use cs6210proj.Rvm.Ends.{Ends, Gives, Ends-bind_at, Ends-then}
use cs6210proj.Rvm.Queue.{Lists, unmap_missing-Runs, unmap_first-Runs}
use cs6210proj.Rvm.Session.{Entry, Contents, Names, Session}
use cs6210proj.Rvm.Session.Change.{Session-IsTable}
use cs6210proj.Rvm.Session.View.{opened}
use cs6210proj.Rvm.Session.Mapping.{rvm_map-quiet}
use cs6210proj.Rvm.Session.Start.{Fresh, restart-Fresh, rvm_init-quiet}
use cs6210proj.Rvm.Programs.{print}
use cs6210proj.Rvm.Programs.Abort.{store_name}
use cs6210proj.Rvm.Programs.Limits.{unmap_main, seg_name}
use cs6210proj.Rvm.Programs.Named.{
  AreAddresses, seg_name-short, seg_name-apart, files-apart, logs-apart, list-apart, log-apart,
  own_log-apart,
}
use cs6210proj.Rvm.Programs.Shared.{store_dir, found}

-- The segments that are mapped, all but 1 and 7 of ten.
abbrev nth : ℕ → ℕ
nth m = if leb m 0 then 0 else if leb m 5 then m + 1 else m + 2

nth-injective : (m k : ℕ) → nth m ≡ nth k → m ≡ k
nth-injective m k e = ground arith

nth-lt : (m : ℕ) → m < 8 → nth m < 10
nth-lt m l = ground arith

abbrev eight : (ℕ → ℕ) → ℕ → Entry
eight at m = record { at = at (nth m); name = seg_name (nth m); size = 10000 }

eight-Names : (at : ℕ → ℕ) → AreAddresses 10 at → Names store_dir 8 (eight at)
eight-Names at a =
    let small : (m : ℕ) → m < 8 → nth m < 31 = λ m b. omega (arith, nth-lt m b) in
    record {
      room = omega arith;
      addresses =
          λ m k b c e. nth-injective m k (a.apart (nth m) (nth k) (nth-lt m b) (nth-lt k c) e);
      names =
          λ m k b c e. nth-injective m k (seg_name-apart (nth m) (nth k) (small m b) (small k c) e);
      files =
          λ m k b c e. nth-injective m k (files-apart (nth m) (nth k) (small m b) (small k c) e);
      apart = λ m b e. log-apart (nth m) e;
      list_apart = λ m b e. list-apart (nth m) (small m b) e;
      own_log = λ m b e. own_log-apart (nth m) (small m b) e;
      logs_apart = λ m k b c e. logs-apart (nth m) (nth k) (small m b) (small k c) e;
      short = λ m b. omega (arith, seg_name-short (nth m) (small m b));
      paths = λ m b. omega (arith, seg_name-short (nth m) (small m b));
      log_short = omega arith;
      list_short = omega arith;
      not_null = λ m b. a.not_null (nth m) (nth-lt m b);
      succeeds = λ m b. a.succeeds (nth m) (nth-lt m b);
    }

abbrev bases : (ℕ → ℕ) → List ℕ
bases at = at 0 ∷ at 2 ∷ at 3 ∷ at 4 ∷ at 5 ∷ at 6 ∷ at 8 ∷ at 9 ∷ []

base-nth : (at : ℕ → ℕ) (m : ℕ) → m < 8 → get_or (bases at) m 0 ≡ at (nth m)
base-nth at zero l = refl
base-nth at (suc zero) l = refl
base-nth at (suc (suc zero)) l = refl
base-nth at (suc (suc (suc zero))) l = refl
base-nth at (suc (suc (suc (suc zero)))) l = refl
base-nth at (suc (suc (suc (suc (suc zero))))) l = refl
base-nth at (suc (suc (suc (suc (suc (suc zero)))))) l = refl
base-nth at (suc (suc (suc (suc (suc (suc (suc zero))))))) l = refl
base-nth at (suc (suc (suc (suc (suc (suc (suc (suc m)))))))) l = absurd (omega arith)

abbrev pub complaint : Bytes
complaint = codes "No record of memory to unmap.\n"

module _ (at : ℕ → ℕ) (names : Names store_dir 8 (eight at)) where
  -- All eight are mapped.
  eight-Lists :
      (v : ℕ → Contents) (s : Rvm)
      → Session store_dir 8 (eight at) 8 v s
      → s.errors ≡ []
      → Lists store_dir (bases at) [] s
  eight-Lists v s h quiet = record {
    table = Session-IsTable names h;
    bases = λ m l. (h.each m l).address ∙ sym (base-nth at m l);
    sized = λ m l e. omega (arith, (h.each m l).size);
    short = λ m l. omega (arith, ap length (h.each m l).name, names.short m l);
    logged = h.logged;
    printed = quiet;
  }

  missing :
      (base : ℕ) → ((m : ℕ) → m < 10 → at m ≢ base) → (m : ℕ) → m < 8 → get_or (bases at) m 0 ≢ base
  missing base others m l e = others (nth m) (nth-lt m l) (sym (base-nth at m l) ∙ e)

  unmaps-Ends :
      (segs1 segs7 : ℕ)
      → ((m : ℕ) → m < 10 → at m ≢ segs1)
      → ((m : ℕ) → m < 10 → at m ≢ segs7)
      → Ends {A = ℕ}
          (Lists store_dir (bases at) [])
          (rvm_unmap store_dir (at 0)
            >> (rvm_unmap store_dir segs1
                >> (rvm_unmap store_dir (at 2)
                    >> (rvm_unmap store_dir (at 3)
                        >> (rvm_unmap store_dir (at 4)
                            >> (rvm_unmap store_dir (at 5)
                                >> (rvm_unmap store_dir (at 6)
                                    >> (rvm_unmap store_dir segs7
                                        >> (rvm_unmap store_dir (at 8)
                                            >> (rvm_unmap store_dir (at 9)
                                                >> (print (
                                                      codes
                                                        "OK, Should see 2 handled exceptions above.\n")
                                                    >> pure 0)))))))))))
          (λ a t. (a ≡ 0) × (t.errors ≡ complaint ∷ complaint ∷ []))
  unmaps-Ends segs1 segs7 no1 no7 =
      let first = unmap_first-Runs store_dir in
      Ends-then (first (at 0) _ []) (
        Ends-then
          (unmap_missing-Runs store_dir segs1 (at 2) _ []
            (λ m l. missing segs1 no1 (suc m) (omega arith)))
          (Ends-then (first (at 2) _ _) (
            Ends-then (first (at 3) _ _) (
              Ends-then (first (at 4) _ _) (
                Ends-then (first (at 5) _ _) (
                  Ends-then (first (at 6) _ _) (
                    Ends-then
                      (unmap_missing-Runs store_dir segs7 (at 8) (at 9 ∷ []) _ (λ m l.
                        missing segs7 no7 (suc (suc (suc (suc (suc (suc m)))))) (omega arith)))
                      (Ends-then (first (at 8) _ _) (
                        Ends-then (first (at 9) [] _)
                          (record { at = λ s h. (0, _, refl, (refl, h.printed)) }))))))))))

  opens :
      (v : ℕ → Contents) (k : ℕ)
      → k < 8
      → length (v k).file ≤ 10000
      → Gives
          (λ s. Session store_dir 8 (eight at) k v s × (s.errors ≡ []))
          (rvm_map store_dir (seg_name (nth k)) 10000 (at (nth k)))
          (at (nth k))
          (λ t. Session store_dir 8 (eight at) (k + 1) (opened 10000 k v) t × (t.errors ≡ []))
  opens v k l small = rvm_map-quiet names v [] l small

  unmap_main-Ends :
      (v : ℕ → Contents) (segs1 segs7 : ℕ)
      → ((m : ℕ) → m < 8 → length (v m).file ≤ 10000)
      → ((m : ℕ) → m < 10 → at m ≢ segs1)
      → ((m : ℕ) → m < 10 → at m ≢ segs7)
      → Ends
          (λ s. Fresh names v s × (s.errors ≡ []))
          (unmap_main at segs1 segs7)
          (λ a t. (a ≡ 0) × (t.errors ≡ complaint ∷ complaint ∷ []))
  unfolding unmap_main seg_name print_int
  unmap_main-Ends v segs1 segs7 small no1 no7 =
      Ends-bind_at _ (rvm_init-quiet names store_name v [] refl) (
        Ends-bind_at _ (opens _ 0 (omega arith) (small 0 (omega arith))) (
          Ends-bind_at _ (opens _ 1 (omega arith) (small 1 (omega arith))) (
            Ends-bind_at _ (opens _ 2 (omega arith) (small 2 (omega arith))) (
              Ends-bind_at _ (opens _ 3 (omega arith) (small 3 (omega arith))) (
                Ends-bind_at _ (opens _ 4 (omega arith) (small 4 (omega arith))) (
                  Ends-bind_at _ (opens _ 5 (omega arith) (small 5 (omega arith))) (
                    Ends-bind_at _ (opens _ 6 (omega arith) (small 6 (omega arith))) (
                      Ends-bind_at _ (opens _ 7 (omega arith) (small 7 (omega arith))) (record {
                        at =
                            λ s h. (unmaps-Ends segs1 segs7 no1 no7).at s (eight-Lists _ s h.0 h.1);
                      })))))))))

-- `at` gives the addresses that `mmap` returns for the segments, no file of which is larger than 10000 bytes.
-- The two entries of the array that are never set hold none of the addresses. Whatever files the process
-- finds, it ends with exit code 0, and has printed that there is no record of the memory twice.
pub unmap_main-complains :
    (at : ℕ → ℕ) (segs1 segs7 : ℕ) (s : Rvm)
    → AreAddresses 10 at
    → ((m : ℕ) → m < 10 → length (contents (s.file (segment_file store_dir (seg_name m)))) ≤ 10000)
    → ((m : ℕ) → m < 10 → at m ≢ segs1)
    → ((m : ℕ) → m < 10 → at m ≢ segs7)
    → (t : Rvm) × (unmap_main at segs1 segs7 (restart s) ≡ done 0 t)
      × (t.errors ≡ complaint ∷ complaint ∷ [])
unmap_main-complains at segs1 segs7 s a small no1 no7 =
    let names = eight-Names at a in
    let v = found store_dir (eight at) s in
    let (code, t, ran, (zero_code, errors)) =
      (unmap_main-Ends at names v segs1 segs7 (λ m b. small (nth m) (nth-lt m b)) no1 no7).at
        (restart s) (restart-Fresh names v s (λ m b. refl), refl) in
    (t, ran ∙ ap (λ y. done y t) zero_code, errors)
