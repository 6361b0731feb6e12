-- ===== src/Rvm/Session/Start.antt =====
-- project4/rvm.c: a session from rvm_init on, and rvm_destroy in it.
use cs6210proj.Prelude.{
  ℕ, List, ◌+◌, ◌≤◌, ◌<◌, ◌≡◌, ◌≢◌, refl, ap, sym, ◌∙◌, subst, none, some, ◌++◌, Bytes, codes,
  length, length-append, arith, eqb_refl, eqb-ne, ==-ne, ==-refl,
}
use native.Mathlib.Decide.{ℕ_discrete, dec_lt}
use cs6210proj.Rvm.State.{
  Rvm, unused, fits, store_log, segment_log, segment_file, newline, contents, null,
}
use cs6210proj.Rvm.Table.{slot}
use cs6210proj.Rvm.Mapping.{rvm_init, rvm_destroy, with_slash, remove_file}
use cs6210proj.Rvm.Loops.{>>=-done, fits-done}
use cs6210proj.Rvm.Recovery.{restart, started, rvm_init-started, slot-blank}
use cs6210proj.Rvm.Ends.{Runs, Gives}
use cs6210proj.Rvm.Session.{Entry, Contents, Names, Session}
use cs6210proj.Rvm.Session.Logs.{log_rvm-Session}
use cs6210proj.Rvm.Session.View.{destroyed}

module _ {dir : Bytes} {n : ℕ} {segs : ℕ → Entry} (names : Names dir n segs) where
  module _ {k : ℕ} {v : ℕ → Contents} {s : Rvm} (j : ℕ) (lo : k ≤ j) (l : j < n)
      (h : Session dir n segs k v s) where
    abbrev path : Bytes
    path = segment_file dir (segs j).name

    abbrev log_path : Bytes
    log_path = segment_log dir (segs j).name

    abbrev removed : Rvm
    removed = remove_file log_path (remove_file path s)

    kept :
        (m : ℕ)
        → m < n
        → j ≢ m
        → removed.file (segment_file dir (segs m).name) ≡ s.file (segment_file dir (segs m).name)
    kept m b e =
        rw
          (
            eqb-ne log_path (segment_file dir (segs m).name) (names.logs_apart j m l b),
            eqb-ne path (segment_file dir (segs m).name) (λ q. e (names.files j m l b q)),
          )
          refl

    gone : removed.file path ≡ none
    gone = rw (eqb-ne log_path path (names.logs_apart j j l l), eqb_refl path) refl

    still_logged : (c : Bytes) × (removed.file (store_log dir) ≡ some c)
    still_logged =
        let (c, e) = h.logged in
        (
          c,
          rw
              (
                eqb-ne log_path (store_log dir) (names.own_log j l),
                eqb-ne path (store_log dir) (λ q. names.apart j l (sym q)),
              )
              e,
        )

    removed-Session : Session dir n segs k (destroyed j v) removed
    removed-Session = record {
      count = h.count;
      bound = h.bound;
      table = h.table;
      null_free = h.null_free;
      logged = still_logged;
      blank = h.blank;
      each = λ m b.
          let old = h.each m b in
          let other : j ≢ m = λ e. omega arith in
          rw (==-ne j m other) (record {
            address = old.address;
            name = old.name;
            size = old.size;
            count = old.count;
            array = old.array;
            announced = old.announced;
            inside = old.inside;
            in_memory = old.in_memory;
            in_file = kept m (omega (arith, h.bound)) other ∙ old.in_file;
            memory_size = old.memory_size;
            file_size = old.file_size;
          });
      on_disk = λ m b c. elim (ℕ_discrete j m) [
        | yes e ↦
            subst
              (λ x.
                contents (removed.file (segment_file dir (segs x).name)) ≡ (destroyed j v x).file)
              e (rw (==-refl j) (ap contents gone))
        | no e ↦ rw (==-ne j m e) (ap contents (kept m c e) ∙ h.on_disk m b c)
      ];
    }

  -- A segment that is not mapped is destroyed: the call ends, its file is gone, and all else stays.
  pub rvm_destroy-Session :
      {k : ℕ} (v : ℕ → Contents) (j : ℕ)
      → k ≤ j
      → j < n
      → Runs
          (Session dir n segs k v)
          (rvm_destroy dir (segs j).name)
          (Session dir n segs k (destroyed j v))
  unfolding rvm_destroy
  rvm_destroy-Session {k} v j lo l = record {
    at = λ s h.
        let msg : Bytes = codes "RVM_DESTROY SEGMENT " ++ ((segs j).name ++ newline) in
        let (_, t, ran, h₁) =
          (log_rvm-Session names msg).at (removed j lo l h) (removed-Session j lo l h) in
        let fit : length (segment_log dir (segs j).name) < 1024 = omega (
          arith,
          names.paths j l,
          length-append dir (segs j).name,
          length-append dir ((segs j).name ++ codes ".log"),
          length-append (segs j).name (codes ".log"),
        ) in
        let short : length (codes "RVM_DESTROY SEGMENT ") + length (segs j).name + 1 < 100 =
          omega (arith, names.short j l) in
        (
          tt,
          t,
          >>=-done (fits (length (segment_log dir (segs j).name)) 1024) _ (fits-done _ 1024 s fit)
              ∙ (>>=-done
                    (fits (length (codes "RVM_DESTROY SEGMENT ") + length (segs j).name + 1) 100) _
                    (fits-done _ 100 (removed j lo l h) short)
                  ∙ ran),
          h₁,
        );
  }

  -- A process with an empty table, and these files.
  pub record Fresh (v : ℕ → Contents) (s : Rvm) : Type 0 where
    pub table : length s.mapped ≡ 30
    pub null_free : s.memory null ≡ none
    pub blank : (m : ℕ) → slot m s ≡ unused
    pub on_disk : (m : ℕ) → m < n → contents (s.file (segment_file dir (segs m).name)) ≡ (v m).file

  started-Session :
      (v : ℕ → Contents) (s : Rvm) → Fresh v s → Session dir n segs 0 v (started dir s)
  started-Session v s h = record {
    count = refl;
    bound = omega arith;
    table = h.table;
    null_free = h.null_free;
    logged = (
      contents (some (contents (s.file (store_log dir)))) ++ codes "RVM_INIT \n",
      rw (eqb_refl (store_log dir)) refl,
    );
    blank = λ m b. h.blank m;
    each = λ m b. elim b [ ];
    on_disk = λ m b c. rw (eqb-ne (store_log dir) _ (names.apart m c)) (h.on_disk m c);
  }

  -- A process with an empty table opens the store: the call returns the store, no segment is mapped,
  -- and the segments' files are as they were.
  pub rvm_init-Session :
      (directory : Bytes) (v : ℕ → Contents)
      → with_slash directory ≡ some dir
      → Gives (Fresh v) (rvm_init directory) dir (Session dir n segs 0 v)
  rvm_init-Session directory v e = record {
    at = λ s h. (
      dir,
      started dir s,
      rvm_init-started directory dir s e names.log_short,
      (refl, started-Session v s h),
    );
  }

  -- It prints no error.
  pub rvm_init-quiet :
      (directory : Bytes) (v : ℕ → Contents) (errors : List Bytes)
      → with_slash directory ≡ some dir
      → Gives
          (λ s. Fresh v s × (s.errors ≡ errors))
          (rvm_init directory)
          dir
          (λ t. Session dir n segs 0 v t × (t.errors ≡ errors))
  rvm_init-quiet directory v errors e = record {
    at = λ s h. (
      dir,
      started dir s,
      rvm_init-started directory dir s e names.log_short,
      (refl, (started-Session v s h.0, h.1)),
    );
  }

  pub restart-Fresh :
      (v : ℕ → Contents) (s : Rvm)
      → ((m : ℕ) → m < n → contents (s.file (segment_file dir (segs m).name)) ≡ (v m).file)
      → Fresh v (restart s)
  restart-Fresh v s h = record {
    table = refl;
    null_free = refl;
    blank = slot-blank 30;
    on_disk = h;
  }

  -- A process that starts after one with a session, at whatever moment that ended, finds the segments'
  -- files as the session has them.
  pub Session-restart :
      {k : ℕ} (v : ℕ → Contents) (s : Rvm) → Session dir n segs k v s → Fresh v (restart s)
  Session-restart {k} v s h = restart-Fresh v s (λ m b. elim (dec_lt m k) [
    | yes c ↦ ap contents (h.each m c).in_file
    | no c ↦ h.on_disk m (omega arith) b
  ])
