-- ===== src/Rvm/Session/Full.antt =====
-- project4/rvm.c: the calls on a session whose table is full.
use cs6210proj.Prelude.{
  ℕ, ◌+◌, ◌<◌, ◌≡◌, ◌≢◌, refl, ap, sym, ◌∙◌, ◌++◌, Bytes, codes, length, arith, eqb-ne,
}
use cs6210proj.Rvm.State.{Trans, Rvm, fits, null, store_log, segment_log, segment_file, newline}
use cs6210proj.Rvm.Table.{rounds}
use cs6210proj.Rvm.Mapping.{rvm_map, rvm_destroy, remove_file}
use cs6210proj.Rvm.Transaction.{rvm_about_to_modify}
use cs6210proj.Rvm.Mapped.{rvm_map-full, find_base-none}
use cs6210proj.Rvm.Loops.{>>=-done, fits-done}
use cs6210proj.Rvm.Ends.{Runs, Gives}
use cs6210proj.Rvm.Session.{Entry, Contents, Names, Session}
use cs6210proj.Rvm.Session.Logs.{Session-kept, log_rvm-Session}

module _ {dir : Bytes} {n : ℕ} {segs : ℕ → Entry} (names : Names dir n segs) where
  -- A thirty-first segment is asked for: the call returns NULL, and all stays.
  pub full-Session :
      (v : ℕ → Contents) (segname : Bytes) (size at : ℕ)
      → Gives (Session dir n segs 30 v) (rvm_map dir segname size at) null (Session dir n segs 30 v)
  full-Session v segname size at = record {
    at = λ s h. (
      null,
      _,
      rvm_map-full dir segname size at s h.count,
      (
        refl,
        Session-kept h (record {
          memory = refl;
          mapped = refl;
          num_mapped = refl;
          logged = h.logged;
          files = λ m b. refl;
        }),
      ),
    );
  }

  module _ {k : ℕ} (v : ℕ → Contents) where
    -- A change is announced for an address of no segment: the call returns, and all stays.
    pub modify_missed-Session :
        (tid : Trans) (base offset size : ℕ)
        → ((m : ℕ) → m < k → (segs m).at ≢ base)
        → Runs
            (Session dir n segs k v)
            (rvm_about_to_modify tid base offset size)
            (Session dir n segs k v)
    unfolding rvm_about_to_modify
    modify_missed-Session tid base offset size others = record {
      at = λ s h.
          let rounds_k : rounds s.num_mapped ≡ k = ap rounds h.count in
          (
            tt,
            s,
            rw (
              find_base-none (rounds s.num_mapped) 0 base s (λ m l e.
                  others m (omega (arith, rounds_k))
                    (sym (h.each m (omega (arith, rounds_k))).address ∙ e)),
              rvm_about_to_modify,
            ),
            h,
          );
    }

    -- A name of none of the segments is destroyed, and none of their files is touched.
    pub destroy_other-Session :
        (name : Bytes)
        → ((m : ℕ) → m < n → segment_file dir name ≢ segment_file dir (segs m).name)
        → ((m : ℕ) → m < n → segment_log dir name ≢ segment_file dir (segs m).name)
        → segment_file dir name ≢ store_log dir
        → segment_log dir name ≢ store_log dir
        → length name < 75
        → length (segment_log dir name) < 1024
        → Runs (Session dir n segs k v) (rvm_destroy dir name) (Session dir n segs k v)
    unfolding rvm_destroy
    destroy_other-Session name file_apart log_apart file_log own_log short fit = record {
      at = λ s h.
          let (c, e) = h.logged in
          let path : Bytes = segment_file dir name in
          let log_path : Bytes = segment_log dir name in
          let msg : Bytes = codes "RVM_DESTROY SEGMENT " ++ (name ++ newline) in
          let removed : Rvm = remove_file log_path (remove_file path s) in
          let h₁ : Session dir n segs k v removed = Session-kept h (record {
            memory = refl;
            mapped = refl;
            num_mapped = refl;
            logged = (
              c,
              rw (eqb-ne log_path (store_log dir) own_log, eqb-ne path (store_log dir) file_log) e,
            );
            files = λ m b.
                rw
                  (
                    eqb-ne log_path (segment_file dir (segs m).name) (log_apart m b),
                    eqb-ne path (segment_file dir (segs m).name) (file_apart m b),
                  )
                  refl;
          }) in
          let (_, t, ran, h₂) = (log_rvm-Session names msg).at removed h₁ in
          let small : length (codes "RVM_DESTROY SEGMENT ") + length name + 1 < 100 = omega arith in
          (
            tt,
            t,
            >>=-done (fits (length log_path) 1024) _ (fits-done _ 1024 s fit)
                ∙ (>>=-done (fits (length (codes "RVM_DESTROY SEGMENT ") + length name + 1) 100) _
                      (fits-done _ 100 removed small)
                    ∙ ran),
            h₂,
          );
    }
