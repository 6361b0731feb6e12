-- ===== src/Rvm/Programs/Emptying.antt =====
-- project4/truncate.c: the program empties the store's logs.
use cs6210proj.Prelude.{◌≡◌, ◌≢◌, refl, ◌∙◌, some, List, [], ◌++◌, Bytes, codes, arith, eqb-ne}
use cs6210proj.Rvm.State.{Rvm, done, contents, store_log, segments_log}
use cs6210proj.Rvm.Loops.{>>=-done}
use cs6210proj.Rvm.Recovery.{rvm_init-started, started}
use cs6210proj.Rvm.Emptied.{listing, Lines, IsLog, rvm_truncate_log-runs}
use cs6210proj.Rvm.Truncation.{rvm_truncate_log}
use cs6210proj.Rvm.Mapping.{rvm_init}
use cs6210proj.Rvm.Programs.Abort.{store_name}
use cs6210proj.Rvm.Programs.Shared.{store_dir}
use cs6210proj.Rvm.Programs.Single.{truncate_main}

-- segments.log lists names, one to a line, under the bounds of `IsLine`; `list` is what `ls` prints. The
-- program ends with exit code 0, the main log and every listed segment's log hold nothing then, and all
-- other files are as before.
pub truncate_main-empties :
    (list : Rvm → Bytes) (names : List Bytes) (s : Rvm)
    → s.file (segments_log store_dir) ≡ some (listing names)
    → Lines store_dir names
    → (t : Rvm) × (truncate_main list s ≡ done 0 t)
      × (t.file (store_log store_dir) ≡ some [])
      × ((p : Bytes) → IsLog store_dir names p → contents (t.file p) ≡ [])
      × ((p : Bytes) → ¬ IsLog store_dir names p → store_log store_dir ≢ p → t.file p ≡ s.file p)
unfolding truncate_main
truncate_main-empties list names s e w =
    let s₁ : Rvm = record s { output = s.output ++ codes "Before Truncation:\n" } in
    let s₂ : Rvm = record s₁ { output = s₁.output ++ list s₁ } in
    let opened : rvm_init store_name s₂ ≡ done store_dir (started store_dir s₂) =
      rvm_init-started store_name store_dir s₂ refl (omega arith) in
    let (t, ran, main_log, logs, others, _, _, _, _) =
      rvm_truncate_log-runs store_dir names (started store_dir s₂) e w (omega arith)
        (omega arith) in
    let t₁ : Rvm = record t { output = t.output ++ codes "\nAfter Truncation:\n" } in
    (
      record t₁ { output = t₁.output ++ list t₁ },
      >>=-done (rvm_init store_name) _ opened ∙ >>=-done (rvm_truncate_log store_dir) _ ran,
      main_log,
      logs,
      λ p l h. others p l h ∙ rw (eqb-ne (store_log store_dir) p h) refl,
    )
