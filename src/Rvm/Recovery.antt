-- ===== src/Rvm/Recovery.antt =====
-- project4/rvm.c: a segment that a later process maps again holds what was committed.
use cs6210proj.Prelude.{
  ℕ, zero, suc, ◌-◌, ◌<◌, ◌≡◌, ◌≢◌, refl, ap, sym, ◌∙◌, pos, some, none, List, [], ◌∷◌, ◌++◌, map,
  Bytes, codes, length, get_or, append-nil, arith, eqb_refl, eqb-ne, replicate,
}
use cs6210proj.Rvm.State.{
  Range, Rvm, done, contents, store_log, segment_file, segments_log, unused, fits, map_failed,
  log_rvm,
}
use cs6210proj.Rvm.Table.{slot}
use cs6210proj.Rvm.Mapping.{rvm_init, start, with_slash, create, rvm_map, pad}
use cs6210proj.Rvm.Transaction.{recorded, rvm_commit_trans}
use cs6210proj.Rvm.Ranges.{Within}
use cs6210proj.Rvm.Loops.{base_at, >>=-done, fits-done, log_rvm-done, after_log}
use cs6210proj.Rvm.Commit.{IsMapped, CanLog, Merged, rvm_commit_trans-Merged}
use cs6210proj.Rvm.Mapped.{CanMap, rvm_map-maps}

-- A process that starts: of the one before only the files are left, as after a crash.
abbrev pub restart : Rvm → Rvm
restart s = record {
  file = s.file;
  memory = λ a. none;
  mapped = replicate 30 unused;
  num_mapped = pos 0;
  verbose = 0;
  tid = 0;
  locks = [];
  output = [];
  errors = [];
}

abbrev pub logging : Bytes → Rvm → Rvm
logging dir s = create (store_log dir) (record s { num_mapped = pos 0 })

abbrev pub started : Bytes → Rvm → Rvm
started dir s = after_log dir (codes "RVM_INIT \n") (logging dir s)

rvm_init-start :
    (directory dir : Bytes) (s : Rvm)
    → with_slash directory ≡ some dir
    → rvm_init directory s ≡ start dir s
unfolding rvm_init
rvm_init-start directory dir s e = rw (e, rvm_init)

pub rvm_init-started :
    (directory dir : Bytes) (s : Rvm)
    → with_slash directory ≡ some dir
    → length (store_log dir) < 1024
    → rvm_init directory s ≡ done dir (started dir s)
unfolding start
rvm_init-started directory dir s e h =
    rvm_init-start directory dir s e
    ∙ (>>=-done (fits (length (store_log dir)) 1024) _ (fits-done (length (store_log dir)) 1024 s h)
        ∙ >>=-done (log_rvm dir (codes "RVM_INIT \n")) _ (
            log_rvm-done dir _ (contents (s.file (store_log dir))) (logging dir s)
              (rw (eqb_refl (store_log dir)))))

pad-whole : (f : Bytes) (size : ℕ) → length f ≡ size → pad f size ≡ f
pad-whole f size e =
    let none_left : size - length f ≡ 0 = omega arith in rw none_left (append-nil f)

pub slot-blank : (k m : ℕ) → get_or (replicate k unused) m unused ≡ unused
slot-blank zero m = refl
slot-blank (suc k) zero = refl
slot-blank (suc k) (suc m) = slot-blank k m

-- The later process: `at` is the address that its `mmap` returns, and the buffers hold the names.
pub record CanRestart (directory dir name : Bytes) (at : ℕ) : Type 0 where
  pub slash : with_slash directory ≡ some dir
  pub apart : store_log dir ≢ segment_file dir name
  pub list_apart : segments_log dir ≢ segment_file dir name
  pub short : length name < 75
  pub log_short : length (store_log dir) < 1024
  pub path_short : length (segment_file dir name) < 1024
  pub list_short : length (segments_log dir) < 1024
  pub not_null : at ≢ 0
  pub succeeds : at ≢ map_failed

started-CanMap :
    (directory dir name f : Bytes) (size at : ℕ) (s : Rvm)
    → CanRestart directory dir name at
    → s.file (segment_file dir name) ≡ some f
    → length f ≡ size
    → CanMap dir name f
        (contents (s.file (store_log dir)) ++ codes "RVM_INIT \n")
        size
        at
        0
        (started dir (restart s))
started-CanMap directory dir name f size at s can e l = record {
  count = refl;
  room = omega arith;
  table = refl;
  unnamed = λ m h. elim h [ ];
  fresh = λ m h q. can.not_null (sym q ∙ ap (λ g. g.address) (slot-blank 30 m));
  succeeds = can.succeeds;
  old_file = rw (eqb-ne (store_log dir) (segment_file dir name) can.apart, e);
  small = omega arith;
  log = rw (eqb_refl (store_log dir));
  apart = can.apart;
  list_apart = can.list_apart;
  short = can.short;
  path_short = can.path_short;
  list_short = can.list_short;
}

-- After a crash whenever it comes, a process that opens the store and maps a segment whose file has the
-- size asked for gets that file's bytes at the address that `mmap` returns.
pub rvm_map-recovers :
    (directory dir name f : Bytes) (size at : ℕ) (s : Rvm)
    → CanRestart directory dir name at
    → s.file (segment_file dir name) ≡ some f
    → length f ≡ size
    → (t t' : Rvm) × (rvm_init directory (restart s) ≡ done dir t)
      × (rvm_map dir name size at t ≡ done at t')
      × (t'.memory at ≡ some f)
rvm_map-recovers directory dir name f size at s can e l =
    let (t', ran, held, _, _, _, _, _) =
      rvm_map-maps dir name f _ size at 0 _
        (started-CanMap directory dir name f size at s can e l) in
    (
      started dir (restart s),
      t',
      rvm_init-started directory dir (restart s) can.slash can.log_short,
      ran,
      held ∙ ap some (pad-whole f size l),
    )

-- A transaction of one mapped segment, under `IsMapped` and `CanLog`, whose announced ranges lie in the
-- segment: the commit, then a crash, then a process that, under `CanRestart`, opens the store and maps
-- the segment. All the calls return, and the new mapping holds the committed bytes where a range
-- covers them and the file's old bytes elsewhere.
pub rvm_commit_trans-survives :
    (directory dir : Bytes) (n j : ℕ) (bytes f : Bytes) (s : Rvm) (rs : List Range) (c : Bytes)
    (tid at : ℕ)
    → IsMapped dir n j bytes f s
    → recorded (slot j s) ≡ map some rs
    → Within (slot j s).size rs
    → CanLog dir (slot j s).name c s
    → CanRestart directory dir (slot j s).name at
    → (s' t t' : Rvm) × (f' : Bytes) × (rvm_commit_trans
          (record { segbases = base_at j s ∷ []; tid = tid; dir = dir })
          s
        ≡ done tt s')
      × (rvm_init directory (restart s') ≡ done dir t)
      × (rvm_map dir (slot j s).name (slot j s).size at t ≡ done at t')
      × (t'.memory at ≡ some f')
      × Merged rs bytes f f'
rvm_commit_trans-survives directory dir n j bytes f s rs c tid at mapped er inside log can =
    let (f', s', ran, merged, file, _, _, _) =
      rvm_commit_trans-Merged dir n j bytes f s mapped rs c tid er inside log in
    let (t, t', init, again, held) =
      rvm_map-recovers directory dir (slot j s).name f' (slot j s).size at s' can file
        (merged.0 ∙ mapped.file_size) in
    (s', t, t', f', ran, init, again, held, merged)
