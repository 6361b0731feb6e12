-- ===== src/Rvm/Commit.antt =====
-- project4/rvm.c: rvm_commit_trans carries the announced ranges from memory to the file.
use cs6210proj.Prelude.{
  ℕ, ◌<◌, ◌≡◌, ◌≢◌, refl, ap, sym, ◌∙◌, pos, false, Option, some, List, [], ◌∷◌, ◌++◌, map, Bytes,
  codes, if◌then◌else◌, length, get_or, arith, eqb_refl, eqb-ne, length-append, take, ==-ne,
}
use native.Mathlib.Decide.{ℕ_discrete}
use cs6210proj.Rvm.State.{
  Range, Segment, Rvm, done, set_file, close_file, store_log, segment_log, segment_file, newline,
}
use cs6210proj.Rvm.Table.{slot}
use cs6210proj.Rvm.Transaction.{
  write_segment, write_ranges, recorded, commit_entry, rvm_commit_trans,
}
use cs6210proj.Rvm.Ranges.{covered, Within, write_ranges-get}
use cs6210proj.Rvm.Loops.{
  base_at, for_bases-once, >>=-done, log_both-done, after_logs, after_logs-file,
}

-- The entry `j` of `n` is a segment with its mapping `bytes` and its file `f`, both of the segment's
-- size, at an address that no other entry has.
pub record IsMapped (dir : Bytes) (n j : ℕ) (bytes f : Bytes) (s : Rvm) : Type 0 where
  pub count : s.num_mapped ≡ pos n
  pub index : j < n
  pub only : (m : ℕ) → m < n → base_at m s ≡ base_at j s → m ≡ j
  pub in_memory : s.memory (base_at j s) ≡ some bytes
  pub in_file : s.file (segment_file dir (slot j s).name) ≡ some f
  pub memory_size : length bytes ≡ (slot j s).size
  pub file_size : length f ≡ (slot j s).size

-- The store's log is there, it is not the file of the segment, and the segment's name fits the
-- buffers for messages.
pub record CanLog (dir name c : Bytes) (s : Rvm) : Type 0 where
  pub log : s.file (store_log dir) ≡ some c
  pub apart : store_log dir ≢ segment_file dir name
  pub short : length name < 75

pub log_apart : (dir name : Bytes) → segment_log dir name ≢ segment_file dir name
log_apart dir name e = omega (
  arith,
  ap length e,
  length-append dir (name ++ codes ".log"),
  length-append name (codes ".log"),
  length-append dir name,
)

-- What a committed file is: a byte that a range covers is the mapping's, any other the old file's.
abbrev pub Merged : List Range → Bytes → Bytes → Bytes → Type 0
Merged rs bytes f f' =
    (length f' ≡ length f)
    × ((i : ℕ) → get_or f' i 0 ≡ (if covered rs i then get_or bytes i 0 else get_or f i 0))

-- How a step of the commit relates the states: the segment's file is `f'`, and memory and table stay.
abbrev pub Wrote : Bytes → Bytes → Rvm → Rvm → Type 0
Wrote path f' s s' =
    (s'.file path ≡ some f')
    × (s'.memory ≡ s.memory)
    × (s'.mapped ≡ s.mapped)
    × (s'.num_mapped ≡ s.num_mapped)
    × ((q : Bytes) → path ≢ q → s'.file q ≡ s.file q)

write_segment-nothing :
    (dir : Bytes) (seg : Segment) (s : Rvm)
    → seg.num_ranges ≡ 0
    → write_segment dir seg s ≡ done tt (close_file (segment_file dir seg.name) s)
unfolding write_segment
write_segment-nothing dir seg s e = rw e

write_segment-ranges :
    (dir : Bytes) (seg : Segment) (s : Rvm) {f bytes : Bytes} {out : ℕ × Bytes}
    → seg.num_ranges ≢ 0
    → s.file (segment_file dir seg.name) ≡ some f
    → s.memory seg.address ≡ some bytes
    → write_ranges bytes seg.size (recorded seg) (0, f) ≡ some out
    → write_segment dir seg s
      ≡ done tt
          (close_file (segment_file dir seg.name) (set_file (segment_file dir seg.name) out.1 s))
unfolding write_segment
write_segment-ranges dir seg s h ef em ew = rw (==-ne _ 0 h, ef, em, ew, write_segment)

Wrote-set : (path f' : Bytes) (s : Rvm) → Wrote path f' s (close_file path (set_file path f' s))
Wrote-set path f' s = (rw (eqb_refl path), refl, refl, refl, λ q h. rw (eqb-ne path q h))

Wrote-logs :
    (dir name msg f' : Bytes) (s s' : Rvm)
    → store_log dir ≢ segment_file dir name
    → Wrote (segment_file dir name) f' s s'
    → (after_logs dir name msg s').file (segment_file dir name) ≡ some f'
Wrote-logs dir name msg f' s s' apart w =
    after_logs-file dir name msg (segment_file dir name) s' apart (log_apart dir name) ∙ w.0

pub covered-none :
    (rs : List Range) (i : ℕ) → map {B = Option Range} some rs ≡ [] → covered rs i ≡ false
covered-none [] i e = refl
covered-none (r ∷ rs) i e = cc

-- An entry of the table, or one with fewer ranges, is written to its file.
pub write_segment-Wrote :
    (dir : Bytes) (seg : Segment) (s : Rvm) {bytes f : Bytes}
    → s.memory seg.address ≡ some bytes
    → s.file (segment_file dir seg.name) ≡ some f
    → length bytes ≡ seg.size
    → length f ≡ seg.size
    → (rs : List Range) → recorded seg ≡ map some rs
    → Within seg.size rs
    → (f' : Bytes) × (s' : Rvm) × (write_segment dir seg s ≡ done tt s')
      × Wrote (segment_file dir seg.name) f' s s'
      × Merged rs bytes f f'
write_segment-Wrote dir seg s {bytes} {f} em ef lm lf rs er inside =
    elim (ℕ_discrete seg.num_ranges 0) [
      | yes empty ↦
          let none_recorded : map some rs ≡ [] = sym er ∙ ap (λ k. take k seg.ranges) empty in
          (
            f,
            close_file (segment_file dir seg.name) s,
            write_segment-nothing dir seg s empty,
            (ef, refl, refl, refl, λ q h. refl),
            (refl, λ i. rw (covered-none rs i none_recorded)),
          )
      | no h ↦
          let (out, ran, len, got) = write_ranges-get bytes seg.size lm rs 0 f lf inside in
          (
            out.1,
            close_file (segment_file dir seg.name) (set_file (segment_file dir seg.name) out.1 s),
            write_segment-ranges dir seg s h ef em
                (ap (λ r. write_ranges bytes seg.size r (0, f)) er ∙ ran),
            Wrote-set (segment_file dir seg.name) out.1 s,
            (len ∙ sym lf, got),
          )
    ]

module _ (dir : Bytes) (n j : ℕ) (bytes f : Bytes) (s : Rvm)
    (mapped : IsMapped dir n j bytes f s) where
  abbrev path : Bytes
  path = segment_file dir (slot j s).name

  commit_entry-Merged :
      (rs : List Range) (c : Bytes)
      → recorded (slot j s) ≡ map some rs
      → Within (slot j s).size rs
      → CanLog dir (slot j s).name c s
      → (f' : Bytes) × (s' : Rvm) × (commit_entry dir j s ≡ done tt s')
        × Merged rs bytes f f'
        × (s'.file path ≡ some f')
        × (s'.memory ≡ s.memory)
        × (s'.mapped ≡ s.mapped)
        × (s'.num_mapped ≡ s.num_mapped)
  unfolding commit_entry
  commit_entry-Merged rs c er inside can =
      let (f', s', ran, wrote, merged) =
        write_segment-Wrote dir (slot j s) s mapped.in_memory mapped.in_file mapped.memory_size
          mapped.file_size rs er inside in
      let msg : Bytes = codes "RVM_COMMITTRANS SEGMENT " ++ ((slot j s).name ++ newline) in
      (
        f',
        after_logs dir (slot j s).name msg s',
        >>=-done (write_segment dir (slot j s)) _ ran
            ∙ log_both-done dir (codes "RVM_COMMITTRANS SEGMENT ") (slot j s).name c s'
                (wrote.4 (store_log dir) (λ e. can.apart (sym e)) ∙ can.log) (omega arith),
        merged,
        Wrote-logs dir (slot j s).name msg f' s s' can.apart wrote,
        wrote.1,
        wrote.2,
        wrote.3,
      )

  -- A transaction of one mapped segment, under `IsMapped` and `CanLog`, whose announced ranges `rs`
  -- lie in the segment: the commit ends, the segment's file has the mapping's bytes where a range covers them and its old bytes
  -- elsewhere, at its old length, and memory and the table stay as they were.
  pub rvm_commit_trans-Merged :
      (rs : List Range) (c : Bytes) (tid : ℕ)
      → recorded (slot j s) ≡ map some rs
      → Within (slot j s).size rs
      → CanLog dir (slot j s).name c s
      → (f' : Bytes) × (s' : Rvm) × (rvm_commit_trans
            (record { segbases = base_at j s ∷ []; tid = tid; dir = dir })
            s
          ≡ done tt s')
        × Merged rs bytes f f'
        × (s'.file path ≡ some f')
        × (s'.memory ≡ s.memory)
        × (s'.mapped ≡ s.mapped)
        × (s'.num_mapped ≡ s.num_mapped)
  unfolding rvm_commit_trans
  rvm_commit_trans-Merged rs c tid er inside can =
      let (f', s', ran, merged, file, memory, table, count) =
        commit_entry-Merged rs c er inside can in
      (
        f',
        s',
        for_bases-once n j (commit_entry dir) s s' mapped.count mapped.index mapped.only ran table,
        merged,
        file,
        memory,
        table,
        count,
      )
