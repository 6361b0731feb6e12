-- ===== src/Rvm/Transaction.antt =====
-- project4/rvm.c: rvm_begin_trans, rvm_about_to_modify, rvm_commit_trans and rvm_abort_trans.
use cs6210proj.Prelude.{
  ℕ, ◌+◌, ◌-◌, Option, none, some, List, [], ◌∷◌, ◌++◌, Bytes, codes, ltb, leb, ◌==◌, if◌then◌else◌,
  length, take, drop, set, print_int,
}
use cs6210proj.Rvm.State.{
  Range, Segment, Trans, done, fault, hang, M, pure, ◌>>◌, fits, update_at, set_file, close_file,
  segment_file, segment_log, newline, log_rvm, log_segment, log_both, overwrite,
}
use cs6210proj.Rvm.Table.{rounds, slot, set_slot, find_base, for_base}

-- The loops over `segbases`; the inner one goes over the table as it then is.
unfoldable pub for_bases : List ℕ → (ℕ → M (Unit {0})) → M (Unit {0})
for_bases [] body s = done tt s
for_bases (base ∷ bases) body s =
    (for_base (rounds s.num_mapped) 0 base body >> for_bases bases body) s

-- Opened without O_CREAT: a log that is missing is not locked.
unfoldable pub lock_segment : Bytes → Bytes → M (Unit {0})
lock_segment dir name s = elim (s.file (segment_log dir name)) [
  | none ↦ done tt s
  | some _ ↦ done tt (record s { locks = segment_log dir name ∷ s.locks })
]

unfoldable pub begin_entry : Bytes → ℕ → M (Unit {0})
begin_entry dir j s =
    (lock_segment dir (slot j s).name
        >> log_both dir (codes "RVM_BEGINTRANS SEGMENT ") (slot j s).name)
      s

unfoldable pub rvm_begin_trans : Bytes → List ℕ → M Trans
rvm_begin_trans dir segbases s =
    (for_bases segbases (begin_entry dir)
        >> pure (record { segbases = segbases; tid = s.tid; dir = dir }))
      (record s { tid = s.tid + 1 })

-- `seg->ranges[seg->numRanges] = rng; seg->numRanges++;` in an array of ten.
unfoldable pub add_range : ℕ → Range → M (Unit {0})
add_range i rng s =
    let seg : Segment = slot i s in
    if ltb seg.num_ranges 10
    then done tt (
        set_slot i
          (record seg {
            num_ranges = seg.num_ranges + 1;
            ranges = set seg.ranges seg.num_ranges (some rng);
          })
          s)
    else fault

abbrev pub modify_message : Bytes → ℕ → ℕ → Bytes
modify_message name offset size =
    codes "RVM_MODIFY SEGMENT "
    ++ (name
        ++ (codes " OFFSET: "
            ++ (print_int offset ++ (codes " SIZE: " ++ (print_int size ++ newline)))))

unfoldable pub rvm_about_to_modify : Trans → ℕ → ℕ → ℕ → M (Unit {0})
rvm_about_to_modify tid segbase offset size s = elim (find_base (rounds s.num_mapped) 0 segbase s) [
  | none ↦ done tt s
  | some i ↦
      let name : Bytes = (slot i s).name in
      let msg : Bytes = modify_message name offset size in
      (add_range i (record { offset = offset; size = size })
          >> (fits (length msg) 250 >> (log_rvm tid.dir msg >> log_segment tid.dir name msg)))
        s
]

-- `lseek(fd, -1 * seg.size + offset, SEEK_END)`: a target before the start leaves the position.
abbrev pub seek : ℕ → ℕ → ℕ → ℕ → ℕ
seek size offset len cur = if leb size (len + offset) then len + offset - size else cur

-- One range: where the file's position was, and the file. `none` reads an entry that was never
-- written, or outside of the mapping.
abbrev pub write_range : Bytes → ℕ → Option Range → ℕ × Bytes → Option (ℕ × Bytes)
write_range bytes size none (cur, f) = none
write_range bytes size (some r) (cur, f) =
    let start : ℕ = seek size r.offset (length f) cur in
    if leb (r.offset + r.size) (length bytes)
    then some (start + r.size, overwrite start (take r.size (drop r.offset bytes)) f)
    else none

unfoldable pub write_ranges : Bytes → ℕ → List (Option Range) → ℕ × Bytes → Option (ℕ × Bytes)
write_ranges bytes size [] out = some out
write_ranges bytes size (r ∷ rs) out = elim (write_range bytes size r out) [
  | none ↦ none
  | some out' ↦ write_ranges bytes size rs out'
]

abbrev pub recorded : Segment → List (Option Range)
recorded seg = take seg.num_ranges seg.ranges

-- With no range the file is only opened and closed. With one, and the file missing, `write` fails each
-- time and the loop around it does not end.
unfoldable pub write_segment : Bytes → Segment → M (Unit {0})
write_segment dir seg s =
    let path : Bytes = segment_file dir seg.name in
    if seg.num_ranges == 0 then done tt (close_file path s) else elim (s.file path) [
      | none ↦ hang
      | some f ↦ elim (s.memory seg.address) [
        | none ↦ fault
        | some bytes ↦ elim (write_ranges bytes seg.size (recorded seg) (0, f)) [
          | none ↦ fault
          | some (_, f') ↦ done tt (close_file path (set_file path f' s))
        ]
      ]
    ]

unfoldable pub commit_entry : Bytes → ℕ → M (Unit {0})
commit_entry dir j s =
    (write_segment dir (slot j s)
        >> log_both dir (codes "RVM_COMMITTRANS SEGMENT ") (slot j s).name)
      s

unfoldable pub rvm_commit_trans : Trans → M (Unit {0})
rvm_commit_trans trans = for_bases trans.segbases (commit_entry trans.dir)

-- The loop that reads `size` bytes from the file's start over the mapping; at the end of a shorter
-- file, or with no file, `read` makes no headway.
unfoldable pub read_back : Bytes → Segment → M (Unit {0})
read_back path seg s = if seg.size == 0 then done tt (close_file path s) else elim (s.file path) [
  | none ↦ hang
  | some f ↦ if ltb (length f) seg.size then hang else elim (s.memory seg.address) [
    | none ↦ fault
    | some bytes ↦
        if ltb (length bytes) seg.size
        then fault
        else done tt (
            close_file path (record s {
              memory =
                  update_at s.memory seg.address (some (take seg.size f ++ drop seg.size bytes));
            }))
  ]
]

unfoldable pub abort_entry : Bytes → ℕ → M (Unit {0})
abort_entry dir j s =
    let seg : Segment = slot j s in
    let msg : Bytes = codes "RVM_ABORTTRANS " ++ (seg.name ++ newline) in
    (fits (length msg) 100
        >> (log_segment dir seg.name msg
            >> (read_back (segment_file dir seg.name) seg
                >> log_rvm dir (codes "RVM_ABORTTRANS \n"))))
      s

unfoldable pub rvm_abort_trans : Trans → M (Unit {0})
rvm_abort_trans tid = for_bases tid.segbases (abort_entry tid.dir)
