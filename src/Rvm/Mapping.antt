-- ===== src/Rvm/Mapping.antt =====
-- project4/rvm.c: rvm_init, rvm_map, rvm_unmap, rvm_destroy and rvm_verbose.
use Prim.Native.String.{String}
use cs6210proj.Prelude.{
  ℕ, zero, suc, ◌+◌, ◌-◌, pos, negsuc, sub_ℕ, Bool, Option, none, some, [], ◌∷◌, ◌++◌, Bytes, codes,
  ltb, ◌==◌, if◌then◌else◌, length, replicate,
}
use cs6210proj.Rvm.State.{
  Segment, Rvm, done, fault, hang, M, pure, ◌>>=◌, ◌>>◌, fits, max_segs, null, map_failed, update,
  update_at, set_file, contents, close_file, store_log, segments_log, segment_file, segment_log,
  newline, log_rvm, log_both, overwrite,
}
use cs6210proj.Rvm.Table.{slot, set_slot, find_base, has_name, shift_down}

abbrev pub print_error : String → Rvm → Rvm
print_error msg s = record s { errors = codes msg ∷ s.errors }

abbrev pub last_byte : Bytes → Option ℕ
last_byte [] = none
last_byte (b ∷ []) = some b
last_byte (b ∷ c ∷ bs) = last_byte (c ∷ bs)

-- `store.dir`: the directory with a slash behind it. The last byte of an empty name is out of range.
abbrev pub with_slash : Bytes → Option Bytes
with_slash d = elim (last_byte d) [
  | none ↦ none
  | some b ↦ some (if b == b'/' then d else d ++ codes "/")
]

-- O_CREAT: a file that is missing is made empty.
abbrev pub create : Bytes → Rvm → Rvm
create p s = set_file p (contents (s.file p)) s

unfoldable pub start : Bytes → M Bytes
start dir = do
  fits (length (store_log dir)) 1024
  λ s. done tt (create (store_log dir) (record s { num_mapped = pos 0 }))
  log_rvm dir (codes "RVM_INIT \n")
  pure dir

-- The result is the `dir` of the `rvm_t`.
unfoldable pub rvm_init : Bytes → M Bytes
rvm_init directory s = elim (with_slash directory) [ none ↦ fault | some dir ↦ start dir s ]

-- What registering a segment writes: all of an entry but `numRanges`.
abbrev pub fresh_entry : ℕ → Bytes → ℕ → Segment → Segment
fresh_entry at name size old = record old {
  address = at;
  name = name;
  size = size;
  ranges = replicate 10 none;
}

abbrev pub append_entry : ℕ → ℕ → Bytes → ℕ → Rvm → Rvm
append_entry n at name size s = record (set_slot n (fresh_entry at name size (slot n s)) s) {
  num_mapped = pos (suc n);
}

-- A file that was empty makes a new entry. For another one the entries up to and with
-- `mapped[num_mapped]` are searched for the address first, and one that has it only gets the size.
unfoldable pub register : ℕ → Bool → ℕ → Bytes → ℕ → Rvm → Rvm
register n empty at name size s =
    if empty then append_entry n at name size s else elim (find_base (n + 1) 0 at s) [
      | none ↦ append_entry n at name size s
      | some i ↦ set_slot i (record (slot i s) { size = size }) s
    ]

-- `mmap` of the first `size` bytes, private: a copy, unless it failed.
abbrev pub map_private : ℕ → Bytes → Rvm → Rvm
map_private at bytes s = record s {
  memory = if at == map_failed then s.memory else update_at s.memory at (some bytes);
}

-- The loop that writes the new mapping over the last `size` bytes of its file.
unfoldable pub write_back : Bytes → ℕ → ℕ → M (Unit {0})
write_back path at size s = elim (s.memory at) [
  | none ↦ if size == 0 then done tt s else hang
  | some bytes ↦
      let f : Bytes = contents (s.file path) in
      done tt (set_file path (overwrite (length f - size) bytes f) s)
]

-- `mapped[num_mapped - 1].name`
unfoldable pub last_name : M Bytes
last_name s = elim s.num_mapped [
  | pos zero ↦ fault
  | pos (suc n) ↦ done (slot n s).name s
  | negsuc n ↦ fault
]

abbrev pub note_segment : Bytes → Bytes → Rvm → Rvm
note_segment dir name s =
    set_file (segments_log dir) (contents (s.file (segments_log dir)) ++ (name ++ newline)) s

abbrev pub pad : Bytes → ℕ → Bytes
pad f size = f ++ replicate (size - length f) 0

-- Behind the registration.
abbrev pub finish_map : Bytes → Bytes → ℕ → ℕ → M ℕ
finish_map dir segname size at = do
  let path = segment_file dir segname
  write_back path at size
  name ← last_name
  log_both dir (codes "RVM_MAP SEGMENT ") name
  fits (length (segments_log dir)) 1024
  λ s. done tt (note_segment dir segname (close_file path s))
  pure at

-- From `remains` on, for a file that is not larger than the size asked for.
unfoldable pub map_file : Bytes → Bytes → ℕ → ℕ → ℕ → Bytes → M ℕ
map_file dir segname size at n old = do
  let path = segment_file dir segname
  λ s. done tt (map_private at (pad old size) (set_file path (pad old size) s))
  λ s. done tt (register n (length old == 0) at segname size s)
  finish_map dir segname size at

abbrev pub lock_file : Bytes → Rvm → Rvm
lock_file p s = record s { locks = p ∷ s.locks }

-- A file larger than the size asked for makes the length of the array `padding` negative.
unfoldable pub map_entry : Bytes → Bytes → ℕ → ℕ → ℕ → M ℕ
map_entry dir segname size at n s =
    if n == max_segs
    then done null (print_error "Maximum number of segments reached.\n" s)
    else (fits (length (segment_file dir segname)) 1024 >> λ s.
          let path : Bytes = segment_file dir segname in
          let s' : Rvm = lock_file path (create path s) in
          if has_name n 0 segname s'
          then done null (close_file path (print_error "Illegal attempt to map segment\n" s'))
          else if ltb size (length (contents (s.file path)))
          then fault
          else map_file dir segname size at n (contents (s.file path)) s')
        s

-- The same for a negative count: a file that was empty makes an entry before the table. For another one
-- the search has no rounds and nothing is registered.
unfoldable pub map_file_before : Bytes → Bytes → ℕ → ℕ → Bytes → M ℕ
map_file_before dir segname size at old = do
  let path = segment_file dir segname
  λ s. done tt (map_private at (pad old size) (set_file path (pad old size) s))
  λ s. if length old == 0 then fault else done tt s
  finish_map dir segname size at

-- `map_entry` for a negative count, which is not MAXSEGS; the loop over the names has no rounds.
unfoldable pub map_before : Bytes → Bytes → ℕ → ℕ → M ℕ
map_before dir segname size at = do
  let path = segment_file dir segname
  fits (length path) 1024
  λ s. done tt (lock_file path (create path s))
  λ s.
      if ltb size (length (contents (s.file path)))
      then fault
      else map_file_before dir segname size at (contents (s.file path)) s

-- `at` is the address that `mmap` returns.
unfoldable pub rvm_map : Bytes → Bytes → ℕ → ℕ → M ℕ
rvm_map dir segname size at s = elim s.num_mapped [
  | negsuc n ↦ map_before dir segname size at s
  | pos n ↦ map_entry dir segname size at n s
]

abbrev pub remove_entry : ℕ → ℕ → Rvm → Rvm
remove_entry n i s = record s { mapped = shift_down (n - 1 - i) i s.mapped; num_mapped = sub_ℕ n 1 }

-- `munmap` refuses a mapping of no bytes.
unfoldable pub unmap_at : Bytes → ℕ → ℕ → ℕ → M (Unit {0})
unmap_at dir base n i s =
    if (slot i s).size == 0
    then done tt (print_error "Unable to unmap memory." s)
    else (log_both dir (codes "RVM_UNMAP SEGMENT ") (slot i s).name >> λ s.
          done tt (remove_entry n i s))
        (record s { memory = update_at s.memory base none })

-- With nothing mapped neither loop runs, and `num_mapped--` is all that happens.
unfoldable pub rvm_unmap : Bytes → ℕ → M (Unit {0})
rvm_unmap dir base s = elim s.num_mapped [
  | negsuc n ↦ done tt (record s { num_mapped = negsuc (n + 1) })
  | pos zero ↦ done tt (record s { num_mapped = negsuc 0 })
  | pos (suc n) ↦ elim (find_base (suc n) 0 base s) [
    | none ↦ done tt (print_error "No record of memory to unmap.\n" s)
    | some i ↦ unmap_at dir base (suc n) i s
  ]
]

abbrev pub remove_file : Bytes → Rvm → Rvm
remove_file p s = record s { file = update s.file p none }

unfoldable pub rvm_destroy : Bytes → Bytes → M (Unit {0})
rvm_destroy dir segname = do
  fits (length (segment_log dir segname)) 1024
  λ s. done tt (remove_file (segment_log dir segname) (remove_file (segment_file dir segname) s))
  fits (length (codes "RVM_DESTROY SEGMENT ") + length segname + 1) 100
  log_rvm dir (codes "RVM_DESTROY SEGMENT " ++ (segname ++ newline))

unfoldable pub rvm_verbose : ℕ → M (Unit {0})
rvm_verbose enable_flag s = done tt (record s { verbose = enable_flag })
