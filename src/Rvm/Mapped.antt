-- ===== src/Rvm/Mapped.antt =====
-- project4/rvm.c: rvm_map, when the table is full and when it maps the segment.
use cs6210proj.Prelude.{
  ℕ, zero, suc, ◌+◌, ◌-◌, ◌≤◌, ◌<◌, ◌≡◌, ◌≢◌, refl, ap, sym, ◌∙◌, pos, Bool, true, false, none,
  some, ◌++◌, Bytes, codes, ◌==◌, ltb, length, drop_all, append-nil, arith, eqb_refl, eqb-ne,
  length-append, ==-ne, replicate, length-replicate, ==-refl, get_or-set_self, get_or-set_ne,
  length-set,
}
use cs6210proj.Rvm.State.{
  Rvm, done, set_file, contents, close_file, store_log, segment_file, newline, log_both, unused,
  fits, null, map_failed, segments_log, overwrite,
}
use cs6210proj.Rvm.Table.{slot, has_name, find_base}
use cs6210proj.Rvm.Mapping.{
  rvm_map, map_entry, map_file, register, append_entry, create, lock_file, print_error, map_private,
  write_back, last_name, note_segment, pad, fresh_entry,
}
use cs6210proj.Rvm.Loops.{base_at, >>=-done, fits-done, log_both-done, after_logs, after_logs-file}
use cs6210proj.Rvm.Commit.{log_apart}

overwrite-whole : (f : Bytes) (k : ℕ) → k ≡ 0 → overwrite k f f ≡ f
overwrite-whole f k e = rw e (ap (◌++◌ f) (drop_all (0 + length f) f (omega arith)) ∙ append-nil f)

pub write_back-whole :
    (path : Bytes) (at size : ℕ) (s : Rvm) (f : Bytes)
    → s.memory at ≡ some f
    → s.file path ≡ some f
    → length f ≡ size
    → write_back path at size s ≡ done tt (set_file path f s)
unfolding write_back
write_back-whole path at size s f em ef l =
    rw (em, ef, overwrite-whole f (length f - size) (omega arith), write_back)

not_lt : (a b : ℕ) → b ≤ a → ltb a b ≡ false
not_lt a b h = ground arith

-- With 30 segments mapped, `rvm_map` returns NULL and does nothing but print.
pub rvm_map-full :
    (dir segname : Bytes) (size at : ℕ) (s : Rvm)
    → s.num_mapped ≡ pos 30
    → rvm_map dir segname size at s
      ≡ done null (print_error "Maximum number of segments reached.\n" s)
unfolding rvm_map map_entry
rvm_map-full dir segname size at s e = rw e

rvm_map-count :
    (dir segname : Bytes) (size at n : ℕ) (s : Rvm)
    → s.num_mapped ≡ pos n
    → rvm_map dir segname size at s ≡ map_entry dir segname size at n s
unfolding rvm_map
rvm_map-count dir segname size at n s e = simp (e, rvm_map)

pub find_base-none :
    (k i base : ℕ) (s : Rvm)
    → ((m : ℕ) → m < i + k → base_at m s ≢ base)
    → find_base k i base s ≡ none
unfolding find_base
find_base-none zero i base s h = refl
find_base-none (suc k) i base s h =
    ground (arith, h i (omega arith), find_base-none k (i + 1) base s (λ m hm. h m (omega arith)))

has_name-none :
    (k i : ℕ) (name : Bytes) (s : Rvm)
    → ((m : ℕ) → m < i + k → (slot m s).name ≢ name)
    → has_name k i name s ≡ false
unfolding has_name
has_name-none zero i name s h = refl
has_name-none (suc k) i name s h =
    rw (eqb-ne (slot i s).name name (h i (omega arith)))
      (has_name-none k (i + 1) name s (λ m hm. h m (omega arith)))

register-append :
    (n : ℕ) (empty : Bool) (at : ℕ) (name : Bytes) (size : ℕ) (s : Rvm)
    → ((m : ℕ) → m < n + 1 → base_at m s ≢ at)
    → register n empty at name size s ≡ append_entry n at name size s
unfolding register
register-append n true at name size s h = refl
register-append n false at name size s h =
    rw (find_base-none (n + 1) 0 at s (λ m hm. h m (omega arith)))

-- A segment whose name the table does not have, with a file no larger than the size asked for.
pub rvm_map-opens :
    (dir segname old : Bytes) (size at n : ℕ) (s : Rvm)
    → s.num_mapped ≡ pos n
    → n < 30
    → ((m : ℕ) → m < n → (slot m s).name ≢ segname)
    → contents (s.file (segment_file dir segname)) ≡ old
    → length old ≤ size
    → length (segment_file dir segname) < 1024
    → let path = segment_file dir segname in
      rvm_map dir segname size at s
      ≡ map_file dir segname size at n old (lock_file path (create path s))
unfolding map_entry
rvm_map-opens dir segname old size at n s count room unnamed old_file small short =
    let path : Bytes = segment_file dir segname in
    rvm_map-count dir segname size at n s count
    ∙ (rw (==-ne n 30 (omega arith)) (
        >>=-done (fits (length path) 1024) _ (fits-done (length path) 1024 s short)
        ∙ rw (
          has_name-none n 0 segname (lock_file path (create path s))
              (λ m hm. unnamed m (omega arith)),
          old_file,
          not_lt size (length old) small,
        )))

pub length-pad_to : (old : Bytes) (size : ℕ) → length old ≤ size → length (pad old size) ≡ size
length-pad_to old size small = omega (
  arith,
  length-append old (replicate (size - length old) 0),
  length-replicate {A = ℕ} (size - length old) 0,
)

-- What a call of `rvm_map` needs to map a segment at `at`: room in the table, a name that no entry
-- has, an address that no entry has nor the one behind the last, a file `old` (empty if missing) no
-- larger than the size asked for, and logs and buffers as in `CanLog`.
pub record CanMap (dir segname old c : Bytes) (size at n : ℕ) (s : Rvm) : Type 0 where
  pub count : s.num_mapped ≡ pos n
  pub room : n < 30
  pub table : length s.mapped ≡ 30
  pub unnamed : (m : ℕ) → m < n → (slot m s).name ≢ segname
  pub fresh : (m : ℕ) → m < n + 1 → base_at m s ≢ at
  pub succeeds : at ≢ map_failed
  pub old_file : contents (s.file (segment_file dir segname)) ≡ old
  pub small : length old ≤ size
  pub log : s.file (store_log dir) ≡ some c
  pub apart : store_log dir ≢ segment_file dir segname
  pub list_apart : segments_log dir ≢ segment_file dir segname
  pub short : length segname < 75
  pub path_short : length (segment_file dir segname) < 1024
  pub list_short : length (segments_log dir) < 1024

module _ (dir segname old c : Bytes) (size at n : ℕ) (s : Rvm)
    (can : CanMap dir segname old c size at n s) where
  abbrev path : Bytes
  path = segment_file dir segname

  abbrev opened : Rvm
  opened = lock_file path (create path s)

  abbrev padded : Rvm
  padded = map_private at (pad old size) (set_file path (pad old size) opened)

  abbrev registered : Rvm
  registered = append_entry n at segname size padded

  abbrev pub written : Rvm
  written = set_file path (pad old size) registered

  rvm_map-open : rvm_map dir segname size at s ≡ map_file dir segname size at n old opened
  rvm_map-open =
      rvm_map-opens dir segname old size at n s can.count can.room can.unnamed can.old_file
        can.small can.path_short

  pub length-pad : length (pad old size) ≡ size
  length-pad = length-pad_to old size can.small

  pub memory-padded : padded.memory at ≡ some (pad old size)
  memory-padded = rw (==-ne at map_failed can.succeeds, ==-refl at)

  file-padded : padded.file path ≡ some (pad old size)
  file-padded = rw (eqb_refl path)

  register-padded : register n (length old == 0) at segname size padded ≡ registered
  register-padded = register-append n _ at segname size padded (λ m hm. can.fresh m hm)

  write_back-written : write_back path at size registered ≡ done tt written
  write_back-written =
      write_back-whole path at size registered (pad old size) memory-padded file-padded length-pad

  pub slot-written : slot n written ≡ fresh_entry at segname size (slot n s)
  slot-written = get_or-set_self s.mapped n _ unused (omega (arith, can.room, can.table))

  log-written : written.file (store_log dir) ≡ some c
  log-written = rw (eqb-ne path (store_log dir) (λ e. can.apart (sym e))) can.log

  last_name-written : last_name written ≡ done segname written
  unfolding last_name
  last_name-written = ap (λ e. done e.name written) slot-written

  abbrev message : Bytes
  message = codes "RVM_MAP SEGMENT " ++ (segname ++ newline)

  abbrev pub logged : Rvm
  logged = after_logs dir segname message written

  abbrev pub mapped_state : Rvm
  mapped_state = note_segment dir segname (close_file path logged)

  map_file-done : map_file dir segname size at n old opened ≡ done at mapped_state
  unfolding map_file
  map_file-done = rw register-padded (
      >>=-done (write_back path at size) _ write_back-written
      ∙ (>>=-done last_name _ last_name-written
          ∙ (>>=-done (log_both dir (codes "RVM_MAP SEGMENT ") segname) _ (
                log_both-done dir (codes "RVM_MAP SEGMENT ") segname c written log-written
                  (omega (arith, can.short)))
              ∙ >>=-done (fits (length (segments_log dir)) 1024) _
                  (fits-done (length (segments_log dir)) 1024 logged can.list_short))))

  pub file-mapped : mapped_state.file path ≡ some (pad old size)
  file-mapped = rw (eqb-ne (segments_log dir) path can.list_apart) (
      after_logs-file dir segname message path written can.apart (log_apart dir segname)
      ∙ rw (eqb_refl path))

  pub rvm_map-done : rvm_map dir segname size at s ≡ done at mapped_state
  rvm_map-done = rvm_map-open ∙ map_file-done

  -- Under `CanMap` the call returns `at`. There the mapping holds the file's bytes and zeros up to the
  -- size, the file has become the same, and the entry behind the last describes the mapping. Its
  -- count of ranges is what the entry held before; the other entries stay.
  pub rvm_map-maps :
      (s' : Rvm) × (rvm_map dir segname size at s ≡ done at s')
      × (s'.memory at ≡ some (pad old size))
      × (s'.file path ≡ some (pad old size))
      × (slot n s' ≡ fresh_entry at segname size (slot n s))
      × (s'.num_mapped ≡ pos (suc n))
      × ((m : ℕ) → n ≢ m → slot m s' ≡ slot m s)
      × (length s'.mapped ≡ length s.mapped)
  rvm_map-maps = (
    mapped_state,
    rvm_map-done,
    memory-padded,
    file-mapped,
    slot-written,
    refl,
    λ m h. get_or-set_ne s.mapped _ unused h,
    length-set s.mapped n _,
  )
