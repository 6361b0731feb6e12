-- ===== src/Rvm/Reuse.antt =====
-- project4/rvm.c: an entry of the table that is used again keeps its count of ranges and its address.
use cs6210proj.Prelude.{
  ℕ, zero, suc, ◌+◌, ◌≤◌, ◌<◌, ◌≡◌, ◌≢◌, refl, ap, sym, ◌∙◌, pos, Option, none, some, List, [], ◌∷◌,
  ◌++◌, Bytes, codes, length, take, replicate, get_or-set_ne, arith, ==-ne, ==-refl, ◌⊎◌, inl, inr,
  eqb_refl, eqb-ne, ◌==◌,
}
use native.Mathlib.Decide.{ℕ_discrete}
use cs6210proj.Rvm.State.{
  Range, Segment, Trans, Rvm, done, fault, unused, fits, contents, set_file, close_file, store_log,
  segment_file, segments_log, newline, log_both, map_failed, ◌>>=◌, ◌>>◌,
}
use cs6210proj.Rvm.Table.{slot, set_slot, rounds, for_base}
use cs6210proj.Rvm.Mapping.{
  rvm_map, map_file, register, create, lock_file, map_private, write_back, last_name, note_segment,
  pad,
}
use cs6210proj.Rvm.Transaction.{
  write_ranges, recorded, write_segment, commit_entry, for_bases, rvm_commit_trans,
  rvm_about_to_modify,
}
use cs6210proj.Rvm.Loops.{
  base_at, >>=-done, >>=-fault, fits-done, for_base-fault, log_both-done, after_logs,
}
use cs6210proj.Rvm.Mapped.{
  CanMap, rvm_map-maps, rvm_map-opens, length-pad_to, write_back-whole, find_base-none,
}
use cs6210proj.Rvm.Unmapping.{find_base-some}

zero_or : (n : ℕ) → (n ≡ 0) ⊎ ((m : ℕ) × (n ≡ suc m))
zero_or zero = inl refl
zero_or (suc m) = inr (m, refl)

take-unwritten :
    (c m : ℕ)
    → 0 < c
    → 0 < m
    → (rest : List (Option Range)) × (take c (replicate m none) ≡ none ∷ rest)
take-unwritten zero m h l = absurd (omega arith)
take-unwritten (suc c) zero h l = absurd (omega arith)
take-unwritten (suc c) (suc m) h l = (take c (replicate m none), refl)

write_segment-unwritten :
    (dir : Bytes) (seg : Segment) (s : Rvm) {bytes f : Bytes} {rest : List (Option Range)}
    → seg.num_ranges ≢ 0
    → s.file (segment_file dir seg.name) ≡ some f
    → s.memory seg.address ≡ some bytes
    → recorded seg ≡ none ∷ rest
    → write_segment dir seg s ≡ fault
unfolding write_segment write_ranges
write_segment-unwritten dir seg s h ef em er = rw (==-ne _ 0 h, ef, em, er, write_segment) refl

-- A segment is mapped, under `CanMap`, into an entry of the table that held ranges before. The call returns, and
-- a commit of a transaction on the segment, with no range announced for it, reads ranges that were never
-- written.
pub rvm_map-reused :
    (dir segname old c : Bytes) (size at n : ℕ) (s : Rvm)
    → CanMap dir segname old c size at n s
    → 0 < (slot n s).num_ranges
    → (t : Rvm) × (rvm_map dir segname size at s ≡ done at t)
      × ((tid : ℕ)
          → rvm_commit_trans (record { segbases = at ∷ []; tid = tid; dir = dir }) t ≡ fault)
unfolding rvm_commit_trans for_bases commit_entry
rvm_map-reused dir segname old c size at n s can leftover =
    let (t, ran, memory, file, entry, count, others, _) =
      rvm_map-maps dir segname old c size at n s can in
    let (rest, unwritten) = take-unwritten (slot n s).num_ranges 10 leftover (omega arith) in
    let address : base_at n t ≡ at = ap (λ g. g.address) entry in
    let path : segment_file dir (slot n t).name ≡ segment_file dir segname =
      ap (λ g. segment_file dir g.name) entry in
    let failed : write_segment dir (slot n t) t ≡ fault =
      write_segment-unwritten dir (slot n t) t (λ e. omega (arith, ap (λ g. g.num_ranges) entry))
        (ap t.file path ∙ file) (ap t.memory address ∙ memory) (ap recorded entry ∙ unwritten) in
    let rounds_n : rounds t.num_mapped ≡ suc n = ap rounds count in
    (
      t,
      ran,
      λ tid. >>=-fault (for_base (rounds t.num_mapped) 0 at (commit_entry dir)) _ (
          for_base-fault (rounds t.num_mapped) 0 at n (commit_entry dir) t (omega arith)
            (omega (arith, rounds_n)) address
            (λ m lo l e.
              can.fresh m (omega arith)
                (ap (λ g. g.address) (sym (others m (λ (q : n ≡ m). omega arith))) ∙ e))
            (>>=-fault (write_segment dir (slot n t)) _ failed)),
    )

last_name-zero : (t : Rvm) → t.num_mapped ≡ pos 0 → last_name t ≡ fault
unfolding last_name
last_name-zero t e = rw (e, last_name)

last_name-suc :
    (m : ℕ) (t : Rvm) → t.num_mapped ≡ pos (suc m) → last_name t ≡ done (slot m t).name t
unfolding last_name
last_name-suc m t e = simp (e, last_name)

-- What a call of `rvm_map` finds when `mmap` returns the address that the entry behind the last still has, which
-- `rvm_unmap` leaves there: no other entry has it, and the segment's file is not empty.
pub record CanRemap (dir segname old c : Bytes) (size at n : ℕ) (s : Rvm) : Type 0 where
  pub count : s.num_mapped ≡ pos n
  pub room : n < 30
  pub table : length s.mapped ≡ 30
  pub unnamed : (m : ℕ) → m < n → (slot m s).name ≢ segname
  pub stale : base_at n s ≡ at
  pub others : (m : ℕ) → m < n → base_at m s ≢ at
  pub succeeds : at ≢ map_failed
  pub old_file : contents (s.file (segment_file dir segname)) ≡ old
  pub not_empty : 0 < length old
  pub small : length old ≤ size
  pub log : s.file (store_log dir) ≡ some c
  pub apart : store_log dir ≢ segment_file dir segname
  pub short : (m : ℕ) → m < n → length (slot m s).name < 75
  pub path_short : length (segment_file dir segname) < 1024
  pub list_short : length (segments_log dir) < 1024

module _ (dir segname old c : Bytes) (size at n : ℕ) (s : Rvm)
    (can : CanRemap dir segname old c size at n s) where
  abbrev path : Bytes
  path = segment_file dir segname

  abbrev padded : Rvm
  padded =
      map_private at (pad old size) (set_file path (pad old size) (lock_file path (create path s)))

  -- Only the size of the entry is set.
  abbrev resized : Rvm
  resized = set_slot n (record (slot n s) { size = size }) padded

  abbrev written : Rvm
  written = set_file path (pad old size) resized

  register-stale : register n (length old == 0) at segname size padded ≡ resized
  unfolding register
  register-stale =
      rw
        (
          ==-ne (length old) 0 (λ e. omega (arith, can.not_empty)),
          find_base-some (n + 1) 0 n at padded (omega arith) (omega arith) can.stale (λ m l e.
              elim (ℕ_discrete m n) [ yes q ↦ q | no q ↦ absurd (can.others m (omega arith) e) ]),
        )
        refl

  slot-resized : (m : ℕ) → m < n → slot m written ≡ slot m s
  slot-resized m l = get_or-set_ne s.mapped _ unused (λ (e : n ≡ m). omega arith)

  memory-padded : padded.memory at ≡ some (pad old size)
  memory-padded = rw (==-ne at map_failed can.succeeds, ==-refl at) refl

  file-padded : padded.file path ≡ some (pad old size)
  file-padded = rw (eqb_refl path) refl

  map_file-written :
      map_file dir segname size at n old (lock_file path (create path s))
      ≡ (last_name >>= λ name.
            log_both dir (codes "RVM_MAP SEGMENT ") name
            >> (fits (length (segments_log dir)) 1024 >> λ s.
                done at (note_segment dir segname (close_file path s))))
          written
  unfolding map_file
  map_file-written = rw register-stale (
      >>=-done (write_back path at size) _ (
        write_back-whole path at size resized (pad old size) memory-padded file-padded
          (length-pad_to old size can.small)))

  rvm_map-written :
      rvm_map dir segname size at s
      ≡ (last_name >>= λ name.
            log_both dir (codes "RVM_MAP SEGMENT ") name
            >> (fits (length (segments_log dir)) 1024 >> λ s.
                done at (note_segment dir segname (close_file path s))))
          written
  rvm_map-written =
      rvm_map-opens dir segname old size at n s can.count can.room can.unnamed can.old_file
        can.small can.path_short
      ∙ map_file-written

  log-written : written.file (store_log dir) ≡ some c
  log-written = rw (eqb-ne path (store_log dir) (λ e. can.apart (sym e))) can.log

  last_name-other : (m : ℕ) → n ≡ suc m → last_name written ≡ done (slot m s).name written
  last_name-other m e =
      last_name-suc m written (can.count ∙ ap pos e)
      ∙ ap (λ g. done g.name written) (slot-resized m (omega arith))

  abbrev left : ℕ → Rvm
  left m = note_segment dir segname (
      close_file path (
        after_logs dir (slot m s).name (codes "RVM_MAP SEGMENT " ++ ((slot m s).name ++ newline))
          written))

  rvm_map-left : (m : ℕ) → n ≡ suc m → rvm_map dir segname size at s ≡ done at (left m)
  rvm_map-left m e =
      rvm_map-written
      ∙ (>>=-done last_name _ (last_name-other m e)
          ∙ (>>=-done (log_both dir (codes "RVM_MAP SEGMENT ") (slot m s).name) _ (
                log_both-done dir (codes "RVM_MAP SEGMENT ") (slot m s).name c written log-written
                  (omega (arith, can.short m (omega arith))))
              ∙ >>=-done (fits (length (segments_log dir)) 1024) _
                  (fits-done (length (segments_log dir)) 1024 _ can.list_short)))

  ignored :
      (m : ℕ)
      → (tid : Trans) (offset len : ℕ)
      → rvm_about_to_modify tid at offset len (left m) ≡ done tt (left m)
  unfolding rvm_about_to_modify
  ignored m tid offset len =
      let rounds_n : rounds s.num_mapped ≡ n = ap rounds can.count in
      rw (
        find_base-none (rounds s.num_mapped) 0 at (left m) (λ x l e.
            can.others x (omega (arith, rounds_n))
              (ap (λ g. g.address) (sym (slot-resized x (omega (arith, rounds_n)))) ∙ e)),
        rvm_about_to_modify,
      )

  -- Under `CanRemap`: where no segment is mapped the call reads in front of the table. Where others are it
  -- returns `at` and the mapping is there, but no segment more is counted, and the calls of
  -- rvm_about_to_modify for it return and change nothing.
  pub rvm_map-stale :
      ((n ≡ 0) × (rvm_map dir segname size at s ≡ fault))
      ⊎ ((n ≢ 0)
          × (t : Rvm) × (rvm_map dir segname size at s ≡ done at t)
          × (t.memory at ≡ some (pad old size))
          × (t.num_mapped ≡ s.num_mapped)
          × ((tid : Trans) (offset len : ℕ) → rvm_about_to_modify tid at offset len t ≡ done tt t))
  rvm_map-stale = elim (zero_or n) [
    | inl e ↦
        inl (
          e,
          rvm_map-written ∙ >>=-fault last_name _ (last_name-zero written (can.count ∙ ap pos e)),
        )
    | inr (m, e) ↦ inr (λ z. omega arith, left m, rvm_map-left m e, memory-padded, refl, ignored m)
  ]
