-- ===== src/Rvm/Negative.antt =====
-- project4/rvm.c: rvm_unmap with nothing mapped, and rvm_map behind it.
use cs6210proj.Prelude.{
  ℕ, ◌+◌, ◌-◌, ◌<◌, if◌then◌else◌, ◌≡◌, ◌≢◌, refl, ap, ◌∙◌, pos, negsuc, some, List, [], ◌∷◌, Bytes,
  length, arith, Bool-cases, inl, inr, ltb, ◌==◌, ==-ne, ==-refl,
}
use cs6210proj.Rvm.State.{
  Rvm, M, done, fault, fits, pure, contents, set_file, segment_file, map_failed, ◌>>◌, overwrite,
}
use cs6210proj.Rvm.Mapping.{
  rvm_unmap, rvm_map, map_before, map_file_before, write_back, last_name, create, lock_file,
  map_private, pad,
}
use cs6210proj.Rvm.Loops.{>>=-done, >>=-fault}

-- Calls of `rvm_unmap`, one after the other.
abbrev pub unmap_each : Bytes → List ℕ → M (Unit {0})
unmap_each dir [] = pure tt
unmap_each dir (base ∷ bases) = rvm_unmap dir base >> unmap_each dir bases

unmap_each-negative :
    (dir : Bytes) (bases : List ℕ) (n : ℕ) (s : Rvm)
    → s.num_mapped ≡ negsuc n
    → unmap_each dir bases s ≡ done tt (record s { num_mapped = negsuc (n + length bases) })
unfolding rvm_unmap
unmap_each-negative dir [] n s e =
    ap (λ z. done tt (record s { num_mapped = z })) (e ∙ ap negsuc (omega arith))
unmap_each-negative dir (base ∷ bases) n s e =
    let t : Rvm = record s { num_mapped = negsuc (n + 1) } in
    >>=-done (rvm_unmap dir base) _ {s = s} {t = t} (rw (e, rvm_unmap) refl)
    ∙ (unmap_each-negative dir bases (n + 1) t refl
        ∙ ap (λ z. done tt (record s { num_mapped = negsuc z })) (omega arith))

write_back-mapped :
    (path bytes : Bytes) (at size : ℕ) (s : Rvm)
    → s.memory at ≡ some bytes
    → (f : Bytes) × (write_back path at size s ≡ done tt (set_file path f s))
unfolding write_back
write_back-mapped path bytes at size s e = (
  overwrite (length (contents (s.file path)) - size) bytes (contents (s.file path)),
  rw (e, write_back) refl,
)

last_name-negative : (n : ℕ) (s : Rvm) → s.num_mapped ≡ negsuc n → last_name s ≡ fault
unfolding last_name
last_name-negative n s e = rw (e, last_name)

-- The name of the entry two before the table is read at the latest.
map_file_before-fault :
    (dir segname old : Bytes) (size at n : ℕ) (s : Rvm)
    → s.num_mapped ≡ negsuc n
    → at ≢ map_failed
    → map_file_before dir segname size at old s ≡ fault
unfolding map_file_before
map_file_before-fault dir segname old size at n s e succeeds =
    let path : Bytes = segment_file dir segname in
    let t : Rvm = map_private at (pad old size) (set_file path (pad old size) s) in
    let mapped_there : t.memory at ≡ some (pad old size) =
      rw (==-ne at map_failed succeeds, ==-refl at) refl in
    elim (Bool-cases (length old == 0)) [
      | inl empty ↦ rw empty refl
      | inr not_empty ↦
          let (f, ran) = write_back-mapped path (pad old size) at size t mapped_there in
          rw not_empty (
            >>=-done (write_back path at size) _ {s = t} ran
            ∙ >>=-fault last_name _ (last_name-negative n (set_file path f t) e))
    ]

sized-fault :
    (dir segname old : Bytes) (size at n : ℕ) (s : Rvm)
    → s.num_mapped ≡ negsuc n
    → at ≢ map_failed
    → (if ltb size (length old) then fault else map_file_before dir segname size at old s) ≡ fault
sized-fault dir segname old size at n s e succeeds = elim (Bool-cases (ltb size (length old))) [
  | inl large ↦ rw large refl
  | inr small ↦ rw small (map_file_before-fault dir segname old size at n s e succeeds)
]

rvm_map-count :
    (dir segname : Bytes) (size at n : ℕ) (s : Rvm)
    → s.num_mapped ≡ negsuc n
    → rvm_map dir segname size at s ≡ map_before dir segname size at s
unfolding rvm_map
rvm_map-count dir segname size at n s e = simp (e, rvm_map)

rvm_map-negative :
    (dir segname : Bytes) (size at n : ℕ) (s : Rvm)
    → s.num_mapped ≡ negsuc n
    → at ≢ map_failed
    → rvm_map dir segname size at s ≡ fault
unfolding map_before fits
rvm_map-negative dir segname size at n s e succeeds =
    let path : Bytes = segment_file dir segname in
    let s' : Rvm = lock_file path (create path s) in
    rvm_map-count dir segname size at n s e ∙ elim (Bool-cases (ltb (length path) 1024)) [
      | inr long ↦ >>=-fault (fits (length path) 1024) _ {s = s} (rw long refl)
      | inl short ↦
          >>=-done (fits (length path) 1024) _ {s = s} {t = s} (rw short refl)
          ∙ sized-fault dir segname (contents (s'.file path)) size at n s' e succeeds
    ]

-- With nothing mapped, calls of `rvm_unmap`, one or more, all return, whatever their addresses, and leave the
-- files and the memory as they were. Every `rvm_map` behind them whose `mmap` succeeds reaches outside of its
-- buffer, its array or the table, whether the segment is a new one or has a file.
pub rvm_unmap-empty :
    (dir segname : Bytes) (bases : List ℕ) (size at : ℕ) (s : Rvm)
    → s.num_mapped ≡ pos 0
    → 0 < length bases
    → at ≢ map_failed
    → (s' : Rvm) × (unmap_each dir bases s ≡ done tt s')
      × (s'.file ≡ s.file)
      × (s'.memory ≡ s.memory)
      × (rvm_map dir segname size at s' ≡ fault)
unfolding rvm_unmap
rvm_unmap-empty dir segname [] size at s e some_call succeeds = absurd (omega arith)
rvm_unmap-empty dir segname (base ∷ bases) size at s e some_call succeeds =
    let t : Rvm = record s { num_mapped = negsuc 0 } in
    let s' : Rvm = record s { num_mapped = negsuc (0 + length bases) } in
    (
      s',
      >>=-done (rvm_unmap dir base) _ {s = s} {t = t} (rw (e, rvm_unmap) refl)
          ∙ unmap_each-negative dir bases 0 t refl,
      refl,
      refl,
      rvm_map-negative dir segname size at (0 + length bases) s' refl succeeds,
    )
