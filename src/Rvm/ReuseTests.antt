-- ===== src/Rvm/ReuseTests.antt =====
-- project4/rvm.c: entries of the table that are used again, at small stores.
use cs6210proj.Prelude.{
  ℕ, zero, suc, ◌<◌, ◌≡◌, ◌≢◌, refl, ap, pos, none, some, [], ◌∷◌, Bytes, codes, eqb, if◌then◌else◌,
  get_or, length, replicate, arith, ◌⊎◌,
}
use cs6210proj.Rvm.State.{Segment, Trans, Rvm, done, fault, unused, fits}
use cs6210proj.Rvm.Table.{slot, find_base, has_name}
use cs6210proj.Rvm.Mapping.{rvm_map, pad, map_entry, map_file, register, write_back, last_name}
use cs6210proj.Rvm.Transaction.{rvm_commit_trans, rvm_about_to_modify}
use cs6210proj.Rvm.Loops.{base_at}
use cs6210proj.Rvm.Mapped.{CanMap}
use cs6210proj.Rvm.Reuse.{CanRemap, rvm_map-reused, rvm_map-stale}

-- An entry with a name, a base and a range of one byte.
abbrev entry : Bytes → ℕ → Segment
entry name at = record {
  address = at;
  name = name;
  size = 6;
  num_ranges = 1;
  ranges = some (record { offset = 0; size = 1 }) ∷ replicate 9 none;
}

-- Segment "a" was mapped at 4096, "b" at 8192, and the last `2 - n` of them were unmapped.
abbrev store : ℕ → Rvm
store n = record {
  file = λ p.
      if eqb p (codes "d/a")
      then some (replicate 6 1)
      else if eqb p (codes "d/b")
      then some (replicate 6 2)
      else if eqb p (codes "d/store.log")
      then some []
      else none;
  memory = λ a. none;
  mapped = entry (codes "a") 4096 ∷ entry (codes "b") 8192 ∷ replicate 28 unused;
  num_mapped = pos n;
  verbose = 0;
  tid = 7;
  locks = [];
  output = [];
  errors = [];
}

named_a : (m : ℕ) → m < 1 → (slot m (store 1)).name ≢ codes "b"
named_a zero h e = omega (arith, ap (λ b. get_or b 0 0) e)
named_a (suc m) h e = absurd (omega arith)

elsewhere : (m : ℕ) → m < 2 → base_at m (store 1) ≢ 12288
elsewhere zero h e = omega arith
elsewhere (suc zero) h e = omega arith
elsewhere (suc (suc m)) h e = absurd (omega arith)

others : (m : ℕ) → m < 1 → base_at m (store 1) ≢ 8192
others zero h e = omega arith
others (suc m) h e = absurd (omega arith)

store-CanMap : CanMap (codes "d/") (codes "b") (replicate 6 2) [] 6 12288 1 (store 1)
store-CanMap = record {
  count = refl;
  room = omega arith;
  table = refl;
  unnamed = named_a;
  fresh = λ m h e. elsewhere m h e;
  succeeds = omega arith;
  old_file = refl;
  small = omega arith;
  log = refl;
  apart = λ e. cc;
  list_apart = λ e. cc;
  short = omega arith;
  path_short = omega arith;
  list_short = omega arith;
}

-- `mmap` returns a new address.
rvm_map-reused_example :
    (t : Rvm) × (rvm_map (codes "d/") (codes "b") 6 12288 (store 1) ≡ done 12288 t)
    × ((tid : ℕ)
        → rvm_commit_trans (record { segbases = 12288 ∷ []; tid = tid; dir = codes "d/" }) t
          ≡ fault)
rvm_map-reused_example =
    rvm_map-reused (codes "d/") (codes "b") (replicate 6 2) [] 6 12288 1 (store 1) store-CanMap
      (omega arith)

short_names : (m : ℕ) → m < 1 → length (slot m (store 1)).name < 75
short_names zero h = omega arith
short_names (suc m) h = absurd (omega arith)

store-CanRemap : CanRemap (codes "d/") (codes "b") (replicate 6 2) [] 6 8192 1 (store 1)
store-CanRemap = record {
  count = refl;
  room = omega arith;
  table = refl;
  unnamed = named_a;
  stale = refl;
  others = others;
  succeeds = omega arith;
  old_file = refl;
  not_empty = omega arith;
  small = omega arith;
  log = refl;
  apart = λ e. cc;
  short = short_names;
  path_short = omega arith;
  list_short = omega arith;
}

-- `mmap` returns the address at which the segment was before.
rvm_map-stale_example :
    ((◌≡◌ {A = ℕ} 1 0) × (rvm_map (codes "d/") (codes "b") 6 8192 (store 1) ≡ fault))
    ⊎ ((◌≢◌ {A = ℕ} 1 0)
        × (t : Rvm) × (rvm_map (codes "d/") (codes "b") 6 8192 (store 1) ≡ done 8192 t)
        × (t.memory 8192 ≡ some (pad (replicate 6 2) 6))
        × (t.num_mapped ≡ pos 1)
        × ((tid : Trans) (offset len : ℕ) → rvm_about_to_modify tid 8192 offset len t ≡ done tt t))
rvm_map-stale_example =
    rvm_map-stale (codes "d/") (codes "b") (replicate 6 2) [] 6 8192 1 (store 1) store-CanRemap

-- With nothing mapped, at an address that the first entry still has.
front_run : rvm_map (codes "d/") (codes "b") 6 4096 (store 0) ≡ fault
unfolding rvm_map map_entry map_file register write_back last_name fits find_base has_name
front_run = refl
