-- ===== src/Rvm/Session/Sample.antt =====
-- project4/rvm.c: a session of three segments, two of which are mapped.
use cs6210proj.Prelude.{
  ℕ, zero, suc, ◌<◌, ◌≤◌, ◌≡◌, refl, ap, pos, none, some, [], ◌∷◌, ◌++◌, map, Bytes, codes, eqb,
  ◌==◌, if◌then◌else◌, length, length-append, get_or, ◌-◌, replicate, arith,
}
use cs6210proj.Rvm.State.{Range, Segment, Rvm, done, unused, segment_file}
use cs6210proj.Rvm.State
use cs6210proj.Rvm.Recovery.{slot-blank}
use cs6210proj.Rvm.Table.{slot}
use cs6210proj.Rvm.Session.{Entry, Contents, Names, Holds, Session}

abbrev pub dir : Bytes
dir = codes "d/"

abbrev pub segs : ℕ → Entry
segs zero = record { at = 4096; name = codes "a"; size = 4 }
segs (suc zero) = record { at = 8192; name = codes "b"; size = 3 }
segs (suc (suc m)) = record { at = 12288; name = codes "c"; size = 5 }

abbrev pub contents : ℕ → Contents
contents zero = record {
  bytes = 1 ∷ 2 ∷ 3 ∷ 4 ∷ [];
  file = 5 ∷ 6 ∷ 7 ∷ 8 ∷ [];
  ranges = record { offset = 1; size = 2 } ∷ [];
}
contents (suc zero) = record {
  bytes = 1 ∷ 1 ∷ 1 ∷ [];
  file = 0 ∷ 0 ∷ 0 ∷ [];
  ranges = record { offset = 0; size = 1 } ∷ record { offset = 2; size = 1 } ∷ [];
}
contents (suc (suc m)) = record { bytes = []; file = 9 ∷ 9 ∷ []; ranges = [] }

abbrev segment_of : ℕ → Segment
segment_of m = record {
  address = (segs m).at;
  name = (segs m).name;
  size = (segs m).size;
  num_ranges = length (contents m).ranges;
  ranges = map some (contents m).ranges ++ replicate (10 - length (contents m).ranges) none;
}

abbrev pub store : Rvm
store = record {
  file = λ p.
      if eqb p (codes "d/a")
      then some (contents 0).file
      else if eqb p (codes "d/b")
      then some (contents 1).file
      else if eqb p (codes "d/c")
      then some (contents 2).file
      else if eqb p (codes "d/store.log")
      then some []
      else none;
  memory = λ a.
      if a == 4096
      then some (contents 0).bytes
      else if a == 8192
      then some (contents 1).bytes
      else none;
  mapped = segment_of 0 ∷ segment_of 1 ∷ replicate 28 unused;
  num_mapped = pos 2;
  verbose = 0;
  tid = 7;
  locks = [];
  output = [];
  errors = [];
}

one_of {ℓ} : (A : ℕ → Type ℓ) → A 0 → A 1 → A 2 → (m : ℕ) → m < 3 → A m
one_of A a b c zero l = a
one_of A a b c (suc zero) l = b
one_of A a b c (suc (suc zero)) l = c
one_of A a b c (suc (suc (suc m))) l = absurd (omega arith)

-- A code that tells the three segments apart.
same_index :
    (code : ℕ → ℕ)
    → code 0 < code 1
    → code 1 < code 2
    → (m k : ℕ) → m < 3
    → k < 3
    → code m ≡ code k
    → m ≡ k
same_index code h h' zero zero l l' e = refl
same_index code h h' (suc zero) (suc zero) l l' e = refl
same_index code h h' (suc (suc zero)) (suc (suc zero)) l l' e = refl
same_index code h h' zero (suc zero) l l' e = absurd (omega arith)
same_index code h h' zero (suc (suc zero)) l l' e = absurd (omega arith)
same_index code h h' (suc zero) zero l l' e = absurd (omega arith)
same_index code h h' (suc zero) (suc (suc zero)) l l' e = absurd (omega arith)
same_index code h h' (suc (suc zero)) zero l l' e = absurd (omega arith)
same_index code h h' (suc (suc zero)) (suc zero) l l' e = absurd (omega arith)
same_index code h h' (suc (suc (suc m))) k l l' e = absurd (omega arith)
same_index code h h' zero (suc (suc (suc k))) l l' e = absurd (omega arith)
same_index code h h' (suc zero) (suc (suc (suc k))) l l' e = absurd (omega arith)
same_index code h h' (suc (suc zero)) (suc (suc (suc k))) l l' e = absurd (omega arith)

length-name : (m : ℕ) → length (segs m).name ≡ 1
length-name zero = refl
length-name (suc zero) = refl
length-name (suc (suc m)) = refl

pub names : Names dir 3 segs
names = record {
  room = omega arith;
  addresses = same_index (λ m. (segs m).at) (omega arith) (omega arith);
  names = λ m k l l' e.
      same_index (λ j. get_or (segs j).name 0 0) (omega arith) (omega arith) m k l l'
        (ap (λ x. get_or x 0 0) e);
  files = λ m k l l' e.
      same_index (λ j. get_or (segment_file dir (segs j).name) 2 0) (omega arith) (omega arith) m k
        l l' (ap (λ x. get_or x 2 0) e);
  apart =
      one_of _ (λ e. omega (arith, ap length e)) (λ e. omega (arith, ap length e))
        (λ e. omega (arith, ap length e));
  list_apart =
      one_of _ (λ e. omega (arith, ap length e)) (λ e. omega (arith, ap length e))
        (λ e. omega (arith, ap length e));
  own_log =
      one_of _ (λ e. omega (arith, ap length e)) (λ e. omega (arith, ap length e))
        (λ e. omega (arith, ap length e));
  logs_apart = λ m k l l' e. omega (
    arith,
    ap length e,
    length-name m,
    length-name k,
    length-append (segs m).name (codes ".log"),
  );
  short = λ m l. omega (arith, length-name m);
  paths = λ m l. omega (arith, length-name m);
  log_short = omega arith;
  list_short = omega arith;
  not_null = one_of _ (λ e. omega arith) (λ e. omega arith) (λ e. omega arith);
  succeeds = one_of _ (λ e. omega arith) (λ e. omega arith) (λ e. omega arith);
}

blank : (m : ℕ) → 2 ≤ m → slot m store ≡ unused
blank zero l = absurd (omega arith)
blank (suc zero) l = absurd (omega arith)
blank (suc (suc m)) l = slot-blank 28 m

holds : (m : ℕ) → m < 2 → Holds dir (segs m) (contents m) (slot m store) store
holds zero l = record {
  address = refl;
  name = refl;
  size = refl;
  count = refl;
  array = refl;
  announced = refl;
  inside = (omega arith, tt);
  in_memory = refl;
  in_file = refl;
  memory_size = refl;
  file_size = refl;
}
holds (suc zero) l = record {
  address = refl;
  name = refl;
  size = refl;
  count = refl;
  array = refl;
  announced = refl;
  inside = (omega arith, (omega arith, tt));
  in_memory = refl;
  in_file = refl;
  memory_size = refl;
  file_size = refl;
}
holds (suc (suc m)) l = absurd (omega arith)

on_disk :
    (m : ℕ)
    → 2 ≤ m
    → m < 3
    → State.contents (store.file (segment_file dir (segs m).name)) ≡ (contents m).file
on_disk zero l l' = absurd (omega arith)
on_disk (suc zero) l l' = absurd (omega arith)
on_disk (suc (suc m)) l l' = refl

pub store-Session : Session dir 3 segs 2 contents store
store-Session = record {
  count = refl;
  bound = omega arith;
  table = refl;
  null_free = refl;
  logged = ([], refl);
  blank = blank;
  each = holds;
  on_disk = on_disk;
}
