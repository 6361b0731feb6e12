-- ===== src/Rvm/Programs/Named.antt =====
-- project4/maxsegments.c: the names of its segments.
use cs6210proj.Prelude.{
  ℕ, ◌+◌, ◌*◌, ◌-◌, ◌≤◌, ◌<◌, ◌≡◌, ◌≢◌, refl, ap, sym, ◌∙◌, [], ◌∷◌, Bytes, codes, length,
  length-append, get_or, drop, arith, print_int, Bool, all_below, all_below-each, true, leb, ◌&&◌,
  ◌==◌,
}
use cs6210proj.Rvm.State.{segment_file, segment_log, store_log, segments_log, map_failed}
use cs6210proj.Rvm.Session.{Entry, Names}
use cs6210proj.Rvm.Programs.Limits.{seg_name}
use cs6210proj.Rvm.Programs.Shared.{store_dir}

-- The number that the digits write.
number_from : ℕ → Bytes → ℕ
number_from acc [] = acc
number_from acc (d ∷ digits) = number_from (10 * acc + (d - b'0')) digits

abbrev number : Bytes → ℕ
number name = number_from 0 (drop 7 name)

is_plain : ℕ → Bool
is_plain m =
    (number (seg_name m) == m) && (leb 8 (length (seg_name m)) && leb (length (seg_name m)) 9)

plain : (m : ℕ) → m < 31 → is_plain m ≡ true
unfolding is_plain seg_name print_int number_from all_below
plain = all_below-each 31 is_plain refl

number-seg_name : (m : ℕ) → m < 31 → number (seg_name m) ≡ m
unfolding is_plain
number-seg_name m l = ground (arith, plain m l)

pub seg_name-short : (m : ℕ) → m < 31 → (8 ≤ length (seg_name m)) × (length (seg_name m) ≤ 9)
unfolding is_plain
seg_name-short m l = (ground (arith, plain m l), ground (arith, plain m l))

pub seg_name-apart : (m k : ℕ) → m < 31 → k < 31 → seg_name m ≡ seg_name k → m ≡ k
seg_name-apart m k b c e = sym (number-seg_name m b) ∙ (ap number e ∙ number-seg_name k c)

pub length-log : (m : ℕ) → length (segment_log store_dir (seg_name m)) ≡ 17 + length (seg_name m)
length-log m = omega (arith, length-append (seg_name m) (codes ".log"))

-- No file of one of the 31 is another's, or a log.
pub files-apart :
    (m k : ℕ)
    → m < 31
    → k < 31
    → segment_file store_dir (seg_name m) ≡ segment_file store_dir (seg_name k)
    → m ≡ k
files-apart m k b c e = seg_name-apart m k b c (ap (drop 13) e)

pub log-apart : (m : ℕ) → store_log store_dir ≢ segment_file store_dir (seg_name m)
unfolding seg_name
log-apart m e = omega (arith, ap (λ x. get_or x 13 0) e)

pub list-apart : (m : ℕ) → m < 31 → segments_log store_dir ≢ segment_file store_dir (seg_name m)
list-apart m b e = omega (arith, ap length e, seg_name-short m b)

pub own_log-apart : (m : ℕ) → m < 31 → segment_log store_dir (seg_name m) ≢ store_log store_dir
own_log-apart m b e = omega (arith, ap length e, length-log m, seg_name-short m b)

pub logs-apart :
    (m k : ℕ)
    → m < 31
    → k < 31
    → segment_log store_dir (seg_name m) ≢ segment_file store_dir (seg_name k)
logs-apart m k b c e =
    omega (arith, ap length e, length-log m, seg_name-short m b, seg_name-short k c)

-- Addresses that `mmap` can return, of mappings that are there together.
pub record AreAddresses (n : ℕ) (at : ℕ → ℕ) : Type 0 where
  pub apart : (m k : ℕ) → m < n → k < n → at m ≡ at k → m ≡ k
  pub not_null : (m : ℕ) → m < n → at m ≢ 0
  pub succeeds : (m : ℕ) → m < n → at m ≢ map_failed

abbrev pub max_segs : (ℕ → ℕ) → ℕ → Entry
max_segs at m = record { at = at m; name = seg_name m; size = 10000 }

pub max-Names : (at : ℕ → ℕ) → AreAddresses 30 at → Names store_dir 30 (max_segs at)
max-Names at a = record {
  room = omega arith;
  addresses = λ m k b c e. a.apart m k b c e;
  names = λ m k b c e. seg_name-apart m k (omega arith) (omega arith) e;
  files = λ m k b c e. files-apart m k (omega arith) (omega arith) e;
  apart = λ m b e. log-apart m e;
  list_apart = λ m b e. list-apart m (omega arith) e;
  own_log = λ m b e. own_log-apart m (omega arith) e;
  logs_apart = λ m k b c e. logs-apart m k (omega arith) (omega arith) e;
  short = λ m b. omega (arith, seg_name-short m (omega arith));
  paths = λ m b. omega (arith, seg_name-short m (omega arith));
  log_short = omega arith;
  list_short = omega arith;
  not_null = λ m b. a.not_null m b;
  succeeds = λ m b. a.succeeds m b;
}
