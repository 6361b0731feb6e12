-- ===== src/Rvm/Session.antt =====
-- project4/rvm.c: a process that maps segments of a store and changes them, as its segments' bytes in
-- memory, their bytes on disk and the ranges that are announced.
pub mod Logs
pub mod Change
pub mod View
pub mod Announced
pub mod Committed
pub mod Restored
pub mod Transactions
pub mod Mapping
pub mod Start
pub mod Refinement
pub mod Crashed
pub mod Listed
pub mod Full
mod Sample
mod Tests
use cs6210proj.Prelude.{
  ℕ, ◌+◌, ◌≤◌, ◌<◌, ◌≡◌, ◌≢◌, refl, ap, sym, ◌∙◌, pos, none, some, List, [], ◌∷◌, map, Bytes,
  length, arith, Option,
}
use native.Mathlib.Decide.{dec_lt}
use cs6210proj.Rvm.State.{
  Range, Segment, Rvm, done, M, unused, contents, store_log, segments_log, segment_file,
  segment_log, map_failed, null,
}
use cs6210proj.Rvm.Table.{slot}
use cs6210proj.Rvm.Ranges.{Within}
use cs6210proj.Rvm.Transaction.{recorded}
use cs6210proj.Rvm.Loops.{base_at}

-- A segment: the address at which `mmap` puts it, its name and its size.
pub record Entry : Type 0 where
  pub at : ℕ
  pub name : Bytes
  pub size : ℕ

pub record Contents : Type 0 where
  pub bytes : Bytes
  pub file : Bytes
  pub ranges : List Range

-- The segments of a store: different addresses, names that fit the buffers, and no file of one that
-- is a log or another's file.
pub record Names (dir : Bytes) (n : ℕ) (segs : ℕ → Entry) : Type 0 where
  pub room : n ≤ 30
  pub addresses : (m k : ℕ) → m < n → k < n → (segs m).at ≡ (segs k).at → m ≡ k
  pub names : (m k : ℕ) → m < n → k < n → (segs m).name ≡ (segs k).name → m ≡ k
  pub files :
      (m k : ℕ)
      → m < n
      → k < n
      → segment_file dir (segs m).name ≡ segment_file dir (segs k).name
      → m ≡ k
  pub apart : (m : ℕ) → m < n → store_log dir ≢ segment_file dir (segs m).name
  pub list_apart : (m : ℕ) → m < n → segments_log dir ≢ segment_file dir (segs m).name
  pub own_log : (m : ℕ) → m < n → segment_log dir (segs m).name ≢ store_log dir
  pub logs_apart :
      (m k : ℕ) → m < n → k < n → segment_log dir (segs m).name ≢ segment_file dir (segs k).name
  pub short : (m : ℕ) → m < n → length (segs m).name < 75
  pub paths : (m : ℕ) → m < n → length (segment_file dir (segs m).name) < 1000
  pub log_short : length (store_log dir) < 1024
  pub list_short : length (segments_log dir) < 1024
  pub not_null : (m : ℕ) → m < n → (segs m).at ≢ 0
  pub succeeds : (m : ℕ) → m < n → (segs m).at ≢ map_failed

-- The table's entry and the memory and file behind it.
pub record Holds (dir : Bytes) (e : Entry) (c : Contents) (g : Segment) (s : Rvm) : Type 0 where
  pub address : g.address ≡ e.at
  pub name : g.name ≡ e.name
  pub size : g.size ≡ e.size
  pub count : g.num_ranges ≡ length c.ranges
  pub array : length g.ranges ≡ 10
  pub announced : recorded g ≡ map some c.ranges
  pub inside : Within e.size c.ranges
  pub in_memory : s.memory e.at ≡ some c.bytes
  pub in_file : s.file (segment_file dir e.name) ≡ some c.file
  pub memory_size : length c.bytes ≡ e.size
  pub file_size : length c.file ≡ e.size

-- The first `k` of the `n` segments are mapped, and nothing is at NULL; of the others the files are as `v` says, where no
-- file counts as an empty one. What `v` says of their memory and ranges does not matter.
pub record Session (dir : Bytes) (n : ℕ) (segs : ℕ → Entry) (k : ℕ) (v : ℕ → Contents) (s : Rvm)
    : Type 0 where
  pub count : s.num_mapped ≡ pos k
  pub bound : k ≤ n
  pub table : length s.mapped ≡ 30
  pub null_free : s.memory null ≡ none
  pub logged : (c : Bytes) × (s.file (store_log dir) ≡ some c)
  pub blank : (m : ℕ) → k ≤ m → slot m s ≡ unused
  pub each : (m : ℕ) → m < k → Holds dir (segs m) (v m) (slot m s) s
  pub on_disk :
      (m : ℕ) → k ≤ m → m < n → contents (s.file (segment_file dir (segs m).name)) ≡ (v m).file

module _ (dir : Bytes) (n : ℕ) (segs : ℕ → Entry) where
  -- What a step has to leave alone for the session to stay as it is.
  pub record Keeps (s t : Rvm) : Type 0 where
    pub memory : t.memory ≡ s.memory
    pub mapped : t.mapped ≡ s.mapped
    pub num_mapped : t.num_mapped ≡ s.num_mapped
    pub logged : (c : Bytes) × (t.file (store_log dir) ≡ some c)
    pub files :
        (m : ℕ)
        → m < n
        → t.file (segment_file dir (segs m).name) ≡ s.file (segment_file dir (segs m).name)
