-- ===== src/Rvm/State.antt =====
-- project4/rvm.h, project4/rvm.c: the process and its files, and the two logs.
use cs6210proj.Prelude.{
  ℕ, ◌+◌, ◌-◌, ◌^◌, ℤ, Option, none, some, List, [], ◌∷◌, ◌++◌, Bytes, codes, eqb, ltb, ◌==◌,
  if◌then◌else◌, length, take, drop, replicate,
}

pub record Range : Type 0 where
  pub offset : ℕ
  pub size : ℕ

-- `data` is the address of the mapping. `ranges` are the ten entries that `malloc` gives; `none` is an
-- entry that was never written.
pub record Segment : Type 0 where
  pub address : ℕ
  pub name : Bytes
  pub size : ℕ
  pub num_ranges : ℕ
  pub ranges : List (Option Range)

pub record Trans : Type 0 where
  pub segbases : List ℕ
  pub tid : ℕ
  pub dir : Bytes

-- The globals of rvm.c, the process's mappings by address, its record locks by file, what it has
-- printed, and the file system, which outlives it.
pub record Rvm : Type 0 where
  pub file : Bytes → Option Bytes
  pub memory : ℕ → Option Bytes
  pub mapped : List Segment
  pub num_mapped : ℤ
  pub verbose : ℕ
  pub tid : ℕ
  pub locks : List Bytes
  pub output : Bytes
  pub errors : List Bytes

-- `fault` is an access outside of an object, `hang` a loop that does not end.
pub data Outcome {ℓ} (A : Type ℓ) : Type ℓ where
  done : A → Rvm → Outcome A
  fault : Outcome A
  hang : Outcome A

abbrev pub M : Type 0 → Type 0
M A = Rvm → Outcome A

abbrev pub pure : {A : Type 0} → A → M A
pure a s = done a s

infixl 5 ◌>>=◌ ◌>>◌
abbrev pub ◌>>=◌ : {A B : Type 0} → M A → (A → M B) → M B
◌>>=◌ m f s = elim (m s) [ done a t ↦ f a t | fault ↦ fault | hang ↦ hang ]

abbrev pub ◌>>◌ : {B : Type 0} → M (Unit {0}) → M B → M B
m >> k = m >>= λ _. k

-- A text of that many bytes and its terminator, written into a buffer of so many bytes.
unfoldable pub fits : ℕ → ℕ → M (Unit {0})
fits n buffer s = if ltb n buffer then done tt s else fault

abbrev pub max_segs : ℕ
max_segs = 30

abbrev pub unused : Segment
unused = record { address = 0; name = []; size = 0; num_ranges = 0; ranges = [] }

abbrev pub null : ℕ
null = 0

abbrev pub map_failed : ℕ
map_failed = 2 ^ 64 - 1

abbrev pub update {ℓ} : {A : Type ℓ} → (Bytes → A) → Bytes → A → Bytes → A
update f p v q = if eqb p q then v else f q

abbrev pub update_at {ℓ} : {A : Type ℓ} → (ℕ → A) → ℕ → A → ℕ → A
update_at f p v q = if p == q then v else f q

abbrev pub set_file : Bytes → Bytes → Rvm → Rvm
set_file p c s = record s { file = update s.file p (some c) }

abbrev pub contents : Option Bytes → Bytes
contents none = []
contents (some c) = c

abbrev pub drop_lock : Bytes → List Bytes → List Bytes
drop_lock p [] = []
drop_lock p (q ∷ qs) = if eqb p q then drop_lock p qs else q ∷ drop_lock p qs

-- POSIX: closing any descriptor of a file drops all the locks that the process has on the file.
abbrev pub close_file : Bytes → Rvm → Rvm
close_file p s = record s { locks = drop_lock p s.locks }

abbrev pub store_log : Bytes → Bytes
store_log dir = dir ++ codes "store.log"

abbrev pub segments_log : Bytes → Bytes
segments_log dir = dir ++ codes "segments.log"

abbrev pub segment_file : Bytes → Bytes → Bytes
segment_file dir name = dir ++ name

abbrev pub segment_log : Bytes → Bytes → Bytes
segment_log dir name = dir ++ (name ++ codes ".log")

abbrev pub newline : Bytes
newline = codes "\n"

abbrev pub echo : Bytes → Rvm → Rvm
echo msg s = record s { output = if s.verbose == 0 then s.output else s.output ++ msg }

-- The log is opened without O_CREAT. If it is missing `write` fails each time and the loop around it
-- does not end.
unfoldable pub log_rvm : Bytes → Bytes → M (Unit {0})
log_rvm dir msg s = elim (s.file (store_log dir)) [
  | none ↦ hang
  | some c ↦ done tt (close_file (store_log dir) (echo msg (set_file (store_log dir) (c ++ msg) s)))
]

unfoldable pub log_segment : Bytes → Bytes → Bytes → M (Unit {0})
log_segment dir name msg s = done tt (
    close_file (segment_log dir name)
      (set_file (segment_log dir name) (contents (s.file (segment_log dir name)) ++ msg) s))

-- `strcpy(logMessage, what); strcat(logMessage, name); strcat(logMessage, "\n")`, and both logs.
unfoldable pub log_both : Bytes → Bytes → Bytes → M (Unit {0})
log_both dir what name = do
  fits (length what + length name + 1) 100
  log_rvm dir (what ++ (name ++ newline))
  log_segment dir name (what ++ (name ++ newline))

-- `pwrite` of `bytes` at `pos`; a gap before it reads as zeros.
abbrev pub overwrite : ℕ → Bytes → Bytes → Bytes
overwrite pos bytes f =
    take pos (f ++ replicate (pos - length f) 0) ++ (bytes ++ drop (pos + length bytes) f)
