-- ===== src/Rvm/Unmapping.antt =====
-- project4/rvm.c: the table `mapped` and rvm_unmap.
use cs6210proj.Prelude.{
  ℕ, zero, suc, ◌+◌, ◌-◌, ◌≤◌, ◌<◌, ◌≡◌, ◌≢◌, refl, ap, sym, ◌∙◌, pos, none, some, List, ◌++◌,
  Bytes, codes, leb, ltb, ◌&&◌, if◌then◌else◌, length, get_or, set, length-set, get_or-set_self,
  get_or-set_ne, arith, ==-ne,
}
use native.Mathlib.Decide.{ℕ_discrete}
use cs6210proj.Rvm.State.{Segment, Rvm, done, unused, store_log, newline, log_both, update_at}
use cs6210proj.Rvm.Table.{slot, shift_down, find_base}
use cs6210proj.Rvm.Mapping.{rvm_unmap, unmap_at, remove_entry}
use cs6210proj.Rvm.Loops.{base_at, >>=-done, log_both-done, after_logs}
use cs6210proj.Rvm.Mapped.{find_base-none}

length-shift_down : (k i : ℕ) (t : List Segment) → length (shift_down k i t) ≡ length t
unfolding shift_down
length-shift_down zero i t = refl
length-shift_down (suc k) i t =
    length-shift_down k (i + 1) (set t i (get_or t (i + 1) unused))
    ∙ length-set t i (get_or t (i + 1) unused)

-- The entries from `i` on move down by one, `k` of them.
get_or-shift_down :
    (k i m : ℕ) (t : List Segment)
    → i + k < length t
    → get_or (shift_down k i t) m unused
      ≡ (if leb i m && ltb m (i + k) then get_or t (m + 1) unused else get_or t m unused)
unfolding shift_down
get_or-shift_down zero i m t h = ground arith
get_or-shift_down (suc k) i m t h =
    let v : Segment = get_or t (i + 1) unused in
    let rest : get_or (shift_down k (i + 1) (set t i v)) m unused ≡ (
        if leb (i + 1) m && ltb m (i + 1 + k)
        then get_or (set t i v) (m + 1) unused
        else get_or (set t i v) m unused) =
      get_or-shift_down k (i + 1) m (set t i v) (omega (arith, length-set t i v)) in
    rest ∙ elim (ℕ_discrete i m) [
      | yes e ↦ ground (
        arith,
        get_or-set_self t i v unused (omega arith),
        ap (λ j. get_or (set t i v) j unused) e,
        ap (λ j. get_or t (j + 1) unused) e,
      )
      | no e ↦ ground (
        arith,
        get_or-set_ne t {i = i} {j = m} v unused e,
        get_or-set_ne t {i = i} {j = m + 1} v unused,
      )
    ]

-- The table of `n` segments: `num_mapped` entries of an array of thirty, no two of them at one address
-- or under one name.
pub record IsTable (n : ℕ) (s : Rvm) : Type 0 where
  pub count : s.num_mapped ≡ pos n
  pub room : n ≤ 30
  pub entries : length s.mapped ≡ 30
  pub addresses : (m k : ℕ) → m < n → k < n → base_at m s ≡ base_at k s → m ≡ k
  pub names : (m k : ℕ) → m < n → k < n → (slot m s).name ≡ (slot k s).name → m ≡ k

-- Where an entry stood before entry `i` was removed.
abbrev pub before : ℕ → ℕ → ℕ
before i m = if ltb m i then m else m + 1

before-injective : (i m k : ℕ) → before i m ≡ before i k → m ≡ k
before-injective i m k e = ground arith

apart_from : (i m : ℕ) → before i m ≢ i
apart_from i m = ground arith

pub slot-remove :
    (n i m : ℕ) (s : Rvm)
    → i < n
    → n ≤ length s.mapped
    → m < n - 1
    → slot m (remove_entry n i s) ≡ slot (before i m) s
slot-remove n i m s h l k = get_or-shift_down (n - 1 - i) i m s.mapped (omega arith) ∙ ground arith

pub remove_entry-IsTable :
    (n i : ℕ) (s : Rvm) → IsTable n s → i < n → IsTable (n - 1) (remove_entry n i s)
remove_entry-IsTable n i s v h = record {
  count = ground (arith, v.room);
  room = omega (arith, v.room);
  entries = length-shift_down (n - 1 - i) i s.mapped ∙ v.entries;
  addresses = λ m k hm hk e. before-injective i m k (
      v.addresses (before i m) (before i k) (ground arith) (ground arith)
        (ap (λ g. g.address) (sym (moved m hm)) ∙ e ∙ ap (λ g. g.address) (moved k hk)));
  names = λ m k hm hk e. before-injective i m k (
      v.names (before i m) (before i k) (ground arith) (ground arith)
        (ap (λ g. g.name) (sym (moved m hm)) ∙ e ∙ ap (λ g. g.name) (moved k hk)));
}
  where
    moved : (m : ℕ) → m < n - 1 → slot m (remove_entry n i s) ≡ slot (before i m) s
    moved m hm = slot-remove n i m s h (omega (arith, v.room, v.entries)) hm

pub find_base-some :
    (k i j base : ℕ) (s : Rvm)
    → i ≤ j
    → j < i + k
    → base_at j s ≡ base
    → ((m : ℕ) → m < i + k → base_at m s ≡ base → m ≡ j)
    → find_base k i base s ≡ some j
unfolding find_base
find_base-some zero i j base s lo hi e only = absurd (omega arith)
find_base-some (suc k) i j base s lo hi e only = elim (ℕ_discrete (base_at i s) base) [
  | yes hit ↦ ground (arith, hit, only i (omega arith) hit)
  | no miss ↦
      let later : i ≢ j = λ (q : i ≡ j). miss (ap (λ m. base_at m s) q ∙ e) in
      ground (
        arith,
        find_base-some k (i + 1) j base s (omega (arith, later)) (omega arith) e
            (λ m hm. only m (omega arith)),
      )
]

-- the state in which the table is shifted
abbrev pub unmapped : Bytes → ℕ → Rvm → Rvm
unmapped dir i s =
    after_logs dir (slot i s).name (codes "RVM_UNMAP SEGMENT " ++ ((slot i s).name ++ newline))
      (record s { memory = update_at s.memory (base_at i s) none })

unmap_at-done :
    (dir c : Bytes) (n i : ℕ) (s : Rvm)
    → (slot i s).size ≢ 0
    → s.file (store_log dir) ≡ some c
    → length (slot i s).name < 75
    → unmap_at dir (base_at i s) n i s ≡ done tt (remove_entry n i (unmapped dir i s))
unfolding unmap_at
unmap_at-done dir c n i s z log short = rw (==-ne (slot i s).size 0 z) (
    >>=-done (log_both dir (codes "RVM_UNMAP SEGMENT ") (slot i s).name) _ (
      log_both-done dir (codes "RVM_UNMAP SEGMENT ") (slot i s).name c _ log
        (omega (arith, short))))

rvm_unmap-found :
    (dir : Bytes) (base n i : ℕ) (s : Rvm)
    → s.num_mapped ≡ pos (suc n)
    → find_base (suc n) 0 base s ≡ some i
    → rvm_unmap dir base s ≡ unmap_at dir base (suc n) i s
unfolding rvm_unmap
rvm_unmap-found dir base n i s e found = simp (e, found, rvm_unmap)

pub unmapped-IsTable :
    (dir : Bytes) (n i : ℕ) (s : Rvm) → IsTable n s → IsTable n (unmapped dir i s)
unmapped-IsTable dir n i s v = record {
  count = v.count;
  room = v.room;
  entries = v.entries;
  addresses = v.addresses;
  names = v.names;
}

pub rvm_unmap-state :
    (dir c : Bytes) (n i : ℕ) (s : Rvm)
    → IsTable (suc n) s
    → i < suc n
    → (slot i s).size ≢ 0
    → s.file (store_log dir) ≡ some c
    → length (slot i s).name < 75
    → rvm_unmap dir (base_at i s) s ≡ done tt (remove_entry (suc n) i (unmapped dir i s))
rvm_unmap-state dir c n i s v h z log short =
    rvm_unmap-found dir (base_at i s) n i s v.count (
      find_base-some (suc n) 0 i (base_at i s) s (omega arith) (omega arith) refl
        (λ m hm. v.addresses m i (omega arith) h))
    ∙ unmap_at-done dir c (suc n) i s z log short

-- `rvm_unmap` of a segment of a table under `IsTable`, with a size other than 0, a name shorter than
-- 75 bytes and the store's log there: the call ends, the memory at its base is gone, the entry is out
-- of the table and the others are in it in their order, so that the base is no longer found.
pub rvm_unmap-removes :
    (dir c : Bytes) (n i : ℕ) (s : Rvm)
    → IsTable n s
    → i < n
    → (slot i s).size ≢ 0
    → s.file (store_log dir) ≡ some c
    → length (slot i s).name < 75
    → (s' : Rvm) × (rvm_unmap dir (base_at i s) s ≡ done tt s')
      × IsTable (n - 1) s'
      × (s'.memory (base_at i s) ≡ none)
      × ((m : ℕ) → m < n - 1 → slot m s' ≡ slot (before i m) s)
      × (find_base (n - 1) 0 (base_at i s) s' ≡ none)
rvm_unmap-removes dir c zero i s v h z log short = absurd (omega arith)
rvm_unmap-removes dir c (suc n) i s v h z log short =
    let table : IsTable (suc n) (unmapped dir i s) = unmapped-IsTable dir (suc n) i s v in
    let moved : (m : ℕ)
        → m < suc n - 1
        → slot m (remove_entry (suc n) i (unmapped dir i s)) ≡ slot (before i m) s =
      λ m hm. slot-remove (suc n) i m (unmapped dir i s) h (omega (arith, v.room, v.entries)) hm in
    (
      remove_entry (suc n) i (unmapped dir i s),
      rvm_unmap-state dir c n i s v h z log short,
      remove_entry-IsTable (suc n) i (unmapped dir i s) table h,
      ground arith,
      moved,
      find_base-none (suc n - 1) 0 (base_at i s) _ (λ m hm e. apart_from i m (
          v.addresses (before i m) i (ground arith) h
            (ap (λ g. g.address) (sym (moved m (omega arith))) ∙ e))),
    )
