-- ===== src/Rvm/Loops.antt =====
-- project4/rvm.c: the loops over the table, when a base stands in it once or not at all; and the logs.
use cs6210proj.Prelude.{
  ℕ, zero, suc, ◌+◌, ◌≤◌, ◌<◌, ◌≡◌, ◌≢◌, refl, ap, sym, ◌∙◌, some, [], ◌∷◌, ◌++◌, Bytes, length,
  arith, eqb-ne, pos, get_or,
}
use native.Mathlib.Decide.{ℕ_discrete}
use cs6210proj.Rvm.State.{
  Rvm, done, fault, ◌>>=◌, M, fits, set_file, contents, close_file, echo, store_log, segment_log,
  newline, log_rvm, log_segment, log_both, unused,
}
use cs6210proj.Rvm.Table.{slot, for_base, rounds}
use cs6210proj.Rvm.Transaction.{for_bases}

abbrev pub base_at : ℕ → Rvm → ℕ
base_at j s = (slot j s).address

pub for_base-skip :
    (k i base : ℕ) (body : ℕ → M (Unit {0})) (s : Rvm)
    → ((j : ℕ) → i ≤ j → j < i + k → base_at j s ≢ base)
    → for_base k i base body s ≡ done tt s
unfolding for_base
for_base-skip zero i base body s h = refl
for_base-skip (suc k) i base body s h = ground (
  arith,
  h i (omega arith) (omega arith),
  for_base-skip k (i + 1) base body s (λ j lo hi. h j (omega arith) (omega arith)),
)

-- The body runs once, and leaves the addresses of the table as they are.
pub for_base-once :
    (k i base j : ℕ) (body : ℕ → M (Unit {0})) (s s' : Rvm)
    → i ≤ j
    → j < i + k
    → base_at j s ≡ base
    → ((m : ℕ) → m < i + k → base_at m s ≡ base → m ≡ j)
    → body j s ≡ done tt s'
    → ((m : ℕ) → base_at m s' ≡ base_at m s)
    → for_base k i base body s ≡ done tt s'
unfolding for_base
for_base-once zero i base j body s s' lo hi e only run same = absurd (omega arith)
for_base-once (suc k) i base j body s s' lo hi e only run same =
    elim (ℕ_discrete (base_at i s) base) [
      | yes hit ↦
          let first : i ≡ j = only i (omega arith) hit in
          let run' : body i s ≡ done tt s' = ap (λ m. body m s) first ∙ run in
          ground (
            arith,
            hit,
            run',
            for_base-skip k (i + 1) base body s' (λ m lo' hi' here.
                absurd (omega (arith, only m (omega arith) (sym (same m) ∙ here)))),
          )
      | no miss ↦ ground (
        arith,
        for_base-once k (i + 1) base j body s s' (next miss) (omega arith) e
            (λ m hm. only m (omega arith)) run same,
      )
    ]
  where
    next : base_at i s ≢ base → i + 1 ≤ j
    next miss = elim (ℕ_discrete i j) [
      | yes here ↦ absurd (miss (ap (λ m. base_at m s) here ∙ e))
      | no other ↦ omega arith
    ]

-- The body fails at the first entry with the base.
pub for_base-fault :
    (k i base j : ℕ) (body : ℕ → M (Unit {0})) (s : Rvm)
    → i ≤ j
    → j < i + k
    → base_at j s ≡ base
    → ((m : ℕ) → i ≤ m → m < j → base_at m s ≢ base)
    → body j s ≡ fault
    → for_base k i base body s ≡ fault
unfolding for_base
for_base-fault zero i base j body s lo hi e first ran = absurd (omega arith)
for_base-fault (suc k) i base j body s lo hi e first ran = elim (ℕ_discrete i j) [
  | yes q ↦
      let hit : base_at i s ≡ base = ap (λ m. base_at m s) q ∙ e in
      let failed : body i s ≡ fault = ap (λ m. body m s) q ∙ ran in ground (arith, hit, failed)
  | no q ↦ ground (
    arith,
    first i (omega arith) (omega arith),
    for_base-fault k (i + 1) base j body s (omega arith) (omega arith) e
        (λ m lo' hi'. first m (omega arith) hi') ran,
  )
]

pub >>=-done :
    {A B : Type 0} (m : M A) (f : A → M B) {a : A} {s t : Rvm}
    → m s ≡ done a t
    → (m >>= f) s ≡ f a t
>>=-done m f e = rw (e, ◌>>=◌)

pub >>=-fault : {A B : Type 0} (m : M A) (f : A → M B) {s : Rvm} → m s ≡ fault → (m >>= f) s ≡ fault
>>=-fault m f e = rw (e, ◌>>=◌)

pub fits-done : (n buffer : ℕ) (s : Rvm) → n < buffer → fits n buffer s ≡ done tt s
unfolding fits
fits-done n buffer s h = ground arith

-- A transaction of one base.
pub for_bases-once :
    (n j : ℕ) (body : ℕ → M (Unit {0})) (s s' : Rvm)
    → s.num_mapped ≡ pos n
    → j < n
    → ((m : ℕ) → m < n → base_at m s ≡ base_at j s → m ≡ j)
    → body j s ≡ done tt s'
    → s'.mapped ≡ s.mapped
    → for_bases (base_at j s ∷ []) body s ≡ done tt s'
unfolding for_bases
for_bases-once n j body s s' count index only run table =
    let rounds_n : rounds s.num_mapped ≡ n = ap rounds count in
    >>=-done (for_base (rounds s.num_mapped) 0 (base_at j s) body) _ (
      for_base-once (rounds s.num_mapped) 0 (base_at j s) j body s s' (omega arith) (omega arith)
        refl (λ m h. only m (omega arith)) run (λ m. ap (λ t. (get_or t m unused).address) table))

-- Where the two logs go.
abbrev pub after_log : Bytes → Bytes → Rvm → Rvm
after_log dir msg s =
    close_file (store_log dir)
      (echo msg (set_file (store_log dir) (contents (s.file (store_log dir)) ++ msg) s))

abbrev pub after_segment_log : Bytes → Bytes → Bytes → Rvm → Rvm
after_segment_log dir name msg s =
    close_file (segment_log dir name)
      (set_file (segment_log dir name) (contents (s.file (segment_log dir name)) ++ msg) s)

abbrev pub after_logs : Bytes → Bytes → Bytes → Rvm → Rvm
after_logs dir name msg s = after_segment_log dir name msg (after_log dir msg s)

-- What a log needs to be written: the store's log is there, and the message fits its buffer.
pub log_rvm-done :
    (dir msg c : Bytes) (s : Rvm)
    → s.file (store_log dir) ≡ some c
    → log_rvm dir msg s ≡ done tt (after_log dir msg s)
unfolding log_rvm
log_rvm-done dir msg c s e = rw (e, log_rvm)

pub log_both-done :
    (dir what name c : Bytes) (s : Rvm)
    → s.file (store_log dir) ≡ some c
    → length what + length name + 1 < 100
    → log_both dir what name s ≡ done tt (after_logs dir name (what ++ (name ++ newline)) s)
unfolding log_both log_segment
log_both-done dir what name c s e h =
    >>=-done (fits (length what + length name + 1) 100) _ (fits-done _ 100 s h)
    ∙ >>=-done (log_rvm dir (what ++ (name ++ newline))) _ (log_rvm-done dir _ c s e)

-- The logs leave every other file alone.
pub after_logs-file :
    (dir name msg p : Bytes) (s : Rvm)
    → store_log dir ≢ p
    → segment_log dir name ≢ p
    → (after_logs dir name msg s).file p ≡ s.file p
after_logs-file dir name msg p s a b =
    rw (eqb-ne (segment_log dir name) p b, eqb-ne (store_log dir) p a)
