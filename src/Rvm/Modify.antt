-- ===== src/Rvm/Modify.antt =====
-- project4/rvm.c: rvm_about_to_modify and the ten entries for ranges.
use cs6210proj.Prelude.{
  ℕ, zero, suc, ◌+◌, ◌<◌, ◌≡◌, ◌≢◌, refl, ap, sym, ◌∙◌, some, List, [], ◌∷◌, ◌++◌, map, Bytes,
  length, get_or, set, take, arith, get_or-set_self, get_or-set_ne, subst,
}
use cs6210proj.Rvm.State.{
  Range, Segment, Trans, Rvm, done, fault, unused, fits, store_log, log_rvm, log_segment, ◌>>=◌,
  ◌>>◌,
}
use cs6210proj.Rvm.Table.{slot, set_slot, rounds, find_base}
use cs6210proj.Rvm.Transaction.{
  add_range, recorded, modify_message, rvm_about_to_modify, rvm_commit_trans,
}
use cs6210proj.Rvm.Ranges.{Within}
use cs6210proj.Rvm.Loops.{base_at, >>=-done, fits-done, log_rvm-done, after_log, after_segment_log}
use cs6210proj.Rvm.Commit.{IsMapped, CanLog, rvm_commit_trans-Merged}
use cs6210proj.Rvm.Unmapping.{IsTable, find_base-some}

take-set {ℓ} :
    {A : Type ℓ} (xs : List A) (k : ℕ) (v : A)
    → k < length xs
    → take (suc k) (set xs k v) ≡ take k xs ++ v ∷ []
take-set [] k v h = elim h [ ]
take-set (x ∷ xs) zero v h = refl
take-set (x ∷ xs) (suc k) v h = ap (◌∷◌ x) (take-set xs k v (omega arith))

module _ (tid : Trans) (offset size i : ℕ) (s : Rvm) where
  abbrev pub message : Bytes
  message = modify_message (slot i s).name offset size

  pub rvm_about_to_modify-found :
      find_base (rounds s.num_mapped) 0 (base_at i s) s ≡ some i
      → rvm_about_to_modify tid (base_at i s) offset size s
        ≡ (add_range i (record { offset = offset; size = size })
              >> (fits (length message) 250
                  >> (log_rvm tid.dir message >> log_segment tid.dir (slot i s).name message)))
            s
  unfolding rvm_about_to_modify
  rvm_about_to_modify-found found = rw (found, rvm_about_to_modify)

  add_range-full : (slot i s).num_ranges ≡ 10 → (rng : Range) → add_range i rng s ≡ fault
  unfolding add_range
  add_range-full full rng = rw (full, add_range)

  pub rvm_about_to_modify-full :
      find_base (rounds s.num_mapped) 0 (base_at i s) s ≡ some i
      → (slot i s).num_ranges ≡ 10
      → rvm_about_to_modify tid (base_at i s) offset size s ≡ fault
  rvm_about_to_modify-full found full =
      rvm_about_to_modify-found found ∙ rw (add_range-full full _, ◌>>=◌)

  abbrev pub extended : Segment
  extended = record (slot i s) {
    num_ranges = (slot i s).num_ranges + 1;
    ranges =
        set (slot i s).ranges (slot i s).num_ranges
          (some (record { offset = offset; size = size }));
  }

  pub add_range-room :
      (slot i s).num_ranges < 10
      → add_range i (record { offset = offset; size = size }) s ≡ done tt (set_slot i extended s)
  unfolding add_range
  add_range-room h = ground arith

  pub recorded-extended :
      length (slot i s).ranges ≡ 10
      → (slot i s).num_ranges < 10
      → recorded extended
        ≡ recorded (slot i s) ++ some (record { offset = offset; size = size }) ∷ []
  recorded-extended l h =
      let e : (slot i s).num_ranges + 1 ≡ suc (slot i s).num_ranges = omega arith in
      rw e (take-set (slot i s).ranges (slot i s).num_ranges _ (omega arith))

  abbrev pub after_modify : Rvm
  after_modify =
      after_segment_log tid.dir (slot i s).name message
        (after_log tid.dir message (set_slot i extended s))

  -- With fewer than ten ranges recorded for segment `i` of a table under `IsTable`, ten entries in its
  -- array, the store's log there and a message that fits its buffer, the call ends: the range is recorded
  -- behind the others, every other entry and the memory stay.
  pub rvm_about_to_modify-records :
      (n : ℕ) (c : Bytes)
      → IsTable n s
      → i < n
      → length (slot i s).ranges ≡ 10
      → (slot i s).num_ranges < 10
      → s.file (store_log tid.dir) ≡ some c
      → length message < 250
      → (s' : Rvm) × (rvm_about_to_modify tid (base_at i s) offset size s ≡ done tt s')
        × (recorded (slot i s')
            ≡ recorded (slot i s) ++ some (record { offset = offset; size = size }) ∷ [])
        × ((m : ℕ) → i ≢ m → slot m s' ≡ slot m s)
        × (base_at i s' ≡ base_at i s)
        × (s'.memory ≡ s.memory)
  unfolding log_segment
  rvm_about_to_modify-records n c v h l k log short =
      let new : slot i after_modify ≡ extended =
        get_or-set_self s.mapped i extended unused (omega (arith, v.room, v.entries)) in
      let rounds_n : rounds s.num_mapped ≡ n = ap rounds v.count in
      (
        after_modify,
        rvm_about_to_modify-found (
              find_base-some (rounds s.num_mapped) 0 i (base_at i s) s (omega arith)
                (omega (arith, h, rounds_n)) refl
                (λ m hm. v.addresses m i (omega (arith, rounds_n)) h))
            ∙ (>>=-done (add_range i (record { offset = offset; size = size })) _ (add_range-room k)
                ∙ (>>=-done (fits (length message) 250) _
                      (fits-done (length message) 250 (set_slot i extended s) short)
                    ∙ >>=-done (log_rvm tid.dir message) _
                        (log_rvm-done tid.dir message c (set_slot i extended s) log))),
        ap recorded new ∙ recorded-extended l k,
        λ m hm. get_or-set_ne s.mapped extended unused hm,
        ap (λ g. g.address) new,
        refl,
      )

-- A segment, under `IsMapped` and `CanLog`, with ten ranges recorded that lie in it: a commit writes them and keeps them, so that the next call of
-- `rvm_about_to_modify` for the segment, in whatever transaction, writes behind the end of the array.
pub rvm_about_to_modify-exhausted :
    (dir : Bytes) (n j : ℕ) (bytes f : Bytes) (s : Rvm) (rs : List Range) (c : Bytes) (tid : ℕ)
    (later : Trans) (offset size : ℕ)
    → IsMapped dir n j bytes f s
    → recorded (slot j s) ≡ map some rs
    → Within (slot j s).size rs
    → CanLog dir (slot j s).name c s
    → (slot j s).num_ranges ≡ 10
    → (s' : Rvm) × (rvm_commit_trans
          (record { segbases = base_at j s ∷ []; tid = tid; dir = dir })
          s
        ≡ done tt s')
      × (rvm_about_to_modify later (base_at j s) offset size s' ≡ fault)
rvm_about_to_modify-exhausted dir n j bytes f s rs c tid later offset size mapped er inside can
      full =
    let (_, s', ran, _, _, _, table, count) =
      rvm_commit_trans-Merged dir n j bytes f s mapped rs c tid er inside can in
    let same : (m : ℕ) → slot m s' ≡ slot m s = λ m. ap (λ t. get_or t m unused) table in
    let rounds_n : rounds s'.num_mapped ≡ n = ap rounds (count ∙ mapped.count) in
    let found : find_base (rounds s'.num_mapped) 0 (base_at j s') s' ≡ some j =
      find_base-some (rounds s'.num_mapped) 0 j (base_at j s') s' (omega arith)
        (omega (arith, mapped.index, rounds_n)) refl
        (λ m hm e.
          mapped.only m (omega (arith, rounds_n))
            (ap (λ g. g.address) (sym (same m)) ∙ e ∙ ap (λ g. g.address) (same j))) in
    (
      s',
      ran,
      subst (λ b. rvm_about_to_modify later b offset size s' ≡ fault) (ap (λ g. g.address) (same j))
          (rvm_about_to_modify-full later offset size j s' found
            (ap (λ g. g.num_ranges) (same j) ∙ full)),
    )
