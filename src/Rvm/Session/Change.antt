-- ===== src/Rvm/Session/Change.antt =====
-- project4/rvm.c: a step that changes one mapped segment of a session, and the loops over the bases.
use cs6210proj.Prelude.{
  ℕ, ◌<◌, ◌≡◌, ◌≢◌, refl, ap, sym, ◌∙◌, subst, some, List, [], ◌∷◌, map, Bytes, length, arith,
  ==-refl, ==-ne,
}
use native.Mathlib.Decide.{ℕ_discrete, dec_lt}
use cs6210proj.Rvm.State.{Rvm, done, M, contents, store_log, segment_file, update_at, null}
use cs6210proj.Rvm.Table.{slot, rounds, for_base, find_base}
use cs6210proj.Rvm.Transaction.{for_bases}
use cs6210proj.Rvm.Loops.{base_at, >>=-done, for_base-once}
use cs6210proj.Rvm.Unmapping.{IsTable, find_base-some}
use cs6210proj.Rvm.Ends.{Runs}
use cs6210proj.Rvm.Session.{Entry, Contents, Names, Holds, Session}

module _ (dir : Bytes) (n : ℕ) (segs : ℕ → Entry) where
  pub record Changes (j : ℕ) (s t : Rvm) : Type 0 where
    pub num_mapped : t.num_mapped ≡ s.num_mapped
    pub table : length t.mapped ≡ length s.mapped
    pub slots : (m : ℕ) → j ≢ m → slot m t ≡ slot m s
    pub memory : (a : ℕ) → (segs j).at ≢ a → t.memory a ≡ s.memory a
    pub files :
        (m : ℕ)
        → m < n
        → j ≢ m
        → t.file (segment_file dir (segs m).name) ≡ s.file (segment_file dir (segs m).name)
    pub logged : (c : Bytes) × (t.file (store_log dir) ≡ some c)

abbrev pub AllBelow : ℕ → List ℕ → Type 0
AllBelow k [] = Unit
AllBelow k (j ∷ js) = (j < k) × AllBelow k js

abbrev pub each_of : (ℕ → (ℕ → Contents) → ℕ → Contents) → List ℕ → (ℕ → Contents) → ℕ → Contents
each_of act [] v = v
each_of act (j ∷ js) v = each_of act js (act j v)

abbrev pub bases : (ℕ → Entry) → List ℕ → List ℕ
bases segs js = map (λ j. (segs j).at) js

module _ {dir : Bytes} {n : ℕ} {segs : ℕ → Entry} (names : Names dir n segs) {k : ℕ} where
  pub Session-changed :
      {v : ℕ → Contents} {s t : Rvm} (j : ℕ) (c : Contents)
      → j < k
      → Session dir n segs k v s
      → Changes dir n segs j s t
      → Holds dir (segs j) c (slot j t) t
      → Session dir n segs k (update_at v j c) t
  Session-changed {v} {s} {t} j c l h e new = record {
    count = e.num_mapped ∙ h.count;
    bound = h.bound;
    table = e.table ∙ h.table;
    null_free = e.memory null (names.not_null j (omega (arith, h.bound))) ∙ h.null_free;
    logged = e.logged;
    blank = λ m b. e.slots m (λ q. omega arith) ∙ h.blank m b;
    each = λ m b. elim (ℕ_discrete j m) [
      | yes q ↦
          subst (λ x. Holds dir (segs x) (update_at v j c x) (slot x t) t) q (rw (==-refl j) new)
      | no q ↦ other m b q
    ];
    on_disk = λ m b b'.
        let q : j ≢ m = λ x. omega arith in
        rw (==-ne j m q) (ap contents (e.files m b' q) ∙ h.on_disk m b b');
  }
    where
      other : (m : ℕ) → m < k → j ≢ m → Holds dir (segs m) (update_at v j c m) (slot m t) t
      other m b q =
          let old = h.each m b in
          let elsewhere : (segs j).at ≢ (segs m).at =
            λ x. q (names.addresses j m (omega (arith, h.bound)) (omega (arith, h.bound)) x) in
          rw (e.slots m q, ==-ne j m q)
            (record {
              address = old.address;
              name = old.name;
              size = old.size;
              count = old.count;
              array = old.array;
              announced = old.announced;
              inside = old.inside;
              in_memory = e.memory (segs m).at elsewhere ∙ old.in_memory;
              in_file = e.files m (omega (arith, h.bound)) q ∙ old.in_file;
              memory_size = old.memory_size;
              file_size = old.file_size;
            })

  pub Session-IsTable : {v : ℕ → Contents} {s : Rvm} → Session dir n segs k v s → IsTable k s
  Session-IsTable {v} {s} h = record {
    count = h.count;
    room = omega (arith, h.bound, names.room);
    entries = h.table;
    addresses = λ m m' b b' e.
        names.addresses m m' (omega (arith, h.bound)) (omega (arith, h.bound))
          (sym (h.each m b).address ∙ e ∙ (h.each m' b').address);
    names = λ m m' b b' e.
        names.names m m' (omega (arith, h.bound)) (omega (arith, h.bound))
          (sym (h.each m b).name ∙ e ∙ (h.each m' b').name);
  }

  only_one :
      {v : ℕ → Contents} {s : Rvm} (j : ℕ)
      → j < k
      → Session dir n segs k v s
      → (m : ℕ) → m < k
      → base_at m s ≡ (segs j).at
      → m ≡ j
  only_one j l h m b e = (Session-IsTable h).addresses m j b l (e ∙ sym (h.each j l).address)

  pub find_base-Session :
      {v : ℕ → Contents} {s : Rvm} (j : ℕ)
      → j < k
      → Session dir n segs k v s
      → find_base (rounds s.num_mapped) 0 (segs j).at s ≡ some j
  find_base-Session {v} {s} j l h =
      let rounds_k : rounds s.num_mapped ≡ k = ap rounds h.count in
      find_base-some (rounds s.num_mapped) 0 j (segs j).at s (omega arith) (omega (arith, rounds_k))
        (h.each j l).address (λ m b. only_one j l h m (omega (arith, rounds_k)))

  same_addresses :
      {v w : ℕ → Contents} {s t : Rvm}
      → Session dir n segs k v s
      → Session dir n segs k w t
      → (m : ℕ) → base_at m t ≡ base_at m s
  same_addresses h h' m = elim (dec_lt m k) [
    | yes b ↦ (h'.each m b).address ∙ sym (h.each m b).address
    | no b ↦ ap (λ g. g.address) (h'.blank m (omega arith) ∙ sym (h.blank m (omega arith)))
  ]

  pub for_base-Session :
      {v w : ℕ → Contents} {s t : Rvm} (body : ℕ → M (Unit {0})) (j : ℕ)
      → j < k
      → Session dir n segs k v s
      → body j s ≡ done tt t
      → Session dir n segs k w t
      → for_base (rounds s.num_mapped) 0 (segs j).at body s ≡ done tt t
  for_base-Session {v} {w} {s} {t} body j l h ran h' =
      let rounds_k : rounds s.num_mapped ≡ k = ap rounds h.count in
      for_base-once (rounds s.num_mapped) 0 (segs j).at j body s t (omega arith)
        (omega (arith, rounds_k)) (h.each j l).address
        (λ m b. only_one j l h m (omega (arith, rounds_k))) ran (same_addresses h h')

  -- A body that ends on every mapped segment: so does the loop over any of their bases, in order.
  pub for_bases-Session :
      (body : ℕ → M (Unit {0})) (act : ℕ → (ℕ → Contents) → ℕ → Contents)
      → ((v : ℕ → Contents) (j : ℕ)
          → j < k
          → Runs (Session dir n segs k v) (body j) (Session dir n segs k (act j v)))
      → (js : List ℕ) (v : ℕ → Contents) → AllBelow k js
      → Runs
          (Session dir n segs k v)
          (for_bases (bases segs js) body)
          (Session dir n segs k (each_of act js v))
  unfolding for_bases
  for_bases-Session body act runs [] v l = record { at = λ s h. (tt, s, refl, h) }
  for_bases-Session body act runs (j ∷ js) v l = record {
    at = λ s h.
        let (_, t, ran, h') = (runs v j l.0).at s h in
        let (_, u, ran', h'') = (for_bases-Session body act runs js (act j v) l.1).at t h' in
        (
          tt,
          u,
          >>=-done (for_base (rounds s.num_mapped) 0 (segs j).at body) _
                (for_base-Session body j l.0 h ran h')
              ∙ ran',
          h'',
        );
  }
