-- ===== src/Rvm/Session/Mapping.antt =====
-- project4/rvm.c: a session from rvm_init on, and rvm_map and rvm_destroy in it.
use cs6210proj.Prelude.{
  ℕ, List, ◌+◌, ◌≤◌, ◌<◌, ◌≡◌, ◌≢◌, refl, ap, sym, ◌∙◌, subst, pos, some, ◌++◌, Bytes, codes,
  length, get_or-set_ne, length-set, arith, eqb, eqb_refl, eqb-ne, ==-ne, ==-refl, Bool-cases, inl,
  inr,
}
use native.Mathlib.Decide.{ℕ_discrete, dec_lt}
use cs6210proj.Rvm.State.{
  Rvm, unused, store_log, segments_log, segment_log, segment_file, newline, set_file, contents,
  map_failed, null,
}
use cs6210proj.Rvm.Table.{slot}
use cs6210proj.Rvm.Mapping.{rvm_map}
use cs6210proj.Rvm.Loops.{after_log, after_segment_log}
use cs6210proj.Rvm.Mapped.{
  CanMap, mapped_state, rvm_map-done, written, memory-padded, file-mapped, slot-written, length-pad,
}
use cs6210proj.Rvm.Ends.{Gives}
use cs6210proj.Rvm.Session.{Entry, Contents, Names, Holds, Session}
use cs6210proj.Rvm.Session.View.{opened}

-- The store's log stays when a file is written.
pub set_file-logged :
    (dir p x : Bytes) (s : Rvm)
    → ((c : Bytes) × (s.file (store_log dir) ≡ some c))
    → (c : Bytes) × ((set_file p x s).file (store_log dir) ≡ some c)
set_file-logged dir p x s (c, e) = elim (Bool-cases (eqb p (store_log dir))) [
  | inl same ↦ (x, rw same)
  | inr other ↦ (c, rw other e)
]

module _ {dir : Bytes} {n : ℕ} {segs : ℕ → Entry} (names : Names dir n segs) where
  Session-CanMap :
      {k : ℕ} {v : ℕ → Contents} {s : Rvm}
      → (h : Session dir n segs k v s) → k < n
      → length (v k).file ≤ (segs k).size
      → CanMap dir (segs k).name (v k).file h.logged.0 (segs k).size (segs k).at k s
  Session-CanMap {k} {v} {s} h l small = record {
    count = h.count;
    room = omega (arith, names.room);
    table = h.table;
    unnamed = λ m b e.
        let q : m ≡ k = names.names m k (omega arith) l (sym (h.each m b).name ∙ e) in omega arith;
    fresh = λ m b e. elim (dec_lt m k) [
      | yes c ↦
          let q : m ≡ k = names.addresses m k (omega arith) l (sym (h.each m c).address ∙ e) in
          omega arith
      | no c ↦ names.not_null k l (sym e ∙ ap (λ g. g.address) (h.blank m (omega arith)))
    ];
    succeeds = names.succeeds k l;
    old_file = h.on_disk k (omega arith) l;
    small = small;
    log = h.logged.1;
    apart = names.apart k l;
    list_apart = names.list_apart k l;
    short = names.short k l;
    path_short = omega (arith, names.paths k l);
    list_short = names.list_short;
  }

  module _ {k : ℕ} {v : ℕ → Contents} {s : Rvm} (h : Session dir n segs k v s) (l : k < n)
      (small : length (v k).file ≤ (segs k).size) where
    abbrev new_name : Bytes
    new_name = (segs k).name

    abbrev new_path : Bytes
    new_path = segment_file dir new_name

    can : CanMap dir new_name (v k).file h.logged.0 (segs k).size (segs k).at k s
    can = Session-CanMap h l small

    abbrev after : Rvm
    after = mapped_state dir new_name (v k).file h.logged.0 (segs k).size (segs k).at k s can

    after-file :
        (p : Bytes)
        → new_path ≢ p
        → store_log dir ≢ p
        → segment_log dir new_name ≢ p
        → segments_log dir ≢ p
        → after.file p ≡ s.file p
    after-file p a b c d =
        rw
          (
            eqb-ne (segments_log dir) p d,
            eqb-ne (segment_log dir new_name) p c,
            eqb-ne (store_log dir) p b,
            eqb-ne new_path p a,
          )
          refl

    after-segment :
        (m : ℕ)
        → m < n
        → k ≢ m
        → after.file (segment_file dir (segs m).name) ≡ s.file (segment_file dir (segs m).name)
    after-segment m b e =
        after-file (segment_file dir (segs m).name) (λ q. e (names.files k m l b q))
          (names.apart m b) (names.logs_apart k m l b) (names.list_apart m b)

    after-memory : (a : ℕ) → (segs k).at ≢ a → after.memory a ≡ s.memory a
    after-memory a e =
        rw (==-ne (segs k).at map_failed (names.succeeds k l), ==-ne (segs k).at a e) refl

    after-logged : (c : Bytes) × (after.file (store_log dir) ≡ some c)
    after-logged =
        let msg : Bytes = codes "RVM_MAP SEGMENT " ++ (new_name ++ newline) in
        let w : Rvm =
          written dir new_name (v k).file h.logged.0 (segs k).size (segs k).at k s can in
        let log : Bytes = contents (w.file (store_log dir)) ++ msg in
        let first : (c : Bytes) × ((after_log dir msg w).file (store_log dir) ≡ some c) =
          (log, rw (eqb_refl (store_log dir)) refl) in
        let second : (c : Bytes) × ((after_segment_log dir new_name msg (after_log dir msg w)).file
                (store_log dir)
              ≡ some c) =
          set_file-logged dir (segment_log dir new_name) _ (after_log dir msg w) first in
        set_file-logged dir (segments_log dir) _
          (after_segment_log dir new_name msg (after_log dir msg w)) second

    after-new : Holds dir (segs k) (opened (segs k).size k v k) (slot k after) after
    after-new =
        let slot_new =
          slot-written dir new_name (v k).file h.logged.0 (segs k).size (segs k).at k s can in
        let whole =
          length-pad dir new_name (v k).file h.logged.0 (segs k).size (segs k).at k s can in
        rw (slot_new, h.blank k (omega arith), ==-refl k)
          (record {
            address = refl;
            name = refl;
            size = refl;
            count = refl;
            array = refl;
            announced = refl;
            inside = tt;
            in_memory =
                memory-padded dir new_name (v k).file h.logged.0 (segs k).size (segs k).at k s can;
            in_file =
                file-mapped dir new_name (v k).file h.logged.0 (segs k).size (segs k).at k s can;
            memory_size = whole;
            file_size = whole;
          })

    after-old :
        (m : ℕ) → m < k → Holds dir (segs m) (opened (segs k).size k v m) (slot m after) after
    after-old m b =
        let old = h.each m b in
        let other : k ≢ m = λ e. omega arith in
        let at_other : (segs k).at ≢ (segs m).at =
          λ e. other (names.addresses k m l (omega arith) e) in
        rw (get_or-set_ne s.mapped _ unused other, ==-ne k m other)
          (record {
            address = old.address;
            name = old.name;
            size = old.size;
            count = old.count;
            array = old.array;
            announced = old.announced;
            inside = old.inside;
            in_memory = after-memory (segs m).at at_other ∙ old.in_memory;
            in_file = after-segment m (omega arith) other ∙ old.in_file;
            memory_size = old.memory_size;
            file_size = old.file_size;
          })

    after-Session : Session dir n segs (k + 1) (opened (segs k).size k v) after
    after-Session = record {
      count = ap pos (omega arith);
      bound = omega arith;
      table = length-set s.mapped k _ ∙ h.table;
      null_free = after-memory null (names.not_null k l) ∙ h.null_free;
      logged = after-logged;
      blank = λ m b.
          get_or-set_ne s.mapped _ unused (λ (e : k ≡ m). omega arith) ∙ h.blank m (omega arith);
      each = λ m b. elim (ℕ_discrete k m) [
        | yes e ↦
            subst (λ x. Holds dir (segs x) (opened (segs k).size k v x) (slot x after) after) e
              after-new
        | no e ↦ after-old m (omega arith)
      ];
      on_disk = λ m b c.
          let other : k ≢ m = λ e. omega arith in
          rw (==-ne k m other)
            (ap contents (after-segment m c other) ∙ h.on_disk m (omega arith) c);
    }

  -- A further segment of a session, whose file is no larger than the size asked for, is mapped: the
  -- call returns its address, mapping and file hold the file's bytes and zeros behind them, no range
  -- is announced, and all else stays.
  pub rvm_map-Session :
      {k : ℕ} (v : ℕ → Contents)
      → k < n
      → length (v k).file ≤ (segs k).size
      → Gives
          (Session dir n segs k v)
          (rvm_map dir (segs k).name (segs k).size (segs k).at)
          (segs k).at
          (Session dir n segs (k + 1) (opened (segs k).size k v))
  rvm_map-Session {k} v l small = record {
    at = λ s h. (
      (segs k).at,
      after h l small,
      rvm_map-done dir (segs k).name (v k).file h.logged.0 (segs k).size (segs k).at k s
          (Session-CanMap h l small),
      (refl, after-Session h l small),
    );
  }

  -- It prints no error.
  pub rvm_map-quiet :
      {k : ℕ} (v : ℕ → Contents) (errors : List Bytes)
      → k < n
      → length (v k).file ≤ (segs k).size
      → Gives
          (λ s. Session dir n segs k v s × (s.errors ≡ errors))
          (rvm_map dir (segs k).name (segs k).size (segs k).at)
          (segs k).at
          (λ t. Session dir n segs (k + 1) (opened (segs k).size k v) t × (t.errors ≡ errors))
  rvm_map-quiet {k} v errors l small = record {
    at = λ s h. (
      (segs k).at,
      after h.0 l small,
      rvm_map-done dir (segs k).name (v k).file h.0.logged.0 (segs k).size (segs k).at k s
          (Session-CanMap h.0 l small),
      (refl, (after-Session h.0 l small, h.1)),
    );
  }
