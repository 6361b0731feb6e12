-- ===== src/Rvm/Programs/Maximum.antt =====
-- project4/maxsegments.c: the rounds of the first process.
use cs6210proj.Prelude.{
  ℕ, zero, suc, ◌+◌, ◌≤◌, ◌<◌, ◌≡◌, ◌≢◌, refl, ap, sym, ◌∙◌, subst, List, [], ◌∷◌, ◌++◌, Bytes,
  codes, length, length-append, length-set, get_or-set_self, set, arith, ==-ne, ==-refl, print_int,
}
use native.Mathlib.Decide.{ℕ_discrete}
use cs6210proj.Rvm.State.{Rvm, newline}
use cs6210proj.Rvm.Mapping.{pad}
use cs6210proj.Rvm.Transaction.{modify_message}
use cs6210proj.Rvm.Mapped.{length-pad_to}
use cs6210proj.Rvm.Ends.{Leads, Leads-here, Leads-then, Leads-bind_at, Leads-bind_of, Leads-chain}
use cs6210proj.Rvm.Session.{Contents, Names, Session}
use cs6210proj.Rvm.Session.Change.{each_of}
use cs6210proj.Rvm.Session.View.{announce, opened, destroyed, commit}
use cs6210proj.Rvm.Session.Announced.{modify-Session}
use cs6210proj.Rvm.Session.Mapping.{rvm_map-Session}
use cs6210proj.Rvm.Session.Start.{rvm_destroy-Session}
use cs6210proj.Rvm.Session.Listed.{hits, begin_listed-Session, commit_listed-Session}
use cs6210proj.Rvm.Programs.Texts.{put, put_in, put_text-Session, range}
use cs6210proj.Rvm.Programs.Limits.{max_rounds, test_string, seg_name}
use cs6210proj.Rvm.Programs.Named.{max_segs, seg_name-short}
use cs6210proj.Rvm.Programs.Shared.{store_dir}
use cs6210proj.Rvm.Programs.Rounds.{
  HasBoth, IsReady, both_ranges, both_put, both_put-HasBoth, each-IsReady, each-keeps, hits-HasBoth,
}

-- A round's changes of the segments' bytes, before the commit.
abbrev emptied : ℕ → ℕ → (ℕ → Contents) → ℕ → Contents
emptied z i v = opened z i (destroyed i v)

abbrev half : ℕ → ℕ → (ℕ → Contents) → ℕ → Contents
half z i v = put_in 0 test_string i (announce (range 0 100) i (emptied z i v))

abbrev changed : ℕ → ℕ → (ℕ → Contents) → ℕ → Contents
changed z i v = put_in 1000 test_string i (announce (range 1000 100) i (half z i v))

emptied-new :
    (z i : ℕ) (v : ℕ → Contents)
    → emptied z i v i ≡ record { bytes = pad [] z; file = pad [] z; ranges = [] }
emptied-new z i v = rw (==-refl i) refl

half-new :
    (z i : ℕ) (v : ℕ → Contents)
    → half z i v i
      ≡ record { bytes = put 0 test_string (pad [] z); file = pad [] z; ranges = range 0 100 ∷ [] }
half-new z i v = rw (==-refl i) refl

changed-new :
    (z i : ℕ) (v : ℕ → Contents)
    → changed z i v i
      ≡ record { bytes = both_put (pad [] z); file = pad [] z; ranges = both_ranges }
changed-new z i v = rw (==-refl i) refl

changed-old : (z i : ℕ) (v : ℕ → Contents) (m : ℕ) → i ≢ m → changed z i v m ≡ v m
changed-old z i v m e = rw (==-ne i m e) refl

length-padded : (z : ℕ) → length (pad [] z) ≡ z
length-padded z = length-pad_to [] z (omega arith)

changed-IsReady : (i : ℕ) (v : ℕ → Contents) → IsReady (changed 10000 i v i)
changed-IsReady i v = subst IsReady (sym (changed-new 10000 i v)) (record {
  texts = both_put-HasBoth (pad [] 10000) (length-padded 10000);
  ranges = refl;
  file_size = length-padded 10000;
})

message-short :
    (i offset : ℕ)
    → i < 31
    → length (print_int offset) ≤ 4
    → length (modify_message (seg_name i) offset 100) < 250
unfolding print_int
message-short i offset l short =
    let size : Bytes = codes " SIZE: " ++ (print_int 100 ++ newline) in
    omega (
      arith,
      seg_name-short i l,
      length-append (seg_name i) (codes " OFFSET: " ++ (print_int offset ++ size)),
      length-append (print_int offset) size,
    )

-- Before round `i`: the segments before it are mapped, and each has both texts in memory and in its file.
pub record IsRound {at : ℕ → ℕ} (names : Names store_dir 30 (max_segs at)) (i : ℕ) (s : Rvm)
    : Type 0 where
  pub contents : ℕ → Contents
  pub session : Session store_dir 30 (max_segs at) i contents s
  pub ready : (m : ℕ) → m < i → IsReady (contents m)
  pub written : (m : ℕ) → m < i → HasBoth (contents m).file

module _ {at : ℕ → ℕ} (names : Names store_dir 30 (max_segs at)) where
  only : (i : ℕ) → i < 30 → (j : ℕ) → j < i + 1 → at j ≡ at i → j ≡ i
  only i l j b e = names.addresses j i (omega arith) l e

  changed-ready :
      (i : ℕ) (v : ℕ → Contents)
      → ((m : ℕ) → m < i → IsReady (v m))
      → (m : ℕ) → m < i + 1
      → IsReady (changed 10000 i v m)
  changed-ready i v h m b = elim (ℕ_discrete i m) [
    | yes e ↦ subst (λ x. IsReady (changed 10000 i v x)) e (changed-IsReady i v)
    | no e ↦ subst IsReady (sym (changed-old 10000 i v m e)) (h m (omega arith))
  ]

  committed-texts :
      (i : ℕ) (v : ℕ → Contents) (segs : List ℕ)
      → i < 30
      → length segs ≡ 31
      → ((m : ℕ) → m < i → IsReady (v m))
      → ((m : ℕ) → m < i → HasBoth (v m).file)
      → (m : ℕ) → m < i + 1
      → HasBoth
          (each_of commit
            (hits (max_segs at) (i + 1) (set segs i (at i)))
            (changed 10000 i v)
            m).file
  committed-texts i v segs l len h w m b = elim (ℕ_discrete i m) [
    | yes e ↦
        subst
          (λ x.
            HasBoth
              (each_of commit (hits (max_segs at) (i + 1) (set segs i (at i))) (changed 10000 i v)
                x).file)
          e
          (hits-HasBoth (max_segs at) (i + 1) i (set segs i (at i)) i (changed 10000 i v) (only i l)
            (omega arith) (omega (arith, length-set segs i (at i)))
            (get_or-set_self segs i (at i) 0 (omega arith)) (changed-IsReady i v))
    | no e ↦
        let old = changed-old 10000 i v m e in
        each-keeps (hits (max_segs at) (i + 1) (set segs i (at i))) (changed 10000 i v) m
          (subst IsReady (sym old) (h m (omega arith)))
          (subst (λ c. HasBoth c.file) (sym old) (w m (omega arith)))
  ]

  turn-Session :
      (left i : ℕ) (segs : List ℕ) (v : ℕ → Contents)
      → i < 30
      → length segs ≡ 31
      → ((m : ℕ) → m < i → IsReady (v m))
      → ((m : ℕ) → m < i → HasBoth (v m).file)
      → Leads
          (Session store_dir 30 (max_segs at) i v)
          (max_rounds at store_dir (suc left) i segs)
          (IsRound names (i + 1))
          (max_rounds at store_dir left (i + 1) (set segs i (at i)))
  unfolding max_rounds print_int
  turn-Session left i segs v l len ready written =
      let bases : List ℕ = set segs i (at i) in
      let small : length (destroyed i v i).file ≤ 10000 = rw (==-refl i) (omega arith) in
      let empty : length (emptied 10000 i v i).ranges ≡ 0 =
        ap (λ c. length c.ranges) (emptied-new 10000 i v) in
      let one : length (half 10000 i v i).ranges ≡ 1 =
        ap (λ c. length c.ranges) (half-new 10000 i v) in
      Leads-then (rvm_destroy-Session names v i (omega arith) l) (
        Leads-bind_at _ (rvm_map-Session names (destroyed i v) l small) (
          Leads-bind_of (λ tid. record { segbases = bases; tid = tid; dir = store_dir }) _
            (begin_listed-Session names bases (emptied 10000 i v))
            λ tid.
              Leads-then
                (modify-Session names (emptied 10000 i v) i (range 0 100) bases tid (omega arith)
                  (omega arith) (omega arith) (message-short i 0 (omega arith) (omega arith)))
                (Leads-then (put_text-Session names _ i 0 test_string (omega arith) (omega arith)) (
                  Leads-then
                    (modify-Session names (half 10000 i v) i (range 1000 100) bases tid
                      (omega arith) (omega arith) (omega arith)
                      (message-short i 1000 (omega arith) (omega arith)))
                    (Leads-then
                      (put_text-Session names _ i 1000 test_string (omega arith) (omega arith))
                      (Leads-then (commit_listed-Session names bases (changed 10000 i v) tid) (
                        Leads-here (λ s h. record {
                          contents =
                              each_of commit (hits (max_segs at) (i + 1) bases) (changed 10000 i v);
                          session = h;
                          ready = λ m b.
                              each-IsReady (hits (max_segs at) (i + 1) bases) (changed 10000 i v) m
                                (changed-ready i v ready m b);
                          written = committed-texts i v segs l len ready written;
                        }))))))))

  -- One round: the segment is destroyed, mapped, changed and committed.
  turn-Leads :
      (left i : ℕ) (segs : List ℕ)
      → i < 30
      → length segs ≡ 31
      → Leads
          (IsRound names i)
          (max_rounds at store_dir (suc left) i segs)
          (IsRound names (i + 1))
          (max_rounds at store_dir left (i + 1) (set segs i (at i)))
  turn-Leads left i segs l len = record {
    at = λ s r. (turn-Session left i segs r.contents l len r.ready r.written).at s r.session;
  }

  -- The rounds up to the thirtieth, when `more` are to come.
  pub rounds-Leads :
      (left total more i : ℕ) (segs : List ℕ)
      → total ≡ left + more
      → i + left ≡ 30
      → length segs ≡ 31
      → (segs' : List ℕ) × (length segs' ≡ 31)
        × Leads
            (IsRound names i)
            (max_rounds at store_dir total i segs)
            (IsRound names 30)
            (max_rounds at store_dir more 30 segs')
  rounds-Leads zero total more i segs e e' len =
      let same : total ≡ more = omega arith in
      let last : i ≡ 30 = omega arith in (segs, len, rw (same, last) (Leads-here (λ s r. r)))
  rounds-Leads (suc left) zero more i segs e e' len = absurd (omega arith)
  rounds-Leads (suc left) (suc total) more i segs e e' len =
      let (segs', len', after) =
        rounds-Leads left total more (i + 1) (set segs i (at i)) (omega arith) (omega arith)
          (length-set segs i (at i) ∙ len) in
      (segs', len', Leads-chain (turn-Leads total i segs (omega arith) len) after)
