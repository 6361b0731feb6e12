-- ===== src/Rvm/Programs/Rounds.antt =====
-- project4/maxsegments.c: the bytes of a segment with its two texts, in memory and in the file.
use cs6210proj.Prelude.{
  ℕ, zero, suc, ◌+◌, ◌≤◌, ◌<◌, ◌≡◌, sym, ◌∙◌, subst, true, inl, inr, List, [], ◌∷◌, Bytes, length,
  get_or, arith, ==-ne, ==-refl,
}
use native.Mathlib.Decide.{ℕ_discrete}
use cs6210proj.Rvm.State.{Range}
use cs6210proj.Rvm.Ranges.{covered}
use cs6210proj.Rvm.Session.{Entry, Contents}
use cs6210proj.Rvm.Session.Change.{each_of}
use cs6210proj.Rvm.Session.View.{commit, merge, length-merge}
use cs6210proj.Rvm.Session.Listed.{segment_at-cases, hits, hits-missed, hits-found}
use cs6210proj.Rvm.Programs.Texts.{
  HasText, put, put-HasText, HasText-put, HasText-merge, length-put, range,
}
use cs6210proj.Rvm.Programs.Limits.{test_string}

-- Both texts are in these bytes.
pub record HasBoth (bytes : Bytes) : Type 0 where
  pub size : length bytes ≡ 10000
  pub near : HasText bytes 0 test_string
  pub far : HasText bytes 1000 test_string

abbrev pub both_ranges : List Range
both_ranges = range 0 100 ∷ range 1000 100 ∷ []

-- The texts are in memory, and their ranges announced.
pub record IsReady (c : Contents) : Type 0 where
  pub texts : HasBoth c.bytes
  pub ranges : c.ranges ≡ both_ranges
  pub file_size : length c.file ≡ 10000

near-covered : (i : ℕ) → i ≤ 12 → covered both_ranges (0 + i) ≡ true
near-covered i l = ground arith

far-covered : (i : ℕ) → i ≤ 12 → covered both_ranges (1000 + i) ≡ true
far-covered i l = ground arith

abbrev pub both_put : Bytes → Bytes
both_put bytes = put 1000 test_string (put 0 test_string bytes)

pub both_put-HasBoth : (bytes : Bytes) → length bytes ≡ 10000 → HasBoth (both_put bytes)
both_put-HasBoth bytes e =
    let first : length (put 0 test_string bytes) ≡ length bytes =
      length-put 0 test_string bytes (omega arith) in
    record {
      size =
          length-put 1000 test_string (put 0 test_string bytes) (omega (arith, first)) ∙ first ∙ e;
      near =
          HasText-put 1000 0 test_string test_string (put 0 test_string bytes)
            (omega (arith, first)) (inr (omega arith))
            (put-HasText 0 test_string bytes (omega arith));
      far = put-HasText 1000 test_string (put 0 test_string bytes) (omega (arith, first));
    }

-- A commit puts them into the file.
merge-HasBoth :
    (bytes f : Bytes) → HasBoth bytes → length f ≡ 10000 → HasBoth (merge both_ranges bytes f)
merge-HasBoth bytes f h e = record {
  size = length-merge both_ranges bytes f ∙ e;
  near = HasText-merge both_ranges bytes f 0 test_string (h.size ∙ sym e) near-covered h.near;
  far = HasText-merge both_ranges bytes f 1000 test_string (h.size ∙ sym e) far-covered h.far;
}

committed-HasBoth : (c : Contents) → IsReady c → HasBoth (merge c.ranges c.bytes c.file)
committed-HasBoth c h =
    subst (λ rs. HasBoth (merge rs c.bytes c.file)) (sym h.ranges)
      (merge-HasBoth c.bytes c.file h.texts h.file_size)

commit-IsReady : (j : ℕ) (v : ℕ → Contents) (m : ℕ) → IsReady (v m) → IsReady (commit j v m)
commit-IsReady j v m h = elim (ℕ_discrete j m) [
  | yes e ↦
      subst (λ x. IsReady (commit j v x)) e
        (rw (==-refl j) (
          let h' : IsReady (v j) = subst (λ x. IsReady (v x)) (sym e) h in
          record {
            texts = h'.texts;
            ranges = h'.ranges;
            file_size = (committed-HasBoth (v j) h').size;
          }))
  | no e ↦ rw (==-ne j m e) h
]

commit-HasBoth : (v : ℕ → Contents) (m : ℕ) → IsReady (v m) → HasBoth (commit m v m).file
commit-HasBoth v m h = rw (==-refl m) (committed-HasBoth (v m) h)

commit-keeps :
    (j : ℕ) (v : ℕ → Contents) (m : ℕ)
    → IsReady (v m)
    → HasBoth (v m).file
    → HasBoth (commit j v m).file
commit-keeps j v m h old = elim (ℕ_discrete j m) [
  | yes e ↦ subst (λ x. HasBoth (commit x v m).file) (sym e) (commit-HasBoth v m h)
  | no e ↦ rw (==-ne j m e) old
]

pub each-IsReady :
    (js : List ℕ) (v : ℕ → Contents) (m : ℕ) → IsReady (v m) → IsReady (each_of commit js v m)
each-IsReady [] v m h = h
each-IsReady (j ∷ js) v m h = each-IsReady js (commit j v) m (commit-IsReady j v m h)

pub each-keeps :
    (js : List ℕ) (v : ℕ → Contents) (m : ℕ)
    → IsReady (v m)
    → HasBoth (v m).file
    → HasBoth (each_of commit js v m).file
each-keeps [] v m h old = old
each-keeps (j ∷ js) v m h old =
    each-keeps js (commit j v) m (commit-IsReady j v m h) (commit-keeps j v m h old)

-- The address of segment `m` is the one at position `x` of those that are committed.
pub hits-HasBoth :
    (segs : ℕ → Entry) (k m : ℕ) (bases : List ℕ) (x : ℕ) (v : ℕ → Contents)
    → ((j : ℕ) → j < k → (segs j).at ≡ (segs m).at → j ≡ m)
    → m < k
    → x < length bases
    → get_or bases x 0 ≡ (segs m).at
    → IsReady (v m)
    → HasBoth (each_of commit (hits segs k bases) v m).file
hits-HasBoth segs k m [] x v only l b e h = absurd (omega arith)
hits-HasBoth segs k m (base ∷ bases) zero v only l b e h = elim (segment_at-cases segs k base) [
  | inl (q, others) ↦ absurd (others m l (sym e))
  | inr (j, q, c, here) ↦
      let same : j ≡ m = only j c (here ∙ e) in
      subst (λ js. HasBoth (each_of commit js v m).file) (sym (hits-found segs k base j bases q))
        (each-keeps (hits segs k bases) (commit j v) m (commit-IsReady j v m h)
          (subst (λ y. HasBoth (commit y v m).file) (sym same) (commit-HasBoth v m h)))
]
hits-HasBoth segs k m (base ∷ bases) (suc x) v only l b e h = elim (segment_at-cases segs k base) [
  | inl (q, others) ↦
      subst (λ js. HasBoth (each_of commit js v m).file) (sym (hits-missed segs k base bases q))
        (hits-HasBoth segs k m bases x v only l (omega arith) e h)
  | inr (j, q, c, here) ↦
      subst (λ js. HasBoth (each_of commit js v m).file) (sym (hits-found segs k base j bases q))
        (hits-HasBoth segs k m bases x (commit j v) only l (omega arith) e (commit-IsReady j v m h))
]
