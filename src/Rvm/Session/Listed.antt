-- ===== src/Rvm/Session/Listed.antt =====
-- project4/rvm.c: the loops of a transaction over any addresses, those of no segment among them.
use cs6210proj.Prelude.{
  ℕ, zero, suc, ◌+◌, ◌<◌, ◌≡◌, ◌≢◌, refl, ap, sym, ◌∙◌, subst, Option, none, some, List, [], ◌∷◌,
  Bytes, arith, ◌==◌, if◌then◌else◌, ==-ne, ==-refl, ◌⊎◌, inl, inr,
}
use native.Mathlib.Decide.{ℕ_discrete, dec_lt}
use cs6210proj.Rvm.State.{Rvm, done, M}
use cs6210proj.Rvm.Table.{rounds, for_base}
use cs6210proj.Rvm.Transaction.{
  begin_entry, rvm_begin_trans, for_bases, rvm_commit_trans, commit_entry,
}
use cs6210proj.Rvm.Loops.{>>=-done, for_base-skip}
use cs6210proj.Rvm.Ends.{Ends, Runs}
use cs6210proj.Rvm.Session.{Entry, Contents, Names, Session}
use cs6210proj.Rvm.Session.Logs.{Session-kept}
use cs6210proj.Rvm.Session.Change.{each_of, for_base-Session}
use cs6210proj.Rvm.Session.Announced.{begin_entry-Session}
use cs6210proj.Rvm.Session.Committed.{commit_entry-Session}
use cs6210proj.Rvm.Session.Transactions.{each_of-same}
use cs6210proj.Rvm.Session.View.{commit}

-- The segment at an address, of the first `k`.
unfoldable pub segment_at : (ℕ → Entry) → ℕ → ℕ → Option ℕ
segment_at segs zero base = none
segment_at segs (suc k) base = if (segs k).at == base then some k else segment_at segs k base

pub segment_at-cases :
    (segs : ℕ → Entry) (k base : ℕ)
    → ((segment_at segs k base ≡ none) × ((m : ℕ) → m < k → (segs m).at ≢ base))
      ⊎ ((j : ℕ) × (segment_at segs k base ≡ some j) × (j < k) × ((segs j).at ≡ base))
unfolding segment_at
segment_at-cases segs zero base = inl (refl, λ m b e. absurd (omega arith))
segment_at-cases segs (suc k) base = elim (ℕ_discrete (segs k).at base) [
  | yes e ↦ inr (k, rw (e, ==-refl base) refl, omega arith, e)
  | no e ↦ elim (segment_at-cases segs k base) [
    | inl (q, others) ↦ inl (
      rw (==-ne (segs k).at base e) q,
      λ m b x. elim (dec_lt m k) [
        | yes c ↦ others m c x
        | no c ↦ let y : m ≡ k = omega arith in e (subst (λ z. (segs z).at ≡ base) y x)
      ],
    )
    | inr (j, q, b, x) ↦ inr (j, rw (==-ne (segs k).at base e) q, omega arith, x)
  ]
]

abbrev pub prepend : Option ℕ → List ℕ → List ℕ
prepend none js = js
prepend (some j) js = j ∷ js

-- The segments at these addresses, in the order of the addresses.
unfoldable pub hits : (ℕ → Entry) → ℕ → List ℕ → List ℕ
hits segs k [] = []
hits segs k (base ∷ bases) = prepend (segment_at segs k base) (hits segs k bases)

pub hits-none : (segs : ℕ → Entry) (k : ℕ) → hits segs k [] ≡ []
unfolding hits
hits-none segs k = refl

pub hits-missed :
    (segs : ℕ → Entry) (k base : ℕ) (bases : List ℕ)
    → segment_at segs k base ≡ none
    → hits segs k (base ∷ bases) ≡ hits segs k bases
unfolding hits
hits-missed segs k base bases q = ap (λ o. prepend o (hits segs k bases)) q

pub hits-found :
    (segs : ℕ → Entry) (k base j : ℕ) (bases : List ℕ)
    → segment_at segs k base ≡ some j
    → hits segs k (base ∷ bases) ≡ j ∷ hits segs k bases
unfolding hits
hits-found segs k base j bases q = ap (λ o. prepend o (hits segs k bases)) q

module _ {dir : Bytes} {n : ℕ} {segs : ℕ → Entry} (names : Names dir n segs) {k : ℕ} where
  pub for_base-missed :
      {v : ℕ → Contents} {s : Rvm} (body : ℕ → M (Unit {0})) (base : ℕ)
      → ((m : ℕ) → m < k → (segs m).at ≢ base)
      → Session dir n segs k v s
      → for_base (rounds s.num_mapped) 0 base body s ≡ done tt s
  for_base-missed {v} {s} body base others h =
      let rounds_k : rounds s.num_mapped ≡ k = ap rounds h.count in
      for_base-skip (rounds s.num_mapped) 0 base body s (λ m lo l e.
        others m (omega (arith, rounds_k)) (sym (h.each m (omega (arith, rounds_k))).address ∙ e))

  pub for_hits-Session :
      (body : ℕ → M (Unit {0})) (act : ℕ → (ℕ → Contents) → ℕ → Contents)
      → ((v : ℕ → Contents) (j : ℕ)
          → j < k
          → Runs (Session dir n segs k v) (body j) (Session dir n segs k (act j v)))
      → (bases : List ℕ) (v : ℕ → Contents)
      → Runs
          (Session dir n segs k v)
          (for_bases bases body)
          (Session dir n segs k (each_of act (hits segs k bases) v))
  unfolding for_bases
  for_hits-Session body act runs [] v =
      let none_hit : hits segs k [] ≡ [] = hits-none segs k in
      rw none_hit (record { at = λ s h. (tt, s, refl, h) })
  for_hits-Session body act runs (base ∷ bases) v = elim (segment_at-cases segs k base) [
    | inl (q, others) ↦ rw (hits-missed segs k base bases q) (record {
      at = λ s h.
          let (_, u, ran, h') = (for_hits-Session body act runs bases v).at s h in
          (
            tt,
            u,
            >>=-done (for_base (rounds s.num_mapped) 0 base body) _
                  (for_base-missed body base others h)
                ∙ ran,
            h',
          );
    })
    | inr (j, q, l, e) ↦ rw (hits-found segs k base j bases q) (record {
      at = λ s h.
          let (_, t, ran, h') = (runs v j l).at s h in
          let (_, u, ran', h'') = (for_hits-Session body act runs bases (act j v)).at t h' in
          (
            tt,
            u,
            >>=-done (for_base (rounds s.num_mapped) 0 base body) _ (
                  subst (λ b. for_base (rounds s.num_mapped) 0 b body s ≡ done tt t) e
                    (for_base-Session names body j l h ran h'))
                ∙ ran',
            h'',
          );
    })
  ]

  -- A transaction begins on any addresses: the call returns it, and memory, files and announced ranges stay.
  pub begin_listed-Session :
      (bases : List ℕ) (v : ℕ → Contents)
      → Ends (Session dir n segs k v) (rvm_begin_trans dir bases) (λ trans t.
        ((tid : ℕ) × (trans ≡ record { segbases = bases; tid = tid; dir = dir }))
        × Session dir n segs k v t)
  unfolding rvm_begin_trans
  begin_listed-Session bases v = record {
    at = λ s h.
        let (c, log) = h.logged in
        let next : Rvm = record s { tid = s.tid + 1 } in
        let h₁ : Session dir n segs k v next = Session-kept h (record {
          memory = refl;
          mapped = refl;
          num_mapped = refl;
          logged = (c, log);
          files = λ m b. refl;
        }) in
        let (_, t, ran, h₂) =
          (for_hits-Session (begin_entry dir) (λ j w. w) (begin_entry-Session names) bases v).at
            next h₁ in
        (
          record { segbases = bases; tid = s.tid; dir = dir },
          t,
          >>=-done (for_bases bases (begin_entry dir)) _ ran,
          (
            (s.tid, refl),
            subst (λ w. Session dir n segs k w t) (each_of-same (hits segs k bases) v) h₂,
          ),
        );
  }

  pub commit_listed-Session :
      (bases : List ℕ) (v : ℕ → Contents) (tid : ℕ)
      → Runs
          (Session dir n segs k v)
          (rvm_commit_trans (record { segbases = bases; tid = tid; dir = dir }))
          (Session dir n segs k (each_of commit (hits segs k bases) v))
  unfolding rvm_commit_trans
  commit_listed-Session bases v tid =
      for_hits-Session (commit_entry dir) commit (commit_entry-Session names) bases v
