-- ===== src/Rvm/Session/View.antt =====
-- project4/rvm.c: what the calls do to the segments' bytes, said on the bytes alone.
use cs6210proj.Prelude.{
  ℕ, zero, suc, ◌+◌, ◌≡◌, refl, ap, sym, ◌∙◌, Bool, List, [], ◌∷◌, ◌++◌, Bytes, length, get_or,
  list-ext, arith, if◌then◌else◌,
}
use cs6210proj.Rvm.State.{Range, update_at}
use cs6210proj.Rvm.Ranges.{covered}
use cs6210proj.Rvm.Commit.{Merged}
use cs6210proj.Rvm.Mapping.{pad}
use cs6210proj.Rvm.Session.{Contents}

-- From position `i` on: the byte of `bytes` where `c` says so, that of `f` elsewhere.
abbrev pub mix : (ℕ → Bool) → ℕ → Bytes → Bytes → Bytes
mix c i bytes [] = []
mix c i [] (x ∷ f) = x ∷ f
mix c i (b ∷ bytes) (x ∷ f) = (if c i then b else x) ∷ mix c (i + 1) bytes f

abbrev pub merge : List Range → Bytes → Bytes → Bytes
merge rs bytes f = mix (covered rs) 0 bytes f

length-mix : (c : ℕ → Bool) (i : ℕ) (bytes f : Bytes) → length (mix c i bytes f) ≡ length f
length-mix c i bytes [] = refl
length-mix c i [] (x ∷ f) = refl
length-mix c i (b ∷ bytes) (x ∷ f) = ap suc (length-mix c (i + 1) bytes f)

get_or-mix :
    (c : ℕ → Bool) (i : ℕ) (bytes f : Bytes) (m : ℕ)
    → length bytes ≡ length f
    → get_or (mix c i bytes f) m 0 ≡ (if c (i + m) then get_or bytes m 0 else get_or f m 0)
get_or-mix c i [] [] m l = ground arith
get_or-mix c i (b ∷ bytes) [] m l = absurd (omega arith)
get_or-mix c i [] (x ∷ f) m l = absurd (omega arith)
get_or-mix c i (b ∷ bytes) (x ∷ f) zero l = let e : i + 0 ≡ i = omega arith in rw e refl
get_or-mix c i (b ∷ bytes) (x ∷ f) (suc m) l =
    let e : i + suc m ≡ i + 1 + m = omega arith in
    rw e (get_or-mix c (i + 1) bytes f m (omega arith))

pub length-merge : (rs : List Range) (bytes f : Bytes) → length (merge rs bytes f) ≡ length f
length-merge rs bytes f = length-mix (covered rs) 0 bytes f

pub get_or-merge :
    (rs : List Range) (bytes f : Bytes) (m : ℕ)
    → length bytes ≡ length f
    → get_or (merge rs bytes f) m 0 ≡ (if covered rs m then get_or bytes m 0 else get_or f m 0)
get_or-merge rs bytes f m l =
    let e : 0 + m ≡ m = omega arith in rw e at (get_or-mix (covered rs) 0 bytes f m l)

pub Merged-merge :
    (rs : List Range) (bytes f f' : Bytes)
    → length bytes ≡ length f
    → Merged rs bytes f f'
    → f' ≡ merge rs bytes f
Merged-merge rs bytes f f' l h =
    list-ext f' (merge rs bytes f) 0 (h.0 ∙ sym (length-merge rs bytes f))
      (λ i b. h.1 i ∙ sym (get_or-merge rs bytes f i l))

-- A range is announced, a segment committed, a segment's mapping restored.
abbrev pub announce : Range → ℕ → (ℕ → Contents) → ℕ → Contents
announce r j v = update_at v j (record (v j) { ranges = (v j).ranges ++ r ∷ [] })

abbrev pub commit_ranges : List Range → ℕ → (ℕ → Contents) → ℕ → Contents
commit_ranges rs j v = update_at v j (record (v j) { file = merge rs (v j).bytes (v j).file })

abbrev pub commit : ℕ → (ℕ → Contents) → ℕ → Contents
commit j v = commit_ranges (v j).ranges j v

abbrev pub restore : ℕ → (ℕ → Contents) → ℕ → Contents
restore j v = update_at v j (record (v j) { bytes = (v j).file })

-- A segment's file is padded and mapped.
abbrev pub opened : ℕ → ℕ → (ℕ → Contents) → ℕ → Contents
opened size j v =
    update_at v j (record { bytes = pad (v j).file size; file = pad (v j).file size; ranges = [] })

-- A segment's file is removed.
abbrev pub destroyed : ℕ → (ℕ → Contents) → ℕ → Contents
destroyed j v = update_at v j (record (v j) { file = [] })
