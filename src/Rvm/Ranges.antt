-- ===== src/Rvm/Ranges.antt =====
-- project4/rvm.c: what the loop of write_segment leaves in the file, byte by byte.
use cs6210proj.Prelude.{
  ℕ, ◌+◌, ◌-◌, ◌≤◌, ◌<◌, ◌≡◌, refl, ◌∙◌, Bool, false, ◌&&◌, ◌||◌, Option, some, List, [], ◌∷◌, ◌++◌,
  map, Bytes, leb, ltb, if◌then◌else◌, length, take, drop, get_or, replicate, arith, length-append,
  length-take, length-drop, get_or-append_left, get_or-append_right, get_or-take, get_or-drop,
  append-nil,
}
use native.Mathlib.Decide.{dec_lt}
use cs6210proj.Rvm.State.{Range, overwrite}
use cs6210proj.Rvm.Transaction.{seek, write_range, write_ranges}

abbrev pub covers : Range → ℕ → Bool
covers r i = leb r.offset i && ltb i (r.offset + r.size)

abbrev pub covered : List Range → ℕ → Bool
covered [] i = false
covered (r ∷ rs) i = covers r i || covered rs i

abbrev pub Within : ℕ → List Range → Type 0
Within size [] = Unit
Within size (r ∷ rs) = (r.offset + r.size ≤ size) × Within size rs

no_gap : (f : Bytes) (pos : ℕ) → pos ≤ length f → f ++ replicate (pos - length f) 0 ≡ f
no_gap f pos h = let e : pos - length f ≡ 0 = omega arith in rw e (append-nil f)

pub length-overwrite :
    (pos : ℕ) (bytes f : Bytes)
    → pos + length bytes ≤ length f
    → length (overwrite pos bytes f) ≡ length f
length-overwrite pos bytes f h = rw (no_gap f pos (omega arith)) (
    omega (
      arith,
      length-append (take pos f) (bytes ++ drop (pos + length bytes) f),
      length-append bytes (drop (pos + length bytes) f),
      length-take pos f,
      length-drop (pos + length bytes) f,
    ))

pub get_or-overwrite :
    (pos : ℕ) (bytes f : Bytes) (i : ℕ)
    → pos + length bytes ≤ length f
    → get_or (overwrite pos bytes f) i 0
      ≡ (if leb pos i && ltb i (pos + length bytes) then get_or bytes (i - pos) 0 else get_or f i 0)
get_or-overwrite pos bytes f i h = rw (no_gap f pos (omega arith)) (elim (dec_lt i pos) [
  | yes before ↦
      get_or-append_left (take pos f) _ i 0 (omega (arith, length-take pos f))
      ∙ get_or-take pos f i 0 before
      ∙ ground arith
  | no past ↦
      get_or-append_right (take pos f) _ i (i - pos) 0 (omega (arith, length-take pos f))
      ∙ elim (dec_lt i (pos + length bytes)) [
        | yes inside ↦ get_or-append_left bytes _ (i - pos) 0 (omega arith) ∙ ground arith
        | no behind ↦
            get_or-append_right bytes _ (i - pos) (i - pos - length bytes) 0 (omega arith)
            ∙ get_or-drop (pos + length bytes) f (i - pos - length bytes) i 0 (omega arith)
            ∙ ground arith
      ]
])

module _ (bytes : Bytes) (size : ℕ) (whole : length bytes ≡ size) where
  abbrev piece : Range → Bytes
  piece r = take r.size (drop r.offset bytes)

  length-piece : (r : Range) → r.offset + r.size ≤ size → length (piece r) ≡ r.size
  length-piece r h =
      omega (arith, length-take r.size (drop r.offset bytes), length-drop r.offset bytes)

  get_or-piece :
      (r : Range) (i : ℕ)
      → r.offset ≤ i
      → i < r.offset + r.size
      → get_or (piece r) (i - r.offset) 0 ≡ get_or bytes i 0
  get_or-piece r i lo hi =
      get_or-take r.size (drop r.offset bytes) (i - r.offset) 0 (omega arith)
      ∙ get_or-drop r.offset bytes (i - r.offset) i 0 (omega arith)

  abbrev one_range : Range → Bytes → Bytes
  one_range r f = overwrite r.offset (piece r) f

  one_range-write :
      (r : Range) (cur : ℕ) (f : Bytes)
      → length f ≡ size
      → r.offset + r.size ≤ size
      → write_range bytes size (some r) (cur, f) ≡ some (r.offset + r.size, one_range r f)
  one_range-write r cur f l h =
      let e : seek size r.offset (length f) cur ≡ r.offset = ground arith in rw e (ground arith)

  one_range-get :
      (r : Range) (f : Bytes) (i : ℕ)
      → length f ≡ size
      → r.offset + r.size ≤ size
      → get_or (one_range r f) i 0 ≡ (if covers r i then get_or bytes i 0 else get_or f i 0)
  one_range-get r f i l h =
      ground (arith, get_or-overwrite r.offset (piece r) f i, length-piece r h, get_or-piece r i)

  write_ranges-cons :
      (r : Option Range) (rs : List (Option Range)) (out out' : ℕ × Bytes)
      → write_range bytes size r out ≡ some out'
      → write_ranges bytes size (r ∷ rs) out ≡ write_ranges bytes size rs out'
  unfolding write_ranges
  write_ranges-cons r rs out out' e = rw (e, write_ranges)

  -- The ranges all lie in the segment, whose mapping and file have its size. Then the loop of
  -- write_segment ends, the file keeps its length, a byte of it that some range covers is the
  -- mapping's and every other byte is the file's old one.
  pub write_ranges-get :
      (rs : List Range) (cur : ℕ) (f : Bytes)
      → length f ≡ size
      → Within size rs
      → (out : ℕ × Bytes) × (write_ranges bytes size (map some rs) (cur, f) ≡ some out)
        × (length out.1 ≡ size)
        × ((i : ℕ) → get_or out.1 i 0 ≡ (if covered rs i then get_or bytes i 0 else get_or f i 0))
  unfolding write_ranges
  write_ranges-get [] cur f l w = ((cur, f), refl, l, λ i. refl)
  write_ranges-get (r ∷ rs) cur f l w =
      let l' : length (one_range r f) ≡ size =
        omega (arith, length-overwrite r.offset (piece r) f, length-piece r w.0) in
      let (out, ran, len, got) = write_ranges-get rs (r.offset + r.size) (one_range r f) l' w.1 in
      (
        out,
        write_ranges-cons (some r) (map some rs) (cur, f) _ (one_range-write r cur f l w.0) ∙ ran,
        len,
        λ i. ground (arith, got i, one_range-get r f i l w.0),
      )
