-- ===== src/Rvm/Programs/Texts.antt =====
-- project4: a text that a sample program writes is the one that it reads.
use cs6210proj.Prelude.{
  ℕ, zero, suc, ◌+◌, ◌-◌, ◌≤◌, ◌<◌, ◌≡◌, refl, ap, ◌∙◌, true, ◌||◌, ◌⊎◌, inl, inr, some, List, [],
  ◌∷◌, ◌++◌, Bytes, length, length-append, length-drop, get_or, get_or-drop, drop, arith, ==-refl,
  ==-ne, leb, ltb, ◌&&◌, if◌then◌else◌,
}
use cs6210proj.Rvm.State.{Range, Rvm, M, ◌>>◌, update_at, overwrite}
use cs6210proj.Rvm.Ranges.{covered, covers, length-overwrite, get_or-overwrite}
use cs6210proj.Rvm.Transaction.{modify_message, rvm_about_to_modify}
use cs6210proj.Rvm.Ends.{Ends, Runs, Gives, Ends-then}
use cs6210proj.Rvm.Session.Announced.{modify-Session}
use cs6210proj.Rvm.Session.Transactions.{on}
use cs6210proj.Rvm.Session.{Entry, Contents, Names, Session}
use cs6210proj.Rvm.Session.Change.{Session-changed, bases}
use cs6210proj.Rvm.Session.View.{merge, length-merge, get_or-merge, announce}
use cs6210proj.Rvm.Programs.{put_text, same_text, compare_text}

-- The text stands at this offset, with its terminator.
pub record HasText (bytes : Bytes) (offset : ℕ) (text : Bytes) : Type 0 where
  pub fits : offset + length text < length bytes
  pub same : (i : ℕ) → i ≤ length text → get_or bytes (offset + i) 0 ≡ get_or text i 0

same_text-same :
    (bytes text : Bytes)
    → length text < length bytes
    → ((i : ℕ) → i ≤ length text → get_or bytes i 0 ≡ get_or text i 0)
    → same_text bytes text ≡ some true
unfolding same_text
same_text-same [] text h e = absurd (omega arith)
same_text-same (b ∷ bytes) [] h e = ground (arith, e 0 (omega arith))
same_text-same (b ∷ bytes) (c ∷ text) h e = ground (
  arith,
  e 0 (omega arith),
  same_text-same bytes text (omega arith) (λ i l. e (suc i) (omega arith)),
)

pub same_text-HasText :
    (bytes : Bytes) (offset : ℕ) (text : Bytes)
    → HasText bytes offset text
    → same_text (drop offset bytes) text ≡ some true
same_text-HasText bytes offset text h =
    same_text-same (drop offset bytes) text (omega (arith, length-drop offset bytes, h.fits))
      (λ i l. get_or-drop offset bytes i (offset + i) 0 refl ∙ h.same i l)

abbrev pub put : ℕ → Bytes → Bytes → Bytes
put offset text bytes = overwrite offset (text ++ 0 ∷ []) bytes

length_text : (text : Bytes) → length (text ++ 0 ∷ []) ≡ length text + 1
length_text text = length-append text (0 ∷ [])

terminated : (text : Bytes) (i : ℕ) → get_or (text ++ 0 ∷ []) i 0 ≡ get_or text i 0
terminated [] zero = refl
terminated [] (suc i) = refl
terminated (c ∷ text) zero = refl
terminated (c ∷ text) (suc i) = terminated text i

pub length-put :
    (offset : ℕ) (text bytes : Bytes)
    → offset + length text < length bytes
    → length (put offset text bytes) ≡ length bytes
length-put offset text bytes h =
    length-overwrite offset (text ++ 0 ∷ []) bytes (omega (arith, length_text text))

pub put-HasText :
    (offset : ℕ) (text bytes : Bytes)
    → offset + length text < length bytes
    → HasText (put offset text bytes) offset text
put-HasText offset text bytes h = record {
  fits = omega (arith, length-put offset text bytes h);
  same = λ i l.
      get_or-overwrite offset (text ++ 0 ∷ []) bytes (offset + i) (omega (arith, length_text text))
      ∙ ground (
        arith,
        length_text text,
        terminated text i,
        ap (λ m. get_or (text ++ 0 ∷ []) m 0) (back i),
      );
}
  where
    back : (i : ℕ) → offset + i - offset ≡ i
    back i = omega arith

-- Another text is written before it or behind it.
pub HasText-put :
    (offset offset' : ℕ) (text text' bytes : Bytes)
    → offset + length text < length bytes
    → (offset + length text < offset') ⊎ (offset' + length text' < offset)
    → HasText bytes offset' text'
    → HasText (put offset text bytes) offset' text'
HasText-put offset offset' text text' bytes h away old = record {
  fits = omega (arith, length-put offset text bytes h, old.fits);
  same = λ i l.
      get_or-overwrite offset (text ++ 0 ∷ []) bytes (offset' + i) (omega (arith, length_text text))
      ∙ (outside i l away ∙ old.same i l);
}
  where
    outside :
        (i : ℕ)
        → i ≤ length text'
        → (offset + length text < offset') ⊎ (offset' + length text' < offset)
        → (if leb offset (offset' + i) && ltb (offset' + i) (offset + length (text ++ 0 ∷ []))
            then get_or (text ++ 0 ∷ []) (offset' + i - offset) 0
            else get_or bytes (offset' + i) 0)
          ≡ get_or bytes (offset' + i) 0
    outside i l (inl b) = ground (arith, length_text text)
    outside i l (inr b) = ground (arith, length_text text)

-- A committed text is in the file.
pub HasText-merge :
    (rs : List Range) (bytes f : Bytes) (offset : ℕ) (text : Bytes)
    → length bytes ≡ length f
    → ((i : ℕ) → i ≤ length text → covered rs (offset + i) ≡ true)
    → HasText bytes offset text
    → HasText (merge rs bytes f) offset text
HasText-merge rs bytes f offset text e in_range h = record {
  fits = omega (arith, length-merge rs bytes f, h.fits);
  same = λ i l. get_or-merge rs bytes f (offset + i) e ∙ rw (in_range i l) (h.same i l);
}

abbrev pub range : ℕ → ℕ → Range
range offset size = record { offset = offset; size = size }

pub covered-append :
    (rs : List Range) (r : Range) (i : ℕ) → covered (rs ++ r ∷ []) i ≡ (covered rs i || covers r i)
covered-append [] r i = ground arith
covered-append (x ∷ rs) r i = ground (arith, covered-append rs r i)

abbrev pub put_in : ℕ → Bytes → ℕ → (ℕ → Contents) → ℕ → Contents
put_in offset text j v = update_at v j (record (v j) { bytes = put offset text (v j).bytes })

module _ {dir : Bytes} {n : ℕ} {segs : ℕ → Entry} (names : Names dir n segs) {k : ℕ} where
  pub put_text-Session :
      (v : ℕ → Contents) (j offset : ℕ) (text : Bytes)
      → j < k
      → offset + length text < (segs j).size
      → Runs
          (Session dir n segs k v)
          (put_text (segs j).at offset text)
          (Session dir n segs k (put_in offset text j v))
  unfolding put_text
  put_text-Session v j offset text l h = record {
    at = λ s g.
        let e = g.each j l in
        let room : offset + length text < length (v j).bytes = omega (arith, e.memory_size) in
        let t : Rvm = record s {
          memory = update_at s.memory (segs j).at (some (put offset text (v j).bytes));
        } in
        (
          tt,
          t,
          rw (e.in_memory, put_text) (ground (arith, length_text text)),
          Session-changed names j (record (v j) { bytes = put offset text (v j).bytes }) l g
              (record {
                num_mapped = refl;
                table = refl;
                slots = λ m q. refl;
                memory = λ a q. rw (==-ne (segs j).at a q) refl;
                files = λ m b q. refl;
                logged = g.logged;
              })
              (record {
                address = e.address;
                name = e.name;
                size = e.size;
                count = e.count;
                array = e.array;
                announced = e.announced;
                inside = e.inside;
                in_memory = rw (==-refl (segs j).at) refl;
                in_file = e.in_file;
                memory_size = length-put offset text (v j).bytes room ∙ e.memory_size;
                file_size = e.file_size;
              }),
        );
  }

  pub compare_text-Session :
      (v : ℕ → Contents) (j offset : ℕ) (text : Bytes)
      → j < k
      → HasText (v j).bytes offset text
      → Gives
          (Session dir n segs k v)
          (compare_text (segs j).at offset text)
          true
          (Session dir n segs k v)
  unfolding compare_text
  compare_text-Session v j offset text l h = record {
    at = λ s g. (
      true,
      s,
      rw ((g.each j l).in_memory, same_text-HasText (v j).bytes offset text h, compare_text),
      (refl, g),
    );
  }

  -- A range is announced and a text put into it, and then what comes behind.
  pub change-Ends :
      {A : Type 0} {v : ℕ → Contents} {m : M A} {R : A → Rvm → Type 0} (j offset size : ℕ)
      (text : Bytes) (js : List ℕ) (tid : ℕ)
      → j < k
      → length (v j).ranges < 10
      → offset + size ≤ (segs j).size
      → length (modify_message (segs j).name offset size) < 250
      → length text < size
      → Ends (Session dir n segs k (put_in offset text j (announce (range offset size) j v))) m R
      → Ends
          (Session dir n segs k v)
          (rvm_about_to_modify (on dir segs js tid) (segs j).at offset size
            >> (put_text (segs j).at offset text >> m))
          R
  change-Ends j offset size text js tid l few inside short fit rest =
      Ends-then
        (modify-Session names _ j (range offset size) (bases segs js) tid l few inside short)
        (Ends-then (put_text-Session _ j offset text l (omega arith)) rest)
