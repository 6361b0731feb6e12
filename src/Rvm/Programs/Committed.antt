-- ===== src/Rvm/Programs/Committed.antt =====
-- project4: a text that is put into an announced range is in the file behind the commit.
use cs6210proj.Prelude.{
  ℕ, ◌+◌, ◌-◌, ◌<◌, ◌≡◌, ◌∙◌, inr, List, [], ◌∷◌, ◌++◌, Bytes, length, length-append,
  get_or-append_left, replicate, arith,
}
use cs6210proj.Rvm.State.{Range}
use cs6210proj.Rvm.Mapping.{pad}
use cs6210proj.Rvm.Session.View.{merge}
use cs6210proj.Rvm.Programs.Texts.{
  HasText, put, put-HasText, HasText-put, HasText-merge, length-put, covered-append, range,
}

-- Two texts are put into the same bytes, the second behind the first, and committed under ranges of 100
-- bytes from where they begin.
module _ (first second : Bytes) (near far : ℕ) (bytes f : Bytes) (rs : List Range)
    (room : far + length second < length bytes) (order : near + length first < far)
    (same_size : length bytes ≡ length f) (first_short : length first < 100)
    (second_short : length second < 100) where
  abbrev one : Bytes
  one = put near first bytes

  abbrev two : Bytes
  two = put far second one

  abbrev announced : List Range
  announced = (rs ++ range near 100 ∷ []) ++ range far 100 ∷ []

  length-one : length one ≡ length bytes
  length-one = length-put near first bytes (omega arith)

  length-two : length two ≡ length f
  length-two = length-put far second one (omega (arith, length-one)) ∙ length-one ∙ same_size

  pub second-committed : HasText (merge announced two f) far second
  second-committed =
      HasText-merge announced two f far second length-two
        (λ i l.
          ground (arith, covered-append (rs ++ range near 100 ∷ []) (range far 100) (far + i)))
        (put-HasText far second one (omega (arith, length-one)))

  pub first-committed : HasText (merge announced two f) near first
  first-committed =
      HasText-merge announced two f near first length-two
        (λ i l. ground (
          arith,
          covered-append (rs ++ range near 100 ∷ []) (range far 100) (near + i),
          covered-append rs (range near 100) (near + i),
        ))
        (HasText-put far near second first one (omega (arith, length-one)) (inr order)
          (put-HasText near first bytes (omega arith)))

pub one-committed :
    (text : Bytes) (offset : ℕ) (bytes f : Bytes) (rs : List Range)
    → offset + length text < length bytes
    → length bytes ≡ length f
    → length text < 100
    → HasText (merge (rs ++ range offset 100 ∷ []) (put offset text bytes) f) offset text
one-committed text offset bytes f rs room same_size short =
    HasText-merge (rs ++ range offset 100 ∷ []) (put offset text bytes) f offset text
      (length-put offset text bytes room ∙ same_size)
      (λ i l. ground (arith, covered-append rs (range offset 100) (offset + i)))
      (put-HasText offset text bytes room)

-- It stays there when the file is padded.
pub HasText-pad :
    (f : Bytes) (size offset : ℕ) (text : Bytes)
    → HasText f offset text
    → HasText (pad f size) offset text
HasText-pad f size offset text h = record {
  fits = omega (arith, h.fits, length-append f (replicate (size - length f) 0));
  same = λ i l.
      get_or-append_left f (replicate (size - length f) 0) (offset + i) 0 (omega (arith, h.fits))
      ∙ h.same i l;
}
