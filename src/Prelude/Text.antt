-- ===== src/Prelude/Text.antt =====
-- Byte strings: C's `char *` up to its terminator, and the contents of files and of memory.
use Prim.Native.Nat.{ℕ, zero, suc, ◌+◌, ◌/◌, ◌%◌}
use Prim.Native.Char.{code}
use Prim.Native.String.{String}
use mathlib.Core.Path.{◌≡◌, refl}
use mathlib.Core.Logic.{◌≢◌}
use mathlib.Core.Bool.{Bool, true, false, ◌&&◌}
use mathlib.Core.List.{List, [], ◌∷◌}
use native.Mathlib.Omega.{arith}
use cs6210proj.Prelude.Tests.{◌==◌, ltb, if◌then◌else◌}

abbrev pub Bytes : Type 0
Bytes = List ℕ

abbrev pub codes : String → Bytes
codes String.[] = []
codes (String.◌∷◌ c s) = code c ∷ codes s

abbrev pub eqb : Bytes → Bytes → Bool
eqb [] [] = true
eqb [] (b ∷ bs) = false
eqb (a ∷ r) [] = false
eqb (a ∷ r) (b ∷ bs) = (a == b) && eqb r bs

pub eqb_refl : (a : Bytes) → eqb a a ≡ true
eqb_refl [] = refl
eqb_refl (x ∷ a) = ground (arith, eqb_refl a)

pub eqb→eq : (a b : Bytes) → eqb a b ≡ true → a ≡ b
eqb→eq [] [] h = refl
eqb→eq [] (y ∷ b) h = cc
eqb→eq (x ∷ a) [] h = cc
eqb→eq (x ∷ a) (y ∷ b) h = ground (arith, eqb→eq a b)

pub eqb-ne : (a b : Bytes) → a ≢ b → eqb a b ≡ false
eqb-ne a b h = ground (arith, eqb→eq a b)

-- What `printf("%d")` writes for a number that is not negative; the fuel is the number itself.
digits_from : ℕ → ℕ → Bytes → Bytes
digits_from zero n tail = tail
digits_from (suc fuel) n tail =
    let rest = digits_from fuel (n / 10) ((b'0' + n % 10) ∷ tail) in
    if ltb n 10 then (b'0' + n) ∷ tail else rest

unfoldable pub print_int : ℕ → Bytes
unfolding digits_from
print_int n = digits_from (suc n) n []
