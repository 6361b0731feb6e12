-- ===== src/Rvm/Programs.antt =====
-- project4: the sample programs of the library, and the calls of the C library that they share.
pub mod Abort
pub mod Multi
pub mod Limits
pub mod Single
pub mod Texts
pub mod Committed
pub mod Shared
pub mod Passes
pub mod Pair
pub mod Forked
pub mod Faults
pub mod Emptying
pub mod Named
pub mod Rounds
pub mod Maximum
pub mod Exceeded
pub mod Invalid
mod Tests
use cs6210proj.Prelude.{
  ℕ, zero, suc, ◌+◌, ◌-◌, Bool, true, false, Option, none, some, List, [], ◌∷◌, ◌++◌, Bytes, codes,
  leb, ltb, ◌==◌, if◌then◌else◌, length, drop,
}
use cs6210proj.Rvm.State.{
  Rvm, Outcome, done, fault, hang, M, pure, ◌>>=◌, ◌>>◌, update_at, overwrite,
}
use cs6210proj.Rvm.Mapping.{print_error}

-- `printf`
abbrev pub print : Bytes → M (Unit {0})
print msg s = done tt (record s { output = s.output ++ msg })

-- `strcpy` or `sprintf` of a text to `base + offset`, with its terminator.
unfoldable pub put_text : ℕ → ℕ → Bytes → M (Unit {0})
put_text base offset text s = elim (s.memory base) [
  | none ↦ fault
  | some bytes ↦
      if leb (offset + length text + 1) (length bytes)
      then done tt (record s {
        memory = update_at s.memory base (some (overwrite offset (text ++ 0 ∷ []) bytes));
      })
      else fault
]

-- Whether `strcmp` of the bytes and a text is 0; `none` is past the end of the bytes.
unfoldable pub same_text : Bytes → Bytes → Option Bool
same_text [] text = none
same_text (b ∷ bytes) [] = some (b == 0)
same_text (b ∷ bytes) (c ∷ text) =
    let rest = same_text bytes text in if b == c then rest else some false

-- The text up to its terminator, as `%s` prints it.
unfoldable pub c_text : Bytes → Option Bytes
c_text [] = none
c_text (b ∷ bytes) =
    let rest : Option Bytes = elim (c_text bytes) [ none ↦ none | some text ↦ some (b ∷ text) ] in
    if b == 0 then some [] else rest

abbrev pub or_fault : {A : Type 0} → Option A → M A
or_fault none s = fault
or_fault (some a) s = done a s

unfoldable pub compare_text : ℕ → ℕ → Bytes → M Bool
compare_text base offset text s = elim (s.memory base) [
  | none ↦ fault
  | some bytes ↦ or_fault (same_text (drop offset bytes) text) s
]

unfoldable pub text_at : ℕ → ℕ → M Bytes
text_at base offset s = elim (s.memory base) [
  | none ↦ fault
  | some bytes ↦ or_fault (c_text (drop offset bytes)) s
]

-- `if(strcmp(base + offset, text)) { ...; exit(2); }`, and what comes behind it.
abbrev pub expect : ℕ → ℕ → Bytes → M (Unit {0}) → M ℕ → M ℕ
expect base offset text complain rest =
    compare_text base offset text >>= λ same. if same then rest else (complain >> pure 2)

abbrev pub complain_at : Bytes → ℕ → ℕ → M (Unit {0})
complain_at what base offset = text_at base offset >>= λ text. print (what ++ (text ++ codes ")\n"))

-- `fork`, the child's run and `waitpid`: the parent goes on with the files that the child leaves. What
-- a child leaves whose behaviour is undefined is `crashed`.
abbrev pub fork_and_wait : Bool → (Rvm → Bytes → Option Bytes) → M (Unit {0}) → M ℕ → M ℕ
fork_and_wait forked crashed child parent s =
    if forked
    then elim (child s) [
      | done _ t ↦ parent (record s { file = t.file })
      | fault ↦ parent (record s { file = crashed s })
      | hang ↦ hang
    ]
    else done 2 (print_error "fork" s)
