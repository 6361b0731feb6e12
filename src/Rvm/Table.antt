-- ===== src/Rvm/Table.antt =====
-- project4/rvm.c: the loops over the table `mapped`.
use cs6210proj.Prelude.{
  ℕ, zero, suc, ◌+◌, ℤ, pos, negsuc, Bool, false, ◌||◌, Option, none, some, List, Bytes, eqb, ◌==◌,
  if◌then◌else◌, get_or, set,
}
use cs6210proj.Rvm.State.{Segment, Rvm, M, done, ◌>>◌, unused}

-- The rounds of `for(i = 0; i < num_mapped; i++)`.
abbrev pub rounds : ℤ → ℕ
rounds (pos n) = n
rounds (negsuc n) = 0

abbrev pub slot : ℕ → Rvm → Segment
slot i s = get_or s.mapped i unused

abbrev pub set_slot : ℕ → Segment → Rvm → Rvm
set_slot i seg s = record s { mapped = set s.mapped i seg }

-- `for(i = ...; ...) if(mapped[i].data == base) ...`: the first index, of those from `i` on.
unfoldable pub find_base : ℕ → ℕ → ℕ → Rvm → Option ℕ
find_base zero i base s = none
find_base (suc k) i base s =
    if (slot i s).address == base then some i else find_base k (i + 1) base s

-- `for(i = 0; i < num_mapped; i++) if(strcmp(mapped[i].name, segname) == 0)`
unfoldable pub has_name : ℕ → ℕ → Bytes → Rvm → Bool
has_name zero i name s = false
has_name (suc k) i name s = eqb (slot i s).name name || has_name k (i + 1) name s

-- The loops that run a body for every entry with the base, not the first alone.
unfoldable pub for_base : ℕ → ℕ → ℕ → (ℕ → M (Unit {0})) → M (Unit {0})
for_base zero i base body s = done tt s
for_base (suc k) i base body s =
    let rest : M (Unit {0}) = for_base k (i + 1) base body in
    if (slot i s).address == base then (body i >> rest) s else rest s

-- `for(; i < num_mapped - 1; i++) mapped[i] = mapped[i + 1];`
unfoldable pub shift_down : ℕ → ℕ → List Segment → List Segment
shift_down zero i table = table
shift_down (suc k) i table = shift_down k (i + 1) (set table i (get_or table (i + 1) unused))
