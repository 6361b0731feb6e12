-- ===== src/Rvm/Begin.antt =====
-- project4/rvm.c: rvm_begin_trans and the locks.
use cs6210proj.Prelude.{
  ◌≡◌, refl, List, [], ◌∷◌, Bytes, codes, Bool, false, ◌||◌, eqb, Option-cases, inl, inr,
}
use cs6210proj.Rvm.State.{Rvm, done, segment_log}
use cs6210proj.Rvm.Transaction.{lock_segment}

-- Whether the process has a lock on a file.
abbrev pub holds : Bytes → List Bytes → Bool
holds p [] = false
holds p (q ∷ qs) = eqb p q || holds p qs

pub lock_segment-done :
    (dir name : Bytes) (s : Rvm)
    → (s' : Rvm) × (lock_segment dir name s ≡ done tt s')
      × (s'.file ≡ s.file)
      × (s'.memory ≡ s.memory)
      × (s'.mapped ≡ s.mapped)
      × (s'.num_mapped ≡ s.num_mapped)
unfolding lock_segment
lock_segment-done dir name s = elim (Option-cases (s.file (segment_log dir name))) [
  | inl e ↦ (s, rw (e, lock_segment), refl, refl, refl, refl)
  | inr (c, e) ↦ (
    record s { locks = segment_log dir name ∷ s.locks },
    rw (e, lock_segment),
    refl,
    refl,
    refl,
    refl,
  )
]

abbrev pub begins : Bytes
begins = codes "RVM_BEGINTRANS SEGMENT "
