-- ===== src/Rvm/Emptied.antt =====
-- project4/rvm.c: what rvm_truncate_log leaves of the logs.
use cs6210proj.Prelude.{
  ℕ, zero, suc, ◌≤◌, ◌<◌, ◌≡◌, ◌≢◌, refl, ap, ap₂, sym, ◌∙◌, some, List, [], ◌∷◌, ◌++◌, Bytes,
  length, length-append, arith, eqb_refl, eqb-ne, eqb, Bool-cases, Option-cases, inl, inr, ◌⊎◌,
  ==-ne, eqb→eq, take, drop, length-drop,
}
use cs6210proj.Rvm.State.{
  Rvm, done, fits, contents, update, newline, set_file, store_log, segments_log, segment_log,
}
use cs6210proj.Rvm.Truncation.{
  fgets, cut_line, read_line, until_nul, played, truncate, truncate_segments, rvm_truncate_log,
}
use cs6210proj.Rvm.Loops.{>>=-done, fits-done}

abbrev pub HasNoNul : Bytes → Type 0
HasNoNul [] = Unit
HasNoNul (b ∷ bs) = (b ≢ 0) × HasNoNul bs

-- Neither newlines nor NUL bytes.
abbrev pub IsText : Bytes → Type 0
IsText [] = Unit
IsText (b ∷ bs) = (b ≢ b'\n') × (b ≢ 0) × IsText bs

-- What `rvm_map` writes to segments.log for these names.
abbrev pub listing : List Bytes → Bytes
listing [] = []
listing (n ∷ ns) = n ++ (newline ++ listing ns)

-- A line that the two buffers hold, of a segment whose log is not one of the store's own files.
pub record IsLine (dir name : Bytes) : Type 0 where
  pub text : IsText name
  pub short : length name < 1023
  pub path_short : length (segment_log dir name) < 1024
  pub apart : segment_log dir name ≢ store_log dir
  pub list_apart : segment_log dir name ≢ segments_log dir

abbrev pub Lines : Bytes → List Bytes → Type 0
Lines dir [] = Unit
Lines dir (n ∷ ns) = IsLine dir n × Lines dir ns

-- Whether the file is the log of one of these segments.
abbrev pub IsLog : Bytes → List Bytes → Bytes → Type 0
IsLog dir [] p = ⊥
IsLog dir (n ∷ ns) p = (segment_log dir n ≡ p) ⊎ IsLog dir ns p

fgets-line :
    (n : ℕ) (name rest : Bytes)
    → IsText name
    → length name < n
    → fgets n (name ++ (newline ++ rest)) ≡ (name ++ newline, rest)
unfolding fgets
fgets-line zero name rest t h = absurd (omega arith)
fgets-line (suc n) [] rest t h = refl
fgets-line (suc n) (b ∷ bs) rest t h =
    rw (fgets-line n bs rest t.2 (omega arith), ==-ne b b'\n' t.0) refl

cut_line-text : (name : Bytes) → IsText name → cut_line (name ++ newline) ≡ name
unfolding cut_line
cut_line-text [] t = refl
cut_line-text (b ∷ bs) t = rw (cut_line-text bs t.2, ==-ne b b'\n' t.0, ==-ne b 0 t.1) refl

read_line-line :
    (n : ℕ) (name rest : Bytes)
    → IsText name
    → length name < n
    → read_line n (name ++ (newline ++ rest)) ≡ (name, rest)
unfolding read_line
read_line-line n name rest t h =
    rw (fgets-line n name rest t h) (ap (λ line. (line, rest)) (cut_line-text name t))

truncate_segments-line :
    (dir name rest : Bytes) (fuel : ℕ) (s : Rvm)
    → IsLine dir name
    → truncate_segments dir (suc fuel) (name ++ (newline ++ rest)) s
      ≡ truncate_segments dir fuel rest (truncate (segment_log dir name) s)
unfolding truncate_segments
truncate_segments-line dir [] rest fuel s l =
    rw (read_line-line 1023 [] rest l.text l.short)
      (>>=-done (fits (length (segment_log dir [])) 1024) _ (fits-done _ 1024 s l.path_short))
truncate_segments-line dir (b ∷ bs) rest fuel s l =
    rw (read_line-line 1023 (b ∷ bs) rest l.text l.short, ==-ne b 0 l.text.1)
      (>>=-done (fits (length (segment_log dir (b ∷ bs))) 1024) _ (fits-done _ 1024 s l.path_short))

until_nul-take : (n : ℕ) (bs : Bytes) → HasNoNul bs → until_nul (take n bs) ≡ take n bs
unfolding until_nul
until_nul-take zero bs t = refl
until_nul-take (suc n) [] t = refl
until_nul-take (suc n) (b ∷ bs) t = rw (until_nul-take n bs t.1, ==-ne b 0 t.0) refl

HasNoNul-drop : (n : ℕ) (bs : Bytes) → HasNoNul bs → HasNoNul (drop n bs)
HasNoNul-drop zero bs t = t
HasNoNul-drop (suc n) [] t = t
HasNoNul-drop (suc n) (b ∷ bs) t = HasNoNul-drop n bs t.1

take_append_drop : (n : ℕ) (bs : Bytes) → take n bs ++ drop n bs ≡ bs
take_append_drop zero bs = refl
take_append_drop (suc n) [] = refl
take_append_drop (suc n) (b ∷ bs) = ap (◌∷◌ b) (take_append_drop n bs)

played-all : (fuel : ℕ) (bs : Bytes) → HasNoNul bs → length bs ≤ fuel → played fuel bs ≡ bs
unfolding played
played-all fuel [] t h = refl
played-all zero (b ∷ bs) t h = absurd (omega arith)
played-all (suc fuel) (b ∷ bs) t h = rw (until_nul-take 1023 (b ∷ bs) t) (
    ap (λ rest. take 1023 (b ∷ bs) ++ rest)
      (played-all fuel (drop 1022 bs) (HasNoNul-drop 1022 bs t.1)
        (omega (arith, length-drop 1022 bs)))
    ∙ take_append_drop 1023 (b ∷ bs))

abbrev truncate_all : Bytes → List Bytes → Rvm → Rvm
truncate_all dir [] s = s
truncate_all dir (n ∷ ns) s = truncate_all dir ns (truncate (segment_log dir n) s)

truncate_segments-all :
    (dir : Bytes) (names : List Bytes) (fuel : ℕ) (s : Rvm)
    → Lines dir names
    → length (listing names) ≤ fuel
    → truncate_segments dir fuel (listing names) s ≡ done tt (truncate_all dir names s)
unfolding truncate_segments
truncate_segments-all dir [] zero s l h = refl
truncate_segments-all dir [] (suc fuel) s l h = refl
truncate_segments-all dir (n ∷ ns) zero s l h =
    absurd (omega (arith, length-append n (newline ++ listing ns)))
truncate_segments-all dir (n ∷ ns) (suc fuel) s l h =
    truncate_segments-line dir n (listing ns) fuel s l.0
    ∙ truncate_segments-all dir ns fuel (truncate (segment_log dir n) s) l.1
        (omega (arith, length-append n (newline ++ listing ns)))

truncate-empty : (p : Bytes) (s : Rvm) → contents ((truncate p s).file p) ≡ []
truncate-empty p s = elim (Option-cases (s.file p)) [
  | inl e ↦ simp (e, truncate)
  | inr (c, e) ↦ simp (e, eqb_refl p, truncate)
]

truncate-other : (p q : Bytes) (s : Rvm) → p ≢ q → (truncate p s).file q ≡ s.file q
truncate-other p q s h = elim (Option-cases (s.file p)) [
  | inl e ↦ simp (e, truncate)
  | inr (c, e) ↦ simp (e, eqb-ne p q h, truncate)
]

truncate-keeps :
    (p q : Bytes) (s : Rvm) → contents (s.file q) ≡ [] → contents ((truncate p s).file q) ≡ []
truncate-keeps p q s h = elim (Bool-cases (eqb p q)) [
  | inl e ↦
      let same : p ≡ q = eqb→eq p q e in
      ap (λ r. contents ((truncate p s).file r)) (sym same) ∙ truncate-empty p s
  | inr e ↦ ap contents (truncate-other p q s (λ same. cc (eqb_refl p))) ∙ h
]

-- The rest of the process, which emptying a file leaves alone.
record Rest (s t : Rvm) : Type 0 where
  memory : t.memory ≡ s.memory
  mapped : t.mapped ≡ s.mapped
  num_mapped : t.num_mapped ≡ s.num_mapped
  output : t.output ≡ s.output

truncate-Rest : (p : Bytes) (s : Rvm) → Rest s (truncate p s)
truncate-Rest p s = elim (Option-cases (s.file p)) [
  | inl e ↦ record {
    memory = simp (e, truncate);
    mapped = simp (e, truncate);
    num_mapped = simp (e, truncate);
    output = simp (e, truncate);
  }
  | inr (c, e) ↦ record {
    memory = simp (e, truncate);
    mapped = simp (e, truncate);
    num_mapped = simp (e, truncate);
    output = simp (e, truncate);
  }
]

truncate_all-Rest : (dir : Bytes) (names : List Bytes) (s : Rvm) → Rest s (truncate_all dir names s)
truncate_all-Rest dir [] s = record {
  memory = refl;
  mapped = refl;
  num_mapped = refl;
  output = refl;
}
truncate_all-Rest dir (n ∷ ns) s =
    let first : Rest s (truncate (segment_log dir n) s) = truncate-Rest (segment_log dir n) s in
    let rest : Rest (truncate (segment_log dir n) s) (truncate_all dir (n ∷ ns) s) =
      truncate_all-Rest dir ns (truncate (segment_log dir n) s) in
    record {
      memory = rest.memory ∙ first.memory;
      mapped = rest.mapped ∙ first.mapped;
      num_mapped = rest.num_mapped ∙ first.num_mapped;
      output = rest.output ∙ first.output;
    }

truncate_all-other :
    (dir : Bytes) (names : List Bytes) (p : Bytes) (s : Rvm)
    → ¬ IsLog dir names p
    → (truncate_all dir names s).file p ≡ s.file p
truncate_all-other dir [] p s h = refl
truncate_all-other dir (n ∷ ns) p s h =
    truncate_all-other dir ns p (truncate (segment_log dir n) s) (λ l. h (inr l))
    ∙ truncate-other (segment_log dir n) p s (λ e. h (inl e))

truncate_all-keeps :
    (dir : Bytes) (names : List Bytes) (p : Bytes) (s : Rvm)
    → contents (s.file p) ≡ []
    → contents ((truncate_all dir names s).file p) ≡ []
truncate_all-keeps dir [] p s h = h
truncate_all-keeps dir (n ∷ ns) p s h =
    truncate_all-keeps dir ns p (truncate (segment_log dir n) s)
      (truncate-keeps (segment_log dir n) p s h)

truncate_all-empty :
    (dir : Bytes) (names : List Bytes) (p : Bytes) (s : Rvm)
    → IsLog dir names p
    → contents ((truncate_all dir names s).file p) ≡ []
truncate_all-empty dir [] p s l = absurd l
truncate_all-empty dir (n ∷ ns) p s (inl e) =
    truncate_all-keeps dir ns p (truncate (segment_log dir n) s) (
      ap (λ q. contents ((truncate (segment_log dir n) s).file q)) (sym e)
      ∙ truncate-empty (segment_log dir n) s)
truncate_all-empty dir (n ∷ ns) p s (inr l) =
    truncate_all-empty dir ns p (truncate (segment_log dir n) s) l

apart-IsLog :
    (dir : Bytes) (names : List Bytes) → Lines dir names → ¬ IsLog dir names (store_log dir)
apart-IsLog dir [] w l = l
apart-IsLog dir (n ∷ ns) w (inl e) = w.0.apart e
apart-IsLog dir (n ∷ ns) w (inr l) = apart-IsLog dir ns w.1 l

-- The call, with the main log printed as `played` has it.
pub rvm_truncate_log-runs :
    (dir : Bytes) (names : List Bytes) (s : Rvm)
    → s.file (segments_log dir) ≡ some (listing names)
    → Lines dir names
    → length (segments_log dir) < 1024
    → length (store_log dir) < 1024
    → let c = contents (s.file (store_log dir)) in
      (s' : Rvm) × (rvm_truncate_log dir s ≡ done tt s')
      × (s'.file (store_log dir) ≡ some [])
      × ((p : Bytes) → IsLog dir names p → contents (s'.file p) ≡ [])
      × ((p : Bytes) → ¬ IsLog dir names p → store_log dir ≢ p → s'.file p ≡ s.file p)
      × (s'.output ≡ s.output ++ played (length c) c)
      × (s'.memory ≡ s.memory)
      × (s'.mapped ≡ s.mapped)
      × (s'.num_mapped ≡ s.num_mapped)
unfolding rvm_truncate_log
rvm_truncate_log-runs dir names s e w list_short log_short =
    let t : Rvm = truncate_all dir names s in
    let rest : Rest s t = truncate_all-Rest dir names s in
    let other : t.file (store_log dir) ≡ s.file (store_log dir) =
      truncate_all-other dir names (store_log dir) s (apart-IsLog dir names w) in
    let final : Rvm = set_file (store_log dir) [] (record t {
      output =
          t.output
          ++ played (length (contents (t.file (store_log dir))))
              (contents (t.file (store_log dir)));
    }) in
    (
      final,
      rw (e, rvm_truncate_log)
          (>>=-done (fits (length (segments_log dir)) 1024) _ (fits-done _ 1024 s list_short)
            ∙ (>>=-done (truncate_segments dir (length (listing names)) (listing names)) _
                  (truncate_segments-all dir names _ s w (omega arith))
                ∙ >>=-done (fits (length (store_log dir)) 1024) _ (fits-done _ 1024 t log_short))),
      rw (eqb_refl (store_log dir)) refl,
      λ p l. final-log p l,
      λ p l h. rw (eqb-ne (store_log dir) p h) (truncate_all-other dir names p s l),
      ap₂ (λ o c. o ++ played (length (contents c)) (contents c)) rest.output other,
      rest.memory,
      rest.mapped,
      rest.num_mapped,
    )
  where
    final-log :
        (p : Bytes)
        → IsLog dir names p
        → contents (update (truncate_all dir names s).file (store_log dir) (some []) p) ≡ []
    final-log p l = elim (Bool-cases (eqb (store_log dir) p)) [
      | inl q ↦ simp q
      | inr q ↦ simp q (truncate_all-empty dir names p s l)
    ]

-- segments.log lists names, one to a line, under the bounds of `IsLine`, the store's own file names fit
-- the buffers and the main log has no NUL byte. Then `rvm_truncate_log` ends: it has printed the main log
-- as it was, the main log and every listed segment's log hold nothing, and all other files, the mappings
-- and the table are as before.
pub rvm_truncate_log-empties :
    (dir : Bytes) (names : List Bytes) (s : Rvm)
    → s.file (segments_log dir) ≡ some (listing names)
    → Lines dir names
    → length (segments_log dir) < 1024
    → length (store_log dir) < 1024
    → HasNoNul (contents (s.file (store_log dir)))
    → (s' : Rvm) × (rvm_truncate_log dir s ≡ done tt s')
      × (s'.file (store_log dir) ≡ some [])
      × ((p : Bytes) → IsLog dir names p → contents (s'.file p) ≡ [])
      × ((p : Bytes) → ¬ IsLog dir names p → store_log dir ≢ p → s'.file p ≡ s.file p)
      × (s'.output ≡ s.output ++ contents (s.file (store_log dir)))
      × (s'.memory ≡ s.memory)
      × (s'.mapped ≡ s.mapped)
      × (s'.num_mapped ≡ s.num_mapped)
rvm_truncate_log-empties dir names s e w list_short log_short no_nul =
    let (s', ran, main_log, logs, others, output, memory, mapped, count) =
      rvm_truncate_log-runs dir names s e w list_short log_short in
    (
      s',
      ran,
      main_log,
      logs,
      others,
      output ∙ ap (λ c. s.output ++ c) (played-all _ _ no_nul (omega arith)),
      memory,
      mapped,
      count,
    )
