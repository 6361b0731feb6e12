-- ===== src/Rvm/Truncation.antt =====
-- project4/rvm.c: rvm_truncate_log.
use cs6210proj.Prelude.{
  ℕ, zero, suc, none, some, [], ◌∷◌, ◌++◌, Bytes, ◌==◌, if◌then◌else◌, length, ◌||◌, take, drop,
}
use cs6210proj.Rvm.State.{
  Rvm, done, fault, M, ◌>>◌, fits, set_file, contents, store_log, segments_log, segment_log,
}

-- `fgets`: at most `n` bytes, up to and with a newline. The two parts are these bytes and what is left.
unfoldable pub fgets : ℕ → Bytes → Bytes × Bytes
fgets zero bs = ([], bs)
fgets (suc n) [] = ([], [])
fgets (suc n) (b ∷ bs) =
    let (line, rest) = fgets n bs in if b == b'\n' then (b ∷ [], bs) else (b ∷ line, rest)

-- The loop that ends the text in the buffer at its first newline or NUL.
unfoldable pub cut_line : Bytes → Bytes
cut_line [] = []
cut_line (b ∷ bs) = let rest = cut_line bs in if b == b'\n' || b == 0 then [] else b ∷ rest

unfoldable pub read_line : ℕ → Bytes → Bytes × Bytes
read_line n bs = let (text, rest) = fgets n bs in (cut_line text, rest)

-- What `%s` prints of a buffer.
unfoldable pub until_nul : Bytes → Bytes
until_nul [] = []
until_nul (b ∷ bs) = let rest = until_nul bs in if b == 0 then [] else b ∷ rest

-- The loop that reads the main log in pieces of 1023 bytes and prints them. Each round reads one byte at
-- least, so the fuel is their number.
unfoldable pub played : ℕ → Bytes → Bytes
played fuel [] = []
played zero (b ∷ bs) = []
played (suc fuel) (b ∷ bs) = until_nul (take 1023 (b ∷ bs)) ++ played fuel (drop 1023 (b ∷ bs))

-- O_TRUNC without O_CREAT
abbrev pub truncate : Bytes → Rvm → Rvm
truncate p s = elim (s.file p) [ none ↦ s | some _ ↦ set_file p [] s ]

-- The loop over segments.log, on its bytes that are left, up to a line that begins with NUL; each round reads one byte at least, so the
-- fuel is their number.
unfoldable pub truncate_segments : Bytes → ℕ → Bytes → M (Unit {0})
truncate_segments dir fuel [] s = done tt s
truncate_segments dir zero (b ∷ bs) s = done tt s
truncate_segments dir (suc fuel) (b ∷ bs) s =
    let (line, rest) = read_line 1023 (b ∷ bs) in
    if b == 0
    then done tt s
    else (fits (length (segment_log dir line)) 1024 >> λ s.
          truncate_segments dir fuel rest (truncate (segment_log dir line) s))
        s

-- Without a segments.log `fopen` gives NULL. The main log is printed and then emptied.
unfoldable pub rvm_truncate_log : Bytes → M (Unit {0})
rvm_truncate_log dir s = elim (s.file (segments_log dir)) [
  | none ↦ fault
  | some listed ↦
      (fits (length (segments_log dir)) 1024
          >> (truncate_segments dir (length listed) listed
              >> (fits (length (store_log dir)) 1024 >> λ s. done tt (
                  set_file (store_log dir) [] (record s {
                    output =
                        s.output
                        ++ played (length (contents (s.file (store_log dir))))
                            (contents (s.file (store_log dir)));
                  })))))
        s
]
