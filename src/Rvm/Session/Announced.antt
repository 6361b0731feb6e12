-- ===== src/Rvm/Session/Announced.antt =====
-- project4/rvm.c: a transaction that begins on one segment of a session, and a range that is announced.
use cs6210proj.Prelude.{
  ℕ, Option, ◌+◌, ◌≤◌, ◌<◌, ◌≡◌, refl, ap, sym, ◌∙◌, subst, some, List, [], ◌∷◌, ◌++◌, map, Bytes,
  codes, length, length-append, length-set, get_or-set_self, get_or-set_ne, arith,
}
use cs6210proj.Rvm.State.{
  Range, Segment, Trans, Rvm, done, unused, fits, store_log, segment_file, log_rvm, log_segment,
  log_both,
}
use cs6210proj.Rvm.Table.{slot, set_slot, rounds, find_base}
use cs6210proj.Rvm.Transaction.{
  begin_entry, lock_segment, add_range, modify_message, rvm_about_to_modify,
}
use cs6210proj.Rvm.Ranges.{Within}
use cs6210proj.Rvm.Loops.{>>=-done, fits-done}
use cs6210proj.Rvm.Begin.{lock_segment-done}
use cs6210proj.Rvm.Modify.{rvm_about_to_modify-found, add_range-room, recorded-extended, extended}
use cs6210proj.Rvm.Ends.{Runs}
use cs6210proj.Rvm.Session.{Entry, Contents, Names, Session}
use cs6210proj.Rvm.Session.Logs.{
  Session-kept, log_rvm-Session, log_segment-Session, log_both-Session,
}
use cs6210proj.Rvm.Session.Change.{bases, Session-changed, find_base-Session}
use cs6210proj.Rvm.Session.View.{announce}

map-some-append :
    (rs : List Range) (r : Range)
    → map {B = Option Range} some (rs ++ r ∷ []) ≡ map some rs ++ some r ∷ []
map-some-append [] r = refl
map-some-append (x ∷ rs) r = ap (◌∷◌ (some x)) (map-some-append rs r)

Within-append :
    (size : ℕ) (rs : List Range) (r : Range)
    → Within size rs
    → r.offset + r.size ≤ size
    → Within size (rs ++ r ∷ [])
Within-append size [] r w h = (h, tt)
Within-append size (x ∷ rs) r w h = (w.0, Within-append size rs r w.1 h)

module _ {dir : Bytes} {n : ℕ} {segs : ℕ → Entry} (names : Names dir n segs) {k : ℕ} where
  pub begin_entry-Session :
      (v : ℕ → Contents) (j : ℕ)
      → j < k
      → Runs (Session dir n segs k v) (begin_entry dir j) (Session dir n segs k v)
  unfolding begin_entry
  begin_entry-Session v j l = record {
    at = λ s h.
        let (s₁, ran, files, memory, table, count) = lock_segment-done dir (slot j s).name s in
        let (c, log) = h.logged in
        let h₁ : Session dir n segs k v s₁ = Session-kept h (record {
          memory = memory;
          mapped = table;
          num_mapped = count;
          logged = (c, ap (λ g. g (store_log dir)) files ∙ log);
          files = λ m b. ap (λ g. g (segment_file dir (segs m).name)) files;
        }) in
        let what : Bytes = codes "RVM_BEGINTRANS SEGMENT " in
        let (_, t, ran', h₂) =
          (log_both-Session names what j (omega (arith, h.bound)) (omega arith)).at s₁ h₁ in
        (
          tt,
          t,
          >>=-done (lock_segment dir (slot j s).name) _ ran
              ∙ (ap (λ x. log_both dir what x s₁) (h.each j l).name ∙ ran'),
          h₂,
        );
  }

  pub modify-Session :
      (v : ℕ → Contents) (j : ℕ) (r : Range) (bases : List ℕ) (tid : ℕ)
      → j < k
      → length (v j).ranges < 10
      → r.offset + r.size ≤ (segs j).size
      → length (modify_message (segs j).name r.offset r.size) < 250
      → Runs
          (Session dir n segs k v)
          (rvm_about_to_modify
            (record { segbases = bases; tid = tid; dir = dir })
            (segs j).at
            r.offset
            r.size)
          (Session dir n segs k (announce r j v))
  modify-Session v j r bases tid l few inside short = record {
    at = λ s h.
        let e = h.each j l in
        let msg : Bytes = modify_message (slot j s).name r.offset r.size in
        let trans : Trans = record { segbases = bases; tid = tid; dir = dir } in
        let room : (slot j s).num_ranges < 10 = omega (arith, e.count) in
        let s₁ : Rvm = set_slot j (extended trans r.offset r.size j s) s in
        let h₁ : Session dir n segs k (announce r j v) s₁ =
          announced v j r s trans l h room inside in
        let fit : length msg < 250 =
          subst (λ x. length (modify_message x r.offset r.size) < 250) (sym e.name) short in
        let (_, s₂, ran₂, h₂) = (log_rvm-Session names msg).at s₁ h₁ in
        let (_, t, ran₃, h₃) =
          (log_segment-Session names msg j (omega (arith, h.bound))).at s₂ h₂ in
        (
          tt,
          t,
          subst (λ b. rvm_about_to_modify trans b r.offset r.size s ≡ done tt t) e.address
              (rvm_about_to_modify-found trans r.offset r.size j s (
                  subst (λ b. find_base (rounds s.num_mapped) 0 b s ≡ some j) (sym e.address)
                    (find_base-Session names j l h))
                ∙ (>>=-done (add_range j r) _ (add_range-room trans r.offset r.size j s room)
                    ∙ (>>=-done (fits (length msg) 250) _ (fits-done (length msg) 250 s₁ fit)
                        ∙ (>>=-done (log_rvm dir msg) _ ran₂
                            ∙ (ap (λ x. log_segment dir x msg s₂) e.name ∙ ran₃))))),
          h₃,
        );
  }
    where
      announced :
          (v : ℕ → Contents) (j : ℕ) (r : Range) (s : Rvm) (trans : Trans)
          → j < k
          → Session dir n segs k v s
          → (slot j s).num_ranges < 10
          → r.offset + r.size ≤ (segs j).size
          → Session dir n segs k
              (announce r j v)
              (set_slot j (extended trans r.offset r.size j s) s)
      announced v j r s trans l h room inside =
          let e = h.each j l in
          let new : Segment = extended trans r.offset r.size j s in
          Session-changed names j (record (v j) { ranges = (v j).ranges ++ r ∷ [] }) l h
            (record {
              num_mapped = refl;
              table = length-set s.mapped j new;
              slots = λ m q. get_or-set_ne s.mapped new unused q;
              memory = λ a q. refl;
              files = λ m b q. refl;
              logged = h.logged;
            })
            (rw
              (get_or-set_self s.mapped j new unused (omega (arith, h.table, h.bound, names.room)))
              (record {
                address = e.address;
                name = e.name;
                size = e.size;
                count = omega (arith, e.count, length-append (v j).ranges (r ∷ []));
                array = length-set (slot j s).ranges (slot j s).num_ranges (some r) ∙ e.array;
                announced =
                    recorded-extended trans r.offset r.size j s e.array room
                    ∙ ap (λ x. x ++ some r ∷ []) e.announced
                    ∙ sym (map-some-append (v j).ranges r);
                inside = Within-append (segs j).size (v j).ranges r e.inside inside;
                in_memory = e.in_memory;
                in_file = e.in_file;
                memory_size = e.memory_size;
                file_size = e.file_size;
              }))
