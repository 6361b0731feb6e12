-- ===== src/Multirpc/Printed.antt =====
-- project3/examples/xmlrpc_client.c, project3/examples/xmlrpc_asynch_client.c: what the process has printed
-- in each phase of the main thread.
use cs6210proj.Prelude.{
  ℕ, ◌≡◌, refl, ap, sym, ◌∙◌, ℤ, Bool, true, false, ◌⊎◌, inl, inr, List, [], ◌∷◌, ◌++◌, append-nil,
  append_assoc,
}
use cs6210proj.Multirpc.Client.{Phase, creating, waiting, woken, exited, printed}
use cs6210proj.Multirpc.Messages.{Message, nonblocking_made, answered_by, rpc_failed}
use cs6210proj.Multirpc.Main.{
  MainPhase, starting, announcing, joining, calling, finished, is_async, running, awaiting,
}
use cs6210proj.Multirpc.Moves.{Moves, stays, dies, waits, wakes, prints}

-- Without the lines for calls that failed.
abbrev pub others : List Message → List Message
others [] = []
others (nonblocking_made ∷ ms) = nonblocking_made ∷ others ms
others (answered_by n v ∷ ms) = answered_by n v ∷ others ms
others (rpc_failed fault_string ∷ ms) = others ms

pub others-append : (xs ys : List Message) → others (xs ++ ys) ≡ others xs ++ others ys
others-append [] ys = refl
others-append (nonblocking_made ∷ xs) ys = ap (◌∷◌ nonblocking_made) (others-append xs ys)
others-append (answered_by n v ∷ xs) ys = ap (◌∷◌ (answered_by n v)) (others-append xs ys)
others-append (rpc_failed fault_string ∷ xs) ys = others-append xs ys

abbrev announced : List Message
announced = nonblocking_made ∷ []

abbrev pub callback : ℕ → ℤ → List Message
callback n v = answered_by n v ∷ []

-- What the callback prints as the phase changes.
abbrev pub callback_says : Phase → Phase → List Message
callback_says woken (printed n v) = callback n v
callback_says woken creating = []
callback_says woken waiting = []
callback_says woken woken = []
callback_says woken exited = []
callback_says creating q = []
callback_says waiting q = []
callback_says exited q = []
callback_says (printed n v) q = []

-- What the callback has printed in a phase.
abbrev pub heard : Phase → List Message
heard creating = []
heard waiting = []
heard woken = []
heard exited = []
heard (printed n v) = callback n v

abbrev is_printed : Phase → Bool
is_printed creating = false
is_printed waiting = false
is_printed woken = false
is_printed exited = false
is_printed (printed n v) = true

pub callback_says-same : (p : Phase) → callback_says p p ≡ []
callback_says-same creating = refl
callback_says-same waiting = refl
callback_says-same woken = refl
callback_says-same exited = refl
callback_says-same (printed n v) = refl

record Adds (p q : Phase) : Type 0 where
  more : heard q ≡ heard p ++ callback_says p q
  once : is_printed p ≡ true → (callback_says p q ≡ []) × (is_printed q ≡ true)

Moves-Adds : {p q : Phase} → Moves p q → (q ≡ exited) ⊎ Adds p q
Moves-Adds {p} stays = inr (record {
  more = sym (rw (callback_says-same p) (append-nil (heard p)));
  once = λ e. (callback_says-same p, e);
})
Moves-Adds dies = inl refl
Moves-Adds waits = inr (record { more = refl; once = λ e. cc })
Moves-Adds wakes = inr (record { more = refl; once = λ e. cc })
Moves-Adds (prints n v) = inr (record { more = refl; once = λ e. cc })

-- What the process has printed, but for failed calls, once `main` has returned: in the asynchronous mode
-- both lines, in either order, and the callback's line alone else.
abbrev pub Reported : ℤ → ℕ → ℤ → List Message → Type 0
Reported sync n v output =
    ((is_async sync ≡ true)
      × ((output ≡ announced ++ callback n v) ⊎ (output ≡ callback n v ++ announced)))
    ⊎ ((is_async sync ≡ false) × (output ≡ callback n v))

-- What it has printed before.
abbrev Sound : ℤ → MainPhase → Phase → List Message → Type 0
Sound sync starting q out = out ≡ heard q
Sound sync announcing q out = (is_async sync ≡ true) × (out ≡ heard q)
Sound sync joining q out =
    (is_async sync ≡ true)
    × ((out ≡ announced ++ heard q) ⊎ ((out ≡ heard q ++ announced) × (is_printed q ≡ true)))
Sound sync calling q out = (is_async sync ≡ false) × (out ≡ heard q)
Sound sync finished q out = ⊥

abbrev pub Good : ℤ → MainPhase → Phase → List Message → Type 0
Good sync starting q out = (q ≡ exited) ⊎ Sound sync starting q out
Good sync announcing q out = (q ≡ exited) ⊎ Sound sync announcing q out
Good sync joining q out = (q ≡ exited) ⊎ Sound sync joining q out
Good sync calling q out = (q ≡ exited) ⊎ Sound sync calling q out
Good sync finished q out = (n : ℕ) × (v : ℤ) × (q ≡ printed n v) × Reported sync n v out

work-Sound :
    (sync : ℤ) (m : MainPhase) {p q : Phase} (out : List Message)
    → Adds p q
    → Sound sync m p out
    → Sound sync m q (out ++ callback_says p q)
work-Sound sync starting {p} {q} out a h = ap (λ l. l ++ callback_says p q) h ∙ sym a.more
work-Sound sync announcing {p} {q} out a h =
    (h.0, ap (λ l. l ++ callback_says p q) h.1 ∙ sym a.more)
work-Sound sync joining {p} {q} out a (b, inl e) = (
  b,
  inl (
      ap (λ l. l ++ callback_says p q) e
      ∙ (append_assoc announced (heard p) (callback_says p q)
          ∙ ap (λ l. announced ++ l) (sym a.more))),
)
work-Sound sync joining {p} {q} out a (b, inr (e, known)) =
    let (silent, still) = a.once known in
    let same : heard q ≡ heard p = rw silent at a.more ∙ append-nil (heard p) in
    (b, inr (rw silent (append-nil out ∙ (e ∙ ap (λ l. l ++ announced) (sym same))), still))
work-Sound sync calling {p} {q} out a h = (h.0, ap (λ l. l ++ callback_says p q) h.1 ∙ sym a.more)
work-Sound sync finished out a h = absurd h

heard-cases : (p : Phase) → (heard p ≡ []) ⊎ (is_printed p ≡ true)
heard-cases creating = inl refl
heard-cases waiting = inl refl
heard-cases woken = inl refl
heard-cases exited = inl refl
heard-cases (printed n v) = inr refl

exited-printed : {p : Phase} {n : ℕ} {v : ℤ} → p ≡ exited → p ≡ printed n v → ⊥
exited-printed e f = cc

went :
    (sync : ℤ) (m : MainPhase) {p q : Phase} (out : List Message)
    → Moves p q
    → (p ≡ exited) ⊎ Sound sync m p out
    → (q ≡ exited) ⊎ Sound sync m q (out ++ callback_says p q)
went sync m out stays (inl dead) = inl dead
went sync m out dies g = inl refl
went sync m out waits (inl dead) = cc
went sync m out wakes (inl dead) = cc
went sync m out (prints n v) (inl dead) = cc
went sync m {p} {q} out mv (inr h) = elim (Moves-Adds mv) [
  | inl dead ↦ inl dead
  | inr a ↦ inr (work-Sound sync m out a h)
]

pub work-Good :
    (sync : ℤ) (m : MainPhase) {p q : Phase} (out : List Message)
    → running m ≡ true
    → Moves p q
    → Good sync m p out
    → Good sync m q (out ++ callback_says p q)
work-Good sync starting out r mv g = cc
work-Good sync finished out r mv g = cc
work-Good sync announcing out r mv g = went sync announcing out mv g
work-Good sync joining out r mv g = went sync joining out mv g
work-Good sync calling out r mv g = went sync calling out mv g

pub return-Good :
    (sync : ℤ) (m : MainPhase) {p : Phase} {n : ℕ} {v : ℤ} (out : List Message)
    → awaiting m ≡ true
    → p ≡ printed n v
    → Good sync m p out
    → Good sync finished p out
return-Good sync starting out w e g = cc
return-Good sync announcing out w e g = cc
return-Good sync finished out w e g = g
return-Good sync joining out w e (inl dead) = absurd (exited-printed dead e)
return-Good sync calling out w e (inl dead) = absurd (exited-printed dead e)
return-Good sync joining {p} {n} {v} out w e (inr (b, inl h)) =
    (n, v, e, inl (b, inl (h ∙ ap (λ x. announced ++ heard x) e)))
return-Good sync joining {p} {n} {v} out w e (inr (b, inr (h, _))) =
    (n, v, e, inl (b, inr (h ∙ ap (λ x. heard x ++ announced) e)))
return-Good sync calling {p} {n} {v} out w e (inr (b, h)) = (n, v, e, inr (b, h ∙ ap heard e))

pub announce-Good :
    (sync : ℤ) {p : Phase} (out : List Message)
    → Good sync announcing p out
    → Good sync joining p (out ++ announced)
announce-Good sync out (inl dead) = inl dead
announce-Good sync {p} out (inr (b, h)) = inr (
  b,
  elim (heard-cases p) [
    | inl silent ↦ inl (
        ap (λ l. l ++ announced) (h ∙ silent)
        ∙ sym (ap (λ l. announced ++ l) silent ∙ append-nil announced))
    | inr known ↦ inr (ap (λ l. l ++ announced) h, known)
  ],
)
