-- ===== src/Multirpc/Asked.antt =====
-- project3/examples/xmlrpc_asynch_client.c: which servers are asked, and the arguments of `main`.
use mathlib.Core.List.{Perm, perm_middle}
use mathlib.Core.List.Perm
use cs6210proj.Prelude.{
  ℕ, zero, suc, ◌+◌, ◌-◌, ◌≤◌, ◌<◌, ◌≡◌, refl, ap, sym, ◌∙◌, subst, ℤ, none, some, List, [], ◌∷◌,
  ◌++◌, Bytes, length, take, get_elem?, get_or-append_right, length-append, append_assoc, ltb,
  false, arith,
}
use cs6210proj.Multirpc.Arguments.{take-append}
use cs6210proj.Multirpc.Custom.{
  CustomSystem, CustomStep, create, create_fails, make_request, call_fails, respond, wait, wake,
  CustomReach, here, next, custom_client_start, parse_custom,
}

get_elem?-some {ℓ} :
    {A : Type ℓ} (xs : List A) (k : ℕ) (x : A)
    → get_elem? xs k ≡ some x
    → (take (suc k) xs ≡ take k xs ++ x ∷ []) × (k < length xs)
get_elem?-some [] k x e = cc
get_elem?-some (y ∷ xs) zero x e = (cc, omega arith)
get_elem?-some (y ∷ xs) (suc k) x e =
    let (taken, inside) = get_elem?-some xs k x e in (ap (◌∷◌ y) taken, omega arith)

-- The servers that are asked and those whose thread has yet to run are the ones whose thread has been
-- created.
record Accounted (servers : List Bytes) (s : CustomSystem) : Type 0 where
  same : s.servers ≡ servers
  inside : s.launched ≤ length servers
  each : Perm (s.asked ++ s.given) (take s.launched servers)

step-Accounted :
    (servers : List Bytes) (s t : CustomSystem)
    → Accounted servers s
    → CustomStep s t
    → Accounted servers t
step-Accounted servers s _ a (create name _ e) =
    let (taken, inside) =
      get_elem?-some servers s.launched name (ap (λ l. get_elem? l s.launched) (sym a.same) ∙ e) in
    let more : suc s.launched ≡ s.launched + 1 = omega arith in
    record {
      same = a.same;
      inside = omega arith;
      each =
          subst (λ l. Perm l (take (s.launched + 1) servers))
            (append_assoc s.asked s.given (name ∷ []))
            (subst (Perm ((s.asked ++ s.given) ++ name ∷ []))
              (sym taken ∙ ap (λ k. take k servers) more) (Perm.append_right (name ∷ []) a.each));
    }
step-Accounted servers s _ a (create_fails _ _) = record {
  same = a.same;
  inside = a.inside;
  each = a.each;
}
step-Accounted servers s _ a (make_request earlier name later _ e) = record {
  same = a.same;
  inside = a.inside;
  each = Perm.trans (Perm.symm (perm_middle (s.asked) (earlier ++ later))) (
      Perm.trans (Perm.append_left s.asked (Perm.symm (perm_middle earlier later)))
        (subst (λ g. Perm (s.asked ++ g) (take s.launched servers)) e a.each));
}
step-Accounted servers s _ a (call_fails _ _) = record {
  same = a.same;
  inside = a.inside;
  each = a.each;
}
step-Accounted servers s _ a (respond _ _ _) = record {
  same = a.same;
  inside = a.inside;
  each = a.each;
}
step-Accounted servers s _ a (wait _ _) = record { same = a.same; inside = a.inside; each = a.each }
step-Accounted servers s _ a (wake _) = record { same = a.same; inside = a.inside; each = a.each }

-- Each thread asks its own server: in every run the servers that have been asked, with those whose
-- thread has yet to run, are the servers of the threads created so far, each as often as it is listed.
pub asked-once :
    (option : ℤ) (servers : List Bytes) (s : CustomSystem)
    → CustomReach (custom_client_start option servers) s
    → Perm (s.asked ++ s.given) (take s.launched servers) × (s.launched ≤ length servers)
unfolding custom_client_start
asked-once option servers s run = let a = accounted s run in (a.each, a.inside)
  where
    accounted :
        (t : CustomSystem)
        → CustomReach (custom_client_start option servers) t
        → Accounted servers t
    accounted t here = record { same = refl; inside = omega arith; each = Perm.refl [] }
    accounted t (next earlier step) = step-Accounted servers _ t (accounted _ earlier) step

-- One or more servers and two more arguments give the servers in their order and the two numbers;
-- fewer than three arguments are refused.
pub parse_custom-split :
    (atoi : Bytes → ℤ) (server : Bytes) (servers few : List Bytes) (o m : Bytes)
    → length few < 3
    → (parse_custom atoi (server ∷ servers ++ o ∷ m ∷ [])
        ≡ some (record { server_list = server ∷ servers; option = atoi o; sync = atoi m }))
      × (parse_custom atoi few ≡ none)
unfolding parse_custom
parse_custom-split atoi server servers few o m h = (
  rw (
    not_few,
    take-append list rest (argc - 3) (omega (arith, long)),
    get_or-append_right list rest (argc - 2 - 1) 0 [] (omega (arith, long)),
    get_or-append_right list rest (argc - 1 - 1) 1 [] (omega (arith, long)),
  ),
  ground arith,
)
  where
    list : List Bytes
    list = server ∷ servers

    rest : List Bytes
    rest = o ∷ m ∷ []

    argc : ℕ
    argc = length (list ++ rest) + 1

    long : argc ≡ length list + 3
    long = omega (arith, length-append list rest)

    not_few : ltb argc 4 ≡ false
    not_few = ground (arith, long)
