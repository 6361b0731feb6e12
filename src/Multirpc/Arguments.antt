-- ===== src/Multirpc/Arguments.antt =====
-- project3/examples/xmlrpc_client.c: what `main` reads from its arguments.
use cs6210proj.Prelude.{
  ℕ, zero, suc, ◌+◌, ◌-◌, ◌<◌, ◌≡◌, ap, ℤ, none, some, List, [], ◌∷◌, ◌++◌, Bytes, arith, length,
  take, length-append, get_or-append_right, ltb, false,
}
use cs6210proj.Multirpc.Client.{parse_arguments}

pub take-append : (xs ys : List Bytes) (n : ℕ) → n ≡ length xs → take n (xs ++ ys) ≡ xs
take-append [] ys n e = rw e
take-append (x ∷ xs) ys zero e = absurd (omega arith)
take-append (x ∷ xs) ys (suc n) e = ap (◌∷◌ x) (take-append xs ys n (omega arith))

-- With one server at least, the arguments are the servers, the option, the mode and the two numbers,
-- in this order; with fewer than five arguments `main` prints its usage and exits.
pub parse_arguments-split :
    (atoi : Bytes → ℤ) (server : Bytes) (servers few : List Bytes) (o m a b : Bytes)
    → length few < 5
    → (parse_arguments atoi ((server ∷ servers) ++ o ∷ m ∷ a ∷ b ∷ [])
        ≡ some (record {
          server_list = server ∷ servers;
          option = atoi o;
          sync = atoi m;
          x = atoi a;
          y = atoi b;
        }))
      × (parse_arguments atoi few ≡ none)
unfolding parse_arguments
parse_arguments-split atoi server servers few o m a b h = (
  rw (
    not_few,
    take-append list rest (argc - 5) (omega (arith, long)),
    get_or-append_right list rest (argc - 4 - 1) 0 [] (omega (arith, long)),
    get_or-append_right list rest (argc - 3 - 1) 1 [] (omega (arith, long)),
    get_or-append_right list rest (argc - 2 - 1) 2 [] (omega (arith, long)),
    get_or-append_right list rest (argc - 1 - 1) 3 [] (omega (arith, long)),
  ),
  ground arith,
)
  where
    list : List Bytes
    list = server ∷ servers

    rest : List Bytes
    rest = o ∷ m ∷ a ∷ b ∷ []

    argc : ℕ
    argc = length (list ++ rest) + 1

    long : argc ≡ length list + 5
    long = omega (arith, length-append list rest)

    not_few : ltb argc 6 ≡ false
    not_few = ground (arith, long)
