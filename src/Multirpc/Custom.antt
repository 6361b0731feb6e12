-- ===== src/Multirpc/Custom.antt =====
-- project3/examples/xmlrpc_asynch_client.c: its threads as interleaved steps, and the arguments of `main`.
-- The globals and the response handler are those of xmlrpc_client.c, word for word.
use cs6210proj.Prelude.{
  ℕ, ◌+◌, ◌-◌, ◌<◌, ◌≡◌, ◌≢◌, ℤ, Option, none, some, List, [], ◌∷◌, ◌++◌, Bytes, length, take,
  get_or, get_elem?, ltb, if◌then◌else◌,
}
use cs6210proj.Multirpc.Messages.{Message, answered_by, handler_says}
use cs6210proj.Multirpc.Client.{
  Client, creating, waiting, woken, exited, printed, Reply, die, handle_sample_add_response,
  fresh_client,
}
use cs6210proj.Multirpc.Threads.{enter}

-- Each thread is given its own server name: `given` are those of the threads that have yet to run.
-- `asked` are the servers whose call a thread has started, and `flying` calls have not come back.
pub record CustomSystem : Type 0 where
  pub servers : List Bytes
  pub launched : ℕ
  pub given : List Bytes
  pub asked : List Bytes
  pub flying : ℕ
  pub client : Client

unfoldable pub custom_client_start : ℤ → List Bytes → CustomSystem
custom_client_start option servers = record {
  servers = servers;
  launched = 0;
  given = [];
  asked = [];
  flying = 0;
  client = fresh_client option (length servers);
}

-- The threads run in any order.
pub data CustomStep (s : CustomSystem) : CustomSystem → Type 0 where
  create :
      (name : Bytes)
      → s.client.phase ≡ creating
      → get_elem? s.servers s.launched ≡ some name
      → CustomStep s (record s { launched = s.launched + 1; given = s.given ++ name ∷ [] })
  create_fails :
      s.client.phase ≡ creating
      → s.launched < length s.servers
      → CustomStep s (record s { client = die s.client })
  make_request :
      (earlier : List Bytes) (name : Bytes) (later : List Bytes)
      → s.client.phase ≢ exited
      → s.given ≡ earlier ++ name ∷ later
      → CustomStep s
          (record s { given = earlier ++ later; asked = name ∷ s.asked; flying = s.flying + 1 })
  call_fails :
      s.client.phase ≢ exited
      → 0 < length s.given + s.flying
      → CustomStep s (record s { client = die s.client })
  respond :
      (r : Reply)
      → s.client.phase ≢ exited
      → 0 < s.flying
      → CustomStep s
          (record s { flying = s.flying - 1; client = handle_sample_add_response r s.client })
  wait :
      s.client.phase ≡ creating
      → s.launched ≡ length s.servers
      → CustomStep s (record s { client = enter waiting s.client })
  wake :
      s.client.phase ≡ woken
      → CustomStep s
          (record s { client = enter (printed s.client.num_responses s.client.value) s.client })

pub data CustomReach (s : CustomSystem) : CustomSystem → Type 0 where
  here : CustomReach s s
  next : {t u : CustomSystem} → CustomReach s t → CustomStep t u → CustomReach s u

-- What the process prints in a step.
abbrev pub custom_says : (s t : CustomSystem) → CustomStep s t → List Message
custom_says s _ (create _ _ _) = []
custom_says s _ (create_fails _ _) = []
custom_says s _ (make_request _ _ _ _ _) = []
custom_says s _ (call_fails _ _) = []
custom_says s _ (respond r _ _) = handler_says r
custom_says s _ (wait _ _) = []
custom_says s _ (wake _) = answered_by s.client.num_responses s.client.value ∷ []

pub record CustomArguments : Type 0 where
  pub server_list : List Bytes
  pub option : ℤ
  pub sync : ℤ

-- `none` is the usage message and `exit(1)`.
unfoldable pub parse_custom : (Bytes → ℤ) → List Bytes → Option CustomArguments
parse_custom atoi argv =
    let argc : ℕ = length argv + 1 in
    let num_servers : ℕ = argc - 3 in
    if ltb argc 4
    then none
    else some (record {
      server_list = take num_servers argv;
      option = atoi (get_or argv (argc - 2 - 1) []);
      sync = atoi (get_or argv (argc - 1 - 1) []);
    })
