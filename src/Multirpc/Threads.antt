-- ===== src/Multirpc/Threads.antt =====
-- project3/examples/xmlrpc_client.c: client_start_sync, the MakeRequest threads that it creates and the
-- handler, as interleaved steps.
use cs6210proj.Prelude.{
  ℕ, ◌+◌, ◌-◌, ◌<◌, ◌≡◌, ◌≢◌, ℤ, some, List, [], ◌∷◌, Bytes, length, get_elem?,
}
use cs6210proj.Multirpc.Messages.{Message, answered_by, handler_says}
use cs6210proj.Multirpc.Client.{
  Client, Phase, creating, waiting, woken, exited, printed, Reply, die, handle_sample_add_response,
  fresh_client,
}

-- `request_name`, `x` and `y` are the one `request_data`: the loop sets the name for each thread in turn,
-- and a thread reads the three when it comes to run; `unread` threads have yet to. `asked` are the servers
-- whose call a thread has started, `sent` the two parameters of each such call, and `flying` calls have
-- not come back.
pub record System : Type 0 where
  pub servers : List Bytes
  pub launched : ℕ
  pub request_name : Bytes
  pub x : ℤ
  pub y : ℤ
  pub unread : ℕ
  pub asked : List Bytes
  pub sent : List (ℤ × ℤ)
  pub flying : ℕ
  pub client : Client

abbrev pub enter : Phase → Client → Client
enter p c = record c { phase = p }

unfoldable pub client_start_sync : ℤ → List Bytes → ℤ → ℤ → System
client_start_sync option servers x y = record {
  servers = servers;
  launched = 0;
  request_name = [];
  x = x;
  y = y;
  unread = 0;
  asked = [];
  sent = [];
  flying = 0;
  client = fresh_client option (length servers);
}

-- `create` and `create_fails` are the rounds of the creating loop, `wait` the wait behind it and `wake`
-- what follows the wait. A thread reads its request and starts the call, or a call of the library
-- fails it and it exits; the call comes back to the handler.
pub data Step (s : System) : System → Type 0 where
  create :
      (name : Bytes)
      → s.client.phase ≡ creating
      → get_elem? s.servers s.launched ≡ some name
      → Step s (record s { launched = s.launched + 1; request_name = name; unread = s.unread + 1 })
  create_fails :
      s.client.phase ≡ creating
      → s.launched < length s.servers
      → Step s (record s { client = die s.client })
  read_request :
      s.client.phase ≢ exited
      → 0 < s.unread
      → Step s (record s {
        unread = s.unread - 1;
        asked = s.request_name ∷ s.asked;
        sent = (s.x, s.y) ∷ s.sent;
        flying = s.flying + 1;
      })
  call_fails :
      s.client.phase ≢ exited
      → 0 < s.unread + s.flying
      → Step s (record s { client = die s.client })
  respond :
      (r : Reply)
      → s.client.phase ≢ exited
      → 0 < s.flying
      → Step s (record s { flying = s.flying - 1; client = handle_sample_add_response r s.client })
  wait :
      s.client.phase ≡ creating
      → s.launched ≡ length s.servers
      → Step s (record s { client = enter waiting s.client })
  wake :
      s.client.phase ≡ woken
      → Step s
          (record s { client = enter (printed s.client.num_responses s.client.value) s.client })

pub data Reach (s : System) : System → Type 0 where
  here : Reach s s
  next : {t u : System} → Reach s t → Step t u → Reach s u

-- What the process prints in a step: the callback runs when the woken thread goes on.
abbrev pub says : (s t : System) → Step s t → List Message
says s _ (create _ _ _) = []
says s _ (create_fails _ _) = []
says s _ (read_request _ _) = []
says s _ (call_fails _ _) = []
says s _ (respond r _ _) = handler_says r
says s _ (wait _ _) = []
says s _ (wake _) = answered_by s.client.num_responses s.client.value ∷ []
