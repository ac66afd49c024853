-- ===== src/Exchange/Calls.antt =====
-- Calls of L5 and RFP right after their set-up.
use model_test.Prelude.{ℕ, ◌+◌, ◌<◌, ◌≡◌, ◌≢◌, ◌⊎◌, false, some}
use model_test.Memory.{Memory, store64, Apart}
use model_test.Rdma.{Rdma}
use model_test.Rpc.L5.{L5Client, L5Message, L5Work, head_bytes}
use model_test.Rpc.L5
use model_test.Exchange.{Mr, Node, Server, Client, World}

-- The mailbox that the server has when the request of node `node` is served.
abbrev pub Mailbox : (ℕ → ℕ) → (nodes node : ℕ) → Server → Mr → Type 0
Mailbox u nodes node s mailbox =
    ((node ≡ 0) × (mailbox ≡ record { addr = u 0; length = nodes }))
    ⊎ ((node ≢ 0) × (s.mailbox ≡ some mailbox))

-- What amper_L5_work_handler and amper_L5_request_handler take from the registrations; `local_smr1`
-- and the place `num_1` of `client->L5.num_1` are the client's own.
abbrev pub l5_client : (local_smr1 num_1 : ℕ) → Client → L5Client
l5_client local_smr1 num_1 c = record {
  local_smr1 = local_smr1;
  num_1 = num_1;
  local_mr = c.local_mr.addr;
  message_mr = c.l5_message.addr;
  mailbox_mr = c.l5_mailbox.addr;
}

abbrev pub l5_message : Node → L5Message
l5_message n = record {
  addr = n.l5.mr.addr;
  c_mr = n.l5.c_mr.addr;
  reply_smr = n.l5.reply_smr.addr;
  is_new = false;
}

-- The memories of both sides, when the client has stored `num_1`.
abbrev pub l5_world : (client server : Memory) → (num_1 node : ℕ) → World → L5.World
l5_world client server num_1 node w = record {
  client = store64 client num_1 w.client.l5_num_1;
  server = server;
  message = l5_message (w.server.nodes node);
}

-- The buffers of a call: the client's staging buffer and number, and the server's, of which `u 1` and
-- `u 2` are newly allocated.
pub record Separate (u : ℕ → ℕ) (mailbox local_smr1 num_1 : ℕ) (l : L5Work) : Type 0 where
  pub staging_num_1 : Apart num_1 1 local_smr1 (head_bytes + l.length)
  pub mailbox_message : Apart mailbox 1 (u 1) (head_bytes + l.length)
  pub mailbox_target : Apart mailbox 1 l.dhmp_addr l.length
  pub target_reply : Apart l.dhmp_addr l.length (u 2) (l.length + 10)
  pub target_message : Apart l.dhmp_addr l.length (u 1) (head_bytes + l.length)
  pub reply_message : Apart (u 2) (l.length + 10) (u 1) (head_bytes + l.length)

module _ (u : ℕ → ℕ) (unset unset2 mailbox : Mr) (nodes buffers node : ℕ) (req_size work : ℕ)
    (w : World) (below : node < nodes) (ready : Mailbox u nodes node w.server mailbox) where
  -- What the two sides take from the set-up of L5.
  pub record Ready (w' : World) : Type 0 where
    pub message_at : w'.client.l5_message.addr ≡ u 1
    pub mailbox_at : w'.client.l5_mailbox.addr ≡ mailbox.addr + node
    pub served :
        l5_message (w'.server.nodes node)
        ≡ record { addr = u 1; c_mr = w'.client.local_mr.addr; reply_smr = u 2; is_new = false }
    pub num_1 : w'.client.l5_num_1 ≡ 1
    pub local_at : w'.client.local_mr ≡ w.client.local_mr
