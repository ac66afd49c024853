-- ===== src/Exchange/Mailbox.antt =====
-- The mailbox of L5 is one region for all clients, which every request of node 0 allocates anew.
use model_test.Prelude.{ℕ, ◌+◌, ◌<◌, ◌≢◌, Option, none, some}
use model_test.Memory.{Memory}
use model_test.Rdma.{Rdma, Reliable}
use model_test.Rpc.L5.{L5Client, L5Work}
use model_test.Rpc.L5
use model_test.Exchange.{Mr, Client, World}
use model_test.Exchange.Calls.{l5_client}

-- The mailbox byte of a node that L5_run polls, when the server has a mailbox.
abbrev pub polled : Option Mr → (node : ℕ) → ℕ
polled none node = 0
polled (some mr) node = mr.addr + node

module _ (u : ℕ → ℕ) (unset unset2 : Mr) (nodes buffers : ℕ) (req_size work : ℕ) (w : World) where
  module _ (net : Rdma) (reliable : Reliable net) (c : Client) (node : ℕ) (other : node ≢ 0)
      (below : node < nodes) (client server : Memory) (local_smr1 num_1 : ℕ) (l : L5Work) where
    abbrev lc : L5Client
    lc = l5_client local_smr1 num_1 c
