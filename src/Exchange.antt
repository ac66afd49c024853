-- ===== src/Exchange.antt =====
-- The set-up of a calling convention: `dhmp_malloc` with `is_special` from 3 to 10. The client's
-- request (dhmp_malloc_work_handler), the server's buffers (`amper_allocspace_for_server`) and its
-- response (dhmp_malloc_request_handler), and what the client keeps of it
-- (dhmp_malloc_response_handler). A NULL from an allocation or a registration ends the server's
-- process, since the code goes through it.
pub mod Paired
pub mod Calls
pub mod Mailbox
use model_test.Prelude.{
  ℕ, ◌+◌, ◌*◌, ◌^◌, ◌%◌, Bool, true, false, Option, none, some, ◌>>=◌, List, ◌∷◌, ◌==◌,
  if◌then◌else◌,
}
use model_test.Rdma.{Outcome, finished, exited, spinning}
use model_test.Client.Slots.{Slots, new_slots}
use model_test.Regions.{erase}
use model_test.Rpc.Alloc.{
  Special, for_l5, for_tailwind, for_darpc, for_rfp, for_scale, for_farm, for_herd, for_octo,
  batch_num, octo_request_size,
}

-- `struct ibv_mr`, less its keys
pub record Mr : Type 0 where
  pub addr : ℕ
  pub length : ℕ

-- `server->L5_message[node_id]` and the other arrays of the server, at one node id
pub record L5Node : Type 0 where
  pub mr : Mr
  pub c_mr : Mr
  pub reply_smr : Mr

-- `addr` is `none` before the first request; `mr` is then not used.
pub record TailwindNode : Type 0 where
  pub addr : Option ℕ
  pub mr : Mr
  pub flush2_mr : Mr

pub record RfpNode : Type 0 where
  pub write_mr : Mr
  pub read_mr : Mr
  pub time : ℕ
  pub size : ℕ

pub record ScaleNode : Type 0 where
  pub sreq_mr : Mr
  pub sdata_mr : Mr
  pub cdata_mr : Mr
  pub slocal_mr : Mr
  pub size : ℕ

pub record FarmNode : Type 0 where
  pub c_mr : Mr
  pub s_mr : Mr
  pub size : ℕ

pub record HerdNode : Type 0 where
  pub s_mr : Mr
  pub size : ℕ

pub record OctoNode : Type 0 where
  pub c_mr : Mr
  pub local_mr : Mr
  pub s_mr : Mr

-- with the transport's `recv_mr` and `nvm_used_size`
pub record Node : Type 0 where
  pub l5 : L5Node
  pub tailwind : TailwindNode
  pub rfp : RfpNode
  pub scale : ScaleNode
  pub farm : FarmNode
  pub herd : HerdNode
  pub octo : OctoNode
  pub recv_mr : Mr
  pub nvm_used_size : ℕ

-- `mailbox` is `L5_mailbox.mr`, and `held` the memory that the server holds for all this.
pub record Server : Type 0 where
  pub mailbox : Option Mr
  pub read_mr : Option Mr
  pub nodes : ℕ → Node
  pub held : List ℕ

-- `client->FaRM` and `client->herd`, as far as the response sets them
pub record Ring : Type 0 where
  pub s_mr : Mr
  pub size : ℕ
  pub slots : Slots

-- The registrations of the client: first those that it sends, then those that it is told. `recv_flag` is
-- that of the `struct dhmp_malloc_work` at an address.
pub record Client : Type 0 where
  pub local_mr : Mr
  pub cdata_mr : Mr
  pub farm_c_mr : Mr
  pub octo_c_mr : Mr
  pub l5_mailbox : Mr
  pub l5_message : Mr
  pub l5_num_1 : ℕ
  pub tailwind_mr : Mr
  pub read_mr_for_sflush : Mr
  pub rfp_write : Mr
  pub rfp_read : Mr
  pub rfp_time : ℕ
  pub sreq_mr : Mr
  pub context_swith : ℕ
  pub farm : Ring
  pub herd : Ring
  pub octo_s_mr : Mr
  pub recv_flag : ℕ → Bool

-- `struct dhmp_mc_request` and `struct dhmp_mc_response`; a field that is not set keeps what the
-- stack held there.
pub record McRequest : Type 0 where
  pub is_special : Special
  pub req_size : ℕ
  pub mr : Mr
  pub task : ℕ

pub record McResponse : Type 0 where
  pub req_info : McRequest
  pub mr : Mr
  pub mr2 : Mr

-- what the allocations of one request give, in their order
abbrev pub Supply : Type 0
Supply = ℕ → Option ℕ

abbrev pub obtain : Option ℕ → (length : ℕ) → Server → Option (Mr × Server)
obtain none length s = none
obtain (some a) length s =
    some (record { addr = a; length = length }, record s { held = a ∷ s.held })

abbrev pub update : ℕ → (Node → Node) → Server → Server
update node f s = record s { nodes = λ k. if k == node then f (s.nodes k) else s.nodes k }

-- Tailwind_log_size
abbrev pub tailwind_log_size : ℕ
tailwind_log_size = 100

-- The mailbox of all clients, which the request of node 0 allocates; `nodes` is DHMP_CLIENT_NODE_NUM.
pub allocate_mailbox : Supply → (nodes node : ℕ) → Server → Option Server
allocate_mailbox u nodes node s =
    if node == 0
    then (do (mr, s1) ← obtain (u 0) nodes s; some (record s1 { mailbox = some mr }))
    else some s

-- The memory of a node's Tailwind buffer, before a new one is allocated.
pub without : Option ℕ → List ℕ → List ℕ
without none held = held
without (some addr) held = erase held addr

abbrev pub release_tailwind : Option ℕ → Server → Server
release_tailwind addr s = record s { held = without addr s.held }

-- `amper_allocspace_for_server`; `buffers` is FaRM_buffer_NUM. RFP_run, which it starts, sets the
-- node's time first.
pub allocspace_for_server :
    Supply → Special → (nodes buffers node size : ℕ) → Server → Option Server
allocspace_for_server u for_l5 nodes buffers node size s = do
  s1 ← allocate_mailbox u nodes node s
  (mr, s2) ← obtain (u 1) (size + 18) s1
  (reply, s3) ← obtain (u 2) (size + 8 + 1) s2
  some (update node (λ n. record n { l5 = record n.l5 { mr = mr; reply_smr = reply } }) s3)
allocspace_for_server u for_tailwind nodes buffers node size s = do
  (mr, s1) ← obtain (u 0) size (release_tailwind (s.nodes node).tailwind.addr s)
  some (
      update node (λ n. record n { tailwind = record n.tailwind { addr = some mr.addr; mr = mr } })
        s1)
allocspace_for_server u for_darpc nodes buffers node size s = do
  (mr, s1) ← obtain (u 0) 1 s
  some (record s1 { read_mr = some mr })
allocspace_for_server u for_rfp nodes buffers node size s = do
  (write, s1) ← obtain (u 0) (size + 24) s
  (read, s2) ← obtain (u 1) (size + 24) s1
  some (
      update node
        (λ n. record n { rfp = record { write_mr = write; read_mr = read; time = 1; size = size } })
        s2)
allocspace_for_server u for_scale nodes buffers node size s = do
  (sreq, s1) ← obtain (u 0) (4 + batch_num * (24 + size)) s
  (sdata, s2) ← obtain (u 1) (4 + batch_num * (24 + size)) s1
  (slocal, s3) ← obtain (u 2) (4 + batch_num * (24 + size)) s2
  some (
      update node
        (λ n. record n {
          scale = record n.scale {
            sreq_mr = sreq;
            sdata_mr = sdata;
            slocal_mr = slocal;
            size = size;
          };
        })
        s3)
allocspace_for_server u for_farm nodes buffers node size s = do
  (mr, s1) ← obtain (u 0) ((2 + (24 + size) * batch_num) * buffers) s
  some (update node (λ n. record n { farm = record n.farm { s_mr = mr; size = size } }) s1)
allocspace_for_server u for_herd nodes buffers node size s = do
  (mr, s1) ← obtain (u 0) ((26 + size) * buffers) s
  some (update node (λ n. record n { herd = record { s_mr = mr; size = size } }) s1)
allocspace_for_server u for_octo nodes buffers node size s = do
  (mr, s1) ← obtain (u 0) (octo_request_size + size) s
  (local, s2) ← obtain (u 1) (octo_request_size + size) s1
  some (update node (λ n. record n { octo = record n.octo { s_mr = mr; local_mr = local } }) s2)

-- What dhmp_malloc_work_handler asks for; `unset` is the registration where it sets none.
pub sent_mr : Client → Special → (unset : Mr) → Mr
sent_mr c for_l5 unset = c.local_mr
sent_mr c for_tailwind unset = c.local_mr
sent_mr c for_darpc unset = unset
sent_mr c for_rfp unset = unset
sent_mr c for_scale unset = c.cdata_mr
sent_mr c for_farm unset = c.farm_c_mr
sent_mr c for_herd unset = unset
sent_mr c for_octo unset = c.octo_c_mr

pub build_request : Client → Special → (req_size work : ℕ) → (unset : Mr) → McRequest
build_request c special req_size work unset = record {
  is_special = special;
  req_size = req_size;
  mr = sent_mr c special unset;
  task = work;
}

-- The client's registration, where the server's handler keeps it, and the size with which it
-- allocates.
pub keep_mr : Special → Mr → Node → Node
keep_mr for_l5 mr n = record n { l5 = record n.l5 { c_mr = mr } }
keep_mr for_tailwind mr n = record n { tailwind = record n.tailwind { flush2_mr = mr } }
keep_mr for_darpc mr n = n
keep_mr for_rfp mr n = n
keep_mr for_scale mr n = record n { scale = record n.scale { cdata_mr = mr } }
keep_mr for_farm mr n = record n { farm = record n.farm { c_mr = mr } }
keep_mr for_herd mr n = n
keep_mr for_octo mr n = record n { octo = record n.octo { c_mr = mr } }

pub size_of_space : Special → ℕ → ℕ
size_of_space for_l5 req_size = req_size
size_of_space for_tailwind req_size = req_size * tailwind_log_size
size_of_space for_darpc req_size = 0
size_of_space for_rfp req_size = req_size
size_of_space for_scale req_size = req_size
size_of_space for_farm req_size = req_size
size_of_space for_herd req_size = req_size
size_of_space for_octo req_size = req_size

-- `response.mr` and `response.mr2`, `none` where the handler goes through a NULL.
pub respond : Special → (node : ℕ) → (unset2 : Mr) → Server → Option (Mr × Mr)
respond for_l5 node unset2 s = elim s.mailbox [
  | none ↦ none
  | some mr ↦ some (record mr { addr = mr.addr + node }, (s.nodes node).l5.mr)
]
respond for_tailwind node unset2 s = some ((s.nodes node).tailwind.mr, unset2)
respond for_darpc node unset2 s = some ((s.nodes node).recv_mr, unset2)
respond for_rfp node unset2 s = some ((s.nodes node).rfp.write_mr, (s.nodes node).rfp.read_mr)
respond for_scale node unset2 s = some ((s.nodes node).scale.sreq_mr, unset2)
respond for_farm node unset2 s = some ((s.nodes node).farm.s_mr, unset2)
respond for_herd node unset2 s = some ((s.nodes node).herd.s_mr, unset2)
respond for_octo node unset2 s = some ((s.nodes node).octo.s_mr, unset2)

-- `rdma_trans->nvm_used_size += response.mr.length`
abbrev pub count_used : ℕ → Node → Node
count_used length n = record n { nvm_used_size = (n.nvm_used_size + length) % 2 ^ 64 }

-- dhmp_malloc_request_handler for a special request: the server, and the response that it sends.
pub request_handler :
    Supply
    → (unset2 : Mr) → (nodes buffers node : ℕ) → McRequest
    → Server
    → Option (Server × McResponse)
request_handler u unset2 nodes buffers node r s = do
  s1 ←
      allocspace_for_server u r.is_special nodes buffers node
        (size_of_space r.is_special r.req_size) (update node (keep_mr r.is_special r.mr) s)
  (mr, mr2) ← respond r.is_special node unset2 s1
  some (update node (count_used mr.length) s1, record { req_info = r; mr = mr; mr2 = mr2 })

-- dhmp_malloc_response_handler: the slots of FaRM and herd are all available again, and the second
-- `memcpy` of FaRM overwrites the first.
pub store_response : Special → McResponse → Client → Client
store_response for_l5 p c = record c { l5_mailbox = p.mr; l5_message = p.mr2; l5_num_1 = 1 }
store_response for_tailwind p c = record c { tailwind_mr = p.mr }
store_response for_darpc p c = record c { read_mr_for_sflush = p.mr }
store_response for_rfp p c = record c { rfp_write = p.mr; rfp_read = p.mr2; rfp_time = 1 }
store_response for_scale p c = record c { sreq_mr = p.mr; context_swith = 0 }
store_response for_farm p c = record c {
  farm = record { s_mr = p.mr2; size = p.req_info.req_size; slots = new_slots };
}
store_response for_herd p c = record c {
  herd = record { s_mr = p.mr; size = p.req_info.req_size; slots = new_slots };
}
store_response for_octo p c = record c { octo_s_mr = p.mr }

abbrev pub set_flag : ℕ → Bool → Client → Client
set_flag work b c = record c { recv_flag = λ x. if x == work then b else c.recv_flag x }

pub response_handler : McResponse → Client → Client
response_handler p c = set_flag p.req_info.task true (store_response p.req_info.is_special p c)

-- A `dhmp_malloc(req_size, is_special)` of the client of node `node`, with its work at `work`; its
-- messages arrive. `nodes` is DHMP_CLIENT_NODE_NUM, below which the theorems take the node id.
pub record World : Type 0 where
  pub client : Client
  pub server : Server

-- The wait of dhmp_malloc_work_handler, which ends it for these cases
pub wait : (work : ℕ) → World → Outcome World
wait work w = if w.client.recv_flag work then finished w else spinning w

pub answered : (work : ℕ) → Option (Server × McResponse) → Client → Outcome World
answered work none c = exited
answered work (some (s, p)) c = wait work (record { client = response_handler p c; server = s })

pub exchange :
    Supply
    → (unset unset2 : Mr) → (nodes buffers node : ℕ) → Special
    → (req_size work : ℕ) → World
    → Outcome World
exchange u unset unset2 nodes buffers node special req_size work w =
    let begun = set_flag work false w.client in
    answered work
      (request_handler u unset2 nodes buffers node (build_request begun special req_size work unset)
        w.server)
      begun
