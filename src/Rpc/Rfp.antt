-- ===== src/Rpc/Rfp.antt =====
-- The RFP call: `amper_RFP_work_handler` of the client, `RFP_run` and `amper_RFP_request_handler` of
-- the server. The server leaves its reply in its own memory and the client fetches it by RDMA reads.
pub mod Request
pub mod Serve
pub mod Call
pub mod Stale
use model_test.Prelude.{ℕ, ◌+◌, Bool, List, [], ◌∷◌, ◌==◌, if◌then◌else◌}
use model_test.Memory.{Memory, store_byte, memcpy, load64, store64}
use model_test.Rdma.{Rdma, Outcome, finished, failed, exited, spinning, ◌>>=◌, await, guard_task}

-- `client->RFP` and `client->per_ops_mr2`: addresses of the client (`local_smr`, `per_ops_mr2`) and
-- of the server (`write_mr`, `read_mr`).
pub record RfpClient : Type 0 where
  pub local_smr : ℕ
  pub per_ops_mr2 : ℕ
  pub write_mr : ℕ
  pub read_mr : ℕ

-- `server->RFP[node_id]`, but for `time`
pub record RfpServer : Type 0 where
  pub write_mr : ℕ
  pub read_mr : ℕ
  pub size : ℕ

-- `struct dhmp_RFP_work`
pub record RfpWork : Type 0 where
  pub local_addr : ℕ
  pub length : ℕ
  pub is_write : Bool
  pub dhmp_addr : ℕ

-- both memories, with `client->RFP.time` and `server->RFP[node_id].time`
pub record World : Type 0 where
  pub client : Memory
  pub server : Memory
  pub client_time : ℕ
  pub server_time : ℕ

-- where the flag byte stands behind the data, in the buffer that is sent
abbrev pub data_bytes : RfpWork → ℕ
data_bytes w = if w.is_write then w.length else 0

pub build_request : RfpClient → RfpWork → Memory → Memory
build_request c w m =
    let temp_head = c.local_smr + data_bytes w in
    let copied = if w.is_write then memcpy m c.local_smr m w.local_addr w.length else m in
    let flagged = store_byte copied temp_head (if w.is_write then 1 else 0) in
    let addressed = store64 flagged (temp_head + 1) w.dhmp_addr in
    let sized = store64 addressed (temp_head + 9) w.length in store_byte sized (temp_head + 17) 1

abbrev pub request_at : RfpClient → RfpWork → ℕ
request_at c w = if w.is_write then c.write_mr else c.write_mr + w.length

-- sizeof(uintptr_t) + sizeof(size_t) + 2, and the data of a write
abbrev pub head_size : RfpWork → ℕ
head_size w = 18 + data_bytes w

-- The client's part up to the completed write of the request.
pub send_request : Rdma → (task : Bool) → RfpClient → RfpWork → World → Outcome World
send_request net task c w s =
    let built = record s { client = build_request c w s.client } in
    guard_task task built (
      await (net.post s.server (request_at c w) built.client c.local_smr (head_size w)) built
        (λ server. finished (record built { server = server })))

-- `amper_RFP_request_handler`
abbrev pub flip : ℕ → ℕ
flip time = if time == 1 then 2 else 1

abbrev pub stamp : ℕ → ℕ
stamp time = if time == 1 then 1 else 2

pub request_handler : RfpServer → World → World
request_handler g s =
    let context = g.write_mr + g.size in
    let server_addr = load64 s.server (context + 1) in
    let sized = store64 s.server (g.read_mr + 1) g.size in
    let write = s.server context == 1 in
    let moved =
      if write
      then memcpy sized server_addr sized g.write_mr g.size
      else memcpy sized (g.read_mr + 9) sized server_addr g.size in
    let temp = if write then g.read_mr + 9 else g.read_mr + 9 + g.size in
    record s {
      server = store_byte moved temp (stamp s.server_time);
      server_time = flip s.server_time;
    }

-- One round of the loop of `RFP_run`; `none` of the source's fields is null here.
pub poll_request : RfpServer → World → World
poll_request g s =
    let poll_addr = g.write_mr + g.size + 17 in
    if s.server_time == 0
    then s
    else if s.server poll_addr == 0
    then s
    else let served = request_handler g s in
      record served { server = store_byte served.server poll_addr 0 }

-- sizeof(size_t) + 2, and the data of a read
abbrev pub reply_size : RfpWork → ℕ
reply_size w = if w.is_write then 10 else 10 + w.length

-- One round of the client's loop: `again` if the reply's time is not the expected one.
pub data Poll : Type 0 where
  again : World → Poll
  got : World → Poll

abbrev pub polled : Poll → World
polled (again s) = s
polled (got s) = s

pub accept_reply : RfpClient → RfpWork → World → Poll
accept_reply c w s =
    if s.client (c.per_ops_mr2 + (if w.is_write then 9 else 9 + w.length)) == s.client_time
    then got (record s {
      client =
          if w.is_write
          then s.client
          else memcpy s.client w.local_addr s.client (c.per_ops_mr2 + 9) w.length;
      client_time = flip s.client_time;
    })
    else again s

pub poll_reply : Rdma → RfpClient → RfpWork → World → Outcome Poll
poll_reply net c w s =
    await (net.post s.client c.per_ops_mr2 s.server c.read_mr (reply_size w)) (again s)
      (λ client. finished (accept_reply c w (record s { client = client })))

-- Leave the loop with the reply, or go round again.
abbrev pub resume : Outcome Poll → (World → Outcome World) → Outcome World
resume (finished (got s)) next = finished s
resume (finished (again s)) next = next s
resume (failed p) next = failed (polled p)
resume exited next = exited
resume (spinning p) next = spinning (polled p)

-- The client's wait for its reply. Before each of its reads the server may have run a round of
-- `RFP_run`: the list says in which. When the list ends the client has not seen its reply.
pub fetch_reply : Rdma → RfpServer → RfpClient → RfpWork → List Bool → World → Outcome World
fetch_reply net g c w [] s = spinning s
fetch_reply net g c w (ran ∷ rest) s =
    resume (poll_reply net c w (if ran then poll_request g s else s)) (fetch_reply net g c w rest)

-- `amper_RFP_work_handler`, beside the rounds that the server runs meanwhile
pub call :
    Rdma → (task task2 : Bool) → RfpServer → RfpClient → RfpWork → List Bool → World → Outcome World
call net task task2 g c w rounds s =
    send_request net task c w s >>= (λ s1. guard_task task2 s1 (fetch_reply net g c w rounds s1))
