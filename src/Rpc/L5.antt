-- ===== src/Rpc/L5.antt =====
-- The L5 call: `amper_L5_work_handler` of the client, `amper_L5_request_handler` of the server.
pub mod Message
pub mod Serve
pub mod Call
pub mod Lost
use model_test.Prelude.{ℕ, ◌+◌, ◌≡◌, Bool, true, false, ◌==◌, if◌then◌else◌}
use model_test.Memory.{Memory, store_byte, memcpy, load64, store64}
use model_test.Rdma.{Rdma, Outcome, finished, spinning, await, guard_task, ◌>>=◌}

-- `client->L5` and `client->local_mr`: addresses in the client's memory (`local_smr1`, `num_1`,
-- `local_mr`) and in the server's (`message_mr`, `mailbox_mr`).
pub record L5Client : Type 0 where
  pub local_smr1 : ℕ
  pub num_1 : ℕ
  pub local_mr : ℕ
  pub message_mr : ℕ
  pub mailbox_mr : ℕ

-- `server->L5_message[node_id]`; `c_mr` is an address of the client's memory.
pub record L5Message : Type 0 where
  pub addr : ℕ
  pub c_mr : ℕ
  pub reply_smr : ℕ
  pub is_new : Bool

-- `struct amper_L5_work`
pub record L5Work : Type 0 where
  pub local_addr : ℕ
  pub length : ℕ
  pub dhmp_addr : ℕ
  pub flag_write : ℕ

-- both memories, and the server's record of the client
pub record World : Type 0 where
  pub client : Memory
  pub server : Memory
  pub message : L5Message

-- sizeof(uintptr_t) + sizeof(size_t) + 1
abbrev pub head_bytes : ℕ
head_bytes = 17

-- The message that the client builds in `local_smr1`.
pub build_header : L5Client → L5Work → Memory → Memory
build_header c w m =
    store_byte (store64 (store64 m c.local_smr1 w.dhmp_addr) (c.local_smr1 + 8) w.length)
      (c.local_smr1 + 16) w.flag_write

pub build_message : L5Client → L5Work → Memory → Memory
build_message c w m =
    let built = build_header c w m in
    if w.flag_write == 1
    then memcpy built (c.local_smr1 + head_bytes) built w.local_addr w.length
    else built

abbrev pub message_size : L5Work → ℕ
message_size w = if w.flag_write == 1 then head_bytes + w.length else head_bytes

-- What the server does in its memory for the message: `temp` and `reply_size` of the source.
abbrev pub flag_offset : ℕ → ℕ → ℕ
flag_offset flag size = if flag == 1 then 1 else size

abbrev pub reply_size : ℕ → ℕ → ℕ
reply_size flag size = if flag == 1 then 8 + 2 else 8 + 1 + size

pub serve_data : L5Message → Memory → Memory
serve_data g m =
    let server_addr = load64 m g.addr in
    let size = load64 m (g.addr + 8) in
    if m (g.addr + 16) == 1
    then store_byte (memcpy m server_addr m (g.addr + head_bytes) size) g.reply_smr 1
    else memcpy m g.reply_smr m server_addr size

pub serve_message : L5Message → Memory → Memory
serve_message g m =
    let size = load64 m (g.addr + 8) in
    let temp = g.reply_smr + flag_offset (m (g.addr + 16)) size in
    store64 (store_byte (serve_data g m) temp 1) (temp + 1) size

-- `amper_L5_request_handler`; `task` says whether `dhmp_write_task_create` gets its memory.
pub request_handler : Rdma → (task : Bool) → World → Outcome World
request_handler net task w =
    let g = w.message in
    let size = load64 w.server (g.addr + 8) in
    let flag = w.server (g.addr + 16) in
    let served = serve_message g w.server in
    guard_task task (record w { server = served })
      (let cleared = store64 served g.addr 0 in
        let sent = record w { server = cleared } in
        await (net.post w.client g.c_mr cleared g.reply_smr (reply_size flag size)) sent (λ client.
          finished (record sent { client = client; message = record g { is_new = true } })))

-- One round of `L5_run` for the mailbox byte at `mailbox`.
pub poll_mailbox : Rdma → (task : Bool) → (mailbox : ℕ) → World → Outcome World
poll_mailbox net task mailbox w =
    if w.server mailbox == 0
    then finished w
    else request_handler net task (record w { server = store_byte w.server mailbox 0 })

-- The client's part up to the ring of the mailbox.
pub send_message : Rdma → (task task2 : Bool) → L5Client → L5Work → World → Outcome World
send_message net task task2 c w s =
    let built = record s { client = build_message c w s.client } in
    guard_task task built (
      await (net.post built.server c.message_mr built.client c.local_smr1 (message_size w)) built
        (λ server1.
          let written = record built { server = server1 } in
          guard_task task2 written (
            await (net.post server1 c.mailbox_mr built.client c.num_1 1) written
              (λ server2. finished (record written { server = server2 })))))

-- where the client waits for a byte that is not 0
abbrev pub reply_at : L5Client → L5Work → ℕ
reply_at c w = if w.flag_write == 0 then c.local_mr + w.length else c.local_mr + 1

-- The client's part from the wait for the reply on. The wait spins on a byte that is still 0.
pub receive_reply : L5Client → L5Work → World → Outcome World
receive_reply c w s =
    let reply = reply_at c w in
    if s.client reply == 0
    then spinning s
    else let copied =
        if w.flag_write == 1
        then s.client
        else memcpy s.client w.local_addr s.client c.local_mr (load64 s.client (reply + 1)) in
      finished (record s { client = store_byte copied reply 0 })

-- The whole call: the client sends and waits, `L5_run` finds the mailbox and serves it. `tasks` says
-- which of the three `dhmp_write_task_create` calls get their memory, `early` whether the client looks
-- at its reply byte before the server's round: if that byte is not 0 then, the wait is over at once.
pub record Tasks : Type 0 where
  pub message_task : Bool
  pub mailbox_task : Bool
  pub reply_task : Bool

pub served_call : Rdma → Tasks → L5Client → (mailbox : ℕ) → L5Work → World → Outcome World
served_call net t c mailbox w s1 =
    poll_mailbox net t.reply_task mailbox s1 >>= (λ s2. receive_reply c w s2)

pub call : Rdma → Tasks → L5Client → (mailbox : ℕ) → (early : Bool) → L5Work → World → Outcome World
call net t c mailbox early w s = send_message net t.message_task t.mailbox_task c w s >>= (λ s1.
    if s1.client (reply_at c w) == 0
    then served_call net t c mailbox w s1
    else if early
    then receive_reply c w s1
    else served_call net t c mailbox w s1)
