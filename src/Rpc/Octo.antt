-- ===== src/Rpc/Octo.antt =====
-- The Octopus call: `dhmp_Octopus_work_handler` (dhmp_work.c), `dhmp_octo_request_handler` and
-- `dhmp_octo_response_handler` (dhmp_transport.c), by writes with immediate data.
pub mod Call
use model_test.Prelude.{ℕ, ◌+◌, Bool, ◌==◌, if◌then◌else◌}
use model_test.Memory.{Memory, store_byte, memcpy, load64, store64}
use model_test.Rdma.{Rdma, Outcome, finished, spinning, ◌>>=◌, arrive, guard_task}

-- `client->octo`: the addresses of `local_mr`, `C_mr` and the server's `S_mr`
pub record OctoClient : Type 0 where
  pub local : ℕ
  pub c_mr : ℕ
  pub s_mr : ℕ

-- `server->octo[node_id]`: `s_struct` is where the registration `*S_mr` stands, `s_mr` its `addr`.
pub record OctoServer : Type 0 where
  pub s_struct : ℕ
  pub s_mr : ℕ
  pub local : ℕ
  pub c_mr : ℕ

-- `struct amper_L5_work` as the handler uses it; `work` is its address.
pub record OctoWork : Type 0 where
  pub dhmp_addr : ℕ
  pub local_addr : ℕ
  pub length : ℕ
  pub flag_write : ℕ
  pub work : ℕ

-- `done` is the address of the work whose `done_flag` the client's response handler sets last.
pub record World : Type 0 where
  pub client : Memory
  pub server : Memory
  pub done : ℕ

-- `sizeof(struct dhmp_octo_request)`, and where its fields are
abbrev pub request_size : ℕ
request_size = 40

abbrev pub task_at : ℕ
task_at = 24

abbrev pub flag_at : ℕ
flag_at = 32

unfoldable pub build_request : OctoClient → OctoWork → Memory → Memory
build_request c w m =
    let sized = store64 m c.local w.length in
    let named = store64 (store64 sized (c.local + 8) w.dhmp_addr) (c.local + 16) w.local_addr in
    let tasked = store64 named (c.local + task_at) w.work in
    let flagged = store_byte tasked (c.local + flag_at) w.flag_write in
    if w.flag_write == 1
    then memcpy flagged (c.local + request_size) flagged w.local_addr w.length
    else flagged

abbrev pub request_length : OctoWork → ℕ
request_length w = if w.flag_write == 1 then request_size + w.length else request_size

-- `dhmp_Octopus_work_handler`; its caller waits for `done_flag`.
unfoldable pub send_request : Rdma → (task : Bool) → OctoClient → OctoWork → World → Outcome World
send_request net task c w s =
    let built = record s { client = build_request c w s.client } in
    guard_task task built (
      arrive (net.post s.server c.s_mr built.client c.local (request_length w)) built
        (λ server. finished (record built { server = server })))

-- What the server puts into its memory for the request: the head of the reply is copied from `S_mr`.
unfoldable pub serve_request : OctoServer → Memory → Memory
serve_request g m =
    let server_addr = load64 m (g.s_mr + 8) in
    let size = load64 m g.s_mr in
    let headed = memcpy m g.local m g.s_struct request_size in
    if m (g.s_mr + flag_at) == 1
    then memcpy headed server_addr headed (g.s_mr + request_size) size
    else memcpy headed (g.local + request_size) headed server_addr size

abbrev pub reply_length : OctoServer → Memory → ℕ
reply_length g m =
    if m (g.s_mr + flag_at) == 0 then request_size + load64 m g.s_mr else request_size

-- `dhmp_octo_request_handler`: behind its post it waits for `done_flag` of its task, which only the
-- thread that it runs in sets, in `dhmp_comp_channel_handler`. `meanwhile` is what the client does when
-- the reply arrives.
unfoldable pub request_handler :
    Rdma → (task : Bool) → (meanwhile : World → World) → OctoServer → World → Outcome World
request_handler net task meanwhile g s =
    let served = record s { server = serve_request g s.server } in
    guard_task task served (
      arrive (net.post s.client g.c_mr served.server g.local (reply_length g s.server)) served
        (λ client. spinning (meanwhile (record served { client = client }))))

-- `dhmp_octo_response_handler`
unfoldable pub response_handler : OctoClient → World → World
response_handler c s =
    let client_addr = load64 s.client (c.c_mr + 16) in
    let size = load64 s.client c.c_mr in
    let taken =
      if s.client (c.c_mr + flag_at) == 0
      then memcpy s.client client_addr s.client (c.c_mr + request_size) size
      else s.client in
    record s { client = taken; done = load64 taken (c.c_mr + task_at) }

-- The request, its service and the reply, up to where the server's handler is left waiting.
unfoldable pub call :
    Rdma → (task task2 : Bool) → OctoClient → OctoServer → OctoWork → World → Outcome World
call net task task2 c g w s =
    send_request net task c w s >>= request_handler net task2 (response_handler c) g
