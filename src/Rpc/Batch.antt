-- ===== src/Rpc/Batch.antt =====
-- The batched calls over two-sided messages: DaRPC (`amper_DaRPC_work_handler`, dhmp_work.c;
-- `amper_DaRPC_request_handler` and `amper_DaRPC_response_handler`, dhmp_transport.c) and FaSST
-- (`amper_FaSST_work_handler`, `amper_UD_request_handler`, `amper_UD_response_handler`), whose
-- messages have one layout, in the builds without SFLUSH and, where `flush` says so, with RFLUSH.
pub mod Layout
pub mod Serve
pub mod Request
pub mod Reply
pub mod Take
pub mod Call
use model_test.Prelude.{ℕ, zero, suc, ◌+◌, ◌*◌, Bool, false, ◌==◌, if◌then◌else◌}
use model_test.Memory.{Memory, store_byte, memcpy, load64, store, store64, load}
use model_test.Rdma.{Rdma, Outcome, finished, spinning, arrive}

-- `struct amper_DaRPC_work` and `struct dhmp_UD_work`: `globle_addr` and `local_addr` are the
-- addresses of arrays of `batch` addresses; `work` is the work's own address.
pub record BatchWork : Type 0 where
  pub globle_addr : ℕ
  pub local_addr : ℕ
  pub length : ℕ
  pub flag_write : ℕ
  pub batch : ℕ
  pub work : ℕ

-- `sizeof(struct dhmp_DaRPC_request)`, and the batch and flag bytes behind it
abbrev pub request_size : ℕ
request_size = 24

abbrev pub entries_at : ℕ
entries_at = request_size + 2

-- `sizeof(struct dhmp_DaRPC_response)`
abbrev pub response_size : ℕ
response_size = 32

-- one entry: address, size and, of a write, the data
unfoldable pub entry_size : (flag_write length : ℕ) → ℕ
entry_size flag length = 16 + (if flag == 1 then length else 0)

-- The loop over the batch; `cur_addr` is the entry's address, `globle` and `local` are those of
-- the arrays' elements.
unfoldable pub build_entry : BatchWork → (globle local cur_addr : ℕ) → Memory → Memory
build_entry w globle local cur m =
    let sized = store64 (store64 m cur (load64 m globle)) (cur + 8) w.length in
    if w.flag_write == 1 then memcpy sized (cur + 16) sized (load64 sized local) w.length else sized

unfoldable pub build_entries :
    (left : ℕ) → BatchWork → (globle local cur_addr : ℕ) → Memory → Memory
build_entries zero w globle local cur m = m
build_entries (suc left) w globle local cur m =
    build_entries left w (globle + 8) (local + 8) (cur + entry_size w.flag_write w.length)
      (build_entry w globle local cur m)

-- the request struct (`req_size`, `local_addr`, `work`) and the two bytes
unfoldable pub build_head : BatchWork → ℕ → Memory → Memory
build_head w a m =
    store_byte
      (store_byte (store64 (store64 (store64 m a w.length) (a + 8) w.local_addr) (a + 16) w.work)
        (a + 24) w.batch)
      (a + 25) w.flag_write

-- The request of `amper_DaRPC_work_handler` in the buffer at `a`.
unfoldable pub build_batch : BatchWork → ℕ → Memory → Memory
build_batch w a m =
    build_entries w.batch w w.globle_addr w.local_addr (a + entries_at) (build_head w a m)

-- its length
abbrev pub batch_size : BatchWork → ℕ
batch_size w = entries_at + w.batch * entry_size w.flag_write w.length

-- The server's loop: `context_ptr` is the entry's address, `cur_addr` where a read's data goes.
unfoldable pub serve_entries : (left write_flag context_ptr cur_addr : ℕ) → Memory → Memory
serve_entries zero flag ctx cur m = m
serve_entries (suc left) flag ctx cur m =
    let server_addr = load64 m ctx in
    let size = load64 m (ctx + 8) in
    serve_entries left flag (ctx + 16 + (if flag == 1 then size else 0))
      (cur + (if flag == 1 then 0 else size))
      (if flag == 1
        then memcpy m server_addr m (ctx + 16) size
        else memcpy m cur m server_addr size)

-- the length of the reply to the request at `a`
unfoldable pub reply_length : (flush : Bool) → Memory → ℕ → ℕ
reply_length flush m a =
    if flush
    then response_size
    else response_size + (if m (a + 25) == 0 then m (a + 24) * load64 m (a + 34) else 0)

-- `amper_DaRPC_request_handler` up to the post, for the request at `a` and the reply at `response`;
-- a `write_flag` that is neither 0 nor 1 is served as a read.
unfoldable pub serve_batch : (flush : Bool) → (a response : ℕ) → Memory → Memory
serve_batch flush a response m =
    let batch = m (a + 24) in
    let flag = m (a + 25) in
    let headed = memcpy m response m a request_size in
    if flush
    then headed
    else serve_entries batch flag (a + entries_at) (response + response_size)
        (store 4 (store 4 headed (response + 28) batch) (response + 24) flag)

-- The client's loop over the reply's data from `temp`, at its `i`; the size and the array's address
-- are read from the reply in each round, the count, which `left` is, once.
unfoldable pub scatter : (left i response temp : ℕ) → Memory → Memory
scatter zero i response temp m = m
scatter (suc left) i response temp m =
    let size = load64 m response in
    scatter left (i + 1) response (temp + size)
      (memcpy m (load64 m (load64 m (response + 8) + 8 * i)) m temp size)

-- `response_msg + sizeof(struct dhmp_DaRPC_response)` on a pointer to that struct: as many structs.
abbrev pub response_data : ℕ → ℕ
response_data response = response + response_size * response_size

-- Where a work has its `recv_flag` and `done_flag`: `struct amper_DaRPC_work`, `struct dhmp_UD_work`
pub record Flags : Type 0 where
  pub recv_flag : ℕ
  pub done_flag : ℕ

abbrev pub darpc_flags : Flags
darpc_flags = record { recv_flag = 25; done_flag = 24 }

abbrev pub ud_flags : Flags
ud_flags = record { recv_flag = 32; done_flag = 33 }

-- `amper_DaRPC_response_handler`: the data of a read, and `recv_flag` in the work that the reply names
unfoldable pub take_reply : (flush : Bool) → (response : ℕ) → Memory → Memory
take_reply flush response m =
    if flush
    then m
    else if load 4 m (response + 24) == 0
    then scatter (load 4 m (response + 28)) 0 response (response_data response) m
    else m

unfoldable pub response_handler : Flags → (flush : Bool) → (response : ℕ) → Memory → Memory
response_handler f flush response m =
    store_byte (take_reply flush response m) (load64 m (response + 16) + f.recv_flag) 1

-- The two nodes' memories, and the buffers of a call: the client's request, the server's receive
-- slot, the server's reply and the client's receive slot.
pub record World : Type 0 where
  pub client : Memory
  pub server : Memory

pub record Buffers : Type 0 where
  pub request : ℕ
  pub request_slot : ℕ
  pub response : ℕ
  pub response_slot : ℕ

-- The end of a work handler: it waits for `recv_flag` and sets `done_flag`.
unfoldable pub finish : Flags → BatchWork → World → Outcome World
finish f w s =
    if s.client (w.work + f.recv_flag) == 0
    then spinning s
    else finished (record s { client = store_byte s.client (w.work + f.done_flag) 1 })

-- The whole call, with RC (DaRPC); `net` takes the payload of a message to the other's receive slot.
-- If `recv_flag` is not 0 already, the wait is over before the reply.
unfoldable pub call : Rdma → (flush : Bool) → Buffers → BatchWork → World → Outcome World
call net flush b w s =
    let built = build_batch w b.request s.client in
    arrive (net.post s.server b.request_slot built b.request (batch_size w))
      (record s { client = built })
      (λ server.
        if built (w.work + darpc_flags.recv_flag) == 0
        then (let served = serve_batch flush b.request_slot b.response server in
            arrive
              (net.post built b.response_slot served b.response
                (reply_length flush server b.request_slot))
              (record { client = built; server = served })
              (λ client. finish darpc_flags w (record {
                client = response_handler darpc_flags flush b.response_slot client;
                server = served;
              })))
        else finish darpc_flags w (record { client = built; server = server }))

-- FaSST: `amper_FaSST_work_handler`, `amper_UD_request_handler` and `amper_UD_response_handler` build,
-- serve and take the same bytes; neither SFLUSH nor RFLUSH is looked at.
abbrev pub fasst_batch : BatchWork → ℕ → Memory → Memory
fasst_batch = build_batch

abbrev pub ud_request_handler : (a response : ℕ) → Memory → Memory
ud_request_handler = serve_batch false

abbrev pub ud_response_handler : (response : ℕ) → Memory → Memory
ud_response_handler = response_handler ud_flags false

unfoldable pub fasst_call : Rdma → Buffers → BatchWork → World → Outcome World
fasst_call net b w s =
    let built = fasst_batch w b.request s.client in
    arrive (net.post s.server b.request_slot built b.request (batch_size w))
      (record s { client = built })
      (λ server.
        if built (w.work + ud_flags.recv_flag) == 0
        then (let served = ud_request_handler b.request_slot b.response server in
            arrive
              (net.post built b.response_slot served b.response
                (reply_length false server b.request_slot))
              (record { client = built; server = served })
              (λ client.
                finish ud_flags w (record {
                  client = ud_response_handler b.response_slot client;
                  server = served;
                })))
        else finish ud_flags w (record { client = built; server = server }))
