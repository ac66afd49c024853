-- ===== src/Rpc/Send.antt =====
-- The send call: `dhmp_send` (dhmp_client.c), `dhmp_send_work_handler` (dhmp_work.c),
-- `dhmp_send_request_handler` and `dhmp_send_response_handler` (dhmp_transport.c).
pub mod Call
use model_test.Prelude.{ℕ, ◌+◌, Bool, ◌==◌, if◌then◌else◌}
use model_test.Memory.{Memory, store_byte, memcpy, load64, store64}
use model_test.Rdma.{Rdma, Outcome, finished, spinning, arrive}

-- `struct dhmp_Send_work`; `work` is its own address.
pub record SendWork : Type 0 where
  pub length : ℕ
  pub dhmp_addr : ℕ
  pub local_addr : ℕ
  pub is_write : ℕ
  pub work : ℕ

-- `sizeof(struct dhmp_Send_work)`, and where its flags are
abbrev pub work_size : ℕ
work_size = 48

abbrev pub done_flag_at : ℕ
done_flag_at = 16

abbrev pub recv_flag_at : ℕ
recv_flag_at = 40

-- `sizeof(struct dhmp_Send_request)`: `req_size`, `dhmp_addr`, `task`, `local_addr`, `is_write`; a
-- `struct dhmp_Send_response` is one of it.
abbrev pub request_size : ℕ
request_size = 40

abbrev pub is_write_at : ℕ
is_write_at = 32

-- The client's `temp` and the server's receive slot for it, the server's `response` and the client's
-- receive slot for it, and `response_msg` of the client's handler.
pub record SendBuffers : Type 0 where
  pub temp : ℕ
  pub request_slot : ℕ
  pub response : ℕ
  pub response_slot : ℕ
  pub response_msg : ℕ

pub record World : Type 0 where
  pub client : Memory
  pub server : Memory

-- What `dhmp_send` sets in the work before it queues it, as far as it changes during the call.
unfoldable pub begin : SendWork → Memory → Memory
begin w m = store_byte (store_byte m (w.work + done_flag_at) 0) (w.work + recv_flag_at) 0

abbrev pub put_fields : SendWork → (temp : ℕ) → Memory → Memory
put_fields w temp m =
    let sized = store64 m temp w.length in
    let named = store64 sized (temp + 8) w.dhmp_addr in
    let tasked = store64 named (temp + 16) w.work in
    let placed = store64 tasked (temp + 24) w.local_addr in
    store_byte placed (temp + is_write_at) w.is_write

-- The message's data at `temp`: the request, and the bytes at `local_addr` also for a read.
unfoldable pub build_request : SendWork → (temp : ℕ) → Memory → Memory
build_request w temp m =
    let filled = put_fields w temp m in
    memcpy filled (temp + request_size) filled w.local_addr w.length

-- `data` and `data_size` of a message
pub record Payload : Type 0 where
  pub at : ℕ
  pub size : ℕ

-- `dhmp_send_request_handler` for the message data at `a`: the memory, and the reply that it sends.
-- `unset` is what the stack holds for the reply's `data` and `data_size`, which a read does not set.
unfoldable pub request_handler : (a response : ℕ) → (unset : Payload) → Memory → Memory × Payload
request_handler a response unset m =
    let copied = memcpy m response m a request_size in
    let length = load64 copied response in
    let server_addr = load64 copied (response + 8) in
    if copied (response + is_write_at) == 1
    then (
      memcpy copied server_addr copied (a + request_size) length,
      record { at = response; size = request_size },
    )
    else (copied, unset)

-- `dhmp_send_response_handler` for the message data at `a`
unfoldable pub response_handler : (a response_msg : ℕ) → Memory → Memory
response_handler a response_msg m =
    let copied = memcpy m response_msg m a request_size in
    let taken =
      if copied (response_msg + is_write_at) == 0
      then memcpy copied (load64 copied (response_msg + 24)) copied (a + request_size)
          (load64 copied response_msg)
      else copied in
    store_byte taken (load64 taken (response_msg + 16) + recv_flag_at) 1

-- the end of `dhmp_send_work_handler`: it waits for `recv_flag` and sets `done_flag`
unfoldable pub finish : SendWork → World → Outcome World
finish w s =
    if s.client (w.work + recv_flag_at) == 0
    then spinning s
    else finished (record s { client = store_byte s.client (w.work + done_flag_at) 1 })

-- The whole call; `net` takes the data of a message to the other's receive slot.
unfoldable pub call : Rdma → SendBuffers → (unset : Payload) → SendWork → World → Outcome World
call net b unset w s =
    let built = build_request w b.temp (begin w s.client) in
    arrive (net.post s.server b.request_slot built b.temp (request_size + w.length))
      (record s { client = built })
      (λ server.
        let (served, reply) = request_handler b.request_slot b.response unset server in
        let answering = record s { client = built; server = served } in
        arrive (net.post built b.response_slot served reply.at reply.size) answering (λ client.
          finish w
            (record answering { client = response_handler b.response_slot b.response_msg client })))
