-- ===== src/Rpc/Tailwind.antt =====
-- The Tailwind calls: `model_6_Tailwind` (dhmp_client.c), `amper_Tailwind_RPC_work_handler` and
-- `amper_Tailwind_work_handler` (dhmp_work.c), `amper_tailwindRPC_request_handler` and
-- `amper_tailwindRPC_response_handler` (dhmp_transport.c). A log on the server takes entries of a head
-- and data, the first and the last by message, those between by one-sided writes.
pub mod Message
pub mod Log
pub mod Model
use model_test.Prelude.{ℕ, zero, suc, ◌+◌, ◌-◌, ◌*◌, ◌/◌, ◌%◌, Bool, true, ltb, ◌==◌, if◌then◌else◌}
use model_test.Memory.{Memory, memcpy, load64, store64}
use model_test.Rdma.{Rdma, Outcome, finished, spinning, ◌>>=◌, arrive, guard_task}
use model_test.Rpc.Batch.{Buffers}

-- `struct amper_Tailwind_work`; `work` is its own address, `head_mr` that of the registered head.
pub record TailwindWork : Type 0 where
  pub local_addr : ℕ
  pub length : ℕ
  pub offset : ℕ
  pub head_size : ℕ
  pub head_mr : ℕ
  pub work : ℕ

-- both memories, and the address in `client->Tailwind_buffer.mr`
pub record World : Type 0 where
  pub client : Memory
  pub server : Memory
  pub buffer : ℕ

-- the place of an entry in the log
abbrev pub entry_at : (buffer : ℕ) → TailwindWork → ℕ
entry_at buffer w = buffer + w.offset * (w.length + w.head_size)

-- `sizeof(struct dhmp_TailwindRPC_request)`: `req_size`, `dhmp_addr` and `task`
abbrev pub request_size : ℕ
request_size = 24

-- The message's data at `temp`: the request, the head and the data.
pub build_rpc : (buffer : ℕ) → TailwindWork → (temp : ℕ) → Memory → Memory
build_rpc buffer w temp m =
    let sized = store64 m temp (w.length + w.head_size) in
    let named = store64 sized (temp + 8) (entry_at buffer w) in
    let tasked = store64 named (temp + 16) w.work in
    let headed = memcpy tasked (temp + request_size) tasked w.head_mr w.head_size in
    memcpy headed (temp + request_size + w.head_size) headed w.local_addr w.length

abbrev pub rpc_size : TailwindWork → ℕ
rpc_size w = request_size + w.length + w.head_size

-- `amper_tailwindRPC_request_handler` for the message data at `a`, with its response at `response`: the
-- length is that in the head, and the data alone go to the entry.
pub request_handler : (a response : ℕ) → Memory → Memory
request_handler a response m =
    let copied = memcpy m response m a request_size in
    let context_ptr = a + request_size in
    let length = load64 copied context_ptr in
    let server_addr = load64 copied (response + 8) in
    memcpy copied server_addr copied (context_ptr + 8 + 4 + 4) length

-- `amper_Tailwind_RPC_work_handler`, beside the two handlers of messages: the wait ends when the
-- response names this work.
pub rpc_work_handler : Rdma → Buffers → TailwindWork → World → Outcome World
rpc_work_handler net b w s =
    let built = build_rpc s.buffer w b.request s.client in
    arrive (net.post s.server b.request_slot built b.request (rpc_size w))
      (record s { client = built })
      (λ server.
        let served = request_handler b.request_slot b.response server in
        let answering = record s { client = built; server = served } in
        arrive (net.post built b.response_slot served b.response request_size) answering (λ client.
          let answered = record answering { client = client } in
          if load64 client (b.response_slot + 16) == w.work
          then finished answered
          else spinning answered))

-- The bytes that the two elements of a scatter-gather list name, one after the other.
pub gather : Memory → (addr0 length0 addr1 : ℕ) → Memory
gather m addr0 length0 addr1 i = if ltb i length0 then m (addr0 + i) else m (addr1 + (i - length0))

-- `amper_Tailwind_work_handler`
pub work_handler : Rdma → (task : Bool) → TailwindWork → World → Outcome World
work_handler net task w s = guard_task task s (
    arrive
      (net.post s.server (entry_at s.buffer w) (gather s.client w.head_mr w.head_size w.local_addr)
        0 (w.head_size + w.length))
      s (λ server. finished (record s { server = server })))

-- `dhmp_malloc(length + count, 4)`: the server's new log is zeroed memory at `base`, of
-- Tailwind_log_size entries.
abbrev pub log_size : ℕ
log_size = 100

pub malloc_log : (base req_size : ℕ) → World → World
malloc_log base req_size s = record s {
  server = memcpy s.server base (λ i. 0) 0 (req_size * log_size);
  buffer = base;
}

-- sizeof(size_t) + sizeof(uint32_t) + sizeof(uint32_t)
abbrev pub count : ℕ
count = 16

-- A call of model_6_Tailwind: the head that it allocates, the addresses that the mallocs of its logs
-- give, and its buffers.
pub record Call : Type 0 where
  pub local_addr : ℕ
  pub length : ℕ
  pub tailwind_head : ℕ
  pub bases : ℕ → ℕ
  pub buffers : Buffers
  pub work : ℕ

abbrev pub work_of : Call → (j : ℕ) → TailwindWork
work_of k j = record {
  local_addr = k.local_addr;
  length = k.length;
  offset = j % log_size;
  head_size = count;
  head_mr = k.tailwind_head;
  work = k.work;
}

-- The loop over the entries from `j` on.
pub append : Rdma → Call → (left j : ℕ) → World → Outcome World
append net k zero j s = finished s
append net k (suc left) j s =
    let full =
      if j % log_size == 0 then malloc_log (k.bases (j / log_size)) (k.length + count) s else s in
    work_handler net true (work_of k j) full >>= append net k left (j + 1)

-- `model_6_Tailwind`, with memory for its tasks
pub model_6_tailwind : Rdma → Call → (accessnum : ℕ) → World → Outcome World
model_6_tailwind net k accessnum s =
    let headed = record s { client = store64 s.client k.tailwind_head k.length } in
    rpc_work_handler net k.buffers (work_of k 0) (malloc_log (k.bases 0) (k.length + count) headed)
    >>= append net k (accessnum - 2) 1
    >>= rpc_work_handler net k.buffers (work_of k (1 + (accessnum - 2)))
