-- ===== src/Rpc/Scale.antt =====
-- The ScaleRPC call: `model_7_scalable` (dhmp_client.c), `amper_scalable_work_handler` (dhmp_work.c),
-- `scalable_run` and `amper_scalable_request_handler` (dhmp_server.c). A request of type 2 carries
-- its records; one of type 1, which every Sca1e_Swith_Time'th call makes, only tells the server where
-- to read them from the client's memory. The queueing of its work is in Client.Calls.
pub mod Records
pub mod Copies
pub mod Serve
pub mod Loop
pub mod Request
pub mod Answer
pub mod Placed
pub mod Exchange
pub mod Call
use model_test.Prelude.{
  ℕ, zero, suc, ◌+◌, ◌-◌, ◌*◌, ◌%◌, ◌^◌, Bool, true, false, ◌==◌, if◌then◌else◌,
}
use model_test.Memory.{Memory, store_byte, memcpy, load64, store64}
use model_test.Rdma.{Rdma, Outcome, finished, spinning, ◌>>=◌, await, guard_task}

-- `Creq_mr->addr`, `Cdata_mr->addr` and the server's `Sreq_mr.addr` of `client->scaleRPC`
pub record ScaleClient : Type 0 where
  pub creq : ℕ
  pub cdata : ℕ
  pub sreq : ℕ

-- `server->scaleRPC[node_id]`; `batch` is BATCH, `cdata` the client's `Cdata_mr.addr`.
pub record ScaleServer : Type 0 where
  pub sreq : ℕ
  pub sdata : ℕ
  pub slocal : ℕ
  pub cdata : ℕ
  pub size : ℕ
  pub batch : ℕ

-- The arguments of a call. `local_data` and `mr` are what a call of type 1 allocates: the buffer of
-- its records, and the struct of its registration.
pub record ScaleWork : Type 0 where
  pub globle_addr : ℕ
  pub local_addr : ℕ
  pub length : ℕ
  pub flag_write : ℕ
  pub batch : ℕ
  pub local_data : ℕ
  pub mr : ℕ

pub record World : Type 0 where
  pub client : Memory
  pub server : Memory
  pub context_swith : ℕ

-- `Sca1e_Swith_Time`
abbrev pub swith_time : ℕ
swith_time = 100

-- `sizeof(struct ibv_mr)`, and where `addr` stands in it
abbrev pub mr_size : ℕ
mr_size = 48

abbrev pub mr_addr : ℕ
mr_addr = 16

-- a record: the two addresses, the size and, where it has them, the data
unfoldable pub record_size : Bool → ℕ → ℕ
record_size with_data size = 24 + (if with_data then size else 0)

-- the two addresses and the size
unfoldable pub name_record : (length globle local cur : ℕ) → Memory → Memory
name_record length globle local cur m =
    let first = memcpy m cur m globle 8 in
    let second = memcpy first (cur + 8) first local 8 in store64 second (cur + 16) length

unfoldable pub build_record : (with_data : Bool) → (length globle local cur : ℕ) → Memory → Memory
build_record true length globle local cur m =
    let named = name_record length globle local cur m in
    memcpy named (cur + 24) named (load64 named local) length
build_record false length globle local cur m = name_record length globle local cur m

-- The client's loop over the batch.
unfoldable pub build_records :
    (left : ℕ) → (with_data : Bool) → (length globle local cur : ℕ) → Memory → Memory
build_records zero with_data length globle local cur m = m
build_records (suc left) with_data length globle local cur m =
    build_records left with_data length (globle + 8) (local + 8)
      (cur + record_size with_data length) (build_record with_data length globle local cur m)

-- `scalable_write[0]` to `scalable_write[3]`
unfoldable pub trailer : (write_type : ℕ) → ScaleWork → ℕ → Memory → Memory
trailer write_type w a m =
    store_byte
      (store_byte (store_byte (store_byte m a write_type) (a + 1) w.batch) (a + 2) w.flag_write)
      (a + 3) 1

-- `local_length` of type 1, and of type 2 less the trailer
abbrev pub records_size : ScaleWork → ℕ
records_size w = w.batch * record_size (w.flag_write == 1) w.length

-- `offset`; of type 1 it is a `size_t` that wraps below 0.
abbrev pub offset_of : (write_type : ℕ) → ScaleWork → ℕ
offset_of write_type w =
    if write_type == 1
    then (w.batch * (w.length + 24) + (2 ^ 64 - (8 + mr_size))) % 2 ^ 64
    else if w.flag_write == 0
    then w.batch * w.length
    else 0

-- where the request goes in a buffer; adding the offset to the address wraps, too
abbrev pub request_at : (base write_type : ℕ) → ScaleWork → ℕ
request_at base write_type w = (base + offset_of write_type w) % 2 ^ 64

-- the bytes that are posted
abbrev pub request_size : (write_type : ℕ) → ScaleWork → ℕ
request_size write_type w = if write_type == 1 then 4 + 8 + mr_size else 4 + records_size w

-- Type 1: the records in `local_data`, their length and registration before the trailer.
unfoldable pub build_switch : (a : ℕ) → ScaleWork → Memory → Memory
build_switch a w m =
    let built =
      build_records w.batch (w.flag_write == 1) w.length w.globle_addr w.local_addr w.local_data
        m in
    let sized = store64 built a (records_size w) in
    trailer 1 w (a + 8 + mr_size) (memcpy sized (a + 8) sized w.mr mr_size)

-- Type 2: the records, and the trailer behind them.
unfoldable pub build_plain : (a : ℕ) → ScaleWork → Memory → Memory
build_plain a w m =
    trailer 2 w (a + records_size w)
      (build_records w.batch (w.flag_write == 1) w.length w.globle_addr w.local_addr a m)

unfoldable pub build_request : (write_type : ℕ) → ScaleClient → ScaleWork → Memory → Memory
build_request write_type c w m =
    let a = request_at c.creq write_type w in
    if write_type == 1 then build_switch a w m else build_plain a w m

-- `amper_scalable_work_handler` up to the wait for the reply
unfoldable pub send_request :
    Rdma → (task : Bool) → (write_type : ℕ) → ScaleClient → ScaleWork → World → Outcome World
send_request net task write_type c w s = guard_task task s (
    await
      (net.post s.server (request_at c.sreq write_type w) s.client (request_at c.creq write_type w)
        (request_size write_type w))
      s (λ server. finished (record s { server = server })))

-- The server's loop over the batch from `addr`, the records of the reply from `temp2`.
unfoldable pub serve_record : (write read : Bool) → (size addr temp2 : ℕ) → Memory → Memory
serve_record write read size addr temp2 m =
    let server_addr = load64 m addr in
    let client_addr = load64 m (addr + 8) in
    let written = if write then memcpy m server_addr m (addr + 24) size else m in
    let named =
      store64 (store64 (store64 written temp2 server_addr) (temp2 + 8) client_addr) (temp2 + 16)
        size in
    if read then memcpy named (temp2 + 24) named server_addr size else named

unfoldable pub serve_records :
    (left : ℕ) → (write read : Bool) → (size addr temp2 : ℕ) → Memory → Memory
serve_records zero write read size addr temp2 m = m
serve_records (suc left) write read size addr temp2 m =
    serve_records left write read size (addr + record_size write size)
      (temp2 + record_size read size) (serve_record write read size addr temp2 m)

-- The end of `amper_scalable_request_handler`: the loop, the reply's valid byte and the post.
unfoldable pub serve_from :
    Rdma → (task : Bool) → ScaleServer → (write_flag addr : ℕ) → World → Outcome World
serve_from net task g flag addr s =
    let offset = if flag == 1 then g.batch * g.size else 0 in
    let temp2 = g.sdata + offset in
    let left = g.batch * record_size (flag == 0) g.size in
    let served =
      store_byte (serve_records g.batch (flag == 1) (flag == 0) g.size addr temp2 s.server)
        (temp2 + left) 1 in
    guard_task task (record s { server = served })
      (await (net.post s.client (g.cdata + offset) served temp2 (1 + left))
        (record s { server = served })
        (λ client. finished (record s { client = client; server = served })))

-- `amper_scalable_request_handler`; a request of type 1 is fetched from where its registration says.
unfoldable pub request_handler :
    Rdma
    → (read_task write_task : Bool) → ScaleServer
    → (write_type write_flag : ℕ) → World
    → Outcome World
request_handler net read_task write_task g write_type flag s =
    let tail = g.sreq + g.batch * (24 + g.size) in
    if write_type == 1
    then guard_task read_task s (
        await
          (net.post s.server g.slocal s.client (load64 s.server (tail - mr_size + mr_addr))
            (load64 s.server (tail - 8 - mr_size)))
          s (λ server. serve_from net write_task g flag g.slocal (record s { server = server })))
    else serve_from net write_task g flag (g.sreq + (if flag == 0 then g.batch * g.size else 0)) s

-- One round of `scalable_run`.
unfoldable pub poll_request :
    Rdma → (read_task write_task : Bool) → ScaleServer → World → Outcome World
poll_request net read_task write_task g s =
    let addr = g.sreq + g.batch * (24 + g.size) in
    if s.server (addr + 3) == 0
    then finished s
    else request_handler net read_task write_task g (s.server addr) (s.server (addr + 2))
        (record s { server = store_byte s.server (addr + 3) 0 })

-- The client's loop over the reply from `temp`.
unfoldable pub take_records : (left temp : ℕ) → Memory → Memory
take_records zero temp m = m
take_records (suc left) temp m =
    let client_addr = load64 m (temp + 8) in
    let size = load64 m (temp + 16) in
    take_records left (temp + 24 + size) (memcpy m client_addr m (temp + 24) size)

-- the reply's byte `valid`
abbrev pub valid_at : ScaleClient → ScaleWork → ℕ
valid_at c w = c.cdata + w.batch * 24 + w.batch * w.length

-- `amper_scalable_work_handler` from the wait for the reply on
unfoldable pub receive_reply : ScaleClient → ScaleWork → World → Outcome World
receive_reply c w s =
    let valid = valid_at c w in
    if s.client valid == 0
    then spinning s
    else finished (record s {
      client =
          store_byte (if w.flag_write == 0 then take_records w.batch c.cdata s.client else s.client)
            valid 0;
    })

pub record Tasks : Type 0 where
  pub request_task : Bool
  pub read_task : Bool
  pub reply_task : Bool

-- A request of the type, the server's round that finds it, and the reply. `early` says whether the
-- client looks at `valid` before the server's round: if that is not 0 then, the wait is over at once.
unfoldable pub exchange :
    Rdma
    → Tasks
    → ScaleClient
    → ScaleServer
    → ScaleWork
    → (write_type : ℕ) (early : Bool) → World
    → Outcome World
exchange net t c g w write_type early s =
    send_request net t.request_task write_type c w
      (record s { client = build_request write_type c w s.client })
    >>= (λ s1.
        if s1.client (valid_at c w) == 0
        then poll_request net t.read_task t.reply_task g s1 >>= receive_reply c w
        else if early
        then receive_reply c w s1
        else poll_request net t.read_task t.reply_task g s1 >>= receive_reply c w)

-- `model_7_scalable`
unfoldable pub model_7_scalable :
    Rdma → Tasks → ScaleClient → ScaleServer → ScaleWork → (early : Bool) → World → Outcome World
model_7_scalable net t c g w early s =
    let switches = s.context_swith == swith_time in
    exchange net t c g w (if switches then 1 else 2) early
      (record s { context_swith = if switches then 0 else s.context_swith })
    >>= (λ s'. finished (record s' { context_swith = s'.context_swith + 1 }))
