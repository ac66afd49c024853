-- ===== src/Rpc/Send2.antt =====
-- The call that writes and then asks for a flush: `dhmp_send2` (dhmp_client.c), `dhmp_send2_work_handler`
-- (dhmp_work.c), `dhmp_rdma_write2`, `dhmp_send2_request_handler` and `dhmp_send2_response_handler`
-- (dhmp_transport.c). The flush changes no byte.
pub mod Call
use model_test.Prelude.{ℕ, ◌+◌, Bool, ◌==◌, if◌then◌else◌}
use model_test.Memory.{Memory, store_byte, memcpy, load64, store64}
use model_test.Rdma.{Rdma, Outcome, finished, spinning, ◌>>=◌, await, arrive}
use model_test.AddrTable.{
  AddrInfo, World, find, change_at, if_found, count_write, completion_of_write,
}

-- `struct dhmp_Send2_work`; `work` is its own address.
pub record Send2Work : Type 0 where
  pub length : ℕ
  pub dhmp_addr : ℕ
  pub server_addr : ℕ
  pub local_addr : ℕ
  pub work : ℕ

-- `sizeof(struct dhmp_Send2_work)`, and where its flags are
abbrev pub work_size : ℕ
work_size = 48

abbrev pub recv_flag_at : ℕ
recv_flag_at = 40

abbrev pub done_flag_at : ℕ
done_flag_at = 41

-- `sizeof(struct dhmp_Send2_request)`: `req_size`, `server_addr`, `task`
abbrev pub request_size : ℕ
request_size = 24

-- `client->per_ops_mr_addr`, the client's `req_msg` and the server's receive slot for it, the server's
-- `response` and the client's receive slot for it.
pub record Send2Buffers : Type 0 where
  pub per_ops : ℕ
  pub req_msg : ℕ
  pub request_slot : ℕ
  pub response : ℕ
  pub response_slot : ℕ

-- what `dhmp_send2` sets in the work before it queues it, as far as it changes during the call
unfoldable pub begin : Send2Work → Memory → Memory
begin w m = store_byte (store_byte m (w.work + done_flag_at) 0) (w.work + recv_flag_at) 0

-- `dhmp_rdma_write2`; its caller does not look at the result.
unfoldable pub rdma_write2 :
    (ℕ → ℕ)
    → Rdma
    → (spwrite task : Bool) → (per_ops : ℕ) → Send2Work
    → AddrInfo
    → World
    → Outcome World
rdma_write2 hash net spwrite task per_ops w i s =
    let client = memcpy s.client per_ops s.client w.local_addr w.length in
    let copied = record s { client = client } in
    if task
    then await (net.post s.server i.addr client per_ops w.length) copied (λ server.
      finished (record copied {
        server = server;
        table = change_at hash (completion_of_write spwrite) w.dhmp_addr s.table;
      }))
    else finished copied

abbrev pub build_request : Send2Work → (req_msg : ℕ) → Memory → Memory
build_request w t m = store64 (store64 (store64 m t w.length) (t + 8) w.server_addr) (t + 16) w.work

-- `dhmp_send2_response_handler` for the message data at `a`
abbrev pub response_handler : (a : ℕ) → Memory → Memory
response_handler a m = store_byte m (load64 m (a + 16) + recv_flag_at) 1

-- the request, which `dhmp_send2_request_handler` copies into its response, and the wait for that
unfoldable pub ask : Rdma → Send2Buffers → Send2Work → World → Outcome World
ask net b w s =
    let built = build_request w b.req_msg s.client in
    arrive (net.post s.server b.request_slot built b.req_msg request_size)
      (record s { client = built })
      (λ server.
        let served = memcpy server b.response server b.request_slot request_size in
        let answering = record s { client = built; server = served } in
        arrive (net.post built b.response_slot served b.response request_size) answering (λ client.
          let told = response_handler b.response_slot client in
          if told (w.work + recv_flag_at) == 0
          then spinning (record answering { client = told })
          else finished (record answering { client = told })))

-- the label `out` of `dhmp_send2_work_handler`
abbrev pub mark_done : Send2Work → World → World
mark_done w s = record s { client = store_byte s.client (w.work + done_flag_at) 1 }

unfoldable pub send2_work_handler :
    (ℕ → ℕ) → Rdma → (spwrite task : Bool) → Send2Buffers → Send2Work → World → Outcome World
send2_work_handler hash net spwrite task b w s =
    if_found (find hash w.dhmp_addr s.table)
      (λ i.
        if i.write_flag
        then spinning s
        else rdma_write2 hash net spwrite task b.per_ops w i
            (record s { table = change_at hash count_write w.dhmp_addr s.table })
          >>= ask net b w
          >>= (λ asked. finished (mark_done w asked)))
      (finished (mark_done w s))

-- `dhmp_send2`, from where it queues its work on
unfoldable pub call :
    (ℕ → ℕ) → Rdma → (spwrite task : Bool) → Send2Buffers → Send2Work → World → Outcome World
call hash net spwrite task b w s =
    send2_work_handler hash net spwrite task b w (record s { client = begin w s.client })
