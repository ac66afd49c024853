-- ===== src/Message/Dispatch.antt =====
-- What a completion makes a process do: `dhmp_wc_success_handler`, `dhmp_wc_recv_handler` and
-- `dhmp_comp_channel_handler` (dhmp_transport.c). The handlers of messages are named here; some of them
-- are modelled in modules of their own.
pub mod Delivery
use model_test.Prelude.{
  ℕ, zero, suc, ◌+◌, ◌-◌, ◌^◌, Bool, true, false, Option, none, some, List, [], ◌∷◌, ◌++◌, ◌==◌,
  if◌then◌else◌,
}
use model_test.Memory.{Memory}
use model_test.Message.{DhmpMsg, DhmpSge, read_message}
use model_test.Message
use model_test.Transport.{TransportState}

-- `enum dhmp_msg_type`
pub data MsgType : Type 0 where
  malloc_request malloc_response malloc_error free_request free_response server_info_request :
      MsgType
  server_info_response close_connection send_request send_response send2_request : MsgType
  send2_response reqaddr1_request reqaddr1_response writeimm_request writeimm_response : MsgType
  writeimm2_request writeimm2_response writeimm3_request writeimm3_response sread_request : MsgType
  sread_response write2_request write2_response tailwind_rpc_requeset tailwind_rpc_response :
      MsgType
  darpc_requeset darpc_response ud_request ud_response herd_response prdma_ws_response : MsgType
  octo_request octo_response : MsgType

-- The enumeration in its order, from which a message's number selects.
pub msg_types : List MsgType
msg_types =
    malloc_request ∷ malloc_response ∷ malloc_error ∷ free_request ∷ free_response
    ∷ server_info_request ∷ server_info_response ∷ close_connection ∷ send_request ∷ send_response
    ∷ send2_request ∷ send2_response ∷ reqaddr1_request ∷ reqaddr1_response ∷ writeimm_request
    ∷ writeimm_response ∷ writeimm2_request ∷ writeimm2_response ∷ writeimm3_request
    ∷ writeimm3_response ∷ sread_request ∷ sread_response ∷ write2_request ∷ write2_response
    ∷ tailwind_rpc_requeset ∷ tailwind_rpc_response ∷ darpc_requeset ∷ darpc_response ∷ ud_request
    ∷ ud_response ∷ herd_response ∷ prdma_ws_response ∷ octo_request ∷ octo_response ∷ []

pub nth : List MsgType → ℕ → Option MsgType
nth [] n = none
nth (t ∷ ts) zero = some t
nth (t ∷ ts) (suc n) = nth ts n

pub type_of : ℕ → Option MsgType
type_of n = nth msg_types n

-- The handlers that the switch of `dhmp_wc_recv_handler` calls; `disconnect` is rdma_disconnect.
pub data RecvHandler : Type 0 where
  malloc_request_handler malloc_response_handler malloc_error_handler free_request_handler :
      RecvHandler
  free_response_handler disconnect send_request_handler send_response_handler : RecvHandler
  send2_request_handler send2_response_handler reqaddr1_request_handler : RecvHandler
  reqaddr1_response_handler writeimm_response_handler writeimm2_response_handler : RecvHandler
  writeimm3_response_handler write2_response_handler sread_request_handler : RecvHandler
  sread_response_handler tailwind_rpc_requeset_handler tailwind_rpc_response_handler : RecvHandler
  darpc_requeset_handler darpc_response_handler ud_request_handler ud_response_handler : RecvHandler
  herd_response_handler prdma_ws_response_handler : RecvHandler

pub case_of : MsgType → Option RecvHandler
case_of malloc_request = some malloc_request_handler
case_of malloc_response = some malloc_response_handler
case_of malloc_error = some malloc_error_handler
case_of free_request = some free_request_handler
case_of free_response = some free_response_handler
case_of close_connection = some disconnect
case_of send_request = some send_request_handler
case_of send_response = some send_response_handler
case_of send2_request = some send2_request_handler
case_of send2_response = some send2_response_handler
case_of reqaddr1_request = some reqaddr1_request_handler
case_of reqaddr1_response = some reqaddr1_response_handler
case_of writeimm_response = some writeimm_response_handler
case_of writeimm2_response = some writeimm2_response_handler
case_of writeimm3_response = some writeimm3_response_handler
case_of write2_response = some write2_response_handler
case_of sread_request = some sread_request_handler
case_of sread_response = some sread_response_handler
case_of tailwind_rpc_requeset = some tailwind_rpc_requeset_handler
case_of tailwind_rpc_response = some tailwind_rpc_response_handler
case_of darpc_requeset = some darpc_requeset_handler
case_of darpc_response = some darpc_response_handler
case_of ud_request = some ud_request_handler
case_of ud_response = some ud_response_handler
case_of herd_response = some herd_response_handler
case_of prdma_ws_response = some prdma_ws_response_handler
case_of _ = none

abbrev pub case_found : Option MsgType → Option RecvHandler
case_found none = none
case_found (some t) = case_of t

-- `dhmp_wc_recv_handler`: the handler of a message's type, `none` for the default case.
pub recv_handler : ℕ → Option RecvHandler
recv_handler msg_type = case_found (type_of msg_type)

-- `enum ibv_wc_opcode`, as far as the code looks at it
pub data Opcode : Type 0 where
  recv_rdma_with_imm wc_send wc_recv wc_rdma_write wc_rdma_read wc_comp_swap wc_other : Opcode

-- The handlers for immediate data; `writeimm_request` takes it as an offset.
pub data ImmHandler : Type 0 where
  writeimm3_request_imm writeimm2_request_imm octo_request_imm octo_response_imm : ImmHandler
  writeimm_request_imm : ℕ → ImmHandler

pub imm_handler : ℕ → ImmHandler
imm_handler imm_data =
    if imm_data == 2 ^ 32 - 3
    then writeimm3_request_imm
    else if imm_data == 2 ^ 32 - 2
    then writeimm2_request_imm
    else if imm_data == 2 ^ 32 - 4
    then octo_request_imm
    else if imm_data == 2 ^ 32 - 5
    then octo_response_imm
    else writeimm_request_imm imm_data

-- `struct ibv_wc`, and of the `struct dhmp_task` in its `wr_id` the buffer, the flag and, where it has
-- an `addr_info`, that one's `write_flag`
pub record Task : Type 0 where
  pub sge_addr : ℕ
  pub done_flag : Bool
  pub write_flag : Option Bool

-- What dhmp_post_recv finds when the buffer of a receive is to be posted again: the transport's state,
-- whether there is memory for the task, and whether ibv_post_recv succeeds.
pub record Repost : Type 0 where
  pub trans_state : TransportState
  pub alloc : Bool
  pub accepted : Bool

pub record Wc : Type 0 where
  pub success : Bool
  pub opcode : Opcode
  pub imm_data : ℕ
  pub task : Task
  pub again : Repost

-- What is done for it, besides the task: calls of handlers, a reply's address handle (UD), and receives
-- posted again at a buffer.
pub data Action : Type 0 where
  handle : RecvHandler → DhmpMsg → Action
  handle_imm : ImmHandler → Action
  create_reply_ah : Action
  post_recv : ℕ → Action

abbrev pub handle_message : Option RecvHandler → DhmpMsg → List Action
handle_message none msg = []
handle_message (some h) msg = handle h msg ∷ []

abbrev pub posted : (accepted : Bool) → Option DhmpSge → List Action
posted accepted none = []
posted true (some sge) = post_recv sge.addr ∷ []
posted false (some sge) = []

-- `dhmp_post_recv`
unfoldable pub repost : Repost → ℕ → List Action
repost r a = posted r.accepted (Message.post_recv r.trans_state r.alloc a)

abbrev pub done : Task → Task
done t = record t { done_flag = true }

abbrev pub clear : Option Bool → Option Bool
clear none = none
clear (some b) = some false

-- `dhmp_wc_success_handler`: a receive with immediate data falls through to the case of a send.
pub success_handler :
    (ud spwrite : Bool) → Memory → Opcode → (imm_data : ℕ) → Repost → Task → List Action × Task
success_handler ud spwrite m recv_rdma_with_imm imm r t =
    (handle_imm (imm_handler imm) ∷ repost r t.sge_addr, done t)
success_handler ud spwrite m wc_send imm r t = ([], done t)
success_handler ud spwrite m wc_recv imm r t =
    let msg = read_message ud m t.sge_addr in
    (
      (if ud then create_reply_ah ∷ [] else [])
          ++ (handle_message (recv_handler msg.msg_type) msg ++ repost r t.sge_addr),
      t,
    )
success_handler ud spwrite m wc_rdma_write imm r t =
    ([], done (record t { write_flag = if spwrite then clear t.write_flag else t.write_flag }))
success_handler ud spwrite m wc_rdma_read imm r t = ([], done t)
success_handler ud spwrite m wc_comp_swap imm r t = ([], done t)
success_handler ud spwrite m wc_other imm r t = ([], t)

-- The loop of `dhmp_comp_channel_handler` over the completions that it polls: what is done, in order,
-- and the tasks after it. `memory` gives each round's, since the handlers write to it.
pub poll_cq : (ud spwrite : Bool) → (memory : ℕ → Memory) → List Wc → List Action × List Task
poll_cq ud spwrite memory [] = ([], [])
poll_cq ud spwrite memory (wc ∷ rest) =
    let (later, tasks) = poll_cq ud spwrite (λ k. memory (k + 1)) rest in
    if wc.success
    then (let (now, t) =
          success_handler ud spwrite (memory 0) wc.opcode wc.imm_data wc.again wc.task in
        (now ++ later, t ∷ tasks))
    else (later, wc.task ∷ tasks)
