-- ===== src/Message.antt =====
-- Two-sided messages: `dhmp_send_task_create` (dhmp_task.c) puts a message into the send region,
-- and `dhmp_wc_success_handler` (dhmp_transport.c) finds it in a slot of the receive region.
pub mod Frame
pub mod Slots
pub mod Dispatch
use model_test.Prelude.{
  ℕ, zero, suc, ◌+◌, ◌*◌, ◌/◌, ◌≤◌, ◌<◌, ◌≡◌, Bool, true, false, Option, none, some, List, [], ◌∷◌,
  leb, ltb, if◌then◌else◌,
}
use model_test.Memory.{Memory, memcpy, load, load64, store, store64}
use model_test.Transport.{TransportState, state_number}

-- `RECV_REGION_SIZE`, `SEND_REGION_SIZE`, `SINGLE_NORM_RECV_REGION`
abbrev pub recv_region_size : ℕ
recv_region_size = 512 * 1024 * 1024

abbrev pub send_region_size : ℕ
send_region_size = 512 * 1024 * 1024

abbrev pub single_norm_recv_region : ℕ
single_norm_recv_region = 1 * 1024 * 1024

-- `struct dhmp_mr`, less the registration
pub record DhmpMr : Type 0 where
  pub cur_pos : ℕ
  pub addr : ℕ

-- `struct dhmp_msg`: `payload` is the address `data`.
pub record DhmpMsg : Type 0 where
  pub msg_type : ℕ
  pub data_size : ℕ
  pub payload : ℕ

-- the `sge` of a `struct dhmp_task`
pub record DhmpSge : Type 0 where
  pub addr : ℕ
  pub length : ℕ

-- `sizeof(enum dhmp_msg_type) + sizeof(size_t)`
abbrev pub head_size : ℕ
head_size = 12

-- where the next message goes
unfoldable pub send_pos : DhmpMr → ℕ → ℕ
send_pos mr length = if ltb send_region_size (mr.cur_pos + length) then 0 else mr.cur_pos

-- "use msg build send task"
pub build_send : Memory → ℕ → DhmpMsg → Memory
build_send m a msg =
    let typed = store 4 m a msg.msg_type in
    let sized = store64 typed (a + 4) msg.data_size in
    memcpy sized (a + head_size) sized msg.payload msg.data_size

-- `alloc` is whether the task could be allocated.
unfoldable pub send_task_create :
    (alloc : Bool) → DhmpMr → Memory → DhmpMsg → Option (DhmpSge × DhmpMr × Memory)
send_task_create false mr m msg = none
send_task_create true mr m msg =
    let length = head_size + msg.data_size in
    let pos = send_pos mr length in
    some (
      record { addr = mr.addr + pos; length = length },
      record { cur_pos = pos + length; addr = mr.addr },
      build_send m (mr.addr + pos) msg,
    )

-- `dhmp_post_send` up to `ibv_post_send`, where the transport is not connected: nothing is made.
abbrev pub post_send :
    TransportState → (alloc : Bool) → DhmpMr → Memory → DhmpMsg → Option (DhmpSge × DhmpMr × Memory)
post_send TransportState.connected alloc mr m msg = send_task_create alloc mr m msg
post_send _ alloc mr m msg = none

-- The message that `dhmp_wc_success_handler` reads from a receive buffer; with `UD` it stands behind
-- the 40 bytes of the global routing header.
unfoldable pub message_cxt : (ud : Bool) → ℕ → ℕ
message_cxt ud a = if ud then a + 40 else a

pub read_message : (ud : Bool) → Memory → ℕ → DhmpMsg
read_message ud m a = record {
  msg_type = load 4 m (message_cxt ud a);
  data_size = load64 m (message_cxt ud a + 4);
  payload = message_cxt ud a + head_size;
}

-- `dhmp_recv_task_create` as `dhmp_post_recv` uses it: `none` when the connection is past
-- CONNECTED or the task cannot be allocated. The posted length is the slot's and 40 more bytes
-- (`sizeof(struct ibv_grh)`).
unfoldable pub post_recv : TransportState → (alloc : Bool) → ℕ → Option DhmpSge
post_recv s alloc a =
    if ltb 3 (state_number s)
    then none
    else if alloc
    then some (record { addr = a; length = single_norm_recv_region + 40 })
    else none

-- `dhmp_post_all_recv`'s loop, from its `i` to the bound: the addresses it posts.
pub post_from : ℕ → ℕ → ℕ → List ℕ
post_from base i zero = []
post_from base i (suc left) = (base + i * single_norm_recv_region) ∷ post_from base (i + 1) left

pub post_all_recv : (recv_mr : DhmpMr) → List ℕ
post_all_recv mr = post_from mr.addr 0 (recv_region_size / single_norm_recv_region)
