-- ===== src/Rpc/Farm.antt =====
-- The loops of FaRM: `FaRM_run_client` (dhmp_work.c) and `FaRM_run` (dhmp_server.c), over an array of
-- buffers on each side that the request slots of Client.Slots number. `flush` says whether WFLUSH or
-- RFLUSH is defined. `amper_FaRM_work_handler`, which writes the requests, takes its work for a struct
-- that has not the fields that it uses; the loops rely on this alone, that a request in a taken slot
-- has its valid byte.
pub mod Layout
pub mod Cursor
pub mod Ring
pub mod Reach
use model_test.Prelude.{ℕ, zero, suc, ◌+◌, ◌*◌, ◌-◌, ◌%◌, Bool, true, false, ◌==◌, if◌then◌else◌}
use model_test.Memory.{Memory, store_byte, memcpy, load64, store64}
use model_test.Rdma.{Rdma, Outcome, finished, await, arrive, guard_task}
use model_test.Client.Slots.{Slots, free_slot}
use model_test.Rpc.Alloc.{batch_num}

-- `client->FaRM`: addresses of the client (`c_mr`) and of the
-- server (`s_mr`); Ccur and is_available are in Slots.
pub record FarmClient : Type 0 where
  pub s_mr : ℕ
  pub c_mr : ℕ
  pub size : ℕ

-- `server->FaRM[node_id]`
pub record FarmServer : Type 0 where
  pub s_mr : ℕ
  pub c_mr : ℕ
  pub local_mr : ℕ
  pub size : ℕ

-- both memories, the client's slots, and the server's `i`
pub record World : Type 0 where
  pub client : Memory
  pub server : Memory
  pub slots : Slots
  pub pos : ℕ

-- sizeof(uintptr_t)*2 + sizeof(size_t)
abbrev pub head_size : ℕ
head_size = 24

abbrev pub buffer_size : (batch size : ℕ) → ℕ
buffer_size batch size = (head_size + size) * batch + 2

-- What `FaRM_run` does without WFLUSH and RFLUSH, for the request at `reply`: a write's data is
-- expected before the first header. `buf` is `local_mr` and `slot` the address of the request's slot.
abbrev pub reply_data : (flag size : ℕ) → ℕ
reply_data flag size = if flag == 1 then 0 else size

pub serve_request : FarmServer → (slot reply : ℕ) → Memory → Memory
serve_request g slot reply m =
    let server_addr = load64 m reply in
    let local_addr = load64 m (reply + 8) in
    let flag = m (reply + head_size) in
    let moved =
      if flag == 1
      then memcpy m server_addr m slot g.size
      else memcpy m g.local_mr m server_addr g.size in
    let temp = g.local_mr + reply_data flag g.size in
    let named = store64 (store64 moved temp server_addr) (temp + 8) local_addr in
    let sized = store64 named (temp + 16) g.size in
    store_byte (store_byte sized (temp + 24) flag) (temp + 25) 1

-- where the server looks for the request of a slot, and for its valid byte
abbrev pub slot_at : FarmServer → ℕ → ℕ
slot_at g i = g.s_mr + i * buffer_size batch_num g.size

abbrev pub reply_of : FarmServer → ℕ → ℕ
reply_of g i = g.s_mr + g.size * batch_num + i * buffer_size batch_num g.size

abbrev pub valid_of : FarmServer → ℕ → ℕ
valid_of g i = reply_of g i + (head_size * batch_num + 1)

-- The reply's length and place.
abbrev pub reply_size : (flush : Bool) → (flag size : ℕ) → ℕ
reply_size flush flag size = if flush then 1 else head_size + 2 + (if flag == 0 then size else 0)

abbrev pub reply_to : (flush : Bool) → FarmServer → (flag i : ℕ) → ℕ
reply_to flush g flag i =
    g.c_mr
    + i * buffer_size batch_num g.size
    + (if flush then 0 else if flag == 1 then g.size * batch_num else 0)

-- One round of `FaRM_run`; `buffers` is FaRM_buffer_NUM. A task that cannot be had ends the loop.
pub poll_request : Rdma → (flush task : Bool) → (buffers : ℕ) → FarmServer → World → Outcome World
poll_request net flush task buffers g s =
    if g.size == 0
    then finished s
    else if s.server (valid_of g s.pos) == 0
    then finished s
    else let heard = store_byte s.server (valid_of g s.pos) 0 in
      let marked = store_byte heard g.local_mr 1 in
      let flag = marked (reply_of g s.pos + head_size) in
      let served =
        if flush then marked else serve_request g (slot_at g s.pos) (reply_of g s.pos) marked in
      let answering = record s { server = served } in
      guard_task task answering (
        await
          (net.post s.client (reply_to flush g flag s.pos) served g.local_mr
            (reply_size flush flag g.size))
          answering
          (λ client. finished (record answering {
            client = client;
            pos = if flush then (s.pos + 1) % buffers else s.pos;
          })))

-- One round of `FaRM_run_client`: with WFLUSH or RFLUSH the reply of a slot is its first byte.
abbrev pub reply_valid : (flush : Bool) → FarmClient → ℕ → ℕ
reply_valid flush c ccur =
    if flush
    then c.c_mr + ccur * buffer_size batch_num c.size
    else c.c_mr + c.size * batch_num + (head_size * batch_num + 1)

pub take_reply : (flush : Bool) → FarmClient → (ccur : ℕ) → Memory → Memory
take_reply flush c ccur m =
    let reply = c.c_mr + c.size * batch_num in
    if flush
    then m
    else if m (reply + head_size) == 0
    then memcpy m (load64 m (reply + 8)) m (c.c_mr + buffer_size batch_num c.size * ccur) c.size
    else m

pub poll_reply : (flush : Bool) → (buffers : ℕ) → FarmClient → World → World
poll_reply flush buffers c s =
    let valid = reply_valid flush c s.slots.ccur in
    if c.size == 0 then s else if s.client valid == 0 then s else record s {
      client = take_reply flush c s.slots.ccur (store_byte s.client valid 0);
      slots = free_slot flush buffers s.slots;
    }
