-- ===== src/Client/Dispatch.antt =====
-- The worker thread's switch on `work->work_type` (dhmp_work_handle_thread of dhmp_work.c), and the
-- struct that each handler takes `work->work_data` for.
use model_test.Prelude.{Option, none, some, ◌≡◌}
use model_test.Client.{
  WorkType, malloc, free, read, write, close, done, send, send2, reqaddr1, writeimm, writeimm2,
  writeimm3, sread, write2, l5, clover, scalable, tailwind, tailwind_rpc, darpc, rfp, ud, farm,
  herd, prdma_ws, octopus, WorkData, malloc_work, free_work, rw_work, close_work, clover_work,
  l5_work, darpc_work, scalable_work, tailwind_work, rfp_work, rw2_work, send_work, req_addr_work,
  write_imm_work, write_imm2_work, write_imm3_work, send2_work, sread_work, ud_work, Work,
}

-- The handlers of dhmp_work.c, `amper_L5_work_handler` as `l5_handler` and so on.
pub data Handler : Type 0 where
  malloc_handler free_handler read_handler write_handler clover_handler scalable_handler : Handler
  l5_handler herd_handler farm_handler prdma_ws_handler tailwind_rpc_handler : Handler
  tailwind_handler darpc_handler octopus_handler fasst_handler rfp_handler write2_handler : Handler
  send_handler send2_handler req_addr1_handler write_imm_handler write_imm2_handler : Handler
  write_imm3_handler sread_handler close_handler : Handler

-- The switch; `none` is its `default`, which logs and drops the work.
abbrev pub handler_of : WorkType → Option Handler
handler_of malloc = some malloc_handler
handler_of free = some free_handler
handler_of read = some read_handler
handler_of octopus = some octopus_handler
handler_of clover = some clover_handler
handler_of l5 = some l5_handler
handler_of farm = some farm_handler
handler_of scalable = some scalable_handler
handler_of tailwind = some tailwind_handler
handler_of tailwind_rpc = some tailwind_rpc_handler
handler_of darpc = some darpc_handler
handler_of ud = some fasst_handler
handler_of rfp = some rfp_handler
handler_of herd = some herd_handler
handler_of prdma_ws = some prdma_ws_handler
handler_of write = some write_handler
handler_of write2 = some write2_handler
handler_of send = some send_handler
handler_of send2 = some send2_handler
handler_of sread = some sread_handler
handler_of reqaddr1 = some req_addr1_handler
handler_of writeimm = some write_imm_handler
handler_of writeimm2 = some write_imm2_handler
handler_of writeimm3 = some write_imm3_handler
handler_of close = some close_handler
handler_of done = none

-- The struct types of dhmp_work.h
pub data WorkStruct : Type 0 where
  malloc_struct free_struct rw_struct close_struct clover_struct l5_struct darpc_struct : WorkStruct
  scalable_struct tailwind_struct rfp_struct rw2_struct send_struct req_addr_struct : WorkStruct
  write_imm_struct write_imm2_struct write_imm3_struct send2_struct sread_struct : WorkStruct
  ud_struct : WorkStruct

-- The cast at the top of each handler. `amper_herd_work_handler` and `amper_pRDMA_WS_work_handler`
-- have no body that reads it.
abbrev pub cast_of : Handler → Option WorkStruct
cast_of malloc_handler = some malloc_struct
cast_of free_handler = some free_struct
cast_of read_handler = some rw_struct
cast_of write_handler = some rw_struct
cast_of clover_handler = some clover_struct
cast_of scalable_handler = some scalable_struct
cast_of l5_handler = some l5_struct
cast_of herd_handler = none
cast_of farm_handler = some l5_struct
cast_of prdma_ws_handler = none
cast_of tailwind_rpc_handler = some tailwind_struct
cast_of tailwind_handler = some tailwind_struct
cast_of darpc_handler = some darpc_struct
cast_of octopus_handler = some l5_struct
cast_of fasst_handler = some ud_struct
cast_of rfp_handler = some rfp_struct
cast_of write2_handler = some rw2_struct
cast_of send_handler = some send_struct
cast_of send2_handler = some send2_struct
cast_of req_addr1_handler = some req_addr_struct
cast_of write_imm_handler = some write_imm_struct
cast_of write_imm2_handler = some write_imm2_struct
cast_of write_imm3_handler = some write_imm3_struct
cast_of sread_handler = some sread_struct
cast_of close_handler = some close_struct

-- The struct that `work_data` points to.
abbrev pub struct_of : WorkData → WorkStruct
struct_of (malloc_work n k) = malloc_struct
struct_of (free_work d) = free_struct
struct_of (rw_work d b n) = rw_struct
struct_of close_work = close_struct
struct_of (clover_work d n v) = clover_struct
struct_of (l5_work b n d f r) = l5_struct
struct_of (darpc_work g n b f k r) = darpc_struct
struct_of (scalable_work o n s t f b) = scalable_struct
struct_of (tailwind_work o m h b n) = tailwind_struct
struct_of (rfp_work b d n w) = rfp_struct
struct_of (rw2_work d b n) = rw2_struct
struct_of (send_work d b n w) = send_struct
struct_of req_addr_work = req_addr_struct
struct_of (write_imm_work d b n o) = write_imm_struct
struct_of (write_imm2_work d s b n) = write_imm2_struct
struct_of (write_imm3_work d b n) = write_imm3_struct
struct_of (send2_work s d b n) = send2_struct
struct_of (sread_work d b n) = sread_struct
struct_of (ud_work g n b f k) = ud_struct

-- The switch has a case for the work, and its handler takes `work_data` for what it points to.
pub record IsServed (w : Work) : Type 0 where
  pub handler : Handler
  pub selected : handler_of w.work_type ≡ some handler
  pub cast : cast_of handler ≡ some (struct_of w.work_data)
