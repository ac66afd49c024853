-- ===== src/Client/Calls.antt =====
-- The calls of dhmp_client.c that queue one piece of work each.
use model_test.Prelude.{ℕ, Bool, none, if◌then◌else◌, ◌==◌}
use model_test.Client.{
  WorkType, work, Client, Submission, rejected, has_transport, submit, submit_connected,
  malloc_work, free_work, rw_work, close_work, clover_work, l5_work, scalable_work, tailwind_work,
  darpc_work, rfp_work, rw2_work, send_work, req_addr_work, write_imm_work, write_imm3_work,
  send2_work, sread_work, ud_work,
}

-- `length < 0` is never true of a `size_t`. The two allocations are `work` and `addr_info`.
unfoldable pub dhmp_malloc :
    (alloc_work alloc_info : Bool) → (length is_special : ℕ) → Client → Client × Submission
dhmp_malloc alloc_work alloc_info length is_special c =
    submit (has_transport c.connect_trans) (if alloc_work then alloc_info else alloc_work)
      (work WorkType.malloc (malloc_work length is_special)) c

unfoldable pub dhmp_free : (alloc : Bool) → (dhmp_addr : ℕ) → Client → Client × Submission
dhmp_free alloc dhmp_addr c =
    if dhmp_addr == 0
    then (c, rejected)
    else submit_connected alloc (work WorkType.free (free_work dhmp_addr)) c

unfoldable pub dhmp_read :
    (alloc : Bool) → (dhmp_addr local_buf count : ℕ) → Client → Client × Submission
dhmp_read alloc dhmp_addr local_buf count =
    submit_connected alloc (work WorkType.read (rw_work dhmp_addr local_buf count))

unfoldable pub dhmp_write :
    (alloc : Bool) → (dhmp_addr local_buf count : ℕ) → Client → Client × Submission
dhmp_write alloc dhmp_addr local_buf count =
    submit_connected alloc (work WorkType.write (rw_work dhmp_addr local_buf count))

unfoldable pub amper_clover_compare_and_set :
    (alloc : Bool) → (dhmp_addr length value : ℕ) → Client → Client × Submission
amper_clover_compare_and_set alloc dhmp_addr length value =
    submit_connected alloc (work WorkType.clover (clover_work dhmp_addr length value))

unfoldable pub amper_write_l5 :
    (alloc : Bool) → (local_buf count globle_addr flag_write : ℕ) → Client → Client × Submission
amper_write_l5 alloc local_buf count globle_addr flag_write =
    submit_connected alloc (work WorkType.l5 (l5_work local_buf count globle_addr flag_write none))

unfoldable pub amper_scalable :
    (alloc : Bool)
    → (offset count write_type length flag_write batch : ℕ) → Client
    → Client × Submission
amper_scalable alloc offset count write_type length flag_write batch =
    submit_connected alloc
      (work WorkType.scalable (scalable_work offset count length write_type flag_write batch))

unfoldable pub amper_send_rpc_tailwind :
    (alloc : Bool) → (offset head_mr head_size local_buf size : ℕ) → Client → Client × Submission
amper_send_rpc_tailwind alloc offset head_mr head_size local_buf size =
    submit_connected alloc
      (work WorkType.tailwind_rpc (tailwind_work offset head_mr head_size local_buf size))

unfoldable pub amper_write_tailwind :
    (alloc : Bool) → (offset head_mr head_size local_buf size : ℕ) → Client → Client × Submission
amper_write_tailwind alloc offset head_mr head_size local_buf size =
    submit_connected alloc
      (work WorkType.tailwind (tailwind_work offset head_mr head_size local_buf size))

-- without `SFLUSH`
unfoldable pub amper_send_rpc_darpc :
    (alloc : Bool)
    → (globle_addr length local_addr flag_write batch : ℕ) → Client
    → Client × Submission
amper_send_rpc_darpc alloc globle_addr length local_addr flag_write batch =
    submit_connected alloc
      (work WorkType.darpc (darpc_work globle_addr length local_addr flag_write batch none))

unfoldable pub amper_rfp :
    (alloc : Bool)
    → (local_buf globle_addr count : ℕ) (is_write : Bool) → Client
    → Client × Submission
amper_rfp alloc local_buf globle_addr count is_write =
    submit_connected alloc (work WorkType.rfp (rfp_work local_buf globle_addr count is_write))

unfoldable pub dhmp_write2 :
    (alloc : Bool) → (dhmp_addr local_buf count : ℕ) → Client → Client × Submission
dhmp_write2 alloc dhmp_addr local_buf count =
    submit_connected alloc (work WorkType.write2 (rw2_work dhmp_addr local_buf count))

unfoldable pub dhmp_send :
    (alloc : Bool)
    → (dhmp_addr local_buf count : ℕ) (is_write : Bool) → Client
    → Client × Submission
dhmp_send alloc dhmp_addr local_buf count is_write =
    submit_connected alloc (work WorkType.send (send_work dhmp_addr local_buf count is_write))

unfoldable pub rdma_stress : (alloc : Bool) → Client → Client × Submission
rdma_stress alloc = submit_connected alloc (work WorkType.reqaddr1 req_addr_work)

unfoldable pub dhmp_write_imm :
    (alloc : Bool) → (dhmp_addr local_buf length task_offset : ℕ) → Client → Client × Submission
dhmp_write_imm alloc dhmp_addr local_buf length task_offset =
    submit_connected alloc
      (work WorkType.writeimm (write_imm_work dhmp_addr local_buf length task_offset))

-- It queues a `struct amper_L5_work` for the Octopus handler.
unfoldable pub dhmp_write_imm2 :
    (alloc : Bool) → (dhmp_addr local_addr length flag_write : ℕ) → Client → Client × Submission
dhmp_write_imm2 alloc dhmp_addr local_addr length flag_write =
    submit_connected alloc
      (work WorkType.octopus (l5_work local_addr length dhmp_addr flag_write none))

unfoldable pub dhmp_write_imm3 :
    (alloc : Bool) → (dhmp_addr local_buf length : ℕ) → Client → Client × Submission
dhmp_write_imm3 alloc dhmp_addr local_buf length =
    submit_connected alloc (work WorkType.writeimm3 (write_imm3_work dhmp_addr local_buf length))

unfoldable pub dhmp_send2 :
    (alloc : Bool) → (server_addr dhmp_addr local_buf length : ℕ) → Client → Client × Submission
dhmp_send2 alloc server_addr dhmp_addr local_buf length =
    submit_connected alloc (work WorkType.send2 (send2_work server_addr dhmp_addr local_buf length))

unfoldable pub dhmp_sread :
    (alloc : Bool) → (dhmp_addr local_buf length : ℕ) → Client → Client × Submission
dhmp_sread alloc dhmp_addr local_buf length =
    submit_connected alloc (work WorkType.sread (sread_work dhmp_addr local_buf length))

unfoldable pub dhmp_close_connection : (alloc : Bool) → Client → Client × Submission
dhmp_close_connection alloc = submit_connected alloc (work WorkType.close close_work)

unfoldable pub send_ud :
    (alloc : Bool)
    → (globle_addr length local_addr flag_write batch : ℕ) → Client
    → Client × Submission
send_ud alloc globle_addr length local_addr flag_write batch c =
    submit (has_transport c.connect_trans) alloc
      (work WorkType.ud (ud_work globle_addr length local_addr flag_write batch)) c
