-- ===== src/Client.antt =====
-- The client's calls as its users make them (dhmp_client.c): each checks the connection, gets
-- memory for a `struct dhmp_work`, fills the `work_data` of its kind and appends the work to
-- `client->work_list`. It then waits for `done_flag`.
pub mod Calls
pub mod Dispatch
pub mod History
pub mod Slots
use model_test.Prelude.{
  ℕ, Bool, true, false, Option, none, some, List, [], ◌∷◌, ◌++◌, if◌then◌else◌,
}
use model_test.Transport.{TransportState, is_connected}

-- `enum dhmp_work_type`
pub data WorkType : Type 0 where
  malloc free read write close done send send2 reqaddr1 writeimm writeimm2 writeimm3 sread write2 :
      WorkType
  l5 clover scalable tailwind tailwind_rpc darpc rfp ud farm herd prdma_ws octopus : WorkType

-- What `work_data` points to: a constructor for each of the structs of dhmp_work.h, with the fields
-- that the calls fill in (`rdma_trans` is `client->connect_trans`, and the flags start false).
pub data WorkData : Type 0 where
  malloc_work : (length is_special : ℕ) → WorkData
  free_work : (dhmp_addr : ℕ) → WorkData
  rw_work : (dhmp_addr local_addr length : ℕ) → WorkData
  close_work : WorkData
  clover_work : (dhmp_addr length value : ℕ) → WorkData
  l5_work : (local_addr length dhmp_addr flag_write : ℕ) (cur : Option ℕ) → WorkData
  darpc_work : (globle_addr length local_addr flag_write batch : ℕ) (cur : Option ℕ) → WorkData
  scalable_work : (offset length size write_type flag_write batch : ℕ) → WorkData
  tailwind_work : (offset head_mr head_size local_addr length : ℕ) → WorkData
  rfp_work : (local_addr dhmp_addr length : ℕ) (is_write : Bool) → WorkData
  rw2_work : (dhmp_addr local_addr length : ℕ) → WorkData
  send_work : (dhmp_addr local_addr length : ℕ) (is_write : Bool) → WorkData
  req_addr_work : WorkData
  write_imm_work : (dhmp_addr local_addr length task_offset : ℕ) → WorkData
  write_imm2_work : (dhmp_addr server_addr local_addr length : ℕ) → WorkData
  write_imm3_work : (dhmp_addr local_addr length : ℕ) → WorkData
  send2_work : (server_addr dhmp_addr local_addr length : ℕ) → WorkData
  sread_work : (dhmp_addr local_addr length : ℕ) → WorkData
  ud_work : (globle_addr length local_addr flag_write batch : ℕ) → WorkData

-- `struct dhmp_work`
pub record Work : Type 0 where
  pub work_type : WorkType
  pub work_data : WorkData

abbrev pub work : WorkType → WorkData → Work
work t d = record { work_type = t; work_data = d }

-- `client->connect_trans` (`none` for NULL) by its `trans_state`, and `client->work_list`
pub record Client : Type 0 where
  pub connect_trans : Option TransportState
  pub work_list : List Work

-- How a call goes on after its checks: it returns at once, or it has queued its work and waits for
-- the work's `done_flag`.
pub data Submission : Type 0 where
  rejected : Submission
  queued : Work → Submission

-- `rdma_trans && rdma_trans->trans_state == DHMP_TRANSPORT_STATE_CONNECTED`
abbrev pub can_submit : Option TransportState → Bool
can_submit none = false
can_submit (some s) = is_connected s

-- `!client->connect_trans` is all that some calls test
abbrev pub has_transport : Option TransportState → Bool
has_transport none = false
has_transport (some s) = true

-- `list_add_tail(&work->work_entry, &client->work_list)`, under `mutex_work_list`
abbrev pub list_add_tail : Client → Work → Client
list_add_tail c w = record c { work_list = c.work_list ++ (w ∷ []) }

-- The frame of a call: its test of the transport, and `alloc`, whether its `malloc`s succeed.
abbrev pub submit : Bool → (alloc : Bool) → Work → Client → Client × Submission
submit ready alloc w c =
    if ready
    then (if alloc then (list_add_tail c w, queued w) else (c, rejected))
    else (c, rejected)

-- The frame of the calls that want the connection up.
abbrev pub submit_connected : (alloc : Bool) → Work → Client → Client × Submission
submit_connected alloc w c = submit (can_submit c.connect_trans) alloc w c
