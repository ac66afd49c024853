-- ===== src/Rpc/Tailwind/Model.antt =====
-- A whole call of model_6_Tailwind whose entries one log holds.
use model_test.Prelude.{ℕ, ◌+◌, ◌*◌, ◌^◌, ◌≤◌, ◌<◌, ◌≡◌}
use model_test.Memory.{Memory, store64, Apart, Same}
use model_test.Rdma.{Rdma, Reliable}
use model_test.Rpc.Tailwind.{World, Call, count, log_size, request_size}
use model_test.Rpc.Tailwind.Log.{IsEntry, entry_size}

-- The values fit their fields, and the log, the messages' buffers, the head and the data do not
-- overlap, on either side.
pub record Fits (k : Call) : Type 0 where
  pub length_fits : k.length < 256 ^ 8
  pub work_fits : k.work < 256 ^ 8
  pub log_fits : k.bases 0 + log_size * entry_size k ≤ 256 ^ 8
  pub head_request : Apart k.tailwind_head count k.buffers.request (40 + k.length)
  pub head_response : Apart k.tailwind_head count k.buffers.response_slot request_size
  pub data_request : Apart k.local_addr k.length k.buffers.request (40 + k.length)
  pub data_response : Apart k.local_addr k.length k.buffers.response_slot request_size
  pub slot_log : Apart k.buffers.request_slot (40 + k.length) (k.bases 0) (log_size * entry_size k)
  pub response_log : Apart k.buffers.response request_size (k.bases 0) (log_size * entry_size k)
  pub slot_response : Apart k.buffers.request_slot (40 + k.length) k.buffers.response request_size

-- The log of `n` entries between the first and the last, of which the messages leave the data alone.
pub record IsLog (k : Call) (n : ℕ) (src m : Memory) : Type 0 where
  pub first : Same k.length m (k.bases 0 + 0 * entry_size k) src k.local_addr
  pub entries : (i : ℕ) → 1 ≤ i → i ≤ n → IsEntry k src m (k.bases 0 + i * entry_size k)
  pub last : Same k.length m (k.bases 0 + (1 + n) * entry_size k) src k.local_addr

-- The client's memory with the head filled in.
abbrev pub headed : Call → Memory → Memory
headed k m = store64 m k.tailwind_head k.length

module _ (net : Rdma) (reliable : Reliable net) (k : Call) (fits : Fits k) where
  -- The head and the data are what they were after `headed`.
  record IsClient (src : Memory) (s : World) : Type 0 where
    pub buffer : s.buffer ≡ k.bases 0
    pub head : Same count s.client k.tailwind_head src k.tailwind_head
    pub payload : Same k.length s.client k.local_addr src k.local_addr
