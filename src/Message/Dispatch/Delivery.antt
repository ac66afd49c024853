-- ===== src/Message/Dispatch/Delivery.antt =====
-- Which receives are posted again, and which tasks are done.
use model_test.Prelude.{ℕ, Bool, true, false, List, [], ◌∷◌, if◌then◌else◌, ◌&&◌, leb}
use model_test.Memory.{Memory}
use model_test.Transport.{state_number}
use model_test.Message.{post_recv}
use model_test.Message.Dispatch
use model_test.Message.Dispatch.{
  recv_rdma_with_imm, wc_recv, wc_other, handle, handle_imm, create_reply_ah, Opcode, Task, Repost,
  Wc, Action,
}

abbrev pub reply_ah : (ud : Bool) → List Action
reply_ah ud = if ud then create_reply_ah ∷ [] else []

-- The buffers that are posted again.
abbrev pub reposted : List Action → List ℕ
reposted [] = []
reposted (Dispatch.post_recv a ∷ rest) = a ∷ reposted rest
reposted (handle h msg ∷ rest) = reposted rest
reposted (handle_imm h ∷ rest) = reposted rest
reposted (create_reply_ah ∷ rest) = reposted rest

-- The buffers of the receives that have completed, and the tasks that are done then.
abbrev pub is_receive : Opcode → Bool
is_receive recv_rdma_with_imm = true
is_receive wc_recv = true
is_receive _ = false

abbrev pub is_waited : Opcode → Bool
is_waited wc_recv = false
is_waited wc_other = false
is_waited _ = true

-- Whether dhmp_post_recv posts: the transport is not past CONNECTED and nothing fails.
abbrev pub reposts : Repost → Bool
reposts r = leb (state_number r.trans_state) 3 && (r.alloc && r.accepted)

abbrev pub received : List Wc → List ℕ
received [] = []
received (wc ∷ rest) =
    if wc.success && (is_receive wc.opcode && reposts wc.again)
    then wc.task.sge_addr ∷ received rest
    else received rest

abbrev pub flags : List Task → List Bool
flags [] = []
flags (t ∷ rest) = t.done_flag ∷ flags rest

abbrev pub flags_after : List Wc → List Bool
flags_after [] = []
flags_after (wc ∷ rest) =
    (if wc.success && is_waited wc.opcode then true else wc.task.done_flag) ∷ flags_after rest
