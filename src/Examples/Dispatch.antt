-- ===== src/Examples/Dispatch.antt =====
-- Four completions, of which two receives succeed; for one of them there is no memory to post it again.
use model_test.Prelude.{true, false, none, List, [], ◌∷◌}
use model_test.Transport.{TransportState}
use model_test.Message.Dispatch.{
  wc_recv, wc_send, wc_rdma_write, recv_rdma_with_imm, Task, Repost, Wc,
}

abbrev receive_task : Task
receive_task = record { sge_addr = 500; done_flag = false; write_flag = none }

abbrev with_memory : Repost
with_memory = record { trans_state = TransportState.connected; alloc = true; accepted = true }

abbrev some_wcs : List Wc
some_wcs =
    record {
      success = true;
      opcode = wc_send;
      imm_data = 0;
      task = receive_task;
      again = with_memory;
    }
    ∷ record {
      success = true;
      opcode = recv_rdma_with_imm;
      imm_data = 7;
      task = receive_task;
      again = with_memory;
    }
    ∷ record {
      success = false;
      opcode = wc_rdma_write;
      imm_data = 0;
      task = receive_task;
      again = with_memory;
    }
    ∷ record {
      success = true;
      opcode = wc_recv;
      imm_data = 0;
      task = receive_task;
      again = record with_memory { alloc = false };
    }
    ∷ []
