-- ===== src/Examples/Send.antt =====
-- A send call that writes eight bytes.
use model_test.Prelude.{◌≡◌, refl, arith}
use model_test.Rdma.{finished}
use model_test.Rpc.Send.{SendWork, SendBuffers, World, call}
use model_test.Rpc.Send.Call.{IsSendable, IsWritten, call-IsWritten}
use model_test.Examples.Network.{local_rdma, local_rdma-Reliable}

abbrev send_work : SendWork
send_work = record { length = 8; dhmp_addr = 900; local_addr = 300; is_write = 1; work = 100 }

abbrev send_buffers : SendBuffers
send_buffers = record {
  temp = 500;
  request_slot = 5000;
  response = 6000;
  response_slot = 700;
  response_msg = 800;
}

abbrev send_world : World
send_world = record { client = λ a. a; server = λ a. 9 }

send_work-IsSendable : IsSendable send_work send_buffers
send_work-IsSendable = record {
  is_write = refl;
  length_fits = omega arith;
  addr_fits = omega arith;
  work_fits = omega arith;
  data_temp = omega arith;
  data_work = omega arith;
  slot_response = omega arith;
  target_response = omega arith;
}

call-IsWritten_example :
    (s' : World) × (call local_rdma send_buffers (record { at = 0; size = 0 }) send_work send_world
      ≡ finished s')
    × IsWritten send_work send_buffers send_world s'
call-IsWritten_example =
    call-IsWritten local_rdma local_rdma-Reliable send_work send_buffers
      (record { at = 0; size = 0 }) send_world send_work-IsSendable
