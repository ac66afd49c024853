-- ===== src/Examples/Send2.antt =====
-- A send2 call that writes eight bytes, in a build with Spwrite.
use model_test.Prelude.{◌≡◌, refl, true, arith}
use model_test.Rdma.{finished}
use model_test.AddrTable.{World}
use model_test.Rpc.Send2.{Send2Work, Send2Buffers, call}
use model_test.Rpc.Send2.Call.{IsSendable, IsSent2, call-IsSent2}
use model_test.Examples.Network.{local_rdma, local_rdma-Reliable}
use model_test.Examples.AddrTable.{own_hash, region, rw_world, region-find}

abbrev send2_work : Send2Work
send2_work = record {
  length = 8;
  dhmp_addr = 7000;
  server_addr = 7000;
  local_addr = 300;
  work = 100;
}

abbrev send2_buffers : Send2Buffers
send2_buffers = record {
  per_ops = 500;
  req_msg = 600;
  request_slot = 5000;
  response = 6000;
  response_slot = 700;
}

send2_work-IsSendable : IsSendable send2_work send2_buffers 7000
send2_work-IsSendable = record {
  work_fits = omega arith;
  data_work = omega arith;
  target_slot = omega arith;
  target_response = omega arith;
}

call-IsSent2_example :
    (s' : World) × (call own_hash local_rdma true true send2_buffers send2_work rw_world
      ≡ finished s')
    × IsSent2 own_hash true true send2_work 7000 rw_world s'
call-IsSent2_example =
    call-IsSent2 own_hash local_rdma local_rdma-Reliable true send2_work send2_buffers rw_world
      region region-find refl true send2_work-IsSendable
