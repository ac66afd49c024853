-- ===== src/Examples/Octo.antt =====
-- An Octopus write of three bytes; the server's registration is for 43 bytes, of 7000.
use model_test.Prelude.{◌+◌, ◌≡◌, refl, ◌==◌, if◌then◌else◌, true, arith}
use model_test.Memory.{Memory, load, load64}
use model_test.Rdma.{spinning}
use model_test.Rpc.Octo.{OctoClient, OctoServer, OctoWork, World, task_at, call}
use model_test.Rpc.Octo.Call.{IsTyped, IsPlaced, octo-done}
use model_test.Examples.Network.{local_rdma, local_rdma-Reliable}

abbrev octo_client : OctoClient
octo_client = record { local = 1000; c_mr = 2000; s_mr = 7000 }

abbrev octo_server : OctoServer
octo_server = record { s_struct = 500; s_mr = 7000; local = 8000; c_mr = 2000 }

abbrev octo_work : OctoWork
octo_work = record { dhmp_addr = 3000; local_addr = 200; length = 3; flag_write = 1; work = 900 }

-- The registration's `length` is at 524.
abbrev octo_memory : Memory
octo_memory a = if a == 524 then 43 else 0

abbrev octo_world : World
octo_world = record { client = λ a. 5; server = octo_memory; done = 0 }

octo-IsTyped : IsTyped octo_work
octo-IsTyped = record { length_64 = omega arith; addr_64 = omega arith }

octo-IsPlaced : IsPlaced octo_client octo_server octo_work
octo-IsPlaced = record {
  request_at = refl;
  reply_at = refl;
  struct_request = omega arith;
  reply_request = omega arith;
  target_reply = omega arith;
  target_request = omega arith;
}

no_bytes : load64 octo_memory 500 ≡ 0
unfolding load
no_bytes = refl

no_addr : load64 octo_memory 516 ≡ 0
unfolding load
no_addr = refl

octo-done_example :
    (s' : World) × (call local_rdma true true octo_client octo_server octo_work octo_world
      ≡ spinning s')
    × (s'.done ≡ load64 octo_memory (500 + task_at))
octo-done_example =
    octo-done local_rdma local_rdma-Reliable octo_client octo_server octo_work octo_world
      octo-IsTyped octo-IsPlaced (omega (arith, no_bytes, no_addr))
