-- ===== src/Examples/Rfp.antt =====
-- Calls of RFP with three bytes of data.
use model_test.Prelude.{
  ℕ, ◌≡◌, ◌≢◌, refl, inl, Bool, true, false, [], ◌∷◌, ◌==◌, if◌then◌else◌, arith,
}
use model_test.Memory.{Memory, load}
use model_test.Rdma.{finished}
use model_test.Rpc.Rfp.{RfpClient, RfpWork, World, call}
use model_test.Rpc.Rfp.Request.{IsRequest}
use model_test.Rpc.Rfp.Serve.{IsPlaced}
use model_test.Rpc.Rfp.Call.{paired, InStep, after, Returned, call-Returned}
use model_test.Rpc.Rfp.Stale.{stale_read}
use model_test.Examples.Network.{local_rdma, local_rdma-Reliable}

abbrev rfp_client : RfpClient
rfp_client = record { local_smr = 1000; per_ops_mr2 = 2000; write_mr = 5000; read_mr = 6000 }

abbrev rfp_work : Bool → RfpWork
rfp_work b = record { local_addr = 100; length = 3; is_write = b; dhmp_addr = 7000 }

-- The reply buffer holds the time byte of an old read.
abbrev rfp_memory : ℕ → Memory
rfp_memory old a = if a == 6012 then old else 0

abbrev rfp_world : ℕ → World
rfp_world old = record {
  client = λ a. 5;
  server = rfp_memory old;
  client_time = 1;
  server_time = 1;
}

rfp-IsPlaced : (b : Bool) → IsPlaced (paired rfp_client 3) (rfp_work b)
rfp-IsPlaced b = record {
  size = refl;
  target_reply = omega arith;
  target_request = omega arith;
  reply_request = omega arith;
}

rfp-InStep : (old : ℕ) → InStep (rfp_world old)
rfp-InStep old = record { equal = refl; time = inl refl }

call-Returned_example :
    (s' : World) × (call local_rdma true true
        (paired rfp_client 3)
        rfp_client
        (rfp_work true)
        (after 2)
        (rfp_world 2)
      ≡ finished s')
    × Returned 6000 (rfp_work true) (λ a. 5) (rfp_memory 2) (rfp_world 2) s'
call-Returned_example =
    call-Returned local_rdma local_rdma-Reliable rfp_client (rfp_work true) (rfp-IsPlaced true)
      (omega arith) 2 (rfp_world 2) (rfp-InStep 2) (λ e. absurd (omega (arith, e)))

stale_read_example :
    (s1 : World) × (s2 : World) × (call local_rdma true true
        (paired rfp_client 3)
        rfp_client
        (rfp_work true)
        (after 0)
        (rfp_world 2)
      ≡ finished s1)
    × (call local_rdma true true (paired rfp_client 3) rfp_client (rfp_work false) (false ∷ []) s1
        ≡ finished s2)
    × (s2.server_time ≡ s1.server_time)
    × (s2.client_time ≢ s2.server_time)
stale_read_example =
    stale_read local_rdma local_rdma-Reliable rfp_client (rfp_work true) 100 7000
      (rfp-IsPlaced true) (omega arith) refl (omega arith) (rfp-IsPlaced false) (omega arith) 0
      (rfp_world 2) (rfp-InStep 2) (λ e. absurd (omega (arith, e))) refl

-- A request for a write at 7000 = 27 * 256 + 88.
abbrev request_memory : Memory
request_memory a =
    if a == 5003
    then 1
    else (if a == 5004 then 88 else (if a == 5005 then 27 else (if a == 5020 then 1 else 0)))

abbrev request_world : World
request_world = record {
  client = λ a. 0;
  server = request_memory;
  client_time = 1;
  server_time = 1;
}

IsRequest-there : IsRequest (rfp_work true) (λ a. 0) request_memory 5000
unfolding load
IsRequest-there = record {
  flag = refl;
  addr = refl;
  valid = refl;
  payload = λ e. record { at = λ i p. ground (arith, p) };
}
