-- ===== src/Examples/L5.antt =====
-- Calls of L5 with three bytes of data.
use model_test.Prelude.{ℕ, ◌≡◌, refl, inl, Bool, false, ◌==◌, if◌then◌else◌, arith}
use model_test.Memory.{Memory, Same}
use model_test.Rdma.{finished}
use model_test.Rpc.L5.{L5Client, L5Work, World, call}
use model_test.Rpc.L5.Message.{IsSendable}
use model_test.Rpc.L5.Serve.{IsPlaced}
use model_test.Rpc.L5.Call.{IsConnected, all_tasks, IsSilent, call-write, call-read, call-stale}
use model_test.Examples.Network.{local_rdma, local_rdma-Reliable}

abbrev l5_client : L5Client
l5_client = record {
  local_smr1 = 1000;
  num_1 = 1100;
  local_mr = 1200;
  message_mr = 5000;
  mailbox_mr = 6000;
}

abbrev l5_work : ℕ → L5Work
l5_work f = record { local_addr = 100; length = 3; dhmp_addr = 7000; flag_write = f }

abbrev l5_memory : Memory
l5_memory a = if a == 1100 then 1 else if a == 1201 then 0 else if a == 1203 then 0 else 5

abbrev l5_world : World
l5_world = record {
  client = l5_memory;
  server = λ a. 9;
  message = record { addr = 5000; c_mr = 1200; reply_smr = 5500; is_new = false };
}

l5-IsConnected : (f : ℕ) → IsConnected l5_client 6000 (l5_work f) l5_world
l5-IsConnected f = record {
  message_at = refl;
  reply_at = refl;
  mailbox_at = refl;
  rings = refl;
  num_1_staging = omega arith;
  mailbox_message = omega arith;
  mailbox_target = omega arith;
}

l5-IsSendable : (f : ℕ) → IsSendable l5_client (l5_work f)
l5-IsSendable f = record { addr_fits = omega arith; size_fits = omega arith; staged = omega arith }

l5-IsPlaced : (f : ℕ) → IsPlaced l5_world.message (l5_work f)
l5-IsPlaced f = record {
  target_reply = omega arith;
  target_message = omega arith;
  reply_message = omega arith;
}

l5-IsSilent_write : IsSilent l5_client (l5_work 1) l5_world
l5-IsSilent_write = record { silent = refl; reply_staging = omega arith }

l5-IsSilent_read : IsSilent l5_client (l5_work 0) l5_world
l5-IsSilent_read = record { silent = refl; reply_staging = omega arith }

call-write_example :
    (s' : World) × (call local_rdma all_tasks l5_client 6000 Bool.true (l5_work 1) l5_world
      ≡ finished s')
    × Same 3 s'.server 7000 l5_memory 100
    × (s'.message.is_new ≡ Bool.true)
    × (s'.client 1201 ≡ 0)
call-write_example =
    call-write local_rdma local_rdma-Reliable l5_client 6000 (l5_work 1) l5_world (l5-IsConnected 1)
      (l5-IsSendable 1) (l5-IsPlaced 1) Bool.true refl l5-IsSilent_write

call-read_example :
    (s' : World) × (call local_rdma all_tasks l5_client 6000 Bool.true (l5_work 0) l5_world
      ≡ finished s')
    × Same 3 s'.client 100 l5_world.server 7000
    × Same 3 s'.server 7000 l5_world.server 7000
    × (s'.client 1203 ≡ 0)
call-read_example =
    call-read local_rdma local_rdma-Reliable l5_client 6000 (l5_work 0) l5_world (l5-IsConnected 0)
      (l5-IsSendable 0) (l5-IsPlaced 0) Bool.true refl l5-IsSilent_read (inl (omega arith))

-- A client whose reply byte still has data.
abbrev stale_world : World
stale_world = record l5_world { client = λ a. if a == 1100 then 1 else 5 }

stale-IsConnected : IsConnected l5_client 6000 (l5_work 1) stale_world
stale-IsConnected = record {
  message_at = refl;
  reply_at = refl;
  mailbox_at = refl;
  rings = refl;
  num_1_staging = omega arith;
  mailbox_message = omega arith;
  mailbox_target = omega arith;
}

call-stale_example :
    (s' : World) × (call local_rdma all_tasks l5_client 6000 Bool.true (l5_work 1) stale_world
      ≡ finished s')
    × Same 3 s'.server 7000 stale_world.server 7000
    × (s'.server 6000 ≡ 1)
call-stale_example =
    call-stale local_rdma local_rdma-Reliable l5_client 6000 (l5_work 1) stale_world
      stale-IsConnected (l5-IsSendable 1) (l5-IsPlaced 1) refl (omega arith) (omega arith)
