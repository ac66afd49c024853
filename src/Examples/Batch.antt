-- ===== src/Examples/Batch.antt =====
-- Batched calls for two items of three bytes.
use model_test.Prelude.{
  ℕ, ◌≡◌, ◌≢◌, refl, ◌+◌, ◌<◌, ◌≤◌, ◌⊎◌, List, [], ◌∷◌, ◌==◌, if◌then◌else◌, arith,
}
use model_test.Memory.{Memory, load}
use model_test.Memory.Laws.{Same-refl}
use model_test.Rdma.{finished}
use model_test.Rpc.Batch.{
  BatchWork, Buffers, World, batch_size, response_size, entry_size, response_data,
}
use model_test.Rpc.Batch.Layout.{Item}
use model_test.Rpc.Batch.Serve.{put_all, IsGathered}
use model_test.Rpc.Batch.Request.{IsWork, reply_bytes}
use model_test.Rpc.Batch.Take.{take_all}
use model_test.Rpc.Batch.Call.{darpc, fasst, run, IsPlaced, IsTaken, batch_write, batch_read}
use model_test.Examples.Network.{local_rdma, local_rdma-Reliable}

-- The arrays are at 1000 and 1100, the buffers at 200 and 210.
abbrev batch_memory : Memory
batch_memory a =
    if a == 1000
    then 40
    else if a == 1008
    then 60
    else if a == 1100
    then 200
    else if a == 1108
    then 210
    else if a == 200
    then 5
    else 0

abbrev batch_items : List Item
batch_items = record { globle = 40; local = 200 } ∷ record { globle = 60; local = 210 } ∷ []

abbrev batch_work : ℕ → BatchWork
batch_work flag = record {
  globle_addr = 1000;
  local_addr = 1100;
  length = 3;
  flag_write = flag;
  batch = 2;
  work = 900;
}

abbrev batch_buffers : Buffers
batch_buffers = record {
  request = 2000;
  request_slot = 3000;
  response = 4000;
  response_slot = 5000;
}

abbrev batch_world : World
batch_world = record { client = batch_memory; server = λ a. 9 }

batch-IsWork : (flag : ℕ) → flag < 2 → IsWork batch_memory (batch_work flag) 2000 batch_items
unfolding load entry_size
batch-IsWork flag h = record {
  batch = refl;
  length_64 = omega arith;
  array_64 = omega arith;
  work_64 = omega arith;
  items_64 = (omega arith, (omega arith, tt));
  source = (
    refl,
    refl,
    Same-refl 3 batch_memory 200,
    omega arith,
    omega arith,
    omega arith,
    (refl, refl, Same-refl 3 batch_memory 210, omega arith, omega arith, omega arith, tt),
  );
}

batch-IsPlaced : (flag : ℕ) → flag < 2 → IsPlaced batch_buffers (batch_work flag) batch_items
unfolding entry_size
batch-IsPlaced flag h = record {
  slot_response = grind arith;
  targets_slot = (grind arith, (grind arith, tt));
  targets_response = (grind arith, (grind arith, tt));
}

batch-IsTaken : IsTaken batch_buffers (batch_work 0) batch_items
unfolding entry_size
batch-IsTaken = record {
  fits = omega arith;
  buffers_data = (omega arith, (omega arith, tt));
  buffers_reply = (omega arith, (omega arith, tt));
  buffers_array = (omega arith, (omega arith, tt));
  request_data = omega arith;
  array_request = omega arith;
  array_slot = omega arith;
}

batch_write_example :
    (s' : World) × (run darpc local_rdma batch_buffers (batch_work 1) batch_world ≡ finished s')
    × (s'.client 924 ≡ 1)
    × ((x : ℕ)
        → (x < 3000) ⊎ (3000 + batch_size (batch_work 1) ≤ x)
        → (x < 4000) ⊎ (4000 + response_size ≤ x)
        → s'.server x ≡ put_all batch_memory 3 batch_items (λ a. 9) x)
    × ((x : ℕ)
        → (x < 2000) ⊎ (2000 + batch_size (batch_work 1) ≤ x)
        → (x < 5000) ⊎ (5000 + response_size ≤ x)
        → x ≢ 925
        → x ≢ 924
        → s'.client x ≡ batch_memory x)
batch_write_example =
    batch_write local_rdma local_rdma-Reliable batch_buffers (batch_work 1) batch_items
      (batch-IsPlaced 1 (omega arith)) (omega arith) batch_world (batch-IsWork 1 (omega arith))
      darpc (record { silent = refl; flag_request = omega arith }) refl

batch_read_example :
    (s' : World) × (run fasst local_rdma batch_buffers (batch_work 0) batch_world ≡ finished s')
    × (s'.client 933 ≡ 1)
    × IsGathered (λ a. 9) s'.server 3 (4000 + response_size) batch_items
    × ((x : ℕ)
        → (x < 2000) ⊎ (2000 + batch_size (batch_work 0) ≤ x)
        → (x < 5000) ⊎ (5000 + reply_bytes (batch_work 0) ≤ x)
        → x ≢ 932
        → x ≢ 933
        → s'.client x ≡ take_all batch_memory 3 (response_data 5000) batch_items batch_memory x)
batch_read_example =
    batch_read local_rdma local_rdma-Reliable batch_buffers (batch_work 0) batch_items
      (batch-IsPlaced 0 (omega arith)) (omega arith) batch_world (batch-IsWork 0 (omega arith))
      fasst (record { silent = refl; flag_request = omega arith }) refl batch-IsTaken
