-- ===== src/Examples/Scale.antt =====
-- ScaleRPC calls for one item of 32 bytes, the least that leaves room for a request of type 1.
use model_test.Prelude.{◌≡◌, refl, inl, List, [], ◌∷◌, ◌==◌, if◌then◌else◌, true, arith}
use model_test.Memory.{Memory, load}
use model_test.Memory.Laws.{Same-refl}
use model_test.Rdma.{finished}
use model_test.Rpc.Batch.Layout.{Item}
use model_test.Rpc.Scale.{ScaleClient, ScaleWork, World, record_size, model_7_scalable}
use model_test.Rpc.Scale.Request.{IsWork}
use model_test.Rpc.Scale.Answer.{paired}
use model_test.Rpc.Scale.Placed.{all_tasks, IsPlaced, Called}
use model_test.Rpc.Scale.Call.{model_7_scalable-Called}
use model_test.Examples.Network.{local_rdma, local_rdma-Reliable}

-- The arrays are at 1000 and 1100, and the registration of 3000 is at 4000.
abbrev scale_memory : Memory
scale_memory a =
    if a == 1000
    then 40
    else if a == 1100
    then 200
    else if a == 4016
    then 184
    else if a == 4017
    then 11
    else 0

abbrev scale_items : List Item
scale_items = record { globle = 40; local = 200 } ∷ []

abbrev scale_client : ScaleClient
scale_client = record { creq = 2000; cdata = 2500; sreq = 5000 }

abbrev pub scale_work : ScaleWork
scale_work = record {
  globle_addr = 1000;
  local_addr = 1100;
  length = 32;
  flag_write = 0;
  batch = 1;
  local_data = 3000;
  mr = 4000;
}

-- The call before a switch.
abbrev scale_world : World
scale_world = record { client = scale_memory; server = λ a. 9; context_swith = 100 }

scale-IsWork : IsWork scale_memory scale_client scale_work scale_items
unfolding load record_size
scale-IsWork = record {
  flag = inl refl;
  batch = refl;
  small = omega arith;
  length_64 = omega arith;
  items_64 = (omega arith, omega arith, tt);
  source = (refl, refl, Same-refl 32 scale_memory 200, omega arith, omega arith, omega arith, tt);
  source_data =
      (refl, refl, Same-refl 32 scale_memory 200, omega arith, omega arith, omega arith, tt);
  data_creq = omega arith;
  mr_data = omega arith;
  mr_creq = omega arith;
  registered = refl;
  room = omega arith;
  bytes_64 = omega arith;
  creq_64 = omega arith;
  sreq_64 = omega arith;
}

scale-IsPlaced : IsPlaced scale_client scale_work 5500 6000 scale_items
scale-IsPlaced = record {
  sreq_sdata = omega arith;
  slocal_sdata = omega arith;
  targets_sreq = (omega arith, tt);
  targets_sdata = (omega arith, tt);
  targets_slocal = (omega arith, tt);
  locals_cdata = (omega arith, tt);
}

model_7_scalable-Called_example :
    (s' : World) × (model_7_scalable local_rdma all_tasks scale_client
        (paired scale_client scale_work 5500 6000)
        scale_work
        true
        scale_world
      ≡ finished s')
    × Called scale_client scale_work 5500 6000 scale_items scale_world s'
    × (s'.context_swith ≡ 1)
model_7_scalable-Called_example =
    model_7_scalable-Called local_rdma local_rdma-Reliable scale_client scale_work 5500 6000
      scale_items scale-IsPlaced scale_world scale-IsWork true
      (record { silent = refl; valid_creq = omega arith; valid_data = omega arith })
