-- ===== src/Examples/Tailwind.antt =====
-- A log of five entries of 8 bytes.
use model_test.Prelude.{◌+◌, ◌*◌}
use model_test.Rpc.Tailwind.{World, Call}

abbrev tailwind_call : Call
tailwind_call = record {
  local_addr = 300;
  length = 8;
  tailwind_head = 100;
  bases = λ i. 10000 + 5000 * i;
  buffers = record { request = 500; request_slot = 5000; response = 6000; response_slot = 700 };
  work = 900;
}

abbrev tailwind_world : World
tailwind_world = record { client = λ a. a; server = λ a. 9; buffer = 0 }
