-- ===== src/Examples/Exchange.antt =====
-- Set-ups of L5 for requests of 8 bytes.
use model_test.Prelude.{
  ℕ, zero, suc, ◌+◌, refl, inl, false, ◌==◌, if◌then◌else◌, Option, none, some, [], arith,
}
use model_test.Memory.{Memory}
use model_test.Client.Slots.{new_slots}
use model_test.Rpc.Alloc.{for_l5}
use model_test.Rpc.L5.{L5Work}
use model_test.Rpc.L5
use model_test.Exchange.{Mr, Ring, Node, Server, Client, World}
use model_test.Exchange.Paired.{SetUp, exchange-IsPaired}

abbrev mr_at : ℕ → ℕ → Mr
mr_at a n = record { addr = a; length = n }

abbrev no_mr : Mr
no_mr = mr_at 0 0

abbrev new_node : Node
new_node = record {
  l5 = record { mr = no_mr; c_mr = no_mr; reply_smr = no_mr };
  tailwind = record { addr = none; mr = no_mr; flush2_mr = no_mr };
  rfp = record { write_mr = no_mr; read_mr = no_mr; time = 0; size = 0 };
  scale = record {
    sreq_mr = no_mr;
    sdata_mr = no_mr;
    cdata_mr = no_mr;
    slocal_mr = no_mr;
    size = 0;
  };
  farm = record { c_mr = no_mr; s_mr = no_mr; size = 0 };
  herd = record { s_mr = no_mr; size = 0 };
  octo = record { c_mr = no_mr; local_mr = no_mr; s_mr = no_mr };
  recv_mr = mr_at 90000 1000;
  nvm_used_size = 0;
}

abbrev new_server : Option Mr → Server
new_server mailbox = record { mailbox = mailbox; read_mr = none; nodes = λ k. new_node; held = [] }

abbrev new_ring : Ring
new_ring = record { s_mr = no_mr; size = 0; slots = new_slots }

abbrev new_client : Client
new_client = record {
  local_mr = mr_at 1200 100;
  cdata_mr = mr_at 2000 100;
  farm_c_mr = mr_at 2200 100;
  octo_c_mr = mr_at 2400 100;
  l5_mailbox = no_mr;
  l5_message = no_mr;
  l5_num_1 = 0;
  tailwind_mr = no_mr;
  read_mr_for_sflush = no_mr;
  rfp_write = no_mr;
  rfp_read = no_mr;
  rfp_time = 0;
  sreq_mr = no_mr;
  context_swith = 0;
  farm = new_ring;
  herd = new_ring;
  octo_s_mr = no_mr;
  recv_flag = λ x. false;
}

abbrev new_world : World
new_world = record { client = new_client; server = new_server none }

-- the allocations: 4000, 4100, 4200, …
abbrev supply : ℕ → ℕ
supply zero = 4000
supply (suc i) = 100 + supply i

-- The reply byte, at 1201, is 0.
abbrev five : Memory
five a = if a == 1201 then 0 else 5

abbrev eight_bytes : L5Work
eight_bytes = record { local_addr = 100; length = 8; dhmp_addr = 7000; flag_write = 1 }

exchange-IsPaired_example : SetUp supply no_mr no_mr 3 4 0 8 900 new_world (omega arith) for_l5
exchange-IsPaired_example =
    exchange-IsPaired supply no_mr no_mr 3 4 0 8 900 new_world (omega arith) for_l5 (λ e. inl refl)

-- The client of node 2, set up before.
abbrev known_client : Client
known_client = record new_client {
  l5_mailbox = mr_at 6002 3;
  l5_message = mr_at 5000 26;
  l5_num_1 = 1;
}

abbrev known_world : World
known_world = record { client = new_client; server = new_server (some (mr_at 6000 3)) }
