-- ===== src/Examples/Farm.antt =====
-- A write of 8 bytes of FaRM with four slots.
use model_test.Prelude.{ℕ, ◌≡◌, ◌≢◌, Bool, true, false, arith, if◌then◌else◌, ◌==◌}
use model_test.Client.Slots.{Slots, new_slots}
use model_test.Rpc.Farm.{FarmClient, FarmServer, World, valid_of}
use model_test.Rpc.Farm.Ring.{put}

abbrev farm_client : FarmClient
farm_client = record { s_mr = 5000; c_mr = 2000; size = 8 }

abbrev farm_server : FarmServer
farm_server = record { s_mr = 5000; c_mr = 2000; local_mr = 6000; size = 8 }

abbrev farm_world : World
farm_world = record { client = λ a. 0; server = λ a. 0; slots = new_slots; pos = 0 }

abbrev taken_slots : Slots
taken_slots = record { is_available = λ i. if i == 0 then 0 else 1; scur = 1; ccur = 0 }

abbrev taken_world : World
taken_world = record farm_world { slots = taken_slots }

abbrev one_waits : ℕ → Bool
one_waits = put (λ i. false) 0 true

-- The valid byte of slot 0 is set, as the write of a request does.
abbrev sent_world : World
sent_world = record taken_world { server = λ a. if a == 5033 then 1 else 0 }

abbrev none_waits : ℕ → Bool
none_waits = put one_waits 0 false

other_valid : (i : ℕ) → i ≢ 0 → (valid_of farm_server i == 5033) ≡ false
other_valid i h = ground arith
