-- ===== src/Examples/Slots.antt =====
-- Four slots: two requests, and the reply to the first.
use model_test.Prelude.{ℕ, ◌≡◌, refl, true, false, some, [], if◌then◌else◌, ◌==◌, arith}
use model_test.Transport.{TransportState}
use model_test.Client.{WorkType, Work, work, Client, list_add_tail, queued, l5_work}
use model_test.Client.Slots.{Slots, new_slots, take_slot, free_slot, submit_with_slot}
use model_test.Client.Slots.Ring.{is_taken, IsRing, start, take, reply, Reachable-IsRing}
use model_test.Client.Slots.Submit.{submit_with_slot-IsRing}

abbrev one_out : Slots
one_out = record { is_available = λ i. if i == 0 then 0 else 1; scur = 1; ccur = 0 }

abbrev two_out : Slots
two_out = record {
  is_available = λ i. if i == 1 then 0 else one_out.is_available i;
  scur = 2;
  ccur = 0;
}

first_taken : take_slot true 4 new_slots ≡ some (0, one_out)
unfolding take_slot new_slots
first_taken = refl

second_taken : take_slot true 4 one_out ≡ some (1, two_out)
unfolding take_slot
second_taken = refl

four_slots-IsRing : IsRing 4 new_slots 0
four_slots-IsRing = Reachable-IsRing (omega arith) start

Reachable-IsRing_example : IsRing 4 (free_slot true 4 two_out) 1
Reachable-IsRing_example =
    Reachable-IsRing (omega arith) (reply (take (take start first_taken) second_taken))

abbrev connected_client : Client
connected_client = record { connect_trans = some TransportState.connected; work_list = [] }

abbrev herd_work : ℕ → Work
herd_work cur = work WorkType.herd (l5_work 100 8 7000 1 (some cur))

submit_with_slot-IsRing_example :
    (s' : Slots) × (submit_with_slot true true 4 herd_work (new_slots, connected_client)
      ≡ some (
        (s', list_add_tail connected_client (herd_work new_slots.scur)),
        queued (herd_work new_slots.scur),
      ))
    × (is_taken 4 new_slots.ccur 0 new_slots.scur ≡ false)
    × IsRing 4 s' 1
submit_with_slot-IsRing_example =
    submit_with_slot-IsRing 4 herd_work new_slots connected_client 0 refl four_slots-IsRing
      (omega arith)
