-- ===== src/Examples/Message.antt =====
-- A message of four bytes at the start of the send region, and the receive region.
use model_test.Prelude.{◌≡◌, refl, inl, true, false, some, arith}
use model_test.Memory.{Memory, memcpy}
use model_test.Memory.Laws.{Same-memcpy_in}
use model_test.Message.{
  DhmpMr, DhmpMsg, DhmpSge, send_pos, send_task_create, build_send, read_message, message_cxt,
}
use model_test.Message.Frame.{
  IsSent, send_task_create-IsSent, IsTyped, IsRead, read_message-send_task_create,
}

abbrev region : DhmpMr
region = record { cur_pos = 0; addr = 10000 }

abbrev four_bytes : DhmpMsg
four_bytes = record { msg_type = 3; data_size = 4; payload = 100 }

abbrev sender : Memory
sender a = 7

send_task_create-IsSent_example :
    (sge : DhmpSge) × (mr' : DhmpMr) × (m' : Memory) × IsSent region sender four_bytes sge mr' m'
send_task_create-IsSent_example =
    send_task_create-IsSent region sender four_bytes (omega arith) (omega arith)

abbrev task : DhmpSge
task = record { addr = 10000; length = 16 }

abbrev next_region : DhmpMr
next_region = record { cur_pos = 16; addr = 10000 }

abbrev sent : Memory
sent = build_send sender 10000 four_bytes

task_made : send_task_create true region sender four_bytes ≡ some (task, next_region, sent)
unfolding send_task_create send_pos
task_made = refl

four_bytes-IsTyped : IsTyped four_bytes
four_bytes-IsTyped = record { msg_type = omega arith; data_size = omega arith }

abbrev receiver : Memory
receiver = memcpy (λ a. 0) 500 sent 10000 16

read_message-send_task_create_example :
    IsRead (read_message false receiver 500) receiver sender four_bytes
unfolding message_cxt
read_message-send_task_create_example =
    read_message-send_task_create false region sender four_bytes task next_region sent receiver 500
      four_bytes-IsTyped task_made (inl (omega arith)) (Same-memcpy_in (λ a. 0) 500 sent 10000 16)
