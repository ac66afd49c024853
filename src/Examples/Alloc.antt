-- ===== src/Examples/Alloc.antt =====
-- The buffers of calls of 32 bytes.
use model_test.Prelude.{◌+◌, ◌≤◌, ◌<◌, ◌≡◌, ◌⊎◌, inl, refl, true, arith}
use model_test.Rpc.L5
use model_test.Rpc.Rfp
use model_test.Rpc.L5.{L5Work, message_size}
use model_test.Rpc.Rfp.{RfpWork, head_size}
use model_test.Rpc.Scale.{request_at, request_size}
use model_test.Rpc.Alloc.{
  allocspace, for_l5, for_rfp, for_scale, buffer, allocspace-holds, request-Bounds,
}
use model_test.Examples.Scale.{scale_work}

abbrev full_l5 : L5Work
full_l5 = record { local_addr = 100; length = 32; dhmp_addr = 7000; flag_write = 1 }

abbrev full_rfp : RfpWork
full_rfp = record { local_addr = 100; length = 32; is_write = true; dhmp_addr = 7000 }

allocspace-holds_example :
    (message_size full_l5 ≤ buffer for_l5 4 32 0)
    × (L5.reply_size 1 32 ≤ buffer for_l5 4 32 1)
    × (0 + head_size full_rfp ≤ buffer for_rfp 4 32 0)
    × (Rfp.reply_size full_rfp ≤ buffer for_rfp 4 32 1)
allocspace-holds_example = allocspace-holds full_l5 full_rfp 4 32 (omega arith) (omega arith) refl

request-Bounds_example :
    (request_at 5000 2 scale_work + request_size 2 scale_work ≡ 5000 + buffer for_scale 4 32 0)
    × (5000 ≤ request_at 5000 2 scale_work)
    × (request_at 5000 1 scale_work + request_size 1 scale_work ≡ 5000 + buffer for_scale 4 32 0)
    × (((32 ≤ 32) × (5000 ≤ request_at 5000 1 scale_work))
        ⊎ ((32 < 32) × (request_at 5000 1 scale_work < 5000)))
unfolding allocspace
request-Bounds_example =
    request-Bounds scale_work 4 5000 (inl refl) refl (omega arith) (omega arith)
