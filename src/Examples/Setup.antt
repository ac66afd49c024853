-- ===== src/Examples/Setup.antt =====
-- The set-up of a transport whose second region cannot be registered, and of a completion queue.
use model_test.Prelude.{◌≡◌, true, false, ◌&&◌}
use model_test.Setup.{Held, transport_create, cq_get}
use model_test.Setup.Release.{IsDone, transport_create-IsDone}
use model_test.Setup.Queue.{IsQueued, cq_get-IsQueued}

abbrev nothing : Held
nothing = record {
  structs = 0;
  event_data = 0;
  fds = 0;
  event_channels = 0;
  comp_channels = 0;
  cqs = 0;
  qps = 0;
  regions = 0;
  registrations = 0;
}

transport_create-IsDone_example : IsDone false ((true && true) ≡ false) nothing (
    transport_create false
      (record {
        trans = true;
        create = true;
        nonblock = true;
        event_alloc = true;
        event_ctl = true;
        send_alloc = true;
        send_reg = true;
        recv_alloc = true;
        recv_reg = false;
      })
      nothing)
transport_create-IsDone_example =
    transport_create-IsDone false true true true true true true true true false nothing

cq_get-IsQueued_example :
    IsQueued false nothing (cq_get true true true true true true false nothing)
cq_get-IsQueued_example = cq_get-IsQueued true true true true true true false nothing
