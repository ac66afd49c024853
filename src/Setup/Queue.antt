-- ===== src/Setup/Queue.antt =====
-- What is held after a completion queue and a queue pair were to be made.
use model_test.Prelude.{◌+◌, ◌≤◌, ◌≡◌, Bool, true, false, arith}
use model_test.Setup.{
  Held, context_add_event_fd, context_del_event_fd, clean_hcq, clean_channel, clean_event_fd,
  cq_finish, cq_get, qp_create,
}
use model_test.Setup.Release.{IsReleased}

-- a completion queue more, with its struct, its channel and the channel's descriptor
pub record HasQueue (h h' : Held) : Type 0 where
  pub structs : h'.structs ≡ h.structs + 1
  pub event_data : h'.event_data ≡ h.event_data + 1
  pub fds : h'.fds ≡ h.fds + 1
  pub comp_channels : h'.comp_channels ≡ h.comp_channels + 1
  pub cqs : h'.cqs ≡ h.cqs + 1
  pub qps : h'.qps ≡ h.qps

abbrev pub IsQueued : (notify : Bool) → Held → Held × Bool → Type 0
IsQueued notify h (h', true) = HasQueue h h'
IsQueued notify h (h', false) =
    IsReleased h (record h' { cqs = h.cqs; comp_channels = h.comp_channels })
    × (notify ≡ true → h'.cqs ≡ h.cqs)
    × (h.cqs ≤ h'.cqs)
    × (h'.comp_channels + h.cqs ≡ h.comp_channels + h'.cqs)

-- dhmp_cq_get, whichever of its calls fail, either succeeds and then holds a completion queue
-- more with its struct, channel, descriptor and event data, or fails and then holds what was held
-- before, but for the event data of epoll and, only if ibv_req_notify_cq fails, perhaps
-- completion queues, each with its channel.
pub cq_get-IsQueued :
    (calloc channel nonblock alloc ctl cq notify : Bool) (h : Held)
    → IsQueued notify h (cq_get calloc channel nonblock alloc ctl cq notify h)
unfolding cq_get clean_hcq clean_channel clean_event_fd cq_finish context_add_event_fd
    context_del_event_fd
cq_get-IsQueued false channel nonblock alloc ctl cq notify h = ground arith
cq_get-IsQueued true false nonblock alloc ctl cq notify h = ground arith
cq_get-IsQueued true true false alloc ctl cq notify h = ground arith
cq_get-IsQueued true true true false ctl cq notify h = ground arith
cq_get-IsQueued true true true true false cq notify h = ground arith
cq_get-IsQueued true true true true true false notify h = ground arith
cq_get-IsQueued true true true true true true false h = ground arith
cq_get-IsQueued true true true true true true true h = ground arith

-- what a failed queue pair leaves behind
pub record IsLeft (h : Held) (r : Held × Bool) : Type 0 where
  pub failed : r.1 ≡ false
  pub structs : r.0.structs ≡ h.structs
  pub fds : r.0.fds ≡ h.fds + 1
  pub comp_channels : r.0.comp_channels ≡ h.comp_channels + 1
  pub cqs : r.0.cqs ≡ h.cqs + 1

-- When dhmp_cq_get has succeeded and then rdma_create_qp fails, dhmp_qp_create fails and, of the
-- struct, channel, descriptor and queue that were taken, releases only the struct.
pub qp_create-IsLeft :
    (h h' : Held) → IsQueued true h (h', true) → IsLeft h (qp_create false (h', true))
unfolding qp_create
qp_create-IsLeft h h' queue = ground arith
