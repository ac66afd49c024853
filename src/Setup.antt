-- ===== src/Setup.antt =====
-- What the set-up of a transport holds and releases (dhmp_transport.c, dhmp_context.c): each function
-- with the outcomes of the calls that it makes, true for a success.
pub mod Release
pub mod Queue
use model_test.Prelude.{ℕ, ◌+◌, ◌-◌, Bool, true, false}
use model_test.Rdma.{Outcome, finished, exited, ◌>>=◌}

-- How many of each kind of resource the process holds: allocated structs, epoll's event data and
-- registered descriptors, event channels, completion channels and queues, queue pairs, regions of
-- memory, and registrations.
pub record Held : Type 0 where
  pub structs : ℕ
  pub event_data : ℕ
  pub fds : ℕ
  pub event_channels : ℕ
  pub comp_channels : ℕ
  pub cqs : ℕ
  pub qps : ℕ
  pub regions : ℕ
  pub registrations : ℕ

-- dhmp_context_add_event_fd: `malloc` of the event data, `epoll_ctl`
pub context_add_event_fd : (alloc ctl : Bool) → Held → Held × Bool
context_add_event_fd false ctl h = (h, false)
context_add_event_fd true false h = (record h { event_data = h.event_data + 1 - 1 }, false)
context_add_event_fd true true h =
    (record h { event_data = h.event_data + 1; fds = h.fds + 1 }, true)

-- dhmp_context_del_event_fd of a descriptor that is registered, or not; the event data stays.
pub context_del_event_fd : (added : Bool) → Held → Held
context_del_event_fd true h = record h { fds = h.fds - 1 }
context_del_event_fd false h = h

-- dhmp_memory_register: `nvm_malloc`, which clears the memory before it is tested for NULL and so ends
-- the process when there is none, and `ibv_reg_mr`
pub memory_register : (alloc reg : Bool) → Held → Outcome (Held × Bool)
memory_register false reg h = exited
memory_register true false h = finished (record h { regions = h.regions + 1 - 1 }, false)
memory_register true true h =
    finished (record h { regions = h.regions + 1; registrations = h.registrations + 1 }, true)

-- dhmp_event_channel_create: `rdma_create_event_channel`, both `fcntl`, and what
-- dhmp_context_add_event_fd calls, whose result it does not look at.
pub event_channel_create : (create nonblock alloc ctl : Bool) → Held → Held × Bool
event_channel_create false nonblock alloc ctl h = (h, false)
event_channel_create true false alloc ctl h =
    (record h { event_channels = h.event_channels + 1 - 1 }, false)
event_channel_create true true alloc ctl h =
    ((context_add_event_fd alloc ctl (record h { event_channels = h.event_channels + 1 })).0, true)

-- The outcomes of the calls of dhmp_transport_create.
pub record Outcomes : Type 0 where
  pub trans : Bool
  pub create : Bool
  pub nonblock : Bool
  pub event_alloc : Bool
  pub event_ctl : Bool
  pub send_alloc : Bool
  pub send_reg : Bool
  pub recv_alloc : Bool
  pub recv_reg : Bool

-- the labels of dhmp_transport_create that its errors lead to, each with what follows it
pub out : Held → Held
out h = record h { structs = h.structs - 1 }

pub out_event_channel : (added : Bool) → Held → Held
out_event_channel added h =
    let deleted = context_del_event_fd added h in
    out (record deleted { event_channels = deleted.event_channels - 1 })

pub out_send_mr : (added : Bool) → Held → Held
out_send_mr added h =
    out_event_channel added
      (record h { registrations = h.registrations - 1; regions = h.regions - 1 })

-- the rest of dhmp_transport_create after each call of a dhmp function, by its result
pub after_recv : (added : Bool) → Held × Bool → Outcome (Held × Bool)
after_recv added (h, true) = finished (h, true)
after_recv added (h, false) = finished (out_send_mr added h, false)

pub after_send : (o : Outcomes) (added : Bool) → Held × Bool → Outcome (Held × Bool)
after_send o added (h, true) = memory_register o.recv_alloc o.recv_reg h >>= after_recv added
after_send o added (h, false) = finished (out_event_channel added h, false)

-- whether the channel's descriptor is registered with epoll
pub is_added : (alloc ctl : Bool) → Bool
is_added true true = true
is_added true false = false
is_added false ctl = false

pub after_channel : (is_listen : Bool) (o : Outcomes) → Held × Bool → Outcome (Held × Bool)
after_channel true o (h, true) = finished (h, true)
after_channel false o (h, true) =
    memory_register o.send_alloc o.send_reg h >>= after_send o (is_added o.event_alloc o.event_ctl)
after_channel is_listen o (h, false) = finished (out h, false)

-- dhmp_transport_create
pub transport_alloc : (trans is_listen : Bool) → Outcomes → Held → Outcome (Held × Bool)
transport_alloc false is_listen o h = finished (h, false)
transport_alloc true is_listen o h = after_channel is_listen o (
    event_channel_create o.create o.nonblock o.event_alloc o.event_ctl
      (record h { structs = h.structs + 1 }))

pub transport_create : (is_listen : Bool) → Outcomes → Held → Outcome (Held × Bool)
transport_create is_listen o h = transport_alloc o.trans is_listen o h

-- dhmp_cq_get behind `calloc`, by the outcomes of ibv_create_comp_channel, both `fcntl`,
-- dhmp_context_add_event_fd, ibv_create_cq and ibv_req_notify_cq
pub clean_hcq : Held → Held
clean_hcq h = record h { structs = h.structs - 1 }

-- `used` says whether a completion queue still refers to the channel: `ibv_destroy_comp_channel`, whose
-- result is not looked at, then fails, and the channel stays.
pub clean_channel : (used : Bool) → Held → Held
clean_channel true h = clean_hcq h
clean_channel false h = clean_hcq (record h { comp_channels = h.comp_channels - 1 })

pub clean_event_fd : (used : Bool) → Held → Held
clean_event_fd used h = clean_channel used (context_del_event_fd true h)

pub cq_finish : (cq notify : Bool) → Held × Bool → Held × Bool
cq_finish cq notify (h, false) = (clean_channel false h, false)
cq_finish false notify (h, true) = (clean_event_fd false h, false)
cq_finish true false (h, true) = (clean_event_fd true (record h { cqs = h.cqs + 1 }), false)
cq_finish true true (h, true) = (record h { cqs = h.cqs + 1 }, true)

pub cq_get : (calloc channel nonblock alloc ctl cq notify : Bool) → Held → Held × Bool
cq_get false channel nonblock alloc ctl cq notify h = (h, false)
cq_get true false nonblock alloc ctl cq notify h =
    (clean_hcq (record h { structs = h.structs + 1 }), false)
cq_get true true false alloc ctl cq notify h = (
  clean_channel false (record h { structs = h.structs + 1; comp_channels = h.comp_channels + 1 }),
  false,
)
cq_get true true true alloc ctl cq notify h = cq_finish cq notify (
    context_add_event_fd alloc ctl
      (record h { structs = h.structs + 1; comp_channels = h.comp_channels + 1 }))

-- dhmp_qp_create behind dhmp_cq_get, by the outcome of rdma_create_qp
pub qp_create : (qp : Bool) → Held × Bool → Held × Bool
qp_create qp (h, false) = (h, false)
qp_create true (h, true) = (record h { qps = h.qps + 1 }, true)
qp_create false (h, true) = (record h { structs = h.structs - 1 }, false)
