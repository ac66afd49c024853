-- ===== src/Connection.antt =====
-- The connection manager's events (dhmp_transport.c, from on_cm_addr_resolved to
-- dhmp_handle_ec_event) and the server's table of connections. The results of librdmacm's calls are
-- arguments of the handlers.
pub mod Count
pub mod Routes
use model_test.Prelude.{
  ℕ, ◌+◌, ◌-◌, Bool, true, false, Option, none, some, List, [], ◌∷◌, ◌++◌, if◌then◌else◌, ◌==◌,
  ◌||◌,
}
use model_test.Transport.{TransportState}

-- `struct dhmp_transport`, less what the verbs library owns: the peer's address and its memory
-- regions' and queue pair's presence
pub record Transport : Type 0 where
  pub peer_addr : ℕ
  pub node_id : ℕ
  pub trans_state : TransportState
  pub is_poll_qp : Bool
  pub has_qp : Bool

-- DHMP_CLIENT_NODE_NUM, how many entries `server->connect_trans` has
abbrev pub client_node_num : ℕ
client_node_num = 3

-- The transports of a process by pointer, and the fields of `server` (`is_server` is
-- `server != NULL`) and `ctx.stop`.
pub record Process : Type 0 where
  pub transport : ℕ → Transport
  pub is_server : Bool
  pub cur_connections : ℕ
  pub client_num : ℕ
  pub connect_trans : ℕ → Option ℕ
  pub client_list : List ℕ
  pub stop : Bool

abbrev pub set_transport : Process → ℕ → Transport → Process
set_transport p t v = record p { transport = λ x. if x == t then v else p.transport x }

abbrev pub set_state : Process → ℕ → TransportState → Process
set_state p t s = set_transport p t (record (p.transport t) { trans_state = s })

-- `list_del` of the entry that `t` is linked by
pub list_del : List ℕ → ℕ → List ℕ
list_del [] t = []
list_del (x ∷ xs) t = if x == t then xs else x ∷ list_del xs t

-- whether the list holds `t`
unfoldable pub is_listed : List ℕ → ℕ → Bool
is_listed [] t = false
is_listed (x ∷ xs) t = x == t || is_listed xs t

-- on_cm_addr_resolved: the result of `rdma_resolve_route`
abbrev pub on_cm_addr_resolved : (resolved : Bool) → Process → ℕ → Process × Bool
on_cm_addr_resolved resolved p t = (p, resolved)

-- on_cm_route_resolved: `qp` and `connect` are whether the queue pair is made and `rdma_connect`
-- succeeds.
abbrev pub on_cm_route_resolved : (qp connect : Bool) → Process → ℕ → Process × Bool
on_cm_route_resolved false connect p t = (p, false)
on_cm_route_resolved true true p t =
    (set_transport p t (record (p.transport t) { has_qp = true }), true)
on_cm_route_resolved true false p t = (
  record (set_transport p t
      (record (p.transport t) { has_qp = false; trans_state = TransportState.error })) {
        stop = true;
      },
  false,
)

-- dhmp_is_exist_connection
abbrev pub is_exist_connection : (ℕ → Transport) → List ℕ → ℕ → Bool
is_exist_connection transport [] addr = false
is_exist_connection transport (x ∷ xs) addr =
    (transport x).peer_addr == addr || is_exist_connection transport xs addr

-- The server's bookkeeping for the new transport, before `rdma_accept`: what the code does as long as
-- cur_connections is below client_node_num. It does not look, and otherwise writes behind the array.
pub enlist : Process → ℕ → Transport → Process
enlist p t v = record (set_transport p t (record v { node_id = p.cur_connections })) {
  cur_connections = p.cur_connections + 1;
  connect_trans = λ i. if i == p.cur_connections then some t else p.connect_trans i;
  client_list = p.client_list ++ (t ∷ []);
}

-- after a successful `rdma_accept`
pub accepted : Process → ℕ → Process
accepted p t = set_state (record p { client_num = p.client_num + 1 }) t TransportState.connecting

-- on_cm_connect_request for a peer at `addr`: `created` is what `malloc` and the registrations of
-- dhmp_transport_create give, the new transport's pointer, or NULL; `peer` and `node` are what its
-- memory holds in the fields that it leaves unset.
pub on_cm_connect_request :
    (created : Option ℕ) (qp accept : Bool) (addr peer node : ℕ) → Process → Process × Bool
on_cm_connect_request none qp accept addr peer node p = (p, false)
on_cm_connect_request (some t) false accept addr peer node p = (p, false)
on_cm_connect_request (some t) true accept addr peer node p =
    let made = enlist p t (record {
      peer_addr = peer;
      node_id = node;
      trans_state = TransportState.init;
      is_poll_qp = is_exist_connection p.transport p.client_list addr;
      has_qp = true;
    }) in
    if accept then (accepted made t, true) else (made, false)

pub on_cm_established : (addr : ℕ) → Process → ℕ → Process × Bool
on_cm_established addr p t = (
  set_transport p t
      (record (p.transport t) { peer_addr = addr; trans_state = TransportState.connected }),
  true,
)

-- What on_cm_disconnected and on_cm_error do to the server's table, if there is a server.
pub delist : Process → ℕ → Process
delist p t =
    if p.is_server
    then record p {
      cur_connections = p.cur_connections - 1;
      client_list = list_del p.client_list t;
    }
    else p

-- dhmp_destroy_source, and the state that the handler sets behind it
pub destroyed : Process → ℕ → TransportState → Process
destroyed p t s = set_transport p t (record (p.transport t) { has_qp = false; trans_state = s })

pub on_cm_disconnected : Process → ℕ → Process × Bool
on_cm_disconnected p t = (delist (destroyed p t TransportState.disconnected) t, true)

pub on_cm_error : Process → ℕ → Process × Bool
on_cm_error p t = (delist (destroyed p t TransportState.error) t, true)

-- the events, with what the library's calls will give
pub data CmEvent : Type 0 where
  addr_resolved : (resolved : Bool) → CmEvent
  route_resolved : (qp connect : Bool) → CmEvent
  connect_request : (created : Option ℕ) (qp accept : Bool) (addr peer node : ℕ) → CmEvent
  established : (addr : ℕ) → CmEvent
  disconnected : CmEvent
  connect_error : CmEvent
  other : CmEvent

-- dhmp_handle_ec_event for the transport `event->id->context`
pub handle_ec_event : CmEvent → Process → ℕ → Process × Bool
handle_ec_event (addr_resolved r) p t = on_cm_addr_resolved r p t
handle_ec_event (route_resolved q c) p t = on_cm_route_resolved q c p t
handle_ec_event (connect_request n q a d x y) p t = on_cm_connect_request n q a d x y p
handle_ec_event (established d) p t = on_cm_established d p t
handle_ec_event disconnected p t = on_cm_disconnected p t
handle_ec_event connect_error p t = on_cm_error p t
handle_ec_event other p t = (p, false)
