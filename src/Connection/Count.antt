-- ===== src/Connection/Count.antt =====
-- The server's table of connections through its events: how many there are, and which pointer each
-- node id leads to.
use model_test.Prelude.{
  ℕ, ◌+◌, ◌≡◌, ◌<◌, ◌≤◌, refl, Bool, true, false, Option, none, some, List, [], ◌∷◌, length,
  length-append, arith,
}
use model_test.Transport.{TransportState}
use model_test.Connection.{
  client_node_num, Transport, Process, list_del, is_listed, enlist, accepted, delist, destroyed,
  on_cm_connect_request, on_cm_established, on_cm_disconnected, on_cm_error, CmEvent,
  connect_request, established, disconnected, connect_error, other, handle_ec_event,
}

length-list_del :
    (xs : List ℕ) (t : ℕ) → is_listed xs t ≡ true → length (list_del xs t) + 1 ≡ length xs
unfolding list_del is_listed
length-list_del [] t h = absurd (ground (arith, h))
length-list_del (x ∷ xs) t h = ground (arith, length-list_del xs t)

-- The events as librdmacm delivers them to the server: requests, while there is room in
-- connect_trans, and for a listed transport that its
-- connection is up or, once, that it has ended.
pub data IsDelivered (p : Process) : CmEvent → ℕ → Type 0 where
  request :
      (created : Option ℕ) (qp accept : Bool) (addr peer node t : ℕ)
      → p.cur_connections < client_node_num
      → IsDelivered p (connect_request created qp accept addr peer node) t
  ready : (addr t : ℕ) → is_listed p.client_list t ≡ true → IsDelivered p (established addr) t
  ended : (t : ℕ) → is_listed p.client_list t ≡ true → IsDelivered p disconnected t
  broken : (t : ℕ) → is_listed p.client_list t ≡ true → IsDelivered p connect_error t
  ignored : (t : ℕ) → IsDelivered p other t

pub data Reachable : Process → Type 0 where
  start :
      (transport : ℕ → Transport) (connect_trans : ℕ → Option ℕ)
      → Reachable (record {
        transport = transport;
        is_server = true;
        cur_connections = 0;
        client_num = 0;
        connect_trans = connect_trans;
        client_list = [];
        stop = false;
      })
  step :
      {p : Process} {e : CmEvent} {t : ℕ}
      → Reachable p
      → IsDelivered p e t
      → Reachable (handle_ec_event e p t).0

-- `cur_connections` counts the list.
pub record IsCounted (p : Process) : Type 0 where
  pub is_server : p.is_server ≡ true
  pub count : p.cur_connections ≡ length p.client_list
  pub room : p.cur_connections ≤ client_node_num

request-IsCounted :
    (p : Process) (created : Option ℕ) (qp accept : Bool) (addr peer node : ℕ)
    → p.cur_connections < client_node_num
    → IsCounted p
    → IsCounted (on_cm_connect_request created qp accept addr peer node p).0
unfolding on_cm_connect_request enlist accepted
request-IsCounted p none qp accept addr peer node room c = c
request-IsCounted p (some t) false accept addr peer node room c = c
request-IsCounted p (some t) true true addr peer node room c = record {
  is_server = c.is_server;
  count = omega (arith, c.count, length-append p.client_list (t ∷ []));
  room = omega (arith, room);
}
request-IsCounted p (some t) true false addr peer node room c = record {
  is_server = c.is_server;
  count = omega (arith, c.count, length-append p.client_list (t ∷ []));
  room = omega (arith, room);
}

delist-IsCounted :
    (p : Process) (t : ℕ) (s : TransportState)
    → is_listed p.client_list t ≡ true
    → IsCounted p
    → IsCounted (delist (destroyed p t s) t)
unfolding delist destroyed
delist-IsCounted p t s h c = record {
  is_server = ground (arith, c.is_server);
  count = ground (arith, c.is_server, c.count, length-list_del p.client_list t h);
  room = ground (arith, c.is_server, c.room);
}

Step-IsCounted :
    {p : Process} {e : CmEvent} {t : ℕ}
    → IsCounted p
    → IsDelivered p e t
    → IsCounted (handle_ec_event e p t).0
unfolding handle_ec_event on_cm_established on_cm_disconnected on_cm_error
Step-IsCounted {p} c (request n q a d x y t room) = request-IsCounted p n q a d x y room c
Step-IsCounted c (ready addr t h) = record {
  is_server = c.is_server;
  count = c.count;
  room = c.room;
}
Step-IsCounted {p} c (ended t h) = delist-IsCounted p t TransportState.disconnected h c
Step-IsCounted {p} c (broken t h) = delist-IsCounted p t TransportState.error h c
Step-IsCounted c (ignored t) = c

-- Whatever connection events the server has handled, in any order and with any failures of the
-- library's calls, but with at most one end for a listed transport and no connection request when
-- there are DHMP_CLIENT_NODE_NUM connections, cur_connections is the number of the listed
-- transports, at most DHMP_CLIENT_NODE_NUM.
pub Reachable-IsCounted : {p : Process} → Reachable p → IsCounted p
Reachable-IsCounted (start transport connect_trans) = record {
  is_server = refl;
  count = refl;
  room = omega arith;
}
Reachable-IsCounted (step r d) = Step-IsCounted (Reachable-IsCounted r) d
