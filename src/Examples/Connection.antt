-- ===== src/Examples/Connection.antt =====
-- Two clients of the server, the first of which leaves before a third comes.
use model_test.Prelude.{ℕ, ◌≡◌, refl, true, false, none, some, [], ◌∷◌, ◌==◌, if◌then◌else◌, arith}
use model_test.Transport.{TransportState}
use model_test.Connection.{
  Transport, Process, is_listed, on_cm_connect_request, on_cm_disconnected, connect_request,
  handle_ec_event,
}
use model_test.Connection.Count.{start, step, request, IsCounted, Reachable-IsCounted}
use model_test.Connection.Routes.{IsRouted, request-IsRouted, Collides, reconnect-Collides}

abbrev blank : ℕ → Transport
blank t = record {
  peer_addr = 0;
  node_id = 0;
  trans_state = TransportState.init;
  is_poll_qp = false;
  has_qp = false;
}

abbrev new_server : Process
new_server = record {
  transport = blank;
  is_server = true;
  cur_connections = 0;
  client_num = 0;
  connect_trans = λ i. none;
  client_list = [];
  stop = false;
}

-- a request that is accepted, with the pointer 100
Reachable-IsCounted_example :
    IsCounted (handle_ec_event (connect_request (some 100) true true 1 0 0) new_server 5).0
Reachable-IsCounted_example =
    Reachable-IsCounted
      (step (start blank (λ i. none)) (request (some 100) true true 1 0 0 5 (omega arith)))

none_listed : is_listed [] 100 ≡ false
unfolding is_listed
none_listed = refl

new_server-IsRouted : IsRouted new_server
unfolding is_listed
new_server-IsRouted = record { route = λ t h. absurd (ground (arith, h)) }

request-IsRouted_example : IsRouted (on_cm_connect_request (some 100) true true 1 0 0 new_server).0
request-IsRouted_example =
    request-IsRouted new_server 100 true true 1 0 0 none_listed (omega arith) new_server-IsRouted

-- node ids 0 and 1, at the pointers 100 and 200
abbrev two_clients : Process
two_clients = record new_server {
  transport = λ t. record (blank t) { node_id = if t == 200 then 1 else 0 };
  cur_connections = 2;
  client_num = 2;
  connect_trans = λ i. if i == 0 then some 100 else some 200;
  client_list = 100 ∷ 200 ∷ [];
}

second_listed : is_listed (100 ∷ 200 ∷ []) 200 ≡ true
unfolding is_listed
second_listed = refl

reconnect-Collides_example :
    Collides
      (on_cm_connect_request (some 300) true true 3 0 0 (on_cm_disconnected two_clients 100).0).0
      200
      300
reconnect-Collides_example =
    reconnect-Collides two_clients 100 200 300 3 0 0 refl (λ e. absurd (omega (arith, e)))
      (λ e. absurd (omega (arith, e))) second_listed refl
