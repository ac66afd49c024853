-- ===== src/Transport.antt =====
-- The states of a connection (`enum dhmp_transport_state`), in the order of the source.
use model_test.Prelude.{ℕ, Bool, true, false}

pub data TransportState : Type 0 where
  init listen connecting connected disconnected reconnect closed destroyed error : TransportState

-- the value of the enumerator
unfoldable pub state_number : TransportState → ℕ
state_number init = 0
state_number listen = 1
state_number connecting = 2
state_number connected = 3
state_number disconnected = 4
state_number reconnect = 5
state_number closed = 6
state_number destroyed = 7
state_number error = 8

-- `trans_state == DHMP_TRANSPORT_STATE_CONNECTED`
abbrev pub is_connected : TransportState → Bool
is_connected connected = true
is_connected _ = false
