-- ===== src/Examples/Client.antt =====
-- A client that is connected, writes and closes while the worker thread takes the write.
use model_test.Prelude.{true, some, []}
use model_test.Transport.{TransportState}
use model_test.Client.{Client}
use model_test.Client.Calls.{dhmp_write, dhmp_close_connection}
use model_test.Client.History.{
  write, close, History, log_call, log_take, take_first, call, take, Reachable, start, step, IsFifo,
  Reachable-IsFifo,
}

abbrev idle_client : Client
idle_client = record { connect_trans = some TransportState.connected; work_list = [] }

abbrev first_history : History
first_history = record { client = idle_client; accepted = []; taken = [] }

-- a write is queued
abbrev second_history : History
second_history = log_call first_history (dhmp_write true 7000 100 16 idle_client)

-- the worker takes it
abbrev third_history : History
third_history = log_take second_history (take_first second_history.client)

-- the connection is to be closed
abbrev fourth_history : History
fourth_history = log_call third_history (dhmp_close_connection true third_history.client)

one_run : Reachable fourth_history
unfolding dhmp_write dhmp_close_connection
one_run =
    step
      (step
        (step (start (some TransportState.connected))
          (call (dhmp_write true 7000 100 16 idle_client) (write true 7000 100 16)))
        take)
      (call (dhmp_close_connection true third_history.client) (close true))

Reachable-IsFifo_example : IsFifo fourth_history
Reachable-IsFifo_example = Reachable-IsFifo one_run
