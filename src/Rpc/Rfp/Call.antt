-- ===== src/Rpc/Rfp/Call.antt =====
-- The whole RFP call, for every delay of the server.
use model_test.Prelude.{
  ℕ, zero, suc, ◌+◌, ◌≤◌, ◌≡◌, ◌≢◌, ◌⊎◌, inl, inr, ap, sym, ◌∙◌, Bool, true, false, List, [], ◌∷◌,
  Bool-cases, arith, ◌==◌, if◌then◌else◌,
}
use model_test.Memory.{Memory, memcpy, Apart, Same}
use model_test.Memory.Laws.{Same-trans, Same-memcpy_in, Same-part}
use model_test.Rdma.{Rdma, finished, completed, Reliable, posted, posted_elsewhere}
use model_test.Rpc.Rfp.{
  RfpClient, RfpServer, RfpWork, World, again, got, flip, stamp, build_request, request_at,
  head_size, reply_size, send_request, poll_request, accept_reply, poll_reply, fetch_reply, call,
}
use model_test.Rpc.Rfp.Request.{IsRequest, Fits, IsRequest-arrives}
use model_test.Rpc.Rfp.Serve.{IsPlaced, time_at, Served, poll_request-Served}

-- the server's buffers, as the malloc exchange made them known to the client
abbrev pub paired : RfpClient → ℕ → RfpServer
paired c size = record { write_mr = c.write_mr; read_mr = c.read_mr; size = size }

-- Both times are 1 or both are 2.
pub record InStep (s : World) : Type 0 where
  pub equal : s.server_time ≡ s.client_time
  pub time : (s.client_time ≡ 1) ⊎ (s.client_time ≡ 2)

-- the server is slow for `n` of the client's reads, and serves before the next
abbrev pub after : ℕ → List Bool
after zero = true ∷ []
after (suc n) = false ∷ after n

-- What a call that returned has done: the times moved on together, a write is in the server's
-- memory, a read in the client's.
pub record Returned (read_mr : ℕ) (w : RfpWork) (src before : Memory) (s s' : World) : Type 0 where
  pub in_step : InStep s'
  pub flipped : s'.client_time ≡ flip s.client_time
  pub stored : w.is_write ≡ true → Same w.length s'.server w.dhmp_addr src w.local_addr
  pub fetched : w.is_write ≡ false → Same w.length s'.client w.local_addr before w.dhmp_addr
  pub read_stamp :
      w.is_write ≡ true
      → 1 ≤ w.length
      → s'.server (read_mr + 9 + w.length) ≡ s.server (read_mr + 9 + w.length)

module _ (net : Rdma) (reliable : Reliable net) (c : RfpClient) (w : RfpWork) (src : Memory)
    (placed : IsPlaced (paired c w.length) w) where
  abbrev g : RfpServer
  g = paired c w.length

  -- The client looks at its copy of the server's time byte.
  pub copied-time :
      {m server : Memory}
      → Same (reply_size w) m c.per_ops_mr2 server c.read_mr
      → m (c.per_ops_mr2 + (if w.is_write then 9 else 9 + w.length)) ≡ server (time_at g w)
  copied-time {server} same = elim (Bool-cases w.is_write) [
    | inl e ↦ rw e (same.at 9 (ground arith))
    | inr e ↦ rw e (same.at (9 + w.length) (ground arith) ∙ ap server (omega arith))
  ]

  module _ (s s1 : World) (step : InStep s) (served : Served g w src s s1) (m : Memory)
      (same : Same (reply_size w) m c.per_ops_mr2 s1.server c.read_mr) where
    stamp-time : stamp s.server_time ≡ s1.client_time
    stamp-time = ground (arith, step.equal, step.time, served.client_time_kept)

    seen : m (c.per_ops_mr2 + (if w.is_write then 9 else 9 + w.length)) ≡ s1.client_time
    seen = copied-time same ∙ served.stamped ∙ stamp-time

    taken : (m (c.per_ops_mr2 + (if w.is_write then 9 else 9 + w.length)) == s1.client_time) ≡ true
    taken = ground (arith, seen)

    received : World
    received = record s1 {
      client = if w.is_write then m else memcpy m w.local_addr m (c.per_ops_mr2 + 9) w.length;
      client_time = flip s1.client_time;
    }

    accept-got : accept_reply c w (record s1 { client = m }) ≡ got received
    unfolding accept_reply received
    accept-got = rw taken

    received-Returned : Returned c.read_mr w src s.server s received
    unfolding received
    received-Returned = record {
      in_step = record {
        equal = ground (arith, step.equal, served.flipped, served.client_time_kept);
        time = ground (arith, step.time, served.client_time_kept);
      };
      flipped = ground (arith, served.client_time_kept);
      stored = served.stored;
      read_stamp = served.read_stamp;
      fetched = λ e. rw e (
          Same-trans (Same-memcpy_in m w.local_addr m (c.per_ops_mr2 + 9) w.length)
            (Same-trans (Same-part same 9 w.length (ground arith)) (served.fetched e)));
    }

  -- The server serves before the client's next read.
  fetch_now :
      (s : World)
      → IsRequest w src s.server c.write_mr
      → InStep s
      → (s' : World) × (fetch_reply net g c w (true ∷ []) s ≡ finished s')
        × Returned c.read_mr w src s.server s s'
  unfolding fetch_reply poll_reply
  fetch_now s req step =
      let s1 = poll_request g s in
      let served = poll_request-Served s req placed (ground (arith, step.equal, step.time)) in
      let (m, e) = reliable s1.client c.per_ops_mr2 s1.server c.read_mr (reply_size w) in
      (
        received s s1 step served m (posted net e),
        rw (e, accept-got s s1 step served m (posted net e)),
        received-Returned s s1 step served m (posted net e),
      )

  -- A read of a reply that is not there yet changes only the client's copy of it.
  poll_early :
      (s : World)
      → s.server (time_at g w) ≢ s.client_time
      → (m : Memory) × (poll_reply net c w s ≡ finished (again (record s { client = m })))
  unfolding poll_reply accept_reply
  poll_early s fresh =
      let (m, e) = reliable s.client c.per_ops_mr2 s.server c.read_mr (reply_size w) in
      (m, rw (e, early m (posted net e)))
    where
      early :
          (m : Memory)
          → Same (reply_size w) m c.per_ops_mr2 s.server c.read_mr
          → (m (c.per_ops_mr2 + (if w.is_write then 9 else 9 + w.length)) == s.client_time) ≡ false
      early m same = ground (arith, copied-time same)

  fetch_after :
      (n : ℕ) (s : World)
      → IsRequest w src s.server c.write_mr
      → InStep s
      → s.server (time_at g w) ≢ s.client_time
      → (s' : World) × (fetch_reply net g c w (after n) s ≡ finished s')
        × Returned c.read_mr w src s.server s s'
  unfolding fetch_reply
  fetch_after zero s req step fresh = fetch_now s req step
  fetch_after (suc n) s req step fresh =
      let (m, early) = poll_early s fresh in
      let (s', e, done) =
        fetch_after n (record s { client = m }) req
          (record { equal = step.equal; time = step.time }) fresh in
      (
        s',
        rw early e,
        record {
          in_step = done.in_step;
          flipped = done.flipped;
          stored = done.stored;
          fetched = done.fetched;
          read_stamp = done.read_stamp;
        },
      )

module _ (net : Rdma) (reliable : Reliable net) (c : RfpClient) (w : RfpWork)
    (placed : IsPlaced (paired c w.length) w) (fits : Fits w) where
  -- The request's bytes land in the request buffer.
  spares :
      (k a : ℕ) → Apart a k c.write_mr (w.length + 18) → Apart a k (request_at c w) (head_size w)
  spares k a h = elim (Bool-cases w.is_write) [
    | inl e ↦ rw e (omega arith)
    | inr e ↦ rw e (omega arith)
  ]

  pub time_spared : Apart (time_at (paired c w.length) w) 1 (request_at c w) (head_size w)
  time_spared = spares 1 (time_at (paired c w.length) w) (ground (arith, placed.reply_request))

  stamp_spared : Apart (c.read_mr + 9 + w.length) 1 (request_at c w) (head_size w)
  stamp_spared = spares 1 (c.read_mr + 9 + w.length) (omega (arith, placed.reply_request))

  -- An RFP call on a reliable network, with memory for its tasks, client and server in step,
  -- buffers that do not overlap and no old reply that carries the awaited time, returns however
  -- many of the client's reads come before the server serves the request; then the times are in
  -- step and flipped, a write is in the server's memory, a read has brought the bytes that the
  -- server held at the target when the call began, and a write of at least one byte has left the
  -- time byte of a read of as many bytes.
  pub call-Returned :
      (n : ℕ) (s : World)
      → InStep s
      → s.server (time_at (paired c w.length) w) ≢ s.client_time
      → (s' : World) × (call net true true (paired c w.length) c w (after n) s ≡ finished s')
        × Returned c.read_mr w s.client s.server s s'
  unfolding call send_request
  call-Returned n s step fresh =
      let built = build_request c w s.client in
      let (m, e) = reliable s.server (request_at c w) built c.local_smr (head_size w) in
      let sent : World = record s { client = built; server = m } in
      let req = IsRequest-arrives c w s.client m fits (posted net e) in
      let (s', ran, done) =
        fetch_after net reliable c w s.client placed n sent req
          (record { equal = step.equal; time = step.time }) (still m e) in
      (
        s',
        rw e ran,
        record {
          in_step = done.in_step;
          flipped = done.flipped;
          stored = done.stored;
          read_stamp = λ f d.
              done.read_stamp f d
              ∙ net.post_out s.server (request_at c w) built c.local_smr (head_size w) m e
                  (c.read_mr + 9 + w.length) (omega (arith, stamp_spared));
          fetched = λ r. Same-trans (done.fetched r) (
              posted_elsewhere net e w.length w.dhmp_addr
                (spares w.length w.dhmp_addr placed.target_request));
        },
      )
    where
      still :
          (m : Memory)
          → net.post s.server
              (request_at c w)
              (build_request c w s.client)
              c.local_smr
              (head_size w)
            ≡ completed m
          → m (time_at (paired c w.length) w) ≢ s.client_time
      still m e h = fresh (
          sym (
            net.post_out s.server (request_at c w) _ c.local_smr (head_size w) m e
              (time_at (paired c w.length) w) (omega (arith, time_spared)))
          ∙ h)
