-- ===== src/Rpc/Rfp/Stale.antt =====
-- What happens when an old reply carries the awaited time.
use model_test.Prelude.{
  ℕ, ◌+◌, ◌≤◌, ◌≡◌, ◌≢◌, refl, sym, ◌∙◌, true, false, [], ◌∷◌, arith, ◌==◌, if◌then◌else◌,
}
use model_test.Memory.{memcpy}
use model_test.Rdma.{Rdma, finished, Reliable, posted}
use model_test.Rpc.Rfp.{
  RfpClient, RfpWork, World, flip, build_request, request_at, head_size, reply_size, accept_reply,
  poll_reply, fetch_reply, send_request, call,
}
use model_test.Rpc.Rfp.Request.{Fits}
use model_test.Rpc.Rfp.Serve.{IsPlaced, time_at}
use model_test.Rpc.Rfp.Call.{paired, InStep, after, copied-time, time_spared, call-Returned}

module _ (net : Rdma) (reliable : Reliable net) (c : RfpClient) (w : RfpWork)
    (placed : IsPlaced (paired c w.length) w) (fits : Fits w) where
  -- An RFP call on a reliable network, with memory for its tasks, client and server in step and
  -- buffers that do not overlap, that starts while its time byte already carries the awaited time
  -- returns although the server runs no round of its loop: the server's time stays, and the
  -- client is out of step.
  pub call-early :
      (s : World)
      → InStep s
      → s.server (time_at (paired c w.length) w) ≡ s.client_time
      → (s' : World) × (call net true true (paired c w.length) c w (false ∷ []) s ≡ finished s')
        × (s'.server_time ≡ s.server_time)
        × (s'.client_time ≢ s'.server_time)
  unfolding call send_request fetch_reply poll_reply accept_reply
  call-early s step stale =
      let built = build_request c w s.client in
      let (m, e) = reliable s.server (request_at c w) built c.local_smr (head_size w) in
      let (k, f) = reliable built c.per_ops_mr2 m c.read_mr (reply_size w) in
      let kept : m (time_at (paired c w.length) w) ≡ s.client_time =
        net.post_out s.server (request_at c w) built c.local_smr (head_size w) m e
          (time_at (paired c w.length) w) (omega (arith, time_spared net reliable c w placed fits))
        ∙ stale in
      let seen : (k (c.per_ops_mr2 + (if w.is_write then 9 else 9 + w.length)) == s.client_time)
          ≡ true =
        ground (arith, copied-time net reliable c w s.client placed (posted net f), kept) in
      (
        record {
          client = if w.is_write then k else memcpy k w.local_addr k (c.per_ops_mr2 + 9) w.length;
          server = m;
          client_time = flip s.client_time;
          server_time = s.server_time;
        },
        rw (e, f, seen),
        refl,
        ground (arith, step.equal, step.time),
      )

-- a read of as many bytes as `v` has
abbrev pub read_of : RfpWork → (local_addr dhmp_addr : ℕ) → RfpWork
read_of v l d = record { local_addr = l; length = v.length; is_write = false; dhmp_addr = d }

module _ (net : Rdma) (reliable : Reliable net) (c : RfpClient) (v : RfpWork) (l d : ℕ)
    (placed : IsPlaced (paired c v.length) v) (fits : Fits v) (write : v.is_write ≡ true)
    (some_data : 1 ≤ v.length) (placed_read : IsPlaced (paired c v.length) (read_of v l d))
    (fits_read : Fits (read_of v l d)) where
  -- Where the reply buffer's byte for a read carries the time before the awaited one and that for
  -- a write does not carry the awaited one, on a reliable network, with memory for the tasks,
  -- client and server in step and buffers that do not overlap, a write of RFP of at least one
  -- byte returns, and then a read of as many bytes returns before the server has served it and
  -- leaves client and server out of step.
  pub stale_read :
      (n : ℕ) (s : World)
      → InStep s
      → s.server (c.read_mr + 9) ≢ s.client_time
      → s.server (c.read_mr + 9 + v.length) ≡ flip s.client_time
      → (s1 : World) × (s2 : World) × (call net true true (paired c v.length) c v (after n) s
          ≡ finished s1)
        × (call net true true (paired c v.length) c (read_of v l d) (false ∷ []) s1 ≡ finished s2)
        × (s2.server_time ≡ s1.server_time)
        × (s2.client_time ≢ s2.server_time)
  stale_read n s step fresh old =
      let (s1, ran, done) =
        call-Returned net reliable c v placed fits n s step (ground (arith, write)) in
      let (s2, ran2, kept, apart) =
        call-early net reliable c (read_of v l d) placed_read fits_read s1 done.in_step
          (done.read_stamp write some_data ∙ old ∙ sym done.flipped) in
      (s1, s2, ran, ran2, kept, apart)
