-- ===== src/Rpc/Rfp/Serve.antt =====
-- What the server does for an RFP request, and where it leaves its reply.
use model_test.Prelude.{
  ℕ, ◌+◌, ◌≤◌, ◌≡◌, ◌≢◌, refl, ap, ◌∙◌, true, false, inl, inr, Bool-cases, arith, ◌==◌,
  if◌then◌else◌,
}
use model_test.Memory.{Memory, store_byte, memcpy, store64, Apart, Same}
use model_test.Memory.Laws.{
  store_byte_self, store_byte_ne, store_out, memcpy_out, Same-refl, Same-trans, Same-memcpy_in,
  Same-store, Same-store_byte,
}
use model_test.Rpc.Rfp.{RfpServer, RfpWork, World, flip, stamp, request_handler, poll_request}
use model_test.Rpc.Rfp.Request.{IsRequest}

-- The server's buffers are laid out for the work: requests have the agreed size, and the target of
-- the call, the reply buffer and the request buffer do not overlap.
pub record IsPlaced (g : RfpServer) (w : RfpWork) : Type 0 where
  pub size : g.size ≡ w.length
  pub target_reply : Apart w.dhmp_addr w.length g.read_mr (w.length + 10)
  pub target_request : Apart w.dhmp_addr w.length g.write_mr (w.length + 18)
  pub reply_request : Apart g.read_mr (w.length + 10) g.write_mr (w.length + 18)

-- where the byte stands that tells the client that its reply is there
abbrev pub time_at : RfpServer → RfpWork → ℕ
time_at g w = if w.is_write then g.read_mr + 9 else g.read_mr + 9 + w.length

-- What a served request leaves in the server.
pub record Served (g : RfpServer) (w : RfpWork) (src : Memory) (s s' : World) : Type 0 where
  pub client_kept : s'.client ≡ s.client
  pub client_time_kept : s'.client_time ≡ s.client_time
  pub flipped : s'.server_time ≡ flip s.server_time
  pub stamped : s'.server (time_at g w) ≡ stamp s.server_time
  pub taken : s'.server (g.write_mr + w.length + 17) ≡ 0
  pub stored : w.is_write ≡ true → Same w.length s'.server w.dhmp_addr src w.local_addr
  pub fetched : w.is_write ≡ false → Same w.length s'.server (g.read_mr + 9) s.server w.dhmp_addr
  -- A write does not touch the time byte of a read of the same length.
  pub read_stamp :
      w.is_write ≡ true
      → 1 ≤ w.length
      → s'.server (g.read_mr + 9 + w.length) ≡ s.server (g.read_mr + 9 + w.length)

module _ {g : RfpServer} {w : RfpWork} {src : Memory} (s : World)
    (req : IsRequest w src s.server g.write_mr) (placed : IsPlaced g w) where
  open req use {flag, addr, valid, payload}

  module _ (e : w.is_write ≡ true) where
    served_write :
        (request_handler g s).server
        ≡ store_byte
            (memcpy
              (store64 s.server (g.read_mr + 1) w.length)
              w.dhmp_addr
              (store64 s.server (g.read_mr + 1) w.length)
              g.write_mr
              w.length)
            (g.read_mr + 9)
            (stamp s.server_time)
    unfolding request_handler
    served_write = rw (placed.size, addr, flag, e)

  module _ (e : w.is_write ≡ false) where
    served_read :
        (request_handler g s).server
        ≡ store_byte
            (memcpy
              (store64 s.server (g.read_mr + 1) w.length)
              (g.read_mr + 9)
              (store64 s.server (g.read_mr + 1) w.length)
              w.dhmp_addr
              w.length)
            (g.read_mr + 9 + w.length)
            (stamp s.server_time)
    unfolding request_handler
    served_read = rw (placed.size, addr, flag, e)

-- The handler's effect, and then that of the poll loop, which takes the request.
module _ {g : RfpServer} {w : RfpWork} {src : Memory} (s : World)
    (req : IsRequest w src s.server g.write_mr) (placed : IsPlaced g w) where
  handler-stamped : (request_handler g s).server (time_at g w) ≡ stamp s.server_time
  handler-stamped = elim (Bool-cases w.is_write) [
    | inl e ↦
        rw (served_write s req placed e, e)
          (store_byte_self _ (g.read_mr + 9) (stamp s.server_time))
    | inr e ↦
        rw (served_read s req placed e, e)
          (store_byte_self _ (g.read_mr + 9 + w.length) (stamp s.server_time))
  ]

  handler-stored :
      w.is_write ≡ true → Same w.length (request_handler g s).server w.dhmp_addr src w.local_addr
  handler-stored e =
      let sized = store64 s.server (g.read_mr + 1) w.length in
      rw (served_write s req placed e) (
        Same-store_byte
          (Same-trans (Same-memcpy_in sized w.dhmp_addr sized g.write_mr w.length) (
            Same-store (req.payload e) 8 (g.read_mr + 1) w.length
              (omega (arith, placed.reply_request))))
          (g.read_mr + 9) (stamp s.server_time) (omega (arith, placed.target_reply)))

  handler-fetched :
      w.is_write ≡ false
      → Same w.length (request_handler g s).server (g.read_mr + 9) s.server w.dhmp_addr
  handler-fetched e =
      let sized = store64 s.server (g.read_mr + 1) w.length in
      rw (served_read s req placed e) (
        Same-store_byte
          (Same-trans (Same-memcpy_in sized (g.read_mr + 9) sized w.dhmp_addr w.length) (
            Same-store (Same-refl w.length s.server w.dhmp_addr) 8 (g.read_mr + 1) w.length
              (omega (arith, placed.target_reply))))
          (g.read_mr + 9 + w.length) (stamp s.server_time) (omega arith))

  handler-read_stamp :
      w.is_write ≡ true
      → 1 ≤ w.length
      → (request_handler g s).server (g.read_mr + 9 + w.length)
        ≡ s.server (g.read_mr + 9 + w.length)
  handler-read_stamp e some_data =
      let sized = store64 s.server (g.read_mr + 1) w.length in
      let x = g.read_mr + 9 + w.length in
      rw (served_write s req placed e) (
        store_byte_ne _ (g.read_mr + 9) (stamp s.server_time) x (omega arith)
        ∙ memcpy_out sized w.dhmp_addr sized g.write_mr w.length x
            (omega (arith, placed.target_reply))
        ∙ store_out 8 s.server (g.read_mr + 1) w.length x (omega arith))

  poll_request-eq :
      s.server_time ≢ 0
      → poll_request g s ≡ record (request_handler g s) {
        server = store_byte (request_handler g s).server (g.write_mr + g.size + 17) 0;
      }
  unfolding poll_request
  poll_request-eq alive = rw (valid, awake)
    where
      valid : s.server (g.write_mr + g.size + 17) ≡ 1
      valid = ap (λ n. s.server (g.write_mr + n + 17)) placed.size ∙ req.valid

      awake : (s.server_time == 0) ≡ false
      awake = ground arith

  -- A round of RFP_run that is not stopped serves a request that is there, where the target, the
  -- request buffer and the reply buffer do not overlap: it stores a write's data at the target or
  -- copies a read's data to the reply buffer, stamps the reply with its time, flips its time,
  -- takes the request and leaves the client's memory and time; a write of at least one byte
  -- leaves the time byte of a read of as many bytes.
  pub poll_request-Served : s.server_time ≢ 0 → Served g w src s (poll_request g s)
  unfolding request_handler
  poll_request-Served alive = rw (poll_request-eq alive) (record {
    client_kept = refl;
    client_time_kept = refl;
    flipped = refl;
    stamped = store_byte_ne _ poll_addr 0 (time_at g w) outside ∙ handler-stamped;
    taken =
        ap (store_byte _ poll_addr 0) (omega (arith, placed.size)) ∙ store_byte_self _ poll_addr 0;
    stored = λ e.
        Same-store_byte (handler-stored e) poll_addr 0
          (omega (arith, placed.size, placed.target_request));
    fetched = λ e.
        Same-store_byte (handler-fetched e) poll_addr 0
          (omega (arith, placed.size, placed.reply_request));
    read_stamp = λ e d.
        store_byte_ne _ poll_addr 0 (g.read_mr + 9 + w.length) beyond ∙ handler-read_stamp e d;
  })
    where
      poll_addr : ℕ
      poll_addr = g.write_mr + g.size + 17

      outside : time_at g w ≢ g.write_mr + g.size + 17
      outside = ground (arith, placed.size, placed.reply_request)

      beyond : g.read_mr + 9 + w.length ≢ g.write_mr + g.size + 17
      beyond = omega (arith, placed.size, placed.reply_request)
