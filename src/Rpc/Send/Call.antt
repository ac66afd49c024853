-- ===== src/Rpc/Send/Call.antt =====
-- A whole send call: what a write does to both memories.
use model_test.Prelude.{ℕ, ◌+◌, ◌^◌, ◌≤◌, ◌<◌, ◌≡◌, refl, ◌∙◌, arith}
use model_test.Memory.{Memory, store_byte, memcpy, load64, Apart, Same}
use model_test.Memory.Laws.{
  load-store, load-store-Apart, load-store_byte-Apart, load-Same, Same-trans, Same-part, Same-le,
  Same-memcpy_in, store_byte_self,
}
use model_test.Memory.Region.{
  KeepsOutside, KeepsOutside-trans, KeepsOutside-le, KeepsOutside-Same, KeepsOutside-load,
  store-KeepsOutside, store_byte-KeepsOutside, memcpy-KeepsOutside,
}
use model_test.Rdma.{Rdma, finished, Reliable, posted, posted_elsewhere}
use model_test.Rpc.Send.{
  SendWork, SendBuffers, World, Payload, work_size, done_flag_at, recv_flag_at, request_size, begin,
  put_fields, build_request, request_handler, response_handler, finish, call,
}

-- A write whose values fit their fields, and whose buffers do not overlap with each other or with what
-- it copies.
pub record IsSendable (w : SendWork) (b : SendBuffers) : Type 0 where
  pub is_write : w.is_write ≡ 1
  pub length_fits : w.length < 256 ^ 8
  pub addr_fits : w.dhmp_addr < 256 ^ 8
  pub work_fits : w.work < 256 ^ 8
  pub data_temp : Apart w.local_addr w.length b.temp (request_size + w.length)
  pub data_work : Apart w.local_addr w.length w.work work_size
  pub slot_response : Apart b.request_slot (request_size + w.length) b.response request_size
  pub target_response : Apart w.dhmp_addr w.length b.response request_size

module _ (w : SendWork) (b : SendBuffers) (m : Memory) (fits : IsSendable w b) where
  abbrev t : ℕ
  t = b.temp

  abbrev begun : Memory
  begun = begin w m

  abbrev filled : Memory
  filled = put_fields w t begun

  abbrev pub built : Memory
  built = build_request w t begun

  begin-KeepsOutside : KeepsOutside w.work work_size m begun
  unfolding begin
  begin-KeepsOutside =
      KeepsOutside-trans
        (KeepsOutside-le w.work work_size (store_byte-KeepsOutside m (w.work + done_flag_at) 0)
          (omega arith) (omega arith))
        (KeepsOutside-le w.work work_size (store_byte-KeepsOutside _ (w.work + recv_flag_at) 0)
          (omega arith) (omega arith))

  filled-KeepsOutside : KeepsOutside t request_size begun filled
  filled-KeepsOutside =
      KeepsOutside-trans
        (KeepsOutside-le t 40 (store-KeepsOutside 8 begun t _) (omega arith) (omega arith))
        (KeepsOutside-trans
          (KeepsOutside-le t 40 (store-KeepsOutside 8 _ (t + 8) _) (omega arith) (omega arith))
          (KeepsOutside-trans
            (KeepsOutside-le t 40 (store-KeepsOutside 8 _ (t + 16) _) (omega arith) (omega arith))
            (KeepsOutside-trans
              (KeepsOutside-le t 40 (store-KeepsOutside 8 _ (t + 24) _) (omega arith) (omega arith))
              (KeepsOutside-le t 40 (store_byte-KeepsOutside _ (t + 32) _) (omega arith)
                (omega arith)))))

  built-KeepsOutside : KeepsOutside (t + request_size) w.length filled built
  unfolding build_request
  built-KeepsOutside = memcpy-KeepsOutside filled (t + request_size) filled w.local_addr w.length

  pub request-KeepsOutside : KeepsOutside t (request_size + w.length) begun built
  request-KeepsOutside =
      KeepsOutside-trans
        (KeepsOutside-le t (request_size + w.length) filled-KeepsOutside (omega arith)
          (omega arith))
        (KeepsOutside-le t (request_size + w.length) built-KeepsOutside (omega arith) (omega arith))

  built_field : (o : ℕ) → o + 8 ≤ 40 → load64 built (t + o) ≡ load64 filled (t + o)
  built_field o h = KeepsOutside-load built-KeepsOutside 8 (t + o) (omega arith)

  built_length : load64 built t ≡ w.length
  built_length =
      KeepsOutside-load built-KeepsOutside 8 t (omega arith)
      ∙ load-store_byte-Apart 8 _ t (t + 32) w.is_write (omega arith)
      ∙ load-store-Apart 8 _ t 8 (t + 24) w.local_addr (omega arith)
      ∙ load-store-Apart 8 _ t 8 (t + 16) w.work (omega arith)
      ∙ load-store-Apart 8 _ t 8 (t + 8) w.dhmp_addr (omega arith)
      ∙ load-store 8 _ t w.length fits.length_fits

  built_addr : load64 built (t + 8) ≡ w.dhmp_addr
  built_addr =
      built_field 8 (omega arith)
      ∙ load-store_byte-Apart 8 _ (t + 8) (t + 32) w.is_write (omega arith)
      ∙ load-store-Apart 8 _ (t + 8) 8 (t + 24) w.local_addr (omega arith)
      ∙ load-store-Apart 8 _ (t + 8) 8 (t + 16) w.work (omega arith)
      ∙ load-store 8 _ (t + 8) w.dhmp_addr fits.addr_fits

  built_task : load64 built (t + 16) ≡ w.work
  built_task =
      built_field 16 (omega arith)
      ∙ load-store_byte-Apart 8 _ (t + 16) (t + 32) w.is_write (omega arith)
      ∙ load-store-Apart 8 _ (t + 16) 8 (t + 24) w.local_addr (omega arith)
      ∙ load-store 8 _ (t + 16) w.work fits.work_fits

  built_is_write : built (t + 32) ≡ 1
  built_is_write =
      built-KeepsOutside.at (t + 32) (omega arith)
      ∙ store_byte_self _ (t + 32) w.is_write
      ∙ fits.is_write

  built_data : Same w.length built (t + request_size) m w.local_addr
  unfolding build_request
  built_data = Same-trans (Same-memcpy_in filled (t + request_size) filled w.local_addr w.length) (
      Same-trans
        (KeepsOutside-Same filled-KeepsOutside w.length w.local_addr
          (omega (arith, fits.data_temp)))
        (KeepsOutside-Same begin-KeepsOutside w.length w.local_addr
          (omega (arith, fits.data_work))))

  -- The message in the server's receive slot, and what the server does for it.
  module _ (server : Memory)
      (same : Same (request_size + w.length) server b.request_slot built t) where
    abbrev copied : Memory
    copied = memcpy server b.response server b.request_slot request_size

    copied-KeepsOutside : KeepsOutside b.response request_size server copied
    copied-KeepsOutside = memcpy-KeepsOutside server b.response server b.request_slot request_size

    copied-Same : Same request_size copied b.response built t
    copied-Same = record {
      at = λ i p.
          (Same-memcpy_in server b.response server b.request_slot request_size).at i p
          ∙ same.at i (omega arith);
    }

    pub served : Memory
    served = memcpy copied w.dhmp_addr copied (b.request_slot + request_size) w.length

    served-KeepsOutside : KeepsOutside w.dhmp_addr w.length copied served
    unfolding served
    served-KeepsOutside =
        memcpy-KeepsOutside copied w.dhmp_addr copied (b.request_slot + request_size) w.length

    pub request_handler_write :
        (unset : Payload)
        → request_handler b.request_slot b.response unset server
          ≡ (served, record { at = b.response; size = request_size })
    unfolding request_handler served
    request_handler_write unset =
        let named : load64 copied (b.response + 8) ≡ w.dhmp_addr =
          load-Same 8 (Same-part copied-Same 8 8 (omega arith)) ∙ built_addr in
        let sized : load64 copied b.response ≡ w.length =
          load-Same 8 (Same-le copied-Same 8 (omega arith)) ∙ built_length in
        rw (copied-Same.at 32 (omega arith) ∙ built_is_write, named, sized) refl

    pub served_target : Same w.length served w.dhmp_addr m w.local_addr
    unfolding served
    served_target =
        Same-trans
          (Same-memcpy_in copied w.dhmp_addr copied (b.request_slot + request_size) w.length)
          (Same-trans
            (KeepsOutside-Same copied-KeepsOutside w.length (b.request_slot + request_size)
              (omega (arith, fits.slot_response)))
            (Same-trans (Same-part same request_size w.length (omega arith)) built_data))

    -- The response is the request, byte for byte.
    pub served_response : Same request_size served b.response built t
    served_response =
        Same-trans
          (KeepsOutside-Same served-KeepsOutside request_size b.response
            (omega (arith, fits.target_response)))
          copied-Same

    pub served_kept :
        (k x : ℕ)
        → Apart x k w.dhmp_addr w.length
        → Apart x k b.response request_size
        → Same k served x server x
    served_kept k x ad ar =
        Same-trans (KeepsOutside-Same served-KeepsOutside k x ad)
          (KeepsOutside-Same copied-KeepsOutside k x ar)

    -- The response in the client's receive slot, and what the client does for it.
    module _ (client : Memory)
        (back : Same request_size client b.response_slot served b.response) where
      abbrev taken : Memory
      taken = memcpy client b.response_msg client b.response_slot request_size

      taken-Same : Same request_size taken b.response_msg built t
      taken-Same =
          Same-trans (Same-memcpy_in client b.response_msg client b.response_slot request_size)
            (Same-trans back served_response)

      abbrev pub received : Memory
      received = store_byte taken (w.work + recv_flag_at) 1

      pub response_handler_write : response_handler b.response_slot b.response_msg client ≡ received
      unfolding response_handler
      response_handler_write =
          let named : load64 taken (b.response_msg + 16) ≡ w.work =
            load-Same 8 (Same-part taken-Same 16 8 (omega arith)) ∙ built_task in
          rw (taken-Same.at 32 (omega arith) ∙ built_is_write, named) refl

      abbrev pub done : Memory
      done = store_byte received (w.work + done_flag_at) 1

      pub finish_write :
          finish w (record { client = received; server = served })
          ≡ finished (record { client = done; server = served })
      unfolding finish
      finish_write = rw (store_byte_self taken (w.work + recv_flag_at) 1) refl

      pub done_kept :
          (k x : ℕ)
          → Apart x k w.work work_size
          → Apart x k b.response_msg request_size
          → Same k done x client x
      done_kept k x aw ar =
          Same-trans
            (KeepsOutside-Same
              (KeepsOutside-trans
                (KeepsOutside-le w.work work_size
                  (store_byte-KeepsOutside taken (w.work + recv_flag_at) 1) (omega arith)
                  (omega arith))
                (KeepsOutside-le w.work work_size
                  (store_byte-KeepsOutside received (w.work + done_flag_at) 1) (omega arith)
                  (omega arith)))
              k x aw)
            (KeepsOutside-Same
              (memcpy-KeepsOutside client b.response_msg client b.response_slot request_size) k x
              ar)

-- What a write leaves: the client's bytes at the target, `done_flag` set, and all else but the call's
-- buffers and its work as it was.
pub record IsWritten (w : SendWork) (b : SendBuffers) (s s' : World) : Type 0 where
  pub written : Same w.length s'.server w.dhmp_addr s.client w.local_addr
  pub done_flag : s'.client (w.work + done_flag_at) ≡ 1
  pub server_kept :
      (k x : ℕ)
      → Apart x k w.dhmp_addr w.length
      → Apart x k b.request_slot (request_size + w.length)
      → Apart x k b.response request_size
      → Same k s'.server x s.server x
  pub client_kept :
      (k x : ℕ)
      → Apart x k w.work work_size
      → Apart x k b.temp (request_size + w.length)
      → Apart x k b.response_slot request_size
      → Apart x k b.response_msg request_size
      → Same k s'.client x s.client x

-- A write by dhmp_send on a reliable network, whose values fit their C types and whose buffers do
-- not overlap, returns whatever the server's stack holds; then the server's memory at the target
-- holds the client's bytes, `done_flag` is set in the call's own work, and both memories are
-- otherwise unchanged outside the call's buffers and its work.
pub call-IsWritten :
    (net : Rdma)
    → Reliable net
    → (w : SendWork) (b : SendBuffers) (unset : Payload) (s : World) → IsSendable w b
    → (s' : World) × (call net b unset w s ≡ finished s') × IsWritten w b s s'
unfolding call
call-IsWritten net reliable w b unset s fits =
    let sent = built w b s.client fits in
    let (m1, e1) = reliable s.server b.request_slot sent b.temp (request_size + w.length) in
    let same = posted net e1 in
    let answer = served w b s.client fits m1 same in
    let (m2, e2) = reliable sent b.response_slot answer b.response request_size in
    let back = posted net e2 in
    (
      record { client = done w b s.client fits m1 same m2 back; server = answer },
      rw
          (
            e1,
            request_handler_write w b s.client fits m1 same unset,
            e2,
            response_handler_write w b s.client fits m1 same m2 back,
            finish_write w b s.client fits m1 same m2 back,
          )
          refl,
      record {
        written = served_target w b s.client fits m1 same;
        done_flag = store_byte_self _ (w.work + done_flag_at) 1;
        server_kept = λ k x ad aq ar.
            Same-trans (served_kept w b s.client fits m1 same k x ad ar)
              (posted_elsewhere net e1 k x aq);
        client_kept = λ k x aw at asl ar.
            Same-trans (done_kept w b s.client fits m1 same m2 back k x aw ar) (
              Same-trans (posted_elsewhere net e2 k x asl) (
                Same-trans (KeepsOutside-Same (request-KeepsOutside w b s.client fits) k x at)
                  (KeepsOutside-Same (begin-KeepsOutside w b s.client fits) k x aw)));
      },
    )
