-- ===== src/Rpc/Tailwind/Message.antt =====
-- An entry of the log that goes by message.
use model_test.Prelude.{ℕ, ◌+◌, ◌^◌, ◌≤◌, ◌<◌, ◌≡◌, refl, ap, ◌∙◌, arith}
use model_test.Memory.{Memory, memcpy, load64, store64, Apart, Same}
use model_test.Memory.Laws.{
  load-store, load-store-Apart, load-Same, Same-trans, Same-part, Same-memcpy_in, Same-le,
}
use model_test.Memory.Region.{
  KeepsOutside, KeepsOutside-trans, KeepsOutside-le, KeepsOutside-Same, KeepsOutside-load,
  store-KeepsOutside, memcpy-KeepsOutside,
}
use model_test.Rdma.{Rdma, finished, Reliable, posted, posted_elsewhere}
use model_test.Rpc.Batch.{Buffers}
use model_test.Rpc.Tailwind.{
  TailwindWork, World, count, entry_at, request_size, rpc_size, build_rpc, request_handler,
  rpc_work_handler,
}

-- The values fit their fields, the head holds the data's length, and the buffers of a call do not
-- overlap with each other or with what they are filled from.
pub record IsSendable (w : TailwindWork) (b : Buffers) (s : World) : Type 0 where
  pub head : w.head_size ≡ count
  pub length_there : load64 s.client w.head_mr ≡ w.length
  pub entry_fits : entry_at s.buffer w < 256 ^ 8
  pub work_fits : w.work < 256 ^ 8
  pub head_request : Apart w.head_mr count b.request (rpc_size w)
  pub data_request : Apart w.local_addr w.length b.request (rpc_size w)
  pub slot_response : Apart b.request_slot (rpc_size w) b.response request_size
  pub entry_response : Apart (entry_at s.buffer w) w.length b.response request_size

module _ (w : TailwindWork) (b : Buffers) (s : World) (fits : IsSendable w b s) where
  abbrev t : ℕ
  t = b.request

  abbrev built : Memory
  built = build_rpc s.buffer w t s.client

  -- the message's head
  tasked : Memory
  tasked =
      store64 (store64 (store64 s.client t (w.length + w.head_size)) (t + 8) (entry_at s.buffer w))
        (t + 16) w.work

  tasked-KeepsOutside : KeepsOutside t 24 s.client tasked
  unfolding tasked
  tasked-KeepsOutside =
      KeepsOutside-trans
        (KeepsOutside-le t 24 (store-KeepsOutside 8 s.client t _) (omega arith) (omega arith))
        (KeepsOutside-trans
          (KeepsOutside-le t 24 (store-KeepsOutside 8 _ (t + 8) _) (omega arith) (omega arith))
          (KeepsOutside-le t 24 (store-KeepsOutside 8 _ (t + 16) _) (omega arith) (omega arith)))

  headed : Memory
  headed = memcpy tasked (t + 24) tasked w.head_mr w.head_size

  headed-KeepsOutside : KeepsOutside (t + 24) w.head_size tasked headed
  unfolding headed
  headed-KeepsOutside = memcpy-KeepsOutside tasked (t + 24) tasked w.head_mr w.head_size

  built-KeepsOutside : KeepsOutside (t + 24 + w.head_size) w.length headed built
  unfolding build_rpc headed tasked
  built-KeepsOutside = memcpy-KeepsOutside _ (t + 24 + w.head_size) _ w.local_addr w.length

  pub request-KeepsOutside : KeepsOutside t (rpc_size w) s.client built
  request-KeepsOutside =
      KeepsOutside-trans
        (KeepsOutside-le t (rpc_size w) tasked-KeepsOutside (omega arith) (omega arith))
        (KeepsOutside-trans
          (KeepsOutside-le t (rpc_size w) headed-KeepsOutside (omega arith) (omega arith))
          (KeepsOutside-le t (rpc_size w) built-KeepsOutside (omega arith) (omega arith)))

  -- A field of the request stays through the copies of head and data.
  built_field : (o : ℕ) → o + 8 ≤ 24 → load64 built (t + o) ≡ load64 tasked (t + o)
  built_field o h =
      KeepsOutside-load built-KeepsOutside 8 (t + o) (omega arith)
      ∙ KeepsOutside-load headed-KeepsOutside 8 (t + o) (omega arith)

  built_entry : load64 built (t + 8) ≡ entry_at s.buffer w
  unfolding tasked
  built_entry =
      built_field 8 (omega arith)
      ∙ load-store-Apart 8 _ (t + 8) 8 (t + 16) w.work (omega arith)
      ∙ load-store 8 _ (t + 8) (entry_at s.buffer w) fits.entry_fits

  built_task : load64 built (t + 16) ≡ w.work
  unfolding tasked
  built_task = built_field 16 (omega arith) ∙ load-store 8 _ (t + 16) w.work fits.work_fits

  built_length : load64 built (t + 24) ≡ w.length
  unfolding headed
  built_length =
      KeepsOutside-load built-KeepsOutside 8 (t + 24) (omega (arith, fits.head))
      ∙ load-Same 8 (
          Same-le (Same-memcpy_in tasked (t + 24) tasked w.head_mr w.head_size) 8
            (omega (arith, fits.head)))
      ∙ KeepsOutside-load tasked-KeepsOutside 8 w.head_mr (omega (arith, fits.head_request))
      ∙ fits.length_there

  built_data : Same w.length built (t + 24 + w.head_size) s.client w.local_addr
  unfolding build_rpc headed tasked
  built_data = Same-trans (Same-memcpy_in _ (t + 24 + w.head_size) headed w.local_addr w.length) (
      Same-trans
        (KeepsOutside-Same headed-KeepsOutside w.length w.local_addr
          (omega (arith, fits.data_request)))
        (KeepsOutside-Same tasked-KeepsOutside w.length w.local_addr
          (omega (arith, fits.data_request))))

  -- The message in the server's receive slot, and what the server does for it.
  module _ (m : Memory) (same : Same (rpc_size w) m b.request_slot built t) where
    abbrev a : ℕ
    a = b.request_slot

    arrived_load : (o : ℕ) → o + 8 ≤ rpc_size w → load64 m (a + o) ≡ load64 built (t + o)
    arrived_load o h = load-Same 8 (Same-part same o 8 h)

    copied : Memory
    copied = memcpy m b.response m a request_size

    copied-KeepsOutside : KeepsOutside b.response request_size m copied
    unfolding copied
    copied-KeepsOutside = memcpy-KeepsOutside m b.response m a request_size

    copied_load : (o : ℕ) → o + 8 ≤ 24 → load64 copied (b.response + o) ≡ load64 built (t + o)
    unfolding copied
    copied_load o h =
        load-Same 8 (Same-part (Same-memcpy_in m b.response m a request_size) o 8 h)
        ∙ arrived_load o (omega (arith, fits.head))

    copied_length : load64 copied (a + 24) ≡ w.length
    copied_length =
        KeepsOutside-load copied-KeepsOutside 8 (a + 24)
          (omega (arith, fits.slot_response, fits.head))
        ∙ arrived_load 24 (omega (arith, fits.head))
        ∙ built_length

    pub served : Memory
    served = request_handler a b.response m

    served_copy : served ≡ memcpy copied (entry_at s.buffer w) copied (a + 24 + 8 + 4 + 4) w.length
    unfolding served request_handler copied
    served_copy = rw (copied_length, copied_load 8 (omega arith) ∙ built_entry) refl

    arrived_data : Same w.length m (a + 24 + 8 + 4 + 4) s.client w.local_addr
    arrived_data = record {
      at = λ i p.
          ap m (omega arith)
          ∙ same.at (40 + i) (omega (arith, fits.head))
          ∙ ap built (omega (arith, fits.head))
          ∙ built_data.at i p;
    }

    served_entry : Same w.length served (entry_at s.buffer w) s.client w.local_addr
    served_entry = rw served_copy (
        Same-trans
          (Same-memcpy_in copied (entry_at s.buffer w) copied (a + 24 + 8 + 4 + 4) w.length)
          (Same-trans
            (KeepsOutside-Same copied-KeepsOutside w.length (a + 24 + 8 + 4 + 4)
              (omega (arith, fits.slot_response, fits.head)))
            arrived_data))

    served_task : load64 served (b.response + 16) ≡ w.work
    served_task = rw served_copy (
        KeepsOutside-load (memcpy-KeepsOutside copied (entry_at s.buffer w) copied _ w.length) 8
          (b.response + 16) (omega (arith, fits.entry_response))
        ∙ copied_load 16 (omega arith)
        ∙ built_task)

    -- What the server keeps.
    served_kept :
        (k x : ℕ)
        → Apart x k (entry_at s.buffer w) w.length
        → Apart x k b.response request_size
        → Same k served x m x
    served_kept k x ae ar = rw served_copy (
        Same-trans
          (KeepsOutside-Same
            (memcpy-KeepsOutside copied (entry_at s.buffer w) copied (a + 24 + 8 + 4 + 4) w.length)
            k x ae)
          (KeepsOutside-Same copied-KeepsOutside k x ar))

-- What a message's entry leaves: its data at the entry's start, and all else but the buffers of the
-- messages as it was.
pub record IsDone (w : TailwindWork) (b : Buffers) (s s' : World) : Type 0 where
  pub buffer : s'.buffer ≡ s.buffer
  pub stored : Same w.length s'.server (entry_at s.buffer w) s.client w.local_addr
  pub server_kept :
      (k x : ℕ)
      → Apart x k (entry_at s.buffer w) w.length
      → Apart x k b.request_slot (rpc_size w)
      → Apart x k b.response request_size
      → Same k s'.server x s.server x
  pub client_kept :
      (k x : ℕ)
      → Apart x k b.request (rpc_size w)
      → Apart x k b.response_slot request_size
      → Same k s'.client x s.client x

module _ (net : Rdma) (reliable : Reliable net) (w : TailwindWork) (b : Buffers) (s : World)
    (fits : IsSendable w b s) where
  pub rpc_work_handler-IsDone :
      (s' : World) × (rpc_work_handler net b w s ≡ finished s') × IsDone w b s s'
  unfolding rpc_work_handler served
  rpc_work_handler-IsDone =
      let sent = build_rpc s.buffer w b.request s.client in
      let (m1, e1) = reliable s.server b.request_slot sent b.request (rpc_size w) in
      let same = posted net e1 in
      let done = served w b s fits m1 same in
      let (m2, e2) = reliable sent b.response_slot done b.response request_size in
      let named : load64 m2 (b.response_slot + 16) ≡ w.work =
        load-Same 8 (Same-part (posted net e2) 16 8 (omega arith))
        ∙ served_task w b s fits m1 same in
      (
        record s { client = m2; server = done },
        rw (e1, e2, named) (ground arith),
        record {
          buffer = refl;
          stored = served_entry w b s fits m1 same;
          server_kept = λ k x ae aq ar.
              Same-trans (served_kept w b s fits m1 same k x ae ar)
                (posted_elsewhere net e1 k x aq);
          client_kept = λ k x aq ar.
              Same-trans (posted_elsewhere net e2 k x ar)
                (KeepsOutside-Same (request-KeepsOutside w b s fits) k x aq);
        },
      )
