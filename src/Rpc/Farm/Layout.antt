-- ===== src/Rpc/Farm/Layout.antt =====
-- The buffers of FaRM by slot, and what each operation of the flushing builds does to their valid
-- bytes.
use model_test.Prelude.{
  ℕ, ◌+◌, ◌*◌, ◌%◌, ◌≤◌, ◌<◌, ◌≡◌, ◌≢◌, refl, ap, ◌∙◌, ◌==◌, true, false, arith,
}
use model_test.Memory.{store_byte, Apart}
use model_test.Memory.Laws.{store_byte_self, store_byte_ne}
use model_test.Memory.Region.{slots-Apart, slot_within}
use model_test.Rdma.{Rdma, finished, Reliable, posted, posted_elsewhere}
use model_test.Client.Slots.{free_slot}
use model_test.Rpc.Alloc.{batch_num}
use model_test.Rpc.Farm.{
  FarmClient, FarmServer, World, buffer_size, valid_of, take_reply, poll_request, reply_valid,
  poll_reply,
}

-- What the set-up leaves: both sides name the same buffers, `n` on each side, which do not overlap
-- with the buffers that requests and replies are sent from.
pub record IsLaidOut (n : ℕ) (c : FarmClient) (g : FarmServer) : Type 0 where
  pub server_side : c.s_mr ≡ g.s_mr
  pub client_side : g.c_mr ≡ c.c_mr
  pub sizes : c.size ≡ g.size
  pub some_size : 1 ≤ g.size
  pub answering : Apart g.local_mr 1 g.s_mr (n * buffer_size batch_num g.size)

-- A reply's place, by the server's size.
reply_valid-at :
    (n : ℕ) (c : FarmClient) (g : FarmServer) (i : ℕ)
    → IsLaidOut n c g
    → reply_valid true c i ≡ c.c_mr + i * buffer_size batch_num g.size
reply_valid-at n c g i laid = ap (λ k. c.c_mr + i * buffer_size batch_num k) laid.sizes

-- A request is written into slot `cur`: its valid byte is 1, and those of the other slots, the replies'
-- bytes, the slots and the server's place are as they were.
pub record IsSent (n : ℕ) (c : FarmClient) (g : FarmServer) (cur : ℕ) (s s' : World) : Type 0 where
  pub slots : s'.slots ≡ s.slots
  pub pos : s'.pos ≡ s.pos
  pub valid : s'.server (valid_of g cur) ≡ 1
  pub others : (i : ℕ) → i < n → i ≢ cur → s'.server (valid_of g i) ≡ s.server (valid_of g i)
  pub replies : (i : ℕ) → i < n → s'.client (reply_valid true c i) ≡ s.client (reply_valid true c i)

module _ (net : Rdma) (reliable : Reliable net) (n : ℕ) (c : FarmClient) (g : FarmServer)
    (laid : IsLaidOut n c g) where
  -- What a round of FaRM_run leaves that has found a request.
  pub record IsServed (s s' : World) : Type 0 where
    pub slots : s'.slots ≡ s.slots
    pub pos : s'.pos ≡ (s.pos + 1) % n
    pub taken : s'.server (valid_of g s.pos) ≡ 0
    pub others : (i : ℕ) → i < n → i ≢ s.pos → s'.server (valid_of g i) ≡ s.server (valid_of g i)
    pub reply : s'.client (reply_valid true c s.pos) ≡ 1
    pub replies :
        (i : ℕ)
        → i < n
        → i ≢ s.pos
        → s'.client (reply_valid true c i) ≡ s.client (reply_valid true c i)

  pub poll_request-IsServed :
      (s : World)
      → s.pos < n
      → s.server (valid_of g s.pos) ≢ 0
      → (s' : World) × (poll_request net true true n g s ≡ finished s') × IsServed s s'
  unfolding poll_request
  poll_request-IsServed s within there =
      let served = store_byte (store_byte s.server (valid_of g s.pos) 0) g.local_mr 1 in
      let at = g.c_mr + s.pos * buffer_size batch_num g.size + 0 in
      let (m1, e1) = reliable s.client at served g.local_mr 1 in
      let stop : (g.size == 0) ≡ false = ground (arith, laid.some_size) in
      let heard : (s.server (valid_of g s.pos) == 0) ≡ false = ground (arith, there) in
      (
        record s { client = m1; server = served; pos = (s.pos + 1) % n },
        rw (stop, heard, e1) refl,
        record {
          slots = refl;
          pos = refl;
          taken = kept s.pos within ∙ store_byte_self s.server (valid_of g s.pos) 0;
          others = λ i h d.
              kept i h
              ∙ store_byte_ne s.server (valid_of g s.pos) 0 (valid_of g i)
                  (omega (arith, slots-Apart (buffer_size batch_num g.size) i s.pos d));
          reply =
              ap m1 (omega (arith, reply_valid-at n c g s.pos laid, laid.client_side))
              ∙ (posted net e1).at 0 (omega arith)
              ∙ ap served (omega arith)
              ∙ store_byte_self (store_byte s.server (valid_of g s.pos) 0) g.local_mr 1;
          replies = λ i h d.
              ap m1 (omega arith)
              ∙ (posted_elsewhere net e1 1 (reply_valid true c i) (
                    omega (
                      arith,
                      reply_valid-at n c g i laid,
                      laid.client_side,
                      slots-Apart (buffer_size batch_num g.size) i s.pos d,
                    ))).at
                  0 (omega arith)
              ∙ ap s.client (omega arith);
        },
      )
    where
      kept :
          (i : ℕ)
          → i < n
          → store_byte (store_byte s.server (valid_of g s.pos) 0) g.local_mr 1 (valid_of g i)
            ≡ store_byte s.server (valid_of g s.pos) 0 (valid_of g i)
      kept i h =
          store_byte_ne _ g.local_mr 1 (valid_of g i)
            (omega (arith, laid.answering, slot_within (buffer_size batch_num g.size) i n h))

  -- What a round of FaRM_run_client leaves that has found a reply.
  pub record IsFreed (s s' : World) : Type 0 where
    pub slots : s'.slots ≡ free_slot true n s.slots
    pub pos : s'.pos ≡ s.pos
    pub server : s'.server ≡ s.server
    pub taken : s'.client (reply_valid true c s.slots.ccur) ≡ 0
    pub replies :
        (i : ℕ)
        → i ≢ s.slots.ccur
        → s'.client (reply_valid true c i) ≡ s.client (reply_valid true c i)

  pub poll_reply-IsFreed :
      (s : World)
      → s.client (reply_valid true c s.slots.ccur) ≢ 0
      → IsFreed s (poll_reply true n c s)
  unfolding poll_reply take_reply
  poll_reply-IsFreed s there =
      let stop : (c.size == 0) ≡ false = ground (arith, laid.some_size, laid.sizes) in
      let heard : (s.client (reply_valid true c s.slots.ccur) == 0) ≡ false =
        ground (arith, there) in
      rw (stop, heard)
        (record {
          slots = refl;
          pos = refl;
          server = refl;
          taken = store_byte_self s.client (reply_valid true c s.slots.ccur) 0;
          replies = λ i d.
              store_byte_ne s.client (reply_valid true c s.slots.ccur) 0 (reply_valid true c i)
                (omega (arith, slots-Apart (buffer_size batch_num c.size) i s.slots.ccur d));
        })
