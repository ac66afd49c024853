-- ===== src/Rpc/Batch/Call.antt =====
-- A whole batched call, from the client's buffers to the server's memory and back.
use model_test.Prelude.{
  ℕ, ◌+◌, ◌*◌, ◌≤◌, ◌<◌, ◌≡◌, ◌≢◌, refl, ◌∙◌, List, [], ◌∷◌, length, false, arith, ◌⊎◌,
}
use mathlib.Core.Path.{subst}
use model_test.Memory.{Memory, store_byte, Apart, Same}
use model_test.Memory.Laws.{Same-trans, Same-le, store_byte_self, store_byte_ne}
use model_test.Memory.Region.{KeepsOutside, KeepsOutside-Same}
use model_test.Rdma.{Rdma, Outcome, finished, completed, Reliable, posted}
use model_test.Rpc.Batch.{
  BatchWork, Buffers, World, response_size, build_batch, batch_size, serve_batch, response_data,
  reply_length, scatter, take_reply, response_handler, Flags, darpc_flags, ud_flags, finish, call,
  fasst_call,
}
use model_test.Rpc.Batch.Layout.{Item, IsSource}
use model_test.Rpc.Batch.Serve.{put_all, TargetsApart, IsGathered}
use model_test.Rpc.Batch.Request.{
  IsRequest, IsWork, reply_bytes, build_batch-IsRequest, build_batch-KeepsOutside, IsRequest-Same,
  reply_length-bytes, batch_size-entries,
}
use model_test.Rpc.Batch.Reply.{
  IsReply, IsReply-Same, TargetsApart-le, serve_batch-write, serve_batch-read, put_all_at,
}
use model_test.Rpc.Batch.Take.{
  IsArray, LocalsApart, take_all, take_all_at, IsArray-KeepsOutside, scatter-take_all,
}

-- The server's buffers and the targets do not overlap.
pub record IsPlaced (b : Buffers) (w : BatchWork) (items : List Item) : Type 0 where
  pub slot_response : Apart b.request_slot (batch_size w) b.response (reply_bytes w)
  pub targets_slot : TargetsApart w.length b.request_slot (batch_size w) items
  pub targets_response : TargetsApart w.length b.response (reply_bytes w) items

posted-KeepsOutside :
    (net : Rdma) (m : Memory) (d : ℕ) (src : Memory) (s n : ℕ) (m' : Memory)
    → net.post m d src s n ≡ completed m'
    → KeepsOutside d n m m'
posted-KeepsOutside net m d src s n m' e = record { at = net.post_out m d src s n m' e }

-- The reply of a read has its data scattered.
take_reply-read :
    (client : Memory) (w : BatchWork) (items : List Item) (response : ℕ)
    → IsReply client w response
    → w.flag_write ≡ 0
    → w.batch ≡ length items
    → take_reply false response client
      ≡ scatter (length items) 0 response (response_data response) client
unfolding take_reply
take_reply-read client w items response reply flag n =
    rw (reply.write_flag, flag, reply.batch, n) refl

IsSource-IsArray :
    (src m : Memory) (size g l a n : ℕ) (items : List Item)
    → IsSource src m size g l a n items
    → IsArray m l items
IsSource-IsArray src m size g l a n [] h = tt
IsSource-IsArray src m size g l a n (it ∷ rest) (eg, el, same, ag, al, ai, more) =
    (el, IsSource-IsArray src m size (g + 8) (l + 8) a n rest more)

-- What a batch of reads gathers, where the targets hold what they held before.
IsGathered-KeepsOutside :
    (before m served : Memory) (a n size cur : ℕ) (items : List Item)
    → KeepsOutside a n before m
    → TargetsApart size a n items
    → IsGathered m served size cur items
    → IsGathered before served size cur items
IsGathered-KeepsOutside before m served a n size cur [] keeps apart h = h
IsGathered-KeepsOutside before m served a n size cur (it ∷ rest) keeps apart h = (
  Same-trans h.0 (KeepsOutside-Same keeps size it.globle apart.0),
  IsGathered-KeepsOutside before m served a n size (cur + size) rest keeps apart.1 h.1,
)

-- Where the client takes the data of a reply in `slot` from: the buffers and the array of their
-- addresses are elsewhere, and so are the request and the reply.
pub record IsTaken (b : Buffers) (w : BatchWork) (items : List Item) : Type 0 where
  pub fits : reply_bytes w ≤ 1024
  pub buffers_data :
      LocalsApart w.length (response_data b.response_slot) (length items * w.length) items
  pub buffers_reply : LocalsApart w.length b.response_slot response_size items
  pub buffers_array : LocalsApart w.length w.local_addr (8 * length items) items
  pub request_data :
      Apart (response_data b.response_slot) (length items * w.length) b.request (batch_size w)
  pub array_request : Apart w.local_addr (8 * length items) b.request (batch_size w)
  pub array_slot : Apart w.local_addr (8 * length items) b.response_slot (reply_bytes w)

-- The two calls, and where their works have their flags.
pub data Convention : Type 0 where
  darpc fasst : Convention

abbrev pub run : Convention → Rdma → Buffers → BatchWork → World → Outcome World
run darpc net b w s = call net false b w s
run fasst net b w s = fasst_call net b w s

abbrev pub flags_of : Convention → Flags
flags_of darpc = darpc_flags
flags_of fasst = ud_flags

-- `recv_flag` is 0, as the caller sets it, and no byte of the request.
pub record IsWaiting (f : Flags) (b : Buffers) (w : BatchWork) (s : World) : Type 0 where
  pub silent : s.client (w.work + f.recv_flag) ≡ 0
  pub flag_request : Apart (w.work + f.recv_flag) 1 b.request (batch_size w)

-- The reply of a write changes nothing.
take_reply-write :
    (client : Memory) (w : BatchWork) (response : ℕ)
    → IsReply client w response
    → w.flag_write ≡ 1
    → take_reply false response client ≡ client
unfolding take_reply
take_reply-write client w response reply flag = rw (reply.write_flag, flag) refl

module _ (net : Rdma) (reliable : Reliable net) (b : Buffers) (w : BatchWork) (items : List Item)
    (placed : IsPlaced b w items) (small : w.batch < 128) (s : World)
    (work : IsWork s.client w b.request items) where
  -- The request arrives, is served, and the reply arrives.
  exchange :
      (v : Convention)
      → IsWaiting (flags_of v) b w s
      → (server client : Memory) × (run v net b w s
          ≡ finish (flags_of v) w (record {
            client = response_handler (flags_of v) false b.response_slot client;
            server = serve_batch false b.request_slot b.response server;
          }))
        × IsRequest s.client server w b.request_slot items
        × KeepsOutside b.request_slot (batch_size w) s.server server
        × Same
            (reply_bytes w)
            client
            b.response_slot
            (serve_batch false b.request_slot b.response server)
            b.response
        × KeepsOutside b.response_slot (reply_bytes w) (build_batch w b.request s.client) client
  unfolding call fasst_call
  exchange v q =
      let built : Memory = build_batch w b.request s.client in
      let (server, e1) = reliable s.server b.request_slot built b.request (batch_size w) in
      let request =
        IsRequest-Same s.client w b.request items work (posted net e1)
          (build_batch-IsRequest s.client w b.request items work) in
      let served : Memory = serve_batch false b.request_slot b.response server in
      let (client, e2) = reliable built b.response_slot served b.response (reply_bytes w) in
      let reply = reply_length-bytes s.client server w b.request_slot items work.batch request in
      let quiet : built (w.work + (flags_of v).recv_flag) ≡ 0 =
        (build_batch-KeepsOutside s.client w b.request items work).at
          (w.work + (flags_of v).recv_flag) (omega (arith, q.flag_request))
        ∙ q.silent in
      (
        server,
        client,
        ran v e1 reply e2 quiet,
        request,
        posted-KeepsOutside net s.server b.request_slot built b.request (batch_size w) server e1,
        posted net e2,
        posted-KeepsOutside net built b.response_slot served b.response (reply_bytes w) client e2,
      )
    where
      ran :
          {server client : Memory} (v : Convention)
          → let built = build_batch w b.request s.client in
            let served = serve_batch false b.request_slot b.response server in
            net.post s.server b.request_slot built b.request (batch_size w) ≡ completed server
            → reply_length false server b.request_slot ≡ reply_bytes w
            → net.post built b.response_slot served b.response (reply_bytes w) ≡ completed client
            → built (w.work + (flags_of v).recv_flag) ≡ 0
            → run v net b w s
              ≡ finish (flags_of v) w (record {
                client = response_handler (flags_of v) false b.response_slot client;
                server = served;
              })
      ran darpc e1 reply e2 quiet = rw (e1, quiet, reply, e2) refl
      ran fasst e1 reply e2 quiet = rw (e1, quiet, reply, e2) refl

  -- The client's memory when the call is over.
  abbrev pub marked : Flags → Memory → Memory
  marked f m = store_byte (store_byte m (w.work + f.recv_flag) 1) (w.work + f.done_flag) 1

  finish-marked :
      (f : Flags) (client out server : Memory)
      → IsReply client w b.response_slot
      → take_reply false b.response_slot client ≡ out
      → finish f w
          (record { client = response_handler f false b.response_slot client; server = server })
        ≡ finished (record { client = marked f out; server = server })
  unfolding finish response_handler
  finish-marked f client out server reply taken =
      rw (reply.task, taken, store_byte_self out (w.work + f.recv_flag) 1) refl

  marked_at :
      (f : Flags) (m : Memory) (x : ℕ)
      → x ≢ w.work + f.recv_flag
      → x ≢ w.work + f.done_flag
      → marked f m x ≡ m x
  marked_at f m x r d =
      store_byte_ne _ (w.work + f.done_flag) 1 x d ∙ store_byte_ne m (w.work + f.recv_flag) 1 x r

  -- A write of DaRPC or FaSST without SFLUSH and RFLUSH, on a reliable network, of fewer than 128
  -- items, its buffers and what it names not overlapping and the work's recv_flag 0 when it
  -- begins, returns with the work's done_flag set; outside its buffers the server's memory is
  -- then that of the batch's copies from the client's buffers, one after the other, and the
  -- client's memory is unchanged but for the work's flags.
  pub batch_write :
      (v : Convention)
      → IsWaiting (flags_of v) b w s
      → w.flag_write ≡ 1
      → (s' : World) × (run v net b w s ≡ finished s')
        × (s'.client (w.work + (flags_of v).done_flag) ≡ 1)
        × ((x : ℕ)
            → (x < b.request_slot) ⊎ (b.request_slot + batch_size w ≤ x)
            → (x < b.response) ⊎ (b.response + response_size ≤ x)
            → s'.server x ≡ put_all s.client w.length items s.server x)
        × ((x : ℕ)
            → (x < b.request) ⊎ (b.request + batch_size w ≤ x)
            → (x < b.response_slot) ⊎ (b.response_slot + response_size ≤ x)
            → x ≢ w.work + (flags_of v).recv_flag
            → x ≢ w.work + (flags_of v).done_flag
            → s'.client x ≡ s.client x)
  batch_write v q flag =
      let (server, client, ran, request, kept, got, kept_client) = exchange v q in
      let bytes : reply_bytes w ≡ response_size = rw flag refl in
      let (reply, served) =
        serve_batch-write s.client server w b.request_slot b.response items work.batch
          (batch_size-entries s.client w b.request items work) small placed.slot_response request
          flag placed.targets_slot
          (TargetsApart-le w.length b.response (reply_bytes w) b.response response_size items
            (omega arith) (omega arith) placed.targets_response) in
      let here = IsReply-Same (Same-le got response_size (omega arith)) reply in
      let out = take_reply-write client w b.response_slot here flag in
      (
        record {
          client = marked (flags_of v) client;
          server = serve_batch false b.request_slot b.response server;
        },
        ran ∙ finish-marked (flags_of v) client client _ here out,
        store_byte_self _ (w.work + (flags_of v).done_flag) 1,
        λ x slot response.
            served x response
            ∙ put_all_at s.client w.length items server s.server x (kept.at x slot),
        λ x out slot r d.
            marked_at (flags_of v) client x r d
            ∙ kept_client.at x (omega (arith, bytes, slot))
            ∙ (build_batch-KeepsOutside s.client w b.request items work).at x out,
      )

  -- A read of DaRPC or FaSST without SFLUSH and RFLUSH, on a reliable network, of fewer than 128
  -- items, whose reply has at most 1024 bytes, the buffers and what it names not overlapping and
  -- the work's recv_flag 0 when it begins, returns with the work's done_flag set and the server's
  -- reply holding the bytes of the targets in order; but outside the request, the reply and the
  -- work's flags the client's memory is then that of copies, one after the other, from what
  -- itself held 1024 bytes behind the reply's address.
  pub batch_read :
      (v : Convention)
      → IsWaiting (flags_of v) b w s
      → w.flag_write ≡ 0
      → IsTaken b w items
      → (s' : World) × (run v net b w s ≡ finished s')
        × (s'.client (w.work + (flags_of v).done_flag) ≡ 1)
        × IsGathered s.server s'.server w.length (b.response + response_size) items
        × ((x : ℕ)
            → (x < b.request) ⊎ (b.request + batch_size w ≤ x)
            → (x < b.response_slot) ⊎ (b.response_slot + reply_bytes w ≤ x)
            → x ≢ w.work + (flags_of v).recv_flag
            → x ≢ w.work + (flags_of v).done_flag
            → s'.client x
              ≡ take_all s.client w.length (response_data b.response_slot) items s.client x)
  batch_read v q flag taken =
      let (server, client, ran, request, kept, got, kept_client) = exchange v q in
      let (reply, gathered, _) =
        serve_batch-read s.client server w b.request_slot b.response items work.batch
          (batch_size-entries s.client w b.request items work) small placed.slot_response request
          flag placed.targets_response in
      let here = IsReply-Same (Same-le got response_size (omega arith)) reply in
      let bytes : ℕ = length items * w.length in
      let temp : ℕ = response_data b.response_slot in
      let built = build_batch-KeepsOutside s.client w b.request items work in
      let array =
        IsArray-KeepsOutside _ _ b.response_slot (reply_bytes w) w.local_addr items kept_client
          taken.array_slot
          (IsArray-KeepsOutside _ _ b.request (batch_size w) w.local_addr items built
            taken.array_request
            (IsSource-IsArray s.client s.client w.length w.globle_addr w.local_addr b.request
              (batch_size w) items work.source)) in
      let pieces : Same bytes client temp s.client temp =
        Same-trans (KeepsOutside-Same kept_client bytes temp (omega (arith, taken.fits)))
          (KeepsOutside-Same built bytes temp taken.request_data) in
      let served : Memory = serve_batch false b.request_slot b.response server in
      let out : take_reply false b.response_slot client
          ≡ take_all s.client w.length temp items client =
        take_reply-read client w items b.response_slot here flag work.batch
        ∙ scatter-take_all items s.client client w.length w.local_addr b.response_slot 0 temp temp
            bytes (8 * length items) here.req_size here.local_addr
            (subst (λ k. IsArray client k items) (omega arith) array) taken.buffers_data
            taken.buffers_array taken.buffers_reply pieces (omega arith) (omega arith)
            (omega arith) in
      (
        record {
          client = marked (flags_of v) (take_all s.client w.length temp items client);
          server = served;
        },
        ran ∙ finish-marked (flags_of v) client _ served here out,
        store_byte_self _ (w.work + (flags_of v).done_flag) 1,
        IsGathered-KeepsOutside s.server server served b.request_slot (batch_size w) w.length
            (b.response + response_size) items kept placed.targets_slot gathered,
        λ x outside slot r d.
            marked_at (flags_of v) (take_all s.client w.length temp items client) x r d
            ∙ take_all_at s.client w.length temp items client s.client x
                (kept_client.at x slot ∙ built.at x outside),
      )
