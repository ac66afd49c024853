-- ===== src/Rpc/Batch/Reply.antt =====
-- The reply of a batched call: what the server puts into it, and what the client takes from it.
use model_test.Prelude.{
  ℕ, ◌+◌, ◌*◌, ◌≤◌, ◌<◌, ◌≡◌, sym, ap, ◌∙◌, List, [], ◌∷◌, length, false, arith, ◌⊎◌,
}
use mathlib.Core.Path.{subst}
use model_test.Memory.{Memory, memcpy, load, load64, store, Apart, Same}
use model_test.Memory.Laws.{
  Same-part, Same-le, Same-refl, Same-trans, load-Same, load-store, load-store-Apart,
  Same-memcpy_in,
}
use model_test.Memory.Region.{
  KeepsOutside, KeepsOutside-trans, KeepsOutside-le, store-KeepsOutside, memcpy-KeepsOutside,
  KeepsOutside-Same,
}
use model_test.Rpc.Batch.{
  BatchWork, request_size, entries_at, response_size, serve_batch, serve_entries, batch_size,
}
use model_test.Rpc.Batch.Layout.{Item, IsEntries, entries_size, IsEntries-KeepsOutside}
use model_test.Rpc.Batch.Serve.{
  put_all, TargetsApart, IsGathered, serve_entries-put_all, serve_reads, memcpy_at,
}
use model_test.Rpc.Batch.Request.{IsRequest, reply_bytes}

-- The response struct at `a`.
pub record IsReply (m : Memory) (w : BatchWork) (a : ℕ) : Type 0 where
  pub req_size : load64 m a ≡ w.length
  pub local_addr : load64 m (a + 8) ≡ w.local_addr
  pub task : load64 m (a + 16) ≡ w.work
  pub write_flag : load 4 m (a + 24) ≡ w.flag_write
  pub batch : load 4 m (a + 28) ≡ w.batch

pub IsReply-Same :
    {m m' : Memory} {w : BatchWork} {a b : ℕ}
    → Same response_size m' b m a
    → IsReply m w a
    → IsReply m' w b
IsReply-Same same r = record {
  req_size = load-Same 8 (Same-le same 8 (omega arith)) ∙ r.req_size;
  local_addr = load-Same 8 (Same-part same 8 8 (omega arith)) ∙ r.local_addr;
  task = load-Same 8 (Same-part same 16 8 (omega arith)) ∙ r.task;
  write_flag = load-Same 4 (Same-part same 24 4 (omega arith)) ∙ r.write_flag;
  batch = load-Same 4 (Same-part same 28 4 (omega arith)) ∙ r.batch;
}

put_all-Same :
    (src : Memory) (size a n : ℕ) (items : List Item) (m : Memory)
    → TargetsApart size a n items
    → Same n (put_all src size items m) a m a
put_all-Same src size a n [] m apart = Same-refl n m a
put_all-Same src size a n (it ∷ rest) m apart =
    Same-trans (put_all-Same src size a n rest (memcpy m it.globle src it.local size) apart.1) (
      KeepsOutside-Same (memcpy-KeepsOutside m it.globle src it.local size) n a
        (omega (arith, apart.0)))

-- What the writes leave at a byte depends on no other byte of the memory written to.
pub put_all_at :
    (src : Memory) (size : ℕ) (items : List Item) (m m' : Memory) (x : ℕ)
    → m x ≡ m' x
    → put_all src size items m x ≡ put_all src size items m' x
put_all_at src size [] m m' x e = e
put_all_at src size (it ∷ rest) m m' x e =
    put_all_at src size rest (memcpy m it.globle src it.local size)
      (memcpy m' it.globle src it.local size) x (memcpy_at m m' it.globle src it.local size x e)

pub TargetsApart-le :
    (size a n b k : ℕ) (items : List Item)
    → a ≤ b
    → b + k ≤ a + n
    → TargetsApart size a n items
    → TargetsApart size b k items
TargetsApart-le size a n b k [] p q h = h
TargetsApart-le size a n b k (it ∷ rest) p q h =
    (omega (arith, h.0), TargetsApart-le size a n b k rest p q h.1)

module _ (src m : Memory) (w : BatchWork) (a response : ℕ) (items : List Item)
    (n : w.batch ≡ length items)
    (size : batch_size w ≡ entries_at + entries_size w.flag_write w.length (length items))
    (small : w.batch < 128) (apart : Apart a (batch_size w) response (reply_bytes w))
    (r : IsRequest src m w a items) where
  -- the reply's struct, before the loop
  abbrev headed_response : Memory
  headed_response =
      store 4 (store 4 (memcpy m response m a request_size) (response + 28) (m (a + 24)))
        (response + 24) (m (a + 25))

  headed_response-KeepsOutside : KeepsOutside response response_size m headed_response
  headed_response-KeepsOutside =
      KeepsOutside-trans
        (KeepsOutside-le response response_size (memcpy-KeepsOutside m response m a request_size)
          (omega arith) (omega arith))
        (KeepsOutside-trans
          (KeepsOutside-le response response_size
            (store-KeepsOutside 4 _ (response + 28) (m (a + 24))) (omega arith) (omega arith))
          (KeepsOutside-le response response_size
            (store-KeepsOutside 4 _ (response + 24) (m (a + 25))) (omega arith) (omega arith)))

  headed_response-IsReply : w.flag_write < 2 → IsReply headed_response w response
  headed_response-IsReply flag_char =
      let copied : Memory = memcpy m response m a request_size in
      let got = Same-memcpy_in m response m a request_size in
      record {
        req_size =
            load-store-Apart 8 _ response 4 (response + 24) (m (a + 25)) (omega arith)
            ∙ load-store-Apart 8 copied response 4 (response + 28) (m (a + 24)) (omega arith)
            ∙ load-Same 8 (Same-le got 8 (omega arith))
            ∙ r.req_size;
        local_addr =
            load-store-Apart 8 _ (response + 8) 4 (response + 24) (m (a + 25)) (omega arith)
            ∙ load-store-Apart 8 copied (response + 8) 4 (response + 28) (m (a + 24)) (omega arith)
            ∙ load-Same 8 (Same-part got 8 8 (omega arith))
            ∙ r.local_addr;
        task =
            load-store-Apart 8 _ (response + 16) 4 (response + 24) (m (a + 25)) (omega arith)
            ∙ load-store-Apart 8 copied (response + 16) 4 (response + 28) (m (a + 24)) (omega arith)
            ∙ load-Same 8 (Same-part got 16 8 (omega arith))
            ∙ r.task;
        write_flag =
            load-store 4 _ (response + 24) (m (a + 25)) (omega (arith, r.flag_write))
            ∙ r.flag_write;
        batch =
            load-store-Apart 4 _ (response + 28) 4 (response + 24) (m (a + 25)) (omega arith)
            ∙ load-store 4 copied (response + 28) (m (a + 24)) (omega (arith, r.batch))
            ∙ r.batch;
      }

  headed_response-IsEntries :
      IsEntries src headed_response w.flag_write w.length (a + entries_at) items
  headed_response-IsEntries =
      IsEntries-KeepsOutside src m headed_response response response_size w.flag_write w.length
        (a + entries_at) items headed_response-KeepsOutside (omega (arith, apart, size)) r.entries

  -- The loop that the handler runs, once the two bytes are read.
  abbrev loop : Memory
  loop =
      serve_entries (length items) w.flag_write (a + entries_at) (response + response_size)
        headed_response

  pub serve_batch-loop : serve_batch false a response m ≡ loop
  unfolding serve_batch
  serve_batch-loop =
      ap
        (λ (p : ℕ × ℕ).
          serve_entries p.0 p.1 (a + entries_at) (response + response_size) headed_response)
        (λ i. ((r.batch ∙ n) i, r.flag_write i))

  -- A write batch: the writes in their order, outside the reply.
  pub serve_batch-write :
      w.flag_write ≡ 1
      → TargetsApart w.length a (batch_size w) items
      → TargetsApart w.length response response_size items
      → IsReply (serve_batch false a response m) w response
        × ((x : ℕ)
            → (x < response) ⊎ (response + response_size ≤ x)
            → serve_batch false a response m x ≡ put_all src w.length items m x)
  serve_batch-write flag slot reply =
      let entries =
        subst (λ f. IsEntries src headed_response f w.length (a + entries_at) items) flag
          headed_response-IsEntries in
      let ran : loop ≡ put_all src w.length items headed_response =
        ap
          (λ f.
            serve_entries (length items) f (a + entries_at) (response + response_size)
              headed_response)
          flag
        ∙ serve_entries-put_all items src headed_response w.length (a + entries_at)
            (response + response_size) a (batch_size w) entries slot (omega arith)
            (omega (arith, size, ap (λ f. entries_size f w.length (length items)) flag)) in
      subst
        (λ t.
          IsReply t w response
          × ((x : ℕ)
              → (x < response) ⊎ (response + response_size ≤ x)
              → t x ≡ put_all src w.length items m x))
        (sym (serve_batch-loop ∙ ran))
        (
          IsReply-Same
              (put_all-Same src w.length response response_size items headed_response reply)
              (headed_response-IsReply (omega (arith, flag))),
          λ x out.
              put_all_at src w.length items headed_response m x
                (headed_response-KeepsOutside.at x out),
        )

  -- A read batch: the server's bytes, in the order of the entries.
  pub serve_batch-read :
      w.flag_write ≡ 0
      → TargetsApart w.length response (reply_bytes w) items
      → IsReply (serve_batch false a response m) w response
        × IsGathered m (serve_batch false a response m) w.length (response + response_size) items
        × KeepsOutside response (reply_bytes w) m (serve_batch false a response m)
  serve_batch-read flag targets =
      let bytes : reply_bytes w ≡ response_size + length items * w.length =
        ground (arith, flag, ap (λ k. k * w.length) n) in
      let (keeps, got) =
        serve_reads items src m headed_response w.flag_write w.length (a + entries_at)
          (response + response_size) response (reply_bytes w) (λ e. omega (arith, e, flag))
          headed_response-IsEntries targets (omega (arith, apart, size)) (omega arith)
          (omega (arith, bytes))
          (KeepsOutside-le response (reply_bytes w) headed_response-KeepsOutside (omega arith)
            (omega (arith, bytes))) in
      subst
        (λ t.
          IsReply t w response
          × IsGathered m t w.length (response + response_size) items
          × KeepsOutside response (reply_bytes w) m t)
        (sym serve_batch-loop)
        (
          IsReply-Same (KeepsOutside-Same keeps response_size response (omega arith))
              (headed_response-IsReply (omega (arith, flag))),
          got,
          KeepsOutside-trans
              (KeepsOutside-le response (reply_bytes w) headed_response-KeepsOutside (omega arith)
                (omega (arith, bytes)))
              (KeepsOutside-le response (reply_bytes w) keeps (omega arith) (omega (arith, bytes))),
        )
