-- ===== src/Rpc/Scale/Answer.antt =====
-- The reply of a ScaleRPC call: what the server posts, and what the client does with it.
use model_test.Prelude.{
  ℕ, ◌+◌, ◌*◌, ◌≤◌, ◌<◌, ◌≡◌, refl, sym, ap, ◌∙◌, List, length, Bool, true, false, ◌==◌,
  if◌then◌else◌, arith, ◌⊎◌, inl, inr,
}
use mathlib.Core.Path.{subst}
use model_test.Memory.{Memory, store_byte, Apart, Same}
use model_test.Memory.Laws.{store_byte_self, store_byte_ne}
use model_test.Memory.Region.{KeepsOutside-refl, store_byte-KeepsOutside}
use model_test.Rdma.{Rdma, finished, Reliable, posted}
use model_test.Rpc.Batch.Layout.{Item}
use model_test.Rpc.Scale.{
  ScaleClient, ScaleServer, ScaleWork, World, record_size, records_size, serve_records, serve_from,
  take_records, receive_reply,
}
use model_test.Rpc.Scale.Records.{IsRecords, total, total-mul, record_size-data, IsRecords-Same}
use model_test.Rpc.Scale.Copies.{copy_all, AllApart, written, IsRecords-KeepsOutside}
use model_test.Rpc.Scale.Loop.{Served, serve_records-Served, take_records-copy_all}
use model_test.Rpc.Scale.Request.{IsWork, IsFlag, batch_bytes, buffer_bytes, records_size-total}

-- The server that the client is connected to, for batches of this shape.
abbrev pub paired : ScaleClient → ScaleWork → (sdata slocal : ℕ) → ScaleServer
paired c w sdata slocal = record {
  sreq = c.sreq;
  sdata = sdata;
  slocal = slocal;
  cdata = c.cdata;
  size = w.length;
  batch = w.batch;
}

-- What the client copies for a batch that reads, and for one that writes.
abbrev pub taken : (read : Bool) → (src : Memory) → (size : ℕ) → List Item → Memory → Memory
taken true src size items m = copy_all (λ it. it.local) (λ it. it.globle) src size items m
taken false src size items m = m

module _ (net : Rdma) (reliable : Reliable net) (c : ScaleClient) (w : ScaleWork) (sdata slocal : ℕ)
    (items : List Item) (m : Memory) (work : IsWork m c w items) where
  abbrev pub write : Bool
  write = w.flag_write == 1

  abbrev pub read : Bool
  read = w.flag_write == 0

  abbrev pub offset : ℕ
  offset = if write then w.batch * w.length else 0

  abbrev left : ℕ
  left = w.batch * record_size read w.length

  offset_reply : IsFlag w.flag_write → offset + left ≡ batch_bytes w
  unfolding record_size
  offset_reply (inl e) = rw e (omega arith)
  offset_reply (inr e) = rw e (omega arith)

  left-total : left ≡ total read w.length (length items)
  left-total =
      ap (λ k. k * record_size read w.length) work.batch
      ∙ sym (total-mul read w.length (length items))

  read-write : read ≡ true → write ≡ false
  read-write e = ground (arith, e)

  -- The reply in the client's buffer, and the server's memory behind it.
  pub record Answered (s s' : World) : Type 0 where
    pub server :
        (x : ℕ)
        → (x < sdata) ⊎ (sdata + buffer_bytes w ≤ x)
        → s'.server x ≡ written write m w.length items s.server x
    pub records :
        IsRecords read (λ it. it.globle) s.server s'.client w.length (c.cdata + offset) items
    pub valid : s'.client (c.cdata + batch_bytes w) ≡ 1
    pub client : (x : ℕ) → (x < c.cdata) ⊎ (c.cdata + buffer_bytes w ≤ x) → s'.client x ≡ s.client x
    pub context_swith : s'.context_swith ≡ s.context_swith

  pub serve_from-Answered :
      (s : World) (addr a n : ℕ)
      → IsRecords write (λ it. it.local) m s.server w.length addr items
      → AllApart (λ it. it.globle) w.length a n items
      → AllApart (λ it. it.globle) w.length sdata (buffer_bytes w) items
      → Apart a n sdata (buffer_bytes w)
      → a ≤ addr
      → addr + records_size w ≤ a + n
      → (s' : World) × (serve_from net true (paired c w sdata slocal) w.flag_write addr s
          ≡ finished s')
        × Answered s s'
  unfolding serve_from
  serve_from-Answered s addr a n records request reply apart lower upper =
      let temp2 : ℕ = sdata + offset in
      let end = offset_reply work.flag in
      let (outside, answers) =
        subst
          (λ k.
            Served write read m s.server w.length a n sdata (buffer_bytes w) work.length_64
              read-write apart items s.server
              (serve_records k write read w.length addr temp2 s.server) temp2)
          (sym work.batch)
          (serve_records-Served write read m s.server w.length a n sdata (buffer_bytes w)
            work.length_64 read-write apart items s.server addr temp2 records work.items_64 request
            reply (λ e. KeepsOutside-refl sdata (buffer_bytes w) s.server) lower
            (omega (arith, upper, records_size-total m c w items work)) (omega arith)
            (omega (arith, end, left-total))) in
      let looped : Memory = serve_records w.batch write read w.length addr temp2 s.server in
      let served : Memory = store_byte looped (temp2 + left) 1 in
      let (client, e) = reliable s.client (c.cdata + offset) served temp2 (1 + left) in
      let got : Same (1 + left) client (c.cdata + offset) served temp2 = posted net e in
      let here : IsRecords read (λ it. it.globle) s.server served w.length temp2 items =
        IsRecords-KeepsOutside read (λ it. it.globle) s.server looped served (temp2 + left) 1
          w.length temp2 items (store_byte-KeepsOutside looped (temp2 + left) 1)
          (omega (arith, left-total)) answers in
      (
        record s { client = client; server = served },
        rw e refl,
        record {
          server = λ x out.
              store_byte_ne looped (temp2 + left) 1 x (omega (arith, out, end))
              ∙ outside x (omega (arith, out, end, left-total));
          records =
              IsRecords-Same read (λ it. it.globle) s.server served client w.length temp2
                (c.cdata + offset) items
                (record { at = λ i h. got.at i (omega (arith, h, left-total)) }) here;
          valid =
              ap client {y = c.cdata + offset + left} (omega (arith, end))
              ∙ got.at left (omega arith)
              ∙ store_byte_self looped (temp2 + left) 1;
          client = λ x out.
              net.post_out s.client (c.cdata + offset) served temp2 (1 + left) client e x
                (omega (arith, out, end));
          context_swith = refl;
        },
      )

  -- The client takes the reply: the copies of a read, outside its reply buffer, and a cleared byte.
  pub record Received (src : Memory) (s s' : World) : Type 0 where
    pub client :
        (x : ℕ)
        → (x < c.cdata) ⊎ (c.cdata + buffer_bytes w ≤ x)
        → s'.client x ≡ taken read src w.length items s.client x
    pub cleared : s'.client (c.cdata + batch_bytes w) ≡ 0
    pub server : s'.server ≡ s.server
    pub context_swith : s'.context_swith ≡ s.context_swith

  taking :
      IsFlag w.flag_write
      → (src : Memory) (s : World)
      → IsRecords read (λ it. it.globle) src s.client w.length (c.cdata + offset) items
      → AllApart (λ it. it.local) w.length c.cdata (buffer_bytes w) items
      → (if w.flag_write == 0 then take_records w.batch c.cdata s.client else s.client)
        ≡ taken read src w.length items s.client
  taking (inl e) src s records apart =
      let all : IsRecords true (λ it. it.globle) src s.client w.length c.cdata items =
        subst (λ k. IsRecords true (λ it. it.globle) src s.client w.length k items) (omega arith)
          (subst
            (λ f.
              IsRecords (f == 0) (λ it. it.globle) src s.client w.length
                (c.cdata + (if f == 1 then w.batch * w.length else 0)) items)
            e records) in
      let all_left : w.batch * record_size true w.length ≡ total true w.length (length items) =
        subst
          (λ f. w.batch * record_size (f == 0) w.length ≡ total (f == 0) w.length (length items)) e
          left-total in
      let all_end : w.batch * record_size true w.length ≡ batch_bytes w =
        ap (λ k. w.batch * k) (record_size-data true w.length refl) in
      rw (e, work.batch)
        (take_records-copy_all items src s.client w.length c.cdata c.cdata (buffer_bytes w) all
          apart (omega arith) (omega (arith, all_left, all_end)))
  taking (inr e) src s records apart = rw e refl

  pub receive_reply-Received :
      (src : Memory) (s : World)
      → IsRecords read (λ it. it.globle) src s.client w.length (c.cdata + offset) items
      → AllApart (λ it. it.local) w.length c.cdata (buffer_bytes w) items
      → s.client (c.cdata + batch_bytes w) ≡ 1
      → (s' : World) × (receive_reply c w s ≡ finished s') × Received src s s'
  unfolding receive_reply
  receive_reply-Received src s records apart valid =
      let at : c.cdata + w.batch * 24 + w.batch * w.length ≡ c.cdata + batch_bytes w =
        omega arith in
      let got : Memory = taken read src w.length items s.client in
      (
        record s { client = store_byte got (c.cdata + batch_bytes w) 0 },
        rw (at, valid, taking work.flag src s records apart) refl,
        record {
          client = λ x out. store_byte_ne got (c.cdata + batch_bytes w) 0 x (omega (arith, out));
          cleared = store_byte_self got (c.cdata + batch_bytes w) 0;
          server = refl;
          context_swith = refl;
        },
      )
