-- ===== src/Rpc/Scale/Exchange.antt =====
-- The request of either type, the server's round and the reply, one after the other.
use model_test.Prelude.{
  ℕ, ◌+◌, ◌-◌, ◌^◌, ◌<◌, ◌≤◌, ◌≡◌, refl, ap, ◌∙◌, Bool, List, length, true, ◌==◌, arith,
}
use mathlib.Core.Path.{subst}
use model_test.Memory.{Memory, store_byte, load64, Apart, Same}
use model_test.Memory.Laws.{Same-le, Same-part, load-Same, load-store_byte-Apart}
use model_test.Memory.Region.{
  KeepsOutside, KeepsOutside-trans, KeepsOutside-le, store_byte-KeepsOutside,
}
use model_test.Rdma.{Rdma, finished, completed, ◌>>=◌, Reliable, posted}
use model_test.Rpc.Batch.Layout.{Item}
use model_test.Rpc.Scale.{
  ScaleClient, ScaleServer, ScaleWork, World, mr_size, mr_addr, records_size, offset_of, request_at,
  request_size, build_request, build_plain, build_switch, send_request, poll_request,
  request_handler, serve_from, receive_reply, valid_at, exchange,
}
use model_test.Rpc.Scale.Records.{IsRecords, total, IsRecords-Same}
use model_test.Rpc.Scale.Copies.{AllApart, written_at, IsRecords-KeepsOutside}
use model_test.Rpc.Scale.Request.{
  IsWork, IsTrailer, IsTrailer-Same, batch_bytes, buffer_bytes, records_size-total, records_size-le,
  offset_plain, offset_switch, build_plain-holds, build_switch-IsSwitch,
}
use model_test.Rpc.Scale.Answer.{paired, serve_from-Answered, receive_reply-Received}
use model_test.Rpc.Scale.Placed.{
  all_tasks, Same_at, IsRecords-source, taken_at, IsPlaced, Called, IsSeen, IsSilent,
}

module _ (net : Rdma) (reliable : Reliable net) (c : ScaleClient) (w : ScaleWork) (sdata slocal : ℕ)
    (items : List Item) (placed : IsPlaced c w sdata slocal items) (s : World)
    (work : IsWork s.client c w items) where
  abbrev g : ScaleServer
  g = paired c w sdata slocal

  -- Where the requests go.
  plain_at : (a : ℕ) → a + buffer_bytes w < 2 ^ 64 → request_at a 2 w ≡ a + offset_of 2 w
  plain_at a h = omega (arith, offset_plain w work.flag)

  switch_at : (a : ℕ) → a + buffer_bytes w < 2 ^ 64 → request_at a 1 w ≡ a + offset_of 1 w
  switch_at a h = omega (arith, offset_switch w work.room work.bytes_64)

  -- The request's last four bytes, as the server's poll finds them.
  arrived_tail :
      (t : ℕ) (built server : Memory)
      → Same (request_size t w) server (c.sreq + offset_of t w) built (c.creq + offset_of t w)
      → offset_of t w + request_size t w ≡ batch_bytes w + 4
      → 4 ≤ request_size t w
      → IsTrailer built (c.creq + batch_bytes w) t w
      → IsTrailer server (c.sreq + batch_bytes w) t w
  arrived_tail t built server same end room tail =
      IsTrailer-Same
        (Same_at (c.sreq + batch_bytes w) (c.creq + batch_bytes w) (omega (arith, end, room))
          (omega (arith, end, room))
          (Same-part same (request_size t w - 4) 4 (omega (arith, room))))
        tail

  cleared_tail : World → World
  cleared_tail s1 = record s1 { server = store_byte s1.server (c.sreq + batch_bytes w + 3) 0 }

  poll_plain :
      (s1 : World)
      → IsTrailer s1.server (c.sreq + batch_bytes w) 2 w
      → poll_request net true true g s1
        ≡ serve_from net true g w.flag_write (c.sreq + offset_of 2 w) (cleared_tail s1)
  unfolding poll_request request_handler cleared_tail
  poll_plain s1 tail = rw (tail.valid, tail.type_byte, tail.flag_write) refl

  -- The server's part and the client's, from where the records are on.
  answer :
      (s2 : World) (addr a n : ℕ)
      → IsRecords (w.flag_write == 1) (λ it. it.local) s.client s2.server w.length addr items
      → AllApart (λ it. it.globle) w.length a n items
      → Apart a n sdata (buffer_bytes w)
      → a ≤ addr
      → addr + records_size w ≤ a + n
      → IsSeen c w slocal items s s2
      → (s' : World) × ((serve_from net true g w.flag_write addr s2 >>= receive_reply c w)
          ≡ finished s')
        × Called c w sdata slocal items s s'
        × (s'.context_swith ≡ s2.context_swith)
  answer s2 addr a n records targets apart lower upper seen =
      let (s3, e3, ans) =
        serve_from-Answered net reliable c w sdata slocal items s.client work s2 addr a n records
          targets placed.targets_sdata apart lower upper in
      let (s4, e4, got) =
        receive_reply-Received net reliable c w sdata slocal items s.client work s.server s3
          (seen.targets (w.flag_write == 0) s3.client _ ans.records) placed.locals_cdata
          ans.valid in
      (
        s4,
        rw e3 e4,
        record {
          server = λ x sreq sdata local.
              ap (λ f. f x) got.server
              ∙ ans.server x sdata
              ∙ written_at (w.flag_write == 1) s.client w.length items s2.server s.server x
                  (seen.server x sreq local);
          client = λ x creq cdata own.
              got.client x cdata
              ∙ taken_at (w.flag_write == 0) s.server w.length items s3.client s.client x
                  (ans.client x cdata ∙ seen.client x creq own);
          cleared = got.cleared;
        },
        got.context_swith ∙ ans.context_swith,
      )

  -- What the poll leaves of the request, and what `targets` needs.
  polled :
      (s1 : World) (at n : ℕ)
      → KeepsOutside at n s.server s1.server
      → c.sreq ≤ at
      → at + n ≤ c.sreq + buffer_bytes w
      → KeepsOutside c.sreq (buffer_bytes w) s.server (cleared_tail s1).server
  unfolding cleared_tail
  polled s1 at n keeps lower upper =
      KeepsOutside-trans (KeepsOutside-le c.sreq (buffer_bytes w) keeps lower upper) (
        KeepsOutside-le c.sreq (buffer_bytes w)
          (store_byte-KeepsOutside s1.server (c.sreq + batch_bytes w + 3) 0) (omega arith)
          (omega arith))

  pub exchange_plain :
      (early : Bool)
      → IsSilent c w s.client
      → (s' : World) × (exchange net all_tasks c (paired c w sdata slocal) w 2 early s
          ≡ finished s')
        × Called c w sdata slocal items s s'
        × (s'.context_swith ≡ s.context_swith)
  unfolding exchange send_request build_request cleared_tail
  exchange_plain early q =
      let (records, tail, kept) = build_plain-holds s.client c w items work in
      let built : Memory = build_plain (c.creq + offset_of 2 w) w s.client in
      let plain = offset_plain w work.flag in
      let (server, e1) =
        reliable s.server (c.sreq + offset_of 2 w) built (c.creq + offset_of 2 w)
          (request_size 2 w) in
      let same : Same (request_size 2 w) server (c.sreq + offset_of 2 w) built
          (c.creq + offset_of 2 w) =
        posted net e1 in
      let s1 : World = record s { client = built; server = server } in
      let s2 : World = cleared_tail s1 in
      let keeps : KeepsOutside c.sreq (buffer_bytes w) s.server s2.server =
        polled s1 (c.sreq + offset_of 2 w) (request_size 2 w)
          (record {
            at =
                net.post_out s.server (c.sreq + offset_of 2 w) built (c.creq + offset_of 2 w)
                  (request_size 2 w) server e1;
          })
          (omega arith) (omega (arith, plain)) in
      let here =
        IsRecords-KeepsOutside (w.flag_write == 1) (λ it. it.local) s.client server s2.server
          (c.sreq + batch_bytes w + 3) 1 w.length (c.sreq + offset_of 2 w) items
          (store_byte-KeepsOutside server (c.sreq + batch_bytes w + 3) 0)
          (omega (arith, plain, records_size-total s.client c w items work))
          (IsRecords-Same (w.flag_write == 1) (λ it. it.local) s.client built server w.length
            (c.creq + offset_of 2 w) (c.sreq + offset_of 2 w) items
            (Same-le same (total (w.flag_write == 1) w.length (length items))
              (omega (arith, records_size-total s.client c w items work)))
            records) in
      let (s', ran, called, swith) =
        answer s2 (c.sreq + offset_of 2 w) c.sreq (buffer_bytes w) here placed.targets_sreq
          placed.sreq_sdata (omega arith) (omega (arith, plain))
          (record {
            server = λ x sreq local. keeps.at x sreq;
            targets = λ r m cur h.
                IsRecords-source r (λ it. it.globle) s.server s2.server m c.sreq (buffer_bytes w)
                  w.length cur items keeps placed.targets_sreq h;
            client = λ x creq own. kept.at x creq;
          }) in
      (
        s',
        rw
            (
              plain_at c.creq work.creq_64,
              plain_at c.sreq work.sreq_64,
              e1,
              kept.at (valid_at c w) q.valid_creq ∙ q.silent,
              poll_plain s1
                  (arrived_tail 2 built server same (omega (arith, plain)) (omega arith) tail),
            )
            ran,
        called,
        swith,
      )

  -- A request of type 1 is fetched from the client's memory.
  poll_switch :
      (s1 : World) (server : Memory)
      → IsTrailer s1.server (c.sreq + batch_bytes w) 1 w
      → load64 s1.server (c.sreq + offset_of 1 w) ≡ records_size w
      → load64 s1.server (c.sreq + offset_of 1 w + 8 + mr_addr) ≡ w.local_data
      → net.post (cleared_tail s1).server slocal s1.client w.local_data (records_size w)
        ≡ completed server
      → poll_request net true true g s1
        ≡ serve_from net true g w.flag_write slocal (record s1 { server = server })
  unfolding poll_request request_handler cleared_tail
  poll_switch s1 server tail size addr e =
      let end = offset_switch w work.room work.bytes_64 in
      let cleared : Memory = store_byte s1.server (c.sreq + batch_bytes w + 3) 0 in
      let addr_at : load64 cleared (c.sreq + batch_bytes w - mr_size + mr_addr) ≡ w.local_data =
        load-store_byte-Apart 8 s1.server (c.sreq + batch_bytes w - mr_size + mr_addr)
          (c.sreq + batch_bytes w + 3) 0 (omega arith)
        ∙ ap (load64 s1.server) (omega (arith, end))
        ∙ addr in
      let size_at : load64 cleared (c.sreq + batch_bytes w - 8 - mr_size) ≡ records_size w =
        load-store_byte-Apart 8 s1.server (c.sreq + batch_bytes w - 8 - mr_size)
          (c.sreq + batch_bytes w + 3) 0 (omega (arith, work.room))
        ∙ ap (load64 s1.server) (omega (arith, end))
        ∙ size in
      rw (tail.valid, tail.type_byte, tail.flag_write, addr_at, size_at, e) refl

  pub exchange_switch :
      (early : Bool)
      → IsSilent c w s.client
      → (s' : World) × (exchange net all_tasks c (paired c w sdata slocal) w 1 early s
          ≡ finished s')
        × Called c w sdata slocal items s s'
        × (s'.context_swith ≡ s.context_swith)
  unfolding exchange send_request build_request cleared_tail
  exchange_switch early q =
      let a : ℕ = c.sreq + offset_of 1 w in
      let req = build_switch-IsSwitch s.client c w items work in
      let built : Memory = build_switch (c.creq + offset_of 1 w) w s.client in
      let end = offset_switch w work.room work.bytes_64 in
      let (server, e1) = reliable s.server a built (c.creq + offset_of 1 w) (request_size 1 w) in
      let same : Same (request_size 1 w) server a built (c.creq + offset_of 1 w) = posted net e1 in
      let s1 : World = record s { client = built; server = server } in
      let (server3, e2) =
        reliable (cleared_tail s1).server slocal built w.local_data (records_size w) in
      let s2 : World = record s1 { server = server3 } in
      let keeps : KeepsOutside c.sreq (buffer_bytes w) s.server (cleared_tail s1).server =
        polled s1 a (request_size 1 w)
          (record {
            at =
                net.post_out s.server a built (c.creq + offset_of 1 w) (request_size 1 w) server e1;
          })
          (omega arith) (omega (arith, end)) in
      let fetched : KeepsOutside slocal (buffer_bytes w) (cleared_tail s1).server server3 =
        KeepsOutside-le slocal (buffer_bytes w)
          (record {
            at =
                net.post_out (cleared_tail s1).server slocal built w.local_data (records_size w)
                  server3 e2;
          })
          (omega arith) (omega (arith, records_size-le w work.flag)) in
      let copied : Same (records_size w) server3 slocal built w.local_data = posted net e2 in
      let here =
        IsRecords-Same (w.flag_write == 1) (λ it. it.local) s.client built server3 w.length
          w.local_data slocal items
          (Same-le copied (total (w.flag_write == 1) w.length (length items))
            (omega (arith, records_size-total s.client c w items work)))
          req.records in
      let (s', ran, called, swith) =
        answer s2 slocal slocal (buffer_bytes w) here placed.targets_slocal placed.slocal_sdata
          (omega arith) (omega (arith, records_size-le w work.flag))
          (record {
            server = λ x sreq local. fetched.at x local ∙ keeps.at x sreq;
            targets = λ r m cur h.
                IsRecords-source r (λ it. it.globle) s.server (cleared_tail s1).server m c.sreq
                  (buffer_bytes w) w.length cur items keeps placed.targets_sreq
                  (IsRecords-source r (λ it. it.globle) (cleared_tail s1).server server3 m slocal
                    (buffer_bytes w) w.length cur items fetched placed.targets_slocal h);
            client = λ x creq own. req.kept x creq own;
          }) in
      let tail : IsTrailer built (c.creq + batch_bytes w) 1 w =
        subst (λ k. IsTrailer built k 1 w) (omega (arith, end)) req.tail in
      let size : load64 server a ≡ records_size w =
        load-Same 8 (Same-le same 8 (omega arith)) ∙ req.size in
      let registration : Same mr_size server (a + 8) built (c.creq + offset_of 1 w + 8) =
        Same-part same 8 mr_size (omega arith) in
      let addr : load64 server (a + 8 + mr_addr) ≡ w.local_data =
        load-Same 8 (Same-part registration mr_addr 8 (omega arith)) ∙ req.addr in
      let last : IsTrailer server (c.sreq + batch_bytes w) 1 w =
        arrived_tail 1 built server same (omega (arith, end)) (omega arith) tail in
      (
        s',
        rw
            (
              switch_at c.creq work.creq_64,
              switch_at c.sreq work.sreq_64,
              e1,
              req.kept (valid_at c w) q.valid_creq q.valid_data ∙ q.silent,
              poll_switch s1 server3 last size addr e2,
            )
            ran,
        called,
        swith,
      )
