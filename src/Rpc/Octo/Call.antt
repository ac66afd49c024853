-- ===== src/Rpc/Octo/Call.antt =====
-- A whole Octopus call: what a write does to the server, and which work the reply ends.
use model_test.Prelude.{
  ℕ, ◌+◌, ◌^◌, ◌≤◌, ◌<◌, ◌≡◌, refl, ◌∙◌, true, ◌==◌, if◌then◌else◌, arith, inl, inr, Bool-cases,
}
use mathlib.Core.Path.{subst}
use model_test.Memory.{Memory, store_byte, memcpy, load64, store64, Apart, Same}
use model_test.Memory.Laws.{
  Same-part, Same-le, Same-trans, Same-memcpy_in, load-Same, load-store, load-store-Apart,
  load-store_byte-Apart, store_byte_self,
}
use model_test.Memory.Region.{
  KeepsOutside, KeepsOutside-refl, memcpy-KeepsOutside, KeepsOutside-load, KeepsOutside-Same,
  Same-KeepsOutside,
}
use model_test.Rdma.{Rdma, spinning, Reliable, posted}
use model_test.Rpc.Octo.{
  OctoClient, OctoServer, OctoWork, World, request_size, task_at, flag_at, build_request,
  request_length, send_request, serve_request, reply_length, request_handler, response_handler,
  call,
}

-- The request at `a`.
pub record IsRequest (m : Memory) (a : ℕ) (w : OctoWork) : Type 0 where
  pub size : load64 m a ≡ w.length
  pub server_addr : load64 m (a + 8) ≡ w.dhmp_addr
  pub flag_write : m (a + flag_at) ≡ w.flag_write

pub record IsTyped (w : OctoWork) : Type 0 where
  pub length_64 : w.length < 256 ^ 8
  pub addr_64 : w.dhmp_addr < 256 ^ 8

module _ (c : OctoClient) (w : OctoWork) (m : Memory) where
  abbrev sized : Memory
  sized = store64 m c.local w.length

  abbrev named : Memory
  named = store64 (store64 sized (c.local + 8) w.dhmp_addr) (c.local + 16) w.local_addr

  abbrev tasked : Memory
  tasked = store64 named (c.local + task_at) w.work

  abbrev flagged : Memory
  flagged = store_byte tasked (c.local + flag_at) w.flag_write

  flagged-IsRequest : IsTyped w → IsRequest flagged c.local w
  flagged-IsRequest t = record {
    size =
        load-store_byte-Apart 8 tasked c.local (c.local + flag_at) w.flag_write (omega arith)
        ∙ load-store-Apart 8 named c.local 8 (c.local + task_at) w.work (omega arith)
        ∙ load-store-Apart 8 _ c.local 8 (c.local + 16) w.local_addr (omega arith)
        ∙ load-store-Apart 8 sized c.local 8 (c.local + 8) w.dhmp_addr (omega arith)
        ∙ load-store 8 m c.local w.length t.length_64;
    server_addr =
        load-store_byte-Apart 8 tasked (c.local + 8) (c.local + flag_at) w.flag_write (omega arith)
        ∙ load-store-Apart 8 named (c.local + 8) 8 (c.local + task_at) w.work (omega arith)
        ∙ load-store-Apart 8 _ (c.local + 8) 8 (c.local + 16) w.local_addr (omega arith)
        ∙ load-store 8 sized (c.local + 8) w.dhmp_addr t.addr_64;
    flag_write = store_byte_self tasked (c.local + flag_at) w.flag_write;
  }

  payload-KeepsOutside :
      KeepsOutside (c.local + request_size) w.length flagged (build_request c w m)
  unfolding build_request
  payload-KeepsOutside = elim (Bool-cases (w.flag_write == 1)) [
    | inl e ↦
        rw e (memcpy-KeepsOutside flagged (c.local + request_size) flagged w.local_addr w.length)
    | inr e ↦ rw e (KeepsOutside-refl (c.local + request_size) w.length flagged)
  ]

  build_request-IsRequest : IsTyped w → IsRequest (build_request c w m) c.local w
  build_request-IsRequest t =
      let r = flagged-IsRequest t in
      record {
        size = KeepsOutside-load payload-KeepsOutside 8 c.local (omega arith) ∙ r.size;
        server_addr =
            KeepsOutside-load payload-KeepsOutside 8 (c.local + 8) (omega arith) ∙ r.server_addr;
        flag_write = payload-KeepsOutside.at (c.local + flag_at) (omega arith) ∙ r.flag_write;
      }

-- The server's buffers and the target do not overlap, and the nodes' buffers are paired.
pub record IsPlaced (c : OctoClient) (g : OctoServer) (w : OctoWork) : Type 0 where
  pub request_at : c.s_mr ≡ g.s_mr
  pub reply_at : g.c_mr ≡ c.c_mr
  pub struct_request : Apart g.s_struct request_size g.s_mr (request_size + w.length)
  pub reply_request : Apart g.local (request_size + w.length) g.s_mr (request_size + w.length)
  pub target_reply : Apart w.dhmp_addr w.length g.local request_size
  pub target_request : Apart w.dhmp_addr w.length g.s_mr (request_size + w.length)

module _ (g : OctoServer) (w : OctoWork) (m : Memory) (r : IsRequest m g.s_mr w)
    (target_reply : Apart w.dhmp_addr w.length g.local request_size) where
  -- The head of the reply is the registration's.
  serve_request-head : Same request_size (serve_request g m) g.local m g.s_struct
  unfolding serve_request
  serve_request-head =
      let headed : Memory = memcpy m g.local m g.s_struct request_size in
      let head : Same request_size headed g.local m g.s_struct =
        Same-memcpy_in m g.local m g.s_struct request_size in
      rw (r.flag_write, r.size, r.server_addr)
        (elim (Bool-cases (w.flag_write == 1)) [
          | inl e ↦ rw e (
              Same-KeepsOutside
                (memcpy-KeepsOutside headed w.dhmp_addr headed (g.s_mr + request_size) w.length)
                head (omega (arith, target_reply)))
          | inr e ↦ rw e (
              Same-KeepsOutside
                (memcpy-KeepsOutside headed (g.local + request_size) headed w.dhmp_addr w.length)
                head (omega arith))
        ])

  served_length :
      reply_length g m ≡ (if w.flag_write == 0 then request_size + w.length else request_size)
  served_length = rw (r.flag_write, r.size) refl

request_length-Bounds :
    (w : OctoWork)
    → (request_size ≤ request_length w) × (request_length w ≤ request_size + w.length)
request_length-Bounds w = (ground arith, ground arith)

reply_length-ge : (g : OctoServer) (m : Memory) → request_size ≤ reply_length g m
reply_length-ge g m = ground arith

module _ (net : Rdma) (reliable : Reliable net) (c : OctoClient) (g : OctoServer) (w : OctoWork)
    (s : World) (typed : IsTyped w) (placed : IsPlaced c g w) where
  abbrev built : Memory
  built = build_request c w s.client

  abbrev replied : Memory → Memory → World
  replied server client =
      response_handler c (record s { client = client; server = serve_request g server })

  exchange :
      (server client : Memory) × (call net true true c g w s ≡ spinning (replied server client))
      × IsRequest server g.s_mr w
      × KeepsOutside g.s_mr (request_length w) s.server server
      × Same (request_length w) server g.s_mr built c.local
      × Same request_size client c.c_mr (serve_request g server) g.local
  unfolding call send_request request_handler
  exchange =
      let ge = (request_length-Bounds w).0 in
      let (server, e1) = reliable s.server c.s_mr built c.local (request_length w) in
      let kept : KeepsOutside c.s_mr (request_length w) s.server server = record {
        at = net.post_out s.server c.s_mr built c.local (request_length w) server e1;
      } in
      let came : Same (request_length w) server g.s_mr built c.local =
        subst (λ k. Same (request_length w) server k built c.local) placed.request_at
          (posted net e1) in
      let r = build_request-IsRequest c w s.client typed in
      let got : IsRequest server g.s_mr w = record {
        size = load-Same 8 (Same-le came 8 (omega (arith, ge))) ∙ r.size;
        server_addr = load-Same 8 (Same-part came 8 8 (omega (arith, ge))) ∙ r.server_addr;
        flag_write = came.at flag_at (omega (arith, ge)) ∙ r.flag_write;
      } in
      let (client, e2) =
        reliable built g.c_mr (serve_request g server) g.local (reply_length g server) in
      let back : Same (reply_length g server) client c.c_mr (serve_request g server) g.local =
        subst (λ k. Same (reply_length g server) client k (serve_request g server) g.local)
          placed.reply_at (posted net e2) in
      (
        server,
        client,
        rw (e1, e2) refl,
        got,
        subst (λ k. KeepsOutside k (request_length w) s.server server) placed.request_at kept,
        came,
        Same-le back request_size (reply_length-ge g server),
      )

  -- An Octopus call on a reliable network, with memory for its tasks and buffers that do not
  -- overlap, where what the client's handler may copy does not touch its reply buffer, leaves the
  -- server's handler waiting forever and ends for the client with done_flag set in a work whose
  -- address is the length of the server's registration, since the reply's head is copied from the
  -- registration and not from the request.
  pub octo-done :
      Apart c.c_mr request_size (load64 s.server (g.s_struct + 16)) (load64 s.server g.s_struct)
      → (s' : World) × (call net true true c g w s ≡ spinning s')
        × (s'.done ≡ load64 s.server (g.s_struct + task_at))
  unfolding response_handler
  octo-done apart =
      let (server, client, ran, got, kept, came, back) = exchange in
      let le = (request_length-Bounds w).1 in
      let head : Same request_size client c.c_mr s.server g.s_struct = Same-trans back (
        Same-trans (serve_request-head g w server got placed.target_reply) (
          KeepsOutside-Same kept request_size g.s_struct
            (omega (arith, placed.struct_request, le)))) in
      let addr = load-Same 8 (Same-part head 16 8 (omega arith)) in
      let size = load-Same 8 (Same-le head 8 (omega arith)) in
      let task = load-Same 8 (Same-part head task_at 8 (omega arith)) in
      (
        replied server client,
        ran,
        elim (Bool-cases (client (c.c_mr + flag_at) == 0)) [
          | inl e ↦ rw e (
              KeepsOutside-load
                (memcpy-KeepsOutside client (load64 client (c.c_mr + 16)) client
                  (c.c_mr + request_size) (load64 client c.c_mr))
                8 (c.c_mr + task_at) (omega (arith, apart, addr, size))
              ∙ task)
          | inr e ↦ rw e task
        ],
      )
