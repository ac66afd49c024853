-- ===== src/Rpc/Send2/Call.antt =====
-- A whole send2 call: what it leaves, with and without memory for the write's task.
use model_test.Prelude.{
  ℕ, ◌+◌, ◌^◌, ◌<◌, ◌≡◌, refl, ◌∙◌, Bool, true, false, some, if◌then◌else◌, arith,
}
use model_test.Memory.{Memory, store_byte, memcpy, load64, Apart, Same}
use model_test.Memory.Laws.{
  load-store, load-Same, Same-trans, Same-part, Same-refl, Same-memcpy_in, store_byte_self,
}
use model_test.Memory.Region.{
  KeepsOutside, KeepsOutside-trans, KeepsOutside-le, KeepsOutside-Same, store_byte-KeepsOutside,
  memcpy-KeepsOutside,
}
use model_test.Rdma.{Rdma, finished, Reliable, posted, posted_elsewhere}
use model_test.AddrTable.{AddrInfo, Table, World, find, change_at, count_write, completion_of_write}
use model_test.Rpc.Send2.{
  Send2Work, Send2Buffers, work_size, recv_flag_at, done_flag_at, request_size, begin, rdma_write2,
  build_request, ask, mark_done, send2_work_handler, call,
}

-- The work's address fits a pointer, and the target and the client's bytes do not overlap what the
-- call itself writes.
pub record IsSendable (w : Send2Work) (b : Send2Buffers) (target : ℕ) : Type 0 where
  pub work_fits : w.work < 256 ^ 8
  pub data_work : Apart w.local_addr w.length w.work work_size
  pub target_slot : Apart target w.length b.request_slot request_size
  pub target_response : Apart target w.length b.response request_size

module _ (net : Rdma) (reliable : Reliable net) (w : Send2Work) (b : Send2Buffers)
    (work_fits : w.work < 256 ^ 8) (s : World) where
  -- The request ends, and changes the server's memory in the slot and in the response alone.
  ask-finished :
      (s' : World) × (ask net b w s ≡ finished s')
      × (s'.table ≡ s.table)
      × ((k x : ℕ)
          → Apart x k b.request_slot request_size
          → Apart x k b.response request_size
          → Same k s'.server x s.server x)
  unfolding ask
  ask-finished =
      let built = build_request w b.req_msg s.client in
      let (m1, e1) = reliable s.server b.request_slot built b.req_msg request_size in
      let served = memcpy m1 b.response m1 b.request_slot request_size in
      let (m2, e2) = reliable built b.response_slot served b.response request_size in
      let echoed : Same request_size m2 b.response_slot built b.req_msg =
        Same-trans (posted net e2) (
          Same-trans (Same-memcpy_in m1 b.response m1 b.request_slot request_size)
            (posted net e1)) in
      let named : load64 m2 (b.response_slot + 16) ≡ w.work =
        load-Same 8 (Same-part echoed 16 8 (omega arith))
        ∙ load-store 8 _ (b.req_msg + 16) w.work work_fits in
      (
        record s { client = store_byte m2 (w.work + recv_flag_at) 1; server = served },
        rw (e1, e2, named, store_byte_self m2 (w.work + recv_flag_at) 1) refl,
        refl,
        λ k x aq ar.
            Same-trans
              (KeepsOutside-Same (memcpy-KeepsOutside m1 b.response m1 b.request_slot request_size)
                k x ar)
              (posted_elsewhere net e1 k x aq),
      )

-- the table that the call leaves
abbrev pub table_after : (ℕ → ℕ) → (spwrite task : Bool) → ℕ → Table → Table
table_after hash spwrite task a t =
    let counted = change_at hash count_write a t in
    if task then change_at hash (completion_of_write spwrite) a counted else counted

-- The write's bytes at the target if there was memory for the write's task; else the target is as it
-- was. The call is done in both cases.
pub record IsSent2 (hash : ℕ → ℕ) (spwrite task : Bool) (w : Send2Work) (target : ℕ) (s s' : World)
    : Type 0 where
  pub at_target :
      Same w.length s'.server target
        (if task then s.client else s.server)
        (if task then w.local_addr else target)
  pub done_flag : s'.client (w.work + done_flag_at) ≡ 1
  pub table : s'.table ≡ table_after hash spwrite task w.dhmp_addr s.table

module _ (hash : ℕ → ℕ) (net : Rdma) (reliable : Reliable net) (spwrite : Bool) (w : Send2Work)
    (b : Send2Buffers) (s : World) (i : AddrInfo) (known : find hash w.dhmp_addr s.table ≡ some i)
    (free : i.write_flag ≡ false) where
  abbrev begun : Memory
  begun = begin w s.client

  begin-KeepsOutside : KeepsOutside w.work work_size s.client begun
  unfolding begin
  begin-KeepsOutside =
      KeepsOutside-trans
        (KeepsOutside-le w.work work_size
          (store_byte-KeepsOutside s.client (w.work + done_flag_at) 0) (omega arith) (omega arith))
        (KeepsOutside-le w.work work_size (store_byte-KeepsOutside _ (w.work + recv_flag_at) 0)
          (omega arith) (omega arith))

  abbrev counted : World
  counted = record s { client = begun; table = change_at hash count_write w.dhmp_addr s.table }

  -- The write, or its failure.
  rdma_write2-at :
      (task : Bool)
      → Apart w.local_addr w.length w.work work_size
      → (s1 : World) × (rdma_write2 hash net spwrite task b.per_ops w i counted ≡ finished s1)
        × (s1.table ≡ table_after hash spwrite task w.dhmp_addr s.table)
        × Same w.length s1.server i.addr
            (if task then s.client else s.server)
            (if task then w.local_addr else i.addr)
  unfolding rdma_write2
  rdma_write2-at true apart =
      let client = memcpy begun b.per_ops begun w.local_addr w.length in
      let (m, e) = reliable s.server i.addr client b.per_ops w.length in
      (
        record counted {
          client = client;
          server = m;
          table = change_at hash (completion_of_write spwrite) w.dhmp_addr counted.table;
        },
        rw e refl,
        refl,
        Same-trans (posted net e) (
            Same-trans (Same-memcpy_in begun b.per_ops begun w.local_addr w.length)
              (KeepsOutside-Same begin-KeepsOutside w.length w.local_addr apart)),
      )
  rdma_write2-at false apart = (
    record counted { client = memcpy begun b.per_ops begun w.local_addr w.length },
    refl,
    refl,
    Same-refl w.length s.server i.addr,
  )

  -- A call of dhmp_send2 for an unlocked region in the table, on a reliable network, with what it
  -- writes not overlapping the target or the client's bytes, returns with `done_flag` set whether
  -- or not there was memory for the write's task; the server's memory at the region then holds
  -- the client's bytes if there was, and is as it was if not, and the region is counted as
  -- written.
  pub call-IsSent2 :
      (task : Bool)
      → IsSendable w b i.addr
      → (s' : World) × (call hash net spwrite task b w s ≡ finished s')
        × IsSent2 hash spwrite task w i.addr s s'
  unfolding call send2_work_handler
  call-IsSent2 task fits =
      let (s1, e1, table1, target1) = rdma_write2-at task fits.data_work in
      let (s2, e2, table2, kept) = ask-finished net reliable w b fits.work_fits s1 in
      (
        mark_done w s2,
        rw (known, e1, e2, free) refl,
        record {
          at_target =
              Same-trans (kept w.length i.addr fits.target_slot fits.target_response) target1;
          done_flag = store_byte_self s2.client (w.work + done_flag_at) 1;
          table = table2 ∙ table1;
        },
      )
