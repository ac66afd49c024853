-- ===== src/Rpc/L5/Call.antt =====
-- The whole L5 call: a write reaches the server's memory, a read brings the server's bytes.
use model_test.Prelude.{ℕ, ◌+◌, ◌≡◌, ◌≢◌, ◌∙◌, ◌==◌, false, refl, ap, Bool, arith, true}
use model_test.Memory.{Memory, store_byte, memcpy, load64, Apart, Same}
use model_test.Memory.Laws.{
  store_byte_self, load-Same, Same-refl, Same-trans, Same-memcpy_in, Same-store_byte, Same-le,
  Same-part,
}
use model_test.Rdma.{Rdma, finished, Reliable, posted, posted_elsewhere}
use model_test.Rpc.L5.{
  L5Client, L5Work, World, Tasks, head_bytes, reply_size, build_message, message_size, send_message,
  poll_mailbox, request_handler, reply_at, receive_reply, served_call, call,
}
use model_test.Rpc.L5.Message.{
  IsMessage, IsSendable, build_message-IsMessage, IsMessage-copy, build_message_out,
  message_size-le,
}
use model_test.Rpc.L5.Serve.{
  IsPlaced, answered, answered_write-target, answered_write-flag, answered_read-data,
  answered_read-flag, answered_read-size, answered_read-target,
}

-- What the malloc exchange sets up: both sides name the same buffers, `num_1` is 1, and the
-- mailbox byte and `num_1` lie outside the buffers that the call writes.
pub record IsConnected (c : L5Client) (mailbox : ℕ) (w : L5Work) (s : World) : Type 0 where
  pub message_at : s.message.addr ≡ c.message_mr
  pub reply_at : s.message.c_mr ≡ c.local_mr
  pub mailbox_at : mailbox ≡ c.mailbox_mr
  pub rings : s.client c.num_1 ≡ 1
  pub num_1_staging : Apart c.num_1 1 c.local_smr1 (head_bytes + w.length)
  pub mailbox_message : Apart mailbox 1 c.message_mr (head_bytes + w.length)
  pub mailbox_target : Apart mailbox 1 w.dhmp_addr w.length

-- A call's reply byte is 0 when it begins, and no byte of the message.
pub record IsSilent (c : L5Client) (w : L5Work) (s : World) : Type 0 where
  pub silent : s.client (reply_at c w) ≡ 0
  pub reply_staging : Apart (reply_at c w) 1 c.local_smr1 (head_bytes + w.length)

-- What `send_message` leaves.
pub record Sent (c : L5Client) (mailbox : ℕ) (w : L5Work) (s s1 : World) : Type 0 where
  pub placed : IsPlaced s1.message w
  pub message_at : s1.message.addr ≡ c.message_mr
  pub reply_at : s1.message.c_mr ≡ c.local_mr
  pub client_after : s1.client ≡ build_message c w s.client
  pub holds : IsMessage w s.client s1.server s1.message.addr
  pub rung : s1.server mailbox ≡ 1
  pub kept : Same w.length s1.server w.dhmp_addr s.server w.dhmp_addr

-- What the service of the message in the memory `m` leaves.
pub record Answered (w : L5Work) (m : Memory) (s1 s2 : World) : Type 0 where
  pub server_after : s2.server ≡ answered s1.message m
  pub replied :
      Same
        (reply_size w.flag_write w.length)
        s2.client
        s1.message.c_mr
        s2.server
        s1.message.reply_smr
  pub is_new : s2.message.is_new ≡ true

abbrev pub all_tasks : Tasks
all_tasks = record { message_task = true; mailbox_task = true; reply_task = true }

module _ (net : Rdma) (reliable : Reliable net) (c : L5Client) (mailbox : ℕ) (w : L5Work)
    (s : World) (conn : IsConnected c mailbox w s) (fits : IsSendable c w)
    (placed : IsPlaced s.message w) where
  send_message-Sent :
      (s1 : World) × (send_message net true true c w s ≡ finished s1) × Sent c mailbox w s s1
  unfolding send_message
  send_message-Sent =
      let built = build_message c w s.client in
      let (m1, e1) = reliable s.server c.message_mr built c.local_smr1 (message_size w) in
      let (m2, e2) = reliable m1 c.mailbox_mr built c.num_1 1 in
      (
        record s { client = built; server = m2 },
        rw (e1, e2),
        record {
          placed = placed;
          message_at = conn.message_at;
          reply_at = conn.reply_at;
          client_after = refl;
          holds = rw conn.message_at (
              IsMessage-copy (build_message-IsMessage c w s.client fits) (
                Same-trans
                  (posted_elsewhere net e2 (message_size w) c.message_mr
                    (omega (arith, conn.mailbox_at, conn.mailbox_message, message_size-le w)))
                  (posted net e1)));
          rung =
              ap m2 (omega (arith, conn.mailbox_at))
              ∙ (posted net e2).at 0 (omega arith)
              ∙ ap built (omega arith)
              ∙ build_message_out c w s.client c.num_1 (omega (arith, conn.num_1_staging))
              ∙ conn.rings;
          kept =
              Same-trans
                (posted_elsewhere net e2 w.length w.dhmp_addr
                  (omega (arith, conn.mailbox_at, conn.mailbox_target)))
                (posted_elsewhere net e1 w.length w.dhmp_addr
                  (omega (arith, conn.message_at, placed.target_message, message_size-le w)));
        },
      )

  module _ (s1 : World) (sent : Sent c mailbox w s s1) where
    heard : Memory
    heard = store_byte s1.server mailbox 0

    heard-IsMessage : IsMessage w s.client heard s1.message.addr
    unfolding heard
    heard-IsMessage = IsMessage-copy sent.holds (
        Same-store_byte (Same-refl (message_size w) s1.server s1.message.addr) mailbox 0
          (omega (arith, sent.message_at, conn.mailbox_message, message_size-le w)))

    heard-target : Same w.length heard w.dhmp_addr s.server w.dhmp_addr
    unfolding heard
    heard-target = Same-store_byte sent.kept mailbox 0 (omega (arith, conn.mailbox_target))

    reply_size-heard :
        reply_size (heard (s1.message.addr + 16)) (load64 heard (s1.message.addr + 8))
        ≡ reply_size w.flag_write w.length
    reply_size-heard = rw (heard-IsMessage.flag, heard-IsMessage.size)

    poll_mailbox-Answered :
        (s2 : World) × (poll_mailbox net true mailbox s1 ≡ finished s2) × Answered w heard s1 s2
    unfolding poll_mailbox request_handler heard
    poll_mailbox-Answered =
        let g = s1.message in
        let size = reply_size (heard (g.addr + 16)) (load64 heard (g.addr + 8)) in
        let (m3, e3) = reliable s1.client g.c_mr (answered g heard) g.reply_smr size in
        (
          record { client = m3; server = answered g heard; message = record g { is_new = true } },
          rw (sent.rung, e3),
          record {
            server_after = refl;
            replied =
                Same-le (posted net e3) (reply_size w.flag_write w.length)
                  (omega (arith, reply_size-heard));
            is_new = refl;
          },
        )

    module _ (s2 : World) (done : Answered w heard s1 s2) where
      arrived :
          Same
            (reply_size w.flag_write w.length)
            s2.client
            c.local_mr
            (answered s1.message heard)
            s1.message.reply_smr
      arrived = rw (← sent.reply_at, ← done.server_after) done.replied

      write-replied : w.flag_write ≡ 1 → s2.client (c.local_mr + 1) ≡ 1
      write-replied f =
          arrived.at 1 (ground arith) ∙ answered_write-flag heard-IsMessage sent.placed f

      read-replied :
          w.flag_write ≡ 0
          → (s2.client (c.local_mr + w.length) ≡ 1)
            × (load64 s2.client (c.local_mr + w.length + 1) ≡ w.length)
            × Same w.length s2.client c.local_mr s.server w.dhmp_addr
      read-replied f = (
        arrived.at w.length (ground arith) ∙ answered_read-flag heard-IsMessage sent.placed f,
        shifted ∙ answered_read-size heard-IsMessage sent.placed f fits.size_fits,
        Same-trans (Same-le arrived w.length (ground arith))
            (Same-trans (answered_read-data heard-IsMessage sent.placed f) heard-target),
      )
        where
          shifted :
              load64 s2.client (c.local_mr + w.length + 1)
              ≡ load64 (answered s1.message heard) (s1.message.reply_smr + w.length + 1)
          shifted =
              ap (load64 s2.client) (omega arith)
              ∙ load-Same 8 (Same-part arrived (w.length + 1) 8 (ground arith))
              ∙ ap (load64 (answered s1.message heard)) (omega arith)

  unanswered :
      (q : IsSilent c w s) (s1 : World) → Sent c mailbox w s s1 → s1.client (reply_at c w) ≡ 0
  unanswered q s1 sent =
      ap (λ m. m (reply_at c w)) sent.client_after
      ∙ build_message_out c w s.client (reply_at c w) (omega (arith, q.reply_staging))
      ∙ q.silent

  -- A write call of L5 on a reliable network, with memory for its tasks, between a connected
  -- client and server whose buffers do not overlap, whose reply byte is 0 when it begins,
  -- returns, whether or not the client looks at that byte before the server's round; then the
  -- server's memory at the target holds the client's bytes, the server's message record is marked
  -- new and the client's reply byte is 0 again.
  pub call-write :
      (early : Bool)
      → w.flag_write ≡ 1
      → IsSilent c w s
      → (s' : World) × (call net all_tasks c mailbox early w s ≡ finished s')
        × Same w.length s'.server w.dhmp_addr s.client w.local_addr
        × (s'.message.is_new ≡ true)
        × (s'.client (c.local_mr + 1) ≡ 0)
  unfolding call served_call receive_reply
  call-write early f q =
      let (s1, e1, sent) = send_message-Sent in
      let (s2, e2, done) = poll_mailbox-Answered s1 sent in
      (
        record s2 { client = store_byte s2.client (c.local_mr + 1) 0 },
        rw (e1, unanswered q s1 sent, e2, f, write-replied s1 sent s2 done f),
        rw done.server_after (answered_write-target (heard-IsMessage s1 sent) sent.placed f),
        done.is_new,
        store_byte_self s2.client (c.local_mr + 1) 0,
      )

  -- A read call of L5 on a reliable network, with memory for its tasks, between a connected
  -- client and server whose buffers do not overlap, with the client's buffer outside its reply
  -- region and its reply byte 0 when it begins, returns, whether or not the client looks at that
  -- byte before the server's round; then that buffer holds the bytes that the server's memory
  -- held at the target when the call began, they are still there, and the client's reply byte is
  -- 0 again.
  pub call-read :
      (early : Bool)
      → w.flag_write ≡ 0
      → IsSilent c w s
      → Apart w.local_addr w.length c.local_mr (w.length + 9)
      → (s' : World) × (call net all_tasks c mailbox early w s ≡ finished s')
        × Same w.length s'.client w.local_addr s.server w.dhmp_addr
        × Same w.length s'.server w.dhmp_addr s.server w.dhmp_addr
        × (s'.client (c.local_mr + w.length) ≡ 0)
  unfolding call served_call receive_reply
  call-read early f q apart =
      let (s1, e1, sent) = send_message-Sent in
      let (s2, e2, done) = poll_mailbox-Answered s1 sent in
      let (raised, size, bytes) = read-replied s1 sent s2 done f in
      let copied = memcpy s2.client w.local_addr s2.client c.local_mr w.length in
      (
        record s2 { client = store_byte copied (c.local_mr + w.length) 0 },
        rw (e1, unanswered q s1 sent, e2, f, raised, size),
        Same-store_byte
            (Same-trans (Same-memcpy_in s2.client w.local_addr s2.client c.local_mr w.length) bytes)
            (c.local_mr + w.length) 0 (omega arith),
        rw done.server_after (
            Same-trans (answered_read-target (heard-IsMessage s1 sent) sent.placed f)
              (heard-target s1 sent)),
        store_byte_self copied (c.local_mr + w.length) 0,
      )

  -- A write call of L5 on a reliable network, with memory for its tasks, between a connected
  -- client and server whose buffers do not overlap, whose reply byte is not 0 when it begins and
  -- which looks at that byte before the server's round, returns with the server's memory at the
  -- target as it was and its mailbox byte still 1.
  pub call-stale :
      w.flag_write ≡ 1
      → s.client (c.local_mr + 1) ≢ 0
      → Apart (c.local_mr + 1) 1 c.local_smr1 (head_bytes + w.length)
      → (s' : World) × (call net all_tasks c mailbox true w s ≡ finished s')
        × Same w.length s'.server w.dhmp_addr s.server w.dhmp_addr
        × (s'.server mailbox ≡ 1)
  unfolding call receive_reply
  call-stale f stale away =
      let (s1, e1, sent) = send_message-Sent in
      let there : s1.client (c.local_mr + 1) ≡ s.client (c.local_mr + 1) =
        ap (λ m. m (c.local_mr + 1)) sent.client_after
        ∙ build_message_out c w s.client (c.local_mr + 1) (omega (arith, away)) in
      let raised : (s1.client (c.local_mr + 1) == 0) ≡ false = ground (arith, there, stale) in
      (
        record s1 { client = store_byte s1.client (c.local_mr + 1) 0 },
        rw (e1, f, raised) refl,
        sent.kept,
        sent.rung,
      )
