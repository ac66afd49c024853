-- ===== src/Rpc/L5/Lost.antt =====
-- L5 calls whose ring the server does not see.
use model_test.Prelude.{ℕ, ◌+◌, ◌≡◌, refl, ap, ◌∙◌, Bool, arith}
use model_test.Memory.{Apart}
use model_test.Rdma.{Rdma, spinning, Reliable, posted_elsewhere}
use model_test.Rpc.L5.{
  L5Client, L5Work, World, head_bytes, reply_at, served_call, call, send_message, poll_mailbox,
  receive_reply, message_size, build_message,
}
use model_test.Rpc.L5.Message.{build_message_out, message_size-le}
use model_test.Rpc.L5.Call.{all_tasks}

-- A call of L5 that rings another byte than the one that the server polls, which is 0, and whose reply
-- byte is 0.
module _ (net : Rdma) (reliable : Reliable net) (c : L5Client) (mailbox : ℕ) (l : L5Work)
    (s : World) (silent : s.server mailbox ≡ 0) (rings_elsewhere : Apart mailbox 1 c.mailbox_mr 1)
    (message : Apart mailbox 1 c.message_mr (head_bytes + l.length)) where
  pub call-spinning :
      (early : Bool)
      → s.client (reply_at c l) ≡ 0
      → Apart (reply_at c l) 1 c.local_smr1 (head_bytes + l.length)
      → (s' : World) × (call net all_tasks c mailbox early l s ≡ spinning s')
  unfolding call served_call send_message poll_mailbox receive_reply
  call-spinning early empty away =
      let built = build_message c l s.client in
      let (m1, e1) = reliable s.server c.message_mr built c.local_smr1 (message_size l) in
      let (m2, e2) = reliable m1 c.mailbox_mr built c.num_1 1 in
      let quiet : m2 mailbox ≡ 0 =
        ap m2 (omega arith)
        ∙ (posted_elsewhere net e2 1 mailbox rings_elsewhere).at 0 (omega arith)
        ∙ (posted_elsewhere net e1 1 mailbox (omega (arith, message, message_size-le l))).at 0
            (omega arith)
        ∙ ap s.server (omega arith)
        ∙ silent in
      let unanswered : built (reply_at c l) ≡ 0 =
        build_message_out c l s.client (reply_at c l) (omega (arith, away)) ∙ empty in
      (record s { client = built; server = m2 }, rw (e1, e2, unanswered, quiet, unanswered) refl)
