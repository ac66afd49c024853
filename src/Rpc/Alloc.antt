-- ===== src/Rpc/Alloc.antt =====
-- The memory that `amper_allocspace_for_server` (dhmp_server.c) registers for a calling convention,
-- and whether it holds what the calls of L5, RFP and ScaleRPC read and write there.
use model_test.Prelude.{
  ℕ, ◌+◌, ◌*◌, ◌^◌, ◌≤◌, ◌<◌, ◌≡◌, ◌⊎◌, inl, inr, List, [], ◌∷◌, get_or, ltb, ltb→lt, ap, ◌∙◌,
  Bool-cases, false, if◌then◌else◌, arith,
}
use model_test.Rpc.Scale.{ScaleWork, request_at, request_size}
use model_test.Rpc.Scale.Request.{IsFlag, batch_bytes, offset_plain}
use model_test.Rpc.L5
use model_test.Rpc.Rfp
use model_test.Rpc.L5.{L5Work, message_size}
use model_test.Rpc.Rfp.{RfpWork, data_bytes, head_size}

-- `is_special` of a malloc request, from 3 to 10
pub data Special : Type 0 where
  for_l5 for_tailwind for_darpc for_rfp for_scale for_farm for_herd for_octo : Special

-- BATCH, `sizeof(struct dhmp_octo_request)`
abbrev pub batch_num : ℕ
batch_num = 1

abbrev pub octo_request_size : ℕ
octo_request_size = 40

-- The lengths of the buffers that are allocated and registered for a client, in their order, less
-- the mailbox of L5, which the request of node 0 allocates for all; `buffers` is FaRM_buffer_NUM.
unfoldable pub allocspace : Special → (buffers size : ℕ) → List ℕ
allocspace for_l5 buffers size = (size + 18) ∷ (size + 8 + 1) ∷ []
allocspace for_tailwind buffers size = size ∷ []
allocspace for_darpc buffers size = 1 ∷ []
allocspace for_rfp buffers size = (size + 24) ∷ (size + 24) ∷ []
allocspace for_scale buffers size =
    let totol_length = 4 + batch_num * (24 + size) in
    totol_length ∷ totol_length ∷ totol_length ∷ []
allocspace for_farm buffers size = ((2 + (24 + size) * batch_num) * buffers) ∷ []
allocspace for_herd buffers size = ((26 + size) * buffers) ∷ []
allocspace for_octo buffers size = (octo_request_size + size) ∷ (octo_request_size + size) ∷ []

-- the length of one of them
abbrev pub buffer : Special → (buffers size i : ℕ) → ℕ
buffer special buffers size i = get_or (allocspace special buffers size) i 0

-- The buffers that the server allocates for a size of at least one byte are long enough for the
-- messages and replies of L5 calls of at most that size, and for the requests, at their place,
-- and the replies of RFP calls of that size.
pub allocspace-holds :
    (l5 : L5Work) (rfp : RfpWork) (buffers size : ℕ)
    → l5.length ≤ size
    → 1 ≤ size
    → rfp.length ≡ size
    → (message_size l5 ≤ buffer for_l5 buffers size 0)
      × (L5.reply_size l5.flag_write l5.length ≤ buffer for_l5 buffers size 1)
      × ((if rfp.is_write then 0 else rfp.length) + head_size rfp ≤ buffer for_rfp buffers size 0)
      × (Rfp.reply_size rfp ≤ buffer for_rfp buffers size 1)
unfolding allocspace
allocspace-holds l5 rfp buffers size fits some same =
    (ground arith, ground arith, ground arith, ground arith)

ltb-false : (a b : ℕ) → ltb a b ≡ false → b ≤ a
ltb-false a b e = ground (arith, e)

-- With a batch of BATCH items and a server's request buffer at an address of 32 or more that ends
-- below 2 ^ 64, the requests of a ScaleRPC call of both types end where the buffer for their size
-- ends; one of type 2 starts in the buffer, but one of type 1 does so only if the size is 32 or
-- more, and otherwise starts before the buffer.
pub request-Bounds :
    (w : ScaleWork) (buffers sreq : ℕ)
    → IsFlag w.flag_write
    → w.batch ≡ batch_num
    → 32 ≤ sreq
    → sreq + buffer for_scale buffers w.length 0 < 2 ^ 64
    → let end = sreq + buffer for_scale buffers w.length 0 in
      (request_at sreq 2 w + request_size 2 w ≡ end)
      × (sreq ≤ request_at sreq 2 w)
      × (request_at sreq 1 w + request_size 1 w ≡ end)
      × (((32 ≤ w.length) × (sreq ≤ request_at sreq 1 w))
          ⊎ ((w.length < 32) × (request_at sreq 1 w < sreq)))
unfolding allocspace
request-Bounds w buffers sreq flag one low high =
    let bytes : batch_bytes w ≡ 24 + w.length = ap (λ k. k * (24 + w.length)) one ∙ omega arith in
    let plain = offset_plain w flag in
    (
      omega (arith, plain, bytes, low, high),
      omega (arith, plain, bytes, low, high),
      omega (arith, bytes, low, high),
      elim (Bool-cases (ltb w.length 32)) [
        | inl e ↦ inr (ltb→lt w.length 32 e, omega (arith, bytes, low, high, ltb→lt w.length 32 e))
        | inr e ↦
            inl (ltb-false w.length 32 e, omega (arith, bytes, low, high, ltb-false w.length 32 e))
      ],
    )
