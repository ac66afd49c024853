-- ===== src/Exchange/Paired.antt =====
-- What the set-up leaves on the two sides: which registrations they then share, and how long the
-- server's buffers are.
use model_test.Prelude.{
  ℕ, ◌+◌, ◌<◌, ◌≡◌, refl, ◌≢◌, ◌⊎◌, inl, inr, ◌==◌, true, false, Option, none, some, List, [], ◌∷◌,
  arith, Bool-cases,
}
use model_test.Rdma.{finished}
use model_test.Client.Slots.{new_slots}
use model_test.Rpc.Alloc.{
  Special, for_l5, for_tailwind, for_darpc, for_rfp, for_scale, for_farm, for_herd, for_octo,
  allocspace,
}
use model_test.Exchange.{
  Mr, Node, Server, World, size_of_space, allocate_mailbox, allocspace_for_server, build_request,
  sent_mr, keep_mr, respond, request_handler, store_response, response_handler, wait, answered,
  exchange,
}

-- The client knows the server's buffers of its node, and the server the client's; but the client of
-- FaRM has what the server left unset in its response.
abbrev pub IsPaired : Special → (node req_size : ℕ) → (unset2 : Mr) → World → Type 0
IsPaired for_l5 node req_size unset2 w =
    let n = w.server.nodes node in
    (mailbox : Mr) × (w.server.mailbox ≡ some mailbox)
    × (w.client.l5_mailbox.addr ≡ mailbox.addr + node)
    × (w.client.l5_message ≡ n.l5.mr)
    × (n.l5.c_mr ≡ w.client.local_mr)
    × (w.client.l5_num_1 ≡ 1)
IsPaired for_tailwind node req_size unset2 w =
    let n = w.server.nodes node in
    (w.client.tailwind_mr ≡ n.tailwind.mr) × (n.tailwind.flush2_mr ≡ w.client.local_mr)
IsPaired for_darpc node req_size unset2 w =
    w.client.read_mr_for_sflush ≡ (w.server.nodes node).recv_mr
IsPaired for_rfp node req_size unset2 w =
    let n = w.server.nodes node in
    (w.client.rfp_write ≡ n.rfp.write_mr)
    × (w.client.rfp_read ≡ n.rfp.read_mr)
    × (n.rfp.size ≡ req_size)
    × (w.client.rfp_time ≡ 1)
    × (n.rfp.time ≡ 1)
IsPaired for_scale node req_size unset2 w =
    let n = w.server.nodes node in
    (w.client.sreq_mr ≡ n.scale.sreq_mr)
    × (n.scale.cdata_mr ≡ w.client.cdata_mr)
    × (n.scale.size ≡ req_size)
    × (w.client.context_swith ≡ 0)
IsPaired for_farm node req_size unset2 w =
    let n = w.server.nodes node in
    (n.farm.c_mr ≡ w.client.farm_c_mr)
    × (n.farm.size ≡ req_size)
    × (w.client.farm ≡ record { s_mr = unset2; size = req_size; slots = new_slots })
IsPaired for_herd node req_size unset2 w =
    let n = w.server.nodes node in
    (n.herd.size ≡ req_size)
    × (w.client.herd ≡ record { s_mr = n.herd.s_mr; size = req_size; slots = new_slots })
IsPaired for_octo node req_size unset2 w =
    let n = w.server.nodes node in
    (w.client.octo_s_mr ≡ n.octo.s_mr) × (n.octo.c_mr ≡ w.client.octo_c_mr)

-- The lengths of the buffers of a convention, in the order of their allocation.
abbrev length_of : Option Mr → List ℕ
length_of none = []
length_of (some mr) = mr.length ∷ []

abbrev pub spaces : Special → Server → Node → List ℕ
spaces for_l5 s n = n.l5.mr.length ∷ n.l5.reply_smr.length ∷ []
spaces for_tailwind s n = n.tailwind.mr.length ∷ []
spaces for_darpc s n = length_of s.read_mr
spaces for_rfp s n = n.rfp.write_mr.length ∷ n.rfp.read_mr.length ∷ []
spaces for_scale s n =
    n.scale.sreq_mr.length ∷ n.scale.sdata_mr.length ∷ n.scale.slocal_mr.length ∷ []
spaces for_farm s n = n.farm.s_mr.length ∷ []
spaces for_herd s n = n.herd.s_mr.length ∷ []
spaces for_octo s n = n.octo.s_mr.length ∷ n.octo.local_mr.length ∷ []

pub self : (k : ℕ) → (k == k) ≡ true
self k = ground arith

pub apart : (k node : ℕ) → k ≢ node → (k == node) ≡ false
apart k node d = ground arith

pub zero_node : {k : ℕ} → k ≡ 0 → (k == 0) ≡ true
zero_node e = ground (arith, e)

module _ (u : ℕ → ℕ) (unset unset2 : Mr) (nodes buffers node : ℕ) (req_size work : ℕ) (w : World)
    (below : node < nodes) where
  abbrev pub SetUp : Special → Type 0
  SetUp special =
      (w' : World) × (exchange (λ i. some (u i)) unset unset2 nodes buffers node special req_size
          work w
        ≡ finished w')
      × IsPaired special node req_size unset2 w'
      × (spaces special w'.server (w'.server.nodes node)
          ≡ allocspace special buffers (size_of_space special req_size))
      × ((k : ℕ) → k ≢ node → w'.server.nodes k ≡ w.server.nodes k)

  SetUp-tailwind : SetUp for_tailwind
  unfolding exchange request_handler allocspace_for_server build_request sent_mr keep_mr respond
      store_response response_handler wait answered size_of_space allocspace
  SetUp-tailwind =
      rw (self work)
        (_, refl, rw (self node) (refl, refl), rw (self node) refl, λ k d. rw (apart k node d) refl)

  SetUp-darpc : SetUp for_darpc
  unfolding exchange request_handler allocspace_for_server build_request sent_mr keep_mr respond
      store_response response_handler wait answered size_of_space allocspace
  SetUp-darpc = rw (self work) (_, refl, rw (self node) refl, refl, λ k d. rw (apart k node d) refl)

  SetUp-rfp : SetUp for_rfp
  unfolding exchange request_handler allocspace_for_server build_request sent_mr keep_mr respond
      store_response response_handler wait answered size_of_space allocspace
  SetUp-rfp = rw (self work) (
    _,
    refl,
    rw (self node) (refl, refl, refl, refl, refl),
    rw (self node) refl,
    λ k d. rw (apart k node d) refl,
  )

  SetUp-scale : SetUp for_scale
  unfolding exchange request_handler allocspace_for_server build_request sent_mr keep_mr respond
      store_response response_handler wait answered size_of_space allocspace
  SetUp-scale = rw (self work) (
    _,
    refl,
    rw (self node) (refl, refl, refl, refl),
    rw (self node) refl,
    λ k d. rw (apart k node d) refl,
  )

  SetUp-farm : SetUp for_farm
  unfolding exchange request_handler allocspace_for_server build_request sent_mr keep_mr respond
      store_response response_handler wait answered size_of_space allocspace
  SetUp-farm = rw (self work) (
    _,
    refl,
    rw (self node) (refl, refl, refl),
    rw (self node) refl,
    λ k d. rw (apart k node d) refl,
  )

  SetUp-herd : SetUp for_herd
  unfolding exchange request_handler allocspace_for_server build_request sent_mr keep_mr respond
      store_response response_handler wait answered size_of_space allocspace
  SetUp-herd =
      rw (self work)
        (_, refl, rw (self node) (refl, refl), rw (self node) refl, λ k d. rw (apart k node d) refl)

  SetUp-octo : SetUp for_octo
  unfolding exchange request_handler allocspace_for_server build_request sent_mr keep_mr respond
      store_response response_handler wait answered size_of_space allocspace
  SetUp-octo =
      rw (self work)
        (_, refl, rw (self node) (refl, refl), rw (self node) refl, λ k d. rw (apart k node d) refl)

  SetUp-l5_mailbox : node ≡ 0 → SetUp for_l5
  unfolding exchange request_handler allocspace_for_server build_request sent_mr keep_mr respond
      store_response response_handler wait answered size_of_space allocspace allocate_mailbox
  SetUp-l5_mailbox e =
      rw (zero_node e, self work)
        (
          _,
          refl,
          rw (self node) (_, refl, refl, refl, refl, refl),
          rw (self node) refl,
          λ k d. rw (apart k node d) refl,
        )

  SetUp-l5 : (node ≡ 0) ⊎ ((mr : Mr) × (w.server.mailbox ≡ some mr)) → SetUp for_l5
  unfolding exchange request_handler allocspace_for_server build_request sent_mr keep_mr respond
      store_response response_handler wait answered size_of_space allocspace allocate_mailbox
  SetUp-l5 (inl e) = SetUp-l5_mailbox e
  SetUp-l5 (inr (mr, e)) = elim (Bool-cases (node == 0)) [
    | inl z ↦ SetUp-l5_mailbox (ground (arith, z))
    | inr z ↦
        rw (z, e, self work)
          (
            _,
            refl,
            rw (self node) (_, refl, refl, refl, refl, refl),
            rw (self node) refl,
            λ k d. rw (apart k node d) refl,
          )
  ]

  -- A malloc for a calling convention by a node whose id is below DHMP_CLIENT_NODE_NUM, for which
  -- the server has the memory and, if it is L5 of a node other than 0, has its mailbox already,
  -- ends, since the response names the malloc's own work; client and server then share the
  -- registrations of that convention, but for the client's S_mr of FaRM, which is what the server
  -- left unset in its response; the server's buffers have the lengths of that convention, and the
  -- other nodes' are as they were.
  pub exchange-IsPaired :
      (special : Special)
      → (special ≡ for_l5 → (node ≡ 0) ⊎ ((mr : Mr) × (w.server.mailbox ≡ some mr)))
      → SetUp special
  exchange-IsPaired for_l5 mailbox = SetUp-l5 (mailbox refl)
  exchange-IsPaired for_tailwind mailbox = SetUp-tailwind
  exchange-IsPaired for_darpc mailbox = SetUp-darpc
  exchange-IsPaired for_rfp mailbox = SetUp-rfp
  exchange-IsPaired for_scale mailbox = SetUp-scale
  exchange-IsPaired for_farm mailbox = SetUp-farm
  exchange-IsPaired for_herd mailbox = SetUp-herd
  exchange-IsPaired for_octo mailbox = SetUp-octo
