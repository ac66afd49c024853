-- ===== src/Rpc/Farm/Reach.antt =====
-- What can happen to the slots of FaRM with WFLUSH, and that every request is served and freed.
use model_test.Prelude.{
  ℕ, zero, suc, ◌+◌, ◌-◌, ◌<◌, ◌≡◌, ◌≢◌, refl, sym, ap, ◌∙◌, true, false, Bool, some, arith,
}
use mathlib.Core.Path.{subst}
use model_test.Rdma.{Rdma, Outcome, finished, ◌>>=◌, Reliable}
use model_test.Client.Slots.{Slots, new_slots, take_slot}
use model_test.Client.Slots.Ring.{new_slots-IsRing}
use model_test.Rpc.Farm.{
  FarmClient, FarmServer, World, valid_of, reply_valid, poll_request, poll_reply,
}
use model_test.Rpc.Farm.Layout.{IsLaidOut, IsSent, poll_request-IsServed, poll_reply-IsFreed}
use model_test.Rpc.Farm.Ring.{
  IsFarm, put, written-IsFarm, pos_below, served-IsFarm, taken-IsFarm, freed-IsFarm,
}

module _ (net : Rdma) (n : ℕ) (c : FarmClient) (g : FarmServer) where
  -- What can be reached from empty buffers: calls take slots, their requests are written in any order, the server serves the request that it finds, the client takes the reply that it finds.
  pub data Reachable : (q p : ℕ) → (ℕ → Bool) → World → Type 0 where
    start :
        {w : World}
        → w.slots ≡ new_slots
        → w.pos ≡ 0
        → ((i : ℕ) → i < n → w.client (reply_valid true c i) ≡ 0)
        → ((i : ℕ) → i < n → w.server (valid_of g i) ≡ 0)
        → Reachable 0 0 (λ i. false) w
    take :
        {q p cur : ℕ} {waiting : ℕ → Bool} {w : World} {slots : Slots}
        → Reachable q p waiting w
        → take_slot true n w.slots ≡ some (cur, slots)
        → Reachable q (suc p) (put waiting cur true) (record w { slots = slots })
    write :
        {q p : ℕ} {waiting : ℕ → Bool} {w w' : World} (cur : ℕ)
        → Reachable q p waiting w
        → waiting cur ≡ true
        → IsSent n c g cur w w'
        → Reachable q p (put waiting cur false) w'
    serve :
        {q p : ℕ} {waiting : ℕ → Bool} {w w' : World}
        → Reachable q p waiting w
        → w.server (valid_of g w.pos) ≢ 0
        → poll_request net true true n g w ≡ finished w'
        → Reachable (suc q) (p - 1) waiting w'
    free :
        {q p : ℕ} {waiting : ℕ → Bool} {w : World}
        → Reachable q p waiting w
        → w.client (reply_valid true c w.slots.ccur) ≢ 0
        → Reachable (q - 1) p waiting (poll_reply true n c w)

-- Rounds of the server's loop, and of the client's.
pub serve_rounds : Rdma → (buffers : ℕ) → FarmServer → ℕ → World → Outcome World
serve_rounds net n g zero w = finished w
serve_rounds net n g (suc k) w = poll_request net true true n g w >>= serve_rounds net n g k

pub free_rounds : (buffers : ℕ) → FarmClient → ℕ → World → World
free_rounds n c zero w = w
free_rounds n c (suc k) w = free_rounds n c k (poll_reply true n c w)

finished-injective : {S : Type 0} {a b : S} → finished a ≡ finished b → a ≡ b
finished-injective {S} {a} e = ap value e
  where
    value : Outcome S → S
    value (finished s) = s
    value o = a

module _ (net : Rdma) (reliable : Reliable net) (n : ℕ) (c : FarmClient) (g : FarmServer)
    (laid : IsLaidOut n c g) (some_slot : 0 < n) where
  pub Reachable-IsFarm :
      {q p : ℕ} {waiting : ℕ → Bool} {w : World}
      → Reachable net n c g q p waiting w
      → IsFarm n c g q p waiting w
  unfolding new_slots
  Reachable-IsFarm (start {w} slots pos replies valid) = record {
    ring = rw slots (new_slots-IsRing n some_slot);
    pos = rw (slots, pos) (ground (arith, some_slot));
    replies = λ i h. rw slots (replies i h ∙ ground arith);
    valid = λ i h. rw slots (valid i h ∙ ground arith);
    waits = λ i h e. ground (arith, e);
  }
  Reachable-IsFarm (take {q} {p} {cur} {waiting} {w} {slots} r e) =
      taken-IsFarm net n c g reliable laid q p waiting w (Reachable-IsFarm r) cur slots e
  Reachable-IsFarm (write {q} {p} {waiting} {w} {w'} cur r mine sent) =
      written-IsFarm net n c g reliable laid q p waiting w (Reachable-IsFarm r) cur w' mine sent
  Reachable-IsFarm (serve {q} {p} {waiting} {w} {w'} r there e) =
      let farm = Reachable-IsFarm r in
      let (w1, e1, served) =
        poll_request-IsServed net reliable n c g laid w
          (pos_below net n c g reliable laid q p waiting w farm) there in
      subst (IsFarm n c g (suc q) (p - 1) waiting) (finished-injective (sym e1 ∙ e))
        (served-IsFarm net n c g reliable laid q p waiting w farm w1 there served)
  Reachable-IsFarm (free {q} {p} {waiting} {w} r there) =
      freed-IsFarm net n c g reliable laid q p waiting w (Reachable-IsFarm r)
        (poll_reply true n c w) there (poll_reply-IsFreed net reliable n c g laid w there)

  request_there :
      {q p : ℕ} {waiting : ℕ → Bool} {w : World}
      → Reachable net n c g q (suc p) waiting w
      → waiting w.pos ≡ false
      → w.server (valid_of g w.pos) ≢ 0
  request_there {q} {p} {waiting} {w} r written e =
      let farm = Reachable-IsFarm r in
      let below = pos_below net n c g reliable laid q (suc p) waiting w farm in
      grind (arith, farm.valid w.pos below, farm.ring.cursor, farm.ring.count, farm.pos, written, e)

  served :
      (p : ℕ) {q : ℕ} {waiting : ℕ → Bool} (w : World)
      → Reachable net n c g q p waiting w
      → ((i : ℕ) → i < n → waiting i ≡ false)
      → (w' : World) × (serve_rounds net n g p w ≡ finished w')
        × Reachable net n c g (q + p) 0 waiting w'
  unfolding serve_rounds
  served zero {q} {waiting} w r written =
      (w, refl, subst (λ k. Reachable net n c g k 0 waiting w) (omega arith) r)
  served (suc p) {q} {waiting} w r written =
      let farm = Reachable-IsFarm r in
      let below = pos_below net n c g reliable laid q (suc p) waiting w farm in
      let there = request_there r (written w.pos below) in
      let (w1, e1, _) = poll_request-IsServed net reliable n c g laid w below there in
      let step =
        subst (λ k. Reachable net n c g (suc q) k waiting w1) (omega arith) (serve r there e1) in
      let (w2, e2, done) = served p w1 step written in
      (w2, rw e1 e2, subst (λ k. Reachable net n c g k 0 waiting w2) (omega arith) done)
