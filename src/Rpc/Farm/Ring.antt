-- ===== src/Rpc/Farm/Ring.antt =====
-- The slots of FaRM with WFLUSH while calls, the writing of requests, the server's loop and the client's
-- loop interleave: a request goes through its slot as a call whose request is to be written, a request
-- that the server has not served, and a reply that the client has not taken.
use model_test.Prelude.{
  ℕ, suc, ◌+◌, ◌-◌, ◌%◌, ◌≤◌, ◌<◌, ◌≡◌, ◌≢◌, refl, sym, ap, ◌∙◌, inl, inr, ◌==◌, ◌&&◌, not, true,
  false, Bool, Bool-cases, some, if◌then◌else◌, arith,
}
use mathlib.Core.Path.{subst}
use model_test.Rdma.{Rdma, Reliable}
use model_test.Client.Slots.{Slots, take_slot}
use model_test.Client.Slots.Ring.{
  took_at, taking, freeing, free_slot-freeing, IsRing, is_taken, taking-IsRing, freeing-IsRing,
  next_index,
}
use model_test.Rpc.Farm.{FarmClient, FarmServer, World, valid_of, reply_valid}
use model_test.Rpc.Farm.Cursor.{
  is_pending, behind, taken_next, pending_served, pending_next, taken_freed, pending_freed,
}
use model_test.Rpc.Farm.Layout.{IsLaidOut, IsSent, IsServed, IsFreed}

eq_of : {i k : ℕ} → (i == k) ≡ true → i ≡ k
eq_of e = ground (arith, e)

ne_of : {i k : ℕ} → (i == k) ≡ false → i ≢ k
ne_of e = ground (arith, e)

true≢false : true ≢ false
true≢false e = ground (arith, e)

-- `q` replies wait for the client; of the `p` requests behind them, those in `waiting` are not
-- written yet.
pub record IsFarm (n : ℕ) (c : FarmClient) (g : FarmServer) (q p : ℕ) (waiting : ℕ → Bool)
    (w : World) : Type 0 where
  pub ring : IsRing n w.slots (q + p)
  pub pos : w.pos ≡ behind n w.slots.ccur q
  pub replies :
      (i : ℕ)
      → i < n
      → w.client (reply_valid true c i) ≡ (if is_taken n w.slots.ccur q i then 1 else 0)
  pub valid :
      (i : ℕ)
      → i < n
      → w.server (valid_of g i)
        ≡ (if is_pending n w.slots.ccur q p i && not (waiting i) then 1 else 0)
  pub waits : (i : ℕ) → i < n → waiting i ≡ true → is_pending n w.slots.ccur q p i ≡ true

abbrev pub put : (ℕ → Bool) → ℕ → Bool → ℕ → Bool
put f k b i = if i == k then b else f i

module _ (net : Rdma) (n : ℕ) (c : FarmClient) (g : FarmServer) where
  module _ (reliable : Reliable net) (laid : IsLaidOut n c g) (q p : ℕ) (waiting : ℕ → Bool)
      (w : World) (farm : IsFarm n c g q p waiting w) where
    pub pos_below : w.pos < n
    pos_below = ground (arith, farm.pos, farm.ring.count, farm.ring.cursor)

    pub written-IsFarm :
        (cur : ℕ) (w' : World)
        → waiting cur ≡ true
        → IsSent n c g cur w w'
        → IsFarm n c g q p (put waiting cur false) w'
    written-IsFarm cur w' mine sent = record {
      ring = rw sent.slots farm.ring;
      pos = rw (sent.slots, sent.pos) farm.pos;
      replies = λ i h. rw sent.slots (sent.replies i h ∙ farm.replies i h);
      valid = λ i h. rw sent.slots (elim (Bool-cases (i == cur)) [
        | inl e ↦
            let same : i ≡ cur = ground (arith, e) in
            let holds : w'.server (valid_of g i) ≡ 1 =
              ap (λ k. w'.server (valid_of g k)) same ∙ sent.valid in
            let pending = farm.waits i h (ap waiting same ∙ mine) in
            ground (arith, e, holds, pending)
        | inr e ↦
            let kept = sent.others i h (ground (arith, e)) ∙ farm.valid i h in
            ground (arith, e, kept)
      ]);
      waits = λ i h e. rw sent.slots (farm.waits i h (ground (arith, e)));
    }

    -- The request that the server has found.
    found :
        w.server (valid_of g w.pos) ≢ 0
        → (1 ≤ p) × (is_pending n w.slots.ccur q p w.pos ≡ true) × (waiting w.pos ≡ false)
    found there = grind (arith, farm.valid w.pos pos_below, there)

    pub served-IsFarm :
        (w' : World)
        → w.server (valid_of g w.pos) ≢ 0
        → IsServed net reliable n c g laid w w'
        → IsFarm n c g (suc q) (p - 1) waiting w'
    served-IsFarm w' there served =
        let (some_p, pending, written) = found there in
        let room : q + p ≤ n = farm.ring.count in
        let ccur = w.slots.ccur in
        record {
          ring = rw served.slots (subst (IsRing n w.slots) (omega (arith, some_p)) farm.ring);
          pos =
              rw (served.slots, served.pos, next_index n w.pos pos_below)
                (ground (arith, farm.pos));
          replies = λ i h.
              rw
                (
                  served.slots,
                  taken_next n ccur q p i farm.ring.cursor h (omega (arith, some_p, room)),
                  ← farm.pos,
                )
                (elim (Bool-cases (i == w.pos)) [
                  | inl e ↦
                      rw e (ap (λ k. w'.client (reply_valid true c k)) (eq_of e) ∙ served.reply)
                  | inr e ↦ rw e (served.replies i h (ne_of e) ∙ farm.replies i h)
                ]);
          valid = λ i h.
              rw
                (
                  served.slots,
                  pending_served n ccur q p i farm.ring.cursor h some_p room,
                  ← farm.pos,
                )
                (elim (Bool-cases (i == w.pos)) [
                  | inl e ↦ rw e (ap (λ k. w'.server (valid_of g k)) (eq_of e) ∙ served.taken)
                  | inr e ↦ rw e (served.others i h (ne_of e) ∙ farm.valid i h)
                ]);
          waits = λ i h e.
              rw
                (
                  served.slots,
                  pending_served n ccur q p i farm.ring.cursor h some_p room,
                  ← farm.pos,
                )
                (elim (Bool-cases (i == w.pos)) [
                  | inl d ↦ absurd (true≢false (sym e ∙ ap waiting (eq_of d) ∙ written))
                  | inr d ↦ rw d (farm.waits i h e)
                ]);
        }

    pub taken-IsFarm :
        (cur : ℕ) (slots : Slots)
        → take_slot true n w.slots ≡ some (cur, slots)
        → IsFarm n c g q (suc p) (put waiting cur true) (record w { slots = slots })
    taken-IsFarm cur slots e =
        let (room, at, after) = took_at n w.slots slots (q + p) cur farm.ring e in
        let ccur = w.slots.ccur in
        let next : w.slots.scur ≡ behind n ccur (q + p) = farm.ring.next in
        rw (at, after)
          (record {
            ring =
                subst (IsRing n (taking n w.slots)) (omega arith)
                  (taking-IsRing n w.slots (q + p) farm.ring room);
            pos = farm.pos;
            replies = farm.replies;
            valid = λ i h.
                rw (pending_next n ccur q p i farm.ring.cursor h room, ← next)
                  (elim (Bool-cases (i == w.slots.scur)) [
                    | inl d ↦ rw d (ground (arith, d, next, farm.valid i h, farm.ring.cursor, room))
                    | inr d ↦ rw d (farm.valid i h)
                  ]);
            waits = λ i h e.
                rw (pending_next n ccur q p i farm.ring.cursor h room, ← next)
                  (elim (Bool-cases (i == w.slots.scur)) [
                    | inl d ↦ rw d refl
                    | inr d ↦ rw d (farm.waits i h (ground (arith, d, e)))
                  ]);
          })

    oldest : w.client (reply_valid true c w.slots.ccur) ≢ 0 → 1 ≤ q
    oldest there =
        grind (arith, farm.replies w.slots.ccur farm.ring.cursor, farm.ring.cursor, there)

    pub freed-IsFarm :
        (w' : World)
        → w.client (reply_valid true c w.slots.ccur) ≢ 0
        → IsFreed net reliable n c g laid w w'
        → IsFarm n c g (q - 1) p waiting w'
    freed-IsFarm w' there freed =
        let some_q = oldest there in
        let room : q + p ≤ n = farm.ring.count in
        let ccur = w.slots.ccur in
        let moved : w'.slots ≡ freeing n w.slots = freed.slots ∙ free_slot-freeing n w.slots in
        let next : (ccur + 1) % n ≡ behind n ccur 1 =
          ground (arith, next_index n ccur farm.ring.cursor, farm.ring.cursor) in
        record {
          ring = rw moved (
              freeing-IsRing n w.slots (q - 1 + p)
                (subst (IsRing n w.slots) (omega (arith, some_q)) farm.ring));
          pos =
              rw (freed.pos, moved, next)
                (ground (arith, farm.pos, some_q, room, farm.ring.cursor));
          replies = λ i h.
              rw
                (
                  moved,
                  next,
                  taken_freed n ccur q p i farm.ring.cursor h some_q (omega (arith, room)),
                )
                (elim (Bool-cases (i == ccur)) [
                  | inl e ↦
                      rw e (ap (λ k. w'.client (reply_valid true c k)) (eq_of e) ∙ freed.taken)
                  | inr e ↦ rw e (freed.replies i (ne_of e) ∙ farm.replies i h)
                ]);
          valid = λ i h.
              rw
                (
                  moved,
                  next,
                  pending_freed n ccur q p i farm.ring.cursor h some_q room,
                  freed.server,
                )
                (farm.valid i h);
          waits = λ i h e.
              rw (moved, next, pending_freed n ccur q p i farm.ring.cursor h some_q room)
                (farm.waits i h e);
        }
