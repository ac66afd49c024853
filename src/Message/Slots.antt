-- ===== src/Message/Slots.antt =====
-- The receive region, cut into slots by `dhmp_post_all_recv`.
use model_test.Prelude.{
  ℕ, zero, suc, ◌+◌, ◌*◌, ◌<◌, ◌≡◌, refl, ◌∙◌, ap, true, Option, none, some, length, get_or, arith,
}
use model_test.Transport.{TransportState, state_number}
use model_test.Message.{
  DhmpMr, DhmpSge, recv_region_size, single_norm_recv_region, post_from, post_all_recv, post_recv,
}

-- `k`-th address of the loop
get_or-post_from :
    (base i left k : ℕ)
    → k < left
    → get_or (post_from base i left) k 0 ≡ base + (i + k) * single_norm_recv_region
unfolding post_from
get_or-post_from base i zero k h = absurd (omega arith)
get_or-post_from base i (suc left) zero h = omega arith
get_or-post_from base i (suc left) (suc k) h =
    get_or-post_from base (i + 1) left k (omega arith) ∙ omega arith

length-post_from : (base i left : ℕ) → length (post_from base i left) ≡ left
unfolding post_from
length-post_from base i zero = refl
length-post_from base i (suc left) = ap suc (length-post_from base (i + 1) left)

-- the slot that the `k`-th posted receive is for
abbrev pub slot : DhmpMr → ℕ → ℕ
slot mr k = get_or (post_all_recv mr) k 0

slot-at : (mr : DhmpMr) (k : ℕ) → k < 512 → slot mr k ≡ mr.addr + k * single_norm_recv_region
unfolding post_all_recv
slot-at mr k h = get_or-post_from mr.addr 0 512 k h ∙ omega arith

-- The 512 slots tile the region.
pub record IsTiled (mr : DhmpMr) : Type 0 where
  pub count : length (post_all_recv mr) ≡ 512
  pub first : slot mr 0 ≡ mr.addr
  pub next : (k : ℕ) → k + 1 < 512 → slot mr (k + 1) ≡ slot mr k + single_norm_recv_region
  pub last : slot mr 511 + single_norm_recv_region ≡ mr.addr + recv_region_size

-- The loop of dhmp_post_all_recv posts 512 slots of a megabyte that follow each other from the
-- receive region's start to its end.
pub post_all_recv-IsTiled : (mr : DhmpMr) → IsTiled mr
unfolding post_all_recv
post_all_recv-IsTiled mr = record {
  count = length-post_from mr.addr 0 512;
  first = omega (arith, slot-at mr 0 (omega arith));
  next = λ k h. omega (arith, slot-at mr k (omega arith), slot-at mr (k + 1) h);
  last = omega (arith, slot-at mr 511 (omega arith));
}

-- what is posted for the `k`-th slot while the transport comes up
abbrev pub posted_slot : DhmpMr → ℕ → Option DhmpSge
posted_slot mr k = post_recv TransportState.connecting true (slot mr k)

abbrev pub Reaches : Option DhmpSge → ℕ → Type 0
Reaches none a = ⊥
Reaches (some sge) a = a < sge.addr + sge.length

-- Each receive that dhmp_post_all_recv posts for a connection that comes up reaches beyond its
-- slot: into the next slot and, behind the last slot, beyond the receive region.
pub posted_slot-overrun :
    (mr : DhmpMr)
    → ((k : ℕ) → k + 1 < 512 → Reaches (posted_slot mr k) (slot mr (k + 1)))
      × Reaches (posted_slot mr 511) (mr.addr + recv_region_size)
unfolding post_recv state_number
posted_slot-overrun mr = (
  λ k h. omega (arith, (post_all_recv-IsTiled mr).next k h),
  omega (arith, (post_all_recv-IsTiled mr).last),
)
