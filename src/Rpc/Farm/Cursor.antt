-- ===== src/Rpc/Farm/Cursor.antt =====
-- How the slots of FaRM move on: the slots whose replies are there, and those behind them.
use model_test.Prelude.{
  ℕ, suc, ◌+◌, ◌-◌, ◌≤◌, ◌<◌, ◌≡◌, ◌==◌, ltb, ◌&&◌, not, true, false, Bool, if◌then◌else◌, arith,
}
use model_test.Client.Slots.Ring.{is_taken}

-- Behind the `q` slots from `ccur` on whose replies are there, the next `p`.
abbrev pub is_pending : (n ccur q p i : ℕ) → Bool
is_pending n ccur q p i = is_taken n ccur (q + p) i && not (is_taken n ccur q i)

-- where the first slot behind `k` from `ccur` on is
abbrev pub behind : (n ccur k : ℕ) → ℕ
behind n ccur k = if ltb (ccur + k) n then ccur + k else ccur + k - n

-- How the slots move on.
module _ (n ccur q p i : ℕ) (below : ccur < n) (within : i < n) where
  pub taken_next :
      q < n
      → is_taken n ccur (suc q) i ≡ (if i == behind n ccur q then true else is_taken n ccur q i)
  taken_next room = ground arith

  pub pending_served :
      1 ≤ p
      → q + p ≤ n
      → is_pending n ccur (suc q) (p - 1) i
        ≡ (if i == behind n ccur q then false else is_pending n ccur q p i)
  pending_served some_p room = ground arith

  pub pending_next :
      q + p < n
      → is_pending n ccur q (suc p) i
        ≡ (if i == behind n ccur (q + p) then true else is_pending n ccur q p i)
  pending_next room = ground arith

  pub taken_freed :
      1 ≤ q
      → q ≤ n
      → is_taken n (behind n ccur 1) (q - 1) i ≡ (if i == ccur then false else is_taken n ccur q i)
  taken_freed some_q room = ground arith

  pub pending_freed :
      1 ≤ q → q + p ≤ n → is_pending n (behind n ccur 1) (q - 1) p i ≡ is_pending n ccur q p i
  pending_freed some_q room = ground arith
