-- ===== src/Memory/Region.antt =====
-- Writes that stay inside one region: what the memory elsewhere keeps through them.
use model_test.Prelude.{
  ◌*◌, ◌≢◌, inl, inr, Bool-cases, ltb, ℕ, ◌+◌, ◌≤◌, ◌<◌, ◌≡◌, refl, ◌∙◌, ◌⊎◌, arith,
}
use native.Mathlib.Nat.{mul-le-mul_right}
use model_test.Memory.{Memory, store_byte, memcpy, load, store, Apart, Same}
use model_test.Memory.Laws.{store_byte_ne, store_out, memcpy_out, load-Same, Apart-at, Same-trans}

-- `m'` differs from `m` at most in the `n` bytes at `a`.
pub record KeepsOutside (a n : ℕ) (m m' : Memory) : Type 0 where
  pub at : (x : ℕ) → (x < a) ⊎ (a + n ≤ x) → m' x ≡ m x

pub KeepsOutside-refl : (a n : ℕ) (m : Memory) → KeepsOutside a n m m
KeepsOutside-refl a n m = record { at = λ x h. refl }

pub KeepsOutside-trans :
    {a n : ℕ} {m m' m'' : Memory}
    → KeepsOutside a n m m'
    → KeepsOutside a n m' m''
    → KeepsOutside a n m m''
KeepsOutside-trans h k = record { at = λ x p. k.at x p ∙ h.at x p }

pub KeepsOutside-le :
    {b k : ℕ} (a n : ℕ) {m m' : Memory}
    → KeepsOutside b k m m'
    → a ≤ b
    → b + k ≤ a + n
    → KeepsOutside a n m m'
KeepsOutside-le a n h p q = record { at = λ x r. h.at x (omega (arith, r)) }

pub store-KeepsOutside : (k : ℕ) (m : Memory) (a v : ℕ) → KeepsOutside a k m (store k m a v)
store-KeepsOutside k m a v = record { at = λ x p. store_out k m a v x p }

pub store_byte-KeepsOutside : (m : Memory) (a v : ℕ) → KeepsOutside a 1 m (store_byte m a v)
store_byte-KeepsOutside m a v = record { at = λ x p. store_byte_ne m a v x (omega (arith, p)) }

pub memcpy-KeepsOutside :
    (m : Memory) (d : ℕ) (src : Memory) (s n : ℕ) → KeepsOutside d n m (memcpy m d src s n)
memcpy-KeepsOutside m d src s n = record { at = λ x p. memcpy_out m d src s n x p }

module _ {a n : ℕ} {m m' : Memory} (keeps : KeepsOutside a n m m') where
  pub KeepsOutside-Same : (k b : ℕ) → Apart b k a n → Same k m' b m b
  KeepsOutside-Same k b h = record { at = λ i p. keeps.at (b + i) (Apart-at k n h p) }

  pub KeepsOutside-load : (k b : ℕ) → Apart b k a n → load k m' b ≡ load k m b
  KeepsOutside-load k b h = load-Same k (KeepsOutside-Same k b h)

  pub Same-KeepsOutside :
      {k b s : ℕ} {src : Memory} → Same k m b src s → Apart b k a n → Same k m' b src s
  Same-KeepsOutside {k} {b} same h = Same-trans (KeepsOutside-Same k b h) same

-- Different slots of `b` bytes share no byte.
slot_lt : (b i k : ℕ) → i < k → i * b + b ≤ k * b
slot_lt b i k h = omega (arith, mul-le-mul_right b h)

pub slots-Apart : (b i k : ℕ) → i ≢ k → Apart (i * b) b (k * b) b
slots-Apart b i k d = elim (Bool-cases (ltb i k)) [
  | inl e ↦ inl (slot_lt b i k (ground (arith, e)))
  | inr e ↦ inr (slot_lt b k i (ground (arith, e, d)))
]

pub slot_within : (b i n : ℕ) → i < n → i * b + b ≤ n * b
slot_within b i n h = slot_lt b i n h
