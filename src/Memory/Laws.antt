-- ===== src/Memory/Laws.antt =====
-- Which bytes each access of `Memory` reads and writes.
use model_test.Prelude.{
  ℕ, zero, suc, ◌+◌, ◌/◌, ◌%◌, ◌^◌, ◌≤◌, ◌<◌, ◌≡◌, refl, ap, ◌∙◌, ◌≢◌, ◌⊎◌, arith,
}
use model_test.Memory.{Memory, store_byte, memcpy, load, store, Apart, Same}
use native.Mathlib.Nat.{pow-suc}

pub store_byte_self : (m : Memory) (a v : ℕ) → store_byte m a v a ≡ v
unfolding store_byte
store_byte_self m a v = ground arith

pub store_byte_ne : (m : Memory) (a v x : ℕ) → x ≢ a → store_byte m a v x ≡ m x
unfolding store_byte
store_byte_ne m a v x h = ground arith

pub memcpy_in :
    (m : Memory) (d : ℕ) (src : Memory) (s n i : ℕ)
    → i < n
    → memcpy m d src s n (d + i) ≡ src (s + i)
unfolding memcpy
memcpy_in m d src s n i h = ground arith

pub memcpy_out :
    (m : Memory) (d : ℕ) (src : Memory) (s n x : ℕ)
    → (x < d) ⊎ (d + n ≤ x)
    → memcpy m d src s n x ≡ m x
unfolding memcpy
memcpy_out m d src s n x h = ground arith

-- A store of `n` bytes at `a` leaves every other byte.
pub store_out : (n : ℕ) (m : Memory) (a v x : ℕ) → (x < a) ⊎ (a + n ≤ x) → store n m a v x ≡ m x
unfolding store store_byte
store_out zero m a v x h = refl
store_out (suc n) m a v x h = ground (arith, store_out n m (a + 1) (v / 256) x (omega arith))

pub Apart-at : {a b i : ℕ} (n k : ℕ) → Apart a n b k → i < n → (a + i < b) ⊎ (b + k ≤ a + i)
Apart-at n k h p = omega arith

-- A load sees only the `n` bytes at its address.
pub load-Same : (n : ℕ) {m m' : Memory} {a b : ℕ} → Same n m a m' b → load n m a ≡ load n m' b
unfolding load
load-Same zero h = refl
load-Same (suc n) {m} {m'} {a} {b} h = omega (arith, head, load-Same n rest)
  where
    head : m a ≡ m' b
    head = ap m (omega arith) ∙ h.at 0 (omega arith) ∙ ap m' (omega arith)

    rest : Same n m (a + 1) m' (b + 1)
    rest = record {
      at = λ i p. ap m (omega arith) ∙ h.at (suc i) (omega arith) ∙ ap m' (omega arith);
    }

-- A region keeps its contents through a write elsewhere.
module _ {n : ℕ} {m src : Memory} {a s : ℕ} (same : Same n m a src s) where
  pub Same-store : (k b v : ℕ) → Apart a n b k → Same n (store k m b v) a src s
  Same-store k b v h = record {
    at = λ i p. store_out k m b v (a + i) (Apart-at n k h p) ∙ same.at i p;
  }

  pub Same-store_byte : (b v : ℕ) → Apart a n b 1 → Same n (store_byte m b v) a src s
  Same-store_byte b v h = record {
    at = λ i p. store_byte_ne m b v (a + i) (omega arith) ∙ same.at i p;
  }

  pub Same-memcpy :
      (d : ℕ) (from : Memory) (f k : ℕ) → Apart a n d k → Same n (memcpy m d from f k) a src s
  Same-memcpy d from f k h = record {
    at = λ i p. memcpy_out m d from f k (a + i) (Apart-at n k h p) ∙ same.at i p;
  }

  -- The contents of a part of a region.
  pub Same-part : (o k : ℕ) → o + k ≤ n → Same k m (a + o) src (s + o)
  Same-part o k q = record {
    at = λ i p. ap m (omega arith) ∙ same.at (o + i) (omega arith) ∙ ap src (omega arith);
  }

  pub Same-le : (k : ℕ) → k ≤ n → Same k m a src s
  Same-le k q = record { at = λ i p. same.at i (omega arith) }

pub Same-refl : (n : ℕ) (m : Memory) (a : ℕ) → Same n m a m a
Same-refl n m a = record { at = λ i p. refl }

pub Same-trans :
    {n : ℕ} {m m' m'' : Memory} {a b c : ℕ} → Same n m a m' b → Same n m' b m'' c → Same n m a m'' c
Same-trans h k = record { at = λ i p. h.at i p ∙ k.at i p }

pub Same-memcpy_in :
    (m : Memory) (d : ℕ) (src : Memory) (s n : ℕ) → Same n (memcpy m d src s n) d src s
Same-memcpy_in m d src s n = record { at = λ i p. memcpy_in m d src s n i p }

-- A load gives back what a store of the same width put there, if it fits the width.
pub load-store : (n : ℕ) (m : Memory) (a v : ℕ) → v < 256 ^ n → load n (store n m a v) a ≡ v
unfolding load store
load-store zero m a v h = omega arith
load-store (suc n) m a v h = omega (
  arith,
  store_byte_self (store n m (a + 1) (v / 256)) a (v % 256),
  load-Same n (
      Same-store_byte (Same-refl n (store n m (a + 1) (v / 256)) (a + 1)) a (v % 256)
        (omega arith)),
  load-store n m (a + 1) (v / 256) (omega (arith, pow-suc 256 n)),
)

-- What a load sees through a write elsewhere.
module _ (n : ℕ) (m : Memory) (a : ℕ) where
  pub load-store-Apart : (k b v : ℕ) → Apart a n b k → load n (store k m b v) a ≡ load n m a
  load-store-Apart k b v h = load-Same n (Same-store (Same-refl n m a) k b v h)

  pub load-store_byte-Apart : (b v : ℕ) → Apart a n b 1 → load n (store_byte m b v) a ≡ load n m a
  load-store_byte-Apart b v h = load-Same n (Same-store_byte (Same-refl n m a) b v h)

  pub load-memcpy-Apart :
      (d : ℕ) (src : Memory) (s k : ℕ) → Apart a n d k → load n (memcpy m d src s k) a ≡ load n m a
  load-memcpy-Apart d src s k h = load-Same n (Same-memcpy (Same-refl n m a) d src s k h)
