-- ===== src/Memory.antt =====
-- The byte memory of one process, and the C accesses that the code makes to it: a `char` store,
-- `memcpy`, and `uintptr_t`/`size_t` loads and stores (8 bytes, least significant first: x86-64).
pub mod Laws
pub mod Region
use model_test.Prelude.{
  ℕ, zero, suc, ◌+◌, ◌-◌, ◌*◌, ◌/◌, ◌%◌, ◌≤◌, ◌<◌, ◌≡◌, ◌⊎◌, Bool, ◌&&◌, leb, ltb, ◌==◌,
  if◌then◌else◌,
}

abbrev pub Memory : Type 0
Memory = ℕ → ℕ

abbrev pub inside : ℕ → ℕ → ℕ → Bool
inside x a n = leb a x && ltb x (a + n)

-- `*(char*)a = v`
unfoldable pub store_byte : Memory → ℕ → ℕ → Memory
store_byte m a v x = if x == a then v else m x

-- `memcpy(d, s, n)`, from the memory `src` (the same process's, mostly)
unfoldable pub memcpy : Memory → ℕ → Memory → ℕ → ℕ → Memory
memcpy m d src s n x = if inside x d n then src (s + (x - d)) else m x

-- an unsigned integer of `n` bytes at `a`
unfoldable pub load : ℕ → Memory → ℕ → ℕ
load zero m a = 0
load (suc n) m a = m a + 256 * load n m (a + 1)

unfoldable pub store : ℕ → Memory → ℕ → ℕ → Memory
store zero m a v = m
store (suc n) m a v = store_byte (store n m (a + 1) (v / 256)) a (v % 256)

abbrev pub load64 : Memory → ℕ → ℕ
load64 = load 8

abbrev pub store64 : Memory → ℕ → ℕ → Memory
store64 = store 8

-- two regions that share no byte
abbrev pub Apart : ℕ → ℕ → ℕ → ℕ → Type 0
Apart a n b k = (a + n ≤ b) ⊎ (b + k ≤ a)

-- the `n` bytes at `a` in `m` are those at `b` in `m'`
pub record Same (n : ℕ) (m : Memory) (a : ℕ) (m' : Memory) (b : ℕ) : Type 0 where
  pub at : (i : ℕ) → i < n → m (a + i) ≡ m' (b + i)
