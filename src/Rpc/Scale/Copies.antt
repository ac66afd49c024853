-- ===== src/Rpc/Scale/Copies.antt =====
-- The reference for a ScaleRPC batch: its copies, one after the other.
use model_test.Prelude.{ℕ, ◌+◌, ◌≤◌, ◌≡◌, List, [], ◌∷◌, length, Bool, true, false, arith}
use model_test.Memory.{Memory, memcpy, Apart, Same}
use model_test.Memory.Laws.{Same-refl, Same-trans}
use model_test.Memory.Region.{KeepsOutside, memcpy-KeepsOutside, KeepsOutside-Same}
use model_test.Rpc.Batch.Layout.{Item}
use model_test.Rpc.Batch.Serve.{memcpy_at}
use model_test.Rpc.Scale.Records.{IsRecords, total, IsRecords-Same}

-- The copies of a batch, one after the other.
abbrev pub copy_all : (to from : Item → ℕ) (src : Memory) (size : ℕ) → List Item → Memory → Memory
copy_all to from src size [] m = m
copy_all to from src size (it ∷ rest) m =
    copy_all to from src size rest (memcpy m (to it) src (from it) size)

-- None of the items' regions touches the `n` bytes at `a`.
abbrev pub AllApart : (to : Item → ℕ) (size a n : ℕ) → List Item → Type 0
AllApart to size a n [] = Unit
AllApart to size a n (it ∷ rest) = Apart (to it) size a n × AllApart to size a n rest

-- What the copies leave at a byte depends on no other byte of the memory written to.
pub copy_all_at :
    (to from : Item → ℕ) (src : Memory) (size : ℕ) (items : List Item) (m m' : Memory) (x : ℕ)
    → m x ≡ m' x
    → copy_all to from src size items m x ≡ copy_all to from src size items m' x
copy_all_at to from src size [] m m' x e = e
copy_all_at to from src size (it ∷ rest) m m' x e =
    copy_all_at to from src size rest (memcpy m (to it) src (from it) size)
      (memcpy m' (to it) src (from it) size) x (memcpy_at m m' (to it) src (from it) size x e)

pub copy_all-Same :
    (to from : Item → ℕ) (src : Memory) (size a n : ℕ) (items : List Item) (m : Memory)
    → AllApart to size a n items
    → Same n (copy_all to from src size items m) a m a
copy_all-Same to from src size a n [] m apart = Same-refl n m a
copy_all-Same to from src size a n (it ∷ rest) m apart =
    Same-trans
      (copy_all-Same to from src size a n rest (memcpy m (to it) src (from it) size) apart.1)
      (KeepsOutside-Same (memcpy-KeepsOutside m (to it) src (from it) size) n a
        (omega (arith, apart.0)))

pub AllApart-le :
    (to : Item → ℕ) (size a n b k : ℕ) (items : List Item)
    → a ≤ b
    → b + k ≤ a + n
    → AllApart to size a n items
    → AllApart to size b k items
AllApart-le to size a n b k [] p q h = h
AllApart-le to size a n b k (it ∷ rest) p q h =
    (omega (arith, h.0), AllApart-le to size a n b k rest p q h.1)

pub IsRecords-KeepsOutside :
    (with_data : Bool) (from : Item → ℕ) (src m m' : Memory) (a n size cur : ℕ) (items : List Item)
    → KeepsOutside a n m m'
    → Apart cur (total with_data size (length items)) a n
    → IsRecords with_data from src m size cur items
    → IsRecords with_data from src m' size cur items
IsRecords-KeepsOutside with_data from src m m' a n size cur items keeps apart h =
    IsRecords-Same with_data from src m m' size cur cur items
      (KeepsOutside-Same keeps (total with_data size (length items)) cur apart) h

-- What the server writes for a batch that writes, and for one that reads.
abbrev pub written : (write : Bool) (src : Memory) (size : ℕ) → List Item → Memory → Memory
written true src size items m = copy_all (λ it. it.globle) (λ it. it.local) src size items m
written false src size items m = m

pub written_at :
    (write : Bool) (src : Memory) (size : ℕ) (items : List Item) (m m' : Memory) (x : ℕ)
    → m x ≡ m' x
    → written write src size items m x ≡ written write src size items m' x
written_at true src size items m m' x e = copy_all_at _ _ src size items m m' x e
written_at false src size items m m' x e = e

pub written-Same :
    (write : Bool) (src : Memory) (size a n : ℕ) (items : List Item) (m : Memory)
    → AllApart (λ it. it.globle) size a n items
    → Same n (written write src size items m) a m a
written-Same true src size a n items m apart =
    copy_all-Same (λ it. it.globle) (λ it. it.local) src size a n items m apart
written-Same false src size a n items m apart = Same-refl n m a
