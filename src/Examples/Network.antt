-- ===== src/Examples/Network.antt =====
-- A network that copies the bytes at once.
use model_test.Prelude.{ℕ, ◌+◌, ◌<◌, ◌≤◌, ◌≡◌, refl, sym, ap, ◌∙◌, ◌⊎◌}
use model_test.Memory.{Memory, memcpy, Same}
use model_test.Memory.Laws.{memcpy_in, memcpy_out}
use model_test.Rdma.{Rdma, Completion, completed, refused, errored, Reliable}

abbrev memory_of : Memory → Completion → Memory
memory_of d (completed m) = m
memory_of d refused = d
memory_of d errored = d

abbrev pub copy : Memory → ℕ → Memory → ℕ → ℕ → Completion
copy m d src s n = completed (memcpy m d src s n)

copy-memory :
    (m : Memory) (d : ℕ) (src : Memory) (s n : ℕ) (m' : Memory)
    → copy m d src s n ≡ completed m'
    → memcpy m d src s n ≡ m'
copy-memory m d src s n m' e = ap (memory_of m) e

pub copy_in :
    (m : Memory) (d : ℕ) (src : Memory) (s n : ℕ) (m' : Memory)
    → copy m d src s n ≡ completed m'
    → Same n m' d src s
copy_in m d src s n m' e = record {
  at = λ i p.
      ap (λ (f : Memory). f (d + i)) (sym (copy-memory m d src s n m' e))
      ∙ memcpy_in m d src s n i p;
}

pub copy_out :
    (m : Memory) (d : ℕ) (src : Memory) (s n : ℕ) (m' : Memory)
    → copy m d src s n ≡ completed m'
    → (x : ℕ) → (x < d) ⊎ (d + n ≤ x)
    → m' x ≡ m x
copy_out m d src s n m' e x h =
    ap (λ (f : Memory). f x) (sym (copy-memory m d src s n m' e)) ∙ memcpy_out m d src s n x h

abbrev pub local_rdma : Rdma
local_rdma = record { post = copy; post_in = copy_in; post_out = copy_out }

pub local_rdma-Reliable : Reliable local_rdma
local_rdma-Reliable m d src s n = (memcpy m d src s n, refl)
