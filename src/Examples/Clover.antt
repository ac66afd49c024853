-- ===== src/Examples/Clover.antt =====
-- A second object of 16 bytes at 7000, behind a first at 8000 that the pointer at 900 names.
use model_test.Prelude.{ℕ, ◌+◌, ◌≡◌, refl, sym, ap, true, false, some, ◌==◌, if◌then◌else◌, arith}
use model_test.Memory.{Memory, store_byte, load, store, load64, store64, Same}
use model_test.Rdma.{Completion, completed, refused, errored, finished}
use model_test.AddrTable.{
  AddrInfo, Table, World, empty_table, hash_in_client, get_addr_info, set_chain, insert_ht, find,
}
use model_test.Rpc.Clover.{Atomic, AllSwap, model_1_clover}
use model_test.Rpc.Clover.Update.{marked, model_1_clover-marked}
use model_test.Examples.Network.{local_rdma, local_rdma-Reliable}

abbrev swap_word : Memory → (a compare swap : ℕ) → Memory
swap_word m a compare swap x = if load64 m a == compare then store64 m a swap x else m x

abbrev memory_of : Memory → Completion → Memory
memory_of d (completed m) = m
memory_of d refused = d
memory_of d errored = d

abbrev local_cas : Memory → (a compare swap : ℕ) → Completion
local_cas m a compare swap = completed (swap_word m a compare swap)

local_swapped :
    (m : Memory) (a compare swap : ℕ) (m' : Memory)
    → local_cas m a compare swap ≡ completed m'
    → (x : ℕ) → m' x ≡ (if load64 m a == compare then store64 m a swap x else m x)
local_swapped m a compare swap m' e x = ap (λ (c : Completion). memory_of m c x) (sym e)

abbrev local_atomic : Atomic
local_atomic = record { cas = local_cas; swapped = local_swapped }

local_atomic-AllSwap : AllSwap local_atomic
local_atomic-AllSwap m a compare swap = (swap_word m a compare swap, refl)

abbrev own_hash : ℕ → ℕ
own_hash a = a

abbrev object_at : ℕ → AddrInfo
object_at a = record { read_cnt = 0; write_cnt = 0; write_flag = false; addr = a; length = 16 }

abbrev two_objects : Table
two_objects =
    insert_ht own_hash 7000 (object_at 7000) (insert_ht own_hash 8000 (object_at 8000) empty_table)

abbrev pointing : Memory
pointing = store64 (λ a. 0) 900 8000

abbrev clover_world : World
clover_world = record { client = pointing; server = λ a. 0; table = two_objects }

pointing-load : load64 pointing 900 ≡ 8000
unfolding load store store_byte
pointing-load = refl

space-find : find own_hash 7000 two_objects ≡ some (object_at 7000)
unfolding find get_addr_info insert_ht set_chain hash_in_client
space-find = refl

last-find : find own_hash 8000 two_objects ≡ some (object_at 8000)
unfolding find get_addr_info insert_ht set_chain hash_in_client
last-find = refl

model_1_clover-marked_example :
    (s' : World) × (model_1_clover own_hash local_rdma local_atomic true true true 600 7000 16 100
        900 clover_world
      ≡ finished s')
    × Same 16 s'.server 7000 pointing 100
    × (load64 s'.server (8000 + 8) ≡ marked (load64 (λ a. 0) (8000 + 8)))
    × (load64 s'.client 900 ≡ load64 pointing 900)
model_1_clover-marked_example =
    model_1_clover-marked own_hash local_rdma local_rdma-Reliable local_atomic local_atomic-AllSwap
      true 600 7000 16 100 900 clover_world (object_at 7000) (object_at 8000) space-find refl
      (rw pointing-load last-find) (rw pointing-load (omega arith)) (rw pointing-load (omega arith))
      (omega arith) (omega arith)
