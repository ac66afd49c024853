-- ===== src/Rpc/Clover.antt =====
-- The Clover call: `model_1_clover` (dhmp_client.c) and `amper_clover_work_handler` (dhmp_work.c). The
-- atomic compare-and-swap of libibverbs is a parameter.
pub mod Update
use model_test.Prelude.{
  ℕ, ◌+◌, ◌*◌, ◌≡◌, ◌≢◌, refl, sym, ap, ◌∙◌, ◌==◌, Bool, true, false, some, if◌then◌else◌, arith,
}
use model_test.Memory.{Memory, store64, load64, Apart, Same}
use model_test.Memory.Laws.{Same-trans, Same-store, Same-refl}
use model_test.Rdma.{
  Rdma, Completion, completed, Outcome, finished, ◌>>=◌, await, guard_task, Reliable,
}
use model_test.AddrTable.{
  AddrInfo, World, RwWork, find, if_found, write_work_handler, change_at, count_write,
  completion_of_write,
}
use model_test.AddrTable.Laws.{find-change_at}
use model_test.AddrTable.Access.{write_work_handler-Same}

-- `cas m a compare swap`: the server's memory after a compare-and-swap of the 8 bytes at `a`.
pub record Atomic : Type 0 where
  pub cas : Memory → (a compare swap : ℕ) → Completion
  pub swapped :
      (m : Memory) (a compare swap : ℕ) (m' : Memory)
      → cas m a compare swap ≡ completed m'
      → (x : ℕ) → m' x ≡ (if load64 m a == compare then store64 m a swap x else m x)

abbrev pub AllSwap : Atomic → Type 0
AllSwap atom =
    (m : Memory) (a compare swap : ℕ) → (m' : Memory) × (atom.cas m a compare swap ≡ completed m')

-- `struct amper_clover_work`
pub record CloverWork : Type 0 where
  pub dhmp_addr : ℕ
  pub length : ℕ
  pub value : ℕ

-- `amper_clover_work_handler`; the word's old value comes back to `client->cas_mr`.
unfoldable pub clover_work_handler :
    (ℕ → ℕ) → Atomic → (task : Bool) → (cas_mr : ℕ) → CloverWork → World → Outcome World
clover_work_handler hash atom task cas_mr w s =
    if_found (find hash w.dhmp_addr s.table)
      (λ i.
        let a = i.addr + w.length in
        guard_task task s (
          await (atom.cas s.server a 0 (if w.value == 0 then 0 else w.value)) s (λ server.
            finished (record s {
              client = store64 s.client cas_mr (load64 s.server a);
              server = server;
            }))))
      (finished s)

-- `model_1_clover`; `point` is the address of `point_addr[offset]`.
unfoldable pub model_1_clover :
    (ℕ → ℕ)
    → Rdma
    → Atomic
    → (spwrite task task2 : Bool) → (cas_mr : ℕ) → (space_addr length local_addr point : ℕ) → World
    → Outcome World
model_1_clover hash net atom spwrite task task2 cas_mr space_addr length local_addr point s =
    write_work_handler hash net spwrite task
      (record { dhmp_addr = space_addr; local_addr = local_addr; length = length }) s
    >>= (λ s1.
        let last = load64 s1.client point in
        if last == 0
        then finished (record s1 { client = store64 s1.client point space_addr })
        else clover_work_handler hash atom task2 cas_mr
            (record { dhmp_addr = last; length = 8; value = 1 }) s1)
