-- ===== src/Examples/AddrTable.antt =====
-- A region of 16 bytes at 7000, allocated, written, read and freed; the hash is the address.
use model_test.Prelude.{ℕ, List, [], ◌∷◌, ◌≡◌, refl, Bool, true, false, none, some, arith}
use model_test.Memory.{Same}
use model_test.Rdma.{finished, spinning}
use model_test.AddrTable.{
  AddrInfo, Table, World, RwWork, empty_table, hash_in_client, get_addr_info, set_chain, insert_ht,
  find, read_work_handler, write_work_handler,
}
use model_test.AddrTable.Laws.{empty_table-IsTable}
use model_test.AddrTable.Access.{write-read, write_locks}
use model_test.AddrTable.Abstract.{
  Call, malloc, free, read, write, spec_calls, run_calls, AllAnswer, Refines,
}
use model_test.AddrTable.Refine.{run_calls-Refines}
use model_test.Examples.Network.{local_rdma, local_rdma-Reliable}

abbrev pub own_hash : ℕ → ℕ
own_hash a = a

abbrev pub region : AddrInfo
region = record { read_cnt = 0; write_cnt = 0; write_flag = false; addr = 7000; length = 16 }

empty-find : find own_hash 7000 empty_table ≡ none
unfolding find get_addr_info
empty-find = refl

abbrev pub one_region : Table
one_region = insert_ht own_hash 7000 region empty_table

pub region-find : find own_hash 7000 one_region ≡ some region
unfolding find get_addr_info insert_ht set_chain hash_in_client
region-find = refl

abbrev pub rw_world : World
rw_world = record { client = λ a. 5; server = λ a. 9; table = one_region }

abbrev rw_work : RwWork
rw_work = record { dhmp_addr = 7000; local_addr = 100; length = 16 }

abbrev back_work : RwWork
back_work = record { dhmp_addr = 7000; local_addr = 200; length = 8 }

write-read_example :
    (s1 : World) × (s2 : World) × (write_work_handler own_hash local_rdma true true rw_work rw_world
      ≡ finished s1)
    × (read_work_handler own_hash local_rdma true back_work s1 ≡ finished s2)
    × Same 8 s2.client 200 rw_world.client 100
write-read_example =
    write-read own_hash local_rdma local_rdma-Reliable rw_work rw_world region region-find refl
      back_work refl (omega arith)

write_locks_example :
    (s1 : World) × (write_work_handler own_hash local_rdma false true rw_work rw_world
      ≡ finished s1)
    × (read_work_handler own_hash local_rdma true back_work s1 ≡ spinning s1)
    × ((spwrite : Bool)
        → write_work_handler own_hash local_rdma spwrite true back_work s1 ≡ spinning s1)
write_locks_example =
    write_locks own_hash local_rdma local_rdma-Reliable rw_work rw_world region region-find refl
      back_work true refl

abbrev some_calls : List Call
some_calls = malloc region ∷ write rw_work ∷ read back_work ∷ free 7000 ∷ read back_work ∷ []

abbrev empty_world : World
empty_world = record { client = λ a. 5; server = λ a. 9; table = empty_table }

empty_world-Refines : Refines own_hash empty_world (λ b. none)
unfolding find get_addr_info
empty_world-Refines = record {
  table = empty_table-IsTable own_hash;
  look_up = λ b. refl;
  unlocked = λ b. tt;
}

some_calls-AllAnswer : AllAnswer some_calls (λ b. none)
some_calls-AllAnswer = ((λ e. absurd (omega (arith, e)), refl), (tt, (tt, (tt, (tt, tt)))))

run_calls-Refines_example :
    (s' : World) × (run_calls own_hash local_rdma some_calls empty_world ≡ finished s')
    × Refines own_hash s' (spec_calls some_calls (λ b. none))
run_calls-Refines_example =
    run_calls-Refines own_hash local_rdma local_rdma-Reliable some_calls empty_world (λ b. none)
      empty_world-Refines some_calls-AllAnswer
