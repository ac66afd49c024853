-- ===== src/AddrTable/Abstract.antt =====
-- The table as a finite map from addresses to regions, and the work items of
-- `dhmp_work_handle_thread` that reach it, by their handlers and in that map.
use model_test.Prelude.{
  ℕ, ◌≡◌, ◌≢◌, Bool, true, false, Option, none, some, List, [], ◌∷◌, ◌==◌, if◌then◌else◌,
}
use model_test.Rdma.{Rdma, Outcome, finished, failed, exited, spinning, ◌>>=◌}
use model_test.AddrTable.{
  AddrInfo, Table, World, RwWork, find, malloc_response, free_work_handler, read_work_handler,
  write_work_handler, count_read, count_write, clear_flag,
}
use model_test.AddrTable.Laws.{IsTable, map_found}

-- The abstract view: what each address stands for.
abbrev pub Regions : Type 0
Regions = ℕ → Option AddrInfo

-- The work items that reach the table; `malloc` with the region that the server's response names.
pub data Call : Type 0 where
  malloc : AddrInfo → Call
  free : ℕ → Call
  read : RwWork → Call
  write : RwWork → Call

-- one work item's effect on the abstract view
abbrev pub spec : Call → Regions → Regions
spec (malloc i) f b = if i.addr == b then some (clear_flag i) else f b
spec (free a) f b = if a == b then none else f b
spec (read w) f b = if w.dhmp_addr == b then map_found count_read (f b) else f b
spec (write w) f b =
    if w.dhmp_addr == b then map_found (λ i. clear_flag (count_write i)) (f b) else f b

-- the table that a free leaves
abbrev pub freed : World → Outcome (Table × Bool) → Outcome World
freed s (finished r) = finished (record s { table = r.0 })
freed s (failed r) = failed (record s { table = r.0 })
freed s exited = exited
freed s (spinning r) = spinning (record s { table = r.0 })

-- One work item, by its handler in a build with Spwrite; the server answers every free, and there is
-- memory for the tasks.
unfoldable pub run_call : (ℕ → ℕ) → Rdma → Call → World → Outcome World
run_call hash net (malloc i) s =
    finished (record s { table = (malloc_response hash 0 i s.table).0 })
run_call hash net (free a) s = freed s (free_work_handler hash true a s.table)
run_call hash net (read w) s = read_work_handler hash net true w s
run_call hash net (write w) s = write_work_handler hash net true true w s

unfoldable pub run_calls : (ℕ → ℕ) → Rdma → List Call → World → Outcome World
run_calls hash net [] s = finished s
run_calls hash net (c ∷ rest) s = run_call hash net c s >>= run_calls hash net rest

abbrev pub spec_calls : List Call → Regions → Regions
spec_calls [] f = f
spec_calls (c ∷ rest) f = spec_calls rest (spec c f)

-- A malloc's response names a region that is not NULL and not already the client's.
abbrev pub Answers : Call → Regions → Type 0
Answers (malloc i) f = (i.addr ≢ 0) × (f i.addr ≡ none)
Answers _ f = Unit

abbrev pub AllAnswer : List Call → Regions → Type 0
AllAnswer [] f = Unit
AllAnswer (c ∷ rest) f = Answers c f × AllAnswer rest (spec c f)

-- a region that no write has locked
abbrev pub IsUnlocked : Option AddrInfo → Type 0
IsUnlocked none = Unit
IsUnlocked (some i) = i.write_flag ≡ false

-- The table stands for the abstract view.
pub record Refines (hash : ℕ → ℕ) (s : World) (f : Regions) : Type 0 where
  pub table : IsTable hash s.table
  pub look_up : (b : ℕ) → find hash b s.table ≡ f b
  pub unlocked : (b : ℕ) → IsUnlocked (f b)
