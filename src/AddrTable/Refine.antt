-- ===== src/AddrTable/Refine.antt =====
-- The table's handlers (`dhmp_malloc_work_handler`'s end, free, read and write) implement the map.
use model_test.Prelude.{
  ℕ, ◌≡◌, refl, sym, ap, ◌∙◌, Bool, true, false, Option, none, some, List, [], ◌∷◌, ◌==◌,
  if◌then◌else◌, arith, inl, inr, Option-cases, Bool-cases, ==_iff,
}
use mathlib.Core.Path.{subst}
use model_test.Rdma.{Rdma, finished, Reliable}
use model_test.AddrTable.{
  AddrInfo, Table, World, RwWork, find, change_at, malloc_response, free_work_handler,
  read_work_handler, write_work_handler, count_read, count_write, clear_flag,
}
use model_test.AddrTable.Laws.{IsTable, map_found, find-change_at, change_at-IsTable}
use model_test.AddrTable.Access.{
  malloc_response-find, free_work_handler-find, read_work_handler-Same, write_work_handler-Same,
}
use model_test.AddrTable.Abstract.{
  Regions, Call, malloc, free, read, write, spec, freed, run_call, run_calls, spec_calls, Answers,
  AllAnswer, IsUnlocked, Refines,
}

-- What a change of one entry is in the abstract view.
abbrev pub changed : (AddrInfo → AddrInfo) → ℕ → Regions → Regions
changed h a f b = if a == b then map_found h (f b) else f b

KeepsUnlocked : (AddrInfo → AddrInfo) → Type 0
KeepsUnlocked h = (i : AddrInfo) → i.write_flag ≡ false → (h i).write_flag ≡ false

map_found-IsUnlocked :
    (h : AddrInfo → AddrInfo)
    → KeepsUnlocked h
    → (o : Option AddrInfo) → IsUnlocked o
    → IsUnlocked (map_found h o)
unfolding KeepsUnlocked
map_found-IsUnlocked h keeps none u = u
map_found-IsUnlocked h keeps (some i) u = keeps i u

found_or-IsUnlocked :
    (c : Bool) (o p : Option AddrInfo)
    → IsUnlocked o
    → IsUnlocked p
    → IsUnlocked (if c then o else p)
found_or-IsUnlocked true o p u v = u
found_or-IsUnlocked false o p u v = v

module _ (hash : ℕ → ℕ) (s : World) (f : Regions) (r : Refines hash s f) where
  -- An access to an address that is not in the table changes nothing.
  changed-none :
      (h : AddrInfo → AddrInfo) (a : ℕ)
      → find hash a s.table ≡ none
      → Refines hash s (changed h a f)
  changed-none h a e = record {
    table = r.table;
    look_up = λ b. elim (Bool-cases (a == b)) [
      | inl p ↦ ground (arith, e, r.look_up b, ap (λ k. find hash k s.table) ((==_iff a b).0 p))
      | inr p ↦ rw p (r.look_up b)
    ];
    unlocked = λ b. elim (Bool-cases (a == b)) [
      | inl p ↦ ground (arith, e, r.look_up b, ap (λ k. find hash k s.table) ((==_iff a b).0 p))
      | inr p ↦ rw p (r.unlocked b)
    ];
  }

  changed-Refines :
      (s' : World) (h : AddrInfo → AddrInfo) (a : ℕ)
      → IsTable hash s'.table
      → KeepsUnlocked h
      → ((b : ℕ)
          → find hash b s'.table
            ≡ (if a == b then map_found h (find hash b s.table) else find hash b s.table))
      → Refines hash s' (changed h a f)
  changed-Refines s' h a v keeps at = record {
    table = v;
    look_up = λ b. ground (arith, at b, r.look_up b);
    unlocked = λ b.
        found_or-IsUnlocked (a == b) (map_found h (f b)) (f b)
          (map_found-IsUnlocked h keeps (f b) (r.unlocked b)) (r.unlocked b);
  }

module _ (hash : ℕ → ℕ) (net : Rdma) (reliable : Reliable net) where
  run_malloc-Refines :
      (i : AddrInfo) (s : World) (f : Regions)
      → Refines hash s f
      → Answers (malloc i) f
      → Refines hash (record s { table = (malloc_response hash 0 i s.table).0 }) (spec (malloc i) f)
  run_malloc-Refines i s f r a =
      let (v, res, at) = malloc_response-find hash i s.table r.table a.0 (r.look_up i.addr ∙ a.1) in
      record {
        table = v;
        look_up = λ b. ground (arith, at b, r.look_up b);
        unlocked =
            λ b. found_or-IsUnlocked (i.addr == b) (some (clear_flag i)) (f b) refl (r.unlocked b);
      }

  run_free-Refines :
      (a : ℕ) (s : World) (f : Regions)
      → Refines hash s f
      → (s' : World) × (freed s (free_work_handler hash true a s.table) ≡ finished s')
        × Refines hash s' (spec (free a) f)
  run_free-Refines a s f r =
      let (t, e, v, at) = free_work_handler-find hash a s.table r.table in
      (
        record s { table = t },
        rw e refl,
        record {
          table = v;
          look_up = λ b. ground (arith, at b, r.look_up b);
          unlocked = λ b. found_or-IsUnlocked (a == b) none (f b) tt (r.unlocked b);
        },
      )

  found-unlocked :
      (s : World) (f : Regions) (a : ℕ) (i : AddrInfo)
      → Refines hash s f
      → find hash a s.table ≡ some i
      → i.write_flag ≡ false
  found-unlocked s f a i r e = subst IsUnlocked (sym (r.look_up a) ∙ e) (r.unlocked a)

  run_read-Refines :
      (w : RwWork) (s : World) (f : Regions)
      → Refines hash s f
      → (s' : World) × (read_work_handler hash net true w s ≡ finished s')
        × Refines hash s' (spec (read w) f)
  unfolding read_work_handler KeepsUnlocked
  run_read-Refines w s f r = elim (Option-cases (find hash w.dhmp_addr s.table)) [
    | inl e ↦ (s, rw e refl, changed-none hash s f r count_read w.dhmp_addr e)
    | inr (i, e) ↦
        let (s', ran, got, table, kept) =
          read_work_handler-Same hash net reliable w s i e (found-unlocked s f w.dhmp_addr i r e) in
        (
          s',
          ran,
          changed-Refines hash s f r s' count_read w.dhmp_addr
              (rw table (change_at-IsTable hash s.table r.table count_read w.dhmp_addr (λ i. refl)))
              (λ i u. u)
              (λ b. rw table (find-change_at hash s.table count_read w.dhmp_addr b (λ i. refl))),
        )
  ]

  -- A write counts itself and locks the region, and its completion unlocks it.
  write_seen :
      (t : Table) (a b : ℕ)
      → find hash b (change_at hash clear_flag a (change_at hash count_write a t)) ≡ (
          if a == b
          then map_found (λ i. clear_flag (count_write i)) (find hash b t)
          else find hash b t)
  write_seen t a b = ground (
    arith,
    find-change_at hash (change_at hash count_write a t) clear_flag a b (λ i. refl),
    find-change_at hash t count_write a b (λ i. refl),
    Option-cases (find hash b t),
  )

  run_write-Refines :
      (w : RwWork) (s : World) (f : Regions)
      → Refines hash s f
      → (s' : World) × (write_work_handler hash net true true w s ≡ finished s')
        × Refines hash s' (spec (write w) f)
  unfolding write_work_handler KeepsUnlocked
  run_write-Refines w s f r = elim (Option-cases (find hash w.dhmp_addr s.table)) [
    | inl e ↦
        (s, rw e refl, changed-none hash s f r (λ i. clear_flag (count_write i)) w.dhmp_addr e)
    | inr (i, e) ↦
        let (s', ran, got, table, kept, _) =
          write_work_handler-Same hash net reliable w s i e (found-unlocked s f w.dhmp_addr i r e)
            true in
        let once = change_at hash count_write w.dhmp_addr s.table in
        (
          s',
          ran,
          changed-Refines hash s f r s' (λ i. clear_flag (count_write i)) w.dhmp_addr
              (rw table (
                change_at-IsTable hash once
                  (change_at-IsTable hash s.table r.table count_write w.dhmp_addr (λ i. refl))
                  clear_flag w.dhmp_addr (λ i. refl)))
              (λ i u. refl) (λ b. rw table (write_seen s.table w.dhmp_addr b)),
        )
  ]

  run_call-Refines :
      (c : Call) (s : World) (f : Regions)
      → Refines hash s f
      → Answers c f
      → (s' : World) × (run_call hash net c s ≡ finished s') × Refines hash s' (spec c f)
  unfolding run_call
  run_call-Refines (malloc i) s f r a = (
    record s { table = (malloc_response hash 0 i s.table).0 },
    refl,
    run_malloc-Refines i s f r a,
  )
  run_call-Refines (free a) s f r _ = run_free-Refines a s f r
  run_call-Refines (read w) s f r _ = run_read-Refines w s f r
  run_call-Refines (write w) s f r _ = run_write-Refines w s f r

  -- In a build with Spwrite, on a reliable network and with memory for the tasks, any sequence of
  -- mallocs whose responses name new non-null regions, frees, reads and writes, of known
  -- addresses or not, ends; a table that stands for a map from addresses to unlocked regions then
  -- stands for the map that the same sequence makes of it.
  pub run_calls-Refines :
      (calls : List Call) (s : World) (f : Regions)
      → Refines hash s f
      → AllAnswer calls f
      → (s' : World) × (run_calls hash net calls s ≡ finished s')
        × Refines hash s' (spec_calls calls f)
  unfolding run_calls
  run_calls-Refines [] s f r _ = (s, refl, r)
  run_calls-Refines (c ∷ rest) s f r a =
      let (s1, e1, r1) = run_call-Refines c s f r a.0 in
      let (s2, e2, r2) = run_calls-Refines rest s1 (spec c f) r1 a.1 in (s2, rw e1 e2, r2)
