-- ===== src/AddrTable/Access.antt =====
-- What the malloc, free, read and write handlers of the client do by way of the table.
use model_test.Prelude.{
  ℕ, ◌≤◌, ◌≡◌, ◌≢◌, refl, ap, Bool, true, false, Option, none, some, arith, ◌==◌, if◌then◌else◌,
  inl, inr, Option-cases,
}
use model_test.Memory.{Apart, Same}
use model_test.Memory.Laws.{Same-trans, Same-le}
use model_test.Rdma.{Rdma, finished, spinning, Reliable, posted, posted_elsewhere}
use model_test.AddrTable.{
  AddrInfo, Table, World, RwWork, find, delete, change_at, malloc_response, free_work_handler,
  read_work_handler, write_work_handler, count_read, count_write, completion_of_write,
}
use model_test.AddrTable.Laws.{
  IsTable, find-insert_ht, find-delete, find-change_at, insert_ht-IsTable, delete-IsTable,
}

abbrev pub is_some : Option AddrInfo → Bool
is_some none = false
is_some (some i) = true

module _ (hash : ℕ → ℕ) where
  -- After the response to an ordinary malloc with a non-null region whose address is not in a
  -- well-formed table, the region, unlocked, and no other is new there, the table is well formed
  -- and the region's address is returned.
  pub malloc_response-find :
      (info : AddrInfo) (t : Table)
      → IsTable hash t
      → info.addr ≢ 0
      → find hash info.addr t ≡ none
      → let (t', res) = malloc_response hash 0 info t in
        IsTable hash t'
        × (res ≡ some info.addr)
        × ((b : ℕ)
            → find hash b t' ≡ (
                if info.addr == b
                then some (record info { write_flag = false })
                else find hash b t))
  unfolding malloc_response
  malloc_response-find info t v nonzero new =
      let unlocked : AddrInfo = record info { write_flag = false } in
      let ne : (info.addr == 0) ≡ false = ground arith in
      rw ne (
        insert_ht-IsTable hash t v unlocked new,
        refl,
        λ b. find-insert_ht hash t info.addr b unlocked refl,
      )

  -- A free that is answered ends; it has sent a request exactly if the address was in the table,
  -- which stays well formed, and it removes that address from the table and no other.
  pub free_work_handler-find :
      (a : ℕ) (t : Table)
      → IsTable hash t
      → (t' : Table) × (free_work_handler hash true a t ≡ finished (t', is_some (find hash a t)))
        × IsTable hash t'
        × ((b : ℕ) → find hash b t' ≡ (if a == b then none else find hash b t))
  unfolding free_work_handler
  free_work_handler-find a t v = elim (Option-cases (find hash a t)) [
    | inl e ↦ (t, rw e, v, λ b. ground (arith, e, ap (λ k. find hash k t) {x = a} {y = b}))
    | inr (i, e) ↦ (delete hash a t, rw e, delete-IsTable hash t v a, λ b. find-delete hash t a b v)
  ]

  module _ (net : Rdma) (reliable : Reliable net) (w : RwWork) (s : World) (i : AddrInfo)
      (known : find hash w.dhmp_addr s.table ≡ some i) (free : i.write_flag ≡ false) where
    pub read_work_handler-Same :
        (s' : World) × (read_work_handler hash net true w s ≡ finished s')
        × Same w.length s'.client w.local_addr s.server i.addr
        × (s'.table ≡ change_at hash count_read w.dhmp_addr s.table)
        × (s'.server ≡ s.server)
    unfolding read_work_handler
    read_work_handler-Same =
        let (m, e) = reliable s.client w.local_addr s.server i.addr w.length in
        (
          record s { client = m; table = change_at hash count_read w.dhmp_addr s.table },
          rw (known, free, e),
          posted net e,
          refl,
          refl,
        )

    pub write_work_handler-Same :
        (spwrite : Bool)
        → (s' : World) × (write_work_handler hash net spwrite true w s ≡ finished s')
          × Same w.length s'.server i.addr s.client w.local_addr
          × (s'.table
              ≡ change_at hash
                  (completion_of_write spwrite)
                  w.dhmp_addr
                  (change_at hash count_write w.dhmp_addr s.table))
          × (s'.client ≡ s.client)
          × ((k x : ℕ) → Apart x k i.addr w.length → Same k s'.server x s.server x)
    unfolding write_work_handler
    write_work_handler-Same spwrite =
        let (m, e) = reliable s.server i.addr s.client w.local_addr w.length in
        (
          record s {
            server = m;
            table =
                change_at hash (completion_of_write spwrite) w.dhmp_addr
                  (change_at hash count_write w.dhmp_addr s.table);
          },
          rw (known, free, e),
          posted net e,
          refl,
          refl,
          λ k x h. posted_elsewhere net e k x h,
        )

-- A region after a write and after a change of another kind: what the next handler finds.
module _ (hash : ℕ → ℕ) (net : Rdma) (reliable : Reliable net) (w : RwWork) (s : World)
    (i : AddrInfo) (known : find hash w.dhmp_addr s.table ≡ some i)
    (free : i.write_flag ≡ false) where
  written_entry :
      (spwrite : Bool)
      → find hash w.dhmp_addr (
          change_at hash
            (completion_of_write spwrite)
            w.dhmp_addr
            (change_at hash count_write w.dhmp_addr s.table))
        ≡ some (completion_of_write spwrite (count_write i))
  written_entry true = ground (
    arith,
    known,
    find-change_at hash (change_at hash count_write w.dhmp_addr s.table) (completion_of_write true)
        w.dhmp_addr w.dhmp_addr (λ i. refl),
    find-change_at hash s.table count_write w.dhmp_addr w.dhmp_addr (λ i. refl),
  )
  written_entry false = ground (
    arith,
    known,
    find-change_at hash (change_at hash count_write w.dhmp_addr s.table) (completion_of_write false)
        w.dhmp_addr w.dhmp_addr (λ i. refl),
    find-change_at hash s.table count_write w.dhmp_addr w.dhmp_addr (λ i. refl),
  )

  -- Where the completion of a write clears the flag (Spwrite), on a reliable network and with
  -- memory for the tasks, a write to an unlocked region in the table and then a read of no more
  -- bytes from it both end, and the read's buffer holds what was written.
  pub write-read :
      (r : RwWork)
      → r.dhmp_addr ≡ w.dhmp_addr
      → r.length ≤ w.length
      → (s1 : World) × (s2 : World) × (write_work_handler hash net true true w s ≡ finished s1)
        × (read_work_handler hash net true r s1 ≡ finished s2)
        × Same r.length s2.client r.local_addr s.client w.local_addr
  write-read r same_addr fits =
      let (s1, e1, stored, table, kept, _) =
        write_work_handler-Same hash net reliable w s i known free true in
      let entry : find hash r.dhmp_addr s1.table ≡ some (completion_of_write true (count_write i)) =
        rw (same_addr, table) (written_entry true) in
      let (s2, e2, fetched, _, _) =
        read_work_handler-Same hash net reliable r s1 (completion_of_write true (count_write i))
          entry refl in
      (s1, s2, e1, e2, Same-trans fetched (Same-le stored r.length fits))

  -- In a build without Spwrite, on a reliable network and with memory for its task, a write to an
  -- unlocked region in the table ends, and every later read or write of that region waits
  -- forever, since nothing clears the flag that the write has set.
  pub write_locks :
      (r : RwWork) (task : Bool)
      → r.dhmp_addr ≡ w.dhmp_addr
      → (s1 : World) × (write_work_handler hash net false true w s ≡ finished s1)
        × (read_work_handler hash net task r s1 ≡ spinning s1)
        × ((spwrite : Bool) → write_work_handler hash net spwrite task r s1 ≡ spinning s1)
  unfolding read_work_handler write_work_handler
  write_locks r task same_addr =
      let (s1, e1, stored, table, kept, _) =
        write_work_handler-Same hash net reliable w s i known free false in
      let entry : find hash r.dhmp_addr s1.table
          ≡ some (completion_of_write false (count_write i)) =
        rw (same_addr, table) (written_entry false) in
      (s1, e1, rw entry, λ spwrite. rw entry)
