-- ===== src/Rpc/Clover/Update.antt =====
-- A call of model_1_clover for a pointer that is set already.
use model_test.Prelude.{
  ℕ, ◌+◌, ◌≡◌, ◌≢◌, refl, ap, ◌∙◌, ◌==◌, Bool, true, false, some, Bool-cases, inl, inr,
  if◌then◌else◌, arith,
}
use model_test.Memory.{Memory, store64, load64, Apart, Same}
use model_test.Memory.Laws.{
  load-Same, load-store, load-store-Apart, Same-refl, Same-trans, Same-store,
}
use model_test.Rdma.{Rdma, completed, finished, Reliable}
use model_test.AddrTable.{
  AddrInfo, World, find, change_at, count_write, completion_of_write, RwWork,
}
use model_test.AddrTable.Laws.{find-change_at}
use model_test.AddrTable.Access.{write_work_handler-Same}
use model_test.Rpc.Clover.{Atomic, AllSwap, clover_work_handler, model_1_clover}

-- A word that is set from 0 to 1.
abbrev pub marked : ℕ → ℕ
marked v = if v == 0 then 1 else v

module _ (atom : Atomic) {m m' : Memory} {a : ℕ} (e : atom.cas m a 0 1 ≡ completed m') where
  swapped_word : load64 m' a ≡ marked (load64 m a)
  swapped_word = elim (Bool-cases (load64 m a == 0)) [
    | inl z ↦ rw z (
        load-Same 8 (record { at = λ i p. atom.swapped m a 0 1 m' e (a + i) ∙ rw z refl })
        ∙ load-store 8 m a 1 (omega arith))
    | inr z ↦
        rw z (load-Same 8 (record { at = λ i p. atom.swapped m a 0 1 m' e (a + i) ∙ rw z refl }))
  ]

  swapped_elsewhere : (k x : ℕ) → Apart x k a 8 → Same k m' x m x
  swapped_elsewhere k x h = elim (Bool-cases (load64 m a == 0)) [
    | inl z ↦
        Same-trans (record { at = λ i p. atom.swapped m a 0 1 m' e (x + i) ∙ rw z refl })
          (Same-store (Same-refl k m x) 8 a 1 h)
    | inr z ↦ record { at = λ i p. atom.swapped m a 0 1 m' e (x + i) ∙ rw z refl }
  ]

completion_keeps : (spwrite : Bool) (j : AddrInfo) → (completion_of_write spwrite j).addr ≡ j.addr
completion_keeps true j = refl
completion_keeps false j = refl

module _ (hash : ℕ → ℕ) (net : Rdma) (reliable : Reliable net) (atom : Atomic)
    (swaps : AllSwap atom) (spwrite : Bool) (cas_mr space_addr length local_addr point : ℕ)
    (s : World) (i o : AddrInfo) where
  abbrev last : ℕ
  last = load64 s.client point

  -- The entry of the last object is found as before the write.
  find-last :
      find hash last s.table ≡ some o
      → last ≢ space_addr
      → find hash last (
          change_at hash
            (completion_of_write spwrite)
            space_addr
            (change_at hash count_write space_addr s.table))
        ≡ some o
  find-last old other =
      let ne : (space_addr == last) ≡ false = ground (arith, other) in
      let once = change_at hash count_write space_addr s.table in
      let cleared : find hash last (change_at hash (completion_of_write spwrite) space_addr once)
          ≡ find hash last once =
        find-change_at hash once (completion_of_write spwrite) space_addr last
          (completion_keeps spwrite)
        ∙ rw ne refl in
      let counted : find hash last once ≡ find hash last s.table =
        find-change_at hash s.table count_write space_addr last (λ j. refl) ∙ rw ne refl in
      cleared ∙ counted ∙ old

  -- A call of model_1_clover for a pointer that is not 0 and names another object than the new
  -- space, both in the table and the space unlocked, on a reliable network and with memory for
  -- its tasks, with the last object's second word outside the space and the pointer outside the
  -- word that comes back, returns: the new space then holds the data and the second word of the
  -- last object is 1 if it was 0; but the pointer still names the last object.
  pub model_1_clover-marked :
      find hash space_addr s.table ≡ some i
      → i.write_flag ≡ false
      → find hash last s.table ≡ some o
      → last ≢ 0
      → last ≢ space_addr
      → Apart (o.addr + 8) 8 i.addr length
      → Apart point 8 cas_mr 8
      → (s' : World) × (model_1_clover hash net atom spwrite true true cas_mr space_addr length
            local_addr point s
          ≡ finished s')
        × Same length s'.server i.addr s.client local_addr
        × (load64 s'.server (o.addr + 8) ≡ marked (load64 s.server (o.addr + 8)))
        × (load64 s'.client point ≡ last)
  unfolding model_1_clover clover_work_handler
  model_1_clover-marked known free old some_last other word pointer =
      let w : RwWork = record {
        dhmp_addr = space_addr;
        local_addr = local_addr;
        length = length;
      } in
      let (s1, e1, stored, table, kept, elsewhere) =
        write_work_handler-Same hash net reliable w s i known free spwrite in
      let (m2, e2) = swaps s1.server (o.addr + 8) 0 1 in
      let found : find hash last s1.table ≡ some o = rw table (find-last old other) in
      let set : (last == 0) ≡ false = ground (arith, some_last) in
      (
        record s1 {
          client = store64 s1.client cas_mr (load64 s1.server (o.addr + 8));
          server = m2;
        },
        rw (e1, kept, set, found, e2) refl,
        Same-trans (swapped_elsewhere atom e2 length i.addr (omega (arith, word))) stored,
        swapped_word atom e2 ∙ ap marked (load-Same 8 (elsewhere 8 (o.addr + 8) word)),
        load-store-Apart 8 s1.client point 8 cas_mr (load64 s1.server (o.addr + 8)) pointer
            ∙ ap (λ (m : Memory). load64 m point) kept,
      )
