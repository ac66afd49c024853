-- ===== src/Rpc/Scale/Serve.antt =====
-- One record of a request, as the server's loop serves it.
use model_test.Prelude.{ℕ, ◌+◌, ◌^◌, ◌<◌, ◌≡◌, refl, ◌∙◌, Bool, true, false, if◌then◌else◌, arith}
use model_test.Memory.{Memory, memcpy, load64, store64, Apart, Same}
use model_test.Memory.Laws.{Same-trans, Same-memcpy_in, load-store, load-store-Apart}
use model_test.Memory.Region.{
  KeepsOutside, KeepsOutside-refl, KeepsOutside-trans, KeepsOutside-le, store-KeepsOutside,
  memcpy-KeepsOutside, KeepsOutside-load, KeepsOutside-Same,
}
use model_test.Rpc.Batch.Layout.{Item}
use model_test.Rpc.Batch.Serve.{memcpy-Same}
use model_test.Rpc.Scale.{record_size, serve_record}

-- One record: what is written at its target, the entry of the reply, and the entry's data.
abbrev pub target : (write : Bool) → (m src : Memory) → ℕ → Item → Memory
target true m src size it = memcpy m it.globle src it.local size
target false m src size it = m

abbrev entry : Memory → (size temp2 : ℕ) → Item → Memory
entry t size temp2 it =
    store64 (store64 (store64 t temp2 it.globle) (temp2 + 8) it.local) (temp2 + 16) size

abbrev pub finish : (read : Bool) → Memory → (size temp2 : ℕ) → Item → Memory
finish true t size temp2 it =
    memcpy (entry t size temp2 it) (temp2 + 24) (entry t size temp2 it) it.globle size
finish false t size temp2 it = entry t size temp2 it

pub serve_record-finish :
    (write read : Bool) (src m : Memory) (size addr temp2 : ℕ) (it : Item)
    → load64 m addr ≡ it.globle
    → load64 m (addr + 8) ≡ it.local
    → (write ≡ true → Same size m (addr + 24) src it.local)
    → serve_record write read size addr temp2 m
      ≡ finish read (target write m src size it) size temp2 it
unfolding serve_record
serve_record-finish true true src m size addr temp2 it eg el payload =
    rw (eg, el, memcpy-Same m it.globle size m src (addr + 24) it.local (payload refl)) refl
serve_record-finish true false src m size addr temp2 it eg el payload =
    rw (eg, el, memcpy-Same m it.globle size m src (addr + 24) it.local (payload refl)) refl
serve_record-finish false true src m size addr temp2 it eg el payload = rw (eg, el) refl
serve_record-finish false false src m size addr temp2 it eg el payload = rw (eg, el) refl

module _ (t : Memory) (size temp2 : ℕ) (it : Item) where
  entry-KeepsOutside : KeepsOutside temp2 24 t (entry t size temp2 it)
  entry-KeepsOutside =
      KeepsOutside-trans
        (KeepsOutside-le temp2 24 (store-KeepsOutside 8 t temp2 it.globle) (omega arith)
          (omega arith))
        (KeepsOutside-trans
          (KeepsOutside-le temp2 24 (store-KeepsOutside 8 _ (temp2 + 8) it.local) (omega arith)
            (omega arith))
          (KeepsOutside-le temp2 24 (store-KeepsOutside 8 _ (temp2 + 16) size) (omega arith)
            (omega arith)))

  finish_entry-KeepsOutside :
      (read : Bool)
      → KeepsOutside
          (temp2 + 24)
          (if read then size else 0)
          (entry t size temp2 it)
          (finish read t size temp2 it)
  finish_entry-KeepsOutside true = memcpy-KeepsOutside _ (temp2 + 24) _ it.globle size
  finish_entry-KeepsOutside false = KeepsOutside-refl _ _ _

  pub finish-KeepsOutside :
      (read : Bool) → KeepsOutside temp2 (record_size read size) t (finish read t size temp2 it)
  unfolding record_size
  finish-KeepsOutside read =
      KeepsOutside-trans
        (KeepsOutside-le temp2 (24 + (if read then size else 0)) entry-KeepsOutside (omega arith)
          (omega arith))
        (KeepsOutside-le temp2 (24 + (if read then size else 0)) (finish_entry-KeepsOutside read)
          (omega arith) (omega arith))

  pub finish-holds :
      (read : Bool)
      → it.globle < 256 ^ 8
      → it.local < 256 ^ 8
      → size < 256 ^ 8
      → (load64 (finish read t size temp2 it) temp2 ≡ it.globle)
        × (load64 (finish read t size temp2 it) (temp2 + 8) ≡ it.local)
        × (load64 (finish read t size temp2 it) (temp2 + 16) ≡ size)
  finish-holds read hg hl hs =
      let keeps = finish_entry-KeepsOutside read in
      let one : Memory = store64 t temp2 it.globle in
      let two : Memory = store64 one (temp2 + 8) it.local in
      (
        KeepsOutside-load keeps 8 temp2 (omega arith)
            ∙ load-store-Apart 8 two temp2 8 (temp2 + 16) size (omega arith)
            ∙ load-store-Apart 8 one temp2 8 (temp2 + 8) it.local (omega arith)
            ∙ load-store 8 t temp2 it.globle hg,
        KeepsOutside-load keeps 8 (temp2 + 8) (omega arith)
            ∙ load-store-Apart 8 two (temp2 + 8) 8 (temp2 + 16) size (omega arith)
            ∙ load-store 8 one (temp2 + 8) it.local hl,
        KeepsOutside-load keeps 8 (temp2 + 16) (omega arith)
            ∙ load-store 8 two (temp2 + 16) size hs,
      )

  pub finish-data :
      (read : Bool)
      → read ≡ true
      → Apart it.globle size temp2 24
      → Same size (finish read t size temp2 it) (temp2 + 24) t it.globle
  finish-data true e apart =
      Same-trans
        (Same-memcpy_in (entry t size temp2 it) (temp2 + 24) (entry t size temp2 it) it.globle size)
        (KeepsOutside-Same entry-KeepsOutside size it.globle apart)
  finish-data false e apart = absurd (grind (arith, e))
