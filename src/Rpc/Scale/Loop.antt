-- ===== src/Rpc/Scale/Loop.antt =====
-- The server's loop over the records of a request, and the client's over those of a reply.
use model_test.Prelude.{
  ℕ, ◌+◌, ◌^◌, ◌≤◌, ◌<◌, ◌≡◌, refl, sym, ap, ◌∙◌, List, [], ◌∷◌, length, Bool, true, false, arith,
  ◌⊎◌,
}
use mathlib.Core.Path.{subst}
use model_test.Memory.{Memory, memcpy, Apart, Same}
use model_test.Memory.Laws.{Same-part, Same-le, Same-trans, load-Same}
use model_test.Memory.Region.{
  KeepsOutside, KeepsOutside-refl, KeepsOutside-trans, KeepsOutside-le, memcpy-KeepsOutside,
  KeepsOutside-Same,
}
use model_test.Rpc.Batch.Layout.{Item}
use model_test.Rpc.Batch.Serve.{memcpy-Same}
use model_test.Rpc.Scale.{record_size, serve_records, take_records}
use model_test.Rpc.Scale.Records.{IsRecords, record_size-data, record_size-ge, total}
use model_test.Rpc.Scale.Serve.{
  target, finish, serve_record-finish, finish-KeepsOutside, finish-holds, finish-data,
}
use model_test.Rpc.Scale.Copies.{
  copy_all, AllApart, AllApart-le, written, written_at, written-Same, IsRecords-KeepsOutside,
}

abbrev pub Items64 : List Item → Type 0
Items64 [] = Unit
Items64 (it ∷ rest) = (it.globle < 256 ^ 8) × (it.local < 256 ^ 8) × Items64 rest

target-KeepsOutside :
    (write : Bool) (m src : Memory) (size : ℕ) (it : Item)
    → KeepsOutside it.globle size m (target write m src size it)
target-KeepsOutside true m src size it = memcpy-KeepsOutside m it.globle src it.local size
target-KeepsOutside false m src size it = KeepsOutside-refl it.globle size m

target-false :
    (write : Bool) (m src : Memory) (size : ℕ) (it : Item)
    → write ≡ false
    → target write m src size it ≡ m
target-false true m src size it e = absurd (grind (arith, e))
target-false false m src size it e = refl

written-nil :
    (write : Bool) (src : Memory) (size : ℕ) (m : Memory) (x : ℕ)
    → m x ≡ written write src size [] m x
written-nil true src size m x = refl
written-nil false src size m x = refl

written-cons :
    (write : Bool) (src : Memory) (size : ℕ) (it : Item) (rest : List Item) (m : Memory)
    → written write src size (it ∷ rest) m
      ≡ written write src size rest (target write m src size it)
written-cons true src size it rest m = refl
written-cons false src size it rest m = refl

-- The loop over records whose region is the `n` bytes at `a`, with its reply inside the `q` bytes at
-- `p`: what it writes outside the reply, and the reply's records, whose data are those of `orig`.
module _ (write read : Bool) (src orig : Memory) (size a n p q : ℕ) (bound : size < 256 ^ 8)
    (either : read ≡ true → write ≡ false) (apart : Apart a n p q) where
  abbrev pub Served : (items : List Item) (m m' : Memory) (temp2 : ℕ) → Type 0
  Served items m m' temp2 =
      ((x : ℕ)
        → (x < temp2) ⊎ (temp2 + total read size (length items) ≤ x)
        → m' x ≡ written write src size items m x)
      × IsRecords read (λ it. it.globle) orig m' size temp2 items

  pub serve_records-Served :
      (items : List Item) (m : Memory) (addr temp2 : ℕ)
      → IsRecords write (λ it. it.local) src m size addr items
      → Items64 items
      → AllApart (λ it. it.globle) size a n items
      → AllApart (λ it. it.globle) size p q items
      → (read ≡ true → KeepsOutside p q orig m)
      → a ≤ addr
      → addr + total write size (length items) ≤ a + n
      → p ≤ temp2
      → temp2 + total read size (length items) ≤ p + q
      → Served items m (serve_records (length items) write read size addr temp2 m) temp2
  unfolding serve_records
  serve_records-Served [] m addr temp2 h fits request reply keeps la ua lp up =
      (λ x out. written-nil write src size m x, tt)
  serve_records-Served (it ∷ rest) m addr temp2 (eg, el, es, payload, more) fits request reply keeps
        la ua lp up =
      let mid : Memory = target write m src size it in
      let m1 : Memory = finish read mid size temp2 it in
      let step : ℕ = record_size read size in
      let ge = record_size-ge read size in
      let own : KeepsOutside temp2 step mid m1 = finish-KeepsOutside mid size temp2 it read in
      let here : KeepsOutside p q mid m1 = KeepsOutside-le p q own lp (omega (arith, up)) in
      let (globle, local, sized) = finish-holds mid size temp2 it read fits.0 fits.1 bound in
      let next : IsRecords write (λ it. it.local) src m1 size (addr + record_size write size) rest =
        IsRecords-KeepsOutside write (λ it. it.local) src mid m1 p q size
          (addr + record_size write size) rest here (omega (arith, apart, la, ua))
          (IsRecords-KeepsOutside write (λ it. it.local) src m mid it.globle size size
            (addr + record_size write size) rest (target-KeepsOutside write m src size it)
            (omega (arith, request.0, la, ua)) more) in
      let kept : read ≡ true → KeepsOutside p q orig m1 = λ e.
        KeepsOutside-trans
          (subst (λ t. KeepsOutside p q orig t) (sym (target-false write m src size it (either e)))
            (keeps e))
          here in
      let (outside, records) =
        serve_records-Served rest m1 (addr + record_size write size) (temp2 + step) next fits.2
          request.1 reply.1 kept (omega (arith, la)) (omega (arith, ua)) (omega (arith, lp))
          (omega (arith, up)) in
      let got : Memory =
        serve_records (length rest) write read size (addr + record_size write size) (temp2 + step)
          m1 in
      let stays : Same step got temp2 m1 temp2 =
        Same-trans (record { at = λ i h. outside (temp2 + i) (omega (arith, h)) })
          (written-Same write src size temp2 step rest m1 (
            AllApart-le (λ it. it.globle) size p q temp2 step rest lp (omega (arith, up))
              reply.1)) in
      subst
        (λ t.
          Served (it ∷ rest) m
            (serve_records (length rest) write read size (addr + record_size write size)
              (temp2 + step) t)
            temp2)
        (sym (serve_record-finish write read src m size addr temp2 it eg el payload))
        (
          (λ x out.
              outside x (omega (arith, out))
              ∙ written_at write src size rest m1 mid x (own.at x (omega (arith, out)))
              ∙ ap (λ t. t x) (sym (written-cons write src size it rest m))),
          (
            load-Same 8 (Same-le stays 8 (omega (arith, ge))) ∙ globle,
            load-Same 8 (Same-part stays 8 8 (omega (arith, ge))) ∙ local,
            load-Same 8 (Same-part stays 16 8 (omega (arith, ge))) ∙ sized,
            (λ e.
                Same-trans (Same-part stays 24 size (omega (arith, record_size-data read size e))) (
                  Same-trans
                    (finish-data mid size temp2 it read e (omega (arith, reply.0, lp, up, ge)))
                    (subst (λ t. Same size t it.globle orig it.globle)
                      (sym (target-false write m src size it (either e)))
                      (KeepsOutside-Same (keeps e) size it.globle reply.0)))),
            records,
          ),
        )

-- The client's loop over the records of a reply: the copies to their buffers, which do not touch the
-- `n` bytes at `a` where the records are.
pub take_records-copy_all :
    (items : List Item) (src m : Memory) (size temp a n : ℕ)
    → IsRecords true (λ it. it.globle) src m size temp items
    → AllApart (λ it. it.local) size a n items
    → a ≤ temp
    → temp + total true size (length items) ≤ a + n
    → take_records (length items) temp m
      ≡ copy_all (λ it. it.local) (λ it. it.globle) src size items m
unfolding take_records
take_records-copy_all [] src m size temp a n h apart lower upper = refl
take_records-copy_all (it ∷ rest) src m size temp a n (eg, el, es, payload, more) apart lower
      upper =
    let step = record_size-data true size refl in
    let m1 : Memory = memcpy m it.local src it.globle size in
    let here : KeepsOutside it.local size m m1 =
      memcpy-KeepsOutside m it.local src it.globle size in
    let next : IsRecords true (λ it. it.globle) src m1 size (temp + 24 + size) rest =
      subst (λ c. IsRecords true (λ it. it.globle) src m1 size c rest) (omega (arith, step))
        (IsRecords-KeepsOutside true (λ it. it.globle) src m m1 it.local size size
          (temp + record_size true size) rest here (omega (arith, apart.0, lower, upper)) more) in
    ap
      (λ (p : ℕ × ℕ). take_records (length rest) (temp + 24 + p.1) (memcpy m p.0 m (temp + 24) p.1))
      (λ i. (el i, es i))
    ∙ ap (take_records (length rest) (temp + 24 + size))
        (memcpy-Same m it.local size m src (temp + 24) it.globle (payload refl))
    ∙ take_records-copy_all rest src m1 size (temp + 24 + size) a n next apart.1
        (omega (arith, lower)) (omega (arith, upper, step))
