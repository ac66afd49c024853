-- ===== src/Rpc/Scale/Records.antt =====
-- The records of a ScaleRPC request and reply: what the client's loop builds.
use model_test.Prelude.{
  ℕ, zero, suc, ◌+◌, ◌*◌, ◌^◌, ◌≤◌, ◌<◌, ◌≡◌, refl, ◌∙◌, List, [], ◌∷◌, length, Bool, true, false,
  if◌then◌else◌, arith,
}
use model_test.Memory.{Memory, memcpy, load64, Apart, Same}
use model_test.Memory.Laws.{Same-part, Same-le, Same-trans, Same-memcpy_in, load-Same, load-store}
use model_test.Memory.Region.{
  KeepsOutside, KeepsOutside-refl, KeepsOutside-trans, KeepsOutside-le, store-KeepsOutside,
  memcpy-KeepsOutside, KeepsOutside-load, Same-KeepsOutside,
}
use model_test.Rpc.Batch.Layout.{Item, IsSource, IsSource-KeepsOutside}
use model_test.Rpc.Scale.{record_size, name_record, build_record, build_records}

-- The records at `cur`; their data, where they have it, are those at `from` in `src`.
abbrev pub IsRecords :
    (with_data : Bool) → (from : Item → ℕ) → (src m : Memory) → (size cur : ℕ) → List Item → Type 0
IsRecords with_data from src m size cur [] = Unit
IsRecords with_data from src m size cur (it ∷ rest) =
    (load64 m cur ≡ it.globle)
    × (load64 m (cur + 8) ≡ it.local)
    × (load64 m (cur + 16) ≡ size)
    × (with_data ≡ true → Same size m (cur + 24) src (from it))
    × IsRecords with_data from src m size (cur + record_size with_data size) rest

pub record_size-data :
    (with_data : Bool) (size : ℕ) → with_data ≡ true → record_size with_data size ≡ 24 + size
unfolding record_size
record_size-data with_data size e = rw e refl

pub record_size-ge : (with_data : Bool) (size : ℕ) → 24 ≤ record_size with_data size
unfolding record_size
record_size-ge with_data size = omega arith

-- The bytes of `left` records.
abbrev pub total : (with_data : Bool) → (size left : ℕ) → ℕ
total with_data size zero = 0
total with_data size (suc left) = record_size with_data size + total with_data size left

pub total-mul :
    (with_data : Bool) (size left : ℕ)
    → total with_data size left ≡ left * record_size with_data size
total-mul with_data size zero = omega arith
total-mul with_data size (suc left) = omega (arith, total-mul with_data size left)

-- Records that are copied are still records.
pub IsRecords-Same :
    (with_data : Bool) (from : Item → ℕ) (src m m' : Memory) (size cur cur' : ℕ) (items : List Item)
    → Same (total with_data size (length items)) m' cur' m cur
    → IsRecords with_data from src m size cur items
    → IsRecords with_data from src m' size cur' items
IsRecords-Same with_data from src m m' size cur cur' [] same h = h
IsRecords-Same with_data from src m m' size cur cur' (it ∷ rest) same (eg, el, es, payload, more) =
    let ge = record_size-ge with_data size in
    (
      load-Same 8 (Same-le same 8 (omega (arith, ge))) ∙ eg,
      load-Same 8 (Same-part same 8 8 (omega (arith, ge))) ∙ el,
      load-Same 8 (Same-part same 16 8 (omega (arith, ge))) ∙ es,
      λ e.
          Same-trans (Same-part same 24 size (omega (arith, record_size-data with_data size e)))
            (payload e),
      IsRecords-Same with_data from src m m' size (cur + record_size with_data size)
          (cur' + record_size with_data size) rest
          (Same-part same (record_size with_data size) (total with_data size (length rest))
            (omega arith))
          more,
    )

module _ (size g l cur : ℕ) (m : Memory) where
  abbrev first : Memory
  first = memcpy m cur m g 8

  abbrev second : Memory
  second = memcpy first (cur + 8) first l 8

  first-KeepsOutside : KeepsOutside cur 8 m first
  first-KeepsOutside = memcpy-KeepsOutside m cur m g 8

  second-KeepsOutside : KeepsOutside (cur + 8) 8 first second
  second-KeepsOutside = memcpy-KeepsOutside first (cur + 8) first l 8

  named-KeepsOutside : KeepsOutside (cur + 16) 8 second (name_record size g l cur m)
  unfolding name_record
  named-KeepsOutside = store-KeepsOutside 8 second (cur + 16) size

  name_record-KeepsOutside : KeepsOutside cur 24 m (name_record size g l cur m)
  name_record-KeepsOutside =
      KeepsOutside-trans (KeepsOutside-le cur 24 first-KeepsOutside (omega arith) (omega arith)) (
        KeepsOutside-trans (KeepsOutside-le cur 24 second-KeepsOutside (omega arith) (omega arith))
          (KeepsOutside-le cur 24 named-KeepsOutside (omega arith) (omega arith)))

  data-KeepsOutside :
      (with_data : Bool)
      → KeepsOutside
          (cur + 24)
          (if with_data then size else 0)
          (name_record size g l cur m)
          (build_record with_data size g l cur m)
  unfolding build_record
  data-KeepsOutside true = memcpy-KeepsOutside _ (cur + 24) _ _ size
  data-KeepsOutside false = KeepsOutside-refl _ _ _

  pub build_record-KeepsOutside :
      (with_data : Bool)
      → KeepsOutside cur (record_size with_data size) m (build_record with_data size g l cur m)
  unfolding record_size
  build_record-KeepsOutside with_data =
      KeepsOutside-trans
        (KeepsOutside-le cur (24 + (if with_data then size else 0)) name_record-KeepsOutside
          (omega arith) (omega arith))
        (KeepsOutside-le cur (24 + (if with_data then size else 0)) (data-KeepsOutside with_data)
          (omega arith) (omega arith))

  -- The record's two addresses and size.
  name_record-holds :
      (it : Item)
      → load64 m g ≡ it.globle
      → load64 m l ≡ it.local
      → size < 256 ^ 8
      → Apart l 8 cur 24
      → (load64 (name_record size g l cur m) cur ≡ it.globle)
        × (load64 (name_record size g l cur m) (cur + 8) ≡ it.local)
        × (load64 (name_record size g l cur m) (cur + 16) ≡ size)
  unfolding name_record
  name_record-holds it eg el bound al = (
    KeepsOutside-load named-KeepsOutside 8 cur (omega arith)
        ∙ KeepsOutside-load second-KeepsOutside 8 cur (omega arith)
        ∙ load-Same 8 (Same-memcpy_in m cur m g 8)
        ∙ eg,
    KeepsOutside-load named-KeepsOutside 8 (cur + 8) (omega arith)
        ∙ load-Same 8 (Same-memcpy_in first (cur + 8) first l 8)
        ∙ KeepsOutside-load first-KeepsOutside 8 l (omega (arith, al))
        ∙ el,
    load-store 8 second (cur + 16) size bound,
  )

  pub build_record-data :
      (with_data : Bool) (src : Memory) (it : Item)
      → load64 m l ≡ it.local
      → Same size m it.local src it.local
      → Apart l 8 cur 24
      → Apart it.local size cur 24
      → with_data ≡ true
      → Same size (build_record with_data size g l cur m) (cur + 24) src it.local
  unfolding build_record
  build_record-data true src it el same al ai e =
      let named : Memory = name_record size g l cur m in
      rw (KeepsOutside-load name_record-KeepsOutside 8 l al, el)
        (Same-trans (Same-memcpy_in named (cur + 24) named it.local size)
          (Same-KeepsOutside name_record-KeepsOutside same ai))
  build_record-data false src it el same al ai e = absurd (grind (arith, e))

pub build_records-KeepsOutside :
    (left : ℕ) (with_data : Bool) (size g l cur : ℕ) (m : Memory)
    → KeepsOutside cur (total with_data size left) m (build_records left with_data size g l cur m)
unfolding build_records
build_records-KeepsOutside zero with_data size g l cur m = KeepsOutside-refl cur 0 m
build_records-KeepsOutside (suc left) with_data size g l cur m =
    let step : ℕ = record_size with_data size in
    KeepsOutside-trans
      (KeepsOutside-le cur (total with_data size (suc left))
        (build_record-KeepsOutside size g l cur m with_data) (omega arith) (omega arith))
      (KeepsOutside-le cur (total with_data size (suc left))
        (build_records-KeepsOutside left with_data size (g + 8) (l + 8) (cur + step)
          (build_record with_data size g l cur m))
        (omega arith) (omega arith))

-- The client's loop builds the records of its items, inside the `n` bytes at `a`.
pub build_records-IsRecords :
    (items : List Item) (with_data : Bool) (src m : Memory) (size g l cur a n : ℕ)
    → IsSource src m size g l a n items
    → size < 256 ^ 8
    → a ≤ cur
    → cur + total with_data size (length items) ≤ a + n
    → IsRecords with_data
        (λ it. it.local)
        src
        (build_records (length items) with_data size g l cur m)
        size
        cur
        items
unfolding build_records
build_records-IsRecords [] with_data src m size g l cur a n source bound lower upper = tt
build_records-IsRecords (it ∷ rest) with_data src m size g l cur a n
      (eg, el, same, ag, al, ai, more) bound lower upper =
    let step : ℕ = record_size with_data size in
    let ge = record_size-ge with_data size in
    let m1 : Memory = build_record with_data size g l cur m in
    let (h_globle, h_local, h_size) =
      name_record-holds size g l cur m it eg el bound (omega (arith, al, ge)) in
    let own = data-KeepsOutside size g l cur m with_data in
    let later =
      build_records-KeepsOutside (length rest) with_data size (g + 8) (l + 8) (cur + step) m1 in
    (
      KeepsOutside-load later 8 cur (omega (arith, ge))
          ∙ KeepsOutside-load own 8 cur (omega arith)
          ∙ h_globle,
      KeepsOutside-load later 8 (cur + 8) (omega (arith, ge))
          ∙ KeepsOutside-load own 8 (cur + 8) (omega arith)
          ∙ h_local,
      KeepsOutside-load later 8 (cur + 16) (omega (arith, ge))
          ∙ KeepsOutside-load own 8 (cur + 16) (omega arith)
          ∙ h_size,
      λ e.
          Same-KeepsOutside later
            (build_record-data size g l cur m with_data src it el same (omega (arith, al, ge))
              (omega (arith, ai, ge)) e)
            (omega (arith, record_size-data with_data size e)),
      build_records-IsRecords rest with_data src m1 size (g + 8) (l + 8) (cur + step) a n
          (IsSource-KeepsOutside src m m1 size (g + 8) (l + 8) a n rest
            (KeepsOutside-le a n (build_record-KeepsOutside size g l cur m with_data) lower
              (omega (arith, upper)))
            more)
          bound (omega (arith, lower)) (omega (arith, upper)),
    )
