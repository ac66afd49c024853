-- ===== src/Rpc/Batch/Layout.antt =====
-- The entries that the client's loop builds: what stands in them.
use model_test.Prelude.{
  ℕ, zero, suc, ◌+◌, ◌*◌, ◌^◌, ◌≤◌, ◌<◌, ◌≡◌, refl, ◌∙◌, List, [], ◌∷◌, length, ◌==◌, if◌then◌else◌,
  Bool-cases, inl, inr, ==_iff, arith,
}
use model_test.Memory.{Memory, load64, store64, Apart, Same}
use model_test.Memory.Laws.{
  Same-le, Same-part, Same-trans, Same-memcpy_in, load-Same, load-store, load-store-Apart,
}
use model_test.Memory.Region.{
  KeepsOutside, KeepsOutside-refl, KeepsOutside-trans, KeepsOutside-le, store-KeepsOutside,
  memcpy-KeepsOutside, KeepsOutside-load, Same-KeepsOutside,
}
use model_test.Rpc.Batch.{BatchWork, entry_size, build_entry, build_entries}

-- One element of a batch: where it is on the server, and the client's buffer for it.
pub record Item : Type 0 where
  pub globle : ℕ
  pub local : ℕ

-- The arrays at `g` and `l` hold the items' addresses, the items' buffers hold what they held in
-- `src`, and none of these touches the `n` bytes at `a`.
abbrev pub IsSource : (src m : Memory) (size g l a n : ℕ) → List Item → Type 0
IsSource src m size g l a n [] = Unit
IsSource src m size g l a n (it ∷ rest) =
    (load64 m g ≡ it.globle)
    × (load64 m l ≡ it.local)
    × Same size m it.local src it.local
    × Apart g 8 a n
    × Apart l 8 a n
    × Apart it.local size a n
    × IsSource src m size (g + 8) (l + 8) a n rest

-- The entries at `cur`, with a write's data as they were in `src`.
abbrev pub IsEntries : (src m : Memory) (flag size cur : ℕ) → List Item → Type 0
IsEntries src m flag size cur [] = Unit
IsEntries src m flag size cur (it ∷ rest) =
    (load64 m cur ≡ it.globle)
    × (load64 m (cur + 8) ≡ size)
    × (flag ≡ 1 → Same size m (cur + 16) src it.local)
    × IsEntries src m flag size (cur + entry_size flag size) rest

pub IsSource-KeepsOutside :
    (src m m' : Memory) (size g l a n : ℕ) (items : List Item)
    → KeepsOutside a n m m'
    → IsSource src m size g l a n items
    → IsSource src m' size g l a n items
IsSource-KeepsOutside src m m' size g l a n [] keeps h = h
IsSource-KeepsOutside src m m' size g l a n (it ∷ rest) keeps (eg, el, same, ag, al, ai, more) = (
  KeepsOutside-load keeps 8 g ag ∙ eg,
  KeepsOutside-load keeps 8 l al ∙ el,
  Same-KeepsOutside keeps same ai,
  ag,
  al,
  ai,
  IsSource-KeepsOutside src m m' size (g + 8) (l + 8) a n rest keeps more,
)

abbrev pub AllIn64 : List Item → Type 0
AllIn64 [] = Unit
AllIn64 (it ∷ rest) = (it.globle < 256 ^ 8) × AllIn64 rest

module _ (w : BatchWork) (g l cur : ℕ) (m : Memory) where
  -- the entry before its data
  abbrev sized : Memory
  sized = store64 (store64 m cur (load64 m g)) (cur + 8) w.length

  sized-KeepsOutside : KeepsOutside cur 16 m sized
  sized-KeepsOutside =
      KeepsOutside-trans
        (KeepsOutside-le cur 16 (store-KeepsOutside 8 m cur (load64 m g)) (omega arith)
          (omega arith))
        (KeepsOutside-le cur 16
          (store-KeepsOutside 8 (store64 m cur (load64 m g)) (cur + 8) w.length) (omega arith)
          (omega arith))

  data-KeepsOutside :
      KeepsOutside
        (cur + 16)
        (if w.flag_write == 1 then w.length else 0)
        sized
        (build_entry w g l cur m)
  unfolding build_entry
  data-KeepsOutside = elim (Bool-cases (w.flag_write == 1)) [
    | inl e ↦ rw e (memcpy-KeepsOutside sized (cur + 16) sized (load64 sized l) w.length)
    | inr e ↦ rw e (KeepsOutside-refl (cur + 16) 0 sized)
  ]

  pub build_entry-KeepsOutside :
      KeepsOutside cur (entry_size w.flag_write w.length) m (build_entry w g l cur m)
  unfolding entry_size
  build_entry-KeepsOutside =
      KeepsOutside-trans
        (KeepsOutside-le cur (16 + (if w.flag_write == 1 then w.length else 0)) sized-KeepsOutside
          (omega arith) (omega arith))
        (KeepsOutside-le cur (16 + (if w.flag_write == 1 then w.length else 0)) data-KeepsOutside
          (omega arith) (omega arith))

  -- The entry built, its data as in `src`.
  pub build_entry-holds :
      (src : Memory) (it : Item)
      → load64 m g ≡ it.globle
      → load64 m l ≡ it.local
      → it.globle < 256 ^ 8
      → w.length < 256 ^ 8
      → Same w.length m it.local src it.local
      → Apart l 8 cur 16
      → Apart it.local w.length cur 16
      → (load64 (build_entry w g l cur m) cur ≡ it.globle)
        × (load64 (build_entry w g l cur m) (cur + 8) ≡ w.length)
        × (w.flag_write ≡ 1 → Same w.length (build_entry w g l cur m) (cur + 16) src it.local)
  unfolding build_entry
  build_entry-holds src it eg el bound size same al ai = (
    KeepsOutside-load data-KeepsOutside 8 cur (omega arith)
        ∙ load-store-Apart 8 (store64 m cur (load64 m g)) cur 8 (cur + 8) w.length (omega arith)
        ∙ load-store 8 m cur (load64 m g) (omega (arith, eg))
        ∙ eg,
    KeepsOutside-load data-KeepsOutside 8 (cur + 8) (omega arith)
        ∙ load-store 8 (store64 m cur (load64 m g)) (cur + 8) w.length size,
    λ flag.
        rw ((==_iff w.flag_write 1).1 flag, KeepsOutside-load sized-KeepsOutside 8 l al, el)
          (Same-trans (Same-memcpy_in sized (cur + 16) sized it.local w.length)
            (Same-KeepsOutside sized-KeepsOutside same ai)),
  )

pub entry_size-write : (flag size : ℕ) → flag ≡ 1 → entry_size flag size ≡ 16 + size
unfolding entry_size
entry_size-write flag size e = rw ((==_iff flag 1).1 e) refl

pub entry_size-ge : (flag size : ℕ) → 16 ≤ entry_size flag size
unfolding entry_size
entry_size-ge flag size = omega arith

-- The bytes of `left` entries.
abbrev pub entries_size : (flag size left : ℕ) → ℕ
entries_size flag size zero = 0
entries_size flag size (suc left) = entry_size flag size + entries_size flag size left

pub entries_size-mul :
    (flag size left : ℕ) → entries_size flag size left ≡ left * entry_size flag size
entries_size-mul flag size zero = omega arith
entries_size-mul flag size (suc left) = omega (arith, entries_size-mul flag size left)

pub build_entries-KeepsOutside :
    (left : ℕ) (w : BatchWork) (g l cur : ℕ) (m : Memory)
    → KeepsOutside cur (entries_size w.flag_write w.length left) m (build_entries left w g l cur m)
unfolding build_entries
build_entries-KeepsOutside zero w g l cur m = KeepsOutside-refl cur 0 m
build_entries-KeepsOutside (suc left) w g l cur m =
    KeepsOutside-trans
      (KeepsOutside-le cur (entries_size w.flag_write w.length (suc left))
        (build_entry-KeepsOutside w g l cur m) (omega arith) (omega arith))
      (KeepsOutside-le cur (entries_size w.flag_write w.length (suc left))
        (build_entries-KeepsOutside left w (g + 8) (l + 8) (cur + entry_size w.flag_write w.length)
          (build_entry w g l cur m))
        (omega arith) (omega arith))

-- Entries stay through a write that does not touch them.
pub IsEntries-KeepsOutside :
    (src m m' : Memory) (a n flag size cur : ℕ) (items : List Item)
    → KeepsOutside a n m m'
    → Apart cur (entries_size flag size (length items)) a n
    → IsEntries src m flag size cur items
    → IsEntries src m' flag size cur items
unfolding entry_size
IsEntries-KeepsOutside src m m' a n flag size cur [] keeps apart h = h
IsEntries-KeepsOutside src m m' a n flag size cur (it ∷ rest) keeps apart (eg, es, payload, more) =
    (
      KeepsOutside-load keeps 8 cur (omega (arith, apart)) ∙ eg,
      KeepsOutside-load keeps 8 (cur + 8) (omega (arith, apart)) ∙ es,
      λ flag_1.
          Same-KeepsOutside keeps (payload flag_1)
            (omega (arith, apart, entry_size-write flag size flag_1)),
      IsEntries-KeepsOutside src m m' a n flag size (cur + entry_size flag size) rest keeps
          (omega (arith, apart)) more,
    )

pub build_entries-IsEntries :
    (items : List Item) (w : BatchWork) (src m : Memory) (g l cur a n : ℕ)
    → IsSource src m w.length g l a n items
    → AllIn64 items
    → w.length < 256 ^ 8
    → a ≤ cur
    → cur + entries_size w.flag_write w.length (length items) ≤ a + n
    → IsEntries src (build_entries (length items) w g l cur m) w.flag_write w.length cur items
unfolding build_entries
build_entries-IsEntries [] w src m g l cur a n source bounds size lower upper = tt
build_entries-IsEntries (it ∷ rest) w src m g l cur a n (eg, el, same, ag, al, ai, more) bounds size
      lower upper =
    let step : ℕ = entry_size w.flag_write w.length in
    let m1 : Memory = build_entry w g l cur m in
    let (h_addr, h_size, h_data) =
      build_entry-holds w g l cur m src it eg el bounds.0 size same
        (omega (arith, al, entry_size-ge w.flag_write w.length))
        (omega (arith, ai, entry_size-ge w.flag_write w.length)) in
    let later = build_entries-KeepsOutside (length rest) w (g + 8) (l + 8) (cur + step) m1 in
    (
      KeepsOutside-load later 8 cur (omega (arith, entry_size-ge w.flag_write w.length)) ∙ h_addr,
      KeepsOutside-load later 8 (cur + 8) (omega (arith, entry_size-ge w.flag_write w.length))
          ∙ h_size,
      λ flag.
          Same-KeepsOutside later (h_data flag)
            (omega (arith, entry_size-write w.flag_write w.length flag)),
      build_entries-IsEntries rest w src m1 (g + 8) (l + 8) (cur + step) a n
          (IsSource-KeepsOutside src m m1 w.length (g + 8) (l + 8) a n rest
            (KeepsOutside-le a n (build_entry-KeepsOutside w g l cur m) lower
              (omega (arith, upper)))
            more)
          bounds.1 size (omega (arith, lower)) (omega (arith, upper)),
    )

-- Entries that are copied are still entries.
pub IsEntries-Same :
    (src m m' : Memory) (flag size cur cur' : ℕ) (items : List Item)
    → Same (entries_size flag size (length items)) m' cur' m cur
    → IsEntries src m flag size cur items
    → IsEntries src m' flag size cur' items
IsEntries-Same src m m' flag size cur cur' [] same h = h
IsEntries-Same src m m' flag size cur cur' (it ∷ rest) same (eg, es, payload, more) = (
  load-Same 8 (Same-le same 8 (omega (arith, entry_size-ge flag size))) ∙ eg,
  load-Same 8 (Same-part same 8 8 (omega (arith, entry_size-ge flag size))) ∙ es,
  λ flag_1.
      Same-trans (Same-part same 16 size (omega (arith, entry_size-write flag size flag_1)))
        (payload flag_1),
  IsEntries-Same src m m' flag size (cur + entry_size flag size) (cur' + entry_size flag size) rest
      (Same-part same (entry_size flag size) (entries_size flag size (length rest)) (omega arith))
      more,
)
