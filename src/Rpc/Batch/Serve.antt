-- ===== src/Rpc/Batch/Serve.antt =====
-- The server's loop over a batch: a write batch is the writes in their order, a read batch is the
-- reads in their order, put one behind the other.
use model_test.Prelude.{
  ℕ, suc, ◌+◌, ◌-◌, ◌*◌, ◌≤◌, ◌≡◌, ◌≢◌, refl, sym, ap, ◌∙◌, List, [], ◌∷◌, length, ◌==◌,
  if◌then◌else◌, false, Bool-cases, inl, inr, arith,
}
use mathlib.Core.Path.{subst}
use model_test.Memory.{Memory, memcpy, inside, load64, Apart, Same}
use model_test.Memory.Laws.{Same-trans, Same-memcpy_in}
use model_test.Memory.Region.{
  KeepsOutside, KeepsOutside-refl, KeepsOutside-trans, KeepsOutside-le, memcpy-KeepsOutside,
  Same-KeepsOutside, KeepsOutside-Same,
}
use model_test.Rpc.Batch.{entry_size, serve_entries}
use model_test.Rpc.Batch.Layout.{
  Item, IsEntries, entries_size, entry_size-write, IsEntries-KeepsOutside,
}

memcpy-Same_at :
    (m : Memory) (d n : ℕ) (m' src : Memory) (a s : ℕ)
    → Same n m' a src s
    → (x : ℕ) → memcpy m d m' a n x ≡ memcpy m d src s n x
unfolding memcpy
memcpy-Same_at m d n m' src a s same x = elim (Bool-cases (inside x d n)) [
  | inl e ↦ rw e (same.at (x - d) (ground (arith, e)))
  | inr e ↦ rw e refl
]

-- `memcpy` of the same bytes from elsewhere.
pub memcpy-Same :
    (m : Memory) (d n : ℕ) (m' src : Memory) (a s : ℕ)
    → Same n m' a src s
    → memcpy m d m' a n ≡ memcpy m d src s n
memcpy-Same m d n m' src a s same = λ i x. memcpy-Same_at m d n m' src a s same x i

-- `memcpy` to another memory, at a byte where the two agree.
pub memcpy_at :
    (m m' : Memory) (d : ℕ) (src : Memory) (s n x : ℕ)
    → m x ≡ m' x
    → memcpy m d src s n x ≡ memcpy m' d src s n x
unfolding memcpy
memcpy_at m m' d src s n x e = elim (Bool-cases (inside x d n)) [
  | inl p ↦ rw p refl
  | inr p ↦ rw p e
]

flag_not_1 : (flag : ℕ) → flag ≢ 1 → (flag == 1) ≡ false
flag_not_1 flag other = ground arith

entry_size-read : (flag size : ℕ) → flag ≢ 1 → entry_size flag size ≡ 16
unfolding entry_size
entry_size-read flag size other = rw (flag_not_1 flag other) refl

-- The writes of a batch, one after the other, from the client's buffers.
abbrev pub put_all : (src : Memory) (size : ℕ) → List Item → Memory → Memory
put_all src size [] m = m
put_all src size (it ∷ rest) m = put_all src size rest (memcpy m it.globle src it.local size)

-- No target on the server touches the `n` bytes at `a`.
abbrev pub TargetsApart : (size a n : ℕ) → List Item → Type 0
TargetsApart size a n [] = Unit
TargetsApart size a n (it ∷ rest) = Apart it.globle size a n × TargetsApart size a n rest

-- The reads of a batch, put one behind the other from `cur`.
abbrev pub IsGathered : (src m : Memory) (size cur : ℕ) → List Item → Type 0
IsGathered src m size cur [] = Unit
IsGathered src m size cur (it ∷ rest) =
    Same size m cur src it.globle × IsGathered src m size (cur + size) rest

-- One round of the loop.
serve_entries-write :
    (left size globle ctx cur : ℕ) (m : Memory)
    → load64 m ctx ≡ globle
    → load64 m (ctx + 8) ≡ size
    → serve_entries (suc left) 1 ctx cur m
      ≡ serve_entries left 1 (ctx + 16 + size) (cur + 0) (memcpy m globle m (ctx + 16) size)
unfolding serve_entries
serve_entries-write left size globle ctx cur m eg es =
    ap
      (λ (p : ℕ × ℕ).
        serve_entries left 1 (ctx + 16 + p.1) (cur + 0) (memcpy m p.0 m (ctx + 16) p.1))
      (λ i. (eg i, es i))

serve_entries-read :
    (left flag size globle ctx cur : ℕ) (m : Memory)
    → flag ≢ 1
    → load64 m ctx ≡ globle
    → load64 m (ctx + 8) ≡ size
    → serve_entries (suc left) flag ctx cur m
      ≡ serve_entries left flag (ctx + 16 + 0) (cur + size) (memcpy m cur m globle size)
unfolding serve_entries
serve_entries-read left flag size globle ctx cur m other eg es =
    ap
      (λ b.
        serve_entries left flag (ctx + 16 + (if b then load64 m (ctx + 8) else 0))
          (cur + (if b then 0 else load64 m (ctx + 8)))
          (if b
            then memcpy m (load64 m ctx) m (ctx + 16) (load64 m (ctx + 8))
            else memcpy m cur m (load64 m ctx) (load64 m (ctx + 8))))
      (flag_not_1 flag other)
    ∙ ap
        (λ (p : ℕ × ℕ). serve_entries left flag (ctx + 16 + 0) (cur + p.1) (memcpy m cur m p.0 p.1))
        (λ i. (eg i, es i))

-- The entries' region is the `n` bytes at `a`, which no target touches.
pub serve_entries-put_all :
    (items : List Item) (src m : Memory) (size ctx cur a n : ℕ)
    → IsEntries src m 1 size ctx items
    → TargetsApart size a n items
    → a ≤ ctx
    → ctx + entries_size 1 size (length items) ≤ a + n
    → serve_entries (length items) 1 ctx cur m ≡ put_all src size items m
unfolding serve_entries
serve_entries-put_all [] src m size ctx cur a n h apart lower upper = refl
serve_entries-put_all (it ∷ rest) src m size ctx cur a n (eg, es, payload, more) apart lower upper =
    let m1 : Memory = memcpy m it.globle src it.local size in
    let step = entry_size-write 1 size refl in
    let keeps : KeepsOutside it.globle size m m1 =
      memcpy-KeepsOutside m it.globle src it.local size in
    let left : IsEntries src m1 1 size (ctx + 16 + size) rest =
      subst (λ c. IsEntries src m1 1 size c rest) (ap (λ k. ctx + k) step ∙ (omega arith))
        (IsEntries-KeepsOutside src m m1 it.globle size 1 size (ctx + entry_size 1 size) rest keeps
          (omega (arith, apart.0, lower, upper)) more) in
    serve_entries-write (length rest) size it.globle ctx cur m eg es
    ∙ ap (serve_entries (length rest) 1 (ctx + 16 + size) (cur + 0))
        (memcpy-Same m it.globle size m src (ctx + 16) it.local (payload refl))
    ∙ (serve_entries-put_all rest src m1 size (ctx + 16 + size) (cur + 0) a n left apart.1
        (omega (arith, lower)) (omega (arith, upper, step)))

-- A read batch writes its data region only, and there stand the bytes that the server held; `a` and
-- `n` are the reply's buffer, `orig` the memory before anything was written to it.
pub serve_reads :
    (items : List Item) (src orig m : Memory) (flag size ctx cur a n : ℕ)
    → flag ≢ 1
    → IsEntries src m flag size ctx items
    → TargetsApart size a n items
    → Apart ctx (entries_size flag size (length items)) a n
    → a ≤ cur
    → cur + length items * size ≤ a + n
    → KeepsOutside a n orig m
    → KeepsOutside cur (length items * size) m (serve_entries (length items) flag ctx cur m)
      × IsGathered orig (serve_entries (length items) flag ctx cur m) size cur items
unfolding serve_entries
serve_reads [] src orig m flag size ctx cur a n other h targets apart lower upper keeps =
    (KeepsOutside-le _ _ (KeepsOutside-refl cur 0 m) (omega arith) (omega arith), tt)
serve_reads (it ∷ rest) src orig m flag size ctx cur a n other (eg, es, payload, more) targets apart
      lower upper keeps =
    let m1 : Memory = memcpy m cur m it.globle size in
    let step = entry_size-read flag size other in
    let here : KeepsOutside cur size m m1 = memcpy-KeepsOutside m cur m it.globle size in
    let within : KeepsOutside a n m m1 = KeepsOutside-le a n here lower (omega (arith, upper)) in
    let left : IsEntries src m1 flag size (ctx + 16 + 0) rest =
      subst (λ c. IsEntries src m1 flag size c rest) (omega (arith, step))
        (IsEntries-KeepsOutside src m m1 a n flag size (ctx + entry_size flag size) rest within
          (omega (arith, apart)) more) in
    let (k, g) =
      serve_reads rest src orig m1 flag size (ctx + 16 + 0) (cur + size) a n other left targets.1
        (omega (arith, apart, step)) (omega (arith, lower)) (omega (arith, upper))
        (KeepsOutside-trans keeps within) in
    subst
      (λ r.
        KeepsOutside cur (length (it ∷ rest) * size) m r × IsGathered orig r size cur (it ∷ rest))
      (sym (serve_entries-read (length rest) flag size it.globle ctx cur m other eg es))
      (
        KeepsOutside-trans
            (KeepsOutside-le cur (length (it ∷ rest) * size) here (omega arith) (omega arith))
            (KeepsOutside-le cur (length (it ∷ rest) * size) k (omega arith) (omega arith)),
        (
          Same-KeepsOutside k
              (Same-trans (Same-memcpy_in m cur m it.globle size)
                (KeepsOutside-Same keeps size it.globle targets.0))
              (omega arith),
          g,
        ),
      )
