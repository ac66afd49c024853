-- ===== src/Rpc/Batch/Take.antt =====
-- The client's loop over the data of a reply: the pieces, each to its buffer, in their order.
use model_test.Prelude.{
  suc, ℕ, ◌+◌, ◌-◌, ◌*◌, ◌≤◌, ◌≡◌, refl, ap, ◌∙◌, List, [], ◌∷◌, length, arith,
}
use model_test.Memory.{Memory, memcpy, load64, Apart, Same}
use model_test.Memory.Region.{
  KeepsOutside, memcpy-KeepsOutside, KeepsOutside-load, Same-KeepsOutside,
}
use model_test.Rpc.Batch.{response_size, scatter}
use mathlib.Core.Path.{subst}
use model_test.Rpc.Batch.Layout.{Item}
use model_test.Rpc.Batch.Serve.{memcpy-Same, memcpy_at}

-- The client's array at `l` holds the addresses of the items' buffers.
abbrev pub IsArray : (m : Memory) (l : ℕ) → List Item → Type 0
IsArray m l [] = Unit
IsArray m l (it ∷ rest) = (load64 m l ≡ it.local) × IsArray m (l + 8) rest

-- No buffer of the client touches the `n` bytes at `a`.
abbrev pub LocalsApart : (size a n : ℕ) → List Item → Type 0
LocalsApart size a n [] = Unit
LocalsApart size a n (it ∷ rest) = Apart it.local size a n × LocalsApart size a n rest

-- The pieces that stand one behind the other at `temp` of `src`, each to its buffer, in their order.
abbrev pub take_all : (src : Memory) (size temp : ℕ) → List Item → Memory → Memory
take_all src size temp [] m = m
take_all src size temp (it ∷ rest) m =
    take_all src size (temp + size) rest (memcpy m it.local src temp size)

pub IsArray-KeepsOutside :
    (m m' : Memory) (a n l : ℕ) (items : List Item)
    → KeepsOutside a n m m'
    → Apart l (8 * length items) a n
    → IsArray m l items
    → IsArray m' l items
IsArray-KeepsOutside m m' a n l [] keeps apart h = h
IsArray-KeepsOutside m m' a n l (it ∷ rest) keeps apart h = (
  KeepsOutside-load keeps 8 l (omega (arith, apart)) ∙ h.0,
  IsArray-KeepsOutside m m' a n (l + 8) rest keeps (omega (arith, apart)) h.1,
)

-- One round of the loop.
scatter-suc :
    (left i response temp size l d : ℕ) (m : Memory)
    → load64 m response ≡ size
    → load64 m (response + 8) ≡ l
    → load64 m (l + 8 * i) ≡ d
    → scatter (suc left) i response temp m
      ≡ scatter left (i + 1) response (temp + size) (memcpy m d m temp size)
unfolding scatter
scatter-suc left i response temp size l d m es el ed =
    ap
      (λ (p : ℕ × ℕ).
        scatter left (i + 1) response (temp + p.0) (memcpy m (load64 m (p.1 + 8 * i)) m temp p.0))
      (λ j. (es j, el j))
    ∙ ap (λ t. scatter left (i + 1) response (temp + size) (memcpy m t m temp size)) ed

-- `src` is the memory that the pieces are taken from, `n` bytes at `a`; the array is at `l`; and no
-- buffer touches the pieces, the array or the reply.
pub scatter-take_all :
    (items : List Item) (src m : Memory) (size l response i temp a n k : ℕ)
    → load64 m response ≡ size
    → load64 m (response + 8) ≡ l
    → IsArray m (l + 8 * i) items
    → LocalsApart size a n items
    → LocalsApart size l k items
    → LocalsApart size response response_size items
    → Same n m a src a
    → a ≤ temp
    → temp + length items * size ≤ a + n
    → 8 * i + 8 * length items ≤ k
    → scatter (length items) i response temp m ≡ take_all src size temp items m
unfolding scatter
scatter-take_all [] src m size l response i temp a n k es el array pieces arrays reply same lower
      upper up =
    refl
scatter-take_all (it ∷ rest) src m size l response i temp a n k es el (e, array) pieces arrays reply
      same lower upper up =
    let m1 : Memory = memcpy m it.local src temp size in
    let here : KeepsOutside it.local size m m1 = memcpy-KeepsOutside m it.local src temp size in
    let piece : Same size m temp src temp = record {
      at = λ i p.
          ap m {x = temp + i} {y = a + (temp - a + i)} (omega (arith, lower))
          ∙ same.at (temp - a + i) (omega (arith, lower, upper))
          ∙ ap src (omega (arith, lower));
    } in
    let left : IsArray m1 (l + 8 * (i + 1)) rest =
      subst (λ k. IsArray m1 k rest) (omega arith)
        (IsArray-KeepsOutside m m1 it.local size (l + 8 * i + 8) rest here
          (omega (arith, arrays.0, up)) array) in
    scatter-suc (length rest) i response temp size l it.local m es el e
    ∙ ap (scatter (length rest) (i + 1) response (temp + size))
        (memcpy-Same m it.local size m src temp temp piece)
    ∙ scatter-take_all rest src m1 size l response (i + 1) (temp + size) a n k
        (KeepsOutside-load here 8 response (omega (arith, reply.0)) ∙ es)
        (KeepsOutside-load here 8 (response + 8) (omega (arith, reply.0)) ∙ el) left pieces.1
        arrays.1 reply.1 (Same-KeepsOutside here same (omega (arith, pieces.0)))
        (omega (arith, lower)) (omega (arith, upper)) (omega (arith, up))

pub take_all_at :
    (src : Memory) (size temp : ℕ) (items : List Item) (m m' : Memory) (x : ℕ)
    → m x ≡ m' x
    → take_all src size temp items m x ≡ take_all src size temp items m' x
take_all_at src size temp [] m m' x e = e
take_all_at src size temp (it ∷ rest) m m' x e =
    take_all_at src size (temp + size) rest (memcpy m it.local src temp size)
      (memcpy m' it.local src temp size) x (memcpy_at m m' it.local src temp size x e)
