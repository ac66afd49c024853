-- ===== src/Rpc/Batch/Request.antt =====
-- The request of a batched call, as it is built and as it arrives.
use model_test.Prelude.{
  ℕ, ◌+◌, ◌*◌, ◌^◌, ◌<◌, ◌≡◌, refl, sym, ap, ◌∙◌, List, [], ◌∷◌, length, ◌==◌, if◌then◌else◌, false,
  arith,
}
use mathlib.Core.Path.{subst}
use model_test.Memory.{Memory, load64, store64, Same}
use model_test.Memory.Laws.{
  Same-part, Same-le, load-Same, load-store, load-store-Apart, load-store_byte-Apart,
  store_byte_self, store_byte_ne,
}
use model_test.Memory.Region.{
  KeepsOutside, KeepsOutside-trans, KeepsOutside-le, store-KeepsOutside, store_byte-KeepsOutside,
  KeepsOutside-load,
}
use model_test.Rpc.Batch.{
  BatchWork, entries_at, response_size, entry_size, build_entries, build_head, build_batch,
  batch_size, reply_length,
}
use model_test.Rpc.Batch.Layout.{
  Item, IsSource, IsEntries, AllIn64, entries_size, entries_size-mul, IsSource-KeepsOutside,
  build_entries-KeepsOutside, build_entries-IsEntries, IsEntries-Same,
}

-- The request at `a`, with the data of a write as they were in `src`.
pub record IsRequest (src m : Memory) (w : BatchWork) (a : ℕ) (items : List Item) : Type 0 where
  pub req_size : load64 m a ≡ w.length
  pub local_addr : load64 m (a + 8) ≡ w.local_addr
  pub task : load64 m (a + 16) ≡ w.work
  pub batch : m (a + 24) ≡ w.batch
  pub flag_write : m (a + 25) ≡ w.flag_write
  pub entries : IsEntries src m w.flag_write w.length (a + entries_at) items

-- What the client has when it builds a request at `a` for `items`.
pub record IsWork (src : Memory) (w : BatchWork) (a : ℕ) (items : List Item) : Type 0 where
  pub batch : w.batch ≡ length items
  pub length_64 : w.length < 256 ^ 8
  pub array_64 : w.local_addr < 256 ^ 8
  pub work_64 : w.work < 256 ^ 8
  pub items_64 : AllIn64 items
  pub source : IsSource src src w.length w.globle_addr w.local_addr a (batch_size w) items

pub batch_size-entries :
    (src : Memory) (w : BatchWork) (a : ℕ) (items : List Item)
    → IsWork src w a items
    → batch_size w ≡ entries_at + entries_size w.flag_write w.length (length items)
batch_size-entries src w a items work =
    ap (λ n. entries_at + n)
      (ap (λ n. n * entry_size w.flag_write w.length) work.batch
        ∙ sym (entries_size-mul w.flag_write w.length (length items)))

module _ (w : BatchWork) (a : ℕ) (m : Memory) where
  abbrev headed : Memory
  headed = store64 (store64 (store64 m a w.length) (a + 8) w.local_addr) (a + 16) w.work

  build_head-KeepsOutside : KeepsOutside a entries_at m (build_head w a m)
  unfolding build_head
  build_head-KeepsOutside =
      KeepsOutside-trans
        (KeepsOutside-le a entries_at (store-KeepsOutside 8 _ a w.length) (omega arith)
          (omega arith))
        (KeepsOutside-trans
          (KeepsOutside-le a entries_at (store-KeepsOutside 8 _ (a + 8) w.local_addr) (omega arith)
            (omega arith))
          (KeepsOutside-trans
            (KeepsOutside-le a entries_at (store-KeepsOutside 8 _ (a + 16) w.work) (omega arith)
              (omega arith))
            (KeepsOutside-trans
              (KeepsOutside-le a entries_at (store_byte-KeepsOutside _ (a + 24) w.batch)
                (omega arith) (omega arith))
              (KeepsOutside-le a entries_at (store_byte-KeepsOutside _ (a + 25) w.flag_write)
                (omega arith) (omega arith)))))

  build_head-req_size : w.length < 256 ^ 8 → load64 (build_head w a m) a ≡ w.length
  unfolding build_head
  build_head-req_size h =
      load-store_byte-Apart 8 _ a (a + 25) w.flag_write (omega arith)
      ∙ load-store_byte-Apart 8 _ a (a + 24) w.batch (omega arith)
      ∙ load-store-Apart 8 _ a 8 (a + 16) w.work (omega arith)
      ∙ load-store-Apart 8 _ a 8 (a + 8) w.local_addr (omega arith)
      ∙ load-store 8 m a w.length h

  build_head-local_addr : w.local_addr < 256 ^ 8 → load64 (build_head w a m) (a + 8) ≡ w.local_addr
  unfolding build_head
  build_head-local_addr h =
      load-store_byte-Apart 8 _ (a + 8) (a + 25) w.flag_write (omega arith)
      ∙ load-store_byte-Apart 8 _ (a + 8) (a + 24) w.batch (omega arith)
      ∙ load-store-Apart 8 _ (a + 8) 8 (a + 16) w.work (omega arith)
      ∙ load-store 8 _ (a + 8) w.local_addr h

  build_head-work : w.work < 256 ^ 8 → load64 (build_head w a m) (a + 16) ≡ w.work
  unfolding build_head
  build_head-work h =
      load-store_byte-Apart 8 _ (a + 16) (a + 25) w.flag_write (omega arith)
      ∙ load-store_byte-Apart 8 _ (a + 16) (a + 24) w.batch (omega arith)
      ∙ load-store 8 _ (a + 16) w.work h

  build_head-batch : build_head w a m (a + 24) ≡ w.batch
  unfolding build_head
  build_head-batch =
      store_byte_ne _ (a + 25) w.flag_write (a + 24) (omega arith)
      ∙ store_byte_self _ (a + 24) w.batch

  build_head-flag_write : build_head w a m (a + 25) ≡ w.flag_write
  unfolding build_head
  build_head-flag_write = store_byte_self _ (a + 25) w.flag_write

module _ (src : Memory) (w : BatchWork) (a : ℕ) (items : List Item)
    (work : IsWork src w a items) where
  built_entries : Memory
  built_entries =
      build_entries (length items) w w.globle_addr w.local_addr (a + entries_at)
        (build_head w a src)

  entries-KeepsOutside :
      KeepsOutside
        (a + entries_at)
        (entries_size w.flag_write w.length (length items))
        (build_head w a src)
        built_entries
  unfolding built_entries
  entries-KeepsOutside =
      build_entries-KeepsOutside (length items) w w.globle_addr w.local_addr (a + entries_at)
        (build_head w a src)

  built_entries-IsRequest : IsRequest src built_entries w a items
  unfolding built_entries
  built_entries-IsRequest = record {
    req_size =
        KeepsOutside-load entries-KeepsOutside 8 a (omega arith)
        ∙ build_head-req_size w a src work.length_64;
    local_addr =
        KeepsOutside-load entries-KeepsOutside 8 (a + 8) (omega arith)
        ∙ build_head-local_addr w a src work.array_64;
    task =
        KeepsOutside-load entries-KeepsOutside 8 (a + 16) (omega arith)
        ∙ build_head-work w a src work.work_64;
    batch = entries-KeepsOutside.at (a + 24) (omega arith) ∙ build_head-batch w a src;
    flag_write = entries-KeepsOutside.at (a + 25) (omega arith) ∙ build_head-flag_write w a src;
    entries =
        build_entries-IsEntries items w src (build_head w a src) w.globle_addr w.local_addr
          (a + entries_at) a (batch_size w)
          (IsSource-KeepsOutside src src (build_head w a src) w.length w.globle_addr w.local_addr a
            (batch_size w) items
            (KeepsOutside-le a (batch_size w) (build_head-KeepsOutside w a src) (omega arith)
              (omega arith))
            work.source)
          work.items_64 work.length_64 (omega arith)
          (omega (arith, batch_size-entries src w a items work));
  }

  pub build_batch-IsRequest : IsRequest src (build_batch w a src) w a items
  unfolding build_batch built_entries
  build_batch-IsRequest =
      subst
        (λ n.
          IsRequest src
            (build_entries n w w.globle_addr w.local_addr (a + entries_at) (build_head w a src)) w a
            items)
        (sym work.batch) built_entries-IsRequest

  pub build_batch-KeepsOutside : KeepsOutside a (batch_size w) src (build_batch w a src)
  unfolding build_batch
  build_batch-KeepsOutside =
      KeepsOutside-trans
        (KeepsOutside-le a (batch_size w) (build_head-KeepsOutside w a src) (omega arith)
          (omega arith))
        (KeepsOutside-le a (batch_size w)
          (build_entries-KeepsOutside w.batch w w.globle_addr w.local_addr (a + entries_at)
            (build_head w a src))
          (omega arith) (omega (arith, entries_size-mul w.flag_write w.length w.batch)))

  pub IsRequest-Same :
      {m m' : Memory} {b : ℕ}
      → Same (batch_size w) m' b m a
      → IsRequest src m w a items
      → IsRequest src m' w b items
  IsRequest-Same {m} {m'} {b} same r = record {
    req_size = load-Same 8 (Same-le same 8 (omega arith)) ∙ r.req_size;
    local_addr = load-Same 8 (Same-part same 8 8 (omega arith)) ∙ r.local_addr;
    task = load-Same 8 (Same-part same 16 8 (omega arith)) ∙ r.task;
    batch = same.at 24 (omega arith) ∙ r.batch;
    flag_write = same.at 25 (omega arith) ∙ r.flag_write;
    entries =
        IsEntries-Same src m m' w.flag_write w.length (a + entries_at) (b + entries_at) items
          (Same-part same entries_at (entries_size w.flag_write w.length (length items))
            (omega (arith, batch_size-entries src w a items work)))
          r.entries;
  }

-- the length of the reply
abbrev pub reply_bytes : BatchWork → ℕ
reply_bytes w = response_size + (if w.flag_write == 0 then w.batch * w.length else 0)

-- The server takes the length from the first entry, if there is one.
pub reply_length-bytes :
    (src m : Memory) (w : BatchWork) (a : ℕ) (items : List Item)
    → w.batch ≡ length items
    → IsRequest src m w a items
    → reply_length false m a ≡ reply_bytes w
unfolding reply_length
reply_length-bytes src m w a [] n r = ground (arith, n, r.batch)
reply_length-bytes src m w a (it ∷ rest) n r =
    rw
      (
        r.flag_write,
        r.batch,
        ap (load64 m) {x = a + 34} {y = a + entries_at + 8} (omega arith) ∙ r.entries.1,
      )
      refl
