-- ===== src/Rpc/Scale/Request.antt =====
-- The request of a ScaleRPC call, of either type, as it is built.
use model_test.Prelude.{
  ℕ, ◌+◌, ◌*◌, ◌^◌, ◌≤◌, ◌<◌, ◌≡◌, sym, ap, ◌∙◌, List, length, Bool, ◌==◌, arith, ◌⊎◌, inl, inr,
}
use mathlib.Core.Path.{subst}
use model_test.Memory.{Memory, memcpy, load64, store64, Apart, Same}
use model_test.Memory.Laws.{
  Same-part, Same-memcpy_in, load-Same, load-store, store_byte_self, store_byte_ne,
}
use model_test.Memory.Region.{
  KeepsOutside, KeepsOutside-trans, KeepsOutside-le, store-KeepsOutside, store_byte-KeepsOutside,
  memcpy-KeepsOutside, KeepsOutside-load,
}
use model_test.Rpc.Batch.Layout.{Item, IsSource}
use model_test.Rpc.Scale.{
  ScaleClient, ScaleWork, mr_size, mr_addr, record_size, build_records, trailer, records_size,
  offset_of, build_switch, build_plain,
}
use model_test.Rpc.Scale.Records.{
  IsRecords, total, total-mul, build_records-IsRecords, build_records-KeepsOutside,
}
use model_test.Rpc.Scale.Copies.{IsRecords-KeepsOutside}
use model_test.Rpc.Scale.Loop.{Items64}

-- a batch with its data, and the buffers that hold it
abbrev pub batch_bytes : ScaleWork → ℕ
batch_bytes w = w.batch * (24 + w.length)

abbrev pub buffer_bytes : ScaleWork → ℕ
buffer_bytes w = 4 + batch_bytes w

-- `write_flag` is one of its two values.
abbrev pub IsFlag : ℕ → Type 0
IsFlag flag = (flag ≡ 0) ⊎ (flag ≡ 1)

-- What the client has when it calls: the arrays, the buffers and the registration, apart from what
-- the call writes to.
pub record IsWork (m : Memory) (c : ScaleClient) (w : ScaleWork) (items : List Item) : Type 0 where
  pub flag : IsFlag w.flag_write
  pub batch : w.batch ≡ length items
  pub small : w.batch < 128
  pub length_64 : w.length < 256 ^ 8
  pub items_64 : Items64 items
  pub source : IsSource m m w.length w.globle_addr w.local_addr c.creq (buffer_bytes w) items
  pub source_data :
      IsSource m m w.length w.globle_addr w.local_addr w.local_data (records_size w) items
  pub data_creq : Apart w.local_data (records_size w) c.creq (buffer_bytes w)
  pub mr_data : Apart w.mr mr_size w.local_data (records_size w)
  pub mr_creq : Apart w.mr mr_size c.creq (buffer_bytes w)
  pub registered : load64 m (w.mr + mr_addr) ≡ w.local_data
  -- A registration fits into the request buffer.
  pub room : 8 + mr_size ≤ batch_bytes w
  pub bytes_64 : batch_bytes w < 2 ^ 64
  pub creq_64 : c.creq + buffer_bytes w < 2 ^ 64
  pub sreq_64 : c.sreq + buffer_bytes w < 2 ^ 64

pub record IsTrailer (m : Memory) (a write_type : ℕ) (w : ScaleWork) : Type 0 where
  pub type_byte : m a ≡ write_type
  pub flag_write : m (a + 2) ≡ w.flag_write
  pub valid : m (a + 3) ≡ 1

pub IsTrailer-Same :
    {m m' : Memory} {a b t : ℕ} {w : ScaleWork}
    → Same 4 m' b m a
    → IsTrailer m a t w
    → IsTrailer m' b t w
IsTrailer-Same {m} {m'} {a} {b} same h = record {
  type_byte =
      ap m' {x = b} {y = b + 0} (omega arith)
      ∙ same.at 0 (omega arith)
      ∙ ap m (omega arith)
      ∙ h.type_byte;
  flag_write = same.at 2 (omega arith) ∙ h.flag_write;
  valid = same.at 3 (omega arith) ∙ h.valid;
}

module _ (t : ℕ) (w : ScaleWork) (a : ℕ) (m : Memory) where
  trailer-KeepsOutside : KeepsOutside a 4 m (trailer t w a m)
  unfolding trailer
  trailer-KeepsOutside =
      KeepsOutside-trans
        (KeepsOutside-le a 4 (store_byte-KeepsOutside m a t) (omega arith) (omega arith))
        (KeepsOutside-trans
          (KeepsOutside-le a 4 (store_byte-KeepsOutside _ (a + 1) w.batch) (omega arith)
            (omega arith))
          (KeepsOutside-trans
            (KeepsOutside-le a 4 (store_byte-KeepsOutside _ (a + 2) w.flag_write) (omega arith)
              (omega arith))
            (KeepsOutside-le a 4 (store_byte-KeepsOutside _ (a + 3) 1) (omega arith)
              (omega arith))))

  trailer-IsTrailer : IsTrailer (trailer t w a m) a t w
  unfolding trailer
  trailer-IsTrailer = record {
    type_byte =
        store_byte_ne _ (a + 3) 1 a (omega arith)
        ∙ store_byte_ne _ (a + 2) w.flag_write a (omega arith)
        ∙ store_byte_ne _ (a + 1) w.batch a (omega arith)
        ∙ store_byte_self m a t;
    flag_write =
        store_byte_ne _ (a + 3) 1 (a + 2) (omega arith) ∙ store_byte_self _ (a + 2) w.flag_write;
    valid = store_byte_self _ (a + 3) 1;
  }

-- The records and the trailer of type 2 end where the buffer ends.
pub offset_plain :
    (w : ScaleWork) → IsFlag w.flag_write → offset_of 2 w + records_size w ≡ batch_bytes w
unfolding record_size
offset_plain w (inl e) = rw e (omega arith)
offset_plain w (inr e) = rw e (omega arith)

pub records_size-le : (w : ScaleWork) → IsFlag w.flag_write → records_size w ≤ batch_bytes w
records_size-le w e = omega (arith, offset_plain w e)

pub offset_switch :
    (w : ScaleWork)
    → 8 + mr_size ≤ batch_bytes w
    → batch_bytes w < 2 ^ 64
    → offset_of 1 w + (8 + mr_size) ≡ batch_bytes w
offset_switch w h k = omega arith

module _ (m : Memory) (c : ScaleClient) (w : ScaleWork) (items : List Item)
    (work : IsWork m c w items) where
  abbrev with_data : Bool
  with_data = w.flag_write == 1

  pub records_size-total : records_size w ≡ total with_data w.length (length items)
  records_size-total =
      ap (λ k. k * record_size with_data w.length) work.batch
      ∙ sym (total-mul with_data w.length (length items))

  -- The loop with the batch's own count.
  built-IsRecords :
      (cur a n : ℕ)
      → IsSource m m w.length w.globle_addr w.local_addr a n items
      → a ≤ cur
      → cur + records_size w ≤ a + n
      → IsRecords with_data
          (λ it. it.local)
          m
          (build_records w.batch with_data w.length w.globle_addr w.local_addr cur m)
          w.length
          cur
          items
  built-IsRecords cur a n source lower upper =
      subst
        (λ k.
          IsRecords with_data (λ it. it.local) m
            (build_records k with_data w.length w.globle_addr w.local_addr cur m) w.length cur
            items)
        (sym work.batch)
        (build_records-IsRecords items with_data m m w.length w.globle_addr w.local_addr cur a n
          source work.length_64 lower (omega (arith, upper, records_size-total)))

  built-KeepsOutside :
      (cur : ℕ)
      → KeepsOutside cur
          (records_size w)
          m
          (build_records w.batch with_data w.length w.globle_addr w.local_addr cur m)
  built-KeepsOutside cur =
      KeepsOutside-le cur (records_size w)
        (build_records-KeepsOutside w.batch with_data w.length w.globle_addr w.local_addr cur m)
        (omega arith) (omega (arith, total-mul with_data w.length w.batch))

  -- The request of type 2.
  pub build_plain-holds :
      let a = c.creq + offset_of 2 w in
      IsRecords with_data (λ it. it.local) m (build_plain a w m) w.length a items
      × IsTrailer (build_plain a w m) (c.creq + batch_bytes w) 2 w
      × KeepsOutside c.creq (buffer_bytes w) m (build_plain a w m)
  unfolding build_plain
  build_plain-holds =
      let a : ℕ = c.creq + offset_of 2 w in
      let end : a + records_size w ≡ c.creq + batch_bytes w =
        omega (arith, offset_plain w work.flag) in
      let built : Memory =
        build_records w.batch with_data w.length w.globle_addr w.local_addr a m in
      let tail = trailer-KeepsOutside 2 w (a + records_size w) built in
      (
        IsRecords-KeepsOutside with_data (λ it. it.local) m built _ (a + records_size w) 4 w.length
            a items tail (omega (arith, records_size-total))
            (built-IsRecords a c.creq (buffer_bytes w) work.source (omega arith)
              (omega (arith, end))),
        subst (λ b. IsTrailer (trailer 2 w (a + records_size w) built) b 2 w) end
            (trailer-IsTrailer 2 w (a + records_size w) built),
        KeepsOutside-trans
            (KeepsOutside-le c.creq (buffer_bytes w) (built-KeepsOutside a) (omega arith)
              (omega (arith, end)))
            (KeepsOutside-le c.creq (buffer_bytes w) tail (omega arith) (omega (arith, end))),
      )

  -- The request of type 1: what it tells the server, and the records that stay with the client.
  pub record IsSwitch (m' : Memory) (a : ℕ) : Type 0 where
    pub size : load64 m' a ≡ records_size w
    pub addr : load64 m' (a + 8 + mr_addr) ≡ w.local_data
    pub tail : IsTrailer m' (a + 8 + mr_size) 1 w
    pub records : IsRecords with_data (λ it. it.local) m m' w.length w.local_data items
    pub kept :
        (x : ℕ)
        → (x < c.creq) ⊎ (c.creq + buffer_bytes w ≤ x)
        → (x < w.local_data) ⊎ (w.local_data + records_size w ≤ x)
        → m' x ≡ m x

  pub build_switch-IsSwitch :
      IsSwitch (build_switch (c.creq + offset_of 1 w) w m) (c.creq + offset_of 1 w)
  unfolding build_switch
  build_switch-IsSwitch =
      let a : ℕ = c.creq + offset_of 1 w in
      let end : a + (8 + mr_size) ≡ c.creq + batch_bytes w =
        omega (arith, offset_switch w work.room work.bytes_64) in
      let built : Memory =
        build_records w.batch with_data w.length w.globle_addr w.local_addr w.local_data m in
      let sized : Memory = store64 built a (records_size w) in
      let named : Memory = memcpy sized (a + 8) sized w.mr mr_size in
      let one = built-KeepsOutside w.local_data in
      let two : KeepsOutside a 8 built sized = store-KeepsOutside 8 built a (records_size w) in
      let three : KeepsOutside (a + 8) mr_size sized named =
        memcpy-KeepsOutside sized (a + 8) sized w.mr mr_size in
      let four = trailer-KeepsOutside 1 w (a + 8 + mr_size) named in
      let last : KeepsOutside a (8 + mr_size + 4) built (trailer 1 w (a + 8 + mr_size) named) =
        KeepsOutside-trans (KeepsOutside-le a (8 + mr_size + 4) two (omega arith) (omega arith)) (
          KeepsOutside-trans (KeepsOutside-le a (8 + mr_size + 4) three (omega arith) (omega arith))
            (KeepsOutside-le a (8 + mr_size + 4) four (omega arith) (omega arith))) in
      record {
        size =
            KeepsOutside-load four 8 a (omega arith)
            ∙ KeepsOutside-load three 8 a (omega arith)
            ∙ load-store 8 built a (records_size w)
                (omega (arith, records_size-le w work.flag, work.bytes_64));
        addr =
            KeepsOutside-load four 8 (a + 8 + mr_addr) (omega arith)
            ∙ load-Same 8 (
                Same-part (Same-memcpy_in sized (a + 8) sized w.mr mr_size) mr_addr 8 (omega arith))
            ∙ KeepsOutside-load two 8 (w.mr + mr_addr) (omega (arith, work.mr_creq, end))
            ∙ KeepsOutside-load one 8 (w.mr + mr_addr) (omega (arith, work.mr_data))
            ∙ work.registered;
        tail = trailer-IsTrailer 1 w (a + 8 + mr_size) named;
        records =
            IsRecords-KeepsOutside with_data (λ it. it.local) m built _ a (8 + mr_size + 4) w.length
              w.local_data items last (omega (arith, records_size-total, work.data_creq, end))
              (built-IsRecords w.local_data w.local_data (records_size w) work.source_data
                (omega arith) (omega arith));
        kept = λ x creq own. last.at x (omega (arith, creq, end)) ∙ one.at x own;
      }
