-- ===== src/Rpc/Scale/Placed.antt =====
-- What a ScaleRPC call needs of its buffers, and what it does.
use model_test.Prelude.{
  ℕ, ◌+◌, ◌≤◌, ◌<◌, ◌≡◌, ap, ◌∙◌, List, [], ◌∷◌, Bool, true, false, ◌==◌, arith, ◌⊎◌,
}
use model_test.Memory.{Memory, Apart, Same}
use model_test.Memory.Laws.{Same-trans}
use model_test.Memory.Region.{KeepsOutside, KeepsOutside-Same}
use model_test.Rpc.Batch.Layout.{Item}
use model_test.Rpc.Scale.{ScaleClient, ScaleWork, World, Tasks, record_size, records_size, valid_at}
use model_test.Rpc.Scale.Records.{IsRecords}
use model_test.Rpc.Scale.Copies.{AllApart, written, copy_all_at}
use model_test.Rpc.Scale.Request.{batch_bytes, buffer_bytes}
use model_test.Rpc.Scale.Answer.{taken}

abbrev pub all_tasks : Tasks
all_tasks = record { request_task = true; read_task = true; reply_task = true }

pub Same_at :
    {n : ℕ} {m m' : Memory} {a b : ℕ} (a' b' : ℕ)
    → a ≡ a'
    → b ≡ b'
    → Same n m a m' b
    → Same n m a' m' b'
Same_at {n} {m} {m'} {a} {b} a' b' p q same = record {
  at = λ i h.
      ap m {x = a' + i} {y = a + i} (omega (arith, p)) ∙ same.at i h ∙ ap m' (omega (arith, q));
}

-- The data of records, where their source holds what it held before.
pub IsRecords-source :
    (with_data : Bool) (from : Item → ℕ) (before src m : Memory) (a n size cur : ℕ)
    (items : List Item)
    → KeepsOutside a n before src
    → AllApart from size a n items
    → IsRecords with_data from src m size cur items
    → IsRecords with_data from before m size cur items
IsRecords-source with_data from before src m a n size cur [] keeps apart h = h
IsRecords-source with_data from before src m a n size cur (it ∷ rest) keeps apart
      (eg, el, es, payload, more) =
    (
      eg,
      el,
      es,
      (λ e. Same-trans (payload e) (KeepsOutside-Same keeps size (from it) apart.0)),
      IsRecords-source with_data from before src m a n size (cur + record_size with_data size) rest
          keeps apart.1 more,
    )

pub taken_at :
    (read : Bool) (src : Memory) (size : ℕ) (items : List Item) (m m' : Memory) (x : ℕ)
    → m x ≡ m' x
    → taken read src size items m x ≡ taken read src size items m' x
taken_at true src size items m m' x e = copy_all_at _ _ src size items m m' x e
taken_at false src size items m m' x e = e

-- The buffers of both nodes, what the items name, and what a call may write do not overlap.
pub record IsPlaced (c : ScaleClient) (w : ScaleWork) (sdata slocal : ℕ) (items : List Item)
    : Type 0 where
  pub sreq_sdata : Apart c.sreq (buffer_bytes w) sdata (buffer_bytes w)
  pub slocal_sdata : Apart slocal (buffer_bytes w) sdata (buffer_bytes w)
  pub targets_sreq : AllApart (λ it. it.globle) w.length c.sreq (buffer_bytes w) items
  pub targets_sdata : AllApart (λ it. it.globle) w.length sdata (buffer_bytes w) items
  pub targets_slocal : AllApart (λ it. it.globle) w.length slocal (buffer_bytes w) items
  pub locals_cdata : AllApart (λ it. it.local) w.length c.cdata (buffer_bytes w) items

-- A byte outside a buffer.
abbrev pub Outside : (a n x : ℕ) → Type 0
Outside a n x = (x < a) ⊎ (a + n ≤ x)

-- The reply's byte is 0 when the call begins, and no byte of what the client writes for the request.
pub record IsSilent (c : ScaleClient) (w : ScaleWork) (m : Memory) : Type 0 where
  pub silent : m (valid_at c w) ≡ 0
  pub valid_creq : Outside c.creq (buffer_bytes w) (valid_at c w)
  pub valid_data : Outside w.local_data (records_size w) (valid_at c w)

-- What a call does: outside the buffers, the server's memory holds the writes of the batch, in their
-- order, and the client's the reads, in their order; and the reply's byte is cleared.
pub record Called (c : ScaleClient) (w : ScaleWork) (sdata slocal : ℕ) (items : List Item)
    (s s' : World) : Type 0 where
  pub server :
      (x : ℕ)
      → Outside c.sreq (buffer_bytes w) x
      → Outside sdata (buffer_bytes w) x
      → Outside slocal (buffer_bytes w) x
      → s'.server x ≡ written (w.flag_write == 1) s.client w.length items s.server x
  pub client :
      (x : ℕ)
      → Outside c.creq (buffer_bytes w) x
      → Outside c.cdata (buffer_bytes w) x
      → Outside w.local_data (records_size w) x
      → s'.client x ≡ taken (w.flag_write == 0) s.server w.length items s.client x
  pub cleared : s'.client (c.cdata + batch_bytes w) ≡ 0

-- A state in which the request has come, and nothing else has changed but the request's buffers.
pub record IsSeen (c : ScaleClient) (w : ScaleWork) (slocal : ℕ) (items : List Item) (s s2 : World)
    : Type 0 where
  pub server :
      (x : ℕ)
      → Outside c.sreq (buffer_bytes w) x
      → Outside slocal (buffer_bytes w) x
      → s2.server x ≡ s.server x
  pub targets :
      (read : Bool) (m : Memory) (cur : ℕ)
      → IsRecords read (λ it. it.globle) s2.server m w.length cur items
      → IsRecords read (λ it. it.globle) s.server m w.length cur items
  pub client :
      (x : ℕ)
      → Outside c.creq (buffer_bytes w) x
      → Outside w.local_data (records_size w) x
      → s2.client x ≡ s.client x
