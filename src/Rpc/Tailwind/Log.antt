-- ===== src/Rpc/Tailwind/Log.antt =====
-- The log that a call of model_6_Tailwind leaves, when one log holds all its entries.
use model_test.Prelude.{
  ℕ, zero, suc, ◌+◌, ◌*◌, ◌%◌, ◌≤◌, ◌<◌, ◌≡◌, refl, ap, ◌∙◌, ◌==◌, false, true, arith, Bool-cases,
  inl, inr,
}
use mathlib.Core.Path.{subst}
use native.Mathlib.Nat.{mod-eq_of_lt}
use model_test.Memory.{Memory, Same}
use model_test.Memory.Laws.{Same-trans, Same-le, Same-part}
use model_test.Memory.Region.{
  KeepsOutside, KeepsOutside-refl, KeepsOutside-trans, KeepsOutside-le, KeepsOutside-Same,
}
use model_test.Rdma.{Rdma, finished, Reliable, posted}
use model_test.Rpc.Tailwind.{
  World, Call, count, log_size, entry_at, gather, work_handler, work_of, append,
}

-- A whole entry of the log at `x`, with head and data as they are in `src`.
pub record IsEntry (k : Call) (src m : Memory) (x : ℕ) : Type 0 where
  pub head : Same count m x src k.tailwind_head
  pub payload : Same k.length m (x + count) src k.local_addr

abbrev pub entry_size : Call → ℕ
entry_size k = k.length + count

pub IsEntry-Same :
    (k : Call) (src m m' : Memory) (x : ℕ)
    → Same (entry_size k) m' x m x
    → IsEntry k src m x
    → IsEntry k src m' x
IsEntry-Same k src m m' x same e = record {
  head = Same-trans (Same-le same count (omega arith)) e.head;
  payload = Same-trans (Same-part same count k.length (omega arith)) e.payload;
}

module _ (net : Rdma) (reliable : Reliable net) (k : Call) where
  -- One entry by a one-sided write.
  record IsWritten (j : ℕ) (s s' : World) : Type 0 where
    pub client : s'.client ≡ s.client
    pub buffer : s'.buffer ≡ s.buffer
    pub entry : IsEntry k s.client s'.server (s.buffer + j * entry_size k)
    pub kept : KeepsOutside (s.buffer + j * entry_size k) (entry_size k) s.server s'.server

  gather-head :
      (m : Memory) (i : ℕ)
      → i < count
      → gather m k.tailwind_head count k.local_addr (0 + i) ≡ m (k.tailwind_head + i)
  unfolding gather
  gather-head m i h = ground arith

  gather-data :
      (m : Memory) (i : ℕ)
      → gather m k.tailwind_head count k.local_addr (0 + (count + i)) ≡ m (k.local_addr + i)
  unfolding gather
  gather-data m i = ground arith

  write_entry :
      (j : ℕ) (s : World)
      → j < log_size
      → (s' : World) × (work_handler net true (work_of k j) s ≡ finished s') × IsWritten j s s'
  unfolding work_handler
  write_entry j s h =
      let w = work_of k j in
      let from = gather s.client k.tailwind_head count k.local_addr in
      let (m1, e1) = reliable s.server (entry_at s.buffer w) from 0 (count + k.length) in
      let at : entry_at s.buffer w ≡ s.buffer + j * entry_size k =
        ap (λ i. s.buffer + i * entry_size k) (mod-eq_of_lt h) in
      (
        record s { server = m1 },
        rw e1 refl,
        record {
          client = refl;
          buffer = refl;
          entry = record {
            head = record {
              at = λ i p.
                  ap m1 (omega (arith, at))
                  ∙ (posted net e1).at i (omega arith)
                  ∙ gather-head s.client i p;
            };
            payload = record {
              at = λ i p.
                  ap m1 (omega (arith, at))
                  ∙ (posted net e1).at (count + i) (omega arith)
                  ∙ gather-data s.client i;
            };
          };
          kept = record {
            at = λ x p.
                net.post_out s.server (entry_at s.buffer w) from 0 (count + k.length) m1 e1 x
                  (omega (arith, at, p));
          };
        },
      )

  -- The entries from `j` on, `left` many.
  pub record IsAppended (left j : ℕ) (s s' : World) : Type 0 where
    pub client : s'.client ≡ s.client
    pub buffer : s'.buffer ≡ s.buffer
    pub entries :
        (i : ℕ) → j ≤ i → i < j + left → IsEntry k s.client s'.server (s.buffer + i * entry_size k)
    pub kept : KeepsOutside (s.buffer + j * entry_size k) (left * entry_size k) s.server s'.server

  not_full : (j : ℕ) → 1 ≤ j → j < log_size → (j % log_size == 0) ≡ false
  not_full j some_j h = rw (mod-eq_of_lt h) (ground (arith, some_j))

  one_more :
      (left j : ℕ) (s s1 s2 : World)
      → IsWritten j s s1
      → IsAppended left (j + 1) s1 s2
      → IsAppended (suc left) j s s2
  one_more left j s s1 s2 one rest = record {
    client = rest.client ∙ one.client;
    buffer = rest.buffer ∙ one.buffer;
    entries = λ i a b. elim (Bool-cases (i == j)) [
      | inl e ↦
          subst (λ x. IsEntry k s.client s2.server (s.buffer + x * entry_size k))
            (ground (arith, e))
            (IsEntry-Same k s.client s1.server s2.server (s.buffer + j * entry_size k)
              (KeepsOutside-Same rest.kept (entry_size k) (s.buffer + j * entry_size k)
                (omega (arith, one.buffer)))
              one.entry)
      | inr e ↦
          rw (← one.client, ← one.buffer) (rest.entries i (ground (arith, a, e)) (omega (arith, b)))
    ];
    kept =
        KeepsOutside-trans
          (KeepsOutside-le (s.buffer + j * entry_size k) (suc left * entry_size k) one.kept
            (omega arith) (omega arith))
          (KeepsOutside-le (s.buffer + j * entry_size k) (suc left * entry_size k) rest.kept
            (omega (arith, one.buffer)) (omega (arith, one.buffer)));
  }

  pub appended :
      (left j : ℕ) (s : World)
      → 1 ≤ j
      → j + left ≤ log_size
      → (s' : World) × (append net k left j s ≡ finished s') × IsAppended left j s s'
  unfolding append
  appended zero j s some_j fits = (
    s,
    refl,
    record {
      client = refl;
      buffer = refl;
      entries = λ i a b. absurd (omega (arith, a, b));
      kept = KeepsOutside-refl _ _ s.server;
    },
  )
  appended (suc left) j s some_j fits =
      let (s1, e1, one) = write_entry j s (omega (arith, fits)) in
      let (s2, e2, rest) = appended left (j + 1) s1 (omega arith) (omega (arith, fits)) in
      (s2, rw (not_full j some_j (omega (arith, fits)), e1) e2, one_more left j s s1 s2 one rest)
