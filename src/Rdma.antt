-- ===== src/Rdma.antt =====
-- What the handlers use of the verbs library, and how a handler can end.
use model_test.Prelude.{ℕ, ◌+◌, ◌<◌, ◌≤◌, ◌≡◌, ◌⊎◌, Bool, true, false}
use model_test.Memory.{Memory, Same, Apart}
use model_test.Memory.Laws.{Apart-at}

-- What becomes of one posted one-sided request whose code waits for `done_flag`: the memory of the
-- written side when its completion is a success, a refusal by `ibv_post_send`, or a completion
-- with an error status, after which `dhmp_wc_error_handler` leaves `done_flag` false.
pub data Completion : Type 0 where
  completed : Memory → Completion
  refused : Completion
  errored : Completion

-- `post m d src s n`: `n` bytes at `s` of one node go to `d` of the other, whose memory is `m`
-- (RDMA_WRITE from the local to the remote node, RDMA_READ the other way).
pub record Rdma : Type 0 where
  pub post : Memory → ℕ → Memory → ℕ → ℕ → Completion
  pub post_in :
      (m : Memory) (d : ℕ) (src : Memory) (s n : ℕ) (m' : Memory)
      → post m d src s n ≡ completed m'
      → Same n m' d src s
  pub post_out :
      (m : Memory) (d : ℕ) (src : Memory) (s n : ℕ) (m' : Memory)
      → post m d src s n ≡ completed m'
      → (x : ℕ) → (x < d) ⊎ (d + n ≤ x)
      → m' x ≡ m x

-- How a run of a handler ends: it sets `done_flag` or returns, it returns early on an error, the
-- process exits, or it waits in a loop whose condition no longer changes.
pub data Outcome (S : Type 0) : Type 0 where
  finished : S → Outcome S
  failed : S → Outcome S
  exited : Outcome S
  spinning : S → Outcome S

module _ {S : Type 0} where
  infixl 5 ◌>>=◌
  abbrev pub ◌>>=◌ : Outcome S → (S → Outcome S) → Outcome S
  finished s >>= k = k s
  failed s >>= k = failed s
  exited >>= k = exited
  spinning s >>= k = spinning s

-- Go on with the memory that a completed post leaves; `s` is the state in which the code waits.
abbrev pub await : {S : Type 0} → Completion → S → (Memory → Outcome S) → Outcome S
await (completed m) s k = k m
await refused s k = exited
await errored s k = spinning s

-- The same where the code does not look at what `ibv_post_send` returns: nothing arrives, and one of the
-- nodes waits for it.
abbrev pub arrive : {S : Type 0} → Completion → S → (Memory → Outcome S) → Outcome S
arrive (completed m) s k = k m
arrive refused s k = spinning s
arrive errored s k = spinning s

abbrev pub guard_task : {S : Type 0} → Bool → S → Outcome S → Outcome S
guard_task true s k = k
guard_task false s k = failed s

-- Every post completes.
abbrev pub Reliable : Rdma → Type 0
Reliable net =
    (m : Memory) (d : ℕ) (src : Memory) (s n : ℕ)
    → (m' : Memory) × (net.post m d src s n ≡ completed m')

-- The same laws, by region.
module _ (net : Rdma) {m src m' : Memory} {d s n : ℕ}
    (e : net.post m d src s n ≡ completed m') where
  pub posted : Same n m' d src s
  posted = net.post_in m d src s n m' e

  pub posted_elsewhere : (k a : ℕ) → Apart a k d n → Same k m' a m a
  posted_elsewhere k a h = record {
    at = λ i p. net.post_out m d src s n m' e (a + i) (Apart-at k n h p);
  }
