-- ===== src/Rpc/Scale/Call.antt =====
-- A whole ScaleRPC call, `model_7_scalable`, of either type.
use model_test.Prelude.{ℕ, ◌+◌, ◌≡◌, refl, List, ◌==◌, if◌then◌else◌, Bool, true, false, arith}
use model_test.Rdma.{Rdma, finished, ◌>>=◌, Reliable}
use model_test.Rpc.Batch.Layout.{Item}
use model_test.Rpc.Scale.{ScaleClient, ScaleWork, World, swith_time, exchange, model_7_scalable}
use model_test.Rpc.Scale.Request.{IsWork}
use model_test.Rpc.Scale.Answer.{paired}
use model_test.Rpc.Scale.Placed.{all_tasks, IsPlaced, IsSilent, Called}
use model_test.Rpc.Scale.Exchange.{exchange_plain, exchange_switch}

module _ (net : Rdma) (reliable : Reliable net) (c : ScaleClient) (w : ScaleWork) (sdata slocal : ℕ)
    (items : List Item) (placed : IsPlaced c w sdata slocal items) (s : World)
    (work : IsWork s.client c w items) (early : Bool) (silent : IsSilent c w s.client) where
  counted :
      (t k : ℕ)
      → (s' : World) × (exchange net all_tasks c
            (paired c w sdata slocal)
            w
            t
            early
            (record s { context_swith = k })
          ≡ finished s')
        × Called c w sdata slocal items (record s { context_swith = k }) s'
        × (s'.context_swith ≡ k)
      → (s' : World) × ((exchange net all_tasks c
              (paired c w sdata slocal)
              w
              t
              early
              (record s { context_swith = k })
            >>= (λ s'. finished (record s' { context_swith = s'.context_swith + 1 })))
          ≡ finished s')
        × Called c w sdata slocal items s s'
        × (s'.context_swith ≡ k + 1)
  counted t k (s', e, called, swith) = (
    record s' { context_swith = s'.context_swith + 1 },
    rw e refl,
    record { server = called.server; client = called.client; cleared = called.cleared },
    omega (arith, swith),
  )

  either_type :
      (switches : Bool) (k : ℕ)
      → (s' : World) × ((exchange net all_tasks c
              (paired c w sdata slocal)
              w
              (if switches then 1 else 2)
              early
              (record s { context_swith = k })
            >>= (λ s'. finished (record s' { context_swith = s'.context_swith + 1 })))
          ≡ finished s')
        × Called c w sdata slocal items s s'
        × (s'.context_swith ≡ k + 1)
  either_type true k = counted 1 k (
      exchange_switch net reliable c w sdata slocal items placed (record s { context_swith = k })
        work early silent)
  either_type false k = counted 2 k (
      exchange_plain net reliable c w sdata slocal items placed (record s { context_swith = k })
        work early silent)

  -- A call of model_7_scalable on a reliable network, with memory for its tasks, for fewer than
  -- 128 items whose size is the server's and whose batch has 56 bytes or more, its buffers and
  -- what it names not overlapping and the reply's byte 0 when it begins, returns, whether or not
  -- the client looks at that byte before the server's round; whether the request carries its
  -- records or the server fetches them, outside the buffers the server's memory is then that of
  -- the batch's copies one after the other for a write and unchanged for a read, the client's the
  -- other way round, the reply's byte is 0 and context_swith has advanced or, at
  -- Sca1e_Swith_Time, restarted.
  pub model_7_scalable-Called :
      (s' : World) × (model_7_scalable net all_tasks c (paired c w sdata slocal) w early s
        ≡ finished s')
      × Called c w sdata slocal items s s'
      × (s'.context_swith ≡ (if s.context_swith == swith_time then 0 else s.context_swith) + 1)
  unfolding model_7_scalable
  model_7_scalable-Called =
      either_type (s.context_swith == swith_time)
        (if s.context_swith == swith_time then 0 else s.context_swith)
