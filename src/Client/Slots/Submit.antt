-- ===== src/Client/Slots/Submit.antt =====
-- The calls that take a slot.
use model_test.Prelude.{ℕ, suc, ◌<◌, ◌≡◌, refl, true, false, Option, some, arith}
use model_test.Client.{WorkType, Work, work, Client, queued, can_submit, list_add_tail, darpc_work}
use model_test.Client.Dispatch.{IsServed}
use model_test.Client.Slots.{Slots, submit_with_slot, model_farm}
use model_test.Client.Slots.Ring.{is_taken, IsRing, take_slot-IsTaken}

-- A call that takes a slot, with the cursors advancing, on a connected client, with memory for
-- its work and fewer requests out than there are slots, takes a slot that no request that is out
-- has, and queues one work that carries its number.
pub submit_with_slot-IsRing :
    (number : ℕ) (w : ℕ → Work) (s : Slots) (c : Client) (k : ℕ)
    → can_submit c.connect_trans ≡ true
    → IsRing number s k
    → k < number
    → (s' : Slots) × (submit_with_slot true true number w (s, c)
        ≡ some ((s', list_add_tail c (w s.scur)), queued (w s.scur)))
      × (is_taken number s.ccur k s.scur ≡ false)
      × IsRing number s' (suc k)
unfolding submit_with_slot
submit_with_slot-IsRing number w s c k up ring room =
    let (s', e, free, after) = (take_slot-IsTaken number s k ring).room room in
    (s', rw (up, e) refl, free, after)

farm-unserved :
    (g n l f b : ℕ) (cur : Option ℕ) → ¬ IsServed (work WorkType.farm (darpc_work g n l f b cur))
farm-unserved g n l f b cur served = grind (arith, served.selected, served.cast)

-- A call of model_FaRM on a connected client, with WFLUSH, memory for its work and fewer requests
-- out than there are slots, queues a work that has no handler which casts its data to the struct
-- that it points to.
pub model_farm-unserved :
    (number g n l f b : ℕ) (s : Slots) (c : Client) (k : ℕ)
    → can_submit c.connect_trans ≡ true
    → IsRing number s k
    → k < number
    → (s' : Slots) × (v : Work) × (model_farm true true number g n l f b (s, c)
        ≡ some ((s', list_add_tail c v), queued v))
      × (¬ IsServed v)
model_farm-unserved number g n l f b s c k up ring room =
    let w : ℕ → Work = λ cur. work WorkType.farm (darpc_work g n l f b (some cur)) in
    let (s', e, _, _) = submit_with_slot-IsRing number w s c k up ring room in
    (s', w s.scur, e, farm-unserved g n l f b (some s.scur))
