-- ===== src/Client/Slots.antt =====
-- The request slots of the herd, pRDMA and FaRM calls (model_herd, amper_pRDMA_write_senderactive and
-- model_FaRM of dhmp_client.c, FaRM_run_client of dhmp_work.c): a call takes the slot at `Scur` when
-- it is available. FaRM_run_client frees the one at `Ccur` for each reply; a reply of herd, which
-- names its slot in a message, is not modelled.
pub mod Ring
pub mod Submit
use model_test.Prelude.{ℕ, ◌+◌, ◌%◌, Bool, true, false, Option, none, some, if◌then◌else◌, ◌==◌}
use model_test.Client.{
  WorkType, Work, work, Client, Submission, rejected, queued, can_submit, list_add_tail, l5_work,
  darpc_work,
}

-- `client->herd`, `client->pRDMA` or `client->FaRM`: the array `is_available` by index, and the two
-- cursors
pub record Slots : Type 0 where
  pub is_available : ℕ → ℕ
  pub scur : ℕ
  pub ccur : ℕ

-- as dhmp_malloc_response_handler leaves them
unfoldable pub new_slots : Slots
new_slots = record { is_available = λ i. 1; scur = 0; ccur = 0 }

-- One round of a call's loop, under `mutex_request_num`: the slot that it takes, `none` where it has
-- to go round again. `number` is FaRM_buffer_NUM; `advance` is false for model_FaRM in builds without
-- WFLUSH.
unfoldable pub take_slot : (advance : Bool) (number : ℕ) → Slots → Option (ℕ × Slots)
take_slot advance number s =
    if s.is_available s.scur == 0
    then none
    else some (
      s.scur,
      record s {
        is_available = λ i. if i == s.scur then 0 else s.is_available i;
        scur = if advance then (s.scur + 1) % number else s.scur;
      },
    )

-- What FaRM_run_client does for a reply; `advance` is false without WFLUSH and RFLUSH.
pub free_slot : (advance : Bool) (number : ℕ) → Slots → Slots
free_slot advance number s = record s {
  is_available = λ i. if i == s.ccur then 1 else s.is_available i;
  ccur = if advance then (s.ccur + 1) % number else s.ccur;
}

-- How a round of a call goes on: it returns, it has queued its work and waits, or it goes round again.
abbrev pub with_slot :
    Option (ℕ × Slots) → (ℕ → Work) → Slots × Client → Option ((Slots × Client) × Submission)
with_slot (some (cur, s')) w (s, c) = some ((s', list_add_tail c (w cur)), queued (w cur))
with_slot none w (s, c) = none

-- A call up to the end of a round of its loop, with `alloc` for its `malloc`.
pub submit_with_slot :
    (advance alloc : Bool) (number : ℕ)
    → (ℕ → Work)
    → Slots × Client
    → Option ((Slots × Client) × Submission)
submit_with_slot advance alloc number w (s, c) =
    if can_submit c.connect_trans
    then (if alloc
        then with_slot (take_slot advance number s) w (s, c)
        else some ((s, c), rejected))
    else some ((s, c), rejected)

abbrev pub model_farm :
    (wflush alloc : Bool) (number globle_addr length local_addr flag_write batch : ℕ)
    → Slots × Client
    → Option ((Slots × Client) × Submission)
model_farm wflush alloc number g n l f b =
    submit_with_slot wflush alloc number
      (λ cur. work WorkType.farm (darpc_work g n l f b (some cur)))

abbrev pub model_herd :
    (alloc : Bool) (number local_buf count globle_addr flag_write : ℕ)
    → Slots × Client
    → Option ((Slots × Client) × Submission)
model_herd alloc number l n g f =
    submit_with_slot true alloc number (λ cur. work WorkType.herd (l5_work l n g f (some cur)))

abbrev pub amper_prdma_write_senderactive :
    (alloc : Bool) (number local_buf count globle_addr flag_write : ℕ)
    → Slots × Client
    → Option ((Slots × Client) × Submission)
amper_prdma_write_senderactive alloc number l n g f =
    submit_with_slot true alloc number (λ cur. work WorkType.prdma_ws (l5_work l n g f (some cur)))
