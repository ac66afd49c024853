-- ===== src/Client/History.antt =====
-- Threads that call the client's API while the worker thread takes work off `client->work_list`
-- (dhmp_client.c, dhmp_work_handle_thread of dhmp_work.c): each step is one critical section of
-- `mutex_work_list`, or a change of the connection.
use mathlib.Core.List.{append_assoc}
use model_test.Prelude.{
  ℕ, Bool, true, false, Option, none, some, List, [], ◌∷◌, ◌++◌, ◌≡◌, refl, sym, ap, ◌∙◌,
  if◌then◌else◌, ◌==◌,
}
use model_test.Transport.{TransportState}
use model_test.Client.{
  WorkType, WorkData, Work, work, Client, Submission, rejected, queued, list_add_tail, submit,
  can_submit, has_transport,
}
use model_test.Client.Calls.{
  dhmp_malloc, dhmp_free, dhmp_read, dhmp_write, amper_clover_compare_and_set, amper_write_l5,
  amper_scalable, amper_send_rpc_tailwind, amper_write_tailwind, amper_send_rpc_darpc, amper_rfp,
  dhmp_write2, dhmp_send, rdma_stress, dhmp_write_imm, dhmp_write_imm2, dhmp_write_imm3, dhmp_send2,
  dhmp_sread, dhmp_close_connection, send_ud,
}
use model_test.Client.Dispatch.{
  Handler, malloc_handler, free_handler, read_handler, write_handler, clover_handler,
  scalable_handler, l5_handler, tailwind_rpc_handler, tailwind_handler, darpc_handler,
  octopus_handler, fasst_handler, rfp_handler, write2_handler, send_handler, send2_handler,
  req_addr1_handler, write_imm_handler, write_imm3_handler, sread_handler, close_handler,
  handler_of, cast_of, struct_of, IsServed,
}

-- `Issued c r`: one of the calls, made when the client is `c`, gives `r`.
pub data Issued (c : Client) : Client × Submission → Type 0 where
  malloc : (a b : Bool) (n k : ℕ) → Issued c (dhmp_malloc a b n k c)
  free : (a : Bool) (d : ℕ) → Issued c (dhmp_free a d c)
  read : (a : Bool) (d b n : ℕ) → Issued c (dhmp_read a d b n c)
  write : (a : Bool) (d b n : ℕ) → Issued c (dhmp_write a d b n c)
  clover : (a : Bool) (d n v : ℕ) → Issued c (amper_clover_compare_and_set a d n v c)
  l5 : (a : Bool) (b n g f : ℕ) → Issued c (amper_write_l5 a b n g f c)
  scalable : (a : Bool) (o k t n f b : ℕ) → Issued c (amper_scalable a o k t n f b c)
  tailwind_rpc : (a : Bool) (o h k b n : ℕ) → Issued c (amper_send_rpc_tailwind a o h k b n c)
  tailwind : (a : Bool) (o h k b n : ℕ) → Issued c (amper_write_tailwind a o h k b n c)
  darpc : (a : Bool) (g n b f k : ℕ) → Issued c (amper_send_rpc_darpc a g n b f k c)
  rfp : (a : Bool) (b g n : ℕ) (w : Bool) → Issued c (amper_rfp a b g n w c)
  write2 : (a : Bool) (d b n : ℕ) → Issued c (dhmp_write2 a d b n c)
  send : (a : Bool) (d b n : ℕ) (w : Bool) → Issued c (dhmp_send a d b n w c)
  stress : (a : Bool) → Issued c (rdma_stress a c)
  write_imm : (a : Bool) (d b n o : ℕ) → Issued c (dhmp_write_imm a d b n o c)
  write_imm2 : (a : Bool) (d b n f : ℕ) → Issued c (dhmp_write_imm2 a d b n f c)
  write_imm3 : (a : Bool) (d b n : ℕ) → Issued c (dhmp_write_imm3 a d b n c)
  send2 : (a : Bool) (s d b n : ℕ) → Issued c (dhmp_send2 a s d b n c)
  sread : (a : Bool) (d b n : ℕ) → Issued c (dhmp_sread a d b n c)
  close : (a : Bool) → Issued c (dhmp_close_connection a c)
  ud : (a : Bool) (g n b f k : ℕ) → Issued c (send_ud a g n b f k c)

-- A call has returned with the client as it was, or appended one work that the worker can serve.
pub data IsIssue (c : Client) : Client × Submission → Type 0 where
  dropped : IsIssue c (c, rejected)
  appended : (w : Work) → IsServed w → IsIssue c (list_add_tail c w, queued w)

submit-IsIssue :
    (ready alloc : Bool) {w : Work} → IsServed w → (c : Client) → IsIssue c (submit ready alloc w c)
submit-IsIssue true true s c = appended _ s
submit-IsIssue true false s c = dropped
submit-IsIssue false alloc s c = dropped

module _ {t : WorkType} {d : WorkData} where
  served :
      (h : Handler) → handler_of t ≡ some h → cast_of h ≡ some (struct_of d) → IsServed (work t d)
  served h p q = record { handler = h; selected = p; cast = q }

if-IsIssue :
    {c : Client} (b : Bool) {r q : Client × Submission}
    → IsIssue c r
    → IsIssue c q
    → IsIssue c (if b then r else q)
if-IsIssue true p q = p
if-IsIssue false p q = q

-- Every call of the client API other than model_FaRM, model_herd and
-- amper_pRDMA_write_senderactive either is rejected and leaves the client as it was, or appends
-- to the work list one work that the worker thread's switch has a handler for, and whose data is
-- of the struct that the handler casts it to.
pub Issued-IsIssue : (c : Client) (r : Client × Submission) → Issued c r → IsIssue c r
unfolding dhmp_malloc dhmp_free dhmp_read dhmp_write amper_clover_compare_and_set amper_write_l5
    amper_scalable amper_send_rpc_tailwind amper_write_tailwind amper_send_rpc_darpc amper_rfp
    dhmp_write2 dhmp_send rdma_stress dhmp_write_imm dhmp_write_imm2 dhmp_write_imm3 dhmp_send2
    dhmp_sread dhmp_close_connection send_ud
Issued-IsIssue c _ (malloc a b n k) =
    submit-IsIssue (has_transport c.connect_trans) (if a then b else a)
      (served malloc_handler refl refl) c
Issued-IsIssue c _ (free a d) =
    if-IsIssue (d == 0) dropped
      (submit-IsIssue (can_submit c.connect_trans) a (served free_handler refl refl) c)
Issued-IsIssue c _ (read a d b n) =
    submit-IsIssue (can_submit c.connect_trans) a (served read_handler refl refl) c
Issued-IsIssue c _ (write a d b n) =
    submit-IsIssue (can_submit c.connect_trans) a (served write_handler refl refl) c
Issued-IsIssue c _ (clover a d n v) =
    submit-IsIssue (can_submit c.connect_trans) a (served clover_handler refl refl) c
Issued-IsIssue c _ (l5 a b n g f) =
    submit-IsIssue (can_submit c.connect_trans) a (served l5_handler refl refl) c
Issued-IsIssue c _ (scalable a o k t n f b) =
    submit-IsIssue (can_submit c.connect_trans) a (served scalable_handler refl refl) c
Issued-IsIssue c _ (tailwind_rpc a o h k b n) =
    submit-IsIssue (can_submit c.connect_trans) a (served tailwind_rpc_handler refl refl) c
Issued-IsIssue c _ (tailwind a o h k b n) =
    submit-IsIssue (can_submit c.connect_trans) a (served tailwind_handler refl refl) c
Issued-IsIssue c _ (darpc a g n b f k) =
    submit-IsIssue (can_submit c.connect_trans) a (served darpc_handler refl refl) c
Issued-IsIssue c _ (rfp a b g n w) =
    submit-IsIssue (can_submit c.connect_trans) a (served rfp_handler refl refl) c
Issued-IsIssue c _ (write2 a d b n) =
    submit-IsIssue (can_submit c.connect_trans) a (served write2_handler refl refl) c
Issued-IsIssue c _ (send a d b n w) =
    submit-IsIssue (can_submit c.connect_trans) a (served send_handler refl refl) c
Issued-IsIssue c _ (stress a) =
    submit-IsIssue (can_submit c.connect_trans) a (served req_addr1_handler refl refl) c
Issued-IsIssue c _ (write_imm a d b n o) =
    submit-IsIssue (can_submit c.connect_trans) a (served write_imm_handler refl refl) c
Issued-IsIssue c _ (write_imm2 a d b n f) =
    submit-IsIssue (can_submit c.connect_trans) a (served octopus_handler refl refl) c
Issued-IsIssue c _ (write_imm3 a d b n) =
    submit-IsIssue (can_submit c.connect_trans) a (served write_imm3_handler refl refl) c
Issued-IsIssue c _ (send2 a s d b n) =
    submit-IsIssue (can_submit c.connect_trans) a (served send2_handler refl refl) c
Issued-IsIssue c _ (sread a d b n) =
    submit-IsIssue (can_submit c.connect_trans) a (served sread_handler refl refl) c
Issued-IsIssue c _ (close a) =
    submit-IsIssue (can_submit c.connect_trans) a (served close_handler refl refl) c
Issued-IsIssue c _ (ud a g n b f k) =
    submit-IsIssue (has_transport c.connect_trans) a (served fasst_handler refl refl) c

-- The critical section of dhmp_work_handle_thread's loop: take the first work, if there is one.
abbrev pub take_from : Client → List Work → Option Work × Client
take_from c [] = (none, c)
take_from c (w ∷ ws) = (some w, record c { work_list = ws })

abbrev pub take_first : Client → Option Work × Client
take_first c = take_from c c.work_list

-- The client, with all works queued and all works taken so far, oldest first.
pub record History : Type 0 where
  pub client : Client
  pub accepted : List Work
  pub taken : List Work

-- What a call adds to the history.
abbrev pub log_call : History → Client × Submission → History
log_call h (c, rejected) = record h { client = c }
log_call h (c, queued w) = record h { client = c; accepted = h.accepted ++ (w ∷ []) }

-- What the worker adds to it.
abbrev pub log_take : History → Option Work × Client → History
log_take h (none, c) = record h { client = c }
log_take h (some w, c) = record h { client = c; taken = h.taken ++ (w ∷ []) }

pub data Step (h : History) : History → Type 0 where
  call : (r : Client × Submission) → Issued h.client r → Step h (log_call h r)
  take : Step h (log_take h (take_first h.client))
  reconnect :
      (t : Option TransportState)
      → Step h (record h { client = record h.client { connect_trans = t } })

pub data Reachable : History → Type 0 where
  start :
      (t : Option TransportState)
      → Reachable (record {
        client = record { connect_trans = t; work_list = [] };
        accepted = [];
        taken = [];
      })
  step : {h h' : History} → Reachable h → Step h h' → Reachable h'

abbrev pub AllServed : List Work → Type 0
AllServed [] = Unit
AllServed (w ∷ ws) = IsServed w × AllServed ws

-- The works are taken in the order in which they were queued, none is lost or taken twice, and each
-- has a handler.
pub record IsFifo (h : History) : Type 0 where
  pub order : h.accepted ≡ h.taken ++ h.client.work_list
  pub all_served : AllServed h.accepted

AllServed-append :
    (ws : List Work) {w : Work} → AllServed ws → IsServed w → AllServed (ws ++ (w ∷ []))
AllServed-append [] h s = (s, tt)
AllServed-append (v ∷ ws) h s = (h.0, AllServed-append ws h.1 s)

issue-IsFifo :
    (h : History) (r : Client × Submission) → IsFifo h → IsIssue h.client r → IsFifo (log_call h r)
issue-IsFifo h _ fifo dropped = record { order = fifo.order; all_served = fifo.all_served }
issue-IsFifo h _ fifo (appended w s) = record {
  order = ap (λ ws. ws ++ (w ∷ [])) fifo.order ∙ append_assoc h.taken h.client.work_list (w ∷ []);
  all_served = AllServed-append h.accepted fifo.all_served s;
}

take-IsFifo :
    (h : History) (ws : List Work)
    → h.client.work_list ≡ ws
    → IsFifo h
    → IsFifo (log_take h (take_from h.client ws))
take-IsFifo h [] e fifo = record { order = fifo.order; all_served = fifo.all_served }
take-IsFifo h (w ∷ ws) e fifo = record {
  order = fifo.order ∙ ap (λ l. h.taken ++ l) e ∙ sym (append_assoc h.taken (w ∷ []) ws);
  all_served = fifo.all_served;
}

Step-IsFifo : {h h' : History} → IsFifo h → Step h h' → IsFifo h'
Step-IsFifo {h} fifo (call r i) = issue-IsFifo h r fifo (Issued-IsIssue h.client r i)
Step-IsFifo {h} fifo take = take-IsFifo h h.client.work_list refl fifo
Step-IsFifo fifo (reconnect t) = record { order = fifo.order; all_served = fifo.all_served }

-- However the client's calls (other than model_FaRM, model_herd and
-- amper_pRDMA_write_senderactive), the worker thread and changes of the connection interleave
-- from an empty work list, the works taken so far followed by the works still listed are the
-- works that the calls queued, in the order in which they queued them, and the worker's switch
-- has for each a handler that casts its data to the struct that it points to.
pub Reachable-IsFifo : {h : History} → Reachable h → IsFifo h
Reachable-IsFifo (start t) = record { order = refl; all_served = tt }
Reachable-IsFifo (step r s) = Step-IsFifo (Reachable-IsFifo r) s
