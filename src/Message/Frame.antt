-- ===== src/Message/Frame.antt =====
-- The send region's cursor, and the round trip of a message.
use model_test.Prelude.{
  ℕ, ◌+◌, ◌≤◌, ◌<◌, ◌^◌, ◌≡◌, refl, sym, ◌∙◌, ◌⊎◌, inl, inr, Bool, true, Bool-cases, some, ltb,
  arith,
}
use mathlib.Core.Option.{some-injective}
use mathlib.Core.Path.{subst}
use model_test.Memory.{Memory, load, load64, store, store64, Apart, Same}
use model_test.Memory.Laws.{
  load-Same, Same-store, Same-part, Same-le, memcpy_out, store_out, Same-refl, Same-trans,
  Same-memcpy_in, load-store, load-store-Apart, load-memcpy-Apart,
}
use model_test.Message.{
  DhmpMr, DhmpMsg, DhmpSge, head_size, send_region_size, send_pos, build_send, send_task_create,
  message_cxt, read_message,
}

-- The cursor has not left the region.
abbrev pub InRegion : DhmpMr → Type 0
InRegion mr = mr.cur_pos ≤ send_region_size

-- A task for `msg` in the region: it starts behind the cursor or, when there is no room left, at the
-- region's start; the cursor ends behind it, and no byte but the task's has changed.
pub record IsSent (mr : DhmpMr) (m : Memory) (msg : DhmpMsg) (sge : DhmpSge) (mr' : DhmpMr)
    (m' : Memory) : Type 0 where
  pub made : send_task_create true mr m msg ≡ some (sge, mr', m')
  pub lower : mr.addr ≤ sge.addr
  pub upper : sge.addr + sge.length ≤ mr.addr + send_region_size
  pub same_region : mr'.addr ≡ mr.addr
  pub in_region : InRegion mr'
  pub start :
      (sge.addr ≡ mr.addr + mr.cur_pos)
      ⊎ ((sge.addr ≡ mr.addr) × (send_region_size < mr.cur_pos + (head_size + msg.data_size)))
  pub cursor : mr'.addr + mr'.cur_pos ≡ sge.addr + sge.length
  pub kept : (x : ℕ) → (x < sge.addr) ⊎ (sge.addr + sge.length ≤ x) → m' x ≡ m x

send_pos-cases :
    (mr : DhmpMr) (n : ℕ)
    → ((send_pos mr n ≡ mr.cur_pos) × (mr.cur_pos + n ≤ send_region_size))
      ⊎ ((send_pos mr n ≡ 0) × (send_region_size < mr.cur_pos + n))
unfolding send_pos
send_pos-cases mr n = elim (Bool-cases (ltb send_region_size (mr.cur_pos + n))) [
  | inl e ↦ inr (rw e, ground (arith, e))
  | inr e ↦ inl (rw e, ground (arith, e))
]

build_send_out :
    (m : Memory) (a : ℕ) (msg : DhmpMsg) (x : ℕ)
    → (x < a) ⊎ (a + (head_size + msg.data_size) ≤ x)
    → build_send m a msg x ≡ m x
unfolding build_send
build_send_out m a msg x h =
    let typed : Memory = store 4 m a msg.msg_type in
    let sized : Memory = store64 typed (a + 4) msg.data_size in
    memcpy_out sized (a + head_size) sized msg.payload msg.data_size x (omega arith)
    ∙ store_out 8 typed (a + 4) msg.data_size x (omega arith)
    ∙ store_out 4 m a msg.msg_type x (omega arith)

-- A message that is no longer than the send region is put into it: the task lies inside the
-- region, where the cursor was or, only if it does not fit behind the cursor, at the region's
-- start; the cursor ends behind it, inside the region; and no byte outside the task changes.
pub send_task_create-IsSent :
    (mr : DhmpMr) (m : Memory) (msg : DhmpMsg)
    → InRegion mr
    → head_size + msg.data_size ≤ send_region_size
    → (sge : DhmpSge) × (mr' : DhmpMr) × (m' : Memory) × IsSent mr m msg sge mr' m'
unfolding send_task_create
send_task_create-IsSent mr m msg inside fits =
    let length : ℕ = head_size + msg.data_size in
    let pos : ℕ = send_pos mr length in
    let cases = send_pos-cases mr length in
    (
      record { addr = mr.addr + pos; length = length },
      record { cur_pos = pos + length; addr = mr.addr },
      build_send m (mr.addr + pos) msg,
      record {
        made = refl;
        lower = omega arith;
        upper = ground (arith, cases);
        same_region = refl;
        in_region = ground (arith, cases);
        start = elim cases [
          | inl e ↦ inl (omega (arith, e.0))
          | inr e ↦ inr (omega (arith, e.0), e.1)
        ];
        cursor = omega arith;
        kept = λ x h. build_send_out m (mr.addr + pos) msg x (omega (arith, h));
      },
    )

-- The message at `a` of `m` is `msg`, whose payload stood in `src`.
pub record IsMessageAt (m : Memory) (a : ℕ) (src : Memory) (msg : DhmpMsg) : Type 0 where
  pub msg_type : load 4 m a ≡ msg.msg_type
  pub data_size : load64 m (a + 4) ≡ msg.data_size
  pub payload : Same msg.data_size m (a + head_size) src msg.payload

-- `msg_type` and `data_size` are values of their C types.
pub record IsTyped (msg : DhmpMsg) : Type 0 where
  pub msg_type : msg.msg_type < 256 ^ 4
  pub data_size : msg.data_size < 256 ^ 8

build_send-IsMessageAt :
    (m : Memory) (a : ℕ) (msg : DhmpMsg)
    → IsTyped msg
    → Apart msg.payload msg.data_size a (head_size + msg.data_size)
    → IsMessageAt (build_send m a msg) a m msg
unfolding build_send
build_send-IsMessageAt m a msg typed_ok apart =
    let typed : Memory = store 4 m a msg.msg_type in
    let sized : Memory = store64 typed (a + 4) msg.data_size in
    record {
      msg_type =
          load-memcpy-Apart 4 sized a (a + head_size) sized msg.payload msg.data_size (omega arith)
          ∙ load-store-Apart 4 typed a 8 (a + 4) msg.data_size (omega arith)
          ∙ load-store 4 m a msg.msg_type typed_ok.msg_type;
      data_size =
          load-memcpy-Apart 8 sized (a + 4) (a + head_size) sized msg.payload msg.data_size
            (omega arith)
          ∙ load-store 8 typed (a + 4) msg.data_size typed_ok.data_size;
      payload = Same-trans (Same-memcpy_in sized (a + head_size) sized msg.payload msg.data_size) (
          Same-store
            (Same-store (Same-refl msg.data_size m msg.payload) 4 a msg.msg_type
              (omega (arith, apart)))
            8 (a + 4) msg.data_size (omega (arith, apart)));
    }

IsMessageAt-copy :
    {m m' src : Memory} {a b : ℕ} {msg : DhmpMsg}
    → Same (head_size + msg.data_size) m' b m a
    → IsMessageAt m a src msg
    → IsMessageAt m' b src msg
IsMessageAt-copy {m} {m'} {src} {a} {b} {msg} same h = record {
  msg_type = load-Same 4 (Same-le same 4 (omega arith)) ∙ h.msg_type;
  data_size = load-Same 8 (Same-part same 4 8 (omega arith)) ∙ h.data_size;
  payload = Same-trans (Same-part same head_size msg.data_size (omega arith)) h.payload;
}

-- What a receiver reads from a buffer is the message.
pub record IsRead (got : DhmpMsg) (rm src : Memory) (msg : DhmpMsg) : Type 0 where
  pub msg_type : got.msg_type ≡ msg.msg_type
  pub data_size : got.data_size ≡ msg.data_size
  pub payload : Same msg.data_size rm got.payload src msg.payload

-- When the bytes of a message's task arrive in a receive buffer (behind the routing header in the
-- UD build), the receiver reads the message's type, its size and its data, provided that type and
-- size fit their C types and the data does not overlap the task's part of the send region.
pub read_message-send_task_create :
    (ud : Bool) (mr : DhmpMr) (m : Memory) (msg : DhmpMsg) (sge : DhmpSge) (mr' : DhmpMr)
    (m' rm : Memory) (a : ℕ)
    → IsTyped msg
    → send_task_create true mr m msg ≡ some (sge, mr', m')
    → Apart msg.payload msg.data_size sge.addr sge.length
    → Same sge.length rm (message_cxt ud a) m' sge.addr
    → IsRead (read_message ud rm a) rm m msg
unfolding send_task_create read_message
read_message-send_task_create ud mr m msg sge mr' m' rm a typed made apart arrived =
    let back = sym (some-injective _ _ made) in
    let clear =
      subst (λ (t : DhmpSge × DhmpMr × Memory). Apart msg.payload msg.data_size t.0.addr t.0.length)
        back apart in
    let same =
      subst (λ (t : DhmpSge × DhmpMr × Memory). Same t.0.length rm (message_cxt ud a) t.2 t.0.addr)
        back arrived in
    let pos : ℕ = mr.addr + send_pos mr (head_size + msg.data_size) in
    let got = IsMessageAt-copy same (build_send-IsMessageAt m pos msg typed clear) in
    record { msg_type = got.msg_type; data_size = got.data_size; payload = got.payload }
