-- ===== src/Rpc/L5/Message.antt =====
-- What the message of an L5 call holds, in the client's buffer and in the server's.
use model_test.Prelude.{ℕ, ◌+◌, ◌^◌, ◌≤◌, ◌<◌, ◌≡◌, ◌∙◌, ◌⊎◌, inl, inr, arith, ◌==◌, Bool-cases}
use model_test.Memory.{Memory, load64, store64, Apart, Same}
use model_test.Memory.Laws.{
  store_byte_self, store_byte_ne, store_out, memcpy_out, load-Same, load-store, load-store-Apart,
  load-store_byte-Apart, load-memcpy-Apart, Same-refl, Same-trans, Same-memcpy_in, Same-store,
  Same-store_byte, Same-part, Same-le,
}
use model_test.Rpc.L5.{L5Client, L5Work, head_bytes, build_header, build_message, message_size}

-- The message at `a` of `m` asks for the work `w`, whose data are those in `src`.
pub record IsMessage (w : L5Work) (src m : Memory) (a : ℕ) : Type 0 where
  pub addr : load64 m a ≡ w.dhmp_addr
  pub size : load64 m (a + 8) ≡ w.length
  pub flag : m (a + 16) ≡ w.flag_write
  pub payload : w.flag_write ≡ 1 → Same w.length m (a + head_bytes) src w.local_addr

-- The values that the header carries fit its fields, and the client's buffers do not overlap.
pub record IsSendable (c : L5Client) (w : L5Work) : Type 0 where
  pub addr_fits : w.dhmp_addr < 256 ^ 8
  pub size_fits : w.length < 256 ^ 8
  pub staged : Apart w.local_addr w.length c.local_smr1 (head_bytes + w.length)

module _ (c : L5Client) (w : L5Work) (m : Memory) (fits : IsSendable c w) where
  header_addr : load64 (build_header c w m) c.local_smr1 ≡ w.dhmp_addr
  unfolding build_header
  header_addr =
      load-store_byte-Apart 8 _ c.local_smr1 (c.local_smr1 + 16) w.flag_write (omega arith)
      ∙ load-store-Apart 8 _ c.local_smr1 8 (c.local_smr1 + 8) w.length (omega arith)
      ∙ load-store 8 m c.local_smr1 w.dhmp_addr fits.addr_fits

  header_size : load64 (build_header c w m) (c.local_smr1 + 8) ≡ w.length
  unfolding build_header
  header_size =
      load-store_byte-Apart 8 _ (c.local_smr1 + 8) (c.local_smr1 + 16) w.flag_write (omega arith)
      ∙ load-store 8 _ (c.local_smr1 + 8) w.length fits.size_fits

  header_flag : build_header c w m (c.local_smr1 + 16) ≡ w.flag_write
  unfolding build_header
  header_flag = store_byte_self _ (c.local_smr1 + 16) w.flag_write

  header_data : Same w.length (build_header c w m) w.local_addr m w.local_addr
  unfolding build_header
  header_data =
      Same-store_byte
        (Same-store
          (Same-store (Same-refl w.length m w.local_addr) 8 c.local_smr1 w.dhmp_addr apart) 8
          (c.local_smr1 + 8) w.length apart8)
        (c.local_smr1 + 16) w.flag_write apart16
    where
      apart : Apart w.local_addr w.length c.local_smr1 8
      apart = omega (arith, fits.staged)

      apart8 : Apart w.local_addr w.length (c.local_smr1 + 8) 8
      apart8 = omega (arith, fits.staged)

      apart16 : Apart w.local_addr w.length (c.local_smr1 + 16) 1
      apart16 = omega (arith, fits.staged)

  pub build_message-IsMessage : IsMessage w m (build_message c w m) c.local_smr1
  unfolding build_message
  build_message-IsMessage = elim (Bool-cases (w.flag_write == 1)) [
    | inl e ↦ rw e (record {
      addr =
          load-memcpy-Apart 8 _ c.local_smr1 (c.local_smr1 + 17) _ w.local_addr w.length
            (omega arith)
          ∙ header_addr;
      size =
          load-memcpy-Apart 8 _ (c.local_smr1 + 8) (c.local_smr1 + 17) _ w.local_addr w.length
            (omega arith)
          ∙ header_size;
      flag =
          memcpy_out _ (c.local_smr1 + 17) _ w.local_addr w.length (c.local_smr1 + 16) (omega arith)
          ∙ header_flag;
      payload = λ f.
          Same-trans (Same-memcpy_in _ (c.local_smr1 + 17) _ w.local_addr w.length) header_data;
    })
    | inr e ↦ rw e (record {
      addr = header_addr;
      size = header_size;
      flag = header_flag;
      payload = λ f. absurd (ground arith);
    })
  ]

-- A copy of the message's bytes is the same message.
pub IsMessage-copy :
    {w : L5Work} {src m m' : Memory} {a b : ℕ}
    → IsMessage w src m a
    → Same (message_size w) m' b m a
    → IsMessage w src m' b
IsMessage-copy {w} {a} {b} g same = record {
  addr = load-Same 8 (Same-le same 8 (ground arith)) ∙ g.addr;
  size = load-Same 8 (Same-part same 8 8 (ground arith)) ∙ g.size;
  flag = same.at 16 (ground arith) ∙ g.flag;
  payload = λ f. Same-trans (Same-part same 17 w.length (ground arith)) (g.payload f);
}

pub message_size-le : (w : L5Work) → message_size w ≤ head_bytes + w.length
message_size-le w = ground arith

-- The message is built in the staging buffer, and nowhere else.
pub build_message_out :
    (c : L5Client) (w : L5Work) (m : Memory) (x : ℕ)
    → (x < c.local_smr1) ⊎ (c.local_smr1 + (head_bytes + w.length) ≤ x)
    → build_message c w m x ≡ m x
unfolding build_message build_header
build_message_out c w m x h = ground (
  arith,
  memcpy_out (build_header c w m) (c.local_smr1 + 17) (build_header c w m) w.local_addr w.length x,
  store_byte_ne (store64 (store64 m c.local_smr1 w.dhmp_addr) (c.local_smr1 + 8) w.length)
      (c.local_smr1 + 16) w.flag_write x,
  store_out 8 (store64 m c.local_smr1 w.dhmp_addr) (c.local_smr1 + 8) w.length x,
  store_out 8 m c.local_smr1 w.dhmp_addr x,
)
