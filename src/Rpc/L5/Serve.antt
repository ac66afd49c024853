-- ===== src/Rpc/L5/Serve.antt =====
-- What `amper_L5_request_handler` does for a message: the data that it moves and its reply.
use model_test.Prelude.{◌+◌, ◌^◌, ◌<◌, ◌≡◌, ◌∙◌, arith}
use model_test.Memory.{Memory, store_byte, memcpy, load64, store64, Apart, Same}
use model_test.Memory.Laws.{
  store_byte_self, store_out, load-store, load-store-Apart, Same-refl, Same-trans, Same-memcpy_in,
  Same-memcpy, Same-store, Same-store_byte,
}
use model_test.Rpc.L5.{L5Work, L5Message, head_bytes, serve_data, serve_message}
use model_test.Rpc.L5.Message.{IsMessage}

-- The target of the call, the reply buffer and the message buffer of the server do not overlap.
pub record IsPlaced (g : L5Message) (w : L5Work) : Type 0 where
  pub target_reply : Apart w.dhmp_addr w.length g.reply_smr (w.length + 10)
  pub target_message : Apart w.dhmp_addr w.length g.addr (head_bytes + w.length)
  pub reply_message : Apart g.reply_smr (w.length + 10) g.addr (head_bytes + w.length)

-- the memory from which the reply is sent
abbrev pub answered : L5Message → Memory → Memory
answered g m = store64 (serve_message g m) g.addr 0

module _ {g : L5Message} {w : L5Work} {src m : Memory} (msg : IsMessage w src m g.addr)
    (placed : IsPlaced g w) where
  open msg use {addr, size, flag, payload}

  module _ (write : w.flag_write ≡ 1) where
    flag_one : m (g.addr + 16) ≡ 1
    flag_one = flag ∙ write

    served_write :
        serve_message g m
        ≡ store64
            (store_byte
              (store_byte (memcpy m w.dhmp_addr m (g.addr + 17) w.length) g.reply_smr 1)
              (g.reply_smr + 1)
              1)
            (g.reply_smr + 1 + 1)
            w.length
    unfolding serve_message serve_data
    served_write = rw (addr, size, flag_one)

    pub answered_write-target : Same w.length (answered g m) w.dhmp_addr src w.local_addr
    answered_write-target = rw served_write (
        Same-store
          (Same-store
            (Same-store_byte
              (Same-store_byte
                (Same-trans (Same-memcpy_in m w.dhmp_addr m (g.addr + 17) w.length) (payload write))
                g.reply_smr 1 (omega (arith, placed.target_reply)))
              (g.reply_smr + 1) 1 (omega (arith, placed.target_reply)))
            8 (g.reply_smr + 1 + 1) w.length (omega (arith, placed.target_reply)))
          8 g.addr 0 (omega (arith, placed.target_message)))

    pub answered_write-flag : answered g m (g.reply_smr + 1) ≡ 1
    answered_write-flag = rw served_write (
        store_out 8 _ g.addr 0 (g.reply_smr + 1) (omega (arith, placed.reply_message))
        ∙ store_out 8 _ (g.reply_smr + 1 + 1) w.length (g.reply_smr + 1) (omega arith)
        ∙ store_byte_self _ (g.reply_smr + 1) 1)

  module _ (read : w.flag_write ≡ 0) where
    flag_zero : m (g.addr + 16) ≡ 0
    flag_zero = flag ∙ read

    served_read :
        serve_message g m
        ≡ store64
            (store_byte (memcpy m g.reply_smr m w.dhmp_addr w.length) (g.reply_smr + w.length) 1)
            (g.reply_smr + w.length + 1)
            w.length
    unfolding serve_message serve_data
    served_read = rw (addr, size, flag_zero)

    pub answered_read-data : Same w.length (answered g m) g.reply_smr m w.dhmp_addr
    answered_read-data = rw served_read (
        Same-store
          (Same-store
            (Same-store_byte (Same-memcpy_in m g.reply_smr m w.dhmp_addr w.length)
              (g.reply_smr + w.length) 1 (omega arith))
            8 (g.reply_smr + w.length + 1) w.length (omega arith))
          8 g.addr 0 (omega (arith, placed.reply_message)))

    pub answered_read-flag : answered g m (g.reply_smr + w.length) ≡ 1
    answered_read-flag = rw served_read (
        store_out 8 _ g.addr 0 (g.reply_smr + w.length) (omega (arith, placed.reply_message))
        ∙ store_out 8 _ (g.reply_smr + w.length + 1) w.length (g.reply_smr + w.length) (omega arith)
        ∙ store_byte_self _ (g.reply_smr + w.length) 1)

    pub answered_read-size :
        w.length < 256 ^ 8 → load64 (answered g m) (g.reply_smr + w.length + 1) ≡ w.length
    answered_read-size fits = rw served_read (
        load-store-Apart 8 _ (g.reply_smr + w.length + 1) 8 g.addr 0
          (omega (arith, placed.reply_message))
        ∙ load-store 8 _ (g.reply_smr + w.length + 1) w.length fits)

    -- A read leaves the data that it asks for.
    pub answered_read-target : Same w.length (answered g m) w.dhmp_addr m w.dhmp_addr
    answered_read-target = rw served_read (
        Same-store
          (Same-store
            (Same-store_byte
              (Same-memcpy (Same-refl w.length m w.dhmp_addr) g.reply_smr m w.dhmp_addr w.length
                (omega (arith, placed.target_reply)))
              (g.reply_smr + w.length) 1 (omega (arith, placed.target_reply)))
            8 (g.reply_smr + w.length + 1) w.length (omega (arith, placed.target_reply)))
          8 g.addr 0 (omega (arith, placed.target_message)))
