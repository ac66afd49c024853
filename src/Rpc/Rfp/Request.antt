-- ===== src/Rpc/Rfp/Request.antt =====
-- What an RFP request holds, in the client's buffer and in the server's.
use model_test.Prelude.{
  ℕ, ◌+◌, ◌^◌, ◌≤◌, ◌<◌, ◌≡◌, ap, ◌∙◌, Bool, true, false, arith, inl, inr, Bool-cases,
}
use native.Mathlib.Nat.{add-zero}
use model_test.Memory.{Memory, store_byte, memcpy, load64, store64, Same}
use model_test.Memory.Laws.{
  store_byte_self, store_byte_ne, store_out, load-Same, load-store, load-store-Apart,
  load-store_byte-Apart, Same-refl, Same-trans, Same-memcpy_in, Same-store, Same-store_byte,
  Same-part, Same-le,
}
use model_test.Rpc.Rfp.{RfpClient, RfpWork, build_request, request_at, head_size}

abbrev pub write_flag : Bool → ℕ
write_flag true = 1
write_flag false = 0

-- The buffer at `a` of `m` holds a new request for `w`, with the data that `src` has.
pub record IsRequest (w : RfpWork) (src m : Memory) (a : ℕ) : Type 0 where
  pub flag : m (a + w.length) ≡ write_flag w.is_write
  pub addr : load64 m (a + w.length + 1) ≡ w.dhmp_addr
  pub valid : m (a + w.length + 17) ≡ 1
  pub payload : w.is_write ≡ true → Same w.length m a src w.local_addr

-- The address fits its field.
abbrev pub Fits : RfpWork → Type 0
Fits w = w.dhmp_addr < 256 ^ 8

-- the head behind the data, at `t` of a memory `m`
head : Memory → ℕ → ℕ → RfpWork → Memory
head m t flag w =
    store_byte (store64 (store64 (store_byte m t flag) (t + 1) w.dhmp_addr) (t + 9) w.length)
      (t + 17) 1

module _ (m : Memory) (t flag : ℕ) (w : RfpWork) where
  head_flag : head m t flag w t ≡ flag
  unfolding head
  head_flag =
      store_byte_ne _ (t + 17) 1 t (omega arith)
      ∙ store_out 8 _ (t + 9) w.length t (omega arith)
      ∙ store_out 8 _ (t + 1) w.dhmp_addr t (omega arith)
      ∙ store_byte_self m t flag

  head_addr : Fits w → load64 (head m t flag w) (t + 1) ≡ w.dhmp_addr
  unfolding head
  head_addr fits =
      load-store_byte-Apart 8 _ (t + 1) (t + 17) 1 (omega arith)
      ∙ load-store-Apart 8 _ (t + 1) 8 (t + 9) w.length (omega arith)
      ∙ load-store 8 _ (t + 1) w.dhmp_addr fits

  head_valid : head m t flag w (t + 17) ≡ 1
  unfolding head
  head_valid = store_byte_self _ (t + 17) 1

  head_below : (n a : ℕ) → a + n ≤ t → Same n (head m t flag w) a m a
  unfolding head
  head_below n a h =
      Same-store_byte
        (Same-store
          (Same-store (Same-store_byte (Same-refl n m a) t flag (omega arith)) 8 (t + 1) w.dhmp_addr
            (omega arith))
          8 (t + 9) w.length (omega arith))
        (t + 17) 1 (omega arith)

module _ (c : RfpClient) (w : RfpWork) (src m : Memory) (fits : Fits w) where
  written : Memory
  written = memcpy src c.local_smr src w.local_addr w.length

  write_arrives :
      w.is_write ≡ true
      → Same (18 + w.length) m c.write_mr (head written (c.local_smr + w.length) 1 w) c.local_smr
      → IsRequest w src m c.write_mr
  unfolding written
  write_arrives e same = record {
    flag = rw e (same.at w.length (omega arith) ∙ head_flag written t 1 w);
    addr =
        ap (load64 m) (omega arith)
        ∙ load-Same 8 (Same-part same (w.length + 1) 8 (omega arith))
        ∙ ap (load64 (head written t 1 w)) (omega arith)
        ∙ head_addr written t 1 w fits;
    valid =
        ap m (omega arith)
        ∙ same.at (w.length + 17) (omega arith)
        ∙ ap (head written t 1 w) (omega arith)
        ∙ head_valid written t 1 w;
    payload = λ _. Same-trans (Same-le same w.length (omega arith)) (
        Same-trans (head_below written t 1 w w.length c.local_smr (omega arith))
          (Same-memcpy_in src c.local_smr src w.local_addr w.length));
  }
    where
      t : ℕ
      t = c.local_smr + w.length

  read_arrives :
      w.is_write ≡ false
      → Same 18 m (c.write_mr + w.length) (head src c.local_smr 0 w) c.local_smr
      → IsRequest w src m c.write_mr
  read_arrives e same = record {
    flag = rw e (
        ap m (omega arith)
        ∙ same.at 0 (omega arith)
        ∙ ap (head src c.local_smr 0 w) (omega arith)
        ∙ head_flag src c.local_smr 0 w);
    addr = load-Same 8 (Same-part same 1 8 (omega arith)) ∙ head_addr src c.local_smr 0 w fits;
    valid = same.at 17 (omega arith) ∙ head_valid src c.local_smr 0 w;
    payload = λ f. absurd (ground arith);
  }

  -- When the built bytes have reached the server's buffer, it holds the request.
  pub IsRequest-arrives :
      Same (head_size w) m (request_at c w) (build_request c w src) c.local_smr
      → IsRequest w src m c.write_mr
  unfolding build_request head written
  IsRequest-arrives same = elim (Bool-cases w.is_write) [
    | inl e ↦ write_arrives e (rw e at same)
    | inr e ↦ read_arrives e (rw (add-zero c.local_smr) at (rw e at same))
  ]
