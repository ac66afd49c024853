-- ===== src/Client/Slots/Ring.antt =====
-- Which slots are taken while requests are out.
use model_test.Prelude.{
  ℕ, suc, ◌+◌, ◌-◌, ◌%◌, ◌≤◌, ◌<◌, ◌≡◌, refl, sym, ap, ◌∙◌, Bool, true, false, ◌&&◌, ◌||◌,
  Bool-cases, none, some, inl, inr, ◌⊎◌, ltb, leb, if◌then◌else◌, ◌==◌, arith,
}
use mathlib.Core.Path.{subst}
use mathlib.Core.Option.{some-injective}
use native.Mathlib.Nat.{mod-eq_of_lt, mod_self}
use model_test.Client.Slots.{Slots, new_slots, take_slot, free_slot}

le-cases : (k n : ℕ) → k ≤ n → (k < n) ⊎ (k ≡ n)
le-cases k n h = ground arith

-- With `k` requests out, the slots from `ccur` on, around the end, are taken.
abbrev pub is_taken : (number ccur k i : ℕ) → Bool
is_taken number ccur k i = (leb ccur i && ltb i (ccur + k)) || ltb (i + number) (ccur + k)

pub record IsRing (number : ℕ) (s : Slots) (k : ℕ) : Type 0 where
  pub count : k ≤ number
  pub cursor : s.ccur < number
  pub next : s.scur ≡ (if ltb (s.ccur + k) number then s.ccur + k else s.ccur + k - number)
  pub taken :
      (i : ℕ) → i < number → s.is_available i ≡ (if is_taken number s.ccur k i then 0 else 1)

pub next_index :
    (number i : ℕ) → i < number → (i + 1) % number ≡ (if ltb (i + 1) number then i + 1 else 0)
next_index number i h = elim (Bool-cases (ltb (i + 1) number)) [
  | inl e ↦ rw e (mod-eq_of_lt (ground (arith, e)))
  | inr e ↦
      let last : i + 1 ≡ number = ground (arith, h, e) in
      rw e (ap (λ n. n % number) last ∙ mod_self number)
]

pub new_slots-IsRing : (number : ℕ) → 0 < number → IsRing number new_slots 0
unfolding new_slots
new_slots-IsRing number h = record {
  count = omega arith;
  cursor = h;
  next = ground arith;
  taken = λ i p. ground arith;
}

-- the slots after one is taken
abbrev pub taking : ℕ → Slots → Slots
taking number s = record s {
  is_available = λ i. if i == s.scur then 0 else s.is_available i;
  scur = (s.scur + 1) % number;
}

module _ (number : ℕ) (s : Slots) (k : ℕ) (ring : IsRing number s k) where
  pub scur_below : s.scur < number
  scur_below = ground (arith, ring.next, ring.count, ring.cursor)

  pub taking-IsRing : k < number → IsRing number (taking number s) (suc k)
  taking-IsRing room = record {
    count = room;
    cursor = ring.cursor;
    next = ground (arith, next_index number s.scur scur_below, ring.next, ring.cursor);
    taken = λ i p. ground (arith, ring.next, ring.cursor, ring.taken i p);
  }

  room_available : k < number → s.is_available s.scur ≡ 1
  room_available room = ground (arith, ring.next, ring.cursor, ring.taken s.scur scur_below)

  full_taken : k ≡ number → s.is_available s.scur ≡ 0
  full_taken full = ground (arith, ring.next, ring.cursor, ring.taken s.scur scur_below)

-- the slots after the reply to the oldest request
abbrev pub freeing : ℕ → Slots → Slots
freeing number s = record s {
  is_available = λ i. if i == s.ccur then 1 else s.is_available i;
  ccur = (s.ccur + 1) % number;
}

pub freeing-IsRing :
    (number : ℕ) (s : Slots) (k : ℕ) → IsRing number s (suc k) → IsRing number (freeing number s) k
freeing-IsRing number s k ring = record {
  count = omega (arith, ring.count);
  cursor = ground (arith, next_index number s.ccur ring.cursor, ring.cursor);
  next = ground (arith, next_index number s.ccur ring.cursor, ring.next, ring.count, ring.cursor);
  taken = λ i p.
      ground (arith, next_index number s.ccur ring.cursor, ring.count, ring.cursor, ring.taken i p);
}

-- What a round of a call's loop does when `k` requests are out.
pub record IsTaken (number : ℕ) (s : Slots) (k : ℕ) : Type 0 where
  pub full : k ≡ number → take_slot true number s ≡ none
  pub room :
      k < number
      → (s' : Slots) × (take_slot true number s ≡ some (s.scur, s'))
        × (is_taken number s.ccur k s.scur ≡ false)
        × IsRing number s' (suc k)

-- With the cursors advancing and the slots in order, a round of a call's loop gets no slot when
-- as many requests are out as there are slots, and when fewer are out gets one that none of them
-- has, and leaves the slots in order with one request more.
pub take_slot-IsTaken : (number : ℕ) (s : Slots) (k : ℕ) → IsRing number s k → IsTaken number s k
unfolding take_slot
take_slot-IsTaken number s k ring = record {
  full = λ e. ground (arith, full_taken number s k ring e);
  room = λ h.
      let free : (s.is_available s.scur == 0) ≡ false =
        ground (arith, room_available number s k ring h) in
      (
        taking number s,
        rw free refl,
        ground (arith, ring.next, ring.cursor),
        taking-IsRing number s k ring h,
      );
}

-- The slots and the number of requests that are out, through any sequence of requests and replies.
pub data Reachable (number : ℕ) : Slots → ℕ → Type 0 where
  start : Reachable number new_slots 0
  take :
      {s s' : Slots} {k cur : ℕ}
      → Reachable number s k
      → take_slot true number s ≡ some (cur, s')
      → Reachable number s' (suc k)
  reply :
      {s : Slots} {k : ℕ}
      → Reachable number s (suc k)
      → Reachable number (free_slot true number s) k

pub took :
    (number : ℕ) (s s' : Slots) (k cur : ℕ)
    → IsRing number s k
    → take_slot true number s ≡ some (cur, s')
    → IsRing number s' (suc k)
took number s s' k cur ring e = elim (le-cases k number ring.count) [
  | inl h ↦
      let (s1, e1, _, after) = (take_slot-IsTaken number s k ring).room h in
      subst (λ (t : ℕ × Slots). IsRing number t.1 (suc k)) (some-injective _ _ (sym e1 ∙ e)) after
  | inr h ↦ absurd (grind (arith, (take_slot-IsTaken number s k ring).full h, e))
]

-- A round that takes a slot takes the one at the cursor, when there is room.
pub took_at :
    (number : ℕ) (s s' : Slots) (k cur : ℕ)
    → IsRing number s k
    → take_slot true number s ≡ some (cur, s')
    → (k < number) × (cur ≡ s.scur) × (s' ≡ taking number s)
unfolding take_slot
took_at number s s' k cur ring e = elim (le-cases k number ring.count) [
  | inl h ↦
      let free : (s.is_available s.scur == 0) ≡ false =
        ground (arith, room_available number s k ring h) in
      let at : take_slot true number s ≡ some (s.scur, taking number s) = rw free refl in
      let same = some-injective _ _ (sym e ∙ at) in
      (h, ap (λ (t : ℕ × Slots). t.0) same, ap (λ (t : ℕ × Slots). t.1) same)
  | inr h ↦ absurd (grind (arith, (take_slot-IsTaken number s k ring).full h, e))
]

pub free_slot-freeing : (number : ℕ) (s : Slots) → free_slot true number s ≡ freeing number s
unfolding free_slot
free_slot-freeing number s = refl

-- Through any sequence of requests and of replies to the oldest request, with one slot or more
-- and the cursors advancing, the slots that are not available are as many as the requests that
-- are out, at most all, and follow each other from Ccur around the array to Scur.
pub Reachable-IsRing :
    {number : ℕ} {s : Slots} {k : ℕ} → 0 < number → Reachable number s k → IsRing number s k
unfolding free_slot
Reachable-IsRing {number} some_slot start = new_slots-IsRing number some_slot
Reachable-IsRing {number} some_slot (take {s} {s'} {k} {cur} r e) =
    took number s s' k cur (Reachable-IsRing some_slot r) e
Reachable-IsRing {number} some_slot (reply {s} {k} r) =
    freeing-IsRing number s k (Reachable-IsRing some_slot r)
