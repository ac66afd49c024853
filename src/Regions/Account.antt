-- ===== src/Regions/Account.antt =====
-- What malloc and free requests do to the server, one by one and in any sequence.
use model_test.Prelude.{
  ℕ, ◌+◌, ◌-◌, ◌%◌, ◌^◌, ◌≤◌, ◌<◌, ◌≡◌, ◌≢◌, ◌⊎◌, refl, sym, ap, ◌∙◌, inl, inr, false, Bool-cases,
  Option, none, some, ◌>>=◌, Option-cases, [], ◌∷◌, leb, arith,
}
use mathlib.Core.Path.{subst}
use model_test.Regions.{
  Area, Server, single_area_size, erase, Supply, area_create, McReply, granted, unset, refused,
  count_used, answer_malloc, malloc_request_handler, find_area, release_area, free_one_area,
  uncount_used, free_request_handler,
}
use model_test.Regions.Owned.{
  lkeys, is_held, NoRepeat, IsOwned, erase-lkeys, erase-addrs, find_area-lkey, remove_area-NoRepeat,
  extend, IsCreated, ended, unchanged, added, area_create-IsCreated,
}

-- `malloc` gives memory that the server does not hold yet.
abbrev pub IsFresh : Supply → Server → Type 0
IsFresh u s = (a : ℕ) → u.addr ≡ some a → is_held s.memory a ≡ false

-- The server that a malloc request leaves, if the process goes on.
abbrev pub AllLeft : {A : Type 0} → (Server → Type 0) → Option (Server × A) → Type 0
AllLeft P (some (s, a)) = P s
AllLeft P none = Unit

answer-IsOwned :
    {u : Supply} {n : ℕ} {s : Server} (r : Option (Server × Option Area))
    → IsCreated u n s r
    → IsFresh u s
    → IsOwned s
    → AllLeft IsOwned (r >>= (λ r. some (answer_malloc r)))
unfolding answer_malloc count_used NoRepeat
answer-IsOwned _ (ended null some_bytes) fresh o = tt
answer-IsOwned _ (unchanged why) fresh o = o
answer-IsOwned {u} {n} {s} _ (added a size at key) fresh o = record {
  memory = ap (λ l. a.addr ∷ l) o.memory;
  registered = ap (λ l. a.lkey ∷ l) o.registered;
  apart = (ap (λ l. is_held l a.addr) (sym o.memory) ∙ fresh a.addr at, o.apart);
}

malloc-IsOwned :
    (u : Supply) (junk n : ℕ) (s : Server)
    → IsFresh u s
    → IsOwned s
    → AllLeft IsOwned (malloc_request_handler u junk n s)
unfolding malloc_request_handler count_used
malloc-IsOwned u junk n s fresh o = elim (Bool-cases (leb n single_area_size)) [
  | inl e ↦
      rw e (
        answer-IsOwned (area_create u n s) (area_create-IsCreated u.addr u.lkey u.area n s) fresh o)
  | inr e ↦ rw e (record { memory = o.memory; registered = o.registered; apart = o.apart })
]

release-IsOwned : (k : ℕ) (s : Server) → IsOwned s → IsOwned (free_one_area k s)
unfolding free_one_area release_area
release-IsOwned k s o = elim (Option-cases (find_area s.area_list k)) [
  | inl e ↦ rw e o
  | inr (a, e) ↦ rw e (record {
    memory = ap (λ l. erase l a.addr) o.memory ∙ erase-addrs s.area_list k a o.apart e;
    registered =
        ap (λ l. erase l a.lkey) o.registered
        ∙ ap (erase (lkeys s.area_list)) (find_area-lkey s.area_list k a e)
        ∙ erase-lkeys s.area_list k;
    apart = remove_area-NoRepeat s.area_list k o.apart;
  })
]

free-IsOwned : (k n : ℕ) (s : Server) → IsOwned s → IsOwned (free_request_handler k n s)
unfolding free_request_handler uncount_used
free-IsOwned k n s o =
    release-IsOwned k (uncount_used n s)
      (record { memory = o.memory; registered = o.registered; apart = o.apart })

-- Any requests of the client, one after the other, as long as the process goes on.
pub data Reachable : Server → Type 0 where
  start : Reachable (record { area_list = []; nvm_used_size = 0; memory = []; registered = [] })
  malloc :
      {s s' : Server} (u : Supply) (junk n : ℕ) (reply : McReply)
      → Reachable s
      → IsFresh u s
      → malloc_request_handler u junk n s ≡ some (s', reply)
      → Reachable s'
  free :
      {s : Server} (lkey length : ℕ) → Reachable s → Reachable (free_request_handler lkey length s)

-- After any sequence of malloc requests, of any size and with any of the allocations failing, as
-- long as the process goes on, and of free requests, also for regions that the server does not
-- have, the memory and the registrations that the server holds are those of its areas, and no
-- memory is held twice, provided that the memory which an allocation gives is not held already.
pub Reachable-IsOwned : {s : Server} → Reachable s → IsOwned s
unfolding NoRepeat
Reachable-IsOwned start = record { memory = refl; registered = refl; apart = tt }
Reachable-IsOwned (malloc {s} u junk n reply r fresh ran) =
    subst (AllLeft IsOwned) ran (malloc-IsOwned u junk n s fresh (Reachable-IsOwned r))
Reachable-IsOwned (free {s} lkey length r) = free-IsOwned lkey length s (Reachable-IsOwned r)

-- What a malloc request does, by how it ends.
pub data IsAnswered (u : Supply) (n : ℕ) (s : Server) : Option (Server × McReply) → Type 0 where
  crash : n ≤ single_area_size → u.addr ≡ none → n ≢ 0 → IsAnswered u n s none
  error : n ≤ single_area_size → (n ≡ 0) ⊎ (u.addr ≢ none) → IsAnswered u n s (some (s, refused))
  area :
      (a : Area)
      → n ≤ single_area_size
      → a.size ≡ n
      → u.addr ≡ some a.addr
      → u.lkey ≡ some a.lkey
      → IsAnswered u n s (some (count_used n (extend a s), granted a))
  junk_area : (junk : ℕ) → single_area_size < n → IsAnswered u n s (some (count_used junk s, unset))

count_changes : (u n : ℕ) → 0 < n → n < 2 ^ 64 → u < 2 ^ 64 → (u + (2 ^ 64 - n)) % 2 ^ 64 ≢ u
count_changes u n some_bytes fits used e = absurd (omega (arith, e))

-- A free request for some bytes of a region that the server does not have, as after a second free
-- of one region, changes no area and yet changes the count of used bytes, both being 64-bit
-- numbers.
pub free_unknown-count :
    (k n : ℕ) (s : Server)
    → find_area s.area_list k ≡ none
    → 0 < n
    → n < 2 ^ 64
    → s.nvm_used_size < 2 ^ 64
    → ((free_request_handler k n s).area_list ≡ s.area_list)
      × ((free_request_handler k n s).nvm_used_size ≢ s.nvm_used_size)
unfolding free_request_handler uncount_used free_one_area release_area
free_unknown-count k n s unknown some_bytes fits used =
    (rw unknown refl, rw unknown (count_changes s.nvm_used_size n some_bytes fits used))
