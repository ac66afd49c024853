-- ===== src/Regions/Owned.antt =====
-- Which memory and which registrations the server holds: those of its areas.
use model_test.Prelude.{
  ℕ, ◌≡◌, ◌≢◌, ◌⊎◌, refl, inl, inr, Bool, true, false, Bool-cases, Option, none, some, List, [],
  ◌∷◌, ◌==◌, ◌||◌, arith,
}
use model_test.Regions.{
  Area, Server, erase, Supply, area_alloc, area_register, area_malloc, area_create, find_area,
  remove_area,
}

abbrev pub addrs : List Area → List ℕ
addrs [] = []
addrs (a ∷ rest) = a.addr ∷ addrs rest

abbrev pub lkeys : List Area → List ℕ
lkeys [] = []
lkeys (a ∷ rest) = a.lkey ∷ lkeys rest

unfoldable pub is_held : List ℕ → ℕ → Bool
is_held [] k = false
is_held (x ∷ xs) k = x == k || is_held xs k

-- No two areas have one address.
unfoldable pub NoRepeat : List ℕ → Type 0
NoRepeat [] = Unit
NoRepeat (x ∷ xs) = (is_held xs x ≡ false) × NoRepeat xs

-- The server holds exactly the memory and the registrations of its areas.
pub record IsOwned (s : Server) : Type 0 where
  pub memory : s.memory ≡ addrs s.area_list
  pub registered : s.registered ≡ lkeys s.area_list
  pub apart : NoRepeat (addrs s.area_list)

pub erase-lkeys : (l : List Area) (k : ℕ) → erase (lkeys l) k ≡ lkeys (remove_area l k)
unfolding erase remove_area
erase-lkeys [] k = refl
erase-lkeys (a ∷ rest) k = ground (arith, erase-lkeys rest k)

find_area-is_held :
    (l : List Area) (k : ℕ) (a : Area) → find_area l k ≡ some a → is_held (addrs l) a.addr ≡ true
unfolding find_area is_held
find_area-is_held [] k a e = absurd (ground (arith, e))
find_area-is_held (x ∷ l) k a e = ground (arith, e, find_area-is_held l k a)

pub find_area-lkey : (l : List Area) (k : ℕ) (a : Area) → find_area l k ≡ some a → a.lkey ≡ k
unfolding find_area
find_area-lkey [] k a e = absurd (ground (arith, e))
find_area-lkey (x ∷ l) k a e = ground (arith, e, find_area-lkey l k a)

pub erase-addrs :
    (l : List Area) (k : ℕ) (a : Area)
    → NoRepeat (addrs l)
    → find_area l k ≡ some a
    → erase (addrs l) a.addr ≡ addrs (remove_area l k)
unfolding erase remove_area find_area NoRepeat
erase-addrs [] k a d e = absurd (ground (arith, e))
erase-addrs (x ∷ l) k a d e = ground (arith, e, d.0, find_area-is_held l k a, erase-addrs l k a d.1)

remove_area-is_held :
    (l : List Area) (k x : ℕ)
    → is_held (addrs l) x ≡ false
    → is_held (addrs (remove_area l k)) x ≡ false
unfolding is_held remove_area
remove_area-is_held [] k x h = h
remove_area-is_held (a ∷ l) k x h = ground (arith, h, remove_area-is_held l k x)

pub remove_area-NoRepeat :
    (l : List Area) (k : ℕ) → NoRepeat (addrs l) → NoRepeat (addrs (remove_area l k))
unfolding NoRepeat remove_area
remove_area-NoRepeat [] k d = d
remove_area-NoRepeat (a ∷ l) k d = elim (Bool-cases (a.lkey == k)) [
  | inl e ↦ rw e d.1
  | inr e ↦ rw e (remove_area-is_held l k a.addr d.0, remove_area-NoRepeat l k d.1)
]

pub erase-head : (l : List ℕ) (k : ℕ) → erase (k ∷ l) k ≡ l
unfolding erase
erase-head l k = ground arith

-- `s` with an area more
abbrev pub extend : Area → Server → Server
extend a s = record s {
  area_list = a ∷ s.area_list;
  memory = a.addr ∷ s.memory;
  registered = a.lkey ∷ s.registered;
}

-- What dhmp_area_create does: the process ends, nothing is kept, or one area is added with the memory
-- and the registration that it was given.
pub data IsCreated (u : Supply) (n : ℕ) (s : Server) : Option (Server × Option Area) → Type 0 where
  ended : u.addr ≡ none → n ≢ 0 → IsCreated u n s none
  unchanged : (n ≡ 0) ⊎ (u.addr ≢ none) → IsCreated u n s (some (s, none))
  added :
      (a : Area)
      → a.size ≡ n
      → u.addr ≡ some a.addr
      → u.lkey ≡ some a.lkey
      → IsCreated u n s (some (extend a s, some a))

-- dhmp_area_create, whichever of its three allocations fail, ends the process, if there is no memory
-- for some bytes, or gives NULL and leaves the server as it was, with the memory and the registration
-- that it had taken released, or adds one area of the length asked for.
pub area_create-IsCreated :
    (addr lkey : Option ℕ) (area : Bool) (n : ℕ) (s : Server)
    → let u : Supply = record { addr = addr; lkey = lkey; area = area } in
      IsCreated u n s (area_create u n s)
unfolding area_create area_malloc area_register area_alloc
area_create-IsCreated none lkey area n s = elim (Bool-cases (n == 0)) [
  | inl e ↦ rw e (unchanged (inl (ground (arith, e))))
  | inr e ↦ rw e (ended refl (ground (arith, e)))
]
area_create-IsCreated (some x) none area n s =
    rw (erase-head s.memory x) (unchanged (inr (λ e. absurd (ground (arith, e)))))
area_create-IsCreated (some x) (some k) true n s =
    added (record { lkey = k; addr = x; size = n }) refl refl refl
area_create-IsCreated (some x) (some k) false n s =
    rw (erase-head s.memory x, erase-head s.registered k)
      (unchanged (inr (λ e. absurd (ground (arith, e)))))
