-- ===== src/AddrTable/Laws.antt =====
-- The table as a map from addresses to entries.
use model_test.Prelude.{
  ℕ, ◌<◌, ◌≡◌, ◌≢◌, refl, Option, none, some, [], ◌∷◌, arith, ◌==◌, if◌then◌else◌, Bool-cases,
  ==_iff, inl, inr, ap,
}
use model_test.AddrTable.{
  empty_table, AddrInfo, Chain, Table, ht_size, hash_in_client, get_addr_info, hlist_del, change,
  set_chain, insert_ht, find, delete, change_at,
}

-- The index is within the array.
pub hash_in_client-lt : (hash : ℕ → ℕ) (a : ℕ) → hash_in_client hash a < ht_size
unfolding hash_in_client
hash_in_client-lt hash a = omega arith

-- No two entries of a chain have one address.
pub IsDistinct : Chain → Type 0
IsDistinct [] = Unit
IsDistinct (i ∷ rest) = (get_addr_info rest i.addr ≡ none) × IsDistinct rest

-- Every chain is so, and every entry stands in the chain of its address.
pub AllHashed : (ℕ → ℕ) → ℕ → Chain → Type 0
AllHashed hash k [] = Unit
AllHashed hash k (i ∷ rest) = (hash_in_client hash i.addr ≡ k) × AllHashed hash k rest

get-hlist_del_self :
    (chain : Chain) (a : ℕ) → IsDistinct chain → get_addr_info (hlist_del chain a) a ≡ none
unfolding get_addr_info hlist_del IsDistinct
get-hlist_del_self [] a d = refl
get-hlist_del_self (i ∷ rest) a d = ground (arith, get-hlist_del_self rest a d.1)

get-hlist_del_ne :
    (chain : Chain) (a b : ℕ) → a ≢ b → get_addr_info (hlist_del chain a) b ≡ get_addr_info chain b
unfolding get_addr_info hlist_del
get-hlist_del_ne [] a b h = refl
get-hlist_del_ne (i ∷ rest) a b h = ground (arith, get-hlist_del_ne rest a b h)

abbrev pub map_found : (AddrInfo → AddrInfo) → Option AddrInfo → Option AddrInfo
map_found f none = none
map_found f (some i) = some (f i)

-- A change of an entry keeps its address.
abbrev pub KeepsAddr : (AddrInfo → AddrInfo) → Type 0
KeepsAddr f = (i : AddrInfo) → (f i).addr ≡ i.addr

module _ (f : AddrInfo → AddrInfo) (keeps : KeepsAddr f) where
  get-change :
      (chain : Chain) (a b : ℕ)
      → get_addr_info (change f chain a) b
        ≡ (if a == b then map_found f (get_addr_info chain b) else get_addr_info chain b)
  unfolding get_addr_info change
  get-change [] a b = ground arith
  get-change (i ∷ rest) a b = ground (arith, keeps i, get-change rest a b)

  change-IsDistinct : (chain : Chain) (a : ℕ) → IsDistinct chain → IsDistinct (change f chain a)
  unfolding get_addr_info change IsDistinct
  change-IsDistinct [] a d = d
  change-IsDistinct (i ∷ rest) a d = elim (Bool-cases (i.addr == a)) [
    | inl e ↦ rw (e, keeps i) d
    | inr e ↦ rw e (ground (arith, get-change rest a i.addr, d.0), change-IsDistinct rest a d.1)
  ]

  change-AllHashed :
      (hash : ℕ → ℕ) (k : ℕ) (chain : Chain) (a : ℕ)
      → AllHashed hash k chain
      → AllHashed hash k (change f chain a)
  unfolding change AllHashed
  change-AllHashed hash k [] a d = d
  change-AllHashed hash k (i ∷ rest) a d = elim (Bool-cases (i.addr == a)) [
    | inl e ↦ rw (e, keeps i) d
    | inr e ↦ rw e (d.0, change-AllHashed hash k rest a d.1)
  ]

get-hlist_del-none :
    (chain : Chain) (a b : ℕ)
    → get_addr_info chain b ≡ none
    → get_addr_info (hlist_del chain a) b ≡ none
unfolding get_addr_info hlist_del
get-hlist_del-none [] a b h = refl
get-hlist_del-none (i ∷ rest) a b h = ground (arith, get-hlist_del-none rest a b)

hlist_del-IsDistinct : (chain : Chain) (a : ℕ) → IsDistinct chain → IsDistinct (hlist_del chain a)
unfolding hlist_del IsDistinct
hlist_del-IsDistinct [] a d = d
hlist_del-IsDistinct (i ∷ rest) a d = elim (Bool-cases (i.addr == a)) [
  | inl e ↦ rw e d.1
  | inr e ↦ rw e (get-hlist_del-none rest a i.addr d.0, hlist_del-IsDistinct rest a d.1)
]

hlist_del-AllHashed :
    (hash : ℕ → ℕ) (k : ℕ) (chain : Chain) (a : ℕ)
    → AllHashed hash k chain
    → AllHashed hash k (hlist_del chain a)
unfolding hlist_del AllHashed
hlist_del-AllHashed hash k [] a d = d
hlist_del-AllHashed hash k (i ∷ rest) a d = elim (Bool-cases (i.addr == a)) [
  | inl e ↦ rw e d.1
  | inr e ↦ rw e (d.0, hlist_del-AllHashed hash k rest a d.1)
]

-- The invariant of the table.
pub record IsTable (hash : ℕ → ℕ) (t : Table) : Type 0 where
  pub distinct : (k : ℕ) → IsDistinct (t k)
  pub hashed : (k : ℕ) → AllHashed hash k (t k)

pub empty_table-IsTable : (hash : ℕ → ℕ) → IsTable hash empty_table
unfolding IsDistinct AllHashed
empty_table-IsTable hash = record { distinct = λ k. tt; hashed = λ k. tt }

module _ (hash : ℕ → ℕ) (t : Table) where
  set_chain-IsTable :
      IsTable hash t
      → (k : ℕ) (chain : Chain) → IsDistinct chain
      → AllHashed hash k chain
      → IsTable hash (set_chain t k chain)
  unfolding set_chain
  set_chain-IsTable v k chain d h = record {
    distinct = λ j. elim (Bool-cases (j == k)) [ inl e ↦ rw e d | inr e ↦ rw e (v.distinct j) ];
    hashed = λ j. elim (Bool-cases (j == k)) [
      | inl e ↦ rw (e, (==_iff j k).0 e) h
      | inr e ↦ rw e (v.hashed j)
    ];
  }

  -- What a look-up sees of a replaced chain.
  find-set_chain :
      (k b : ℕ) (chain : Chain)
      → find hash b (set_chain t k chain)
        ≡ (if hash_in_client hash b == k then get_addr_info chain b else find hash b t)
  unfolding find set_chain
  find-set_chain k b chain = ground arith

  -- A look-up after an insertion finds the new entry at its address, and elsewhere what was there.
  pub find-insert_ht :
      (a b : ℕ) (info : AddrInfo)
      → info.addr ≡ a
      → find hash b (insert_ht hash a info t) ≡ (if a == b then some info else find hash b t)
  unfolding insert_ht find get_addr_info
  find-insert_ht a b info e = elim (Bool-cases (a == b)) [
    | inl p ↦ ground (
      arith,
      find-set_chain (hash_in_client hash a) b (info ∷ t (hash_in_client hash a)),
      ap (hash_in_client hash) ((==_iff a b).0 p),
    )
    | inr p ↦
        ground
          (arith, find-set_chain (hash_in_client hash a) b (info ∷ t (hash_in_client hash a)), ap t)
  ]

  -- Nothing is found at a deleted address, and elsewhere what was there.
  pub find-delete :
      (a b : ℕ)
      → IsTable hash t
      → find hash b (delete hash a t) ≡ (if a == b then none else find hash b t)
  unfolding delete find
  find-delete a b v = elim (Bool-cases (a == b)) [
    | inl p ↦ ground (
      arith,
      replaced,
      ap (hash_in_client hash) ((==_iff a b).0 p),
      ap (get_addr_info (hlist_del chain a)) ((==_iff a b).0 p),
      get-hlist_del_self chain a (v.distinct _),
    )
    | inr p ↦ ground (arith, replaced, get-hlist_del_ne chain a b (ground arith), ap t)
  ]
    where
      chain : Chain
      chain = t (hash_in_client hash a)

      replaced : find hash b (set_chain t (hash_in_client hash a) (hlist_del chain a)) ≡ (
          if hash_in_client hash b == hash_in_client hash a
          then get_addr_info (hlist_del chain a) b
          else find hash b t)
      replaced = find-set_chain (hash_in_client hash a) b (hlist_del chain a)

  -- A change at an address is seen there, and nowhere else.
  pub find-change_at :
      (f : AddrInfo → AddrInfo) (a b : ℕ)
      → KeepsAddr f
      → find hash b (change_at hash f a t)
        ≡ (if a == b then map_found f (find hash b t) else find hash b t)
  unfolding change_at find
  find-change_at f a b keeps = elim (Bool-cases (a == b)) [
    | inl p ↦ ground (
      arith,
      replaced,
      ap (hash_in_client hash) ((==_iff a b).0 p),
      ap t (ap (hash_in_client hash) ((==_iff a b).0 p)),
      get-change f keeps chain a b,
    )
    | inr p ↦ ground (arith, replaced, get-change f keeps chain a b, ap t)
  ]
    where
      chain : Chain
      chain = t (hash_in_client hash a)

      replaced : find hash b (set_chain t (hash_in_client hash a) (change f chain a)) ≡ (
          if hash_in_client hash b == hash_in_client hash a
          then get_addr_info (change f chain a) b
          else find hash b t)
      replaced = find-set_chain (hash_in_client hash a) b (change f chain a)

  module _ (v : IsTable hash t) where
    pub delete-IsTable : (a : ℕ) → IsTable hash (delete hash a t)
    unfolding delete
    delete-IsTable a =
        let k = hash_in_client hash a in
        set_chain-IsTable v k (hlist_del (t k) a) (hlist_del-IsDistinct (t k) a (v.distinct k))
          (hlist_del-AllHashed hash k (t k) a (v.hashed k))

    pub change_at-IsTable :
        (f : AddrInfo → AddrInfo) (a : ℕ) → KeepsAddr f → IsTable hash (change_at hash f a t)
    unfolding change_at
    change_at-IsTable f a keeps =
        let k = hash_in_client hash a in
        set_chain-IsTable v k (change f (t k) a) (change-IsDistinct f keeps (t k) a (v.distinct k))
          (change-AllHashed f keeps hash k (t k) a (v.hashed k))

    pub insert_ht-IsTable :
        (info : AddrInfo)
        → find hash info.addr t ≡ none
        → IsTable hash (insert_ht hash info.addr info t)
    unfolding insert_ht find IsDistinct AllHashed
    insert_ht-IsTable info new =
        let k = hash_in_client hash info.addr in
        set_chain-IsTable v k (info ∷ t k) (new, v.distinct k) (refl, v.hashed k)
