-- ===== src/Regions.antt =====
-- The server's areas for one client: dhmp_area_create (dhmp_server.c), dhmp_malloc_area,
-- dhmp_malloc_request_handler for an ordinary region, dhmp_free_one_area and
-- dhmp_free_request_handler (dhmp_transport.c).
pub mod Owned
pub mod Account
use model_test.Prelude.{
  ℕ, ◌+◌, ◌-◌, ◌%◌, ◌^◌, Bool, true, false, Option, none, some, ◌>>=◌, List, [], ◌∷◌, leb,
  if◌then◌else◌, ◌==◌, ◌||◌,
}

-- `struct dhmp_area`, of `mr` the address and the key
pub record Area : Type 0 where
  pub lkey : ℕ
  pub addr : ℕ
  pub size : ℕ

-- `server->area_list[node_id]`, the transport's `nvm_used_size` (a `size_t`), and what the process
-- holds for them: memory by address, registrations by key.
pub record Server : Type 0 where
  pub area_list : List Area
  pub nvm_used_size : ℕ
  pub memory : List ℕ
  pub registered : List ℕ

-- SINGLE_AREA_SIZE
abbrev pub single_area_size : ℕ
single_area_size = 4194304

-- What a release takes off the held addresses or keys.
pub erase : List ℕ → ℕ → List ℕ
erase [] k = []
erase (x ∷ xs) k = if x == k then xs else x ∷ erase xs k

abbrev pub nvm_malloc : ℕ → Server → Server
nvm_malloc a s = record s { memory = a ∷ s.memory }

abbrev pub nvm_free : ℕ → Server → Server
nvm_free a s = record s { memory = erase s.memory a }

abbrev pub reg_mr : ℕ → Server → Server
reg_mr k s = record s { registered = k ∷ s.registered }

abbrev pub dereg_mr : ℕ → Server → Server
dereg_mr k s = record s { registered = erase s.registered k }

-- What the calls of dhmp_area_create give: the memory and the key, `none` for NULL, and whether the
-- area itself can be allocated.
pub record Supply : Type 0 where
  pub addr : Option ℕ
  pub lkey : Option ℕ
  pub area : Bool

-- dhmp_area_create from behind its `ibv_reg_mr`, from behind its `nvm_malloc`, and whole; `nvm_malloc`
-- clears the memory before it is tested for NULL, which ends the process (`none`) if there is a byte to clear.
unfoldable pub area_alloc : Bool → (addr lkey length : ℕ) → Server → Server × Option Area
area_alloc true addr lkey length s =
    let area : Area = record { lkey = lkey; addr = addr; size = length } in
    (record s { area_list = area ∷ s.area_list }, some area)
area_alloc false addr lkey length s = (nvm_free addr (dereg_mr lkey s), none)

unfoldable pub area_register : Option ℕ → Bool → (addr length : ℕ) → Server → Server × Option Area
area_register (some lkey) area addr length s = area_alloc area addr lkey length (reg_mr lkey s)
area_register none area addr length s = (nvm_free addr s, none)

unfoldable pub area_malloc :
    Option ℕ → Option ℕ → Bool → (length : ℕ) → Server → Option (Server × Option Area)
area_malloc (some addr) lkey area length s =
    some (area_register lkey area addr length (nvm_malloc addr s))
area_malloc none lkey area length s = if length == 0 then some (s, none) else none

unfoldable pub area_create : Supply → (length : ℕ) → Server → Option (Server × Option Area)
area_create u length s = area_malloc u.addr u.lkey u.area length s

-- The answer to a malloc request: a region, the response with the region's struct never set, or an
-- error message.
pub data McReply : Type 0 where
  granted : Area → McReply
  unset : McReply
  refused : McReply

-- `rdma_trans->nvm_used_size += response.mr.length`
unfoldable pub count_used : ℕ → Server → Server
count_used n s = record s { nvm_used_size = (s.nvm_used_size + n) % 2 ^ 64 }

-- The end of dhmp_malloc_request_handler, by what dhmp_malloc_area gave.
unfoldable pub answer_malloc : Server × Option Area → Server × McReply
answer_malloc (s, some a) = (count_used a.size s, granted a)
answer_malloc (s, none) = (s, refused)

-- dhmp_malloc_request_handler where `is_special` is none of its cases; `junk` is the length that
-- stands in a response that was never set.
unfoldable pub malloc_request_handler :
    Supply → (junk req_size : ℕ) → Server → Option (Server × McReply)
malloc_request_handler u junk req_size s =
    if leb req_size single_area_size
    then area_create u req_size s >>= (λ r. some (answer_malloc r))
    else some (count_used junk s, unset)

-- the loop of dhmp_free_one_area, and `list_del` of the area that it found
unfoldable pub find_area : List Area → ℕ → Option Area
find_area [] k = none
find_area (a ∷ rest) k = if a.lkey == k then some a else find_area rest k

pub remove_area : List Area → ℕ → List Area
remove_area [] k = []
remove_area (a ∷ rest) k = if a.lkey == k then rest else a ∷ remove_area rest k

-- dhmp_free_one_area behind its loop
pub release_area : Option Area → ℕ → Server → Server
release_area (some a) k s =
    nvm_free a.addr (dereg_mr a.lkey (record s { area_list = remove_area s.area_list k }))
release_area none k s = s

pub free_one_area : ℕ → Server → Server
free_one_area k s = release_area (find_area s.area_list k) k s

-- `rdma_trans->nvm_used_size -= mr->length`, for a `length` below 2 ^ 64
pub uncount_used : ℕ → Server → Server
uncount_used n s = record s { nvm_used_size = (s.nvm_used_size + (2 ^ 64 - n)) % 2 ^ 64 }

-- dhmp_free_request_handler for the region that the message names
pub free_request_handler : (lkey length : ℕ) → Server → Server
free_request_handler lkey length s = free_one_area lkey (uncount_used length s)
