-- ===== src/AddrTable.antt =====
-- The client's table of the remote regions that it has allocated (`client->addr_info_ht`), and the
-- work handlers that use it: free, one-sided read and one-sided write.
pub mod Laws
pub mod Access
pub mod Abstract
pub mod Refine
use model_test.Prelude.{
  ℕ, ◌+◌, ◌%◌, Bool, true, false, Option, none, some, List, [], ◌∷◌, ◌==◌, if◌then◌else◌,
}
use model_test.Memory.{Memory}
use model_test.Rdma.{
  Rdma, Completion, completed, refused, errored, Outcome, finished, exited, spinning, await,
}

-- `struct dhmp_addr_info`; of `nvm_mr` the address and the length.
pub record AddrInfo : Type 0 where
  pub read_cnt : ℕ
  pub write_cnt : ℕ
  pub write_flag : Bool
  pub addr : ℕ
  pub length : ℕ

-- A chain of `addr_info_ht`, and the table of them by index.
abbrev pub Chain : Type 0
Chain = List AddrInfo

abbrev pub Table : Type 0
Table = ℕ → Chain

-- as `dhmp_client_init` leaves it
abbrev pub empty_table : Table
empty_table k = []

-- DHMP_CLIENT_HT_SIZE
abbrev pub ht_size : ℕ
ht_size = 251

-- `dhmp_hash_in_client`; `hash` stands for the hash function that `dhmp_hash_init` installs.
unfoldable pub hash_in_client : (ℕ → ℕ) → ℕ → ℕ
hash_in_client hash addr = (hash addr % ht_size + ht_size) % ht_size

-- `dhmp_get_addr_info_from_ht`: the first entry with the address
unfoldable pub get_addr_info : Chain → ℕ → Option AddrInfo
get_addr_info [] a = none
get_addr_info (i ∷ rest) a = if i.addr == a then some i else get_addr_info rest a

-- `hlist_del` of the entry that was found
unfoldable pub hlist_del : Chain → ℕ → Chain
hlist_del [] a = []
hlist_del (i ∷ rest) a = if i.addr == a then rest else i ∷ hlist_del rest a

-- a change of the fields of the entry that was found
unfoldable pub change : (AddrInfo → AddrInfo) → Chain → ℕ → Chain
change f [] a = []
change f (i ∷ rest) a = if i.addr == a then f i ∷ rest else i ∷ change f rest a

-- the table with one chain replaced
unfoldable pub set_chain : Table → ℕ → Chain → Table
set_chain t k chain j = if j == k then chain else t j

-- `dhmp_addr_info_insert_ht`
unfoldable pub insert_ht : (ℕ → ℕ) → ℕ → AddrInfo → Table → Table
insert_ht hash a info t = let index = hash_in_client hash a in set_chain t index (info ∷ t index)

-- The look-up as the handlers make it.
unfoldable pub find : (ℕ → ℕ) → ℕ → Table → Option AddrInfo
find hash a t = get_addr_info (t (hash_in_client hash a)) a

unfoldable pub delete : (ℕ → ℕ) → ℕ → Table → Table
delete hash a t = let index = hash_in_client hash a in set_chain t index (hlist_del (t index) a)

unfoldable pub change_at : (ℕ → ℕ) → (AddrInfo → AddrInfo) → ℕ → Table → Table
change_at hash f a t = let index = hash_in_client hash a in set_chain t index (change f (t index) a)

-- The client's end of `dhmp_malloc_work_handler`, after the response: `res_addr` is
-- `addr_info->nvm_mr.addr`, 0 for NULL; a special region is not entered. The second part is what
-- the handler stores in `malloc_work->res_addr`, `none` where it stores nothing.
unfoldable pub malloc_response : (ℕ → ℕ) → (is_special : ℕ) → AddrInfo → Table → Table × Option ℕ
malloc_response hash special info t =
    if special == 0
    then (if info.addr == 0
        then (t, some 0)
        else (insert_ht hash info.addr (record info { write_flag = false }) t, some info.addr))
    else (t, none)

-- the table, and the memories of the client and of the server
pub record World : Type 0 where
  pub client : Memory
  pub server : Memory
  pub table : Table

-- `struct dhmp_rw_work`
pub record RwWork : Type 0 where
  pub dhmp_addr : ℕ
  pub local_addr : ℕ
  pub length : ℕ

-- The handlers' test of a look-up's result for NULL.
abbrev pub if_found : {A : Type 0} → Option AddrInfo → (AddrInfo → A) → A → A
if_found (some info) k missing = k info
if_found none k missing = missing

-- `dhmp_free_work_handler`; `answered` says whether the server's free response arrives, for which
-- the handler waits. The Boolean of the result says whether a request was sent.
pub free_work_handler : (ℕ → ℕ) → (answered : Bool) → ℕ → Table → Outcome (Table × Bool)
free_work_handler hash answered a t =
    if_found (find hash a t)
      (λ info.
        let left = delete hash a t in
        if answered then finished (left, true) else spinning (left, true))
      (finished (t, false))

abbrev pub count_read : AddrInfo → AddrInfo
count_read i = record i { read_cnt = i.read_cnt + 1 }

abbrev pub count_write : AddrInfo → AddrInfo
count_write i = record i { write_flag = true; write_cnt = i.write_cnt + 1 }

abbrev pub clear_flag : AddrInfo → AddrInfo
clear_flag i = record i { write_flag = false }

-- `dhmp_rdma_read`: a refused post and a task without memory end it early, and the handler does not
-- look at what it returns.
read_completion : Completion → World → Outcome World
read_completion (completed m) s = finished (record s { client = m })
read_completion refused s = finished s
read_completion errored s = spinning s

rdma_read : Rdma → (task : Bool) → RwWork → AddrInfo → World → Outcome World
rdma_read net task w i s =
    if task
    then read_completion (net.post s.client w.local_addr s.server i.addr w.length) s
    else finished s

-- `dhmp_read_work_handler`
pub read_work_handler : (ℕ → ℕ) → Rdma → (task : Bool) → RwWork → World → Outcome World
unfolding rdma_read read_completion
read_work_handler hash net task w s =
    if_found (find hash w.dhmp_addr s.table)
      (λ i.
        if i.write_flag
        then spinning s
        else rdma_read net task w i
            (record s { table = change_at hash count_read w.dhmp_addr s.table }))
      (finished s)

-- What the completion of a write does to its `addr_info` in `dhmp_wc_success_handler`: only under
-- `#ifdef Spwrite` is the flag cleared.
abbrev pub completion_of_write : (spwrite : Bool) → AddrInfo → AddrInfo
completion_of_write true i = clear_flag i
completion_of_write false i = i

-- `dhmp_rdma_write`, with the completion that it waits for
rdma_write : (ℕ → ℕ) → Rdma → (spwrite task : Bool) → RwWork → AddrInfo → World → Outcome World
rdma_write hash net spwrite task w i s =
    if task
    then await (net.post s.server i.addr s.client w.local_addr w.length) s (λ server.
      finished (record s {
        server = server;
        table = change_at hash (completion_of_write spwrite) w.dhmp_addr s.table;
      }))
    else finished s

-- `dhmp_write_work_handler`
pub write_work_handler : (ℕ → ℕ) → Rdma → (spwrite task : Bool) → RwWork → World → Outcome World
unfolding rdma_write
write_work_handler hash net spwrite task w s =
    if_found (find hash w.dhmp_addr s.table)
      (λ i.
        if i.write_flag
        then spinning s
        else rdma_write hash net spwrite task w i
            (record s { table = change_at hash count_write w.dhmp_addr s.table }))
      (finished s)
