-- ===== src/Examples/Regions.antt =====
-- A region of 4096 bytes at 7000 with the key 5.
use model_test.Prelude.{◌≡◌, ◌≢◌, refl, true, none, some, [], ◌∷◌, arith}
use model_test.Regions.{
  area_create, area_malloc, area_register, area_alloc, answer_malloc, count_used, Area, Server,
  Supply, malloc_request_handler, granted, find_area, free_request_handler,
}
use model_test.Regions.Owned.{is_held, IsOwned}
use model_test.Regions.Account.{
  Reachable, start, malloc, free, Reachable-IsOwned, free_unknown-count,
}

abbrev empty_server : Server
empty_server = record { area_list = []; nvm_used_size = 0; memory = []; registered = [] }

abbrev supply : Supply
supply = record { addr = some 7000; lkey = some 5; area = true }

abbrev one_area : Server
one_area = record {
  area_list = record { lkey = 5; addr = 7000; size = 4096 } ∷ [];
  nvm_used_size = 4096;
  memory = 7000 ∷ [];
  registered = 5 ∷ [];
}

abbrev the_area : Area
the_area = record { lkey = 5; addr = 7000; size = 4096 }

one_area-malloc :
    malloc_request_handler supply 0 4096 empty_server ≡ some (one_area, granted the_area)
unfolding malloc_request_handler area_create area_malloc area_register area_alloc answer_malloc
    count_used
one_area-malloc = refl

one_area-Reachable : Reachable (free_request_handler 5 4096 one_area)
unfolding is_held
one_area-Reachable =
    free 5 4096 (malloc supply 0 4096 (granted the_area) start (λ a e. refl) one_area-malloc)

Reachable-IsOwned_example : IsOwned (free_request_handler 5 4096 one_area)
Reachable-IsOwned_example = Reachable-IsOwned one_area-Reachable

none_found : find_area [] 5 ≡ none
unfolding find_area
none_found = refl

free_unknown-count_example :
    ((free_request_handler 5 4096 empty_server).area_list ≡ [])
    × ((free_request_handler 5 4096 empty_server).nvm_used_size ≢ 0)
free_unknown-count_example =
    free_unknown-count 5 4096 empty_server none_found (omega arith) (omega arith) (omega arith)
