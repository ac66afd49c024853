-- ===== src/Connection/Routes.antt =====
-- `server->connect_trans`, by which the server's threads find the transport of a node id.
use model_test.Prelude.{
  ℕ, ◌+◌, ◌<◌, ◌≡◌, refl, ap, ◌∙◌, ◌≢◌, Bool, true, false, some, List, [], ◌∷◌, ◌++◌, ◌==◌, ◌||◌,
  Bool-cases, inl, inr, arith,
}
use model_test.Transport.{TransportState}
use model_test.Connection.{
  client_node_num, Transport, Process, list_del, is_listed, enlist, accepted, delist, destroyed,
  on_cm_connect_request, on_cm_disconnected,
}

-- Each listed transport is the one that its node id leads to.
pub record IsRouted (p : Process) : Type 0 where
  pub route :
      (t : ℕ)
      → is_listed p.client_list t ≡ true
      → (p.connect_trans (p.transport t).node_id ≡ some t)
        × ((p.transport t).node_id < p.cur_connections)

is_listed-append :
    (xs : List ℕ) (n t : ℕ) → is_listed (xs ++ (n ∷ [])) t ≡ (is_listed xs t || (n == t))
unfolding is_listed
is_listed-append [] n t = ground arith
is_listed-append (x ∷ xs) n t = ground (arith, is_listed-append xs n t)

is_listed-list_del_ne :
    (xs : List ℕ) (t u : ℕ) → t ≢ u → is_listed (list_del xs t) u ≡ is_listed xs u
unfolding is_listed list_del
is_listed-list_del_ne [] t u h = refl
is_listed-list_del_ne (x ∷ xs) t u h = ground (arith, is_listed-list_del_ne xs t u h)

enlist-IsRouted :
    (p : Process) (n : ℕ) (v : Transport)
    → is_listed p.client_list n ≡ false
    → IsRouted p
    → IsRouted (enlist p n v)
unfolding enlist
enlist-IsRouted p n v fresh r = record {
  route = λ t h. elim (Bool-cases (t == n)) [
    | inl e ↦
        let same : n ≡ t = ground (arith, e) in rw e (ground (arith, ap some same), ground arith)
    | inr e ↦
        let old = r.route t (ground (arith, e, h, is_listed-append p.client_list n t)) in
        rw e (ground (arith, old), ground (arith, old))
  ];
}

-- A change of one transport's state keeps the routes.
set_state-IsRouted :
    (p : Process) (n : ℕ) (s : TransportState) → IsRouted p → IsRouted (accepted p n)
unfolding accepted
set_state-IsRouted p n s r = record {
  route = λ t h. elim (Bool-cases (t == n)) [
    | inl e ↦
        let same : n ≡ t = ground (arith, e) in let old = r.route t h in rw (e, same) (old.0, old.1)
    | inr e ↦ rw e (r.route t h)
  ];
}

-- A connection request, also one that fails at any of its calls, keeps this: each listed
-- transport is the one that connect_trans has under its node id, which is below cur_connections,
-- provided that the new transport's pointer is not listed yet and there are fewer than
-- DHMP_CLIENT_NODE_NUM connections.
pub request-IsRouted :
    (p : Process) (n : ℕ) (qp accept : Bool) (addr peer node : ℕ)
    → is_listed p.client_list n ≡ false
    → p.cur_connections < client_node_num
    → IsRouted p
    → IsRouted (on_cm_connect_request (some n) qp accept addr peer node p).0
unfolding on_cm_connect_request
request-IsRouted p n false accept addr peer node fresh room r = r
request-IsRouted p n true true addr peer node fresh room r =
    set_state-IsRouted _ n TransportState.connecting (enlist-IsRouted p n _ fresh r)
request-IsRouted p n true false addr peer node fresh room r = enlist-IsRouted p n _ fresh r

-- The two transports have one node id, and only the second is reached by it.
pub record Collides (p : Process) (u n : ℕ) : Type 0 where
  pub listed : is_listed p.client_list u ≡ true
  pub new_listed : is_listed p.client_list n ≡ true
  pub same_id : (p.transport n).node_id ≡ (p.transport u).node_id
  pub taken : p.connect_trans (p.transport u).node_id ≡ some n

-- The last id, `u`'s, is free for the next transport once `t` has left.
record IsFreed (p : Process) (u : ℕ) : Type 0 where
  listed : is_listed p.client_list u ≡ true
  next : (p.transport u).node_id ≡ p.cur_connections

leave-IsFreed :
    (p : Process) (t u : ℕ) (s : TransportState)
    → p.is_server ≡ true
    → t ≢ u
    → is_listed p.client_list u ≡ true
    → (p.transport u).node_id + 1 ≡ p.cur_connections
    → IsFreed (delist (destroyed p t s) t) u
unfolding delist destroyed
leave-IsFreed p t u s server other listed last = record {
  listed = rw server (is_listed-list_del_ne p.client_list t u other ∙ listed);
  next = rw server (ground (arith, last));
}

join-Collides :
    (p : Process) (u n : ℕ) (v : Transport)
    → n ≢ u
    → IsFreed p u
    → Collides (accepted (enlist p n v) n) u n
unfolding enlist accepted
join-Collides p u n v new freed = record {
  listed = ground (arith, is_listed-append p.client_list n u, freed.listed);
  new_listed = ground (arith, is_listed-append p.client_list n n);
  same_id = ground (arith, freed.next);
  taken = ground (arith, freed.next);
}

-- When a transport other than the last enlisted one has left the server, the next accepted
-- connection gets the node id of the last one, which is still listed and is no longer reached by
-- it.
pub reconnect-Collides :
    (p : Process) (t u n addr peer node : ℕ)
    → p.is_server ≡ true
    → t ≢ u
    → n ≢ u
    → is_listed p.client_list u ≡ true
    → (p.transport u).node_id + 1 ≡ p.cur_connections
    → Collides
        (on_cm_connect_request (some n) true true addr peer node (on_cm_disconnected p t).0).0
        u
        n
unfolding on_cm_connect_request on_cm_disconnected
reconnect-Collides p t u n addr peer node server other new listed last =
    join-Collides _ u n _ new
      (leave-IsFreed p t u TransportState.disconnected server other listed last)
