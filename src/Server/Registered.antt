-- ===== src/Server/Registered.antt =====
-- The list of the servers under its operations: each server is found under its number, and so are the
-- reports of its client.
use v6chat.Base.{ℕ, ◌≡◌, refl, some, List, [], ◌∷◌, arith, ◌==◌, Bool-cases, Option-cases, inl, inr}
use v6chat.Numbers.{ℤ}
use v6chat.OrderedMap.{
  contains, From, lookup, put, insert, erase, lookup-put, lookup-erase, put-From, erase-From,
}
use v6chat.Server.Info.{
  ServerInfo, ServerState, server_connected, server_disconnect, new, set_state, set_id,
}
use v6chat.Server.ServerList.{
  ServerList, Registry, ServerRow, load_server, init, add_server, delete_server, set_server_state,
  on_connect, on_disconnect,
}
use v6chat.Text.Decimal.{print_int}
use v6chat.Text.{Text}

-- The numbers increase, and each server and its listener hold the number that the server has in the list.
pub record IsRegistered (l : ServerList) : Type 0 where
  pub keys : From 0 l
  pub own : (k : ℕ) (s : ServerInfo) → lookup k l ≡ some s → (s.id ≡ k) × (s.listener_id ≡ k)

put-IsRegistered :
    (id : ℕ) (s : ServerInfo) (l : ServerList)
    → s.id ≡ id
    → s.listener_id ≡ id
    → IsRegistered l
    → IsRegistered (put id s l)
put-IsRegistered id s l e f r = record {
  keys = put-From 0 id s l (omega arith) r.keys;
  own = λ k v at. ground (arith, lookup-put k id s l, r.own k v, e, f);
}

insert-IsRegistered :
    (id : ℕ) (s : ServerInfo) (l : ServerList)
    → s.id ≡ id
    → s.listener_id ≡ id
    → IsRegistered l
    → IsRegistered (insert id s l)
unfolding insert
insert-IsRegistered id s l e f r = elim (Bool-cases (contains id l)) [
  | inl there ↦ rw (insert, there) r
  | inr free ↦ rw (insert, free) (put-IsRegistered id s l e f r)
]

erase-IsRegistered : (id : ℕ) (l : ServerList) → IsRegistered l → IsRegistered (erase id l)
erase-IsRegistered id l r = record {
  keys = erase-From 0 id l r.keys;
  own = λ k v at. ground (arith, lookup-erase k id l, r.own k v);
}

init-IsRegistered :
    (r : Registry) (rows : List ServerRow) (l : ServerList)
    → IsRegistered l
    → IsRegistered (init r rows l)
unfolding init load_server new
init-IsRegistered r [] l h = h
init-IsRegistered r (row ∷ rows) l h =
    init-IsRegistered r rows _ (insert-IsRegistered _ (load_server r row) l refl refl h)

set_server_state-IsRegistered :
    (r : Registry) (id : ℕ) (state : ServerState) (l : ServerList)
    → IsRegistered l
    → IsRegistered (set_server_state r id state l).0
unfolding set_server_state set_state
set_server_state-IsRegistered r id state l h = elim (Option-cases (lookup id l)) [
  | inl missing ↦ rw (set_server_state, missing) h
  | inr (s, at) ↦
      rw (set_server_state, at)
        (put-IsRegistered id (set_state state s) l (h.own id s at).0 (h.own id s at).1 h)
]

set_id-own :
    (sid : ℕ) (s : ServerInfo)
    → s.listener_id ≡ s.id
    → ((set_id sid s).id ≡ sid) × ((set_id sid s).listener_id ≡ sid)
unfolding set_id
set_id-own sid s e = ground (arith, e)

add_server-IsRegistered :
    (r : Registry) (s : ServerInfo) (l : ServerList)
    → s.listener_id ≡ s.id
    → IsRegistered l
    → IsRegistered (add_server r s l).2
unfolding add_server
add_server-IsRegistered r s l e h =
    let sid =
      r.insert_server_information (r.to_utf8 s.name) s.ip (print_int s.port)
        (r.to_utf8 s.description) s.uid s.upassword in
    let (of_id, of_listener) = set_id-own sid s e in
    elim (Bool-cases (sid == 0)) [
      | inl refused ↦ rw (add_server, refused) h
      | inr given ↦
          rw (add_server, given) (insert-IsRegistered sid (set_id sid s) l of_id of_listener h)
    ]

-- What is done to the list: a server is made and added, one goes, its client connects or is cut off.
pub data Call : Type 0 where
  load : List ServerRow → Call
  add : (id : ℕ) (name ip : Text) (port : ℤ) (description uid upassword : Text) → Call
  remove connects disconnects : (id : ℕ) → Call

unfoldable pub after : Registry → Call → ServerList → ServerList
after r (load rows) l = init r rows l
after r (add id name ip port description uid upassword) l =
    (add_server r (new id name ip port description uid upassword) l).2
after r (remove id) l = delete_server id l
after r (connects id) l = (on_connect r id l).0
after r (disconnects id) l = (on_disconnect r id l).0

unfoldable pub run : Registry → List Call → ServerList → ServerList
unfolding after
run r [] l = l
run r (c ∷ cs) l = run r cs (after r c l)

after-IsRegistered :
    (r : Registry) (c : Call) (l : ServerList) → IsRegistered l → IsRegistered (after r c l)
unfolding after new delete_server on_connect on_disconnect
after-IsRegistered r (load rows) l h = init-IsRegistered r rows l h
after-IsRegistered r (add id name ip port description uid upassword) l h =
    add_server-IsRegistered r (new id name ip port description uid upassword) l refl h
after-IsRegistered r (remove id) l h = erase-IsRegistered id l h
after-IsRegistered r (connects id) l h = set_server_state-IsRegistered r id server_connected l h
after-IsRegistered r (disconnects id) l h = set_server_state-IsRegistered r id server_disconnect l h

-- After any operations on a list in which each server stands under its number, each server that the list
-- finds under a number holds that number, and so does the listener of its client, whose reports name it.
pub run-IsRegistered :
    (r : Registry) (calls : List Call) (l : ServerList)
    → IsRegistered l
    → IsRegistered (run r calls l)
unfolding run
run-IsRegistered r [] l h = h
run-IsRegistered r (c ∷ calls) l h =
    run-IsRegistered r calls (after r c l) (after-IsRegistered r c l h)
