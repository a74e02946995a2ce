-- ===== src/User/Identity.antt =====
-- Who a user is: an address or an account of a server. No two users of the list are the same one.
use v6chat.Base.{ℕ, ◌≤◌, ◌≡◌, ◌≢◌, ◌↔◌, refl, true, some, arith, inl, inr, Option-cases}
use v6chat.OrderedMap.{lookup, find_if, lookup-put, From, put-From, find_if-none, find_if_bound}
use v6chat.Text.{Text, text_eq_iff}
use v6chat.User.Info.{UserInfo, Kind, p2p, server}
use v6chat.User.UserList.{
  UserList, find_user, finder, serveruser_finder, p2puser_finder, key_of, enter,
}

pub data Identity : Type 0 where
  peer : (ip : Text) → Identity
  account : (serverid : ℕ) (serveruid : Text) → Identity

identity_of : Kind → Text → Identity
identity_of (p2p ack_msgid) ip = peer ip
identity_of (server serverid serveruid t) ip = account serverid serveruid

-- A peer is its address, another user its server and its name there.
unfoldable pub identity : UserInfo → Identity
unfolding identity_of
identity u = identity_of u.kind u.ip

finder_iff_at :
    (w u : UserInfo) (k j : Kind)
    → w.kind ≡ k
    → u.kind ≡ j
    → (finder w u ≡ true) ↔ (identity w ≡ identity u)
unfolding finder identity serveruser_finder p2puser_finder
finder_iff_at w u (p2p a) (p2p b) e f = rw (e, f) (ground (arith, text_eq_iff u.ip w.ip))
finder_iff_at w u (p2p a) (server s r t) e f = rw (e, f) (ground arith)
finder_iff_at w u (server s r t) (p2p b) e f = rw (e, f) (ground arith)
finder_iff_at w u (server s r t) (server s' r' t') e f =
    rw (e, f) (ground (arith, text_eq_iff r' r))

-- `FindUser` looks for the same identity.
pub finder_iff : (w u : UserInfo) → (finder w u ≡ true) ↔ (identity w ≡ identity u)
finder_iff w u = finder_iff_at w u w.kind u.kind refl refl

-- The keys increase from 1 on, every user holds its key, and no two users have one identity.
pub record IsSound (l : UserList) : Type 0 where
  pub keys : From 1 l.users
  pub own : (k : ℕ) (u : UserInfo) → lookup k l.users ≡ some u → u.uid ≡ k
  pub unique :
      (j k : ℕ) (u v : UserInfo)
      → lookup j l.users ≡ some u
      → lookup k l.users ≡ some v
      → identity u ≡ identity v
      → j ≡ k

-- What `FindUser` returns: 0 if and only if nobody in the list is the user.
pub find_user-none :
    (u : UserInfo) (l : UserList) (k : ℕ) (v : UserInfo)
    → From 1 l.users
    → find_user u l ≡ 0
    → lookup k l.users ≡ some v
    → identity u ≢ identity v
unfolding find_user key_of
find_user-none u l k v f e h same = elim (Option-cases (find_if (finder u) l.users)) [
  | inl nobody ↦
      ground (arith, find_if-none (finder u) l.users k v nobody h, (finder_iff u v).1 same)
  | inr (p, found) ↦ ground (arith, find_if_bound (finder u) 1 l.users p.0 p.1 f found)
]

pub enter-IsSound :
    (userid : ℕ) (u : UserInfo) (l : UserList)
    → 1 ≤ userid
    → find_user u l ≡ 0
    → IsSound l
    → IsSound (enter userid u l)
unfolding enter identity
enter-IsSound userid u l h e s = record {
  keys = put-From 1 userid _ l.users h s.keys;
  own =
      λ k v at. ground (arith, lookup-put k userid (record u { uid = userid }) l.users, s.own k v);
  unique = λ j k v w at at' same. ground (
    arith,
    lookup-put j userid (record u { uid = userid }) l.users,
    lookup-put k userid (record u { uid = userid }) l.users,
    s.unique j k v w,
    find_user-none u l j v s.keys e,
    find_user-none u l k w s.keys e,
  );
}
