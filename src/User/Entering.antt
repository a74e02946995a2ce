-- ===== src/User/Entering.antt =====
-- `AddUser` and `AddUsers`: the list stays sound, and a user that was added is found.
use v6chat.Base.{
  ℕ, suc, ◌≡◌, ◌≢◌, ◌↔◌, ◌∙◌, sym, ap, refl, true, some, List, [], ◌∷◌, arith, ◌==◌, Bool-cases,
  inl, inr, Option-cases,
}
use v6chat.OrderedMap.{lookup, find_if, lookup-put, lookup_below, find_if-lookup, find_if_least}
use v6chat.User.Identity.{identity, finder_iff, IsSound, enter-IsSound}
use v6chat.User.Info.{UserInfo}
use v6chat.User.UserList.{
  Backend, UserList, find_user, finder, key_of, enter, new_profile, add_user, add_each, add_users,
  update_user_display,
}

-- `AddUser` keeps a sound list sound, whatever user it is given and whatever number the database returns:
-- the keys increase, every user holds its key, and no two users have one identity.
pub add_user-IsSound :
    (b : Backend) (u : UserInfo) (l : UserList) → IsSound l → IsSound (add_user b u l).1
unfolding add_user
add_user-IsSound b u l s =
    ground (arith, enter-IsSound (b.insert_peer_profile (new_profile b u)) u l)

add_each-IsSound :
    (b : Backend) (last_uid : ℕ) (us : List UserInfo) (l : UserList)
    → IsSound l
    → IsSound (add_each b last_uid us l).0
unfolding add_each
add_each-IsSound b last_uid [] l s = s
add_each-IsSound b last_uid (u ∷ us) l s = elim (Bool-cases (find_user u l == 0)) [
  | inl fresh ↦ rw fresh (
      add_each-IsSound b (suc last_uid) us (enter (suc last_uid) u l)
        (enter-IsSound (suc last_uid) u l (omega arith) (ground (arith, fresh)) s))
  | inr known ↦ rw known (add_each-IsSound b last_uid us l s)
]

-- So does `AddUsers`, whatever users it is given and whatever number the database has reached, two equal
-- users in one call included.
pub add_users-IsSound :
    (b : Backend) (last_uid : ℕ) (us : List UserInfo) (l : UserList)
    → IsSound l
    → IsSound (add_users b last_uid us l).0
unfolding add_users
add_users-IsSound b last_uid us l s = ground (arith, add_each-IsSound b last_uid us l)

found_at :
    (u v : UserInfo) (l : UserList) (k : ℕ)
    → IsSound l
    → lookup k l.users ≡ some v
    → identity u ≡ identity v
    → find_user u l ≡ k
unfolding find_user key_of
found_at u v l k s at same =
    let (j, w, found, le) =
      find_if_least (finder u) 1 l.users k v s.keys at ((finder_iff u v).1 same) in
    let (there, hit) = find_if-lookup (finder u) 1 l.users j w s.keys found in
    rw found (s.unique j k w v there at (sym ((finder_iff u w).0 hit) ∙ same))

-- In a sound list `FindUser` returns the key of an entry if and only if the user looked for has the
-- identity of that entry.
pub find_user-identity :
    (u v : UserInfo) (l : UserList) (k : ℕ)
    → IsSound l
    → lookup k l.users ≡ some v
    → (find_user u l ≡ k) ↔ (identity u ≡ identity v)
unfolding find_user key_of
find_user-identity u v l k s at = (
  λ e. elim (Option-cases (find_if (finder u) l.users)) [
    | inl nobody ↦ absurd (ground (arith, nobody, lookup_below 1 k l.users s.keys))
    | inr ((j, w), found) ↦
        let (there, hit) = find_if-lookup (finder u) 1 l.users j w s.keys found in
        let same : w ≡ v = ground (arith, found, there) in (finder_iff u w).0 hit ∙ ap identity same
  ],
  found_at u v l k s at,
)

entered :
    (b : Backend) (u : UserInfo) (l : UserList)
    → l.has_init ≡ true
    → (find_user u l == 0) ≡ true
    → b.insert_peer_profile (new_profile b u) ≢ 0
    → let uid = b.insert_peer_profile (new_profile b u) in
      add_user b u l ≡ (uid, enter uid u l, update_user_display b.is_open uid)
unfolding add_user
entered b u l ready fresh taken = ground (arith, fresh)

entered-lookup :
    (userid : ℕ) (u : UserInfo) (l : UserList)
    → lookup userid (enter userid u l).users ≡ some (record u { uid = userid })
unfolding enter
entered-lookup userid u l =
    ground (arith, lookup-put userid userid (record u { uid = userid }) l.users)

known :
    (b : Backend) (u : UserInfo) (l : UserList)
    → l.has_init ≡ true
    → find_user u l ≢ 0
    → add_user b u l ≡ (find_user u l, l, [])
unfolding add_user
known b u l ready there = ground arith

-- On a list that is ready, and with a database that takes the user, `AddUser` returns a number under which
-- the user is found, and adding the user again returns that number and changes nothing.
pub add_user_twice :
    (b : Backend) (u : UserInfo) (l : UserList)
    → IsSound l
    → l.has_init ≡ true
    → b.insert_peer_profile (new_profile b u) ≢ 0
    → let (uid, l', posts) = add_user b u l in
      (uid ≢ 0) × (find_user u l' ≡ uid) × (add_user b u l' ≡ (uid, l', []))
unfolding identity enter
add_user_twice b u l s ready taken = elim (Bool-cases (find_user u l == 0)) [
  | inr there ↦
      let differs : find_user u l ≢ 0 = ground (arith, there) in
      let again = known b u l ready differs in rw again (differs, refl, again)
  | inl fresh ↦
      let uid = b.insert_peer_profile (new_profile b u) in
      let l' = enter uid u l in
      let s' = enter-IsSound uid u l (ground (arith, taken)) (ground (arith, fresh)) s in
      let found = found_at u (record u { uid = uid }) l' uid s' (entered-lookup uid u l) refl in
      let again = known b u l' ready (ground (arith, found, taken)) in
      rw (entered b u l ready fresh taken) (taken, found, again ∙ rw found refl)
]
