-- ===== src/User/Profile.antt =====
-- What becomes of the fields of a user.
use mathlib.Core.Path.{subst}
use v6chat.Ack.Pool.{WaitAckMsgSender}
use v6chat.Base.{
  ℕ, ◌≤◌, ap, ◌∙◌, ◌≡◌, refl, Bool, true, Option, none, some, [], ◌∷◌, arith, ◌==◌, ltb,
  if◌then◌else◌, Bool-cases, inl, inr,
}
use v6chat.Numbers.{ℤ, int_eq_iff, sub_u32}
use v6chat.OrderedMap.{OrderedMap, lookup, lookup-put}
use v6chat.Text.{Text, text_eq_iff}
use v6chat.User.Change.{
  differing, with_nick_name, with_group_name, with_sex, with_age, with_introduction, updated,
  update_user, with_ports, update_user_port, visit, visit_all, traverse_all_users,
}
use v6chat.User.Info.{UserState, user_offline, user_online, Kind, p2p, server, UserInfo}
use v6chat.User.Presence.{Host, live_time, set_state, check_online}
use v6chat.User.UserList.{
  Backend, UserList, get_user_sender, get_user_udp_port_by_uid, get_user_tcp_port_by_uid,
}

-- The text given, or else the old one.
unfoldable pub given : Option Text → Text → Text
given none old = old
given (some new) old = new

-- The columns of a user that `UpdateUser` is about.
unfoldable pub columns : UserInfo → Text × Text × ℕ × ℕ × Text × Text
columns u = (u.nick_name, u.group_name, u.sex, u.age, u.introduction, u.head_image_path)

with_nick_name-columns :
    (o : Option Text) (u : UserInfo)
    → let (n, g, s, a, i, h) = columns u in
      columns (with_nick_name o u) ≡ (given o n, g, s, a, i, h)
unfolding with_nick_name differing given columns
with_nick_name-columns none u = refl
with_nick_name-columns (some t) u = ground (arith, text_eq_iff u.nick_name t)

with_group_name-columns :
    (o : Option Text) (u : UserInfo)
    → let (n, g, s, a, i, h) = columns u in
      columns (with_group_name o u) ≡ (n, given o g, s, a, i, h)
unfolding with_group_name differing given columns
with_group_name-columns none u = refl
with_group_name-columns (some t) u = ground (arith, text_eq_iff u.group_name t)

with_introduction-columns :
    (o : Option Text) (u : UserInfo)
    → let (n, g, s, a, i, h) = columns u in
      columns (with_introduction o u) ≡ (n, g, s, a, given o i, h)
unfolding with_introduction differing given columns
with_introduction-columns none u = refl
with_introduction-columns (some t) u = ground (arith, text_eq_iff u.introduction t)

with_age-columns :
    (sex age : ℕ) (u : UserInfo)
    → let (n, g, s, a, i, h) = columns u in
      columns (with_age age (with_sex sex u))
      ≡ (n, g, (if ltb sex 3 then sex else s), (if age == 0 then a else age), i, h)
unfolding with_sex with_age columns
with_age-columns sex age u = ground arith

updated-columns :
    (n g : Option Text) (sex age : ℕ) (i h : Option Text) (u : UserInfo)
    → columns (updated n g sex age i h u) ≡ (
      given n u.nick_name,
      given g u.group_name,
      (if ltb sex 3 then sex else u.sex),
      (if age == 0 then u.age else age),
      given h (given i u.introduction),
      u.head_image_path,
    )
unfolding updated columns
updated-columns n g sex age i h u =
    let u1 = with_nick_name n u in
    let u2 = with_group_name g u1 in
    let u4 = with_age age (with_sex sex u2) in
    with_introduction-columns h (with_introduction i u4)
    ∙ ap (λ c. (c.0, c.1, c.2, c.3, given h c.4, c.5))
        (with_introduction-columns i u4
          ∙ ap (λ c. (c.0, c.1, c.2, c.3, given i c.4, c.5))
              (with_age-columns sex age u2
                ∙ ap
                    (λ c. (
                      c.0,
                      c.1,
                      (if ltb sex 3 then sex else c.2),
                      (if age == 0 then c.3 else age),
                      c.4,
                      c.5,
                    ))
                    (with_group_name-columns g u1
                      ∙ ap (λ c. (c.0, given g c.1, c.2, c.3, c.4, c.5))
                          (with_nick_name-columns n u))))

-- `UpdateUser` of a user in the list returns `true` and stores the name and the group given, the sex if it
-- is below 3, the age if it is not 0, and as introduction the last argument that is given of the
-- introduction and the path of the head image, whose own field never changes.
pub update_user-fields :
    (b : Backend) (uid : ℕ) (n g : Option Text) (sex age : ℕ) (i h : Option Text) (show : Bool)
    (l : UserList) (u : UserInfo)
    → lookup uid l.users ≡ some u
    → let (done, l', posts) = update_user b uid n g sex age i h show l in
      (v : UserInfo) × (done ≡ true)
      × (lookup uid l'.users ≡ some v)
      × (columns v ≡ (
        given n u.nick_name,
        given g u.group_name,
        (if ltb sex 3 then sex else u.sex),
        (if age == 0 then u.age else age),
        given h (given i u.introduction),
        u.head_image_path,
      ))
unfolding update_user
update_user-fields b uid n g sex age i h show l u at =
    let v = updated n g sex age i h u in
    (
      v,
      rw (update_user, at) refl,
      rw (update_user, at) (ground (arith, lookup-put uid uid v l.users)),
      updated-columns n g sex age i h u,
    )

-- `UpdateUserPort` of a user in the list stores both ports, but messages keep going where they went: the
-- sender of the user is the one that it was made with.
pub update_user_port-sender :
    (uid : ℕ) (tcp_port udp_port : ℤ) (l : UserList) (u : UserInfo)
    → lookup uid l.users ≡ some u
    → let (done, l') = update_user_port uid tcp_port udp_port l in
      (done ≡ true)
      × (get_user_tcp_port_by_uid uid l' ≡ tcp_port)
      × (get_user_udp_port_by_uid uid l' ≡ udp_port)
      × (get_user_sender uid l' ≡ some u.message_sender)
unfolding update_user_port with_ports get_user_sender get_user_udp_port_by_uid
    get_user_tcp_port_by_uid
update_user_port-sender uid tcp_port udp_port l u at =
    let v = with_ports tcp_port udp_port u in
    rw (update_user_port, at)
      (ground (
        arith,
        lookup-put uid uid v l.users,
        int_eq_iff u.udp_port udp_port,
        int_eq_iff u.tcp_port tcp_port,
      ))

-- Not online, or heard of within the last 35 seconds.
IsFresh : ℕ → UserInfo → Type 0
IsFresh now u =
    (ack : ℕ)
    → u.kind ≡ p2p ack
    → u.state ≡ user_online
    → sub_u32 now u.last_active_time ≤ live_time

visit-IsFresh_at :
    (b : Backend) (host : Host) (now : ℕ) (u : UserInfo) (pool : WaitAckMsgSender) (k : Kind)
    (x : UserState)
    → u.kind ≡ k
    → u.state ≡ x
    → IsFresh now (visit b host now u pool).0
unfolding visit check_online set_state IsFresh
visit-IsFresh_at b host now u pool k user_offline e st = rw st (λ ack f on. ground arith)
visit-IsFresh_at b host now u pool (server s r t) user_online e st =
    rw (st, e) (λ ack f on. ground (arith, f))
visit-IsFresh_at b host now u pool (p2p a) user_online e st =
    rw (st, e) (λ ack f on. ground (arith, f, on))

visit_all-IsFresh :
    (b : Backend) (host : Host) (now : ℕ) (m : OrderedMap UserInfo) (pool : WaitAckMsgSender)
    (k : ℕ) (v : UserInfo)
    → lookup k (visit_all b host now m pool).0 ≡ some v
    → IsFresh now v
unfolding visit_all lookup
visit_all-IsFresh b host now [] pool k v at = absurd (cc)
visit_all-IsFresh b host now ((j, u) ∷ m) pool k v at =
    let seen = visit b host now u pool in
    elim (Bool-cases (k == j)) [
      | inl here ↦
          let same : seen.0 ≡ v = ground (arith, here) in
          subst (λ x. IsFresh now x) same
            (visit-IsFresh_at b host now u pool u.kind u.state refl refl)
      | inr away ↦ visit_all-IsFresh b host now m seen.1 k v (ground (arith, away))
    ]

-- After `TraverseAllUsers` on a list that is ready, every peer that is still online was heard of within
-- the last 35 seconds.
pub traverse_all_users-IsFresh :
    (b : Backend) (host : Host) (now : ℕ) (l : UserList) (pool : WaitAckMsgSender) (k ack : ℕ)
    (v : UserInfo)
    → l.has_init ≡ true
    → lookup k (traverse_all_users b host now l pool).0.users ≡ some v
    → v.kind ≡ p2p ack
    → v.state ≡ user_online
    → sub_u32 now v.last_active_time ≤ live_time
unfolding traverse_all_users IsFresh
traverse_all_users-IsFresh b host now l pool k ack v ready at e on =
    visit_all-IsFresh b host now l.users pool k v (ground (arith, ready)) ack e on
