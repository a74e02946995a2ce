-- ===== src/User/Sound.antt =====
-- What a change of users may be, so that a sound list stays sound.
use v6chat.Ack.Pool.{WaitAckMsgSender}
use v6chat.Base.{
  ℕ, suc, ◌≡◌, ◌∙◌, sym, refl, Option, some, [], ◌∷◌, arith, ◌==◌, Bool-cases, inl, inr,
}
use v6chat.Numbers.{ℤ}
use v6chat.OrderedMap.{
  OrderedMap, lookup, put, erase, From, put-From, erase-From, lookup-put, lookup-erase,
  lookup_below,
}
use v6chat.Text.{Text}
use v6chat.User.Change.{
  with_nick_name, with_group_name, with_sex, with_age, with_introduction, updated, with_ports,
  visit, visit_all,
}
use v6chat.User.Identity.{identity, IsSound}
use v6chat.User.Info.{UserState, user_offline, user_online, Kind, p2p, server, UserInfo}
use v6chat.User.Presence.{Host, set_state, check_online, keep_online_msg}
use v6chat.User.UserList.{Backend, UserList}

-- One user, changed in what does not make it another one.
abbrev pub Alike : UserInfo → UserInfo → Type 0
Alike u v = (u.uid ≡ v.uid) × (identity u ≡ identity v)

pub replace-IsSound :
    (k : ℕ) (u v : UserInfo) (l : UserList)
    → IsSound l
    → lookup k l.users ≡ some u
    → Alike u v
    → IsSound (record l { users = put k v l.users })
replace-IsSound k u v l s at (same, alike) = record {
  keys = put-From 1 k v l.users (ground (arith, lookup_below 1 k l.users s.keys)) s.keys;
  own = λ q w there. ground (arith, lookup-put q k v l.users, s.own q w, s.own k u at, same);
  unique = λ i j w x at' at'' eq. ground (
    arith,
    lookup-put i k v l.users,
    lookup-put j k v l.users,
    s.unique i j w x,
    s.unique k j u x at,
    s.unique i k w u,
    alike,
  );
}

pub erase-IsSound :
    (k : ℕ) (l : UserList) → IsSound l → IsSound (record l { users = erase k l.users })
erase-IsSound k l s = record {
  keys = erase-From 1 k l.users s.keys;
  own = λ q w there. ground (arith, lookup-erase q k l.users, s.own q w);
  unique = λ i j w x at at' eq.
      ground (arith, lookup-erase i k l.users, lookup-erase j k l.users, s.unique i j w x);
}

set_state-Alike_at :
    (host : Host) (now : ℕ) (state : UserState) (u : UserInfo) (pool : WaitAckMsgSender) (k : Kind)
    → u.kind ≡ k
    → Alike u (set_state host now state u pool).0
unfolding set_state identity keep_online_msg
set_state-Alike_at host now state u pool (server s r t) e = rw e (ground arith)
set_state-Alike_at host now user_offline u pool (p2p ack) e = rw e (ground arith)
set_state-Alike_at host now user_online u pool (p2p ack) e = rw e (ground arith)

pub set_state-Alike :
    (host : Host) (now : ℕ) (state : UserState) (u : UserInfo) (pool : WaitAckMsgSender)
    → Alike u (set_state host now state u pool).0
set_state-Alike host now state u pool = set_state-Alike_at host now state u pool u.kind refl

pub with_text-Alike :
    (nick_name group_name : Option Text) (sex age : ℕ) (introduction head_image_path : Option Text)
    (u : UserInfo)
    → Alike u (updated nick_name group_name sex age introduction head_image_path u)
unfolding updated with_nick_name with_group_name with_sex with_age with_introduction identity
with_text-Alike nick_name group_name sex age introduction head_image_path u = ground arith

pub with_ports-Alike : (t p : ℤ) (u : UserInfo) → Alike u (with_ports t p u)
unfolding with_ports identity
with_ports-Alike t p u = ground arith

pub visit-Alike :
    (b : Backend) (host : Host) (now : ℕ) (u : UserInfo) (pool : WaitAckMsgSender)
    → Alike u (visit b host now u pool).0
unfolding visit check_online
visit-Alike b host now u pool = ground (arith, set_state-Alike host now user_offline u pool)

-- The maps have the same keys, and users that are alike under them.
unfoldable pub AllAlike : OrderedMap UserInfo → OrderedMap UserInfo → Type 0
AllAlike [] [] = Unit {0}
AllAlike [] (y ∷ ys) = ⊥
AllAlike (x ∷ xs) [] = ⊥
AllAlike ((k, u) ∷ xs) ((j, v) ∷ ys) = (k ≡ j) × Alike u v × AllAlike xs ys

pub visit_all-AllAlike :
    (b : Backend) (host : Host) (now : ℕ) (m : OrderedMap UserInfo) (pool : WaitAckMsgSender)
    → AllAlike m (visit_all b host now m pool).0
unfolding visit_all AllAlike
visit_all-AllAlike b host now [] pool = tt
visit_all-AllAlike b host now ((k, u) ∷ m) pool = (
  refl,
  visit-Alike b host now u pool,
  visit_all-AllAlike b host now m (visit b host now u pool).1,
)

AllAlike-From : (n : ℕ) (xs ys : OrderedMap UserInfo) → AllAlike xs ys → From n xs → From n ys
unfolding AllAlike
AllAlike-From n [] [] a f = tt
AllAlike-From n [] (y ∷ ys) a f = absurd a
AllAlike-From n (x ∷ xs) [] a f = absurd a
AllAlike-From n ((k, u) ∷ xs) ((j, v) ∷ ys) a f =
    (omega (arith, a.0), AllAlike-From (suc j) xs ys a.2 (rw⁻¹ a.0 f.1))

same_user : (u w v : UserInfo) → Alike u w → some w ≡ some v → Alike u v
same_user u w v a e = ground (arith, a)

pub AllAlike-lookup :
    (q : ℕ) (xs ys : OrderedMap UserInfo) (v : UserInfo)
    → AllAlike xs ys
    → lookup q ys ≡ some v
    → (u : UserInfo) × (lookup q xs ≡ some u) × Alike u v
unfolding AllAlike lookup
AllAlike-lookup q [] [] v a e = absurd (cc)
AllAlike-lookup q [] (y ∷ ys) v a e = absurd a
AllAlike-lookup q (x ∷ xs) [] v a e = absurd a
AllAlike-lookup q ((k, u) ∷ xs) ((j, w) ∷ ys) v a e = elim (Bool-cases (q == k)) [
  | inl here ↦ (u, rw here refl, same_user u w v a.1 (ground (arith, a.0, here)))
  | inr away ↦ rw away (AllAlike-lookup q xs ys v a.2 (ground (arith, a.0, away)))
]

pub AllAlike-IsSound :
    (ys : OrderedMap UserInfo) (l : UserList)
    → AllAlike l.users ys
    → IsSound l
    → IsSound (record l { users = ys })
AllAlike-IsSound ys l a s = record {
  keys = AllAlike-From 1 l.users ys a s.keys;
  own = λ k v at.
      let (u, there, alike) = AllAlike-lookup k l.users ys v a at in sym alike.0 ∙ s.own k u there;
  unique = λ i j v w at at' eq.
      let (u, there, alike) = AllAlike-lookup i l.users ys v a at in
      let (x, there', alike') = AllAlike-lookup j l.users ys w a at' in
      s.unique i j u x there there' (alike.1 ∙ eq ∙ sym alike'.1);
}
