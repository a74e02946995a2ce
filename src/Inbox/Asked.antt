-- ===== src/Inbox/Asked.antt =====
-- kernel/User/TempUserList.cpp: the peers that were asked to become friends and have not answered.
use v6chat.Base.{
  ℕ, ◌+◌, ◌-◌, ◌≡◌, refl, Bool, true, false, List, [], ◌∷◌, ◌++◌, arith, if◌then◌else◌, ltb,
}
use v6chat.Numbers.{ℤ}
use v6chat.Text.{Text, text_eq, text_eq_iff}

pub record TempUser : Type 0 where
  pub ip : Text
  pub port : ℤ

abbrev pub TempUserList : Type 0
TempUserList = List TempUser

unfoldable pub add_temp_user : TempUser → TempUserList → TempUserList
add_temp_user user s = s ++ user ∷ []

unfoldable pub find_temp_user : Text → TempUserList → Bool
find_temp_user ip [] = false
find_temp_user ip (u ∷ us) = if text_eq u.ip ip then true else find_temp_user ip us

-- The first entry of that address.
unfoldable pub delete_temp_user : Text → TempUserList → TempUserList
delete_temp_user ip [] = []
delete_temp_user ip (u ∷ us) = if text_eq u.ip ip then us else u ∷ delete_temp_user ip us

-- How many requests to an address are open.
unfoldable pub open_requests : Text → TempUserList → ℕ
open_requests ip [] = 0
open_requests ip (u ∷ us) = (if text_eq u.ip ip then 1 else 0) + open_requests ip us

find-open : (ip : Text) (s : TempUserList) → find_temp_user ip s ≡ ltb 0 (open_requests ip s)
unfolding find_temp_user open_requests
find-open ip [] = refl
find-open ip (u ∷ us) = ground (arith, find-open ip us)

open-add :
    (ip : Text) (u : TempUser) (s : TempUserList)
    → open_requests ip (add_temp_user u s) ≡ open_requests ip s + (if text_eq u.ip ip then 1 else 0)
unfolding add_temp_user open_requests
open-add ip u [] = omega arith
open-add ip u (x ∷ us) = ground (arith, open-add ip u us)

open-delete :
    (ip q : Text) (s : TempUserList)
    → open_requests q (delete_temp_user ip s) ≡ open_requests q s - (if text_eq ip q then 1 else 0)
unfolding delete_temp_user open_requests
open-delete ip q [] = ground arith
open-delete ip q (u ∷ us) =
    ground (arith, open-delete ip q us, text_eq_iff u.ip ip, text_eq_iff u.ip q, text_eq_iff ip q)

-- A peer is found exactly while requests to its address are open: each request adds one to its own
-- address, each deletion takes one from its address if there is one, and other addresses keep theirs.
pub find_temp_user-open :
    (q ip : Text) (u : TempUser) (s : TempUserList)
    → (find_temp_user q s ≡ ltb 0 (open_requests q s))
      × (open_requests q (add_temp_user u s)
          ≡ open_requests q s + (if text_eq u.ip q then 1 else 0))
      × (open_requests q (delete_temp_user ip s)
          ≡ open_requests q s - (if text_eq ip q then 1 else 0))
find_temp_user-open q ip u s = (find-open q s, open-add q u s, open-delete ip q s)
