-- ===== src/User/Queue.antt =====
-- The texts of the chats are seen in the order in which they came in.
use v6chat.Base.{
  ℕ, zero, suc, ◌≡◌, refl, sym, ap, ◌∙◌, true, false, Option, none, some, List, [], ◌∷◌, ◌++◌,
  arith, ◌==◌, if◌then◌else◌, length, append-nil, append_assoc, Bool-cases, Option-cases, inl, inr,
  ◌>>=◌,
}
use v6chat.Numbers.{ℤ}
use v6chat.OrderedMap.{lookup, put, lookup-put}
use v6chat.Text.{Text}
use v6chat.User.Chat.{ChatStore, record_text, time_of, update_chat_content, get_chat_content}
use v6chat.User.Info.{ChatMsg, UserInfo, recv_text}
use v6chat.User.UserList.{Backend, UserList}

-- Texts that come in from users of the list, one after the other.
unfoldable pub receive : Backend → ChatStore → List (ℕ × Text × ℤ) → UserList → Option UserList
unfolding update_chat_content
receive b c [] l = some l
receive b c ((k, text, content_type) ∷ arrivals) l = do
  l' ← update_chat_content b c k text content_type l
  receive b c arrivals l'

-- What one of the users is to be shown of them, each text with its time and type.
unfoldable pub log : Backend → ChatStore → ℕ → UserInfo → List (ℕ × Text × ℤ) → List ChatMsg
log b c uid u [] = []
log b c uid u ((k, text, content_type) ∷ arrivals) =
    let rest = log b c uid u arrivals in
    if uid == k
    then record {
      msg = text;
      time = time_of (record_text b c false text u);
      msg_type = content_type;
    }
      ∷ rest
    else rest

abbrev seen_then : Option ChatMsg → List ChatMsg → List ChatMsg
seen_then none rest = rest
seen_then (some msg) rest = msg ∷ rest

-- Asking for texts of a user, as often as given: the texts, in their order.
unfoldable pub read_chat : ℕ → ℕ → UserList → List ChatMsg
unfolding get_chat_content
read_chat zero uid l = []
read_chat (suc n) uid l =
    let (seen, l') = get_chat_content uid l in let rest = read_chat n uid l' in seen_then seen rest

pub get_at :
    (uid : ℕ) (l : UserList) (u : UserInfo) (m : ChatMsg) (ms : List ChatMsg)
    → l.has_init ≡ true
    → lookup uid l.users ≡ some u
    → u.unread_chat_content ≡ m ∷ ms
    → get_chat_content uid l
      ≡ (some m, record l { users = put uid (record u { unread_chat_content = ms }) l.users })
unfolding get_chat_content
get_at uid l u m ms ready at e = rw (get_chat_content, at, e) (ground arith)

read_chat-queue :
    (ms : List ChatMsg) (uid : ℕ) (l : UserList) (u : UserInfo)
    → l.has_init ≡ true
    → lookup uid l.users ≡ some u
    → u.unread_chat_content ≡ ms
    → read_chat (length ms) uid l ≡ ms
unfolding read_chat
read_chat-queue [] uid l u ready at e = refl
read_chat-queue (m ∷ ms) uid l u ready at e =
    let v = record u { unread_chat_content = ms } in
    let l' = record l { users = put uid v l.users } in
    let there : lookup uid l'.users ≡ some v = ground (arith, lookup-put uid uid v l.users) in
    ap (λ r. seen_then r.0 (read_chat (length ms) uid r.1)) (get_at uid l u m ms ready at e)
    ∙ ap (λ t. m ∷ t) (read_chat-queue ms uid l' v ready there refl)

-- The user with one more text.
abbrev one_more : Backend → ChatStore → Text → ℤ → UserInfo → UserInfo
one_more b c text content_type u =
    recv_text content_type text (time_of (record_text b c false text u)) u

update_at :
    (b : Backend) (c : ChatStore) (k : ℕ) (text : Text) (content_type : ℤ) (l : UserList)
    (w : UserInfo)
    → lookup k l.users ≡ some w
    → update_chat_content b c k text content_type l
      ≡ some (record l { users = put k (one_more b c text content_type w) l.users })
unfolding update_chat_content
update_at b c k text content_type l w at = rw (update_chat_content, at) refl

update_missing :
    (b : Backend) (c : ChatStore) (k : ℕ) (text : Text) (content_type : ℤ) (l : UserList)
    → lookup k l.users ≡ none
    → update_chat_content b c k text content_type l ≡ none
unfolding update_chat_content
update_missing b c k text content_type l at = rw (update_chat_content, at) refl

log-recv_text :
    (b : Backend) (c : ChatStore) (uid : ℕ) (u : UserInfo) (y : ℤ) (t r : Text)
    (arrivals : List (ℕ × Text × ℤ))
    → log b c uid (recv_text y t r u) arrivals ≡ log b c uid u arrivals
unfolding log recv_text record_text
log-recv_text b c uid u y t r [] = refl
log-recv_text b c uid u y t r ((k, text, content_type) ∷ arrivals) =
    rw (log-recv_text b c uid u y t r arrivals) refl

receive-queue :
    (b : Backend) (c : ChatStore) (arrivals : List (ℕ × Text × ℤ)) (uid : ℕ) (l l' : UserList)
    (u : UserInfo)
    → receive b c arrivals l ≡ some l'
    → lookup uid l.users ≡ some u
    → (l'.has_init ≡ l.has_init)
      × (lookup uid l'.users
          ≡ some
              (record u { unread_chat_content = u.unread_chat_content ++ log b c uid u arrivals }))
unfolding receive log recv_text
receive-queue b c [] uid l l' u e at =
    let same : l ≡ l' = ground arith in
    rw⁻¹ same (
      refl,
      at
          ∙ ap (λ q. some (record u { unread_chat_content = q }))
              (sym (append-nil u.unread_chat_content)),
    )
receive-queue b c ((k, text, content_type) ∷ arrivals) uid l l' u e at =
    elim (Bool-cases (uid == k)) [
      | inl here ↦
          let m : ChatMsg = record {
            msg = text;
            time = time_of (record_text b c false text u);
            msg_type = content_type;
          } in
          let x = one_more b c text content_type u in
          let l1 = record l { users = put k x l.users } in
          let at_k : lookup k l.users ≡ some u = ground (arith, here) in
          let (ready, at') =
            receive-queue b c arrivals uid l1 l' x
              (ground (arith, update_at b c k text content_type l u at_k))
              (ground (arith, here, lookup-put uid k x l.users)) in
          rw here (
            ready,
            at'
                ∙ ap (λ q. some (record u { unread_chat_content = q }))
                    (append_assoc u.unread_chat_content (m ∷ []) (log b c uid x arrivals)
                      ∙ ap (λ q. u.unread_chat_content ++ m ∷ q)
                          (log-recv_text b c uid u content_type text m.time arrivals)),
          )
      | inr away ↦ elim (Option-cases (lookup k l.users)) [
        | inl nobody ↦ absurd (ground (arith, update_missing b c k text content_type l nobody))
        | inr (w, there) ↦
            let x = one_more b c text content_type w in
            rw away (
              receive-queue b c arrivals uid (record l { users = put k x l.users }) l' u
                (ground (arith, update_at b c k text content_type l w there))
                (ground (arith, away, lookup-put uid k x l.users)))
      ]
    ]

-- Let the list be ready, and let texts come in from users of the list. Asking for the texts of one of them,
-- as often as it has texts, gives those that it had before and then its new ones, in the order in which
-- they came, each with its time and type; texts of other users make no difference.
pub read_chat-receive :
    (b : Backend) (c : ChatStore) (arrivals : List (ℕ × Text × ℤ)) (uid : ℕ) (l l' : UserList)
    (u : UserInfo)
    → l.has_init ≡ true
    → receive b c arrivals l ≡ some l'
    → lookup uid l.users ≡ some u
    → let queue = u.unread_chat_content ++ log b c uid u arrivals in
      read_chat (length queue) uid l' ≡ queue
read_chat-receive b c arrivals uid l l' u ready e at =
    let (same, there) = receive-queue b c arrivals uid l l' u e at in
    read_chat-queue _ uid l' _ (same ∙ ready) there refl
