-- ===== src/Peer/Attempts.antt =====
-- What the attempts to move a file hold when they are over.
use v6chat.Ack.Pool.{max_try_times}
use v6chat.Base.{
  ℕ, zero, suc, ◌≡◌, ◌∙◌, Bool, true, false, not, ◌&&◌, Option, some, List, [], ◌∷◌, map, arith,
  Option-cases, Bool-cases, inl, inr,
}
use v6chat.Peer.Transfer.{
  Way, attempt, attempts, Try, getting, get_file_msg, Offer, sending, send_file_msg, file_name,
}
use v6chat.FileList.Sent.{SendFileList, get_file_path}
use v6chat.Numbers.{ℤ}
use v6chat.Socket.Connection.{send_tcp_string_without_closesocket, connect_fails, send_string}
use v6chat.Socket.Datagram.{Held}
use v6chat.Text.{Text}

-- WinSock starts and the address does not resolve.
unfoldable pub is_unresolved : Way → Bool
is_unresolved way = way.net.startup && not way.net.resolves

attempt-held :
    (way : Way) (moves : Option Bool) (message : Text) (h h' : Held) (moved : Bool)
    → is_unresolved way ≡ false
    → attempt way moves message h ≡ some (moved, h')
    → h' ≡ h
unfolding attempt send_tcp_string_without_closesocket connect_fails is_unresolved
attempt-held way moves message h h' moved r e =
    ground (arith, e, r, Option-cases (send_string way.replies message), Option-cases moves)

unfoldable pub are_resolved : List (Way × Option Bool) → Bool
unfolding is_unresolved
are_resolved [] = true
are_resolved ((way, moves) ∷ tries) = not (is_unresolved way) && are_resolved tries

attempts-held :
    (n : ℕ) (tries : List (Way × Option Bool)) (message : Text) (h h' : Held) (moved : Bool)
    → are_resolved tries ≡ true
    → attempts n tries message h ≡ some (moved, h')
    → h' ≡ h
unfolding attempts are_resolved
attempts-held zero tries message h h' moved r e = ground (arith, e)
attempts-held (suc n) [] message h h' moved r e = cc
attempts-held (suc n) ((way, moves) ∷ tries) message h h' moved r e =
    elim (Option-cases (attempt way moves message h)) [
      | inl stuck ↦ let e' = rw (attempts, stuck) at e in ground (arith, e')
      | inr ((got, h1), at) ↦
          let same : h1 ≡ h = attempt-held way moves message h h1 got (ground (arith, r)) at in
          let e' = rw (attempts, at) at e in
          elim (Bool-cases got) [
            | inl yes_got ↦ ground (arith, yes_got, e', same)
            | inr no_got ↦
                attempts-held n tries message h1 h' moved (ground (arith, r))
                  (ground (arith, no_got, e'))
                ∙ same
          ]
    ]

-- `GetFileMsg` and `SendFileMsg` give back every socket and every start of WinSock, whether the file moved
-- or not, if in no attempt WinSock starts and the address does not resolve.
pub get_file_msg-held :
    (tries : List Try) (offers : List Offer) (to_ansi : Text → Text) (request : Text)
    (message : Text → Text) (file_id : ℤ) (files : SendFileList) (h h1 h2 : Held) (got sent : Bool)
    → are_resolved (map getting tries) ≡ true
    → are_resolved (map sending offers) ≡ true
    → get_file_msg tries request h ≡ some (got, h1)
    → send_file_msg to_ansi offers message file_id files h ≡ some (sent, h2)
    → (h1 ≡ h) × (h2 ≡ h)
unfolding get_file_msg send_file_msg
get_file_msg-held tries offers to_ansi request message file_id files h h1 h2 got sent r q e f = (
  attempts-held max_try_times (map getting tries) request h h1 got r e,
  elim (Option-cases (get_file_path file_id files)) [
    | inl missing ↦ let f' = rw (send_file_msg, missing) at f in ground (arith, f')
    | inr (path, at) ↦
        attempts-held max_try_times (map sending offers) (message (file_name (to_ansi path))) h h2
          sent q (rw (send_file_msg, at) at f)
  ],
)
