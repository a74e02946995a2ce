-- ===== src/Xmpp/Named.antt =====
-- In every run the streams have the numbers of their entries, and so have the reports.
use mathlib.Core.Path.{subst}
use v6chat.Base.{
  ◌≡◌, refl, sym, Bool, true, Option, none, some, List, [], ◌∷◌, arith, Option-cases, Bool-cases,
  inl, inr,
}
use v6chat.Numbers.{ℤ}
use v6chat.Text.{Text}
use v6chat.Xmpp.File.{
  Stream, FileInformation, handle_socks5_data, handle_socks5_open, handle_socks5_error,
  handle_socks5_close, report,
}
use v6chat.Xmpp.Keyed.{
  NamedBy, Keyed, find_file-NamedBy, insert_file-Keyed, erase_file-Keyed, change_file-Keyed,
}
use v6chat.Xmpp.Runs.{
  Operation, requested, refused, streamed, started, closed, offered, stream_opened, data_came,
  stream_broke, stream_closed, file_sent, file_received, on_file, first_part, after, run,
  KeepsStream, data-KeepsStream, open-KeepsStream, error-KeepsStream, close-KeepsStream,
  send-KeepsStream, recv-KeepsStream,
}
use v6chat.Xmpp.Table.{
  XmppFileTransfer, Request, find_file, insert_file, erase_file, change_file, received_file,
  sent_file, handle_ft_request, handle_ft_request_error, handle_ft_socks5_bytestream, start, close,
  send_file,
}
use v6chat.Xmpp.Threads.{send_file_thread, recv_file_thread}

option_some {ℓ} : {A : Type ℓ} {a b : A} → some a ≡ some b → a ≡ b
option_some e = cc

KeepsStream-NamedBy :
    (sid : Text) (fi fi' : FileInformation)
    → KeepsStream fi fi'
    → NamedBy sid fi.socks_stream
    → NamedBy sid fi'.socks_stream
KeepsStream-NamedBy sid fi fi' (inl e) h = subst (NamedBy sid) (sym e) h
KeepsStream-NamedBy sid fi fi' (inr e) h = subst (NamedBy sid) (sym e) tt

on_file-Keyed :
    (sid : Text) (f : FileInformation → Option FileInformation) (t t' : XmppFileTransfer)
    → ((fi fi' : FileInformation) → f fi ≡ some fi' → KeepsStream fi fi')
    → Keyed t.file_list
    → on_file sid f t ≡ some t'
    → Keyed t'.file_list
unfolding on_file
on_file-Keyed sid f t t' keep h e = elim (Option-cases (find_file sid t.file_list)) [
  | inl missing ↦
      let same : t ≡ t' = ground arith in subst (λ (x : XmppFileTransfer). Keyed x.file_list) same h
  | inr (fi, there) ↦ elim (Option-cases (f fi)) [
    | inl crash ↦ absurd (ground arith)
    | inr (fi', done) ↦
        let same : change_file sid fi' t.file_list ≡ t'.file_list = ground arith in
        subst Keyed same (
          change_file-Keyed sid fi' t.file_list
            (KeepsStream-NamedBy sid fi fi' (keep fi fi' done)
              (find_file-NamedBy sid t.file_list fi h there))
            h)
  ]
]

streamed-Keyed :
    (connects : Bool) (s5b : Stream) (t t' : XmppFileTransfer)
    → Keyed t.file_list
    → first_part (handle_ft_socks5_bytestream connects s5b t) ≡ some t'
    → Keyed t'.file_list
unfolding first_part handle_ft_socks5_bytestream
streamed-Keyed connects s5b t t' h e = elim (Option-cases (find_file s5b.sid t.file_list)) [
  | inl missing ↦ let same : t.file_list ≡ t'.file_list = ground arith in subst Keyed same h
  | inr (fi, there) ↦
      let same : change_file s5b.sid (record fi { socks_stream = some s5b }) t.file_list
          ≡ t'.file_list =
        ground arith in
      subst Keyed same
        (change_file-Keyed s5b.sid (record fi { socks_stream = some s5b }) t.file_list refl h)
]

requested-Keyed :
    (to_ansi : Text → Text) (answer : Option Text) (r : Request) (t : XmppFileTransfer)
    → Keyed t.file_list
    → Keyed ((handle_ft_request to_ansi answer r t).0).file_list
unfolding handle_ft_request
requested-Keyed to_ansi none r t h = h
requested-Keyed to_ansi (some path) r t h = elim (Bool-cases t.has_listener) [
  | inl listens ↦
      let e : ((handle_ft_request to_ansi (some path) r t).0).file_list
          ≡ insert_file r.sid (received_file to_ansi r path) t.file_list =
        ground arith in
      subst Keyed (sym e) (insert_file-Keyed r.sid (received_file to_ansi r path) t.file_list tt h)
  | inr deaf ↦
      let e : ((handle_ft_request to_ansi (some path) r t).0).file_list ≡ t.file_list =
        ground arith in
      subst Keyed (sym e) h
]

offered-Keyed :
    (to_ansi : Text → Text) (size : Option ℤ) (sid path : Text) (t : XmppFileTransfer)
    → Keyed t.file_list
    → Keyed ((send_file to_ansi size sid path t).1).file_list
unfolding send_file
offered-Keyed to_ansi none sid path t h =
    let e : ((send_file to_ansi none sid path t).1).file_list ≡ t.file_list = ground arith in
    subst Keyed (sym e) h
offered-Keyed to_ansi (some n) sid path t h = elim (Bool-cases t.has_start) [
  | inl started_ ↦
      let e : ((send_file to_ansi (some n) sid path t).1).file_list
          ≡ insert_file sid (sent_file to_ansi path n t.has_listener) t.file_list =
        ground arith in
      subst Keyed (sym e)
        (insert_file-Keyed sid (sent_file to_ansi path n t.has_listener) t.file_list tt h)
  | inr not_started ↦
      let e : ((send_file to_ansi (some n) sid path t).1).file_list ≡ t.file_list = ground arith in
      subst Keyed (sym e) h
]

refused-Keyed :
    (server sid : Text) (t t' : XmppFileTransfer)
    → Keyed t.file_list
    → first_part (handle_ft_request_error server sid t) ≡ some t'
    → Keyed t'.file_list
unfolding first_part handle_ft_request_error
refused-Keyed server sid t t' h e =
    let same : erase_file sid t.file_list ≡ t'.file_list = ground arith in
    subst Keyed same (erase_file-Keyed sid t.file_list h)

after-Keyed :
    (to_ansi : Text → Text) (op : Operation) (t t' : XmppFileTransfer)
    → Keyed t.file_list
    → after to_ansi op t ≡ some t'
    → Keyed t'.file_list
unfolding after
after-Keyed to_ansi (requested answer r) t t' h e =
    let same : (handle_ft_request to_ansi answer r t).0 ≡ t' = cc in
    subst (λ (x : XmppFileTransfer). Keyed x.file_list) same (requested-Keyed to_ansi answer r t h)
after-Keyed to_ansi (refused server sid) t t' h e = refused-Keyed server sid t t' h e
after-Keyed to_ansi (streamed connects s5b) t t' h e = streamed-Keyed connects s5b t t' h e
after-Keyed to_ansi (started listens) t t' h e =
    unfold start in (let same : t.file_list ≡ t'.file_list = ground arith in subst Keyed same h)
after-Keyed to_ansi closed t t' h e =
    unfold close in (let same : t.file_list ≡ t'.file_list = ground arith in subst Keyed same h)
after-Keyed to_ansi (offered size sid path) t t' h e =
    let same : (send_file to_ansi size sid path t).1 ≡ t' = cc in
    subst (λ (x : XmppFileTransfer). Keyed x.file_list) same
      (offered-Keyed to_ansi size sid path t h)
after-Keyed to_ansi (stream_opened sid opens) t t' h e =
    on_file-Keyed sid (λ fi. some (handle_socks5_open opens fi)) t t'
      (λ fi fi' e'. subst (KeepsStream fi) (option_some e') (open-KeepsStream opens fi)) h e
after-Keyed to_ansi (data_came sid is_open writes piece) t t' h e =
    on_file-Keyed sid (handle_socks5_data is_open writes piece) t t'
      (data-KeepsStream is_open writes piece) h e
after-Keyed to_ansi (stream_broke sid s5b) t t' h e =
    on_file-Keyed sid (λ fi. first_part (handle_socks5_error s5b fi)) t t' (error-KeepsStream s5b) h
      e
after-Keyed to_ansi (stream_closed sid s5b) t t' h e =
    on_file-Keyed sid (λ fi. first_part (handle_socks5_close s5b fi)) t t' (close-KeepsStream s5b) h
      e
after-Keyed to_ansi (file_sent sid file rounds open_at_end) t t' h e =
    on_file-Keyed sid (λ fi. first_part (send_file_thread file rounds open_at_end fi)) t t'
      (send-KeepsStream file rounds open_at_end) h e
after-Keyed to_ansi (file_received sid answers open_at_end) t t' h e =
    on_file-Keyed sid (λ fi. first_part (recv_file_thread answers open_at_end fi fi)) t t'
      (recv-KeepsStream answers open_at_end) h e

run-Keyed :
    (to_ansi : Text → Text) (ops : List Operation) (t t' : XmppFileTransfer)
    → Keyed t.file_list
    → run to_ansi ops t ≡ some t'
    → Keyed t'.file_list
unfolding run
run-Keyed to_ansi [] t t' h e =
    let same : t ≡ t' = cc in subst (λ (x : XmppFileTransfer). Keyed x.file_list) same h
run-Keyed to_ansi (op ∷ ops) t t' h e = elim (Option-cases (after to_ansi op t)) [
  | inl crash ↦ absurd (ground arith)
  | inr (u, done) ↦ run-Keyed to_ansi ops u t' (after-Keyed to_ansi op t u h done) (ground arith)
]

-- Whatever peers ask, whatever the streams, the disk and the user do, in any order, from a table without
-- files: if the program has not crashed, the entry that stands under a number has a stream of that number or
-- none, and what it reports at the close or the fault of its stream names that number and the stream's
-- server.
pub run-report :
    (to_ansi : Text → Text) (ops : List Operation) (t t' : XmppFileTransfer) (sid : Text)
    (fi : FileInformation) (s s5b : Stream) (success : Bool)
    → t.file_list ≡ []
    → run to_ansi ops t ≡ some t'
    → find_file sid t'.file_list ≡ some fi
    → fi.socks_stream ≡ some s
    → fi.has_listener ≡ true
    → (s.sid ≡ sid)
      × (report success s5b fi
          ≡ record { success = success; server = s.server; account = s5b.username; sid = sid } ∷ [])
unfolding report
run-report to_ansi ops t t' sid fi s s5b success empty e there has listens =
    let keyed : Keyed t'.file_list = run-Keyed to_ansi ops t t' (subst Keyed (sym empty) tt) e in
    let named : s.sid ≡ sid =
      subst (NamedBy sid) has (find_file-NamedBy sid t'.file_list fi keyed there) in
    (named, ground arith)
