-- ===== src/Tests/Xmpps.antt =====
-- Files over byte streams: a small file that is sent, one that comes in by two pieces, and one whose last piece
-- is lost.
use v6chat.Base.{
  ◌+◌, ◌<◌, ◌==◌, not, ◌≡◌, refl, true, false, none, some, List, [], ◌∷◌, arith, length,
}
use v6chat.Numbers.{pos}
use v6chat.Text.{Text, codes, text_eq}
use v6chat.Xmpp.Arrival.{receive, receive_cut, receive-joined, receive_cut-success}
use v6chat.Xmpp.File.{
  null, opened, Stream, FileInformation, report, handle_socks5_data, handle_socks5_open,
}
use v6chat.Xmpp.Named.{run-report}
use v6chat.Xmpp.Runs.{Operation, requested, streamed, stream_opened, data_came, run}
use v6chat.Xmpp.Sending.{joined, send_file_thread-joined}
use v6chat.Xmpp.Table.{
  XmppFileTransfer, Request, received_file, sent_file, handle_ft_socks5_bytestream,
  handle_ft_request,
}
use v6chat.Xmpp.Threads.{Round, send_file_thread}

abbrev stream : Stream
stream = record { server = codes "chat.example"; username = codes "bob"; sid = codes "s1" }

abbrev incoming : Request
incoming = record {
  server = codes "chat.example";
  username = codes "bob";
  id = codes "q1";
  sid = codes "s1";
  name = codes "note.txt";
  size = pos 5;
}

abbrev offered_file : FileInformation
offered_file = record (received_file (λ t. t) incoming (codes "c:note.txt")) {
  socks_stream = some stream;
}

-- A stream that takes what is not empty.
abbrev steady : Round
steady = record { is_open = true; sends = λ piece. not (length piece == 0) }

steady_takes : (piece : Text) → 0 < length piece → not (length piece == 0) ≡ true
steady_takes piece h = ground arith

abbrev outgoing : FileInformation
outgoing = record (sent_file (λ t. t) (codes "c:note.txt") (pos 5) true) {
  socks_stream = some stream;
}

send_file_thread-joined_example :
    (pieces : List Text) × (send_file_thread
        (some (codes "hello"))
        (steady ∷ steady ∷ [])
        true
        outgoing
      ≡ some (
        record outgoing {
          endflag = some false;
          handedsize = length (codes "hello");
          socks_stream = none;
        },
        record {
          pieces = pieces;
          ended =
              record {
                success = true;
                server = codes "chat.example";
                account = codes "bob";
                sid = codes "s1";
              }
              ∷ [];
          disposed = true;
          freed = true;
        },
      ))
    × (joined pieces ≡ codes "hello")
unfolding sent_file
send_file_thread-joined_example =
    send_file_thread-joined (codes "hello") (steady ∷ steady ∷ []) outgoing stream refl refl refl
      refl refl ((refl, refl, steady_takes), ((refl, refl, steady_takes), tt)) (omega arith)

receive-joined_example :
    receive (codes "he" ∷ codes "llo" ∷ []) stream offered_file
    ≡ some (
      record offered_file {
        endflag = some false;
        pf = null;
        content = joined (codes "he" ∷ codes "llo" ∷ []);
        handedsize = offered_file.handedsize + length (joined (codes "he" ∷ codes "llo" ∷ []));
      },
      record {
        success = true;
        server = codes "chat.example";
        account = codes "bob";
        sid = codes "s1";
      }
          ∷ [],
    )
unfolding received_file
receive-joined_example =
    receive-joined (codes "he" ∷ codes "llo" ∷ []) offered_file stream stream refl refl refl refl
      refl (omega arith, (omega arith, tt))

receive_cut-success_example :
    receive_cut (codes "he" ∷ []) (codes "llo") stream offered_file
    ≡ some (
      record offered_file {
        endflag = some false;
        pf = null;
        content = joined (codes "he" ∷ []);
        handedsize =
            offered_file.handedsize + length (joined (codes "he" ∷ [])) + length (codes "llo");
      },
      record {
        success = true;
        server = codes "chat.example";
        account = codes "bob";
        sid = codes "s1";
      }
          ∷ [],
    )
unfolding received_file
receive_cut-success_example =
    receive_cut-success (codes "he" ∷ []) (codes "llo") offered_file stream stream refl refl refl
      refl refl (omega arith, tt)

abbrev idle : XmppFileTransfer
idle = record { has_start = true; file_list = []; has_listener = true }

abbrev calls : List Operation
calls =
    requested (some (codes "c:note.txt")) incoming
    ∷ streamed true stream
    ∷ stream_opened (codes "s1") true
    ∷ data_came (codes "s1") true true (codes "he")
    ∷ []

abbrev half_way : FileInformation
half_way = record offered_file {
  endflag = some true;
  pf = opened;
  content = codes "he";
  handedsize = 2;
}

run-report_example :
    (codes "s1" ≡ codes "s1")
    × (report false stream half_way
        ≡ record {
          success = false;
          server = codes "chat.example";
          account = codes "bob";
          sid = codes "s1";
        }
          ∷ [])
unfolding run handle_ft_socks5_bytestream handle_ft_request text_eq handle_socks5_data
    handle_socks5_open received_file
run-report_example =
    run-report (λ t. t) calls idle (record idle { file_list = (codes "s1", half_way) ∷ [] })
      (codes "s1") half_way stream stream false refl refl refl refl refl
