-- ===== src/Xmpp/Arrival.antt =====
-- A file that comes in over a byte stream: whole, and with its last piece lost.
use v6chat.Base.{
  ℕ, ◌+◌, ◌<◌, ◌≡◌, refl, sym, ◌∙◌, true, false, Option, some, List, [], ◌∷◌, ◌++◌, arith, length,
  length-append, All, append-nil, append_assoc, ◌>>=◌, ◌⊎◌, inl, inr,
}
use v6chat.Numbers.{pos, int_eq}
use v6chat.Text.{Text}
use v6chat.Xmpp.File.{
  opened, null, Stream, FileInformation, Ended, write_file, handle_socks5_data, handle_socks5_open,
  handle_socks5_close, close_file, report,
}
use v6chat.Xmpp.Sending.{joined}

-- Pieces that come in over an open stream, and that the disk takes.
unfoldable pub deliver : List Text → FileInformation → Option FileInformation
unfolding handle_socks5_data
deliver [] fi = some fi
deliver (piece ∷ pieces) fi = do fi' ← handle_socks5_data true true piece fi; deliver pieces fi'

-- A whole transfer: the stream opens, pieces come in, and it closes.
unfoldable pub receive :
    List Text → Stream → FileInformation → Option (FileInformation × List Ended)
unfolding deliver handle_socks5_open handle_socks5_close
receive pieces s5b fi = do
  fi' ← deliver pieces (handle_socks5_open true fi)
  handle_socks5_close s5b fi'

-- The same, where the disk does not take the last piece.
unfoldable pub receive_cut :
    List Text → (last : Text) → Stream → FileInformation → Option (FileInformation × List Ended)
unfolding deliver handle_socks5_open handle_socks5_close handle_socks5_data
receive_cut pieces last s5b fi = do
  fi' ← deliver pieces (handle_socks5_open true fi)
  fi'' ← handle_socks5_data true false last fi'
  handle_socks5_close s5b fi''

-- No piece is empty.
abbrev pub Filled : List Text → Type 0
Filled pieces = All (λ piece. 0 < length piece) pieces

data_written :
    (piece : Text) (fi : FileInformation) (s : Stream)
    → fi.file_type ≡ 2
    → fi.socks_stream ≡ some s
    → fi.pf ≡ opened
    → 0 < length piece
    → handle_socks5_data true true piece fi
      ≡ some
          (record fi { content = fi.content ++ piece; handedsize = fi.handedsize + length piece })
unfolding handle_socks5_data write_file
data_written piece fi s t has o filled = ground arith

with_parts :
    (fi : FileInformation) (c c' : Text) (n n' : ℕ)
    → c ≡ c'
    → n ≡ n'
    → some (record fi { content = c; handedsize = n })
      ≡ some (record fi { content = c'; handedsize = n' })
with_parts fi c c' n n' p q = rw (p, q) refl

deliver-written :
    (pieces : List Text) (fi : FileInformation) (s : Stream)
    → fi.file_type ≡ 2
    → fi.socks_stream ≡ some s
    → fi.pf ≡ opened
    → Filled pieces
    → deliver pieces fi
      ≡ some (record fi {
        content = fi.content ++ joined pieces;
        handedsize = fi.handedsize + length (joined pieces);
      })
unfolding deliver
deliver-written [] fi s t has o filled =
    with_parts fi fi.content (fi.content ++ []) fi.handedsize (fi.handedsize + 0)
      (sym (append-nil fi.content)) (omega arith)
deliver-written (piece ∷ pieces) fi s t has o filled =
    let fi' : FileInformation = record fi {
      content = fi.content ++ piece;
      handedsize = fi.handedsize + length piece;
    } in
    rw (data_written piece fi s t has o filled.0) (
      deliver-written pieces fi' s t has o filled.1
      ∙ with_parts fi ((fi.content ++ piece) ++ joined pieces)
          (fi.content ++ (piece ++ joined pieces))
          (fi.handedsize + length piece + length (joined pieces))
          (fi.handedsize + length (piece ++ joined pieces))
          (append_assoc fi.content piece (joined pieces))
          (omega (arith, length-append piece (joined pieces))))

-- The record once the stream is open and the pieces came in.
arrived : Text → FileInformation → FileInformation
arrived text fi = record fi {
  endflag = some true;
  pf = opened;
  content = text;
  handedsize = fi.handedsize + length text;
}

deliver-arrived :
    (pieces : List Text) (fi : FileInformation) (s : Stream)
    → fi.file_type ≡ 2
    → fi.socks_stream ≡ some s
    → Filled pieces
    → deliver pieces (handle_socks5_open true fi) ≡ some (arrived (joined pieces) fi)
unfolding arrived handle_socks5_open
deliver-arrived pieces fi s t has filled =
    let fi' : FileInformation = record fi { endflag = some true; pf = opened; content = [] } in
    let e : handle_socks5_open true fi ≡ fi' = ground arith in
    rw e (deliver-written pieces fi' s t has refl filled)

handle_socks5_close-end :
    (fi : FileInformation) (s s5b : Stream) (n : ℕ)
    → fi.file_type ≡ 2
    → fi.socks_stream ≡ some s
    → fi.has_listener ≡ true
    → fi.filesize ≡ pos n
    → fi.handedsize ≡ n
    → fi.pf ≡ opened ⊎ (fi.pf ≡ null)
    → handle_socks5_close s5b fi
      ≡ some (
        record fi { endflag = some false; pf = null },
        record { success = true; server = s.server; account = s5b.username; sid = s.sid } ∷ [],
      )
unfolding handle_socks5_close close_file report int_eq
handle_socks5_close-end fi s s5b n t has listens size handed o = ground arith

-- Let the record be one of a file that is received, with its stream, a listener and nothing handed over yet.
-- Whatever pieces a file of the announced size comes in by, none of them empty: if the file opens and the disk
-- takes all, then the file holds the pieces one after the other, and the end is reported as a success under
-- the number of the stream.
pub receive-joined :
    (pieces : List Text) (fi : FileInformation) (s s5b : Stream)
    → fi.file_type ≡ 2
    → fi.socks_stream ≡ some s
    → fi.has_listener ≡ true
    → fi.handedsize ≡ 0
    → fi.filesize ≡ pos (length (joined pieces))
    → Filled pieces
    → receive pieces s5b fi
      ≡ some (
        record fi {
          endflag = some false;
          pf = null;
          content = joined pieces;
          handedsize = fi.handedsize + length (joined pieces);
        },
        record { success = true; server = s.server; account = s5b.username; sid = s.sid } ∷ [],
      )
unfolding receive arrived
receive-joined pieces fi s s5b t has listens start size filled =
    rw (receive, deliver-arrived pieces fi s t has filled)
      (handle_socks5_close-end (arrived (joined pieces) fi) s s5b (length (joined pieces)) t has
        listens size (omega arith) (inl refl))

data_lost :
    (last : Text) (fi : FileInformation) (s : Stream)
    → fi.file_type ≡ 2
    → fi.socks_stream ≡ some s
    → fi.pf ≡ opened
    → handle_socks5_data true false last fi
      ≡ some (record fi { pf = null; handedsize = fi.handedsize + length last })
unfolding handle_socks5_data write_file
data_lost last fi s t has o = ground arith

-- Let the record be one of a file that is received, with its stream, a listener and nothing handed over yet, and
-- let the file open. If a file of the announced size comes in by pieces, of which all but the last are not
-- empty and are taken by the disk, and the disk does not take the last one, then the end is reported as a success
-- all the same, and the file lacks that piece.
pub receive_cut-success :
    (pieces : List Text) (last : Text) (fi : FileInformation) (s s5b : Stream)
    → fi.file_type ≡ 2
    → fi.socks_stream ≡ some s
    → fi.has_listener ≡ true
    → fi.handedsize ≡ 0
    → fi.filesize ≡ pos (length (joined pieces) + length last)
    → Filled pieces
    → receive_cut pieces last s5b fi
      ≡ some (
        record fi {
          endflag = some false;
          pf = null;
          content = joined pieces;
          handedsize = fi.handedsize + length (joined pieces) + length last;
        },
        record { success = true; server = s.server; account = s5b.username; sid = s.sid } ∷ [],
      )
unfolding receive_cut arrived
receive_cut-success pieces last fi s s5b t has listens start size filled =
    let fi' : FileInformation = arrived (joined pieces) fi in
    rw (receive_cut, deliver-arrived pieces fi s t has filled, data_lost last fi' s t has refl)
      (handle_socks5_close-end (record fi' { pf = null; handedsize = fi'.handedsize + length last })
        s s5b (length (joined pieces) + length last) t has listens size (omega arith) (inr refl))
