-- ===== src/Xmpp/File.antt =====
-- xmpp_interface/XmppFileTransfer.h and XmppFileTransfer.cpp: FileInformation, one file that is sent or
-- received, and its four handlers of a byte stream.
use v6chat.Base.{
  ℕ, ◌+◌, Bool, true, false, not, ◌&&◌, Option, none, some, List, [], ◌∷◌, ◌++◌, ◌==◌,
  if◌then◌else◌, length,
}
use v6chat.Numbers.{ℤ, pos, int_eq}
use v6chat.Text.{Text}

-- What the sources ask a byte stream of gloox: the server and the account of its initiator, and its number.
pub record Stream : Type 0 where
  pub server : Text
  pub username : Text
  pub sid : Text

-- `pf`: the constructor leaves it unset; an open file has what was written to it.
pub data FilePointer : Type 0 where
  unset : FilePointer
  null : FilePointer
  opened : FilePointer

-- type: 1 for a file that is sent, 2 for one that is received. content: what the file at the path holds.
-- has_listener: whether `ftListener` is set.
pub record FileInformation : Type 0 where
  pub file_type : ℕ
  pub endflag : Option Bool
  pub filename : Text
  pub filepath : Text
  pub ansifilename : Text
  pub ansifilepath : Text
  pub pf : FilePointer
  pub content : Text
  pub filesize : ℤ
  pub handedsize : ℕ
  pub socks_stream : Option Stream
  pub has_listener : Bool

-- `FileTransferEnd`
pub record Ended : Type 0 where
  pub success : Bool
  pub server : Text
  pub account : Text
  pub sid : Text

-- `fwrite(data, length, 1, pf)`: `writes` is whether the disk takes it all. The result is 0 also where there is
-- nothing to write.
unfoldable pub write_file : (writes : Bool) → Text → FileInformation → FileInformation
write_file writes data_ fi =
    if writes && not (length data_ == 0)
    then record fi { content = fi.content ++ data_ }
    else record fi { pf = null }

-- `handleSOCKS5Data`. `none`: the pointer was never set.
unfoldable pub handle_socks5_data :
    (is_open writes : Bool) → Text → FileInformation → Option FileInformation
unfolding write_file
handle_socks5_data is_open writes data_ fi =
    if fi.file_type == 2
    then elim fi.socks_stream [
      | none ↦ some fi
      | some s ↦
          if is_open
          then elim fi.pf [
            | unset ↦ none
            | null ↦ some fi
            | opened ↦
                let fi' = write_file writes data_ fi in
                some (record fi' { handedsize = fi.handedsize + length data_ })
          ]
          else some fi
    ]
    else some fi

-- `handleSOCKS5Open`; `opens`: whether the file opens, which empties it.
unfoldable pub handle_socks5_open : (opens : Bool) → FileInformation → FileInformation
handle_socks5_open opens fi =
    if (fi.file_type == 2) && opens
    then record fi { endflag = some true; pf = opened; content = [] }
    else record fi { endflag = some true; pf = null }

-- `if(type == 2 && pf) { fclose(pf); pf = NULL; }`
unfoldable pub close_file : FileInformation → Option FileInformation
close_file fi =
    if fi.file_type == 2
    then elim fi.pf [ unset ↦ none | null ↦ some fi | opened ↦ some (record fi { pf = null }) ]
    else some fi

-- The report at the end: the server and the number are those of the stream in the record.
unfoldable pub report : (success : Bool) → Stream → FileInformation → List Ended
report success s5b fi =
    if fi.has_listener
    then elim fi.socks_stream [
      | none ↦ record { success = success; server = []; account = s5b.username; sid = [] } ∷ []
      | some s ↦
          record { success = success; server = s.server; account = s5b.username; sid = s.sid } ∷ []
    ]
    else []

-- `handleSOCKS5Error`
unfoldable pub handle_socks5_error :
    Stream → FileInformation → Option (FileInformation × List Ended)
unfolding close_file report
handle_socks5_error s5b fi = elim (close_file (record fi { endflag = some false })) [
  | none ↦ none
  | some fi' ↦ some (fi', report false s5b fi')
]

-- `handleSOCKS5Close`
unfoldable pub handle_socks5_close :
    Stream → FileInformation → Option (FileInformation × List Ended)
unfolding close_file report
handle_socks5_close s5b fi = elim (close_file (record fi { endflag = some false })) [
  | none ↦ none
  | some fi' ↦ some (fi', report (int_eq fi'.filesize (pos fi'.handedsize)) s5b fi')
]
