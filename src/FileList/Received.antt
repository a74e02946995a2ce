-- ===== src/FileList/Received.antt =====
-- kernel/FileList/RecvFileList.cpp. Where a constructor of the sources leaves a field unset, its
-- value is an argument: whatever the memory held.
use v6chat.Base.{
  ℕ, ◌+◌, Bool, true, false, ◌&&◌, not, Option, none, some, [], ◌∷◌, ◌==◌, if◌then◌else◌,
}
use v6chat.Numbers.{ℤ, pos, negsuc, to_unsigned}
use v6chat.OrderedMap.{OrderedMap, lookup, put, erase, contains}
use v6chat.Text.{Text, text_eq}

pub record RecvFilePkg : Type 0 where
  pub download : Bool
  pub uid : ℕ
  pub fid : Text
  pub pathname : Text

pub record RecvFileList : Type 0 where
  pub files : OrderedMap RecvFilePkg
  pub files_count : ℕ

unfoldable pub new : RecvFileList
new = record { files = []; files_count = 1 }

add_pkg : RecvFilePkg → RecvFileList → ℕ × RecvFileList
add_pkg fp s = (
  s.files_count,
  record s { files = put s.files_count fp s.files; files_count = s.files_count + 1 },
)

-- Only the name is given: `download` and `uid` stay as the memory was.
unfoldable pub add_file_name :
    (unset : Bool) (unset_uid : ℕ) → Text → RecvFileList → ℕ × RecvFileList
unfolding add_pkg
add_file_name unset unset_uid name =
    add_pkg (record { download = unset; uid = unset_uid; fid = []; pathname = name })

unfoldable pub add_file_item : ℕ → Text → Text → Bool → RecvFileList → ℕ × RecvFileList
unfolding add_pkg
add_file_item uid fid name downloaded =
    add_pkg (record { download = downloaded; uid = uid; fid = fid; pathname = name })

unfoldable pub delete_file_item : ℤ → RecvFileList → RecvFileList
delete_file_item (negsuc n) s = s
delete_file_item (pos n) s = if contains n s.files then record s { files = erase n s.files } else s

path_of : Option RecvFilePkg → Option Text
path_of none = none
path_of (some fp) = some fp.pathname

unfoldable pub get_file_path : ℤ → RecvFileList → Option Text
unfolding path_of
get_file_path (negsuc n) s = none
get_file_path (pos n) s = path_of (lookup n s.files)

-- `it->second.uid == uid && it->second.fid == fid`: the `int` is compared as an `unsigned int`.
unfoldable pub is_transfer : ℤ → Text → RecvFilePkg → Bool
is_transfer uid fid fp = fp.uid == to_unsigned uid && text_eq fp.fid fid

-- The loop that GetDownloadedFilePath and GetDownloadedFileNumber share.
unfoldable pub first_downloaded : ℤ → Text → OrderedMap RecvFilePkg → Option (ℕ × RecvFilePkg)
first_downloaded uid fid [] = none
first_downloaded uid fid ((n, fp) ∷ m) =
    if is_transfer uid fid fp && fp.download then some (n, fp) else first_downloaded uid fid m

unfoldable pub get_downloaded_file_path : ℤ → Text → RecvFileList → Option Text
get_downloaded_file_path uid fid s = elim (first_downloaded uid fid s.files) [
  | none ↦ none
  | some (n, fp) ↦ some fp.pathname
]

unfoldable pub get_downloaded_file_number : ℤ → Text → RecvFileList → Option ℕ
get_downloaded_file_number uid fid s = elim (first_downloaded uid fid s.files) [
  | none ↦ none
  | some (n, fp) ↦ some n
]

same : Bool → Bool → Bool
same true b = b
same false b = not b

-- The first entry of the transfer decides: changed, with `true`, or as asked already, with `false`.
unfoldable pub change_state :
    ℤ → Text → Bool → OrderedMap RecvFilePkg → Bool × OrderedMap RecvFilePkg
unfolding same
change_state uid fid download [] = (false, [])
change_state uid fid download ((n, fp) ∷ m) =
    if is_transfer uid fid fp
    then if same fp.download download
      then (false, (n, fp) ∷ m)
      else (true, (n, record fp { download = download }) ∷ m)
    else let (changed, rest) = change_state uid fid download m in (changed, (n, fp) ∷ rest)

unfoldable pub change_file_state : ℤ → Text → Bool → RecvFileList → Bool × RecvFileList
change_file_state uid fid download s =
    let (changed, m) = change_state uid fid download s.files in (changed, record s { files = m })
