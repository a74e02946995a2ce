-- ===== src/FileList/Sent.antt =====
-- kernel/FileList/SendFileList.cpp. `files_count` is the next number; a path is a wide string.
use v6chat.Base.{ℕ, ◌+◌, Option, none, [], if◌then◌else◌}
use v6chat.Numbers.{ℤ, pos, negsuc}
use v6chat.OrderedMap.{OrderedMap, lookup, put, erase, contains}
use v6chat.Text.{Text}

pub record SendFileList : Type 0 where
  pub files : OrderedMap Text
  pub files_count : ℕ

pub new : SendFileList
new = record { files = []; files_count = 1 }

-- The path joins the list under the next number, which is returned.
unfoldable pub add_file_item : Text → SendFileList → ℕ × SendFileList
add_file_item path s = (
  s.files_count,
  record s { files = put s.files_count path s.files; files_count = s.files_count + 1 },
)

-- A number comes from a text and may be negative; no file has such a number.
unfoldable pub delete_file_item : ℤ → SendFileList → SendFileList
delete_file_item (negsuc n) s = s
delete_file_item (pos n) s = if contains n s.files then record s { files = erase n s.files } else s

-- `none` is the result `false`.
unfoldable pub get_file_path : ℤ → SendFileList → Option Text
get_file_path (negsuc n) s = none
get_file_path (pos n) s = lookup n s.files
