-- ===== src/FileList/Downloads.antt =====
-- What the state of a transfer means to the loops that look for a downloaded file.
use v6chat.Base.{ℕ, ◌≡◌, refl, Bool, true, false, Option, none, some, [], ◌∷◌, arith, if◌then◌else◌}
use v6chat.FileList.Received.{
  RecvFileList, RecvFilePkg, is_transfer, first_downloaded, change_state, change_file_state,
  get_downloaded_file_path,
}
use v6chat.Numbers.{ℤ}
use v6chat.OrderedMap.{OrderedMap}
use v6chat.Text.{Text}

-- The name of the first file of a transfer.
unfoldable pub first_path : ℤ → Text → OrderedMap RecvFilePkg → Option Text
first_path uid fid [] = none
first_path uid fid ((n, fp) ∷ m) =
    if is_transfer uid fid fp then some fp.pathname else first_path uid fid m

path_found : Option (ℕ × RecvFilePkg) → Option Text
path_found none = none
path_found (some (n, fp)) = some fp.pathname

change_state_downloaded :
    (uid : ℤ) (fid : Text) (m : OrderedMap RecvFilePkg)
    → path_found (first_downloaded uid fid (change_state uid fid true m).1) ≡ first_path uid fid m
unfolding change_state first_downloaded path_found first_path is_transfer
change_state_downloaded uid fid [] = refl
change_state_downloaded uid fid ((n, fp) ∷ m) = ground (arith, change_state_downloaded uid fid m)

change_state_again :
    (uid : ℤ) (fid : Text) (b : Bool) (m : OrderedMap RecvFilePkg)
    → change_state uid fid b (change_state uid fid b m).1 ≡ (false, (change_state uid fid b m).1)
unfolding change_state is_transfer
change_state_again uid fid b [] = refl
change_state_again uid fid b ((n, fp) ∷ m) = ground (arith, change_state_again uid fid b m)

-- After a transfer is marked as downloaded, the search for its downloaded file answers with the name of
-- the transfer's first file, and answers `false` only if the list has no file of that transfer.
pub get_downloaded_file_path-change_file_state :
    (uid : ℤ) (fid : Text) (s : RecvFileList)
    → get_downloaded_file_path uid fid (change_file_state uid fid true s).1
      ≡ first_path uid fid s.files
unfolding get_downloaded_file_path change_file_state path_found
get_downloaded_file_path-change_file_state uid fid s =
    ground (arith, change_state_downloaded uid fid s.files)

-- A second request for the same state of a transfer changes nothing and answers `false`.
pub change_file_state_twice :
    (uid : ℤ) (fid : Text) (b : Bool) (s : RecvFileList)
    → let t = (change_file_state uid fid b s).1 in change_file_state uid fid b t ≡ (false, t)
unfolding change_file_state
change_file_state_twice uid fid b s = ground (arith, change_state_again uid fid b s.files)
