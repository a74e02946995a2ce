-- ===== src/Windows.antt =====
-- The messages that the program posts to its own windows (`XLUE_GetHostWndByID`, `PostMessage`).
-- Which windows are open is the environment's to say.
use v6chat.Base.{ℕ, Bool, List, [], ◌∷◌, if◌then◌else◌}

-- MAIN_WND, FRIENDLIST_WND, ADDFRIEND_WND, and BEFORE_CHAT_WND with the number of the user behind it.
pub data Window : Type 0 where
  main_wnd friendlist_wnd addfriend_wnd : Window
  chat_wnd : ℕ → Window

-- `WPARAM` and `LPARAM` are numbers here, and a message is the constant of kernel/V6ChatDef.h.
pub record Post : Type 0 where
  pub window : Window
  pub message : ℕ
  pub wparam : ℕ
  pub lparam : ℕ

unfoldable pub post : (Window → Bool) → Window → ℕ → ℕ → ℕ → List Post
post is_open w message wparam lparam =
    if is_open w
    then record { window = w; message = message; wparam = wparam; lparam = lparam } ∷ []
    else []

abbrev pub wm_showunreadmsg : ℕ
wm_showunreadmsg = 0x0402

abbrev pub wm_updatefriendlist : ℕ
wm_updatefriendlist = 0x0401

abbrev pub wm_updatechatpanel : ℕ
wm_updatechatpanel = 0x0402

abbrev pub wm_updatechatdownloadfile : ℕ
wm_updatechatdownloadfile = 0x0403

abbrev pub wm_showsendedmsg : ℕ
wm_showsendedmsg = 0x0403

abbrev pub wm_updateserverlist : ℕ
wm_updateserverlist = 0x0401

abbrev pub wm_updatesearchuserresult : ℕ
wm_updatesearchuserresult = 0x0402
