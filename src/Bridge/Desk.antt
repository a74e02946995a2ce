-- ===== src/Bridge/Desk.antt =====
-- kernel/LuaV6Chat3App.cpp: the user's own image, positions on the screen, and the clipboard. `app`: whether the
-- object is there.
use v6chat.Base.{ℕ, Bool, true, false, Option, none, some, [], ◌∷◌, ◌==◌, if◌then◌else◌}
use v6chat.Bridge.Stack.{nil, number, boolean, Arguments, Answer, answers}
use v6chat.Numbers.{ℤ, pos}
use v6chat.Text.{Text, codes}
use v6chat.Bridge.Readers.{Shell, nils, pushed_image}

-- `GetMyHead`
unfoldable pub get_my_head : (app : Bool) → Shell → Answer
unfolding answers nils
get_my_head app w =
    if app then answers (pushed_image (w.image (codes "My\\head.png")) ∷ []) else answers (nils 1)

-- `SelectMyHead`; `ret`: the result of the dialogue, 0 where it succeeds.
unfoldable pub select_my_head : (app : Bool) → Shell → (ret : ℕ) → Answer
unfolding answers nils
select_my_head app w ret =
    if app
    then answers (
        number (pos ret)
        ∷ (if ret == 0 then pushed_image (w.image (codes "My\\head.png")) else nil)
        ∷ [])
    else answers (nils 2)

-- `GetCursorPos` and `GetWorkareaPos`: two numbers of Windows, where it hands them out.
unfoldable pub get_cursor_pos : (app : Bool) → (point : Option (ℤ × ℤ)) → Answer
unfolding answers nils
get_cursor_pos app point =
    if app
    then elim point [ none ↦ answers (nils 2) | some (x, y) ↦ answers (number x ∷ number y ∷ []) ]
    else answers (nils 2)

unfoldable pub get_workarea_pos : (app : Bool) → (size : Option (ℤ × ℤ)) → Answer
unfolding answers nils
get_workarea_pos app size =
    if app
    then elim size [
      | none ↦ answers (nils 2)
      | some (width, height) ↦ answers (number width ∷ number height ∷ [])
    ]
    else answers (nils 2)

-- `CopyToClipboard`: the text that goes to the clipboard. window: whether there is a window of a name; opens:
-- `OpenClipboard`.
unfoldable pub copy_to_clipboard :
    (app : Bool)
    → (window : Text → Bool) → (opens : Bool) → (to_ansi : Text → Text) → Arguments
    → Answer × Option Text
unfolding answers
copy_to_clipboard app window opens to_ansi a =
    let failed : Answer × Option Text = (answers (boolean false ∷ []), none) in
    if app
    then elim (a.to_string 2) [
      | none ↦ failed
      | some name ↦
          if window name
          then elim (a.to_string 3) [
            | none ↦ failed
            | some content ↦
                if opens then (answers (boolean true ∷ []), some (to_ansi content)) else failed
          ]
          else failed
    ]
    else failed
