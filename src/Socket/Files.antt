-- ===== src/Socket/Files.antt =====
-- What `receive_small_file_by_tcp_socket` makes of a file that does not come whole.
use v6chat.Base.{
  ℕ, zero, suc, ◌-◌, ◌^◌, ◌≤◌, ◌<◌, ◌≡◌, refl, sym, ap, ◌∙◌, true, false, not, ◌&&◌, ◌||◌, some,
  List, [], ◌∷◌, arith, ◌==◌, ltb, leb, length, take, drop, ◌++◌, min, append-nil, append_assoc,
  length-take, length-drop, take-append-drop,
}
use v6chat.Socket.Connection.{small_file_maxsize, Disk, store, receive_small_file}
use v6chat.Socket.Framing.{IsSteady, int_of-int_bytes, take-exact, drop-exact, pair_path, take-nil}
use v6chat.Socket.Stream.{Reply, failed, moved, int_bytes, int_of, receive_loop}
use v6chat.Text.{Text}

receive_loop_cut :
    (script : List Reply) (n : ℕ) (got wire : Text)
    → IsSteady script
    → length wire ≤ n
    → length wire < length script
    → receive_loop script n got wire ≡ some (got ++ wire, [])
unfolding receive_loop
receive_loop_cut [] n got wire st h l = absurd (omega arith)
receive_loop_cut (r ∷ script) zero got [] st h l = pair_path (sym (append-nil got)) refl
receive_loop_cut (r ∷ script) zero got (c ∷ wire) st h l = absurd (omega arith)
receive_loop_cut (failed ∷ script) (suc n) got wire st h l = absurd st
receive_loop_cut (moved k ∷ script) (suc n) got [] st h l =
    let nothing = take-nil (min k (suc n)) in rw nothing (pair_path (sym (append-nil got)) refl)
receive_loop_cut (moved k ∷ script) (suc n) got (c ∷ wire) st h l =
    let m = min k (suc n) in
    let w = c ∷ wire in
    let ih =
      receive_loop_cut script (suc n - length (take m w)) (got ++ take m w) (drop m w) st.1
        (omega (arith, length-take m w, length-drop m w, st.0))
        (omega (arith, length-take m w, length-drop m w, st.0)) in
    let some_bytes : (length (take m w) == 0) ≡ false = ground (arith, length-take m w, st.0) in
    rw some_bytes (
      ih
      ∙ pair_path
          (append_assoc got (take m w) (drop m w) ∙ ap (λ t. got ++ t) (take-append-drop m w)) refl)

announced :
    (disk : Disk) (head part : Text) (rs : List Reply) (j n : ℕ)
    → length head ≡ 4
    → int_of head ≡ n
    → disk.opens ≡ true
    → disk.allocates n ≡ true
    → 0 < n
    → n ≤ small_file_maxsize
    → IsSteady rs
    → length part ≤ n
    → length part < length rs
    → 4 ≤ j
    → receive_small_file true disk (moved j ∷ rs) (head ++ part) ≡ some (store disk part)
unfolding receive_small_file
announced disk head part rs j n four size opened room p fits st short enough hj =
    let m : min j 4 ≡ length head = omega arith in
    let positive : leb (2 ^ 31) n ≡ false = ground arith in
    let fine : (n == 0 || (ltb small_file_maxsize n && not false)) ≡ false = ground arith in
    rw
      (
        opened,
        m,
        take-exact head part,
        drop-exact head part,
        size,
        positive,
        fine,
        room,
        receive_loop_cut rs n [] part st short enough,
      )
      refl

-- A peer announces a file of an allowed size, and the connection ends when only some of the bytes, or all of
-- them, have come. Let the file open, the memory be given and the disk take all it is given. Then the
-- result is `true` and the bytes that came are left as the file, however few they are.
pub receive_small_file_cut :
    (disk : Disk) (part : Text) (rs : List Reply) (j n : ℕ)
    → disk.opens ≡ true
    → disk.allocates n ≡ true
    → disk.writes (length part) ≡ length part
    → 0 < n
    → n ≤ small_file_maxsize
    → IsSteady rs
    → length part ≤ n
    → length part < length rs
    → 4 ≤ j
    → receive_small_file true disk (moved j ∷ rs) (int_bytes n ++ part) ≡ some (true, some part)
unfolding store
receive_small_file_cut disk part rs j n opened room written p fits st short enough hj =
    announced disk (int_bytes n) part rs j n refl (int_of-int_bytes n (omega arith)) opened room p
      fits st short enough hj
    ∙ ap (λ r. some r) (ground (arith, written))
