-- ===== src/Xmpp/Sending.antt =====
-- A file that `sendFileThread` sends whole.
use v6chat.Base.{
  ℕ, ◌+◌, ◌/◌, ◌≤◌, ◌<◌, ◌≡◌, refl, sym, ap, ◌∙◌, Bool, true, false, none, some, List, [], ◌∷◌,
  ◌++◌, arith, ltb, length, take, drop, length-take, length-drop, take-append-drop, All, Bool-cases,
  inl, inr,
}
use v6chat.Text.{Text}
use v6chat.Xmpp.File.{Stream, FileInformation, close_file, report, handle_socks5_close}
use v6chat.Numbers.{pos, int_eq}
use v6chat.Xmpp.Threads.{block_size, Round, send_loop, closes_stream, send_file_thread}

abbrev pub joined : List Text → Text
joined [] = []
joined (piece ∷ pieces) = piece ++ joined pieces

-- In every round the stream is open and takes its piece, if that is not empty; gloox refuses empty data.
abbrev pub Steady : List Round → Type 0
Steady rounds =
    All
      (λ r.
        (r.is_open ≡ true)
        × (r.sends [] ≡ false)
        × ((piece : Text) → 0 < length piece → r.sends piece ≡ true))
      rounds

length_nil {ℓ} : {A : Type ℓ} (xs : List A) → length xs ≡ 0 → xs ≡ []
length_nil [] h = refl
length_nil (x ∷ xs) h = absurd (omega arith)

send_loop_eof :
    (rounds : List Round) (left : Text) (handed : ℕ)
    → 0 < length rounds
    → send_loop rounds left true handed ≡ some ([], handed, true)
unfolding send_loop
send_loop_eof [] left handed h = absurd (omega arith)
send_loop_eof (r ∷ rounds) left handed h = refl

send_loop_next :
    (r : Round) (rounds : List Round) (left : Text) (handed handed' : ℕ) (pieces : List Text)
    (eof finished : Bool)
    → r.is_open ≡ true
    → r.sends (take block_size left) ≡ true
    → ltb (length left) block_size ≡ eof
    → send_loop rounds (drop block_size left) eof (handed + length (take block_size left))
      ≡ some (pieces, handed', finished)
    → send_loop (r ∷ rounds) left false handed
      ≡ some (take block_size left ∷ pieces, handed', finished)
unfolding send_loop
send_loop_next r rounds left handed handed' pieces eof finished o s t e = rw (o, s, t, e) refl

send_loop_refused :
    (r : Round) (rounds : List Round) (left : Text) (handed : ℕ)
    → r.is_open ≡ true
    → r.sends (take block_size left) ≡ false
    → send_loop (r ∷ rounds) left false handed ≡ some ([], handed, false)
unfolding send_loop
send_loop_refused r rounds left handed o s = rw (o, s) refl

lengths :
    (left : Text) → length (take block_size left) + length (drop block_size left) ≡ length left
lengths left = omega (arith, length-take block_size left, length-drop block_size left)

below : (a b : ℕ) → ltb a b ≡ true → a < b
below a b h = ground arith

not_below : (a b : ℕ) → ltb a b ≡ false → b ≤ a
not_below a b h = ground arith

send_loop_short :
    (r : Round) (rounds : List Round) (left : Text) (handed : ℕ)
    → Steady (r ∷ rounds)
    → 0 < length rounds
    → 0 < length left
    → length left < block_size
    → send_loop (r ∷ rounds) left false handed
      ≡ some (take block_size left ∷ [], handed + length left, true)
send_loop_short r rounds left handed steady more some_left fits =
    let all : handed + length (take block_size left) ≡ handed + length left =
      omega (arith, length-take block_size left) in
    send_loop_next r rounds left handed (handed + length (take block_size left)) [] true true
      (steady.0).0
      ((steady.0).2 (take block_size left) (omega (arith, length-take block_size left)))
      (ground arith)
      (send_loop_eof rounds (drop block_size left) (handed + length (take block_size left)) more)
    ∙ ap (λ (n : ℕ). some (take block_size left ∷ [], n, true)) all

-- A file that ends with a block is left by the refusal of its empty last piece.
send_loop_empty :
    (r : Round) (rounds : List Round) (handed : ℕ)
    → Steady (r ∷ rounds)
    → send_loop (r ∷ rounds) [] false handed ≡ some ([], handed, false)
send_loop_empty r rounds handed steady =
    send_loop_refused r rounds [] handed (steady.0).0 (steady.0).1

send_loop_whole :
    (rounds : List Round) (left : Text) (handed : ℕ)
    → Steady rounds
    → length left / block_size + 2 ≤ length rounds
    → (pieces : List Text) × (finished : Bool) × (send_loop rounds left false handed
        ≡ some (pieces, handed + length left, finished))
      × (joined pieces ≡ left)
send_loop_whole [] left handed steady enough = absurd (omega arith)
send_loop_whole (r ∷ rounds) [] handed steady enough = (
  [],
  false,
  send_loop_empty r rounds handed steady ∙ ap (λ (n : ℕ). some ([], n, false)) (omega arith),
  refl,
)
send_loop_whole (r ∷ rounds) (x ∷ xs) handed steady enough =
    let left = x ∷ xs in
    elim (Bool-cases (ltb (length left) block_size)) [
      | inl short ↦
          let fits : length left < block_size = below (length left) block_size short in
          let rest : drop block_size left ≡ [] =
            length_nil (drop block_size left) (omega (arith, length-drop block_size left)) in
          (
            take block_size left ∷ [],
            true,
            send_loop_short r rounds left handed steady (omega arith) (omega arith) fits,
            ap (λ (t : Text). take block_size left ++ t) (sym rest)
                ∙ take-append-drop block_size left,
          )
      | inr long ↦
          let fits : block_size ≤ length left = not_below (length left) block_size long in
          let total : handed + length (take block_size left) + length (drop block_size left)
              ≡ handed + length left =
            omega (arith, lengths left) in
          let (pieces, finished, e, j) =
            send_loop_whole rounds (drop block_size left) (handed + length (take block_size left))
              steady.1 (omega (arith, length-drop block_size left)) in
          (
            take block_size left ∷ pieces,
            finished,
            send_loop_next r rounds left handed
                  (handed + length (take block_size left) + length (drop block_size left)) pieces
                  false finished (steady.0).0
                  ((steady.0).2 (take block_size left) (omega (arith, length-take block_size left)))
                  long e
                ∙ ap (λ (n : ℕ). some (take block_size left ∷ pieces, n, finished)) total,
            ap (λ (t : Text). take block_size left ++ t) j ∙ take-append-drop block_size left,
          )
    ]

-- The close of the stream of a file that was sent whole.
close_whole :
    (fi : FileInformation) (s : Stream) (n : ℕ)
    → fi.file_type ≡ 1
    → fi.filesize ≡ pos n
    → fi.handedsize ≡ n
    → fi.has_listener ≡ true
    → fi.socks_stream ≡ some s
    → handle_socks5_close s fi
      ≡ some (
        record fi { endflag = some false },
        record { success = true; server = s.server; account = s.username; sid = s.sid } ∷ [],
      )
unfolding handle_socks5_close close_file report int_eq
close_whole fi s n sent size all listens has = ground arith

-- Let the record of a file that is sent have its size, a listener and nothing handed over. Let the file open, in
-- every round the stream be open, take a piece that is not empty and refuse an empty one, and be open when it
-- is closed. With two rounds more than there are whole blocks in the file, `sendFileThread` ends: the pieces
-- that it sent, one after the other, are the file, also where its last piece is empty; its size is what was
-- handed over; the close of the stream clears the flag and reports success once, with the stream's server,
-- account and number; and the stream and the package are given back.
pub send_file_thread-joined :
    (file : Text) (rounds : List Round) (fi : FileInformation) (s : Stream)
    → fi.file_type ≡ 1
    → fi.filesize ≡ pos (length file)
    → fi.handedsize ≡ 0
    → fi.has_listener ≡ true
    → fi.socks_stream ≡ some s
    → Steady rounds
    → length file / block_size + 2 ≤ length rounds
    → (pieces : List Text) × (send_file_thread (some file) rounds true fi
        ≡ some (
          record fi { endflag = some false; handedsize = length file; socks_stream = none },
          record {
            pieces = pieces;
            ended =
                record { success = true; server = s.server; account = s.username; sid = s.sid }
                ∷ [];
            disposed = true;
            freed = true;
          },
        ))
      × (joined pieces ≡ file)
unfolding send_file_thread closes_stream
send_file_thread-joined file rounds fi s sent size none_yet listens has steady enough =
    let (pieces, finished, e, j) = send_loop_whole rounds file 0 steady enough in
    let handed : 0 + length file ≡ length file = omega arith in
    let loop : send_loop rounds file false 0 ≡ some (pieces, length file, finished) =
      e ∙ ap (λ (n : ℕ). some (pieces, n, finished)) handed in
    let closed =
      close_whole (record fi { handedsize = length file }) s (length file) sent size refl listens
        has in
    (pieces, rw (send_file_thread, has, none_yet, loop, closes_stream, closed) refl, j)
