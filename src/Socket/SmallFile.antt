-- ===== src/Socket/SmallFile.antt =====
-- socket_interface/socket_interface.cpp: a small file from one side of a connection to the other.
use v6chat.Base.{
  ℕ, ◌≤◌, ◌<◌, ◌^◌, ◌≡◌, refl, true, false, some, List, [], ◌∷◌, ◌++◌, arith, ltb, leb, ◌==◌, min,
  length,
}
use v6chat.Socket.Connection.{
  Disk, store, Source, small_file_maxsize, receive_small_file, send_small_file,
}
use v6chat.Socket.Framing.{
  IsSteady, int_of-int_bytes, send_binary_data-steady, receive_loop_steady, take-exact, take-all,
  drop-exact,
}
use v6chat.Socket.Stream.{Reply, moved, int_bytes, int_of}
use v6chat.Text.{Text}

sent_whole :
    (source : Source) (bytes : Text) (ss : List Reply) (k : ℕ)
    → source.content ≡ some bytes
    → 0 < length bytes
    → length bytes ≤ small_file_maxsize
    → source.allocates (length bytes) ≡ true
    → source.reads (length bytes) ≡ length bytes
    → IsSteady ss
    → length bytes ≤ length ss
    → 4 ≤ k
    → send_small_file true source (moved k ∷ ss) ≡ some (true, int_bytes (length bytes) ++ bytes)
unfolding send_small_file
sent_whole source bytes ss k c p max a r steady enough hk =
    let small : ltb small_file_maxsize (length bytes) ≡ false = ground arith in
    let whole : (length bytes == length bytes) ≡ true = ground arith in
    rw
      (
        send_small_file,
        c,
        small,
        a,
        r,
        whole,
        send_binary_data-steady bytes ss k p steady enough hk,
        whole,
      )
      refl

received_whole :
    (disk : Disk) (head bytes : Text) (rs : List Reply) (j : ℕ)
    → length head ≡ 4
    → int_of head ≡ length bytes
    → 0 < length bytes
    → length bytes ≤ small_file_maxsize
    → disk.opens ≡ true
    → disk.allocates (length bytes) ≡ true
    → disk.writes (length bytes) ≡ length bytes
    → IsSteady rs
    → length bytes ≤ length rs
    → 4 ≤ j
    → receive_small_file true disk (moved j ∷ rs) (head ++ bytes) ≡ some (true, some bytes)
unfolding receive_small_file store
received_whole disk head bytes rs j four size p max o m wr steady enough hj =
    let first : min j 4 ≡ length head = omega arith in
    let not_empty : (length bytes == 0) ≡ false = ground arith in
    let small : ltb small_file_maxsize (length bytes) ≡ false = ground arith in
    let positive : leb (2 ^ 31) (length bytes) ≡ false = ground arith in
    let whole : (length bytes == length bytes) ≡ true = ground arith in
    let got = receive_loop_steady rs (length bytes) [] bytes steady enough (omega arith) in
    rw
      (
        receive_small_file,
        o,
        first,
        take-exact head bytes,
        drop-exact head bytes,
        size,
        not_empty,
        small,
        positive,
        m,
        got,
        take-all (length bytes) bytes (omega arith),
        wr,
        whole,
      )
      refl

-- Let the sender's file open, be read whole and fit into memory, be not empty and not larger than 10 MB, let the
-- receiver's file open, fit into memory and be written whole, and let every call on either side move at least one byte,
-- the first one at least the four of the length, with enough calls. Then both sides answer `true`, and the file that the
-- receiver leaves is the sender's.
pub receive_small_file-send_small_file :
    (source : Source) (disk : Disk) (bytes : Text) (ss rs : List Reply) (k j : ℕ)
    → source.content ≡ some bytes
    → 0 < length bytes
    → length bytes ≤ small_file_maxsize
    → source.allocates (length bytes) ≡ true
    → source.reads (length bytes) ≡ length bytes
    → disk.opens ≡ true
    → disk.allocates (length bytes) ≡ true
    → disk.writes (length bytes) ≡ length bytes
    → IsSteady ss
    → IsSteady rs
    → length bytes ≤ length ss
    → length bytes ≤ length rs
    → 4 ≤ k
    → 4 ≤ j
    → (wire : Text) × (send_small_file true source (moved k ∷ ss) ≡ some (true, wire))
      × (receive_small_file true disk (moved j ∷ rs) wire ≡ some (true, some bytes))
receive_small_file-send_small_file source disk bytes ss rs k j c p max a r o m wr ss_steady
      rs_steady sl rl hk hj =
    (
      int_bytes (length bytes) ++ bytes,
      sent_whole source bytes ss k c p max a r ss_steady sl hk,
      received_whole disk (int_bytes (length bytes)) bytes rs j refl
          (int_of-int_bytes (length bytes) (omega arith)) p max o m wr rs_steady rl hj,
    )
