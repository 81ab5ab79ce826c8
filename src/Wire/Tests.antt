-- ===== src/Wire/Tests.antt =====
-- Messages on a buffer that never fails, and the short read that read_reply gives up on.
use ubervisor.Common.{ℕ, ◌≡◌, ◌≢◌, refl, List, [], ◌∷◌, ◌++◌, none, some, arith, true}
use ubervisor.Wire.{
  htons, raw16, Bufferevent, write_chunk, or_return, send_loop, send_message, piece, put, read,
  reply, null, two_bytes, read_two, read_chunks, read_reply,
}
use ubervisor.Wire.Client.{read_reply-send_message, send_message-total}

-- A buffer as the bytes written to it.
abbrev pub memory : Bufferevent
memory = record {
  Handle = List ℕ;
  output = λ b. b;
  bufferevent_write = λ b x. (true, b ++ x);
  write-appends = λ b x e. refl;
}

sent_hello : send_message memory [] 7 (104 ∷ 105 ∷ []) ≡ some (true, 0 ∷ 2 ∷ 7 ∷ 0 ∷ 104 ∷ 105 ∷ [])
unfolding send_message send_loop write_chunk or_return htons raw16
sent_hello = refl

-- The same six bytes with the first delivered alone are no reply.
split_header : read_reply (piece (0 ∷ []) ∷ piece (2 ∷ 7 ∷ 0 ∷ 104 ∷ 105 ∷ []) ∷ []) ≡ some null
unfolding read_reply read_chunks read_two two_bytes read
split_header = refl

read_reply-send_message_example :
    (wire : List ℕ) × (0 ∷ 2 ∷ 7 ∷ 0 ∷ 104 ∷ 105 ∷ [] ≡ [] ++ wire)
    × (read_reply (put (wire ++ 9 ∷ []) []) ≡ some (reply (104 ∷ 105 ∷ []) (put (9 ∷ []) [])))
read_reply-send_message_example =
    read_reply-send_message memory [] (0 ∷ 2 ∷ 7 ∷ 0 ∷ 104 ∷ 105 ∷ []) 7 (104 ∷ 105 ∷ []) (9 ∷ [])
      [] (omega arith) sent_hello

send_message-total_example : send_message memory [] 7 (104 ∷ 105 ∷ []) ≢ none
send_message-total_example = send_message-total memory [] 7 (104 ∷ 105 ∷ [])
