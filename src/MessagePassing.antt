-- ===== src/MessagePassing.antt =====
-- src/message_passing.c: a pointer sent over a socket, and the resumable loops that do it. A buffer of
-- the caller is a list of bytes.
pub mod Pointer
pub mod Writing
pub mod Reading
pub mod Sync
pub mod SyncReading
mod Examples
use jullop.Base.{
  ℕ, zero, suc, ◌+◌, ◌*◌, ◌/◌, ◌%◌, List, [], ◌∷◌, length, take, drop, add_size, sub_size, ltb,
  ◌!=◌, word_bytes, if◌then◌else◌, Outcome, done, unfinished, ◌>>=◌, ◌>>◌, check, copy,
}
use jullop.Kernel.{
  Socket, WriteResult, wrote, write_blocked, write_failed, ReadResult, received, end_of_file,
  read_blocked, read_failed,
}
use jullop.OutputBuffer.{WriteState, write_finish, write_busy, write_error}
use jullop.InputBuffer.{ReadState, read_finish, read_busy, read_error}

-- `struct Message`
pub record Message : Type 0 where
  pub buffer : List ℕ
  pub offset : ℕ

-- The object representation of a word of so many bytes, the lowest first.
unfoldable pub bytes_of : ℕ → ℕ → List ℕ
bytes_of zero x = []
bytes_of (suc n) x = x % 256 ∷ bytes_of n (x / 256)

-- The word whose representation is the list.
unfoldable pub word_of : List ℕ → ℕ
word_of [] = 0
word_of (b ∷ bytes) = b + 256 * word_of bytes

unfoldable pub message_init : Message → ℕ → Outcome Message
message_init message ptr = do
  bytes ← copy message.buffer 0 (bytes_of word_bytes ptr)
  done (record { buffer = bytes; offset = 0 })

unfoldable pub message_reset : Message → Message
message_reset message = record message { offset = 0 }

-- The failure of `assert` is taken as that of a CHECK.
unfoldable pub message_get_payload : Message → Outcome ℕ
message_get_payload message =
    check (message.offset != word_bytes) >> done (word_of (take word_bytes message.buffer))

-- The switch of `write_async` on what write(2) returned, and the loop's test; `again` is the next
-- round.
unfoldable pub write_answer {ℓ} :
    {S : Type ℓ}
    → (ℕ → S → Outcome (WriteState × ℕ × S))
    → ℕ
    → ℕ
    → WriteResult
    → S
    → Outcome (WriteState × ℕ × S)
write_answer again buffer_len offset write_blocked t = done (write_busy, offset, t)
write_answer again buffer_len offset write_failed t = done (write_error, offset, t)
write_answer again buffer_len offset (wrote zero) t = done (write_error, offset, t)
write_answer again buffer_len offset (wrote (suc n)) t =
    let offset' = add_size offset (suc n) in
    let round = again offset' t in
    if ltb offset' buffer_len then round else done (write_finish, offset', t)

module _ (sock : Socket) where
  -- `write_async`, for at most so many rounds; the new offset is returned.
  unfoldable pub write_async :
      ℕ → List ℕ → ℕ → ℕ → sock.State → Outcome (WriteState × ℕ × sock.State)
  write_async zero buffer buffer_len offset s = unfinished
  write_async (suc fuel) buffer buffer_len offset s =
      let (r, t) = sock.write s (take (sub_size buffer_len offset) (drop offset buffer)) in
      write_answer (λ offset' u. write_async fuel buffer buffer_len offset' u) buffer_len offset r t

  unfoldable pub message_write_async :
      ℕ → Message → sock.State → Outcome (WriteState × Message × sock.State)
  message_write_async fuel message s = do
    (st, offset, t) ← write_async fuel message.buffer word_bytes message.offset s
    done (st, record message { offset = offset }, t)

-- The same for `read_async`, whose loop tests the offset against the size of a word.
unfoldable pub read_answer {ℓ} :
    {S : Type ℓ}
    → (List ℕ → ℕ → S → Outcome (ReadState × List ℕ × ℕ × S))
    → List ℕ
    → ℕ
    → ReadResult
    → S
    → Outcome (ReadState × List ℕ × ℕ × S)
read_answer again buffer offset read_blocked t = done (read_busy, buffer, offset, t)
read_answer again buffer offset read_failed t = done (read_error, buffer, offset, t)
read_answer again buffer offset end_of_file t = done (read_error, buffer, offset, t)
read_answer again buffer offset (received x xs) t = do
  bytes ← copy buffer offset (x ∷ xs)
  let offset' = add_size offset (length (x ∷ xs))
  let round = again bytes offset' t
  if ltb offset' word_bytes then round else done (read_finish, bytes, offset', t)

module _ (sock : Socket) where
  unfoldable pub read_async :
      ℕ → List ℕ → ℕ → ℕ → sock.State → Outcome (ReadState × List ℕ × ℕ × sock.State)
  read_async zero buffer buffer_len offset s = unfinished
  read_async (suc fuel) buffer buffer_len offset s =
      let (r, t) = sock.read s (sub_size buffer_len offset) in
      read_answer (λ bytes offset' u. read_async fuel bytes buffer_len offset' u) buffer offset r t

  unfoldable pub message_read_async :
      ℕ → Message → sock.State → Outcome (ReadState × Message × sock.State)
  message_read_async fuel message s = do
    (st, bytes, offset, t) ← read_async fuel message.buffer word_bytes message.offset s
    done (st, record { buffer = bytes; offset = offset }, t)

-- What a round of the blocking loops makes of the message: an error is only logged.
abbrev pub after_sync_write : Message → WriteResult → Message
after_sync_write message (wrote n) = record message { offset = add_size message.offset n }
after_sync_write message write_blocked = message
after_sync_write message write_failed = message

abbrev pub after_sync_read : Message → ReadResult → Outcome Message
after_sync_read message (received x xs) = do
  bytes ← copy message.buffer message.offset (x ∷ xs)
  done (record { buffer = bytes; offset = add_size message.offset (length (x ∷ xs)) })
after_sync_read message end_of_file = done message
after_sync_read message read_blocked = done message
after_sync_read message read_failed = done message

-- The bytes that a round of `message_write_sync` passes to write(2).
abbrev pub sync_bytes : Message → List ℕ
sync_bytes message = take (sub_size word_bytes message.offset) (drop message.offset message.buffer)

module _ (sock : Socket) where
  -- For at most so many rounds.
  unfoldable pub message_write_sync : ℕ → Message → sock.State → Outcome (Message × sock.State)
  message_write_sync zero message s = unfinished
  message_write_sync (suc fuel) message s =
      let (r, t) = sock.write s (sync_bytes message) in
      let message' = after_sync_write message r in
      let round = message_write_sync fuel message' t in
      if ltb message'.offset word_bytes then round else done (message', t)

  unfoldable pub message_read_sync : ℕ → Message → sock.State → Outcome (Message × sock.State)
  message_read_sync zero message s = unfinished
  message_read_sync (suc fuel) message s =
      let (r, t) = sock.read s (sub_size word_bytes message.offset) in
      after_sync_read message r >>= λ message'.
      let round = message_read_sync fuel message' t in
      if ltb message'.offset word_bytes then round else done (message', t)
