-- ===== src/InputBuffer.antt =====
-- src/input_buffer.c: the growing buffer that a client's bytes are read into.
pub mod Growth
pub mod Reading
mod Examples
use jullop.Base.{
  ℕ, zero, suc, Bool, not, List, ◌∷◌, add_size, sub_size, double_size, length, take, ◌==◌,
  if◌then◌else◌, Outcome, done, unfinished, ◌>>=◌, ◌>>◌, check, malloc, realloc, copy,
}
use jullop.Kernel.{Socket, Memory, ReadResult, received, end_of_file, read_blocked, read_failed}

-- `enum ReadState`
pub data ReadState : Type 0 where
  read_finish read_busy read_error client_disconnect : ReadState

-- `struct InputBuffer`; the bytes of its block are a list.
pub record InputBuffer : Type 0 where
  pub buffer : List ℕ
  pub length : ℕ
  pub offset : ℕ
  pub resize_count : ℕ

module _ (mem : Memory) where
  -- The first argument says whether the allocation of the struct succeeds.
  unfoldable pub input_buffer_init : Bool → ℕ → Outcome InputBuffer
  input_buffer_init struct_mem size = do
    check (not struct_mem)
    check (not (mem.available size))
    done (record { buffer = malloc mem.junk size; length = size; offset = 0; resize_count = 0 })

  unfoldable pub resize : InputBuffer → Outcome InputBuffer
  resize b =
      if b.offset == b.length
      then (do
        let size = double_size b.length
        check (not (mem.available size))
        done (record b {
          length = size;
          buffer = realloc mem.junk b.buffer size;
          resize_count = add_size b.resize_count 1;
        }))
      else done b

unfoldable pub input_buffer_reset : InputBuffer → InputBuffer
input_buffer_reset b = record b { offset = 0 }

-- The default branch of the switch: the bytes that read(2) stored, and the new offset.
unfoldable pub received_into : InputBuffer → ℕ → List ℕ → Outcome InputBuffer
received_into b x xs = do
  bytes ← copy b.buffer b.offset (x ∷ xs)
  done (record b { buffer = bytes; offset = add_size b.offset (length (x ∷ xs)) })

-- The switch on what read(2) returned; `again` is the next round of the loop.
unfoldable pub switch_read {ℓ} :
    {S : Type ℓ}
    → (InputBuffer → S → Outcome (ReadState × InputBuffer × S))
    → InputBuffer
    → ReadResult
    → S
    → Outcome (ReadState × InputBuffer × S)
switch_read again b read_blocked t = done (read_busy, b, t)
switch_read again b read_failed t = done (read_error, b, t)
switch_read again b end_of_file t = done (read_error, b, t)
switch_read again b (received x xs) t = received_into b x xs >>= λ b'. again b' t

module _ (mem : Memory) (sock : Socket) where
  -- The loop of `input_buffer_read_into`, for at most so many rounds.
  unfoldable pub input_buffer_read_into :
      ℕ → InputBuffer → sock.State → Outcome (ReadState × InputBuffer × sock.State)
  input_buffer_read_into zero b s = unfinished
  input_buffer_read_into (suc fuel) b s = resize mem b >>= λ b'.
      let (r, t) = sock.read s (sub_size b'.length b'.offset) in
      switch_read (input_buffer_read_into fuel) b' r t
