-- ===== src/OutputBuffer.antt =====
-- src/output_buffer.c: the growing buffer that a response is printed into and written out from.
pub mod Appending
pub mod Total
pub mod Writing
mod Examples
use jullop.Base.{
  ℕ, zero, suc, ◌+◌, ◌-◌, ◌^◌, Bool, true, false, not, List, [], ◌∷◌, ◌++◌, add_size, sub_size,
  double_size, length, take, drop, ◌==◌, ltb, leb, if◌then◌else◌, Outcome, done, unfinished, ◌>>=◌,
  ◌>>◌, check, malloc, realloc, copy,
}
use jullop.Kernel.{Socket, Memory, WriteResult, wrote, write_blocked, write_failed}

-- `enum WriteState`
pub data WriteState : Type 0 where
  write_finish write_busy write_error : WriteState

-- `struct OutputBuffer`; the bytes of its block are a list.
pub record OutputBuffer : Type 0 where
  pub buffer : List ℕ
  pub length : ℕ
  pub write_from_offset : ℕ
  pub write_into_offset : ℕ
  pub resize_count : ℕ

-- What vsnprintf(start, max, ...) stores of a formatted text: nothing if `max` is 0, else what fits
-- before a final NUL.
unfoldable pub vsnprintf : ℕ → List ℕ → List ℕ
vsnprintf zero text = []
vsnprintf (suc max) text = take max text ++ 0 ∷ []

-- `(size_t) written > max_to_write`
unfoldable pub too_long : List ℕ → ℕ → Bool
too_long text max_to_write = ltb max_to_write (length text)

unfoldable pub output_buffer_reset : OutputBuffer → OutputBuffer
output_buffer_reset b = record b { write_from_offset = 0; write_into_offset = 0 }

module _ (mem : Memory) where
  -- The first argument says whether the allocation of the struct succeeds.
  unfoldable pub output_buffer_init : Bool → ℕ → Outcome OutputBuffer
  output_buffer_init struct_mem size = do
    check (not struct_mem)
    check (not (mem.available size))
    done (record {
      buffer = malloc mem.junk size;
      length = size;
      write_from_offset = 0;
      write_into_offset = 0;
      resize_count = 0;
    })

  -- `resize`
  unfoldable pub resize : OutputBuffer → ℕ → Outcome OutputBuffer
  resize b min_size =
      let twice = double_size b.length in
      let size = if ltb min_size twice then twice else min_size in
      check (not (mem.available size))
      >> done (record b {
        length = size;
        buffer = realloc mem.junk b.buffer size;
        resize_count = add_size b.resize_count 1;
      })

  -- A round of the loop of `output_buffer_append`, for the text that the format string and its
  -- arguments give; `again` is the next round. vsnprintf fails on a text of 2 ^ 31 bytes or more.
  unfoldable pub append_round :
      (OutputBuffer → Outcome OutputBuffer) → OutputBuffer → List ℕ → Outcome OutputBuffer
  unfolding too_long
  append_round again b text =
      let max_to_write = sub_size b.length b.write_into_offset in
      check (leb (2 ^ 31) (length text))
      >> copy b.buffer b.write_into_offset (vsnprintf max_to_write text)
      >>= λ bytes.
          let printed = record b { buffer = bytes } in
          if too_long text max_to_write
          then resize printed (add_size (add_size b.write_into_offset (length text)) 1) >>= again
          else done
              (record printed { write_into_offset = add_size b.write_into_offset (length text) })

  -- `output_buffer_append`, for at most so many rounds.
  unfoldable pub output_buffer_append : ℕ → OutputBuffer → List ℕ → Outcome OutputBuffer
  output_buffer_append zero b text = unfinished
  output_buffer_append (suc fuel) b text =
      append_round (λ b'. output_buffer_append fuel b' text) b text

-- The switch on what write(2) returned; `again` is the next round of the loop.
unfoldable pub switch_write {ℓ} :
    {S : Type ℓ}
    → (OutputBuffer → S → Outcome (WriteState × OutputBuffer × S))
    → OutputBuffer
    → WriteResult
    → S
    → Outcome (WriteState × OutputBuffer × S)
switch_write again b write_blocked t = done (write_busy, b, t)
switch_write again b write_failed t = done (write_error, b, t)
switch_write again b (wrote zero) t = done (write_error, b, t)
switch_write again b (wrote (suc n)) t =
    again (record b { write_from_offset = add_size b.write_from_offset (suc n) }) t

-- The bytes between the two offsets.
abbrev pub pending : OutputBuffer → List ℕ
pending b =
    take (sub_size b.write_into_offset b.write_from_offset) (drop b.write_from_offset b.buffer)

module _ (sock : Socket) where
  -- `output_buffer_write_to`, for at most so many rounds of its loop.
  unfoldable pub output_buffer_write_to :
      ℕ → OutputBuffer → sock.State → Outcome (WriteState × OutputBuffer × sock.State)
  output_buffer_write_to zero b s = unfinished
  output_buffer_write_to (suc fuel) b s =
      let (r, t) = sock.write s (pending b) in
      let round = switch_write (output_buffer_write_to fuel) b r t in
      if ltb b.write_from_offset b.write_into_offset then round else done (write_finish, b, s)
