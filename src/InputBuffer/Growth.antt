-- ===== src/InputBuffer/Growth.antt =====
-- How `resize` and a round of the loop of `input_buffer_read_into` change the buffer.
use jullop.Base.{
  ℕ, ◌+◌, ◌-◌, ◌*◌, ◌^◌, ◌≤◌, ◌<◌, ◌≡◌, refl, ◌≢◌, ◌∙◌, ap, true, List, ◌∷◌, ◌++◌, arith, dec_lt,
  length, take, add_size, double_size, realloc, overwrite, length-realloc, take-realloc,
  length-overwrite, take-overwrite, done,
}
use jullop.Kernel.{Memory}
use jullop.InputBuffer.{InputBuffer, resize, received_into}

-- The block is as long as the buffer says, and the offset lies in it.
pub record IsValid (b : InputBuffer) : Type 0 where
  pub sized : length b.buffer ≡ b.length
  pub filled : b.offset ≤ b.length
  pub not_empty : 0 < b.length

-- The bytes read so far.
abbrev pub contents : InputBuffer → List ℕ
contents b = take b.offset b.buffer

-- Every size below the bound can be allocated.
abbrev pub Serves : Memory → ℕ → Type 0
Serves mem bound = (n : ℕ) → n < bound → mem.available n ≡ true

module _ (mem : Memory) where
  resized : InputBuffer → InputBuffer
  resized b = record b {
    length = double_size b.length;
    buffer = realloc mem.junk b.buffer (double_size b.length);
    resize_count = add_size b.resize_count 1;
  }

  resize-full :
      (b : InputBuffer)
      → b.offset ≡ b.length
      → mem.available (double_size b.length) ≡ true
      → resize mem b ≡ done (resized b)
  unfolding resize resized
  resize-full b full ok = ground arith

  resize-room : (b : InputBuffer) → b.offset ≢ b.length → resize mem b ≡ done b
  unfolding resize
  resize-room b room = ground arith

  resized-IsValid :
      (b : InputBuffer)
      → IsValid b
      → b.offset ≡ b.length
      → 2 * b.offset < 2 ^ 63
      → IsValid (resized b)
        × (b.offset < (resized b).length)
        × ((resized b).length ≡ 2 * b.offset)
        × (contents (resized b) ≡ contents b)
  unfolding resized
  resized-IsValid b v full small =
      let twice : double_size b.length ≡ 2 * b.length = omega arith in
      (
        record {
          sized = length-realloc mem.junk b.buffer (double_size b.length);
          filled = omega (arith, v.not_empty);
          not_empty = omega (arith, v.not_empty);
        },
        omega (arith, v.not_empty),
        omega arith,
        take-realloc mem.junk b.buffer (double_size b.length) b.offset (omega arith)
            (omega (arith, v.sized)),
      )

  -- `resize` leaves room for a byte and keeps the bytes read so far.
  pub resize_makes_room :
      (b : InputBuffer) (bound : ℕ)
      → IsValid b
      → b.length < bound
      → 2 * b.offset < bound
      → bound ≤ 2 ^ 63
      → Serves mem bound
      → (b' : InputBuffer) × (resize mem b ≡ done b')
        × IsValid b'
        × (b'.offset < b'.length)
        × (b'.length < bound)
        × (b'.offset ≡ b.offset)
        × (contents b' ≡ contents b)
  resize_makes_room b bound v small half fits serves = elim (dec_lt b.offset b.length) [
    | yes room ↦ (b, resize-room b (λ e. omega arith), v, room, small, refl, refl)
    | no full ↦
        let at_end : b.offset ≡ b.length = omega (arith, v.filled) in
        let (v', room, twice, same) = resized-IsValid b v at_end (omega arith) in
        (
          resized b,
          resize-full b at_end (serves (double_size b.length) (omega arith)),
          v',
          unfold resized in room,
          omega arith,
          unfold resized in refl,
          same,
        )
  ]

-- What the default branch leaves.
abbrev pub extended : InputBuffer → ℕ → List ℕ → InputBuffer
extended b x xs = record b {
  buffer = overwrite b.buffer b.offset (x ∷ xs);
  offset = add_size b.offset (length (x ∷ xs));
}

pub received_into-extended :
    (b : InputBuffer) (x : ℕ) (xs : List ℕ)
    → IsValid b
    → length (x ∷ xs) ≤ b.length - b.offset
    → b.length < 2 ^ 63
    → (received_into b x xs ≡ done (extended b x xs))
      × IsValid (extended b x xs)
      × (add_size b.offset (length (x ∷ xs)) ≡ b.offset + length (x ∷ xs))
      × (contents (extended b x xs) ≡ contents b ++ x ∷ xs)
unfolding received_into
received_into-extended b x xs v fits small =
    let inside : b.offset + length (x ∷ xs) ≤ length b.buffer = omega (arith, v.sized, v.filled) in
    let exact : add_size b.offset (length (x ∷ xs)) ≡ b.offset + length (x ∷ xs) =
      omega (arith, v.sized) in
    (
      ground arith,
      record {
        sized = length-overwrite b.buffer b.offset (x ∷ xs) inside ∙ v.sized;
        filled = omega (arith, v.filled);
        not_empty = v.not_empty;
      },
      exact,
      ap (λ n. take n (overwrite b.buffer b.offset (x ∷ xs))) exact
          ∙ take-overwrite b.buffer b.offset (x ∷ xs) inside,
    )
