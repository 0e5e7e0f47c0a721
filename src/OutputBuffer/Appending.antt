-- ===== src/OutputBuffer/Appending.antt =====
-- What `output_buffer_append` does to the text of the buffer.
use jullop.Base.{
  ℕ, zero, suc, ◌+◌, ◌-◌, ◌*◌, ◌^◌, ◌≤◌, ◌<◌, ◌≡◌, refl, sym, ◌≢◌, ◌∙◌, ap, true, List, [], ◌∷◌,
  ◌++◌, arith, dec_lt, length, length-append, length-take, take, add_size, sub_size, double_size,
  realloc, overwrite, length-realloc, take-realloc, length-overwrite, take-overwrite,
  take-overwrite_before, take-overwrite_part, take_all, Outcome, done,
}
use jullop.Kernel.{Memory}
use jullop.OutputBuffer.{
  OutputBuffer, vsnprintf, too_long, resize, append_round, output_buffer_append,
}

-- The block is as long as the buffer says, and the offsets lie in it in order.
pub record IsValid (b : OutputBuffer) : Type 0 where
  pub sized : length b.buffer ≡ b.length
  pub within : b.write_into_offset ≤ b.length
  pub in_order : b.write_from_offset ≤ b.write_into_offset
  pub small : b.length < 2 ^ 63

-- All text appended since the last reset.
abbrev pub contents : OutputBuffer → List ℕ
contents b = take b.write_into_offset b.buffer

-- The room that vsnprintf is given.
abbrev pub room : OutputBuffer → ℕ
room b = b.length - b.write_into_offset

-- Every size below the bound can be allocated.
abbrev pub Serves : Memory → ℕ → Type 0
Serves mem bound = (n : ℕ) → n < bound → mem.available n ≡ true

pub length-vsnprintf : (n : ℕ) (text : List ℕ) → length (vsnprintf n text) ≤ n
unfolding vsnprintf
length-vsnprintf zero text = omega arith
length-vsnprintf (suc n) text =
    omega (arith, length-append (take n text) (0 ∷ []), length-take n text)

vsnprintf-fits : (n : ℕ) (text : List ℕ) → length text < n → vsnprintf n text ≡ text ++ 0 ∷ []
unfolding vsnprintf
vsnprintf-fits zero text h = absurd (omega arith)
vsnprintf-fits (suc n) text h = ap (λ l. l ++ 0 ∷ []) (take_all n text (omega arith))

vsnprintf-pos : (n : ℕ) (text : List ℕ) → 0 < n → vsnprintf n text ≡ take (n - 1) text ++ 0 ∷ []
unfolding vsnprintf
vsnprintf-pos zero text h = absurd (omega arith)
vsnprintf-pos (suc n) text h = ap (λ k. take k text ++ 0 ∷ []) (omega arith)

-- What a round leaves in the block, and what it leaves if it is the last.
abbrev pub printed : OutputBuffer → List ℕ → OutputBuffer
printed b text = record b {
  buffer = overwrite b.buffer b.write_into_offset (vsnprintf (room b) text);
}

abbrev pub appended : OutputBuffer → List ℕ → OutputBuffer
appended b text = record (printed b text) {
  write_into_offset = add_size b.write_into_offset (length text);
}

module _ (mem : Memory) where
  pub round-stays :
      (again : OutputBuffer → Outcome OutputBuffer) (b : OutputBuffer) (text : List ℕ)
      → IsValid b
      → length text ≤ room b
      → length text < 2 ^ 31
      → append_round mem again b text ≡ done (appended b text)
  unfolding append_round too_long
  round-stays again b text v fits short =
      let given : sub_size b.length b.write_into_offset ≡ room b =
        omega (arith, v.within, v.small) in
      rw given (ground (arith, length-vsnprintf (room b) text, v.sized))

  pub round-again :
      (again : OutputBuffer → Outcome OutputBuffer) (b b' : OutputBuffer) (text : List ℕ)
      → IsValid b
      → room b < length text
      → length text < 2 ^ 31
      → resize mem (printed b text) (add_size (add_size b.write_into_offset (length text)) 1)
        ≡ done b'
      → append_round mem again b text ≡ again b'
  unfolding append_round too_long
  round-again again b b' text v long short e =
      let given : sub_size b.length b.write_into_offset ≡ room b =
        omega (arith, v.within, v.small) in
      rw given (ground (arith, length-vsnprintf (room b) text, v.sized))

  abbrev pub resized : OutputBuffer → ℕ → OutputBuffer
  resized b size = record b {
    length = size;
    buffer = realloc mem.junk b.buffer size;
    resize_count = add_size b.resize_count 1;
  }

  -- `resize` to at least `min_size`.
  pub resize-resized :
      (b : OutputBuffer) (min_size bound : ℕ)
      → 2 * b.length < bound
      → min_size < bound
      → bound ≤ 2 ^ 63
      → Serves mem bound
      → (size : ℕ) × (resize mem b min_size ≡ done (resized b size))
        × (min_size ≤ size)
        × (size < bound)
  unfolding resize
  resize-resized b min_size bound twice least small serves =
      let exact : double_size b.length ≡ 2 * b.length = omega arith in
      elim (dec_lt min_size (2 * b.length)) [
        | yes more ↦ (2 * b.length, ground (arith, serves (2 * b.length) twice), omega arith, twice)
        | no less ↦ (min_size, ground (arith, serves min_size least), omega arith, least)
      ]

  -- The round that has room to spare prints the whole text.
  pub fits-Appends :
      (again : OutputBuffer → Outcome OutputBuffer) (b : OutputBuffer) (text : List ℕ)
      → IsValid b
      → length text < room b
      → length text < 2 ^ 31
      → (b' : OutputBuffer) × (append_round mem again b text ≡ done b')
        × IsValid b'
        × (contents b' ≡ contents b ++ text)
        × (b'.write_from_offset ≡ b.write_from_offset)
        × (room b' ≡ room b - length text)
  fits-Appends again b text v fits short =
      let exact : add_size b.write_into_offset (length text) ≡ b.write_into_offset + length text =
        omega (arith, v.small) in
      let inside : b.write_into_offset + length (vsnprintf (room b) text) ≤ length b.buffer =
        omega (arith, length-vsnprintf (room b) text, v.sized, v.within) in
      (
        appended b text,
        round-stays again b text v (omega arith) short,
        record {
          sized =
              length-overwrite b.buffer b.write_into_offset (vsnprintf (room b) text) inside
              ∙ v.sized;
          within = omega arith;
          in_order = omega (arith, v.in_order);
          small = v.small;
        },
        ap (λ n. take n (printed b text).buffer) exact
            ∙ rw (vsnprintf-fits (room b) text fits) (
                take-overwrite_part b.buffer b.write_into_offset text (0 ∷ [])
                  (omega (arith, v.sized, v.within))),
        refl,
        omega arith,
      )

  -- A buffer made larger after a round that was cut off: its text is what it was.
  pub resized-IsValid :
      (b : OutputBuffer) (text : List ℕ) (size : ℕ)
      → IsValid b
      → b.write_into_offset + length text + 1 ≤ size
      → size < 2 ^ 63
      → IsValid (resized (printed b text) size)
        × (contents (resized (printed b text) size) ≡ contents b)
  resized-IsValid b text size v more small =
      let inside : b.write_into_offset + length (vsnprintf (room b) text) ≤ length b.buffer =
        omega (arith, length-vsnprintf (room b) text, v.sized, v.within) in
      let same_size =
        length-overwrite b.buffer b.write_into_offset (vsnprintf (room b) text) inside in
      (
        record {
          sized = length-realloc mem.junk (printed b text).buffer size;
          within = omega arith;
          in_order = v.in_order;
          small = small;
        },
        take-realloc mem.junk (printed b text).buffer size b.write_into_offset (omega arith)
              (omega (arith, v.sized, v.within, same_size))
            ∙ take-overwrite_before b.buffer b.write_into_offset (vsnprintf (room b) text)
                (omega (arith, v.sized, v.within)),
      )

  -- With memory for the text, and for twice the buffer, `output_buffer_append` appends exactly the
  -- text and keeps the rest, provided that the text is not exactly as long as the room left in the
  -- buffer and is shorter than vsnprintf's limit. Two rounds are enough fuel.
  pub append_lem :
      (bound : ℕ) (b : OutputBuffer) (text : List ℕ)
      → IsValid b
      → bound ≤ 2 ^ 63
      → Serves mem bound
      → 2 * b.length < bound
      → b.write_into_offset + length text + 1 < bound
      → length text < 2 ^ 31
      → length text ≢ room b
      → (b' : OutputBuffer) × (output_buffer_append mem 2 b text ≡ done b')
        × IsValid b'
        × (contents b' ≡ contents b ++ text)
        × (b'.write_from_offset ≡ b.write_from_offset)
  unfolding output_buffer_append
  append_lem bound b text v small serves twice long short ne =
      elim (dec_lt (length text) (room b)) [
        | yes fits ↦
            let (b', e, v', more, from, _) =
              fits-Appends (λ b'. output_buffer_append mem 1 b' text) b text v fits short in
            (b', e, v', more, from)
        | no over ↦
            let least : add_size (add_size b.write_into_offset (length text)) 1
                ≡ b.write_into_offset + length text + 1 =
              omega arith in
            let (size, e, ge, lt) =
              resize-resized (printed b text) (b.write_into_offset + length text + 1) bound twice
                long small serves in
            let (v', same) = resized-IsValid b text size v ge (omega arith) in
            let (b'', e', v'', more, from, _) =
              fits-Appends (λ b'. output_buffer_append mem 0 b' text)
                (resized (printed b text) size) text v' (omega arith) short in
            (
              b'',
              round-again (λ b'. output_buffer_append mem 1 b' text) b
                    (resized (printed b text) size) text v (omega arith) short (rw least e)
                  ∙ e',
              v'',
              more ∙ ap (λ l. l ++ text) same,
              from,
            )
      ]

  -- Where the text is exactly as long as the room, and not empty, the test of the loop accepts what
  -- vsnprintf cut off: the last byte of the text is lost, and a NUL byte stands in its place.
  pub append_cuts_off :
      (fuel : ℕ) (b : OutputBuffer) (text : List ℕ)
      → IsValid b
      → length text < 2 ^ 31
      → length text ≡ room b
      → 0 < length text
      → (b' : OutputBuffer) × (output_buffer_append mem (suc fuel) b text ≡ done b')
        × (contents b' ≡ contents b ++ (take (length text - 1) text ++ 0 ∷ []))
  unfolding output_buffer_append
  append_cuts_off fuel b text v short exact some_text =
      let cut : vsnprintf (room b) text ≡ take (length text - 1) text ++ 0 ∷ [] =
        vsnprintf-pos (room b) text (omega arith)
        ∙ ap (λ n. take (n - 1) text ++ 0 ∷ []) (sym exact) in
      let full : length (vsnprintf (room b) text) ≡ length text =
        ap length cut
        ∙ omega (
          arith,
          length-append (take (length text - 1) text) (0 ∷ []),
          length-take (length text - 1) text,
        ) in
      let moved : add_size b.write_into_offset (length text)
          ≡ b.write_into_offset + length (vsnprintf (room b) text) =
        omega (arith, v.small, v.within) in
      (
        appended b text,
        round-stays (λ b'. output_buffer_append mem fuel b' text) b text v (omega arith) short,
        ap (λ n. take n (printed b text).buffer) moved
            ∙ take-overwrite b.buffer b.write_into_offset (vsnprintf (room b) text)
                (omega (arith, v.sized, v.within))
            ∙ ap (λ l. contents b ++ l) cut,
      )
