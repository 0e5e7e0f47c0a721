-- ===== src/OutputBuffer/Total.antt =====
-- `output_buffer_append` returns on every text, cut off or not, and the block stays in proportion to
-- the text that was ever in it.
use mathlib.Core.Path.{subst}
use jullop.Base.{
  sym, ℕ, ◌+◌, ◌*◌, ◌^◌, ◌≤◌, ◌<◌, ◌≡◌, refl, ◌∙◌, arith, dec_lt, List, length, add_size, done,
  length-overwrite,
}
use jullop.Kernel.{Memory}
use jullop.OutputBuffer.{OutputBuffer, vsnprintf, resize, output_buffer_append}
use jullop.OutputBuffer.Appending.{
  IsValid, room, Serves, appended, printed, resized, length-vsnprintf, round-stays, round-again,
  resize-resized, resized-IsValid,
}

-- What an append has done, with `most` for the most bytes that may ever be in the buffer.
pub record Grown (most : ℕ) (b : OutputBuffer) (n : ℕ) (b' : OutputBuffer) : Type 0 where
  pub valid : IsValid b'
  pub size : b'.length ≤ 2 * most
  pub into : b'.write_into_offset ≡ b.write_into_offset + n
  pub from : b'.write_from_offset ≡ b.write_from_offset

appended-Grown :
    (most : ℕ) (b : OutputBuffer) (text : List ℕ)
    → IsValid b
    → b.length ≤ 2 * most
    → length text ≤ room b
    → Grown most b (length text) (appended b text)
appended-Grown most b text v size fits =
    let exact : add_size b.write_into_offset (length text) ≡ b.write_into_offset + length text =
      omega (arith, v.small, v.within) in
    let inside : b.write_into_offset + length (vsnprintf (room b) text) ≤ length b.buffer =
      omega (arith, length-vsnprintf (room b) text, v.sized, v.within) in
    record {
      valid = record {
        sized =
            length-overwrite b.buffer b.write_into_offset (vsnprintf (room b) text) inside
            ∙ v.sized;
        within = omega (arith, v.within);
        in_order = omega (arith, v.in_order);
        small = v.small;
      };
      size = size;
      into = exact;
      from = refl;
    }

module _ (mem : Memory) where
  -- With memory for twice as many bytes as may ever be in the buffer, `output_buffer_append` returns
  -- within two rounds on every text of fewer than 2 ^ 31 bytes that keeps to that number with what is
  -- there; the offset has moved by the length of the text, and the block has not grown past twice that
  -- number.
  pub append_total :
      (most : ℕ) (b : OutputBuffer) (text : List ℕ)
      → IsValid b
      → 2 * most < 2 ^ 63
      → Serves mem (2 * most + 1)
      → b.length ≤ 2 * most
      → b.write_into_offset + length text + 1 ≤ most
      → length text < 2 ^ 31
      → (b' : OutputBuffer) × (output_buffer_append mem 2 b text ≡ done b')
        × Grown most b (length text) b'
  unfolding output_buffer_append
  append_total most b text v small serves size fits short = elim (dec_lt (room b) (length text)) [
    | no enough ↦ (
      appended b text,
      round-stays mem (λ b'. output_buffer_append mem 1 b' text) b text v (omega arith) short,
      appended-Grown most b text v size (omega arith),
    )
    | yes over ↦
        let least : add_size (add_size b.write_into_offset (length text)) 1
            ≡ b.write_into_offset + length text + 1 =
          omega arith in
        let full : 2 * b.length < 2 * most + 1 = omega (arith, v.within) in
        let (large, e, ge, lt) =
          resize-resized mem (printed b text) (b.write_into_offset + length text + 1) (2 * most + 1)
            full (omega arith) (omega arith) serves in
        let (v', same) = resized-IsValid mem b text large v ge (omega arith) in
        let g =
          appended-Grown most (resized mem (printed b text) large) text v' (omega arith)
            (omega arith) in
        (
          appended (resized mem (printed b text) large) text,
          round-again mem (λ b'. output_buffer_append mem 1 b' text) b
                (resized mem (printed b text) large) text v over short
                (subst
                  (λ n. resize mem (printed b text) n ≡ done (resized mem (printed b text) large))
                  (sym least) e)
              ∙ round-stays mem (λ b'. output_buffer_append mem 0 b' text)
                  (resized mem (printed b text) large) text v' (omega arith) short,
          record { valid = g.valid; size = g.size; into = g.into; from = g.from },
        )
  ]
