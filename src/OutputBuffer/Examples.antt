-- ===== src/OutputBuffer/Examples.antt =====
-- Runs of src/output_buffer.c at concrete inputs, over the pipe.
use jullop.Base.{◌≡◌, refl, true, [], ◌∷◌, arith, done}
use jullop.Kernel.{Memory}
use jullop.Kernel.Pipe.{Pipe, pipe}
use jullop.OutputBuffer.{OutputBuffer, WriteState, output_buffer_append, output_buffer_write_to}
use jullop.OutputBuffer.Appending.{IsValid, contents, append_lem, append_cuts_off}
use jullop.OutputBuffer.Total.{Grown, append_total}
use jullop.OutputBuffer.Writing.{HasWritten, write_to_lem}

abbrev memory : Memory
memory = record { available = λ n. true; junk = 0 }

-- Four bytes, of which the first is written out and the second is not.
abbrev half_written : OutputBuffer
half_written = record {
  buffer = 5 ∷ 6 ∷ 0 ∷ 0 ∷ [];
  length = 4;
  write_from_offset = 1;
  write_into_offset = 2;
  resize_count = 0;
}

half_written-IsValid : IsValid half_written
half_written-IsValid = record {
  sized = refl;
  within = omega arith;
  in_order = omega arith;
  small = omega arith;
}

append_lem_example :
    (b' : OutputBuffer) × (output_buffer_append memory 2 half_written (7 ∷ 8 ∷ 9 ∷ []) ≡ done b')
    × IsValid b'
    × (contents b' ≡ 5 ∷ 6 ∷ 7 ∷ 8 ∷ 9 ∷ [])
    × (b'.write_from_offset ≡ 1)
append_lem_example =
    append_lem memory 100 half_written (7 ∷ 8 ∷ 9 ∷ []) half_written-IsValid (omega arith)
      (λ n h. refl) (omega arith) (omega arith) (omega arith) (λ e. omega arith)

append_cuts_off_example :
    (b' : OutputBuffer) × (output_buffer_append memory 1 half_written (7 ∷ 8 ∷ []) ≡ done b')
    × (contents b' ≡ 5 ∷ 6 ∷ 7 ∷ 0 ∷ [])
append_cuts_off_example =
    append_cuts_off memory 0 half_written (7 ∷ 8 ∷ []) half_written-IsValid (omega arith) refl
      (omega arith)

write_to_lem_example :
    (st : WriteState) × (b' : OutputBuffer) × (t : Pipe) × (output_buffer_write_to pipe 2
        half_written
        (record { incoming = []; outgoing = 5 ∷ [] })
      ≡ done (st, b', t))
    × HasWritten pipe half_written (record { incoming = []; outgoing = 5 ∷ [] }) st b' t
write_to_lem_example =
    write_to_lem pipe half_written (record { incoming = []; outgoing = 5 ∷ [] })
      half_written-IsValid

append_total_example :
    (b' : OutputBuffer) × (output_buffer_append memory 2 half_written (7 ∷ 8 ∷ []) ≡ done b')
    × Grown 100 half_written 2 b'
append_total_example =
    append_total memory 100 half_written (7 ∷ 8 ∷ []) half_written-IsValid (omega arith)
      (λ n h. refl) (omega arith) (omega arith) (omega arith)
