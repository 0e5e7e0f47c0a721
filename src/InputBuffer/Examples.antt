-- ===== src/InputBuffer/Examples.antt =====
-- Runs of src/input_buffer.c at concrete inputs, over the pipe.
use jullop.Base.{◌<◌, ◌≡◌, refl, true, [], ◌∷◌, arith, done}
use jullop.Kernel.{Memory}
use jullop.Kernel.Pipe.{Pipe, pipe}
use jullop.InputBuffer.{InputBuffer, ReadState, input_buffer_read_into}
use jullop.InputBuffer.Growth.{IsValid}
use jullop.InputBuffer.Reading.{HasRead, read_into_lem}

abbrev memory : Memory
memory = record { available = λ n. true; junk = 0 }

-- A full buffer of two bytes, and a stream of three more.
abbrev full_buffer : InputBuffer
full_buffer = record { buffer = 5 ∷ 6 ∷ []; length = 2; offset = 2; resize_count = 0 }

abbrev stream : Pipe
stream = record { incoming = 7 ∷ 8 ∷ 9 ∷ []; outgoing = [] }

full_buffer-IsValid : IsValid full_buffer
full_buffer-IsValid = record { sized = refl; filled = omega arith; not_empty = omega arith }

read_into_lem_example :
    (st : ReadState) × (b' : InputBuffer) × (t : Pipe) × (input_buffer_read_into memory pipe 4
        full_buffer stream
      ≡ done (st, b', t))
    × HasRead memory pipe full_buffer stream st b' t
    × (b'.length < 100)
read_into_lem_example =
    read_into_lem memory pipe 100 full_buffer stream (omega arith) (λ n h. refl) full_buffer-IsValid
      (omega arith) (omega arith)
