-- ===== src/MessagePassing/Examples.antt =====
-- Runs of src/message_passing.c at concrete inputs, over the pipe.
use jullop.Base.{List, ℕ, zero, suc, ◌<◌, take, ◌≡◌, refl, [], ◌∷◌, arith, length, done}
use jullop.Kernel.{received}
use jullop.Kernel.Pipe.{Pipe, read_from, pipe}
use jullop.OutputBuffer.{WriteState}
use jullop.MessagePassing.{
  Message, message_init, message_reset, bytes_of, message_read_sync, message_get_payload,
  message_write_sync, write_async, read_async,
}
use jullop.MessagePassing.Pointer.{payload_round_trip}
use jullop.InputBuffer.{ReadState}
use jullop.MessagePassing.Reading.{HasReceived, read_async_lem}
use jullop.MessagePassing.Sync.{Takes}
use jullop.MessagePassing.SyncReading.{Gives, pointer_passed}
use jullop.MessagePassing.Writing.{HasSent, write_async_lem}

abbrev blank : Message
blank = record { buffer = 9 ∷ 9 ∷ 9 ∷ 9 ∷ 9 ∷ 9 ∷ 9 ∷ 9 ∷ []; offset = 3 }

abbrev quiet : Pipe
quiet = record { incoming = []; outgoing = [] }

payload_round_trip_example :
    (message' : Message) × (message_init blank 123456789 ≡ done message')
    × (message'.offset ≡ 0)
    × (message_get_payload (record message' { offset = 8 }) ≡ done 123456789)
payload_round_trip_example = payload_round_trip blank 123456789 8 refl (omega arith)

write_async_lem_example :
    (st : WriteState) × (offset' : ℕ) × (t : Pipe) × (write_async pipe 8 blank.buffer 8 3 quiet
      ≡ done (st, offset', t))
    × HasSent pipe blank.buffer 3 quiet st offset' t
write_async_lem_example = write_async_lem pipe blank.buffer 3 quiet (omega arith) (omega arith)

abbrev loud : Pipe
loud = record { incoming = 1 ∷ 2 ∷ 3 ∷ 4 ∷ 5 ∷ 6 ∷ []; outgoing = [] }

read_async_lem_example :
    (st : ReadState) × (buffer' : List ℕ) × (offset' : ℕ) × (t : Pipe) × (read_async pipe 8
        blank.buffer 8 3 loud
      ≡ done (st, buffer', offset', t))
    × HasReceived pipe blank.buffer 3 loud st buffer' offset' t
read_async_lem_example = read_async_lem pipe blank.buffer 3 loud refl (omega arith)

pipe_takes : Takes pipe
pipe_takes s [] some_bytes = absurd (omega arith)
pipe_takes s (x ∷ xs) some_bytes = (length xs, _, refl)

read_from_gives :
    (inc out : List ℕ) (n : ℕ)
    → 0 < n
    → 0 < length inc
    → (x : ℕ) × (xs : List ℕ) × (t : Pipe) × (read_from inc out n ≡ (received x xs, t))
read_from_gives [] out n some_room some_bytes = absurd (omega arith)
read_from_gives (x ∷ xs) out zero some_room some_bytes = absurd (omega arith)
read_from_gives (x ∷ xs) out (suc n) some_room some_bytes = (x, take n xs, _, refl)

pipe_gives : Gives pipe
pipe_gives s n some_room some_bytes = read_from_gives s.incoming s.outgoing n some_room some_bytes

abbrev pointer_bytes : List ℕ
pointer_bytes = 21 ∷ 205 ∷ 91 ∷ 7 ∷ 0 ∷ 0 ∷ 0 ∷ 0 ∷ []

abbrev filled : Message
filled = record { buffer = pointer_bytes; offset = 0 }

blank_filled : message_init blank 123456789 ≡ done filled
unfolding message_init bytes_of
blank_filled = refl

filled_written :
    message_write_sync pipe 8 filled quiet
    ≡ done (record filled { offset = 8 }, record quiet { outgoing = pointer_bytes })
unfolding message_write_sync
filled_written = refl

pointer_passed_example :
    (got : Message) × (u : Pipe) × (message_read_sync pipe 8
        (message_reset blank)
        (record quiet { incoming = pointer_bytes })
      ≡ done (got, u))
    × (message_get_payload got ≡ done 123456789)
    × (u.incoming ≡ [])
pointer_passed_example =
    pointer_passed pipe pipe pipe_takes pipe_gives blank filled (record filled { offset = 8 }) blank
      quiet (record quiet { outgoing = pointer_bytes }) (record quiet { incoming = pointer_bytes })
      123456789 refl refl (omega arith) refl blank_filled filled_written refl
