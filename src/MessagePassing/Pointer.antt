-- ===== src/MessagePassing/Pointer.antt =====
-- A pointer goes into a message and comes out of it.
use jullop.Base.{
  ℕ, zero, suc, ◌+◌, ◌/◌, ◌^◌, ◌≤◌, ◌<◌, ◌≡◌, refl, arith, length, take, word_bytes, size_mod, done,
  exit_failure, ℕ_discrete, true, ◌==◌, if◌then◌else◌, sym, copy, overwrite, take-overwrite,
  length-overwrite, ◌∙◌, ap,
}
use native.Mathlib.Nat.{pow-suc}
use jullop.MessagePassing.{Message, bytes_of, word_of, message_init, message_get_payload}

length-bytes_of : (n x : ℕ) → length (bytes_of n x) ≡ n
unfolding bytes_of
length-bytes_of zero x = refl
length-bytes_of (suc n) x = omega (arith, length-bytes_of n (x / 256))

word_of-bytes_of : (n x : ℕ) → x < 256 ^ n → word_of (bytes_of n x) ≡ x
unfolding bytes_of word_of
word_of-bytes_of zero x h = ground arith
word_of-bytes_of (suc n) x h =
    let less : x / 256 < 256 ^ n = omega (arith, pow-suc 256 n) in
    omega (arith, word_of-bytes_of n (x / 256) less)

pub init_payload :
    (message : Message) (ptr : ℕ)
    → length message.buffer ≡ word_bytes
    → ptr < size_mod
    → (message' : Message) × (message_init message ptr ≡ done message')
      × (length message'.buffer ≡ word_bytes)
      × ((received : Message)
          → received.buffer ≡ message'.buffer
          → received.offset ≡ word_bytes
          → message_get_payload received ≡ done ptr)
      × (message'.offset ≡ 0)
unfolding message_init message_get_payload bytes_of
init_payload message ptr sized small =
    let bytes = bytes_of word_bytes ptr in
    let inside : 0 + length bytes ≤ length message.buffer =
      omega (arith, length-bytes_of word_bytes ptr) in
    let kept : length (overwrite message.buffer 0 bytes) ≡ word_bytes =
      length-overwrite message.buffer 0 bytes inside ∙ sized in
    let fits : copy message.buffer 0 bytes ≡ done (overwrite message.buffer 0 bytes) =
      ground arith in
    let all : take word_bytes (overwrite message.buffer 0 bytes) ≡ bytes =
      ap (λ n. take n (overwrite message.buffer 0 bytes)) (sym (length-bytes_of word_bytes ptr))
      ∙ take-overwrite message.buffer 0 bytes inside in
    (
      record { buffer = overwrite message.buffer 0 bytes; offset = 0 },
      rw fits refl,
      kept,
      λ received same full.
          rw (full, same, all) (ap done (word_of-bytes_of word_bytes ptr (omega arith))),
      refl,
    )

-- A pointer that `message_init` puts into a message of eight bytes comes out of it by
-- `message_get_payload` where the offset says that all eight bytes are there; where it says anything
-- else, as it does behind `message_init`, the assertion fails.
pub payload_round_trip :
    (message : Message) (ptr offset : ℕ)
    → length message.buffer ≡ word_bytes
    → ptr < size_mod
    → (message' : Message) × (message_init message ptr ≡ done message')
      × (message'.offset ≡ 0)
      × (message_get_payload (record message' { offset = offset })
          ≡ (if offset == word_bytes then done ptr else exit_failure))
unfolding message_get_payload
payload_round_trip message ptr offset sized small =
    let (message', made, _, back, at_start) = init_payload message ptr sized small in
    (
      message',
      made,
      at_start,
      elim (ℕ_discrete offset word_bytes) [
        | yes full ↦
            let test : (offset == word_bytes) ≡ true = ground arith in
            back (record message' { offset = offset }) refl full ∙ sym (rw test refl)
        | no partly ↦ ground arith
      ],
    )
