-- ===== src/HttpResponse/Examples.antt =====
-- Runs of `http_response_init` at concrete inputs.
use jullop.Base.{ℕ, arith, ◌≡◌, refl, true, List, [], ◌∷◌, ◌++◌, done, ◌>>=◌, replicate}
use jullop.Kernel.{Memory}
use jullop.OutputBuffer.{
  OutputBuffer, vsnprintf, too_long, resize, append_round, output_buffer_append,
}
use jullop.OutputBuffer.Appending.{IsValid, contents}
use jullop.HttpResponse.Text.{header_lines, response_text}
use jullop.HttpResponse.{
  HttpHeader, get_reason, text_of, status_line, body_text, append_headers, http_response_init,
}

abbrev memory : Memory
memory = record { available = λ n. true; junk = 0 }

abbrev blank : OutputBuffer
blank = record {
  buffer = replicate 16 0;
  length = 16;
  write_from_offset = 0;
  write_into_offset = 0;
  resize_count = 0;
}

abbrev length_header : HttpHeader
length_header = record { name = text_of "Content-Length"; value = text_of "2" }

abbrev lines : List ℕ
lines =
    text_of "HTTP/1.1 404 Not Found"
    ++ 13 ∷ 10 ∷ (text_of "Content-Length: 2" ++ 13 ∷ 10 ∷ 13 ∷ 10 ∷ text_of "/a")

not_found :
    (http_response_init memory 2 blank 404 (length_header ∷ []) (text_of "/a") >>= λ b.
    done (contents b))
    ≡ done lines
unfolding http_response_init append_headers output_buffer_append append_round too_long resize
    vsnprintf get_reason
not_found = refl

abbrev large : OutputBuffer
large = record blank { buffer = replicate 200 0; length = 200 }

large-IsValid : IsValid large
large-IsValid = record {
  sized = refl;
  within = omega arith;
  in_order = omega arith;
  small = omega arith;
}

response_text_example :
    (b' : OutputBuffer) × (http_response_init memory 1 large 200 (length_header ∷ []) (text_of "/a")
      ≡ done b')
    × IsValid b'
    × (contents b'
        ≡ []
          ++ ((status_line 200 ++ header_lines (length_header ∷ [])) ++ body_text (text_of "/a")))
    × (b'.write_from_offset ≡ 0)
unfolding get_reason
response_text_example =
    response_text memory 0 large 200 (length_header ∷ []) (text_of "/a") large-IsValid (omega arith)
      (omega arith)
