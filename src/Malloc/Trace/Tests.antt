-- ===== src/Malloc/Trace/Tests.antt =====
-- mdriver.c, `read_trace`: a trace of two requests, and its text under a header that says one.
use decs.Base.Int.{pos}
use decs.Text.{is_digit}
use decs.Base.{refl, ◌≡◌, false, List, ◌∷◌, [], All, some, arith}
use decs.Malloc.Driver.{alloc, free}
use decs.Malloc.Trace.{read_trace, undefined, got}
use decs.Malloc.Trace.Text.{Entry, IsEntry, alloc_line, entry_op, free_line, highest}
use decs.Malloc.Trace.RoundTrip.{read_trace-trace_text, read_trace_count, trace_text}
use decs.Text.Numerals.{Literal, IsInt, literal_value, value, spell}

abbrev zero_text : Literal
zero_text = record { negative = false; digits = b'0' ∷ [] }

abbrev two_lines : List Entry
two_lines = alloc_line (b'0' ∷ []) (b'5' ∷ b'1' ∷ b'2' ∷ []) ∷ free_line (b'0' ∷ []) ∷ []

digit_0 : IsInt (b'0' ∷ [])
unfolding is_digit value spell
digit_0 = ((omega arith, (refl, tt)), omega arith)

digit_1 : IsInt (b'1' ∷ [])
unfolding is_digit value spell
digit_1 = ((omega arith, (refl, tt)), omega arith)

digit_2 : IsInt (b'2' ∷ [])
unfolding is_digit value spell
digit_2 = ((omega arith, (refl, tt)), omega arith)

two_lines-IsEntry : All IsEntry two_lines
unfolding is_digit value spell
two_lines-IsEntry =
    ((digit_0, ((omega arith, (refl, (refl, (refl, tt)))), omega arith)), (digit_0, tt))

read_trace-trace_text_example :
    read_trace (some (trace_text zero_text (b'1' ∷ []) (b'2' ∷ []) zero_text two_lines))
    ≡ got (record {
      sugg_heapsize = some (pos 0);
      num_ids = pos 1;
      num_ops = pos 2;
      weight = some (pos 0);
      ops =
          record { type = alloc; index = 0; size = pos 512 }
          ∷ record { type = free; index = 0; size = pos 0 }
          ∷ [];
    })
unfolding literal_value value spell entry_op highest
read_trace-trace_text_example =
    read_trace-trace_text zero_text (b'1' ∷ []) (b'2' ∷ []) zero_text two_lines digit_0 digit_1
      digit_2 digit_0 two_lines-IsEntry refl refl

read_trace_count_example :
    read_trace (some (trace_text zero_text (b'1' ∷ []) (b'1' ∷ []) zero_text two_lines)) ≡ undefined
unfolding value spell
read_trace_count_example =
    read_trace_count zero_text (b'1' ∷ []) (b'1' ∷ []) zero_text two_lines digit_0 digit_1 digit_1
      digit_0 two_lines-IsEntry (omega arith)
