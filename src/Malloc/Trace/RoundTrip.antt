-- ===== src/Malloc/Trace/RoundTrip.antt =====
-- mdriver.c, `read_trace`: a whole file, with its header.
use decs.Base.Int.{ℤ, pos, ltb_ℤ, ◌-ℤ◌}
use decs.Malloc.Trace.Text.{
  entries_text, entry_text, Entry, IsEntry, push_all, read_requests-entries_text, pair_text,
  alloc_line, highest, realloc_line, free_line, read_requests_overrun, entry_op, push_all-max_index,
  push_all-op_index, push_all-ops,
}
use decs.Text.{is_space, Bytes, is_digit, scan_d}
use decs.Malloc.Trace.{
  read_header, read_body, Header, check_trace, all_read, start_scanning, read_requests, Requests,
  read_trace, to_unsigned, undefined, aborts, got, Scanning,
}
use decs.Text.Numerals.{
  Literal, literal_text, IsLiteral, IsNumeral, literal_value, value, scan_d-literal_text,
  scan_d_space, scan_d-append, IsInt,
}
use decs.Base.{
  ℕ, refl, List, Option, length, ◌≡◌, ◌∷◌, ◌≤◌, ◌++◌, some, arith, All, [], ◌∙◌, ap, suc, ◌<◌,
  length-append, ◌||◌, false, ◌+◌, map, ◌^◌, ◌-◌, ◌==◌, true, ◌%◌, ==_iff, Bool, not, if◌then◌else◌,
  ◌≢◌, ltb, dec_lt, lt→ltb,
}

-- The text of a trace: the suggested heap size, the number of identifiers, the number of requests and
-- the weight, each on its line, and the requests
unfoldable pub trace_text : Literal → Bytes → Bytes → Literal → List Entry → Bytes
trace_text sugg ids ops weight es =
    literal_text sugg (10 ∷ (ids ++ 10 ∷ (ops ++ 10 ∷ literal_text weight (10 ∷ entries_text es))))

-- the four conversions of the header
read_header_lem :
    (text : Bytes) (a b c d : Option ℤ × Bytes)
    → scan_d text ≡ a
    → scan_d a.1 ≡ b
    → scan_d b.1 ≡ c
    → scan_d c.1 ≡ d
    → read_header text
      ≡ record { sugg_heapsize = a.0; num_ids = b.0; num_ops = c.0; weight = d.0; rest = d.1 }
unfolding read_header
read_header_lem text a b c d ha hb hc hd = rw (ha, hb, hc, hd) refl

abbrev header_of : Literal → ℕ → ℕ → Literal → List Entry → Header
header_of sugg ids ops weight es = record {
  sugg_heapsize = some (literal_value sugg);
  num_ids = some (pos ids);
  num_ops = some (pos ops);
  weight = some (literal_value weight);
  rest = 10 ∷ entries_text es;
}

read_header-trace_text :
    (sugg : Literal) (ids ops : Bytes) (weight : Literal) (es : List Entry)
    → IsLiteral sugg
    → IsNumeral ids
    → IsNumeral ops
    → IsLiteral weight
    → read_header (trace_text sugg ids ops weight es)
      ≡ header_of sugg (value ids) (value ops) weight es
unfolding trace_text is_space is_digit
read_header-trace_text sugg ids ops weight es hs hi ho hw =
    let r3 = literal_text weight (10 ∷ entries_text es) in
    let r2 = ops ++ 10 ∷ r3 in
    let r1 = ids ++ 10 ∷ r2 in
    read_header_lem _ (some (literal_value sugg), 10 ∷ r1) (some (pos (value ids)), 10 ∷ r2)
      (some (pos (value ops)), 10 ∷ r3) (some (literal_value weight), 10 ∷ entries_text es)
      (scan_d-literal_text sugg 10 r1 hs refl)
      (scan_d_space 10 r1 refl ∙ scan_d-append ids 10 r2 hi refl)
      (scan_d_space 10 r2 refl ∙ scan_d-append ops 10 r3 ho refl)
      (scan_d_space 10 r3 refl ∙ scan_d-literal_text weight 10 (entries_text es) hw refl)

length-pair_text : (i z rest : Bytes) → length rest < length (pair_text i z rest)
unfolding pair_text
length-pair_text i z rest =
    omega (arith, length-append i (b' ' ∷ (z ++ 10 ∷ rest)), length-append z (10 ∷ rest))

length-entry_text : (e : Entry) (rest : Bytes) → length rest < length (entry_text e rest)
unfolding entry_text
length-entry_text (alloc_line i z) rest = omega (arith, length-pair_text i z rest)
length-entry_text (realloc_line i z) rest = omega (arith, length-pair_text i z rest)
length-entry_text (free_line i) rest = omega (arith, length-append i (10 ∷ rest))

-- Each round of the loop has a byte to read, so the fuel is enough.
length-entries_text : (es : List Entry) → length es ≤ length (entries_text es)
unfolding entries_text
length-entries_text [] = omega arith
length-entries_text (e ∷ es) =
    omega (arith, length-entries_text es, length-entry_text e (entries_text es))

not_negative : (ids n : ℕ) → (ltb_ℤ (pos n) (pos 0) || ltb_ℤ (pos ids) (pos 0)) ≡ false
not_negative ids n = ground arith

-- `read_trace` behind the header
read_body_lem :
    (h : Header) (ids n : ℕ) (es : List Entry) (r : Requests)
    → h.rest ≡ 10 ∷ entries_text es
    → read_requests
        (suc (length (10 ∷ entries_text es)))
        (pos n)
        start_scanning
        (10 ∷ entries_text es)
      ≡ r
    → read_body h (some (pos ids)) (some (pos n))
      ≡ check_trace h.sugg_heapsize (pos ids) (pos n) h.weight r
unfolding read_body
read_body_lem h ids n es r e k = rw (not_negative ids n) (
    ap
      (λ s.
        check_trace h.sugg_heapsize (pos ids) (pos n) h.weight
          (read_requests (suc (length s)) (pos n) start_scanning s))
      e
    ∙ ap (check_trace h.sugg_heapsize (pos ids) (pos n) h.weight) k)

last_id : (ids : ℕ) → 0 < ids → ids < 2 ^ 31 → to_unsigned (pos ids -ℤ pos 1) ≡ ids - 1
unfolding to_unsigned ◌-ℤ◌
last_id ids h k = ground (arith, h, k)

check_trace_lem :
    (sugg weight : Option ℤ) (ids n : ℕ) (st : Scanning)
    → ids < 2 ^ 31
    → n < 2 ^ 31
    → ids ≡ st.max_index + 1
    → st.op_index ≡ n
    → check_trace sugg (pos ids) (pos n) weight (all_read st)
      ≡ got (record {
        sugg_heapsize = sugg;
        num_ids = pos ids;
        num_ops = pos n;
        weight = weight;
        ops = st.ops;
      })
unfolding check_trace to_unsigned
check_trace_lem sugg weight ids n st hi hn k m =
    let same_id : (st.max_index == to_unsigned (pos ids -ℤ pos 1)) ≡ true =
      (==_iff _ _).1 (omega (arith, last_id ids (omega (arith, k)) hi, k)) in
    let same_ops : (n % 2 ^ 32 == st.op_index) ≡ true = (==_iff _ _).1 (omega (arith, hn, m)) in
    rw (same_id, same_ops) refl

either_way : (b : Bool) → (if b then aborts else aborts) ≡ aborts
either_way true = refl
either_way false = refl

check_trace_few :
    (sugg weight : Option ℤ) (ids n : ℕ) (st : Scanning)
    → n < 2 ^ 31
    → st.op_index < n
    → check_trace sugg (pos ids) (pos n) weight (all_read st) ≡ aborts
unfolding check_trace to_unsigned
check_trace_few sugg weight ids n st hn m =
    let differ : (n % 2 ^ 32 == st.op_index) ≡ false = ground (arith, hn, m) in
    rw differ (either_way (not (st.max_index == to_unsigned (pos ids -ℤ pos 1))))

module _ (sugg : Literal) (ids ops : Bytes) (weight : Literal) (es : List Entry)
    (hs : IsInt sugg.digits) (hi : IsInt ids) (ho : IsInt ops) (hw : IsInt weight.digits)
    (h : All IsEntry es) where
  read_trace_lem :
      (r : Requests)
      → read_requests
          (suc (length (10 ∷ entries_text es)))
          (pos (value ops))
          start_scanning
          (10 ∷ entries_text es)
        ≡ r
      → read_trace (some (trace_text sugg ids ops weight es))
        ≡ check_trace
            (some (literal_value sugg))
            (pos (value ids))
            (pos (value ops))
            (some (literal_value weight))
            r
  unfolding read_trace
  read_trace_lem r k =
      ap (λ (x : Header). read_body x x.num_ids x.num_ops)
        (read_header-trace_text sugg ids ops weight es hs.0 hi.0 ho.0 hw.0)
      ∙ read_body_lem (header_of sugg (value ids) (value ops) weight es) (value ids) (value ops) es
          r refl k

  enough_fuel : length es < suc (length (10 ∷ entries_text es))
  enough_fuel = omega (arith, length-entries_text es)

  -- A trace file is read as the trace that it spells out, number by number and request by request: where
  -- the header's number of requests is the number of lines, its number of identifiers is one more than
  -- the largest index that is allocated or reallocated, and each number fits an `int`.
  pub read_trace-trace_text :
      length es ≡ value ops
      → value ids ≡ highest 0 es + 1
      → read_trace (some (trace_text sugg ids ops weight es))
        ≡ got (record {
          sugg_heapsize = some (literal_value sugg);
          num_ids = pos (value ids);
          num_ops = pos (value ops);
          weight = some (literal_value weight);
          ops = map entry_op es;
        })
  read_trace-trace_text m k =
      read_trace_lem _ (
        read_requests-entries_text _ (value ops) start_scanning es h enough_fuel (omega (arith, m)))
      ∙ check_trace_lem _ _ (value ids) (value ops) (push_all es start_scanning) hi.1 ho.1
          (omega (arith, k, push_all-max_index es start_scanning))
          (omega (arith, m, push_all-op_index es start_scanning))
      ∙ ap
          (λ l. got (record {
            sugg_heapsize = some (literal_value sugg);
            num_ids = pos (value ids);
            num_ops = pos (value ops);
            weight = some (literal_value weight);
            ops = l;
          }))
          (push_all-ops es start_scanning h)

  -- A file with more lines than its header says is written beyond the array before the count is
  -- compared; one with fewer lines fails an assertion.
  pub read_trace_count :
      length es ≢ value ops
      → read_trace (some (trace_text sugg ids ops weight es))
        ≡ (if ltb (value ops) (length es) then undefined else aborts)
  unfolding check_trace
  read_trace_count other = elim (dec_lt (value ops) (length es)) [
    | yes m ↦ rw (lt→ltb _ _ m) (
        read_trace_lem _ (
          read_requests_overrun _ (value ops) start_scanning es h enough_fuel (omega (arith, m))
            (omega arith)))
    | no m ↦
        let few : ltb (value ops) (length es) ≡ false = ground arith in
        let below : length es < value ops = ground arith in
        rw few (
          read_trace_lem _ (
            read_requests-entries_text _ (value ops) start_scanning es h enough_fuel
              (omega (arith, below)))
          ∙ check_trace_few _ _ (value ids) (value ops) (push_all es start_scanning) ho.1
              (omega (arith, below, push_all-op_index es start_scanning)))
  ]
