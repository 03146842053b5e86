-- ===== src/Malloc/Trace.antt =====
-- assignment-3/PA_3_handout/mdriver.c: `read_trace`, on the text of the file.
use decs.Base.Words.{to_int}
use decs.Malloc.Driver.{OpType, TraceOp, alloc, free, realloc}
use decs.Base.Int.{ℤ, ◌-ℤ◌, pos, ltb_ℤ, negsuc}
use decs.Text.{scan_u, Bytes, scan_s, scan_d}
use decs.Base.{
  ℕ, refl, Option, none, List, Bool, if◌then◌else◌, ◌∷◌, [], some, suc, ltb, ◌+◌, ◌==◌, ◌%◌, not,
  ◌++◌, ◌^◌, ◌||◌, zero, length, ◌-◌,
}
pub mod RoundTrip
mod Tests
pub mod Text

-- `trace_t`, without the arrays that a run fills
pub record Trace : Type 0 where
  pub sugg_heapsize : Option ℤ
  pub num_ids : ℤ
  pub num_ops : ℤ
  pub weight : Option ℤ
  pub ops : List TraceOp

-- How `read_trace` ends: with the trace, in `unix_error` or with a bogus type character, in a failed
-- assertion, or with the use of a variable that is not set or a write beyond the array.
pub data Reading : Type 0 where
  got : Trace → Reading
  exits : Reading
  aborts : Reading
  undefined : Reading

-- The variables of the loop; `size` is not set at its start, and `ops` is the array up to `op_index`.
pub record Scanning : Type 0 where
  pub index : ℕ
  pub size : Option ℕ
  pub max_index : ℕ
  pub op_index : ℕ
  pub ops : List TraceOp

-- what `"%u %u"` leaves in `index` and `size`, and of the file
pub record Pair : Type 0 where
  pub index : ℕ
  pub size : Option ℕ
  pub rest : Bytes

unfoldable pub second_of_pair : ℕ → Option ℕ → Option ℕ × Bytes → Pair
second_of_pair index size (none, s) = record { index = index; size = size; rest = s }
second_of_pair index size (some z, s) = record { index = index; size = some z; rest = s }

unfoldable pub first_of_pair : Scanning → Option ℕ × Bytes → Pair
unfolding second_of_pair scan_u
first_of_pair st (none, s) = record { index = st.index; size = st.size; rest = s }
first_of_pair st (some i, s) = second_of_pair i st.size (scan_u s)

unfoldable pub scan_pair : Scanning → Bytes → Pair
unfolding first_of_pair scan_u
scan_pair st s = first_of_pair st (scan_u s)

-- One round of the loop
pub data Round : Type 0 where
  next : Scanning → Bytes → Round
  finished : Round
  bogus : Round
  faulty : Round

unfoldable pub has_entry : ℤ → ℕ → Bool
has_entry num_ops op_index = ltb_ℤ (pos op_index) num_ops

-- `case 'a'` and `case 'r'` behind the `fscanf`; `size` is cast to `int` and back
unfoldable pub store_request : ℤ → OpType → Scanning → ℕ → Option ℕ → Bytes → Round
unfolding has_entry
store_request num_ops type st index none s = faulty
store_request num_ops type st index (some size) s =
    if has_entry num_ops st.op_index
    then next
        (record {
          index = index;
          size = some size;
          max_index = if ltb st.max_index index then index else st.max_index;
          op_index = st.op_index + 1;
          ops = st.ops ++ record { type = type; index = index; size = to_int size } ∷ [];
        })
        s
    else faulty

-- `case 'f'`: the size of the entry is not written, and no evaluation reads it; it is 0 here.
unfoldable pub store_free : ℤ → Scanning → ℕ → Bytes → Round
unfolding has_entry
store_free num_ops st index s =
    if has_entry num_ops st.op_index
    then next
        (record st {
          index = index;
          op_index = st.op_index + 1;
          ops = st.ops ++ record { type = free; index = index; size = pos 0 } ∷ [];
        })
        s
    else faulty

-- the `d` of `"%ud"`
unfoldable pub skip_d : Bytes → Bytes
skip_d [] = []
skip_d (c ∷ s) = if c == b'd' then s else c ∷ s

unfoldable pub read_free : ℤ → Scanning → Option ℕ × Bytes → Round
unfolding store_free skip_d
read_free num_ops st (none, s) = store_free num_ops st st.index s
read_free num_ops st (some i, s) = store_free num_ops st i (skip_d s)

unfoldable pub read_pair : ℤ → OpType → Scanning → Bytes → Round
unfolding scan_pair store_request
read_pair num_ops type st s =
    let p = scan_pair st s in store_request num_ops type st p.index p.size p.rest

-- the `switch` on `type[0]`
unfoldable pub read_request : ℤ → Scanning → ℕ → Bytes → Round
unfolding read_pair read_free scan_u
read_request num_ops st type s =
    if type == b'a'
    then read_pair num_ops alloc st s
    else if type == b'r'
    then read_pair num_ops realloc st s
    else if type == b'f'
    then read_free num_ops st (scan_u s)
    else bogus

-- `fscanf` of the type, and the `switch`; a word has a first character.
unfoldable pub read_round : ℤ → Scanning → Option Bytes × Bytes → Round
unfolding read_request
read_round num_ops st (none, s) = finished
read_round num_ops st (some [], s) = bogus
read_round num_ops st (some (type ∷ more), s) = read_request num_ops st type s

-- how the loop ends
pub data Requests : Type 0 where
  all_read : Scanning → Requests
  bad_type : Requests
  fault : Requests
  out_of_fuel : Requests

unfoldable pub go_on : Scanning → (Scanning → Bytes → Requests) → Round → Requests
go_on st loop (next st' s) = loop st' s
go_on st loop finished = all_read st
go_on st loop bogus = bad_type
go_on st loop faulty = fault

-- The loop over the request lines; each round takes one unit of `fuel`.
unfoldable pub read_requests : ℕ → ℤ → Scanning → Bytes → Requests
unfolding go_on read_round scan_s
read_requests zero num_ops st s = out_of_fuel
read_requests (suc fuel) num_ops st s =
    go_on st (read_requests fuel num_ops) (read_round num_ops st (scan_s s))

-- an `int` as an `unsigned int`
unfoldable pub to_unsigned : ℤ → ℕ
to_unsigned (pos n) = n % 2 ^ 32
to_unsigned (negsuc n) = 2 ^ 32 - 1 - n % 2 ^ 32

-- The four numbers of the header
pub record Header : Type 0 where
  pub sugg_heapsize : Option ℤ
  pub num_ids : Option ℤ
  pub num_ops : Option ℤ
  pub weight : Option ℤ
  pub rest : Bytes

unfoldable pub read_header : Bytes → Header
unfolding scan_d
read_header text =
    let a = scan_d text in
    let b = scan_d a.1 in
    let c = scan_d b.1 in
    let d = scan_d c.1 in
    record { sugg_heapsize = a.0; num_ids = b.0; num_ops = c.0; weight = d.0; rest = d.1 }

-- the assertions at the end
unfoldable pub check_trace : Option ℤ → ℤ → ℤ → Option ℤ → Requests → Reading
unfolding to_unsigned ◌-ℤ◌
check_trace sugg num_ids num_ops weight (all_read st) =
    if not (st.max_index == to_unsigned (num_ids -ℤ pos 1))
    then aborts
    else if not (to_unsigned num_ops == st.op_index)
    then aborts
    else got (record {
      sugg_heapsize = sugg;
      num_ids = num_ids;
      num_ops = num_ops;
      weight = weight;
      ops = st.ops;
    })
check_trace sugg num_ids num_ops weight bad_type = exits
check_trace sugg num_ids num_ops weight fault = undefined
check_trace sugg num_ids num_ops weight out_of_fuel = undefined

abbrev pub start_scanning : Scanning
start_scanning = record { index = 0; size = none; max_index = 0; op_index = 0; ops = [] }

-- Arrays of a negative length are more than `malloc` gives.
unfoldable pub read_body : Header → Option ℤ → Option ℤ → Reading
unfolding read_requests check_trace
read_body h none num_ops = undefined
read_body h (some num_ids) none = undefined
read_body h (some num_ids) (some num_ops) =
    if ltb_ℤ num_ops (pos 0) || ltb_ℤ num_ids (pos 0)
    then exits
    else check_trace h.sugg_heapsize num_ids num_ops h.weight
        (read_requests (suc (length h.rest)) num_ops start_scanning h.rest)

-- `read_trace`; `none` is a file that cannot be opened.
unfoldable pub read_trace : Option Bytes → Reading
unfolding read_body read_header
read_trace none = exits
read_trace (some text) = let h = read_header text in read_body h h.num_ids h.num_ops
