-- ===== src/Malloc/Trace/Text.antt =====
-- mdriver.c, `read_trace`: the text of a trace is read as the requests that it lists.
use mathlib.Core.List.{append-nil, append_assoc}
use decs.Base.Words.{to_int, to_int_small}
use decs.Base.Int.{pos, ℤ}
use decs.Text.Numerals.{value, IsInt, scan_u_field}
use decs.Malloc.Trace.{
  scan_pair, first_of_pair, second_of_pair, Scanning, read_pair, read_free, read_round, skip_d,
  store_request, store_free, read_request, has_entry, next, read_requests, go_on, all_read, fault,
  faulty,
}
use decs.Malloc.Driver.{TraceOp, alloc, realloc, free, OpType}
use decs.Text.{Bytes, take_word, scan_u, word, behind_word, is_space, is_digit, scan_s, skip_spaces}
use decs.Base.{
  ℕ, refl, List, ◌∷◌, if◌then◌else◌, ◌++◌, ltb, [], ◌<◌, ◌≡◌, some, ap, ◌∙◌, ◌+◌, true, arith, All,
  length, ◌≤◌, map, suc, sym, zero, false, dec_lt,
}

-- A request line with its numbers as they are written
pub data Entry : Type 0 where
  alloc_line realloc_line : Bytes → Bytes → Entry
  free_line : Bytes → Entry

-- an index and a size
unfoldable pub pair_text : Bytes → Bytes → Bytes → Bytes
pair_text i z rest = b' ' ∷ (i ++ b' ' ∷ (z ++ 10 ∷ rest))

unfoldable pub entry_text : Entry → Bytes → Bytes
unfolding pair_text
entry_text (alloc_line i z) rest = b'a' ∷ pair_text i z rest
entry_text (realloc_line i z) rest = b'r' ∷ pair_text i z rest
entry_text (free_line i) rest = b'f' ∷ b' ' ∷ (i ++ 10 ∷ rest)

unfoldable pub entries_text : List Entry → Bytes
unfolding entry_text
entries_text [] = []
entries_text (e ∷ es) = entry_text e (entries_text es)

abbrev pub IsEntry : Entry → Type 0
IsEntry (alloc_line i z) = IsInt i × IsInt z
IsEntry (realloc_line i z) = IsInt i × IsInt z
IsEntry (free_line i) = IsInt i

unfoldable pub entry_op : Entry → TraceOp
entry_op (alloc_line i z) = record { type = alloc; index = value i; size = pos (value z) }
entry_op (realloc_line i z) = record { type = realloc; index = value i; size = pos (value z) }
entry_op (free_line i) = record { type = free; index = value i; size = pos 0 }

-- The largest index of an allocation or a reallocation, `m` counted
unfoldable pub highest : ℕ → List Entry → ℕ
highest m [] = m
highest m (alloc_line i z ∷ es) = highest (if ltb m (value i) then value i else m) es
highest m (realloc_line i z ∷ es) = highest (if ltb m (value i) then value i else m) es
highest m (free_line i ∷ es) = highest m es

scan_pair_lem :
    (st : Scanning) (i z rest : Bytes)
    → IsInt i
    → IsInt z
    → scan_pair st (pair_text i z rest)
      ≡ record { index = value i; size = some (value z); rest = 10 ∷ rest }
unfolding scan_pair first_of_pair second_of_pair pair_text
scan_pair_lem st i z rest hi hz =
    ap (first_of_pair st) (scan_u_field b' ' i b' ' (z ++ 10 ∷ rest) refl refl hi)
    ∙ ap (second_of_pair (value i) st.size) (scan_u_field b' ' z 10 rest refl refl hz)

-- The state behind a line
unfoldable pub push_entry : Entry → Scanning → Scanning
push_entry (alloc_line i z) st = record {
  index = value i;
  size = some (value z);
  max_index = if ltb st.max_index (value i) then value i else st.max_index;
  op_index = st.op_index + 1;
  ops = st.ops ++ record { type = alloc; index = value i; size = to_int (value z) } ∷ [];
}
push_entry (realloc_line i z) st = record {
  index = value i;
  size = some (value z);
  max_index = if ltb st.max_index (value i) then value i else st.max_index;
  op_index = st.op_index + 1;
  ops = st.ops ++ record { type = realloc; index = value i; size = to_int (value z) } ∷ [];
}
push_entry (free_line i) st = record st {
  index = value i;
  op_index = st.op_index + 1;
  ops = st.ops ++ record { type = free; index = value i; size = pos 0 } ∷ [];
}

read_pair_lem :
    (num_ops : ℤ) (type : OpType) (st : Scanning) (i z rest : Bytes)
    → IsInt i
    → IsInt z
    → read_pair num_ops type st (pair_text i z rest)
      ≡ store_request num_ops type st (value i) (some (value z)) (10 ∷ rest)
unfolding read_pair
read_pair_lem num_ops type st i z rest hi hz = rw (scan_pair_lem st i z rest hi hz) refl

read_free_lem :
    (num_ops : ℤ) (st : Scanning) (i rest : Bytes)
    → IsInt i
    → read_free num_ops st (scan_u (b' ' ∷ (i ++ 10 ∷ rest)))
      ≡ store_free num_ops st (value i) (10 ∷ rest)
unfolding read_free skip_d is_space is_digit
read_free_lem num_ops st i rest h = rw (scan_u_field b' ' i 10 rest refl refl h) refl

-- One round of the loop reads one line and leaves its newline.
read_round-entry_text :
    (num_ops : ℤ) (st : Scanning) (e : Entry) (rest : Bytes)
    → IsEntry e
    → has_entry num_ops st.op_index ≡ true
    → read_round num_ops st (take_word (entry_text e rest)) ≡ next (push_entry e st) (10 ∷ rest)
unfolding read_round take_word word behind_word is_space entry_text read_request push_entry
    store_request store_free
read_round-entry_text num_ops st (alloc_line i z) rest h e =
    read_pair_lem num_ops alloc st i z rest h.0 h.1 ∙ rw e refl
read_round-entry_text num_ops st (realloc_line i z) rest h e =
    read_pair_lem num_ops realloc st i z rest h.0 h.1 ∙ rw e refl
read_round-entry_text num_ops st (free_line i) rest h e =
    read_free_lem num_ops st i rest h ∙ rw e refl

unfoldable pub push_all : List Entry → Scanning → Scanning
push_all [] st = st
push_all (e ∷ es) st = push_all es (push_entry e st)

pub has_entry-below : (k n : ℕ) → k < n → has_entry (pos n) k ≡ true
unfolding has_entry
has_entry-below k n h = ground arith

pub push_entry-op_index : (e : Entry) (st : Scanning) → (push_entry e st).op_index ≡ st.op_index + 1
unfolding push_entry
push_entry-op_index (alloc_line i z) st = refl
push_entry-op_index (realloc_line i z) st = refl
push_entry-op_index (free_line i) st = refl

pub scan_s-entry_text :
    (e : Entry) (rest : Bytes) → scan_s (10 ∷ entry_text e rest) ≡ take_word (entry_text e rest)
unfolding scan_s skip_spaces is_space entry_text
scan_s-entry_text (alloc_line i z) rest = refl
scan_s-entry_text (realloc_line i z) rest = refl
scan_s-entry_text (free_line i) rest = refl

pub read_requests_step :
    (fuel : ℕ) (num_ops : ℤ) (st : Scanning) (e : Entry) (rest : Bytes)
    → IsEntry e
    → has_entry num_ops st.op_index ≡ true
    → read_requests (suc fuel) num_ops st (10 ∷ entry_text e rest)
      ≡ read_requests fuel num_ops (push_entry e st) (10 ∷ rest)
unfolding read_requests go_on
read_requests_step fuel num_ops st e rest h k =
    ap (λ r. go_on st (read_requests fuel num_ops) (read_round num_ops st r))
      (scan_s-entry_text e rest)
    ∙ ap (go_on st (read_requests fuel num_ops)) (read_round-entry_text num_ops st e rest h k)

read_requests_end :
    (fuel : ℕ) (num_ops : ℤ) (st : Scanning)
    → read_requests (suc fuel) num_ops st (10 ∷ []) ≡ all_read st
unfolding read_requests go_on read_round scan_s skip_spaces take_word is_space
read_requests_end fuel num_ops st = refl

pub read_requests-entries_text :
    (fuel n : ℕ) (st : Scanning) (es : List Entry)
    → All IsEntry es
    → length es < fuel
    → st.op_index + length es ≤ n
    → read_requests fuel (pos n) st (10 ∷ entries_text es) ≡ all_read (push_all es st)
unfolding entries_text push_all
read_requests-entries_text zero n st es h f k = ground (arith, f)
read_requests-entries_text (suc fuel) n st [] h f k = read_requests_end fuel (pos n) st
read_requests-entries_text (suc fuel) n st (e ∷ es) h f k =
    read_requests_step fuel (pos n) st e (entries_text es) h.0
      (has_entry-below st.op_index n (omega (arith, k)))
    ∙ read_requests-entries_text fuel n (push_entry e st) es h.1 (omega (arith, f))
        (omega (arith, k, push_entry-op_index e st))

push_entry-ops :
    (e : Entry) (st : Scanning) → IsEntry e → (push_entry e st).ops ≡ st.ops ++ entry_op e ∷ []
unfolding push_entry entry_op
push_entry-ops (alloc_line i z) st h = rw (to_int_small (value z) h.1.1) refl
push_entry-ops (realloc_line i z) st h = rw (to_int_small (value z) h.1.1) refl
push_entry-ops (free_line i) st h = refl

pub push_all-ops :
    (es : List Entry) (st : Scanning)
    → All IsEntry es
    → (push_all es st).ops ≡ st.ops ++ map entry_op es
unfolding push_all
push_all-ops [] st h = sym (append-nil st.ops)
push_all-ops (e ∷ es) st h =
    push_all-ops es (push_entry e st) h.1
    ∙ ap (λ l. l ++ map entry_op es) (push_entry-ops e st h.0)
    ∙ append_assoc st.ops (entry_op e ∷ []) (map entry_op es)

pub push_all-op_index :
    (es : List Entry) (st : Scanning) → (push_all es st).op_index ≡ st.op_index + length es
unfolding push_all
push_all-op_index [] st = omega arith
push_all-op_index (e ∷ es) st =
    omega (arith, push_all-op_index es (push_entry e st), push_entry-op_index e st)

pub push_all-max_index :
    (es : List Entry) (st : Scanning) → (push_all es st).max_index ≡ highest st.max_index es
unfolding push_all highest push_entry
push_all-max_index [] st = refl
push_all-max_index (alloc_line i z ∷ es) st = push_all-max_index es (push_entry (alloc_line i z) st)
push_all-max_index (realloc_line i z ∷ es) st =
    push_all-max_index es (push_entry (realloc_line i z) st)
push_all-max_index (free_line i ∷ es) st = push_all-max_index es (push_entry (free_line i) st)

-- Behind the end of the array a line is a write out of bounds.
read_round_full :
    (num_ops : ℤ) (st : Scanning) (e : Entry) (rest : Bytes)
    → IsEntry e
    → has_entry num_ops st.op_index ≡ false
    → read_round num_ops st (take_word (entry_text e rest)) ≡ faulty
unfolding read_round take_word word behind_word is_space entry_text read_request store_request
    store_free
read_round_full num_ops st (alloc_line i z) rest h e =
    read_pair_lem num_ops alloc st i z rest h.0 h.1 ∙ rw e refl
read_round_full num_ops st (realloc_line i z) rest h e =
    read_pair_lem num_ops realloc st i z rest h.0 h.1 ∙ rw e refl
read_round_full num_ops st (free_line i) rest h e = read_free_lem num_ops st i rest h ∙ rw e refl

read_requests_full :
    (fuel : ℕ) (num_ops : ℤ) (st : Scanning) (e : Entry) (rest : Bytes)
    → IsEntry e
    → has_entry num_ops st.op_index ≡ false
    → read_requests (suc fuel) num_ops st (10 ∷ entry_text e rest) ≡ fault
unfolding read_requests go_on
read_requests_full fuel num_ops st e rest h k =
    ap (λ r. go_on st (read_requests fuel num_ops) (read_round num_ops st r))
      (scan_s-entry_text e rest)
    ∙ ap (go_on st (read_requests fuel num_ops)) (read_round_full num_ops st e rest h k)

has_entry-above : (k n : ℕ) → n ≤ k → has_entry (pos n) k ≡ false
unfolding has_entry
has_entry-above k n h = ground arith

pub read_requests_overrun :
    (fuel n : ℕ) (st : Scanning) (es : List Entry)
    → All IsEntry es
    → length es < fuel
    → n < st.op_index + length es
    → st.op_index ≤ n
    → read_requests fuel (pos n) st (10 ∷ entries_text es) ≡ fault
unfolding entries_text
read_requests_overrun zero n st es h f k l = ground (arith, f)
read_requests_overrun (suc fuel) n st [] h f k l = ground (arith, k, l)
read_requests_overrun (suc fuel) n st (e ∷ es) h f k l = elim (dec_lt st.op_index n) [
  | yes below ↦
      read_requests_step fuel (pos n) st e (entries_text es) h.0
        (has_entry-below st.op_index n below)
      ∙ read_requests_overrun fuel n (push_entry e st) es h.1 (omega (arith, f))
          (omega (arith, k, push_entry-op_index e st))
          (omega (arith, below, push_entry-op_index e st))
  | no above ↦
      read_requests_full fuel (pos n) st e (entries_text es) h.0
        (has_entry-above st.op_index n (omega (arith, above)))
]
