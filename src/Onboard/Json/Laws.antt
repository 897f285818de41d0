-- ===== src/Onboard/Json/Laws.antt =====
-- What the text of an operation holds, and how long it is.
use maritime_test_lab.Prelude.{
  ℕ, zero, suc, ◌+◌, ◌*◌, ◌/◌, ◌%◌, ◌≤◌, String, Bool, true, List, [], ◌∷◌, ◌≡◌, refl, arith, All,
  All-append, length, length-append, Bool-cases, inl, inr, ltb, leb, ◌&&◌,
}
use maritime_test_lab.Prelude.Int.{ℤ, pos, negsuc}
use maritime_test_lab.Onboard.Operation.{Operation}
use maritime_test_lab.Onboard.Store.{Bytes}
use maritime_test_lab.Onboard.Json.{
  codes, utf8, write_char, write_chars, write_text, digits, write_int, key, marshal, text_member,
  int_member, write_members, members,
}

-- no control character, so that neither a newline nor a carriage return stands in a line
abbrev pub Printable : ℕ → Type 0
Printable b = 32 ≤ b

write_char-Printable : (c : ℕ) → All Printable (write_char c)
unfolding write_char utf8
write_char-Printable c = ground arith

write_chars-Printable : (cs : List ℕ) → All Printable (write_chars cs)
unfolding write_chars
write_chars-Printable [] = tt
write_chars-Printable (c ∷ cs) =
    All-append Printable (write_char c) (write_chars cs) (write_char-Printable c)
      (write_chars-Printable cs)

write_text-Printable : (s : String) → All Printable (write_text s)
unfolding write_text
write_text-Printable s = (
  omega arith,
  All-append Printable (write_chars (codes s)) (34 ∷ []) (write_chars-Printable (codes s))
      (omega arith, tt),
)

digits-Printable : (k n : ℕ) → All Printable (digits k n)
unfolding digits
digits-Printable zero n = tt
digits-Printable (suc k) n = elim (Bool-cases (ltb n 10)) [
  | inl e ↦ rw e (omega arith, tt)
  | inr e ↦ rw e (
      All-append Printable (digits k (n / 10)) ((48 + n % 10) ∷ []) (digits-Printable k (n / 10))
        (omega arith, tt))
]

write_int-Printable : (n : ℤ) → All Printable (write_int n)
unfolding write_int
write_int-Printable (pos n) = digits-Printable 19 n
write_int-Printable (negsuc n) = (omega arith, digits-Printable 19 (suc n))

write_char-length : (c : ℕ) → (1 ≤ length (write_char c)) × (length (write_char c) ≤ 6)
unfolding write_char utf8
write_char-length c = ground arith

write_chars-length :
    (cs : List ℕ)
    → (length cs ≤ length (write_chars cs)) × (length (write_chars cs) ≤ 6 * length cs)
unfolding write_chars
write_chars-length [] = (omega arith, omega arith)
write_chars-length (c ∷ cs) =
    let (one, six) = write_char-length c in
    let (low, high) = write_chars-length cs in
    let sum = length-append (write_char c) (write_chars cs) in
    (omega (arith, one, low, sum), omega (arith, six, high, sum))

digits-length : (k n : ℕ) → length (digits k n) ≤ k
unfolding digits
digits-length zero n = omega arith
digits-length (suc k) n = elim (Bool-cases (ltb n 10)) [
  | inl e ↦ rw e (omega arith)
  | inr e ↦ rw e (
      omega
        (arith, length-append (digits k (n / 10)) ((48 + n % 10) ∷ []), digits-length k (n / 10)))
]

all_printable : Bytes → Bool
all_printable [] = true
all_printable (b ∷ bytes) = leb 32 b && all_printable bytes

all_printable-Printable : (bytes : Bytes) → all_printable bytes ≡ true → All Printable bytes
unfolding all_printable
all_printable-Printable [] e = tt
all_printable-Printable (b ∷ bytes) e = ground (arith, all_printable-Printable bytes)

text_member-Printable :
    (name s : String) → all_printable (key name) ≡ true → All Printable (text_member name s)
unfolding text_member
text_member-Printable name s e =
    All-append Printable (key name) (write_text s) (all_printable-Printable (key name) e)
      (write_text-Printable s)

int_member-Printable :
    (name : String) (n : ℤ) → all_printable (key name) ≡ true → All Printable (int_member name n)
unfolding int_member
int_member-Printable name n e =
    All-append Printable (key name) (write_int n) (all_printable-Printable (key name) e)
      (write_int-Printable n)

write_members-Printable :
    (ms : List Bytes) → All (All Printable) ms → All Printable (write_members ms)
unfolding write_members
write_members-Printable [] h = (omega arith, tt)
write_members-Printable (m ∷ []) h = All-append Printable m (125 ∷ []) h.0 (omega arith, tt)
write_members-Printable (m ∷ n ∷ ms) h =
    All-append Printable m (44 ∷ write_members (n ∷ ms)) h.0
      (omega arith, write_members-Printable (n ∷ ms) h.1)

-- The line of an operation holds no control character.
pub marshal-Printable : (op : Operation) → All Printable (marshal op)
unfolding marshal all_printable
marshal-Printable op = (
  omega arith,
  write_members-Printable (members op) (
    text_member-Printable "client_request_id" op.client_request_id refl,
    (
      text_member-Printable "kind" op.kind refl,
      (
        text_member-Printable "origin" op.origin refl,
        (
          text_member-Printable "dest" op.dest refl,
          (
            int_member-Printable "distance_nm" op.distance_nm refl,
            (
              int_member-Printable "fees_minor" op.fees_minor refl,
              (int_member-Printable "version" op.version refl, tt),
            ),
          ),
        ),
      ),
    ),
  ),
)

write_text-length :
    (s : String)
    → (length (codes s) + 2 ≤ length (write_text s))
      × (length (write_text s) ≤ 6 * length (codes s) + 2)
unfolding write_text
write_text-length s =
    let (low, high) = write_chars-length (codes s) in
    let sum = length-append (write_chars (codes s)) (34 ∷ []) in
    (omega (arith, low, sum), omega (arith, high, sum))

write_int-length : (n : ℤ) → length (write_int n) ≤ 20
unfolding write_int
write_int-length (pos n) = omega (arith, digits-length 19 n)
write_int-length (negsuc n) = omega (arith, digits-length 19 (suc n))

text_member-length :
    (name s : String)
    → (length (codes s) ≤ length (text_member name s))
      × (length (text_member name s) ≤ length (key name) + (6 * length (codes s) + 2))
unfolding text_member
text_member-length name s =
    let (low, high) = write_text-length s in
    let sum = length-append (key name) (write_text s) in
    (omega (arith, low, sum), omega (arith, high, sum))

int_member-length : (name : String) (n : ℤ) → length (int_member name n) ≤ length (key name) + 20
unfolding int_member
int_member-length name n = omega (arith, write_int-length n, length-append (key name) (write_int n))

-- the bytes of the members
total : List Bytes → ℕ
total [] = 0
total (m ∷ ms) = suc (length m) + total ms

write_members-length :
    (ms : List Bytes)
    → (total ms ≤ length (write_members ms)) × (length (write_members ms) ≤ total ms + 1)
unfolding write_members total
write_members-length [] = (omega arith, omega arith)
write_members-length (m ∷ []) =
    let sum = length-append m (125 ∷ []) in (omega (arith, sum), omega (arith, sum))
write_members-length (m ∷ n ∷ ms) =
    let (low, high) = write_members-length (n ∷ ms) in
    let sum = length-append m (44 ∷ write_members (n ∷ ms)) in
    (omega (arith, low, sum), omega (arith, high, sum))

-- the characters of the texts of an operation
abbrev pub characters : Operation → ℕ
characters op =
    length (codes op.client_request_id)
    + length (codes op.kind)
    + length (codes op.origin)
    + length (codes op.dest)

-- The line of an operation has at least as many bytes as its texts have characters, and at most 6 for each of these and 169 more.
pub marshal-length :
    (op : Operation)
    → (characters op ≤ length (marshal op)) × (length (marshal op) ≤ 6 * characters op + 169)
unfolding marshal total
marshal-length op =
    let (low, high) = write_members-length (members op) in
    let (a, a') = text_member-length "client_request_id" op.client_request_id in
    let (b, b') = text_member-length "kind" op.kind in
    let (c, c') = text_member-length "origin" op.origin in
    let (d, d') = text_member-length "dest" op.dest in
    let e = int_member-length "distance_nm" op.distance_nm in
    let f = int_member-length "fees_minor" op.fees_minor in
    let g = int_member-length "version" op.version in
    (omega (arith, low, a, b, c, d), omega (arith, high, a', b', c', d', e, f, g))
