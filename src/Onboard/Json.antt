-- ===== src/Onboard/Json.antt =====
-- What `json.Marshal` writes for a `domain.Operation` (clients/onboard-sync/domain/operation.go), as Go 1.22 and later do: the fields in their
-- order, a text with the characters escaped that a JSON text or an HTML page may not hold, a number in decimal. A text is
-- its Unicode characters, and is written as UTF-8; the Go strings that are no valid UTF-8 have no model here.
pub mod Laws
pub mod Files
use Prim.Native.Char.{code}
use Prim.Native.String.{String}
use maritime_test_lab.Prelude.{
  ℕ, zero, suc, ◌+◌, ◌-◌, ◌*◌, ◌/◌, ◌%◌, ◌^◌, Bool, ◌||◌, List, [], ◌∷◌, ◌++◌, if◌then◌else◌, ◌==◌,
  ltb, some, Option,
}
use maritime_test_lab.Prelude.Int.{ℤ, pos, negsuc}
use maritime_test_lab.Onboard.Operation.{Operation}
use maritime_test_lab.Onboard.Store.{Bytes, Codec}

-- the characters of a text
abbrev pub codes : String → List ℕ
codes String.[] = []
codes (String.◌∷◌ c s) = code c ∷ codes s

unfoldable pub utf8 : ℕ → Bytes
utf8 c =
    if ltb c 128
    then c ∷ []
    else if ltb c 2048
    then (192 + c / 64) ∷ (128 + c % 64) ∷ []
    else if ltb c 65536
    then (224 + c / 4096) ∷ (128 + c / 64 % 64) ∷ (128 + c % 64) ∷ []
    else (240 + c / 262144) ∷ (128 + c / 4096 % 64) ∷ (128 + c / 64 % 64) ∷ (128 + c % 64) ∷ []

-- a digit of "0123456789abcdef"
abbrev pub hex : ℕ → ℕ
hex d = if ltb d 10 then 48 + d else 87 + d

-- `\u00` and two digits
abbrev pub hex_escape : ℕ → Bytes
hex_escape c = 92 ∷ 117 ∷ 48 ∷ 48 ∷ hex (c / 16) ∷ hex (c % 16) ∷ []

-- the characters that an HTML page may not hold: `<`, `>` and `&`
abbrev pub is_html : ℕ → Bool
is_html c = c == 60 || (c == 62 || c == 38)

-- the letter of a short escape, 0 for a character that has none
abbrev pub short_escape : ℕ → ℕ
short_escape c =
    if c == 34
    then 34
    else if c == 92
    then 92
    else if c == 8
    then 98
    else if c == 12
    then 102
    else if c == 10
    then 110
    else if c == 13
    then 114
    else if c == 9
    then 116
    else 0

unfoldable pub write_char : ℕ → Bytes
unfolding utf8
write_char c =
    if ltb 0 (short_escape c)
    then 92 ∷ short_escape c ∷ []
    else if ltb c 32 || is_html c
    then hex_escape c
    else if c == 8232
    then 92 ∷ 117 ∷ 50 ∷ 48 ∷ 50 ∷ 56 ∷ []
    else if c == 8233
    then 92 ∷ 117 ∷ 50 ∷ 48 ∷ 50 ∷ 57 ∷ []
    else utf8 c

unfoldable pub write_chars : List ℕ → Bytes
unfolding write_char
write_chars [] = []
write_chars (c ∷ cs) = write_char c ++ write_chars cs

unfoldable pub write_text : String → Bytes
unfolding write_chars
write_text s = 34 ∷ write_chars (codes s) ++ 34 ∷ []

-- the decimal digits of a number below 10 ^ n
unfoldable pub digits : ℕ → ℕ → Bytes
digits zero n = []
digits (suc k) n =
    let front = digits k (n / 10) in if ltb n 10 then (48 + n) ∷ [] else front ++ (48 + n % 10) ∷ []

-- a 64-bit number has at most 19 digits
unfoldable pub write_int : ℤ → Bytes
unfolding digits
write_int (pos n) = digits 19 n
write_int (negsuc n) = 45 ∷ digits 19 (suc n)

-- a key and its colon
abbrev pub key : String → Bytes
key name = 34 ∷ codes name ++ 34 ∷ 58 ∷ []

unfoldable pub text_member : String → String → Bytes
unfolding write_text
text_member name s = key name ++ write_text s

unfoldable pub int_member : String → ℤ → Bytes
unfolding write_int
int_member name n = key name ++ write_int n

-- the members behind each other, up to the closing brace
unfoldable pub write_members : List Bytes → Bytes
write_members [] = 125 ∷ []
write_members (m ∷ []) = m ++ 125 ∷ []
write_members (m ∷ n ∷ members) = m ++ 44 ∷ write_members (n ∷ members)

abbrev pub members : Operation → List Bytes
members op =
    text_member "client_request_id" op.client_request_id
    ∷ text_member "kind" op.kind
    ∷ text_member "origin" op.origin
    ∷ text_member "dest" op.dest
    ∷ int_member "distance_nm" op.distance_nm
    ∷ int_member "fees_minor" op.fees_minor
    ∷ int_member "version" op.version
    ∷ []

unfoldable pub marshal : Operation → Bytes
unfolding text_member int_member write_members
marshal op = 123 ∷ write_members (members op)

-- the codec of the queue, over what `json.Unmarshal` answers
abbrev pub codec : (Bytes → Option Operation) → Codec
codec unmarshal = record { marshal = λ op. some (marshal op); unmarshal = unmarshal }
