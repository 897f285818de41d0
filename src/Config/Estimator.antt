-- ===== src/Config/Estimator.antt =====
-- services/estimator/app/config.go.
pub mod Laws
use Prim.Native.String
use Prim.Native.Char.{Char, code}
use maritime_test_lab.Prelude.{
  ℕ, zero, suc, ◌+◌, ◌-◌, ◌*◌, String, Bool, true, false, Option, none, some, List, [], ◌∷◌, Result,
  ok, err, if◌then◌else◌, str_eq, ◌==◌, leb, ◌&&◌, not, ◌≡◌, ◌≢◌, refl, arith, Option-cases, inl,
  inr,
}
use maritime_test_lab.Prelude.Int.{
  ℤ, pos, negsuc, neg_ℤ, in_range, half64, ltb_ℤ, IsInt64, in_range_iff,
}
use maritime_test_lab.Config.{Environment, or, list}

pub record Config : Type 0 where
  pub grpc_addr : String
  pub kafka_brokers : List String
  pub schema_registry_url : String
  pub rate_per_nm_minor : ℤ
  pub otlp_endpoint : String

-- which check failed
pub data Error : Type 0 where
  bad_rate : Error
  empty_grpc_addr empty_kafka_brokers empty_schema_registry_url rate_not_positive : Error

-- the decimal digits behind those read so far; `none` at another character
unfoldable pub digits : ℕ → String → Option ℕ
digits n String.[] = some n
digits n (String.◌∷◌ c s) =
    let rest = digits (10 * n + (code c - 48)) s in
    if leb 48 (code c) && leb (code c) 57 then rest else none

abbrev pub signed : (ℕ → ℤ) → Option ℕ → Option ℤ
signed sign none = none
signed sign (some n) = if in_range half64 (sign n) then some (sign n) else none

-- `strconv.ParseInt(s, 10, 64)`: a sign, digits, and a value of 64 bits
unfoldable pub parse_int : String → Option ℤ
parse_int String.[] = none
parse_int (String.◌∷◌ c s) =
    if (code c == 43) && not (str_eq s "")
    then signed pos (digits 0 s)
    else if (code c == 45) && not (str_eq s "")
    then signed (λ n. neg_ℤ (pos n)) (digits 0 s)
    else signed pos (digits 0 (String.◌∷◌ c s))

unfoldable pub load_config : Environment → Result Error Config
load_config getenv = elim (parse_int (or getenv "RATE_PER_NM_MINOR" "100")) [
  | none ↦ err bad_rate
  | some rate ↦ ok (record {
    grpc_addr = or getenv "ESTIMATOR_GRPC_ADDR" ":9001";
    kafka_brokers = list getenv "KAFKA_BROKERS" "localhost:19092";
    schema_registry_url = or getenv "SCHEMA_REGISTRY_URL" "http://localhost:18081";
    rate_per_nm_minor = rate;
    otlp_endpoint = or getenv "OTEL_EXPORTER_OTLP_ENDPOINT" "";
  })
]

abbrev pub is_empty : List String → Bool
is_empty [] = true
is_empty (x ∷ xs) = false

unfoldable pub validate : Config → Option Error
validate c =
    if str_eq c.grpc_addr ""
    then some empty_grpc_addr
    else if is_empty c.kafka_brokers
    then some empty_kafka_brokers
    else if str_eq c.schema_registry_url ""
    then some empty_schema_registry_url
    else if not (ltb_ℤ (pos 0) c.rate_per_nm_minor)
    then some rate_not_positive
    else none
