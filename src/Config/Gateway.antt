-- ===== src/Config/Gateway.antt =====
-- gateway/app/config.go.
use maritime_test_lab.Prelude.{String, Option, none, some, if◌then◌else◌, str_eq}
use maritime_test_lab.Config.{Environment, or}

pub record Config : Type 0 where
  pub http_addr : String
  pub voyage_addr : String
  pub otlp_endpoint : String

pub data Error : Type 0 where
  empty_http_addr empty_voyage_addr : Error

unfoldable pub load_config : Environment → Config
load_config getenv = record {
  http_addr = or getenv "GATEWAY_HTTP_ADDR" ":8080";
  voyage_addr = or getenv "VOYAGE_ADDR" "localhost:9000";
  otlp_endpoint = or getenv "OTEL_EXPORTER_OTLP_ENDPOINT" "";
}

unfoldable pub validate : Config → Option Error
validate c =
    if str_eq c.http_addr ""
    then some empty_http_addr
    else if str_eq c.voyage_addr ""
    then some empty_voyage_addr
    else none
