-- ===== src/Onboard/Client.antt =====
-- clients/onboard-sync/client.go: the client as it is built over the file of a queue.
pub mod Laws
use maritime_test_lab.Prelude.{ℕ, ◌*◌, ◌^◌, String, Bool, Option, Result, ok, ◌>>=◌}
use maritime_test_lab.Onboard.Retry.{RetryPolicy}
use maritime_test_lab.Onboard.Store.{Bytes, Codec, Error, open_store}
use maritime_test_lab.Onboard.Syncer.{Syncer}

pub record Client : Type 0 where
  pub syncer : Syncer
  pub retry : RetryPolicy
  pub gateway_url : String
  pub request_timeout : ℕ

abbrev pub millisecond : ℕ
millisecond = 1000000

-- `New`, by what the disk holds: whether a file that exists cannot be opened, and the bytes at the path and beside it
unfoldable pub new :
    Codec → (ℕ → ℕ) → Bool → Option Bytes → Option Bytes → String → ℕ → Result Error Client
unfolding open_store
new codec int63n open_fails file tmp gateway_url request_timeout =
    open_store codec open_fails file tmp >>= λ store. ok (record {
      syncer = record { store = store; retry_count = 0; last_attempt = 0; last_error = "" };
      retry = record { base = 100 * millisecond; cap = 30000 * millisecond; int63n = int63n };
      gateway_url = gateway_url;
      request_timeout = request_timeout;
    })
