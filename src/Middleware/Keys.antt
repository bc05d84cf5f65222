-- ===== src/Middleware/Keys.antt =====
-- middleware/http.go: the key functions and the options' defaults.
use floodguard_rate_limiter.Prelude.{
  String, Option, none, some, List, [], ◌∷◌, text_eq, if◌then◌else◌,
}
use floodguard_rate_limiter.Config.Texts.{split, trim_space}
use floodguard_rate_limiter.Middleware.{HttpRequest}

abbrev first_part : List String → String
first_part [] = ""
first_part (p ∷ ps) = p

-- `ClientIP`; `split_host` is net.SplitHostPort, for its host.
unfoldable pub client_ip : (String → Option String) → HttpRequest → String
client_ip split_host r =
    let xff = r.header "X-Forwarded-For" in
    let direct : String = elim (split_host r.remote_addr) [
      | none ↦ r.remote_addr
      | some host ↦ if text_eq host "" then r.remote_addr else host
    ] in
    if text_eq xff "" then direct else trim_space (first_part (split b',' xff))

-- The key functions as they are given, and in force.
pub record GivenKeys : Type 0 where
  pub ip_key_func : Option (HttpRequest → String)
  pub key_func : Option (HttpRequest → String)
  pub idempotency_key_func : Option (HttpRequest → String)

pub record Keys : Type 0 where
  pub ip_key_func : HttpRequest → String
  pub key_func : HttpRequest → String
  pub idempotency_key_func : HttpRequest → String

abbrev or_client : (String → Option String) → HttpRequest → String
or_client split_host r =
    if text_eq (r.header "X-Account-ID") "" then client_ip split_host r else r.header "X-Account-ID"

-- `withDefaults`, for the key functions.
unfoldable pub with_defaults : (String → Option String) → GivenKeys → Keys
with_defaults split_host o = record {
  ip_key_func = elim o.ip_key_func [ none ↦ client_ip split_host | some f ↦ f ];
  key_func = elim o.key_func [ none ↦ or_client split_host | some f ↦ f ];
  idempotency_key_func = elim o.idempotency_key_func [
    | none ↦ λ r. trim_space (r.header "Idempotency-Key")
    | some f ↦ f
  ];
}
