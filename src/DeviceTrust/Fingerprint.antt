-- ===== src/DeviceTrust/Fingerprint.antt =====
-- devicetrust/devicetrust.go: the fingerprint of a request's headers; `digest` is SHA-256 in
-- hexadecimal.
use floodguard_rate_limiter.Prelude.{String, str_append, text_eq, if◌then◌else◌}
use floodguard_rate_limiter.Config.Texts.{trim_space}
use floodguard_rate_limiter.Middleware.{HttpRequest}

module _ (digest : String → String) where
  -- `Fingerprint`
  unfoldable pub fingerprint : String → String → String → String
  fingerprint user_agent accept_language client_device_id = digest (
      str_append (trim_space user_agent) (
        str_append "|"
          (str_append (trim_space accept_language) (str_append "|" (trim_space client_device_id)))))

  -- `FingerprintFromRequest`; `UserAgent` reads its header.
  unfoldable pub fingerprint_from_request : HttpRequest → String → String
  unfolding fingerprint
  fingerprint_from_request r client_device_id =
      fingerprint (r.header "User-Agent") (r.header "Accept-Language")
        (if text_eq client_device_id "" then r.header "X-Device-ID" else client_device_id)
