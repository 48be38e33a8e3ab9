-- ===== src/Config/Credentials.antt =====
-- intempt/_transport.py: `ApiKeyCredentials`.
use Prim.Native.String.{◌++◌}
use intempt_python.Prelude.{String, ◌||◌, not, if◌then◌else◌}
use intempt_python.Errors.{config_error}
use intempt_python.Python.Text.{is_nil, partition, contains}
use intempt_python.Python.Encode.{base64, utf8}
use intempt_python.Python.Value.{Value, str}
use intempt_python.Python.Result.{Result, ok, raised}

pub record Credentials : Type 0 where
  pub header : String
  pub prefix : String

-- `ApiKeyCredentials.__init__`
unfoldable pub api_key_credentials : Value → Result Credentials
api_key_credentials (str key) =
    let (prefix, secret) = partition "." key in
    if not (contains "." key) || (is_nil prefix || is_nil secret)
    then raised (config_error "api_key must be a public API key in \"<prefix>.<secret>\" form")
    else ok
        (record { header = "Basic " ++ base64 (utf8 (prefix ++ ":" ++ secret)); prefix = prefix })
api_key_credentials v =
    raised (config_error "api_key must be a public API key in \"<prefix>.<secret>\" form")

-- `ApiKeyCredentials.authorization_header`
abbrev pub authorization_header : Credentials → String
authorization_header c = c.header

-- `ApiKeyCredentials.__repr__`, for a prefix that `repr` quotes as it stands.
unfoldable pub repr : Credentials → String
repr c = "ApiKeyCredentials(prefix='" ++ c.prefix ++ "', secret=<redacted>)"
