-- ===== src/Discovery.antt =====
-- core/include/netft/discovery.hpp and core/src/discovery.cpp: the request for the configuration page of
-- the sensor. libcurl is not code of the repository: what its calls answer is an argument.
pub mod Response
pub mod Options
pub mod Bounds
pub mod Page
pub mod Sound
pub mod Validated
use Prim.Native.Char.{Char, code}
use Prim.Native.String.{String, ◌++◌}
use py_net_ft.Common.{◌++◌ as append}
use py_net_ft.Common.{
  ℕ, zero, suc, ◌/◌, ◌%◌, Bool, true, false, ◌&&◌, ◌||◌, not, Option, none, some, List, [], ◌∷◌,
  ◌==◌, if◌then◌else◌,
}
use py_net_ft.Common.Int.{ℤ, pos, negsuc}
use py_net_ft.Common.Decimal.{decimal}
use py_net_ft.Exception.{Result, ok, throws, ◌>>=◌, ◌>>◌, require, discovery_error}
use py_net_ft.Double.{Double}
use py_net_ft.Types.{SensorConfiguration}
use py_net_ft.XmlConfig.Characters.{Text}
use py_net_ft.XmlConfig.Parser.{FloatingEnvironment, parse_sensor_configuration}
use Response.{ResponseBuffer, Write, new_response, written}
use Options.{DiscoveryOptions, validate_options, timeout_milliseconds}

unfoldable pub has_colon : String → Bool
has_colon String.[] = false
has_colon (String.◌∷◌ c s) = code c == b':' || has_colon s

unfoldable pub ends_with_bracket : String → Bool
ends_with_bracket String.[] = false
ends_with_bracket (String.◌∷◌ c String.[]) = code c == b']'
ends_with_bracket (String.◌∷◌ c (String.◌∷◌ e s)) = ends_with_bracket (String.◌∷◌ e s)

-- Two characters at least, `[` the first and `]` the last.
unfoldable pub is_bracketed : String → Bool
unfolding ends_with_bracket
is_bracketed String.[] = false
is_bracketed (String.◌∷◌ c String.[]) = false
is_bracketed (String.◌∷◌ c (String.◌∷◌ e s)) = code c == b'[' && ends_with_bracket (String.◌∷◌ e s)

-- An IPv6 address is put in brackets.
unfoldable pub url_host : String → String
unfolding has_colon is_bracketed
url_host host = if has_colon host && not (is_bracketed host) then ("[" ++ host) ++ "]" else host

pub data UrlPart : Type 0 where
  scheme host port path : UrlPart

-- `protocols` is one of two options, by the version of libcurl. `curlu` hands the URL over; the write
-- function is `append_response`, and its data the response.
pub data CurlOption : Type 0 where
  curlu writefunction writedata : CurlOption
  protocols proxy : String → CurlOption
  followlocation maxredirs nosignal connecttimeout_ms timeout_ms : ℕ → CurlOption

-- What the two handles have been given, in order.
pub record Request : Type 0 where
  pub url : List (UrlPart × String)
  pub options : List CurlOption

abbrev pub new_request : Request
new_request = record { url = []; options = [] }

-- The calls of the write function in a transfer, its error, and the status of the response.
pub record Transfer : Type 0 where
  pub writes : List Write
  pub error : Option String
  pub status : Option ℤ

-- What libcurl answers: whether its initialisation, its two handles, a part of the URL and an option are
-- fine, and how a request is answered.
pub record Curl : Type 0 where
  pub initialized : Bool
  pub has_handle : Bool
  pub has_url : Bool
  pub accepts_part : UrlPart → String → Bool
  pub accepts_option : CurlOption → Bool
  pub transfer : Request → Transfer

unfoldable pub set_url_part : Curl → Request → UrlPart → String → Result Request
set_url_part curl request part value =
    if curl.accepts_part part value
    then ok (record request { url = append request.url ((part, value) ∷ []) })
    else throws (discovery_error "invalid sensor discovery URL")

unfoldable pub set_curl_option : Curl → Request → CurlOption → Result Request
set_curl_option curl request option =
    if curl.accepts_option option
    then ok (record request { options = append request.options (option ∷ []) })
    else throws (discovery_error "failed to configure sensor discovery request")

abbrev pub transferred : Option String → Result (Unit {0})
transferred none = ok tt
transferred (some error) =
    throws (discovery_error ("sensor configuration request failed: " ++ error))

abbrev pub is_ok_status : ℤ → Bool
is_ok_status (pos n) = n == 200
is_ok_status (negsuc n) = false

abbrev pub accepted_status : Option ℤ → Result (Unit {0})
accepted_status none = throws (discovery_error "failed to inspect sensor configuration response")
accepted_status (some status) =
    require (is_ok_status status)
      (discovery_error ("sensor configuration request returned HTTP " ++ decimal status))

-- The checks after the transfer, and the body.
unfoldable pub check_response : Transfer → ResponseBuffer → Result Text
check_response transfer response = do
  require (not response.too_large)
      (discovery_error "sensor configuration response exceeds 65536 bytes")
  require (not response.write_failed)
      (discovery_error "failed to store sensor configuration response")
  transferred transfer.error
  accepted_status transfer.status
  ok response.body

-- The transfer, its checks and the body.
abbrev pub perform : Transfer → Result Text
perform transfer = check_response transfer (written transfer.writes new_response)

module _ {F : Type 0} ⦃d : Double F⦄ where
  -- The parts of the URL, and then the options.
  unfoldable pub configure_request : Curl → DiscoveryOptions F → Result Request
  unfolding set_url_part set_curl_option url_host timeout_milliseconds
  configure_request curl options = do
    request ← set_url_part curl new_request scheme "http"
    request ← set_url_part curl request host (url_host options.sensor_host)
    request ← set_url_part curl request port (decimal options.http_port)
    request ← set_url_part curl request path "/netftapi2.xml"
    request ← set_curl_option curl request curlu
    request ← set_curl_option curl request (protocols "http")
    request ← set_curl_option curl request (followlocation 0)
    request ← set_curl_option curl request (maxredirs 0)
    request ← set_curl_option curl request (nosignal 1)
    request ← set_curl_option curl request (proxy "")
    connect ← timeout_milliseconds options.connect_timeout "connect_timeout"
    request ← set_curl_option curl request (connecttimeout_ms connect)
    total ← timeout_milliseconds options.total_timeout "total_timeout"
    request ← set_curl_option curl request (timeout_ms total)
    request ← set_curl_option curl request writefunction
    set_curl_option curl request writedata

  -- `discover_sensor` up to the parsing of the body.
  unfoldable pub fetch : Curl → DiscoveryOptions F → Result Text
  unfolding validate_options configure_request check_response written
  fetch curl options = do
    validate_options options
    require curl.initialized (discovery_error "failed to initialize HTTP transport")
    require curl.has_handle (discovery_error "failed to create HTTP transport")
    require curl.has_url (discovery_error "failed to create sensor discovery URL")
    request ← configure_request curl options
    perform (curl.transfer request)

  module _ (read : Text → Option F) where
    abbrev pub parsed :
        FloatingEnvironment
        → FloatingEnvironment
        → Result Text
        → Option (Result (SensorConfiguration F))
    parsed e e' (throws x) = some (throws x)
    parsed e e' (ok body) = parse_sensor_configuration read e e' body

    -- `none` where the rounds of the scanner run out.
    unfoldable pub discover_sensor :
        FloatingEnvironment
        → FloatingEnvironment
        → Curl
        → DiscoveryOptions F
        → Option (Result (SensorConfiguration F))
    unfolding fetch
    discover_sensor e e' curl options = parsed e e' (fetch curl options)
