-- ===== src/Discovery/Page.antt =====
-- What `discover_sensor` of core/src/discovery.cpp asks libcurl for.
use Prim.Native.String.{String}
use py_net_ft.Common.{ℕ, ◌≡◌, not, [], ◌∷◌, arith}
use py_net_ft.Common.Decimal.{decimal}
use py_net_ft.Exception.{ok, require, then_ok, bind_ok, discovery_error}
use py_net_ft.Double.{Double}
use py_net_ft.Discovery.Options.{
  DiscoveryOptions, timeout_milliseconds, validate_options, is_ascii_blank, is_port,
}
use py_net_ft.Discovery.{
  Curl, Request, configure_request, set_url_part, set_curl_option, url_host, scheme, host, port,
  path, curlu, protocols, followlocation, maxredirs, nosignal, proxy, connecttimeout_ms, timeout_ms,
  writefunction, writedata,
}

-- A request for the page of a sensor: plain HTTP, directly, without signals and following no redirection.
abbrev pub page_request : String → String → ℕ → ℕ → Request
page_request sensor port_text connect total = record {
  url = (scheme, "http") ∷ (host, sensor) ∷ (port, port_text) ∷ (path, "/netftapi2.xml") ∷ [];
  options =
      curlu
      ∷ protocols "http"
      ∷ followlocation 0
      ∷ maxredirs 0
      ∷ nosignal 1
      ∷ proxy ""
      ∷ connecttimeout_ms connect
      ∷ timeout_ms total
      ∷ writefunction
      ∷ writedata
      ∷ [];
}

module _ {F : Type 0} ⦃d : Double F⦄ where
  -- Its two timeouts have been converted.
  pub record IsPageRequest (o : DiscoveryOptions F) (r : Request) : Type 0 where
    pub connect : ℕ
    pub total : ℕ
    pub connect_eq : timeout_milliseconds o.connect_timeout "connect_timeout" ≡ ok connect
    pub total_eq : timeout_milliseconds o.total_timeout "total_timeout" ≡ ok total
    pub page_eq : r ≡ page_request (url_host o.sensor_host) (decimal o.http_port) connect total

  configure_request-page :
      (curl : Curl) (o : DiscoveryOptions F) (connect total : ℕ) (r : Request)
      → configure_request curl o ≡ ok r
      → timeout_milliseconds o.connect_timeout "connect_timeout" ≡ ok connect
      → timeout_milliseconds o.total_timeout "total_timeout" ≡ ok total
      → r ≡ page_request (url_host o.sensor_host) (decimal o.http_port) connect total
  unfolding configure_request set_url_part set_curl_option
  configure_request-page curl o connect total r e c t = ground (arith, c, t)

  validate_options-timeouts :
      (o : DiscoveryOptions F)
      → validate_options o ≡ ok tt
      → (connect : ℕ) × (total : ℕ) × (timeout_milliseconds o.connect_timeout "connect_timeout"
          ≡ ok connect)
        × (timeout_milliseconds o.total_timeout "total_timeout" ≡ ok total)
  unfolding validate_options
  validate_options-timeouts o e =
      let (_, e1) =
        then_ok
          (require (not (is_ascii_blank o.sensor_host))
            (discovery_error "sensor_host must not be blank"))
          _ tt e in
      let (_, e2) =
        then_ok
          (require (is_port o.http_port)
            (discovery_error "http_port must be in the range 1..65535"))
          _ tt e1 in
      let (connect, c, e3) =
        bind_ok (timeout_milliseconds o.connect_timeout "connect_timeout") _ tt e2 in
      let (total, t, _) = bind_ok (timeout_milliseconds o.total_timeout "total_timeout") _ tt e3 in
      (connect, total, c, t)

  pub configure_request-IsPageRequest :
      (curl : Curl) (o : DiscoveryOptions F) (r : Request)
      → validate_options o ≡ ok tt
      → configure_request curl o ≡ ok r
      → IsPageRequest o r
  configure_request-IsPageRequest curl o r v e =
      let (connect, total, c, t) = validate_options-timeouts o v in
      record {
        connect = connect;
        total = total;
        connect_eq = c;
        total_eq = t;
        page_eq = configure_request-page curl o connect total r e c t;
      }
