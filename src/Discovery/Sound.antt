-- ===== src/Discovery/Sound.antt =====
-- What a configuration that `discover_sensor` of core/src/discovery.cpp returns rests on.
use Prim.Native.String.{String}
use py_net_ft.Common.{
  ◌≤◌, ◌≡◌, refl, sym, subst, ◌∙◌, true, not, Option, none, some, All, arith, length,
}
use py_net_ft.Common.Int.{ℤ, pos, negsuc}
use py_net_ft.Exception.{
  Result, ok, throws, require, then_ok, bind_ok, require_ok, ok_inj, discovery_error,
}
use py_net_ft.Double.{Double}
use py_net_ft.Types.{SensorConfiguration}
use py_net_ft.XmlConfig.Characters.{Text}
use py_net_ft.XmlConfig.Parser.{FloatingEnvironment, parse_sensor_configuration}
use py_net_ft.XmlConfig.Sound.{IsFromSensor, parse_sensor_configuration-IsFromSensor}
use py_net_ft.Discovery.Response.{new_response, written, maximum_response_bytes}
use py_net_ft.Discovery.Options.{DiscoveryOptions, validate_options}
use py_net_ft.Discovery.Bounds.{IsWrite, all_bytes, is_whole, written-whole}
use py_net_ft.Discovery.Page.{IsPageRequest, configure_request-IsPageRequest}
use py_net_ft.Discovery.{
  Curl, Transfer, Request, perform, configure_request, check_response, fetch, discover_sensor,
  parsed, transferred, accepted_status, is_ok_status,
}

-- The response was taken whole, with status 200.
record IsAccepted (transfer : Transfer) (body : Text) : Type 0 where
  whole : is_whole (written transfer.writes new_response) ≡ true
  no_error : transfer.error ≡ none
  status_eq : transfer.status ≡ some (pos 200)
  body_eq : (written transfer.writes new_response).body ≡ body

transferred_ok : (o : Option String) → transferred o ≡ ok tt → o ≡ none
transferred_ok none e = refl
transferred_ok (some error) e = ground arith

accepted_status_ok : (o : Option ℤ) → accepted_status o ≡ ok tt → o ≡ some (pos 200)
accepted_status_ok none e = ground arith
accepted_status_ok (some (pos n)) e = let p = require_ok (is_ok_status (pos n)) _ e in ground arith
accepted_status_ok (some (negsuc n)) e = ground arith

perform-IsAccepted :
    (transfer : Transfer) (body : Text) → perform transfer ≡ ok body → IsAccepted transfer body
unfolding check_response
perform-IsAccepted transfer body e =
    let r = written transfer.writes new_response in
    let (p, e1) =
      then_ok
        (require (not r.too_large)
          (discovery_error "sensor configuration response exceeds 65536 bytes"))
        _ body e in
    let (q, e2) =
      then_ok
        (require (not r.write_failed)
          (discovery_error "failed to store sensor configuration response"))
        _ body e1 in
    let (t, e3) = then_ok (transferred transfer.error) _ body e2 in
    let (s, e4) = then_ok (accepted_status transfer.status) _ body e3 in
    let small = require_ok (not r.too_large) _ p in
    let kept = require_ok (not r.write_failed) _ q in
    record {
      whole = ground arith;
      no_error = transferred_ok transfer.error t;
      status_eq = accepted_status_ok transfer.status s;
      body_eq = ok_inj r.body body e4;
    }

module _ {F : Type 0} ⦃d : Double F⦄ where
  fetch-IsAccepted :
      (curl : Curl) (o : DiscoveryOptions F) (body : Text)
      → fetch curl o ≡ ok body
      → (validate_options o ≡ ok tt)
        × (r : Request) × IsPageRequest o r
        × IsAccepted (curl.transfer r) body
  unfolding fetch
  fetch-IsAccepted curl o body e =
      let (p, e1) = then_ok (validate_options o) _ body e in
      let (_, e2) =
        then_ok (require curl.initialized (discovery_error "failed to initialize HTTP transport")) _
          body e1 in
      let (_, e3) =
        then_ok (require curl.has_handle (discovery_error "failed to create HTTP transport")) _ body
          e2 in
      let (_, e4) =
        then_ok (require curl.has_url (discovery_error "failed to create sensor discovery URL")) _
          body e3 in
      let (r, q, e5) = bind_ok (configure_request curl o) _ body e4 in
      (
        p,
        r,
        configure_request-IsPageRequest curl o r p q,
        perform-IsAccepted (curl.transfer r) body e5,
      )

  module _ (read : Text → Option F) where
    -- What a configuration rests on: the answer to the request.
    pub record IsAnswer (e e' : FloatingEnvironment) (o : DiscoveryOptions F)
        (transfer : Request → Transfer) (c : SensorConfiguration F) : Type 0 where
      pub request : Request
      pub page : IsPageRequest o request
      pub status_eq : (transfer request).status ≡ some (pos 200)
      pub no_error : (transfer request).error ≡ none
      pub short : length (all_bytes (transfer request).writes) ≤ maximum_response_bytes
      pub parsed_eq :
          parse_sensor_configuration read e e' (all_bytes (transfer request).writes) ≡ some (ok c)

    -- A configuration is only discovered with valid options, by a request for `/netftapi2.xml` on their host
    -- and port, over plain HTTP, with no redirection and no proxy and with their two timeouts. The response
    -- to it has status 200, came without an error and has 65536 bytes at most: the configuration is what all
    -- those bytes are parsed to, and its calibration is safe.
    pub discover_sensor-IsFromSensor :
        (e e' : FloatingEnvironment) (curl : Curl) (o : DiscoveryOptions F)
        (c : SensorConfiguration F)
        → ((r : Request) → All IsWrite (curl.transfer r).writes)
        → discover_sensor read e e' curl o ≡ some (ok c)
        → (validate_options o ≡ ok tt) × IsAnswer e e' o curl.transfer c × IsFromSensor c
    unfolding discover_sensor
    discover_sensor-IsFromSensor e e' curl o c v = go (fetch curl o) refl
      where
        go :
            (r : Result Text)
            → fetch curl o ≡ r
            → parsed read e e' r ≡ some (ok c)
            → (validate_options o ≡ ok tt) × IsAnswer e e' o curl.transfer c × IsFromSensor c
        go (throws x) q p = ground arith
        go (ok body) q p =
            let (valid, r, asked, a) = fetch-IsAccepted curl o body q in
            let (short, all) = written-whole (curl.transfer r).writes (v r) a.whole in
            let p' =
              subst (λ (b : Text). parse_sensor_configuration read e e' b ≡ some (ok c))
                (sym a.body_eq ∙ all) p in
            (
              valid,
              record {
                request = r;
                page = asked;
                status_eq = a.status_eq;
                no_error = a.no_error;
                short = short;
                parsed_eq = p';
              },
              parse_sensor_configuration-IsFromSensor read e e' (all_bytes (curl.transfer r).writes)
                  c p',
            )
