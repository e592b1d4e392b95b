-- ===== src/Web/Response/Codes.antt =====
-- `responseCodesString` of webserver/HTTPResponse.cpp.
use dumais_lib.Prelude.{ℕ, [], ◌∷◌, List, Text, codes, get_or}

unfoldable pub response_codes_string : List Text
response_codes_string =
    codes "100 Continue"
    ∷ codes "101 SwitchingProtocols"
    ∷ codes "102 Processing"
    ∷ codes "200 OK"
    ∷ codes "201 Created"
    ∷ codes "202 Accepted"
    ∷ codes "203 NonAuthoritativeInformation"
    ∷ codes "204 NoContent"
    ∷ codes "205 ResetContent"
    ∷ codes "206 PartialContent"
    ∷ codes "207 Multi-Status"
    ∷ codes "208 AlreadyReported"
    ∷ codes "226 IMUsed"
    ∷ codes "300 MultipleChoices"
    ∷ codes "301 MovedPermanently"
    ∷ codes "302 Found"
    ∷ codes "303 SeeOther"
    ∷ codes "304 NotModified"
    ∷ codes "305 UseProxy"
    ∷ codes "306 Reserved"
    ∷ codes "307 TemporaryRedirect"
    ∷ codes "308 PermanentRedirect"
    ∷ codes "400 BadRequest"
    ∷ codes "401 Unauthorized"
    ∷ codes "402 PaymentRequired"
    ∷ codes "403 Forbidden"
    ∷ codes "404 NotFound"
    ∷ codes "405 MethodNotAllowed"
    ∷ codes "406 NotAcceptable"
    ∷ codes "407 ProxyAuthenticationRequired"
    ∷ codes "408 RequestTimeout"
    ∷ codes "409 Conflict"
    ∷ codes "410 Gone"
    ∷ codes "411 LengthRequired"
    ∷ codes "412 PreconditionFailed"
    ∷ codes "413 RequestEntityTooLarge"
    ∷ codes "414 Request-URITooLong"
    ∷ codes "415 UnsupportedMediaType"
    ∷ codes "416 RequestedRangeNotSatisfiable"
    ∷ codes "417 ExpectationFailed"
    ∷ codes "422 UnprocessableEntity"
    ∷ codes "423 Locked"
    ∷ codes "424 FailedDependency"
    ∷ codes "426 UpgradeRequired"
    ∷ codes "428 PreconditionRequired"
    ∷ codes "429 TooManyRequests"
    ∷ codes "431 RequestHeaderFieldsTooLarge"
    ∷ codes "500 InternalServerError"
    ∷ codes "501 NotImplemented"
    ∷ codes "502 BadGateway"
    ∷ codes "503 ServiceUnavailable"
    ∷ codes "504 GatewayTimeout"
    ∷ codes "505 HTTPVersionNotSupported"
    ∷ codes "506 VariantAlsoNegotiates(Experimental)"
    ∷ codes "507 InsufficientStorage"
    ∷ codes "508 LoopDetected"
    ∷ codes "510 NotExtended"
    ∷ codes "511 NetworkAuthenticationRequired"
    ∷ []

-- `getCode`.
unfoldable pub get_code : ℕ → Text
unfolding response_codes_string
get_code code = get_or response_codes_string code []
