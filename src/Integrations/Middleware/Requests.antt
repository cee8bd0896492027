-- ===== src/Integrations/Middleware/Requests.antt =====
-- integrations/nethttp/middleware.go and internal/sdkrequest/sdkrequest.go: the request, the requests that are
-- left alone, and the request's context. The server gives every request a URL. A header is read by its
-- canonical key. What `net`, `net/url` and `encoding/json`
-- return is that of an instance.
use duckbug_go.Base.{
  ℕ, String, str_eq, Bool, true, false, not, ◌&&◌, ◌||◌, Option, none, some, List, [], ◌∷◌,
  if◌then◌else◌, is_nil,
}
use duckbug_go.Base.Int.{ℤ, pos, ltb_ℤ}
use duckbug_go.Text.{Unicode, trim_space, to_lower, cut, is_blank}
use duckbug_go.Value.{str, Fields, end, insert}
use duckbug_go.Pond.{RequestContext}
use duckbug_go.Core.Util.{Json, json_object, decoded_fields}
use duckbug_go.Integrations.Rules.{
  Values, Network, get_header, any_listed, any_prefix, skips, equal_fold, has_infix, values_from,
  text_or_empty,
}

-- What reading a body yields: its bytes, and whether it ends with an error.
pub record Body : Type 0 where
  pub bytes : List ℕ
  pub fails : Bool

pub record Url : Type 0 where
  pub scheme : String
  pub host : String
  pub path : String
  pub query : Values

-- A body that is nil is `none`.
pub record Request : Type 0 where
  pub method : String
  pub url : Url
  pub header : Values
  pub cookies : List (String × String)
  pub host : String
  pub remote_addr : String
  pub secure : Bool
  pub content_length : ℤ
  pub body : Option Body

pub record Config : Type 0 where
  pub capture_panics : Bool
  pub capture_handled5xx : Bool
  pub repanic : Bool
  pub read_body : Bool
  pub max_body_bytes : ℤ
  pub handled5xx_max_body_bytes : ℤ
  pub capture_transactions : Bool
  pub transaction_sample_rate : ℕ
  pub ignored_paths : List String
  pub ignored_path_prefixes : List String
  pub skip_request : Option (Request → Bool)

-- `URL.String`, `json.Unmarshal` into a value of any type, and `url.ParseQuery`.
pub record Encodings : Type 0 where
  pub url_text : Url → String
  pub unmarshal : List ℕ → Option Json
  pub parse_query : List ℕ → Option Values

-- `sdkrequest.IsInternalRequest`.
unfoldable pub is_internal_request : Option Request → Bool
unfolding get_header
is_internal_request none = false
is_internal_request (some r) = str_eq (trim_space (get_header "X-Duckbug-Internal" r.header)) "1"

unfoldable pub should_ignore_request : Option Request → Config → Bool
unfolding is_internal_request any_listed any_prefix
should_ignore_request none config = true
should_ignore_request (some r) config =
    is_internal_request (some r)
    || skips config.skip_request r
    || any_listed (trim_space r.url.path) config.ignored_paths
    || any_prefix (trim_space r.url.path) config.ignored_path_prefixes

unfoldable pub is_websocket_request : Option Request → Bool
unfolding get_header equal_fold
is_websocket_request none = false
is_websocket_request (some r) = equal_fold (trim_space (get_header "Upgrade" r.header)) "websocket"

unfoldable pub values_to_map : Values → Option Fields
unfolding values_from
values_to_map values = if is_nil values then none else some (values_from values end)

unfoldable pub headers_to_map : Values → Option Fields
unfolding values_from
headers_to_map headers = if is_nil headers then none else some (values_from headers end)

unfoldable pub cookies_from : List (String × String) → Fields → Fields
cookies_from [] out = out
cookies_from ((name, value) ∷ cookies) out = cookies_from cookies (insert name (str value) out)

unfoldable pub cookies_to_map : List (String × String) → Option Fields
unfolding cookies_from
cookies_to_map cookies = if is_nil cookies then none else some (cookies_from cookies end)

-- The body that was read, for the handler; a body whose reading fails is left at its error.
abbrev pub restored : Body → Body
restored b = record { bytes = if b.fails then [] else b.bytes; fails = b.fails }

-- A decoded text that is an object.
abbrev pub object_of : Option Json → Option Fields
object_of (some (json_object fs)) = some (decoded_fields fs end)
object_of j = none

abbrev pub values_of : Option Values → Option Fields
values_of none = none
values_of (some values) = values_to_map values

module _ ⦃u : Unicode⦄ ⦃e : Encodings⦄ where
  -- The switch over the content type.
  unfoldable pub parse_body : String → List ℕ → Option Fields
  unfolding values_to_map
  parse_body content_type bytes =
      if has_infix content_type "application/json"
      then object_of (e.unmarshal bytes)
      else if has_infix content_type "application/x-www-form-urlencoded"
      then values_of (e.parse_query bytes)
      else none

  -- Whether the body is read.
  unfoldable pub reads_body : Request → Config → Bool
  reads_body r config =
      config.read_body
      && ltb_ℤ (pos 0) config.max_body_bytes
      && ltb_ℤ (pos 0) r.content_length
      && not (ltb_ℤ config.max_body_bytes r.content_length)

  abbrev pub parsed_body : String → Body → Option Fields
  parsed_body content_type b = if b.fails then none else parse_body content_type b.bytes

  -- `bodyParams`, which reads the request's body and puts back what it read: the map, and the request.
  unfoldable pub body_params : Request → Config → Option Fields × Request
  unfolding parse_body reads_body get_header
  body_params r config = elim r.body [
    | none ↦ (none, r)
    | some b ↦
        if reads_body r config
        then (
          parsed_body (to_lower (trim_space (get_header "Content-Type" r.header))) b,
          record r { body = some (restored b) },
        )
        else (none, r)
  ]

module _ ⦃n : Network⦄ where
  -- A header with a list of addresses names the client first.
  abbrev first_listed : String → String
  first_listed candidate = elim (cut b',' candidate) [
    | none ↦ candidate
    | some (before, after) ↦ trim_space before
  ]

  -- The loop over the headers, and what follows it.
  unfoldable pub first_ip : List String → Option String → Option String
  first_ip [] fallback = fallback
  first_ip (candidate ∷ candidates) fallback =
      let rest = first_ip candidates fallback in
      if is_blank candidate then rest else elim (n.parse_ip (first_listed (trim_space candidate))) [
        | none ↦ rest
        | some ip ↦ some ip
      ]

  abbrev host_ip : Option String → Option String
  host_ip none = none
  host_ip (some host) = n.parse_ip host

  -- The address of the peer, without its port or as it is.
  unfoldable pub remote_ip : String → Option String
  remote_ip addr = elim (host_ip (n.split_host (trim_space addr))) [
    | none ↦ n.parse_ip (trim_space addr)
    | some ip ↦ some ip
  ]

  unfoldable pub client_ip : Request → String
  unfolding first_ip remote_ip get_header
  client_ip r = text_or_empty (
      first_ip
        (get_header "Cf-Connecting-Ip" r.header
          ∷ get_header "X-Forwarded-For" r.header
          ∷ get_header "X-Real-Ip" r.header
          ∷ get_header "Client-Ip" r.header
          ∷ [])
        (remote_ip r.remote_addr))

module _ ⦃e : Encodings⦄ where
  abbrev request_scheme : Request → String
  unfolding get_header
  request_scheme r =
      let forwarded = trim_space (get_header "X-Forwarded-Proto" r.header) in
      if str_eq forwarded "" then (if r.secure then "https" else "http") else forwarded

  unfoldable pub request_url : Request → String
  unfolding get_header
  request_url r =
      if str_eq r.host ""
      then e.url_text r.url
      else e.url_text (record r.url { scheme = request_scheme r; host = r.host })

module _ ⦃u : Unicode⦄ ⦃n : Network⦄ ⦃e : Encodings⦄ where
  -- `buildRequestContext`, with the request that it leaves.
  unfoldable pub build_request_context : Request → Config → RequestContext × Request
  unfolding client_ip request_url headers_to_map values_to_map body_params cookies_to_map
  build_request_context r config =
      let (body, r') = body_params r config in
      (
        record {
          ip = client_ip r;
          url = request_url r;
          method = trim_space r.method;
          headers = headers_to_map r.header;
          query_params = values_to_map r.url.query;
          body_params = body;
          cookies = cookies_to_map r.cookies;
          session = none;
          files = none;
        },
        r',
      )
