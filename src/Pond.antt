-- ===== src/Pond.antt =====
-- pond/pond.go: the context and sanitization subsystem. A pond masks the values of sensitive keys, at any
-- depth, and collects the context of a request. `EnvProvider` is a call that yields a map of texts, which
-- enters as its result.
pub mod Masked
pub mod Entries
pub mod Idem
pub mod Keys
pub mod Contexts
use duckbug_go.Base.{
  ℕ, String, str_eq, if◌then◌else◌, Bool, true, false, ◌&&◌, ◌||◌, Option, none, some, List, [],
  ◌∷◌, ◌++◌, map,
}
use duckbug_go.Text.{Unicode, trim_space, to_lower, contains, cut}
use duckbug_go.Value.{
  Value, null, str, strings, list, nil_map, string_map, Items, nil, cons, Fields, end, field,
  is_empty, of_map, non_empty, insert, any_fields, any_items,
}
use duckbug_go.Value

abbrev pub default_mask : String
default_mask = "***"

abbrev pub default_sensitive_fields : List String
default_sensitive_fields =
    "password" ∷ "token" ∷ "api_key" ∷ "authorization" ∷ "cookie" ∷ "session" ∷ "secret" ∷ []

abbrev pub default_sensitive_header_names : List String
default_sensitive_header_names =
    "authorization" ∷ "cookie" ∷ "set-cookie" ∷ "x-api-key" ∷ "x-auth-token" ∷ []

-- A map that may be nil is `none`, or its entries.
pub record RequestContext : Type 0 where
  pub ip : String
  pub url : String
  pub method : String
  pub headers : Option Fields
  pub query_params : Option Fields
  pub body_params : Option Fields
  pub cookies : Option Fields
  pub session : Option Fields
  pub files : Option Fields

pub record CollectedContext : Type 0 where
  pub ip : String
  pub url : String
  pub method : String
  pub headers : Option Fields
  pub query_params : Option Fields
  pub body_params : Option Fields
  pub cookies : Option Fields
  pub session : Option Fields
  pub files : Option Fields
  pub env : Option Fields

pub record Config : Type 0 where
  pub sensitive_fields : List String
  pub sensitive_header_names : List String
  pub mask : String
  pub env_provider : Option (List (String × String))

pub record Pond : Type 0 where
  pub sensitive_fields : List String
  pub sensitive_header_names : List String
  pub mask : String
  pub env_provider : List (String × String)

-- `m[key] = value` on a map of texts.
unfoldable pub set_text : String → String → List (String × String) → List (String × String)
set_text k v [] = (k, v) ∷ []
set_text k v ((j, w) ∷ m) = if str_eq j k then (k, v) ∷ m else (j, w) ∷ set_text k v m

abbrev pub add_variable : Option (String × String) → List (String × String) → List (String × String)
add_variable none values = values
add_variable (some (key, value)) values = set_text key value values

-- The loop over `os.Environ()`, which is the first argument.
unfoldable pub default_env_provider : List String → List (String × String) → List (String × String)
default_env_provider [] values = values
default_env_provider (item ∷ environ) values =
    default_env_provider environ (add_variable (cut b'=' item) values)

abbrev string_map_to_any_map : List (String × String) → Option Fields
string_map_to_any_map values = non_empty (any_fields str values)

abbrev or_default : String → String → String
or_default fallback s = if str_eq s "" then fallback else s

module _ ⦃u : Unicode⦄ where
  abbrev pub normalized : String → String
  normalized s = to_lower (trim_space s)

  -- The loop that adds a configured name unless it is blank.
  pub add_names : List String → List String → List String
  add_names [] names = names
  add_names (item ∷ items) names =
      add_names items (if str_eq (normalized item) "" then names else normalized item ∷ names)

  unfoldable pub new : List String → Config → Pond
  unfolding add_names
  new environ config = record {
    sensitive_fields = add_names config.sensitive_fields (map normalized default_sensitive_fields);
    sensitive_header_names =
        add_names config.sensitive_header_names (map normalized default_sensitive_header_names);
    mask = or_default default_mask (trim_space config.mask);
    env_provider = elim config.env_provider [
      | none ↦ default_env_provider environ []
      | some env ↦ env
    ];
  }

  unfoldable pub ripple : List String → List String → Pond
  ripple environ fields = new environ (record {
    sensitive_fields = fields;
    sensitive_header_names = [];
    mask = "";
    env_provider = none;
  })

  unfoldable pub should_mask_key : Pond → String → Bool → Bool
  should_mask_key p key header_mode =
      let name = normalized key in
      if str_eq name ""
      then false
      else (header_mode && contains name p.sensitive_header_names
          || contains name p.sensitive_fields)

  -- The body of the loop of `sanitizeMap`, with the sanitized value at hand.
  unfoldable pub put_sanitized : Pond → Bool → String → Value → Fields → Fields
  put_sanitized p header_mode key value out =
      let k = trim_space key in
      if str_eq k ""
      then out
      else if should_mask_key p k header_mode
      then insert k (str p.mask) out
      else insert k value out

  -- The same loop over a map of texts, whose values are kept.
  unfoldable pub sanitize_texts : Pond → Bool → List (String × String) → Fields → Fields
  sanitize_texts p header_mode [] out = out
  sanitize_texts p header_mode ((key, s) ∷ m) out =
      sanitize_texts p header_mode m (put_sanitized p header_mode key (str s) out)

  unfoldable mutual
    pub sanitize_value : Pond → Bool → Value → Value
    sanitize_value p header_mode null = null
    sanitize_value p header_mode (Value.map fs) =
        of_map (non_empty (sanitize_fields p header_mode fs end))
    sanitize_value p header_mode (string_map m) =
        of_map (non_empty (sanitize_texts p header_mode m end))
    sanitize_value p header_mode (list xs) = list (sanitize_items p xs)
    sanitize_value p header_mode (strings xs) = list (any_items str xs)
    sanitize_value p header_mode v = v

    pub sanitize_items : Pond → Items → Items
    sanitize_items p nil = nil
    sanitize_items p (cons v xs) = cons (sanitize_value p false v) (sanitize_items p xs)

    pub sanitize_fields : Pond → Bool → Fields → Fields → Fields
    sanitize_fields p header_mode end out = out
    sanitize_fields p header_mode (field key v fs) out =
        sanitize_fields p header_mode fs
          (put_sanitized p header_mode key (sanitize_value p false v) out)

  unfoldable pub sanitize_map : Pond → Bool → Option Fields → Option Fields
  sanitize_map p header_mode none = none
  sanitize_map p header_mode (some values) = non_empty (sanitize_fields p header_mode values end)

  -- `Collect`, with the request's context, if the context has one.
  unfoldable pub collect : Pond → Option RequestContext → CollectedContext
  collect p none = record {
    ip = "";
    url = "";
    method = "";
    headers = none;
    query_params = none;
    body_params = none;
    cookies = none;
    session = none;
    files = none;
    env = sanitize_map p false (string_map_to_any_map p.env_provider);
  }
  collect p (some req) = record {
    ip = trim_space req.ip;
    url = trim_space req.url;
    method = trim_space req.method;
    headers = sanitize_map p true req.headers;
    query_params = sanitize_map p false req.query_params;
    body_params = sanitize_map p false req.body_params;
    cookies = sanitize_map p false req.cookies;
    session = sanitize_map p false req.session;
    files = sanitize_map p false req.files;
    env = sanitize_map p false (string_map_to_any_map p.env_provider);
  }

  -- The exported methods, on a receiver that may be nil.
  abbrev receiver : List String → Option Pond → Pond
  receiver environ none = ripple environ []
  receiver environ (some p) = p

  unfoldable pub sanitize_headers_method : List String → Option Pond → Option Fields → Option Fields
  sanitize_headers_method environ p headers = sanitize_map (receiver environ p) true headers

  unfoldable pub sanitize_map_method : List String → Option Pond → Option Fields → Option Fields
  sanitize_map_method environ p values = sanitize_map (receiver environ p) false values

  unfoldable pub sanitize_value_method : List String → Option Pond → Value → Value
  sanitize_value_method environ p value = sanitize_value (receiver environ p) false value

  unfoldable pub collect_method :
      List String → Option Pond → Option RequestContext → CollectedContext
  collect_method environ p req = collect (receiver environ p) req
