-- ===== src/Broker/Request/Data.antt =====
-- The data of a broker request, and the dictionaries made of it.
use trustplane_auth_sdk_pyth.Base.{
  ℕ, Bool, List, [], ◌∷◌, ◌++◌, map, Text, ◌==◌, if◌then◌else◌, Result, ok, ◌>>◌, raise_if,
}
use trustplane_auth_sdk_pyth.Base.Order.{sort}
use trustplane_auth_sdk_pyth.Text.{codes, text_eq, is_empty, mem_text, strip}
use trustplane_auth_sdk_pyth.Text.Compare.{text_le}
use trustplane_auth_sdk_pyth.Json.{bool, str, list, dict, Items, nil, cons, Fields, end, field}
use trustplane_auth_sdk_pyth.Transcript.Data.{
  HeaderItem, header, mapping, pair, RequestInput, SelectedHeader, software_key_binding,
  query_normalization_rfc3986,
}
use trustplane_auth_sdk_pyth.Transcript.Headers.{get_or}
use trustplane_auth_sdk_pyth.Transcript.Build.{or_else}

abbrev pub broker_protocol : Text
broker_protocol = codes "local-json-ipc"

abbrev pub broker_operation_issue : Text
broker_operation_issue = codes "issue_request_bound_passport"

pub record BrokerRequestInput : Type 0 where
  pub request : RequestInput
  pub request_id : Text
  pub context : List (Text × Text)
  pub selected_context_fields : List Text
  pub requested_key_binding : Text
  pub acceptable_key_bindings : List Text
  pub allow_software_fallback : Bool

pub record PreparedBrokerRequest : Type 0 where
  pub request : Fields
  pub raw_headers : List (Text × Text)

-- `d[key] = value` of a dictionary of texts: a key that is there keeps its place.
unfoldable pub set_entry : Text → Text → List (Text × Text) → List (Text × Text)
unfolding text_eq
set_entry key value [] = (key, value) ∷ []
set_entry key value ((k, v) ∷ entries) =
    let later = set_entry key value entries in
    if text_eq k key then (k, value) ∷ entries else (k, v) ∷ later

-- `_header` of broker.py.
unfoldable pub broker_header : HeaderItem → Text × Text
unfolding get_or
broker_header (header name value) = (name, value)
broker_header (mapping entries) =
    (strip (get_or (codes "name") [] entries), strip (get_or (codes "value") [] entries))
broker_header (pair name value) = (name, value)

-- The texts of a list, each once.
unfoldable pub each_once : List Text → List Text
unfolding mem_text
each_once [] = []
each_once (value ∷ values) =
    let rest = each_once values in if mem_text value rest then rest else value ∷ rest

-- A list, or what stands for an empty one.
abbrev pub list_or : List Text → List Text → List Text
list_or [] default = default
list_or (value ∷ values) default = value ∷ values

abbrev pub is_question : ℕ → Bool
is_question c = c == b'?'

abbrev pub text_items : List Text → Items
text_items [] = nil
text_items (value ∷ values) = cons (str value) (text_items values)

abbrev pub selected_items : List SelectedHeader → Items
selected_items [] = nil
selected_items (item ∷ items) =
    cons
      (dict (
        field (codes "name") (str item.name)
          (field (codes "value_sha256") (str item.value_sha256) end)))
      (selected_items items)

abbrev pub text_fields : List (Text × Text) → Fields
text_fields [] = end
text_fields ((name, value) ∷ entries) = field name (str value) (text_fields entries)

abbrev pub names_of : List (Text × Text) → List Text
names_of entries = map (λ entry. entry.0) entries

-- The fields of `http_request` that are texts of their own.
pub record BrokerHttp : Type 0 where
  pub method : Text
  pub scheme : Text
  pub authority : Text
  pub path : Text
  pub content_encoding : Text
  pub raw : Text
  pub normalized : Text
  pub query_sha256 : Text
  pub allow_list : List Text
  pub selected : List SelectedHeader
  pub audience : Text
  pub route_id : Text
  pub body_sha256 : Text
  pub nonce : Text

-- The dictionary `http_request`.
unfoldable pub http_fields : BrokerHttp → Fields
http_fields http = field (codes "method") (str http.method) (
    field (codes "scheme") (str http.scheme) (
      field (codes "authority") (str http.authority) (
        field (codes "path") (str http.path) (
          field (codes "content_encoding") (str http.content_encoding) (
            field (codes "query")
              (dict (
                field (codes "raw") (str http.raw) (
                  field (codes "normalization") (str query_normalization_rfc3986) (
                    field (codes "normalized") (str http.normalized)
                      (field (codes "sha256") (str http.query_sha256) end)))))
              (field (codes "headers")
                (dict (
                  field (codes "allow_list") (list (text_items http.allow_list))
                    (field (codes "selected") (list (selected_items http.selected)) end)))
                (field (codes "audience") (str http.audience) (
                  field (codes "route_id") (str http.route_id) (
                    field (codes "body_sha256") (str http.body_sha256)
                      (field (codes "nonce") (str http.nonce) end))))))))))

-- The values that must not be empty, in the order of the checks.
abbrev pub http_required : BrokerHttp → List (Text × Text)
http_required http =
    (codes "method", http.method)
    ∷ (codes "scheme", http.scheme)
    ∷ (codes "authority", http.authority)
    ∷ (codes "path", http.path)
    ∷ (codes "audience", http.audience)
    ∷ (codes "route_id", http.route_id)
    ∷ (codes "nonce", http.nonce)
    ∷ []

unfoldable pub check_http : List (Text × Text) → Result Text (Unit {0})
check_http [] = ok tt
check_http ((name, value) ∷ rest) = do
  raise_if (is_empty value) (codes "missing_" ++ name)
  check_http rest

-- The dictionary `request`.
unfoldable pub request_fields : BrokerRequestInput → Text → BrokerHttp → Fields
unfolding http_fields
request_fields input request_id http =
    let requested = or_else (strip input.requested_key_binding) software_key_binding in
    field (codes "request_id") (str request_id) (
      field (codes "protocol") (str broker_protocol) (
        field (codes "operation") (str broker_operation_issue) (
          field (codes "http") (dict (http_fields http)) (
            field (codes "ctx")
              (dict (
                field (codes "selected_fields")
                  (list (
                    text_items (
                      list_or input.selected_context_fields
                        (sort text_le (names_of input.context)))))
                  (field (codes "values") (dict (text_fields input.context)) end)))
              (field (codes "key_binding")
                (dict (
                  field (codes "intent") (str (codes "route_policy_minimum")) (
                    field (codes "requested_key_binding") (str requested) (
                      field (codes "acceptable_key_bindings")
                        (list (text_items (list_or input.acceptable_key_bindings (requested ∷ []))))
                        (field (codes "allow_software_fallback")
                          (bool input.allow_software_fallback) end)))))
                end)))))
