-- ===== src/Redaction.antt =====
-- What is left out of audit entries and logs: backend/internal/util/redaction.go. encoding/json and
-- strings are the fields of Text; the order in which Go ranges over a map is that of the fields.
use cert_rollover_impact_ass.Prelude.{
  ◌≡◌, Bool, true, false, ◌||◌, Option, none, some, List, [], ◌∷◌, String, str_eq, if◌then◌else◌,
}
pub mod Clean

-- a decoded JSON value
mutual
  pub data Json : Type 0 where
    null : Json
    boolean : Bool → Json
    number : String → Json
    text : String → Json
    array : Items → Json
    object : Fields → Json

  pub data Items : Type 0 where
    no_items : Items
    item : Json → Items → Items

  pub data Fields : Type 0 where
    no_fields : Fields
    field : String → Json → Fields → Fields

-- sensitiveFields
abbrev pub sensitive_fields : List String
sensitive_fields =
    "password" ∷ "password_hash" ∷ "jwt" ∷ "token" ∷ "authorization" ∷ "private_key"
    ∷ "certificate_pem" ∷ "certificates_pem" ∷ "pem_redacted" ∷ "public_chain_pem"
    ∷ "input_snapshot" ∷ []

abbrev pub is_listed : String → List String → Bool
is_listed key [] = false
is_listed key (name ∷ names) = str_eq key name || is_listed key names

-- the libraries that the redaction calls
pub record Text : Type 0 where
  pub to_lower : String → String
  pub marshal : Json → Option String
  pub unmarshal : String → Option Json

abbrev pub redacted : Json
redacted = text "[REDACTED]"

module _ (lib : Text) where
  unfoldable pub is_sensitive : String → Bool
  is_sensitive key = is_listed (lib.to_lower key) sensitive_fields

  -- the first test of RedactValue
  unfoldable pub hide : String → Json → Json
  unfolding is_sensitive
  hide key value = if is_sensitive key then redacted else value

  -- RedactValue
  unfoldable mutual
    pub redact_value : String → Json → Json
    redact_value key null = hide key null
    redact_value key (boolean b) = hide key (boolean b)
    redact_value key (number n) = hide key (number n)
    redact_value key (text s) = hide key (text s)
    redact_value key (array items) = let result = redact_items key items in hide key (array result)
    redact_value key (object fields) = let result = redact_fields fields in hide key (object result)

    pub redact_items : String → Items → Items
    redact_items key no_items = no_items
    redact_items key (item value items) = item (redact_value key value) (redact_items key items)

    pub redact_fields : Fields → Fields
    redact_fields no_fields = no_fields
    redact_fields (field key value fields) =
        field key (redact_value key value) (redact_fields fields)

  abbrev pub or_empty : Option String → String
  or_empty none = "{}"
  or_empty (some s) = s

  abbrev pub marshal_redacted : Option Json → String
  marshal_redacted none = "{}"
  marshal_redacted (some value) = or_empty (lib.marshal (redact_value "" value))

  -- RedactedJSON, with what json.Marshal gives
  abbrev pub redacted_json : Option String → String
  redacted_json none = "{}"
  redacted_json (some raw) = marshal_redacted (lib.unmarshal raw)
