-- ===== src/Event/CloudEvents.antt =====
-- The CloudEvents SDK (github.com/cloudevents/sdk-go/v2/event), which the library imports: its
-- event type with the accessors that the router uses, and what their documentation promises.
use event_driven.Prelude.{
  ◌≡◌, Bool, true, ◌&&◌, ◌||◌, not, leb, Bytes, str, bytes_eq, is_empty, all, any, List, [], ◌∷◌,
  Option, some, lookup, if◌then◌else◌,
}
use event_driven.Error.{Result, ok}

-- The context attributes of CloudEvents 1.0, which are no extensions.
abbrev pub context_attributes : List Bytes
context_attributes =
    str "id"
    ∷ str "source"
    ∷ str "specversion"
    ∷ str "type"
    ∷ str "datacontenttype"
    ∷ str "dataschema"
    ∷ str "subject"
    ∷ str "time"
    ∷ []

-- CloudEvents 1.0, "Attribute naming convention": lower-case ASCII letters and digits.
unfoldable pub is_extension_name : Bytes → Bool
unfolding bytes_eq
is_extension_name k =
    not (is_empty k)
    && all (λ c. (leb b'a' c && leb c b'z') || (leb b'0' c && leb c b'9')) k
    && not (any (bytes_eq k) context_attributes)

pub record CloudEvents : Type 1 where
  pub Event : Type 0
  -- An extension value in the SDK's canonical types, and the strings among them.
  pub Value : Type 0
  pub text : Bytes → Value
  pub as_text : Value → Option Bytes
  pub Time : Type 0
  pub new : Event
  pub id : Event → Bytes
  pub type : Event → Bytes
  pub source : Event → Bytes
  pub content : Event → Bytes
  pub extensions : Event → List (Bytes × Value)
  pub set_id : Bytes → Event → Event
  pub set_type : Bytes → Event → Event
  pub set_source : Bytes → Event → Event
  pub set_time : Time → Event → Event
  pub set_extension : Bytes → Value → Event → Event
  -- SetData of a JSON value; an error when it cannot be encoded.
  pub set_json : Bytes → Event → Result Event
  pub as_text-text : (b : Bytes) → as_text (text b) ≡ some b
  pub set_extension-lookup :
      (k j : Bytes) (v : Value) (e : Event)
      → is_extension_name k ≡ true
      → lookup j (extensions (set_extension k v e))
        ≡ (if bytes_eq k j then some v else lookup j (extensions e))
  pub set_extension-id : (k : Bytes) (v : Value) (e : Event) → id (set_extension k v e) ≡ id e
  pub set_extension-type : (k : Bytes) (v : Value) (e : Event) → type (set_extension k v e) ≡ type e
  pub set_extension-content :
      (k : Bytes) (v : Value) (e : Event) → content (set_extension k v e) ≡ content e
  pub new-extensions : extensions new ≡ []
  pub set_id-extensions : (b : Bytes) (e : Event) → extensions (set_id b e) ≡ extensions e
  pub set_type-extensions : (b : Bytes) (e : Event) → extensions (set_type b e) ≡ extensions e
  pub set_source-extensions : (b : Bytes) (e : Event) → extensions (set_source b e) ≡ extensions e
  pub set_time-extensions : (t : Time) (e : Event) → extensions (set_time t e) ≡ extensions e
  pub set_json-extensions :
      (b : Bytes) (e e' : Event) → set_json b e ≡ ok e' → extensions e' ≡ extensions e
