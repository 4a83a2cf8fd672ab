-- ===== src/Proof/Schema.antt =====
-- `extract_schema`, `_schema_from_value` and `_public_schema` of marketplace/services/zkp_service.py. A JSON
-- value is what `json.loads` returns: the keys of an object are distinct, and a number is its literal.
use agentchains.Base.{
  ℕ, suc, ◌+◌, Bool, Text, Option, none, some, List, [], ◌∷◌, length, ◌==◌, if◌then◌else◌,
}

mutual
  pub data Json : Type 0 where
    object : Fields → Json
    array : Items → Json
    string number : Text → Json
    boolean : Bool → Json
    null : Json

  pub data Fields : Type 0 where
    end : Fields
    field : Text → Json → Fields → Fields

  pub data Items : Type 0 where
    nil : Items
    item : Json → Items → Items

-- `text` is the fallback for what is no JSON: its lines, words and characters.
mutual
  pub data Schema : Type 0 where
    object : ℕ → SchemaFields → Schema
    array : ℕ → Schema → Schema
    string number boolean null unknown : Schema
    text : ℕ → ℕ → ℕ → Schema

  pub data SchemaFields : Type 0 where
    end : SchemaFields
    field : Text → Schema → SchemaFields → SchemaFields

abbrev pub field_count : SchemaFields → ℕ
field_count SchemaFields.end = 0
field_count (SchemaFields.field k s fs) = suc (field_count fs)

abbrev pub item_count : Items → ℕ
item_count Items.nil = 0
item_count (Items.item x xs) = suc (item_count xs)

unfoldable mutual
  pub schema_from_value : Json → Schema
  schema_from_value (Json.object fs) =
      let fields = schemas_from_fields fs in Schema.object (field_count fields) fields
  schema_from_value (Json.array xs) = Schema.array (item_count xs) (item_schema xs)
  schema_from_value (Json.string t) = Schema.string
  schema_from_value (Json.number n) = Schema.number
  schema_from_value (Json.boolean b) = Schema.boolean
  schema_from_value Json.null = Schema.null

  pub schemas_from_fields : Fields → SchemaFields
  schemas_from_fields Fields.end = SchemaFields.end
  schemas_from_fields (Fields.field k v fs) =
      SchemaFields.field k (schema_from_value v) (schemas_from_fields fs)

  pub item_schema : Items → Schema
  item_schema Items.nil = Schema.unknown
  item_schema (Items.item x xs) = schema_from_value x

-- `json.loads` of the decoded bytes, none where either raises; the text that `decode(errors="replace")`
-- gives; and the length of its `split`.
pub record Reader : Type 0 where
  pub loads : List ℕ → Option Json
  pub decode_replace : List ℕ → Text
  pub word_count : Text → ℕ

-- `text.count("\n")`
abbrev pub newlines : Text → ℕ
newlines [] = 0
newlines (c ∷ cs) = let rest = newlines cs in if c == 10 then suc rest else rest

abbrev pub text_schema : Reader → Text → Schema
text_schema py t = Schema.text (newlines t + 1) (py.word_count t) (length t)

abbrev pub schema_of : Reader → List ℕ → Option Json → Schema
schema_of py content none = text_schema py (py.decode_replace content)
schema_of py content (some data_) = schema_from_value data_

unfoldable pub extract_schema : Reader → List ℕ → Schema
unfolding schema_from_value
extract_schema py content = schema_of py content (py.loads content)

-- `v.get("type", "unknown")`
pub data Kind : Type 0 where
  object array string number boolean null unknown : Kind

abbrev pub kind_of : Schema → Kind
kind_of (Schema.object n fs) = Kind.object
kind_of (Schema.array n s) = Kind.array
kind_of Schema.string = Kind.string
kind_of Schema.number = Kind.number
kind_of Schema.boolean = Kind.boolean
kind_of Schema.null = Kind.null
kind_of Schema.unknown = Kind.unknown
kind_of (Schema.text l w c) = Kind.unknown

pub data PublicSchema : Type 0 where
  text : ℕ → ℕ → PublicSchema
  object : ℕ → List Text → List (Text × Kind) → PublicSchema
  array : ℕ → PublicSchema → PublicSchema
  plain : Kind → PublicSchema

abbrev pub names_of : SchemaFields → List Text
names_of SchemaFields.end = []
names_of (SchemaFields.field k s fs) = k ∷ names_of fs

abbrev pub types_of : SchemaFields → List (Text × Kind)
types_of SchemaFields.end = []
types_of (SchemaFields.field k s fs) = (k, kind_of s) ∷ types_of fs

unfoldable pub public_schema : Schema → PublicSchema
public_schema (Schema.text l w c) = PublicSchema.text l w
public_schema (Schema.object n fs) = PublicSchema.object n (names_of fs) (types_of fs)
public_schema (Schema.array n s) = PublicSchema.array n (public_schema s)
public_schema s = PublicSchema.plain (kind_of s)
