-- ===== src/Proof/Hides.antt =====
-- What the schema of a JSON value tells of it, and what it hides.
use agentchains.Base.{ℕ, zero, suc, ◌≡◌, refl, sym, ap, ◌∙◌, Text, ◌↔◌, List, [], ◌∷◌, false}
use agentchains.Proof.Schema.{
  Json, Fields, Items, Schema, SchemaFields, field_count, item_count, schema_from_value,
  schemas_from_fields,
}

abbrev pub keys_of : Fields → List Text
keys_of Fields.end = []
keys_of (Fields.field k v fs) = k ∷ keys_of fs

abbrev blank_items : ℕ → Items
blank_items zero = Items.nil
blank_items (suc n) = Items.item Json.null (blank_items n)

abbrev blanks_of : Items → Items
blanks_of Items.nil = Items.nil
blanks_of (Items.item x xs) = Items.item Json.null (blanks_of xs)

-- The value with every text, number and truth value replaced by one of its kind, and every item of an array
-- but the first by null.
unfoldable mutual
  pub erase : Json → Json
  erase (Json.object fs) = Json.object (erase_fields fs)
  erase (Json.array xs) = Json.array (erase_items xs)
  erase (Json.string t) = Json.string []
  erase (Json.number n) = Json.number []
  erase (Json.boolean b) = Json.boolean false
  erase Json.null = Json.null

  pub erase_fields : Fields → Fields
  erase_fields Fields.end = Fields.end
  erase_fields (Fields.field k v fs) = Fields.field k (erase v) (erase_fields fs)

  pub erase_items : Items → Items
  erase_items Items.nil = Items.nil
  erase_items (Items.item x xs) = Items.item (erase x) (blanks_of xs)

item_count-blanks_of : (xs : Items) → item_count (blanks_of xs) ≡ item_count xs
item_count-blanks_of Items.nil = refl
item_count-blanks_of (Items.item x xs) = ap suc (item_count-blanks_of xs)

blank_items-item_count : (xs : Items) → blank_items (item_count xs) ≡ blanks_of xs
blank_items-item_count Items.nil = refl
blank_items-item_count (Items.item x xs) = ap (Items.item Json.null) (blank_items-item_count xs)

abbrev example_items : ℕ → Json → Items
example_items zero first = Items.nil
example_items (suc n) first = Items.item first (blank_items n)

-- The erased value that a schema stands for.
unfoldable mutual
  example : Schema → Json
  example (Schema.object n fields) = Json.object (example_fields fields)
  example (Schema.array n first) = Json.array (example_items n (example first))
  example Schema.string = Json.string []
  example Schema.number = Json.number []
  example Schema.boolean = Json.boolean false
  example Schema.null = Json.null
  example Schema.unknown = Json.null
  example (Schema.text a b c) = Json.null

  example_fields : SchemaFields → Fields
  example_fields SchemaFields.end = Fields.end
  example_fields (SchemaFields.field k s fields) =
      Fields.field k (example s) (example_fields fields)

mutual
  unfolding erase schema_from_value

  schema-erase : (v : Json) → schema_from_value (erase v) ≡ schema_from_value v
  schema-erase (Json.object fs) =
      ap (λ fields. Schema.object (field_count fields) fields) (schemas-erase fs)
  schema-erase (Json.array Items.nil) = refl
  schema-erase (Json.array (Items.item x xs)) =
      ap (λ n. Schema.array (suc n) (schema_from_value (erase x))) (item_count-blanks_of xs)
      ∙ ap (Schema.array (suc (item_count xs))) (schema-erase x)
  schema-erase (Json.string t) = refl
  schema-erase (Json.number n) = refl
  schema-erase (Json.boolean b) = refl
  schema-erase Json.null = refl

  schemas-erase : (fs : Fields) → schemas_from_fields (erase_fields fs) ≡ schemas_from_fields fs
  schemas-erase Fields.end = refl
  schemas-erase (Fields.field k v fs) =
      ap (λ s. SchemaFields.field k s (schemas_from_fields (erase_fields fs))) (schema-erase v)
      ∙ ap (SchemaFields.field k (schema_from_value v)) (schemas-erase fs)

mutual
  unfolding erase schema_from_value example

  example-schema : (v : Json) → example (schema_from_value v) ≡ erase v
  example-schema (Json.object fs) = ap Json.object (examples-schemas fs)
  example-schema (Json.array Items.nil) = refl
  example-schema (Json.array (Items.item x xs)) =
      ap (λ y. Json.array (Items.item y (blank_items (item_count xs)))) (example-schema x)
      ∙ ap (λ ys. Json.array (Items.item (erase x) ys)) (blank_items-item_count xs)
  example-schema (Json.string t) = refl
  example-schema (Json.number n) = refl
  example-schema (Json.boolean b) = refl
  example-schema Json.null = refl

  examples-schemas : (fs : Fields) → example_fields (schemas_from_fields fs) ≡ erase_fields fs
  examples-schemas Fields.end = refl
  examples-schemas (Fields.field k v fs) =
      ap (λ y. Fields.field k y (example_fields (schemas_from_fields fs))) (example-schema v)
      ∙ ap (Fields.field k (erase v)) (examples-schemas fs)

-- Two JSON values have one schema if and only if they are equal once every text, number and truth value in
-- them is replaced by one of its kind, and every item of an array but the first by null: the schema tells the
-- keys, the kinds and the lengths, and hides all else.
pub schema_hides : (u v : Json) → (schema_from_value u ≡ schema_from_value v) ↔ (erase u ≡ erase v)
schema_hides u v = (
  λ same. sym (example-schema u) ∙ ap example same ∙ example-schema v,
  λ same. sym (schema-erase u) ∙ ap schema_from_value same ∙ schema-erase v,
)
