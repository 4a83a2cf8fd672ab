-- ===== src/Proof/HonestTests.antt =====
-- A listing of a small object, what a buyer asks of it, and the theorems on its proofs.
use agentchains.Base.{
  ℕ, ◌+◌, ◌*◌, ◌%◌, ◌≡◌, ◌↔◌, refl, true, none, some, List, [], ◌∷◌, ◌&&◌, map, ltb, arith,
  if◌then◌else◌, All,
}
use agentchains.Proof.Merkle.{Hash}
use agentchains.Proof.Bloom.{Builtins}
use agentchains.Proof.Schema.{Json, Fields, Items, Reader, schema_from_value}
use agentchains.Proof.Hides.{erase, schema_hides}
use agentchains.Proof.Publish.{Metadata, ZkProof, Codec, generate_proofs}
use agentchains.Proof.Verifier.{Asked, verify_listing}
use agentchains.Proof.Checks.{Occurs, asks, IsMet, verified}
use agentchains.Proof.Honest.{listing_verifies}

abbrev mixed : ℕ → List ℕ → ℕ
mixed acc [] = acc
mixed acc (b ∷ bytes) = mixed ((acc * 3 + b) % 251) bytes

abbrev toy : Hash
toy x = mixed 1 x ∷ mixed 2 x ∷ []

-- Letters only, and a digest by the seed.
abbrev ascii : Builtins
ascii = record {
  decode = λ bytes. bytes;
  lower = map (λ c. if ltb 64 c && ltb c 91 then c + 32 else c);
  is_alnum = λ c. ltb 96 c && ltb c 123;
  digest = λ seed word. 5 ∷ 6 ∷ seed ∷ mixed seed word ∷ 7 ∷ [];
}

-- {"Big": [1, null]}
abbrev fields : Fields
fields =
    Fields.field (66 ∷ 105 ∷ 103 ∷ [])
      (Json.array (Items.item (Json.number (49 ∷ [])) (Items.item Json.null Items.nil))) Fields.end

abbrev content : List ℕ
content = 123 ∷ 34 ∷ 66 ∷ 105 ∷ 103 ∷ 34 ∷ 58 ∷ []

abbrev reader : Reader
reader = record {
  loads = λ c. some (Json.object fields);
  decode_replace = λ c. c;
  word_count = λ t. 1;
}

abbrev codec : Codec
codec = record {
  sha256 = toy;
  dump_schema = λ s. [];
  dump_metadata = λ m. m.content_size ∷ [];
  bloom_bytes = λ b. [];
}

abbrev metadata : Metadata
metadata = record { content_size = 7; category = []; freshness_at = 3; quality_score = 80 }

-- The keyword "BIG", the field "Big" and five bytes.
abbrev asked : Asked
asked = record {
  keywords = (66 ∷ 73 ∷ 71 ∷ []) ∷ [];
  schema_has_fields = (66 ∷ 105 ∷ 103 ∷ []) ∷ [];
  min_size = some 5;
  min_quality = none;
}

-- Two numbers in an array are hidden, and their number is not.
schema_hides_example :
    (schema_from_value (Json.object fields)
      ≡ schema_from_value (Json.array (Items.item Json.null Items.nil)))
    ↔ (erase (Json.object fields) ≡ erase (Json.array (Items.item Json.null Items.nil)))
schema_hides_example =
    schema_hides (Json.object fields) (Json.array (Items.item Json.null Items.nil))

listing_verifies_example :
    (after : List ZkProof) × (generate_proofs ascii reader codec 4 content metadata [] ≡ some after)
    × (All (Occurs ascii content) asked.keywords
        → asks asked ≡ true
        → IsMet asked fields metadata
        → verified (verify_listing ascii asked 4 after) ≡ true)
    × (verified (verify_listing ascii asked 4 after) ≡ true → IsMet asked fields metadata)
listing_verifies_example =
    listing_verifies ascii reader codec 4 content metadata [] asked fields refl refl

-- The request is one that the proofs verify.
asked-IsMet :
    All (Occurs ascii content) asked.keywords × (asks asked ≡ true) × IsMet asked fields metadata
asked-IsMet = (
  ((123 ∷ 34 ∷ [], 34 ∷ 58 ∷ [], refl, (λ e. ground (arith, e)), refl, refl, refl), tt),
  refl,
  ((refl, tt), refl, refl),
)
