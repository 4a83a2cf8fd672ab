-- ===== src/Proof/Publish.antt =====
-- `generate_proofs` and the lookups of its rows, of marketplace/services/zkp_service.py. The
-- columns `proof_data` and `public_inputs` are JSON texts of the structures here; scores are whole hundredths.
use agentchains.Base.{ℕ, Text, Option, none, some, List, [], ◌∷◌, ◌++◌, ◌==◌, select}
use agentchains.Proof.Merkle.{Hash, MerkleTree, build_merkle_tree}
use agentchains.Proof.Bloom.{Builtins, Bloom, build_bloom_filter}
use agentchains.Proof.Schema.{Reader, Schema, PublicSchema, extract_schema, public_schema}

pub record Metadata : Type 0 where
  pub content_size : ℕ
  pub category : Text
  pub freshness_at : ℕ
  pub quality_score : ℕ

-- What is published of a content, by the type of proof; `public` is the field names and types only.
pub data Published : Type 0 where
  merkle_root : List ℕ → ℕ → ℕ → Published
  schema : Schema → PublicSchema → Published
  bloom_filter : Bloom → Published
  metadata : Metadata → Published

pub record ZkProof : Type 0 where
  pub listing_id : ℕ
  pub commitment : List ℕ
  pub published : Published

-- SHA-256 of a text, and `json.dumps` with sorted keys, of a schema and of metadata; the bytes of a filter.
pub record Codec : Type 0 where
  pub sha256 : Hash
  pub dump_schema : Schema → List ℕ
  pub dump_metadata : Metadata → List ℕ
  pub bloom_bytes : Bloom → List ℕ

unfoldable pub build_metadata_commitment : Codec → Metadata → List ℕ
build_metadata_commitment codec m = codec.sha256 (codec.dump_metadata m)

abbrev pub proofs : Builtins → Reader → Codec → ℕ → List ℕ → Metadata → MerkleTree → List ZkProof
proofs py reader codec listing_id content m tree =
    let s = extract_schema reader content in
    let bloom = build_bloom_filter py content in
    record {
      listing_id = listing_id;
      commitment = tree.root;
      published = Published.merkle_root tree.root tree.leaf_count tree.depth;
    }
    ∷ record {
      listing_id = listing_id;
      commitment = codec.sha256 (codec.dump_schema s);
      published = Published.schema s (public_schema s);
    }
    ∷ record {
      listing_id = listing_id;
      commitment = codec.sha256 (codec.bloom_bytes bloom);
      published = Published.bloom_filter bloom;
    }
    ∷ record {
      listing_id = listing_id;
      commitment = build_metadata_commitment codec m;
      published = Published.metadata m;
    }
    ∷ []

abbrev pub proofs_of :
    Builtins → Reader → Codec → ℕ → List ℕ → Metadata → Option MerkleTree → Option (List ZkProof)
proofs_of py reader codec listing_id content m none = none
proofs_of py reader codec listing_id content m (some tree) =
    some (proofs py reader codec listing_id content m tree)

abbrev pub stored : List ZkProof → Option (List ZkProof) → Option (List ZkProof)
stored rows none = none
stored rows (some proofs) = some (rows ++ proofs)

-- The rows with the new proofs; none where the tree's loop would not end.
unfoldable pub generate_proofs :
    Builtins → Reader → Codec → ℕ → List ℕ → Metadata → List ZkProof → Option (List ZkProof)
unfolding extract_schema public_schema build_merkle_tree build_bloom_filter
    build_metadata_commitment
generate_proofs py reader codec listing_id content m rows =
    stored rows
      (proofs_of py reader codec listing_id content m (build_merkle_tree codec.sha256 content))

abbrev pub get_proofs : ℕ → List ZkProof → List ZkProof
get_proofs listing_id rows = select (λ (p : ZkProof). p.listing_id == listing_id) rows

-- `proof_map`, in which a later proof of a type replaces an earlier one: the entries that are looked up.
abbrev pub bloom_of : List ZkProof → Option Bloom
bloom_of [] = none
bloom_of (p ∷ ps) = elim (bloom_of ps) [
  | some b ↦ some b
  | none ↦ elim p.published [
    | bloom_filter b ↦ some b
    | merkle_root r n d ↦ none
    | schema s q ↦ none
    | metadata m ↦ none
  ]
]

abbrev pub schema_of_proofs : List ZkProof → Option PublicSchema
schema_of_proofs [] = none
schema_of_proofs (p ∷ ps) = elim (schema_of_proofs ps) [
  | some b ↦ some b
  | none ↦ elim p.published [
    | schema s q ↦ some q
    | merkle_root r n d ↦ none
    | bloom_filter b ↦ none
    | metadata m ↦ none
  ]
]

abbrev pub metadata_of : List ZkProof → Option Metadata
metadata_of [] = none
metadata_of (p ∷ ps) = elim (metadata_of ps) [
  | some b ↦ some b
  | none ↦ elim p.published [
    | metadata m ↦ some m
    | merkle_root r n d ↦ none
    | schema s q ↦ none
    | bloom_filter b ↦ none
  ]
]
