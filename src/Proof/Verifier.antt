-- ===== src/Proof/Verifier.antt =====
-- What a buyer asks of a listing's proofs: `verify_listing` and `bloom_check_word` of
-- marketplace/services/zkp_service.py.
use agentchains.Base.{
  ℕ, Bool, true, false, ◌&&◌, ◌||◌, Text, same_text, Option, none, some, List, [], ◌∷◌, ◌++◌, leb,
  select,
}
use agentchains.Proof.Bloom.{Builtins, Bloom, check_bloom}
use agentchains.Proof.Schema.{PublicSchema}
use agentchains.Proof.Publish.{
  merkle_root, schema, metadata, bloom_filter, Metadata, ZkProof, get_proofs, bloom_of,
  schema_of_proofs, metadata_of,
}

-- What a buyer asks; none and no keyword or field is no check.
pub record Asked : Type 0 where
  pub keywords : List Text
  pub schema_has_fields : List Text
  pub min_size : Option ℕ
  pub min_quality : Option ℕ

pub data Check : Type 0 where
  keywords schema_fields min_size min_quality : Bool → Check

abbrev pub passed : Check → Bool
passed (Check.keywords b) = b
passed (Check.schema_fields b) = b
passed (Check.min_size b) = b
passed (Check.min_quality b) = b

abbrev pub also : Option Bool → Option Bool → Option Bool
also none rest = none
also (some b) none = none
also (some b) (some rest) = some (b && rest)

-- `check_bloom` of each keyword; reading past the end of the filter raises.
unfoldable pub all_present : Builtins → Bloom → List Text → Option Bool
unfolding check_bloom
all_present py bloom [] = some true
all_present py bloom (w ∷ words) = also (check_bloom py bloom w) (all_present py bloom words)

abbrev pub contains : List Text → Text → Bool
contains [] t = false
contains (n ∷ names) t = same_text n t || contains names t

abbrev pub field_names : PublicSchema → List Text
field_names (PublicSchema.object n names types) = names
field_names _ = []

abbrev pub all_fields : List Text → List Text → Bool
all_fields names [] = true
all_fields names (f ∷ fields) = contains names f && all_fields names fields

abbrev pub keyword_result : Option Bool → Option (List Check)
keyword_result none = none
keyword_result (some b) = some (Check.keywords b ∷ [])

-- One check, where it is asked for and its proof is there.
abbrev pub keyword_check : Builtins → List Text → Option Bloom → Option (List Check)
keyword_check py [] o = some []
keyword_check py (w ∷ words) none = some []
keyword_check py (w ∷ words) (some bloom) = keyword_result (all_present py bloom (w ∷ words))

abbrev pub field_check : List Text → Option PublicSchema → List Check
field_check [] o = []
field_check (f ∷ fields) none = []
field_check (f ∷ fields) (some s) =
    Check.schema_fields (all_fields (field_names s) (f ∷ fields)) ∷ []

abbrev pub size_check : Option ℕ → Option Metadata → List Check
size_check none o = []
size_check (some n) none = []
size_check (some n) (some m) = Check.min_size (leb n m.content_size) ∷ []

abbrev pub quality_check : Option ℕ → Option Metadata → List Check
quality_check none o = []
quality_check (some n) none = []
quality_check (some n) (some m) = Check.min_quality (leb n m.quality_score) ∷ []

abbrev pub all_passed : List Check → Bool
all_passed [] = true
all_passed (c ∷ cs) = passed c && all_passed cs

pub data Verdict : Type 0 where
  no_proofs : Verdict
  verdict : Bool → List Check → Verdict

-- `all(...) if checks else False`
abbrev pub verdict_of : List Check → Verdict
verdict_of [] = Verdict.verdict false []
verdict_of (c ∷ cs) = Verdict.verdict (all_passed (c ∷ cs)) (c ∷ cs)

-- The checks on the schema and the metadata.
abbrev pub other_checks : Asked → Option PublicSchema → Option Metadata → List Check
other_checks asked s m =
    field_check asked.schema_has_fields s
    ++ (size_check asked.min_size m ++ quality_check asked.min_quality m)

abbrev pub checked : Option (List Check) → List Check → Option Verdict
checked none others = none
checked (some words) others = some (verdict_of (words ++ others))

abbrev pub verify_proofs : Builtins → Asked → List ZkProof → Option Verdict
verify_proofs py asked [] = some Verdict.no_proofs
verify_proofs py asked (p ∷ ps) =
    checked (keyword_check py asked.keywords (bloom_of (p ∷ ps)))
      (other_checks asked (schema_of_proofs (p ∷ ps)) (metadata_of (p ∷ ps)))

-- None where `check_bloom` raises.
unfoldable pub verify_listing : Builtins → Asked → ℕ → List ZkProof → Option Verdict
unfolding all_present
verify_listing py asked listing_id rows = verify_proofs py asked (get_proofs listing_id rows)

abbrev pub is_bloom : ZkProof → Bool
is_bloom p = elim p.published [
  | bloom_filter b ↦ true
  | merkle_root r n d ↦ false
  | schema s q ↦ false
  | metadata m ↦ false
]

-- `scalar_one_or_none` raises at a second filter; the checks raise as above.
pub data WordAnswer : Type 0 where
  no_filter raises : WordAnswer
  probably_present : Bool → WordAnswer

abbrev pub word_answer : Option Bool → WordAnswer
word_answer none = WordAnswer.raises
word_answer (some b) = WordAnswer.probably_present b

abbrev pub word_in : Builtins → Text → List ZkProof → WordAnswer
word_in py word [] = WordAnswer.no_filter
word_in py word (p ∷ []) = elim p.published [
  | bloom_filter b ↦ word_answer (check_bloom py b word)
  | merkle_root r n d ↦ WordAnswer.raises
  | schema s q ↦ WordAnswer.raises
  | metadata m ↦ WordAnswer.raises
]
word_in py word (p ∷ q ∷ rest) = WordAnswer.raises

unfoldable pub bloom_check_word : Builtins → ℕ → Text → List ZkProof → WordAnswer
unfolding check_bloom
bloom_check_word py listing_id word rows =
    word_in py word (select is_bloom (get_proofs listing_id rows))
