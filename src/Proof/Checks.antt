-- ===== src/Proof/Checks.antt =====
-- The checks that a buyer asks for, one by one.
use agentchains.Base.{
  ℕ, ◌≡◌, ◌≢◌, refl, sym, ap, ◌∙◌, Bool, true, false, ◌&&◌, ◌||◌, Text, Option, none, some, List,
  [], ◌∷◌, ◌++◌, leb, All, all, arith, and_left, and_right,
}
use agentchains.Proof.Bloom.{Builtins, build_bloom_filter}
use agentchains.Proof.Words.{ends_free, starts_free}
use agentchains.Proof.Membership.{bloom_never_misses}
use agentchains.Proof.Schema.{Fields, PublicSchema, schemas_from_fields, names_of}
use agentchains.Proof.Hides.{keys_of}
use agentchains.Proof.Publish.{Metadata, ZkProof, get_proofs}
use agentchains.Proof.Verifier.{
  Asked, Check, Verdict, field_check, size_check, quality_check, also, other_checks, all_passed,
  all_fields, all_present, verdict_of, contains, field_names,
}

-- A keyword stands in the lower-cased content as a run of letters and digits, in whatever case.
abbrev pub Occurs : Builtins → List ℕ → Text → Type 0
Occurs py content word =
    (before : Text) × (after : Text) × (py.lower (py.decode content)
      ≡ before ++ (py.lower word ++ after))
    × (py.lower word ≢ [])
    × (all py.is_alnum (py.lower word) ≡ true)
    × (ends_free py.is_alnum before ≡ true)
    × (starts_free py.is_alnum after ≡ true)

abbrev pub reaches : Option ℕ → ℕ → Bool
reaches none m = true
reaches (some n) m = leb n m

abbrev pub is_given : Option ℕ → Bool
is_given none = false
is_given (some n) = true

abbrev pub is_nonempty : List Text → Bool
is_nonempty [] = false
is_nonempty (x ∷ xs) = true

-- The buyer asks for one check at least.
abbrev pub asks : Asked → Bool
asks asked =
    is_nonempty asked.keywords
    || (is_nonempty asked.schema_has_fields
        || (is_given asked.min_size || is_given asked.min_quality))

-- What the proofs show for certain: the fields, the size and the quality.
abbrev pub IsMet : Asked → Fields → Metadata → Type 0
IsMet asked fs m =
    All (λ f. contains (keys_of fs) f ≡ true) asked.schema_has_fields
    × (reaches asked.min_size m.content_size ≡ true)
    × (reaches asked.min_quality m.quality_score ≡ true)

abbrev pub verified : Option Verdict → Bool
verified none = false
verified (some Verdict.no_proofs) = false
verified (some (Verdict.verdict b checks)) = b

pub select-append :
    (id : ℕ) (xs ys : List ZkProof)
    → get_proofs id (xs ++ ys) ≡ get_proofs id xs ++ get_proofs id ys
select-append id [] ys = refl
select-append id (x ∷ xs) ys = ground (arith, select-append id xs ys)

pub names_of-keys : (fs : Fields) → names_of (schemas_from_fields fs) ≡ keys_of fs
unfolding schemas_from_fields
names_of-keys Fields.end = refl
names_of-keys (Fields.field k v fs) = ap (λ r. k ∷ r) (names_of-keys fs)

pub all_present-Occurs :
    (py : Builtins) (content : List ℕ) (words : List Text)
    → All (Occurs py content) words
    → all_present py (build_bloom_filter py content) words ≡ some true
unfolding all_present
all_present-Occurs py content [] h = refl
all_present-Occurs py content (w ∷ words) ((before, after, text, some_, run, free, free'), hs) =
    let bloom = build_bloom_filter py content in
    ap (λ o. also o (all_present py bloom words))
      (bloom_never_misses py content w before after text some_ run free free')
    ∙ ap (also (some true)) (all_present-Occurs py content words hs)

pub all_fields-All :
    (names fields : List Text)
    → All (λ f. contains names f ≡ true) fields
    → all_fields names fields ≡ true
all_fields-All names [] h = refl
all_fields-All names (f ∷ fields) (h, hs) = rw (h, all_fields-All names fields hs) refl

pub All-all_fields :
    (names fields : List Text)
    → all_fields names fields ≡ true
    → All (λ f. contains names f ≡ true) fields
All-all_fields names [] h = tt
All-all_fields names (f ∷ fields) h =
    (and_left _ _ h, All-all_fields names fields (and_right (contains names f) _ h))

pub all_passed-append :
    (xs ys : List Check) → all_passed (xs ++ ys) ≡ (all_passed xs && all_passed ys)
all_passed-append [] ys = refl
all_passed-append (x ∷ xs) ys = ground (arith, all_passed-append xs ys)

abbrev pub is_cons : List Check → Bool
is_cons [] = false
is_cons (c ∷ cs) = true

pub is_cons-append : (xs ys : List Check) → is_cons (xs ++ ys) ≡ (is_cons xs || is_cons ys)
is_cons-append [] ys = refl
is_cons-append (x ∷ xs) ys = refl

pub verified-verdict_of :
    (cs : List Check) → verified (some (verdict_of cs)) ≡ (is_cons cs && all_passed cs)
verified-verdict_of [] = refl
verified-verdict_of (c ∷ cs) = refl

true_right : (b : Bool) → b ≡ (b && true)
true_right b = ground arith

passed-field_check :
    (fields : List Text) (s : PublicSchema)
    → all_passed (field_check fields (some s)) ≡ all_fields (field_names s) fields
passed-field_check [] s = refl
passed-field_check (f ∷ fields) s = sym (true_right _)

cons-field_check :
    (fields : List Text) (s : PublicSchema)
    → is_cons (field_check fields (some s)) ≡ is_nonempty fields
cons-field_check [] s = refl
cons-field_check (f ∷ fields) s = refl

passed-size_check :
    (o : Option ℕ) (m : Metadata) → all_passed (size_check o (some m)) ≡ reaches o m.content_size
passed-size_check none m = refl
passed-size_check (some n) m = sym (true_right _)

cons-size_check : (o : Option ℕ) (m : Metadata) → is_cons (size_check o (some m)) ≡ is_given o
cons-size_check none m = refl
cons-size_check (some n) m = refl

passed-quality_check :
    (o : Option ℕ) (m : Metadata)
    → all_passed (quality_check o (some m)) ≡ reaches o m.quality_score
passed-quality_check none m = refl
passed-quality_check (some n) m = sym (true_right _)

cons-quality_check : (o : Option ℕ) (m : Metadata) → is_cons (quality_check o (some m)) ≡ is_given o
cons-quality_check none m = refl
cons-quality_check (some n) m = refl

-- The result of the checks, and whether there is one.
pub passed-other_checks :
    (asked : Asked) (s : PublicSchema) (m : Metadata)
    → all_passed (other_checks asked (some s) (some m)) ≡ (
        all_fields (field_names s) asked.schema_has_fields
        && (reaches asked.min_size m.content_size && reaches asked.min_quality m.quality_score))
passed-other_checks asked s m =
    rw
      (
        all_passed-append (field_check asked.schema_has_fields (some s))
            (size_check asked.min_size (some m) ++ quality_check asked.min_quality (some m)),
        all_passed-append (size_check asked.min_size (some m))
            (quality_check asked.min_quality (some m)),
        passed-field_check asked.schema_has_fields s,
        passed-size_check asked.min_size m,
        passed-quality_check asked.min_quality m,
      )
      refl

pub cons-other_checks :
    (asked : Asked) (s : PublicSchema) (m : Metadata)
    → is_cons (other_checks asked (some s) (some m)) ≡ (
        is_nonempty asked.schema_has_fields
        || (is_given asked.min_size || is_given asked.min_quality))
cons-other_checks asked s m =
    rw
      (
        is_cons-append (field_check asked.schema_has_fields (some s))
            (size_check asked.min_size (some m) ++ quality_check asked.min_quality (some m)),
        is_cons-append (size_check asked.min_size (some m))
            (quality_check asked.min_quality (some m)),
        cons-field_check asked.schema_has_fields s,
        cons-size_check asked.min_size m,
        cons-quality_check asked.min_quality m,
      )
      refl
