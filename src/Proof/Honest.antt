-- ===== src/Proof/Honest.antt =====
-- What a buyer learns from the proofs that a listing has published.
use mathlib.Core.Path.{subst}
use agentchains.Base.{
  ℕ, ◌≡◌, refl, sym, ap, ◌∙◌, true, ◌||◌, Text, Option, none, some, List, [], ◌∷◌, ◌++◌, ==_self,
  All, arith, and_left, and_right,
}
use agentchains.Proof.Depth.{merkle_depth}
use agentchains.Proof.Bloom.{Builtins, Bloom, build_bloom_filter}
use agentchains.Proof.Schema.{
  Json, Fields, Reader, PublicSchema, extract_schema, public_schema, schema_of, schema_from_value,
}
use agentchains.Proof.Hides.{keys_of}
use agentchains.Proof.Publish.{
  Metadata, ZkProof, Codec, generate_proofs, proofs_of, proofs, get_proofs, stored,
}
use agentchains.Proof.Verifier.{
  Asked, Check, verify_listing, verify_proofs, checked, keyword_check, keyword_result, other_checks,
  all_passed, all_fields, all_present, field_names,
}
use agentchains.Proof.Checks.{
  Occurs, reaches, is_nonempty, asks, IsMet, verified, select-append, names_of-keys,
  all_present-Occurs, all_fields-All, All-all_fields, all_passed-append, is_cons, is_cons-append,
  verified-verdict_of, passed-other_checks, cons-other_checks,
}

honest_words :
    (py : Builtins) (bloom : Bloom) (words : List Text)
    → all_present py bloom words ≡ some true
    → (ws : List Check) × (keyword_check py words (some bloom) ≡ some ws)
      × (is_cons ws ≡ is_nonempty words)
      × (all_passed ws ≡ true)
honest_words py bloom [] h = ([], refl, refl, refl)
honest_words py bloom (w ∷ words) h = (Check.keywords true ∷ [], ap keyword_result h, refl, refl)

-- The public schema has the keys of the object.
field_names-keys :
    (reader : Reader) (content : List ℕ) (fs : Fields)
    → reader.loads content ≡ some (Json.object fs)
    → field_names (public_schema (extract_schema reader content)) ≡ keys_of fs
unfolding extract_schema schema_from_value public_schema
field_names-keys reader content fs e =
    ap (λ o. field_names (public_schema (schema_of reader content o))) e ∙ names_of-keys fs

module _ (asked : Asked) (s : PublicSchema) (m : Metadata) (fs : Fields)
    (keyed : field_names s ≡ keys_of fs) where
  other_checks_pass : IsMet asked fs m → all_passed (other_checks asked (some s) (some m)) ≡ true
  other_checks_pass (fields, size, quality) =
      passed-other_checks asked s m
      ∙ rw (keyed, all_fields-All (keys_of fs) asked.schema_has_fields fields, size, quality) refl

  passes-IsMet : all_passed (other_checks asked (some s) (some m)) ≡ true → IsMet asked fs m
  passes-IsMet h =
      let all_ = sym (passed-other_checks asked s m) ∙ h in
      let rest = and_right (all_fields (field_names s) asked.schema_has_fields) _ all_ in
      (
        All-all_fields (keys_of fs) asked.schema_has_fields (
            subst (λ names. all_fields names asked.schema_has_fields ≡ true) keyed
              (and_left _ _ all_)),
        and_left _ _ rest,
        and_right (reaches asked.min_size m.content_size) _ rest,
      )

  verified-IsMet :
      (words : Option (List Check))
      → verified (checked words (other_checks asked (some s) (some m))) ≡ true
      → IsMet asked fs m
  verified-IsMet none h = absurd (ground (arith, h))
  verified-IsMet (some ws) h =
      let all_ =
        and_right (is_cons (ws ++ other_checks asked (some s) (some m))) _
          (sym (verified-verdict_of (ws ++ other_checks asked (some s) (some m))) ∙ h) in
      passes-IsMet (
        and_right (all_passed ws) _
          (sym (all_passed-append ws (other_checks asked (some s) (some m))) ∙ all_))

  request_verified :
      (py : Builtins) (bloom : Bloom)
      → all_present py bloom asked.keywords ≡ some true
      → asks asked ≡ true
      → IsMet asked fs m
      → verified (
          checked
            (keyword_check py asked.keywords (some bloom))
            (other_checks asked (some s) (some m)))
        ≡ true
  request_verified py bloom present asked_ met =
      let (ws, found, nonempty, passed_) = honest_words py bloom asked.keywords present in
      let others = other_checks asked (some s) (some m) in
      let some_ : is_cons (ws ++ others) ≡ true =
        is_cons-append ws others
        ∙ ap (λ b. b || is_cons others) nonempty
        ∙ ap (λ b. is_nonempty asked.keywords || b) (cons-other_checks asked s m)
        ∙ asked_ in
      let every : all_passed (ws ++ others) ≡ true =
        all_passed-append ws others ∙ rw passed_ (other_checks_pass met) in
      ap (λ k. verified (checked k others)) found
      ∙ verified-verdict_of (ws ++ others)
      ∙ rw (some_, every) refl

-- The proofs that are generated for a JSON object, of a listing that has none yet, are always there, and they
-- tell a buyer the truth: a request is verified that asks for something, for keywords that stand in the
-- content, for fields that the object has and for a size and quality that the listing's reach; and a request
-- that is verified asks for no other field, size or quality.
pub listing_verifies :
    (py : Builtins) (reader : Reader) (codec : Codec) (listing_id : ℕ) (content : List ℕ)
    (m : Metadata) (rows : List ZkProof) (asked : Asked) (fs : Fields)
    → get_proofs listing_id rows ≡ []
    → reader.loads content ≡ some (Json.object fs)
    → (after : List ZkProof) × (generate_proofs py reader codec listing_id content m rows
        ≡ some after)
      × (All (Occurs py content) asked.keywords
          → asks asked ≡ true
          → IsMet asked fs m
          → verified (verify_listing py asked listing_id after) ≡ true)
      × (verified (verify_listing py asked listing_id after) ≡ true → IsMet asked fs m)
unfolding generate_proofs verify_listing
listing_verifies py reader codec listing_id content m rows asked fs fresh parsed =
    let (tree, built, _, _, _) = merkle_depth codec.sha256 content in
    let ps = proofs py reader codec listing_id content m tree in
    let s = public_schema (extract_schema reader content) in
    let keyed = field_names-keys reader content fs parsed in
    let bloom = build_bloom_filter py content in
    let own : get_proofs listing_id ps ≡ ps = rw (==_self listing_id) refl in
    let here =
      select-append listing_id rows ps ∙ ap (λ r. r ++ get_proofs listing_id ps) fresh ∙ own in
    let told = ap (λ l. verified (verify_proofs py asked l)) here in
    (
      rows ++ ps,
      ap (λ o. stored rows (proofs_of py reader codec listing_id content m o)) built,
      λ occur asked_ met.
          told
          ∙ request_verified asked s m fs keyed py bloom
              (all_present-Occurs py content asked.keywords occur) asked_ met,
      λ h.
          verified-IsMet asked s m fs keyed (keyword_check py asked.keywords (some bloom))
            (sym told ∙ h),
    )
