-- ===== src/Proof/Words.antt =====
-- The words that the scan of a text finds: every maximal run of alphanumeric characters is among them.
use agentchains.Base.{
  ℕ, ◌≡◌, ◌≢◌, refl, sym, ap, ◌∙◌, Bool, true, false, not, List, [], ◌∷◌, ◌++◌, all, inl, inr,
  Bool-cases, and_left, and_right,
}
use agentchains.Proof.Bloom.{flush, scan}

-- The text is empty or ends in a separator.
abbrev pub ends_free : (ℕ → Bool) → List ℕ → Bool
ends_free alnum [] = true
ends_free alnum (c ∷ []) = not (alnum c)
ends_free alnum (c ∷ d ∷ text) = ends_free alnum (d ∷ text)

-- The text is empty or begins with a separator.
abbrev pub starts_free : (ℕ → Bool) → List ℕ → Bool
starts_free alnum [] = true
starts_free alnum (c ∷ text) = not (alnum c)

not_elim : (b : Bool) → not b ≡ true → b ≡ false
not_elim true h = sym h
not_elim false h = refl

flush_append :
    (current : List ℕ) (xs ys : List (List ℕ)) → flush current (xs ++ ys) ≡ flush current xs ++ ys
flush_append [] xs ys = refl
flush_append (c ∷ current) xs ys = refl

append_assoc : (xs ys zs : List ℕ) → (xs ++ ys) ++ zs ≡ xs ++ (ys ++ zs)
append_assoc [] ys zs = refl
append_assoc (x ∷ xs) ys zs = ap (λ r. x ∷ r) (append_assoc xs ys zs)

append_nil : (xs : List ℕ) → xs ++ [] ≡ xs
append_nil [] = refl
append_nil (x ∷ xs) = ap (λ r. x ∷ r) (append_nil xs)

scan_run :
    (alnum : ℕ → Bool) (current word text : List ℕ)
    → all alnum word ≡ true
    → scan alnum current (word ++ text) ≡ scan alnum (current ++ word) text
unfolding scan
scan_run alnum current [] text h = ap (λ c. scan alnum c text) (sym (append_nil current))
scan_run alnum current (c ∷ word) text h = rw (and_left (alnum c) _ h) (
    scan_run alnum (current ++ c ∷ []) word text (and_right (alnum c) _ h)
    ∙ ap (λ w. scan alnum w text) (append_assoc current (c ∷ []) word))

scan_before :
    (alnum : ℕ → Bool) (current before rest : List ℕ) (c : ℕ)
    → ends_free alnum (c ∷ before) ≡ true
    → (words : List (List ℕ)) × (scan alnum current (c ∷ before ++ rest)
        ≡ words ++ scan alnum [] rest)
unfolding scan
scan_before alnum current [] rest c h =
    (flush current [], rw (not_elim (alnum c) h) (flush_append current [] (scan alnum [] rest)))
scan_before alnum current (d ∷ before) rest c h = elim (Bool-cases (alnum c)) [
  | inl yes_ ↦
      let more = scan_before alnum (current ++ c ∷ []) before rest d h in (more.0, rw yes_ more.1)
  | inr no_ ↦
      let more = scan_before alnum [] before rest d h in
      (
        flush current more.0,
        rw no_ (ap (flush current) more.1 ∙ flush_append current more.0 (scan alnum [] rest)),
      )
]

scan_after :
    (alnum : ℕ → Bool) (c : ℕ) (word text : List ℕ)
    → starts_free alnum text ≡ true
    → (words : List (List ℕ)) × (scan alnum (c ∷ word) text ≡ (c ∷ word) ∷ words)
unfolding scan
scan_after alnum c word [] h = ([], refl)
scan_after alnum c word (d ∷ text) h = (scan alnum [] text, rw (not_elim (alnum d) h, scan) refl)

-- A run of alphanumeric characters between separators is one of the words.
pub scan-word :
    (alnum : ℕ → Bool) (before word after : List ℕ)
    → word ≢ []
    → all alnum word ≡ true
    → ends_free alnum before ≡ true
    → starts_free alnum after ≡ true
    → (ws : List (List ℕ)) × (ws' : List (List ℕ)) × (scan alnum [] (before ++ (word ++ after))
        ≡ ws ++ word ∷ ws')
scan-word alnum before [] after some_ run free free' = absurd (some_ refl)
scan-word alnum [] (c ∷ word) after some_ run free free' =
    let tail = scan_after alnum c word after free' in
    ([], tail.0, scan_run alnum [] (c ∷ word) after run ∙ tail.1)
scan-word alnum (b ∷ before) (c ∷ word) after some_ run free free' =
    let tail = scan_after alnum c word after free' in
    let front = scan_before alnum [] before ((c ∷ word) ++ after) b free in
    (
      front.0,
      tail.0,
      front.1 ∙ ap (λ r. front.0 ++ r) (scan_run alnum [] (c ∷ word) after run ∙ tail.1),
    )
