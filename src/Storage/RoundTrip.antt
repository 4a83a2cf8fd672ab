-- ===== src/Storage/RoundTrip.antt =====
-- What is put under a hash is read back under it.
use mathlib.Core.Path.{subst}
use agentchains.Base.{
  Text, same_text, same_text→eq, same_text_self, ◌≡◌, ◌≢◌, ◌⊎◌, refl, sym, ap, ◌∙◌, Option, none,
  some, List, [], ◌∷◌, true, arith, inl, inr, Bool-cases,
}
use agentchains.Storage.Store.{HashFs, put, get, normalize_hash, compute_hash}
use agentchains.Storage.Names.{HasNoLinks, HasHexDigests, normalize_hash-compute_hash}
use agentchains.Storage.Refine.{
  Operation, run, Contents, kept_or, add, remove, contents, found_in, run_refines,
}

-- The content is put by one of the operations.
abbrev pub IsPut : Text → List Operation → Type 0
IsPut d [] = ⊥
IsPut d (Operation.put_content c ∷ ops) = (d ≡ c) ⊎ IsPut d ops
IsPut d (Operation.delete_hash t ∷ ops) = IsPut d ops

-- Every content of the map was put, and stands under its digest.
abbrev IsSound : HashFs → List Operation → Contents → Type 0
IsSound fs ops m = (h c : Text) → m h ≡ some c → (fs.digest c ≡ h) × IsPut c ops

kept-IsSound :
    (fs : HashFs) (ops : List Operation) (d h c : Text) (o : Option Text)
    → (o ≡ some c → (fs.digest c ≡ h) × IsPut c ops)
    → fs.digest d ≡ h
    → kept_or o d ≡ some c
    → (fs.digest c ≡ h) × ((c ≡ d) ⊎ IsPut c ops)
kept-IsSound fs ops d h c none old new e =
    let same : d ≡ c = ground (arith, e) in (ap fs.digest (sym same) ∙ new, inl (sym same))
kept-IsSound fs ops d h c (some x) old new e = let (digest, was) = old e in (digest, inr was)

add-IsSound :
    (fs : HashFs) (ops : List Operation) (d : Text) (m : Contents)
    → IsSound fs ops m
    → IsSound fs (Operation.put_content d ∷ ops) (add (fs.digest d) d m)
add-IsSound fs ops d m sound h c e = elim (Bool-cases (same_text h (fs.digest d))) [
  | inr other ↦ let (digest, was) = sound h c (rw other at e) in (digest, inr was)
  | inl same ↦
      kept-IsSound fs ops d h c (m h) (sound h c) (sym (same_text→eq h (fs.digest d) same))
        (rw same at e)
]

remove-IsSound :
    (fs : HashFs) (ops : List Operation) (o : Option Text) (m : Contents)
    → IsSound fs ops m
    → IsSound fs ops (remove o m)
remove-IsSound fs ops none m sound h c e = sound h c e
remove-IsSound fs ops (some hex) m sound h c e = elim (Bool-cases (same_text h hex)) [
  | inr other ↦ sound h c (rw other at e)
  | inl same ↦ absurd (ground (arith, rw same at e))
]

contents-IsSound : (fs : HashFs) (ops : List Operation) → IsSound fs ops (contents fs ops)
unfolding contents
contents-IsSound fs [] h c e = absurd (ground (arith, e))
contents-IsSound fs (Operation.put_content d ∷ ops) h c e =
    add-IsSound fs ops d (contents fs ops) (contents-IsSound fs ops) h c e
contents-IsSound fs (Operation.delete_hash t ∷ ops) h c e =
    remove-IsSound fs ops (normalize_hash t) (contents fs ops) (contents-IsSound fs ops) h c e

-- Another content that was put before has the digest of this one.
abbrev pub Collides : HashFs → List Operation → Text → Text → Type 0
Collides fs ops c d = IsPut d ops × (d ≢ c) × (fs.digest d ≡ fs.digest c)

-- What is read: the content, or the one that it collides with.
abbrev pub ReadsBack : HashFs → List Operation → Text → Option Text → Type 0
ReadsBack fs ops c read = (read ≡ some c) ⊎ ((d : Text) × Collides fs ops c d × (read ≡ some d))

same_or_not : (d c : Text) → (d ≡ c) ⊎ (d ≢ c)
same_or_not d c = elim (Bool-cases (same_text d c)) [
  | inl e ↦ inl (same_text→eq d c e)
  | inr e ↦ inr (λ same.
      let held : same_text d c ≡ true = rw same (same_text_self c) in ground (arith, e, held))
]

kept-ReadsBack :
    (fs : HashFs) (ops : List Operation) (c : Text) (o : Option Text)
    → ((d : Text) → o ≡ some d → (fs.digest d ≡ fs.digest c) × IsPut d ops)
    → ReadsBack fs ops c (kept_or o c)
kept-ReadsBack fs ops c none old = inl refl
kept-ReadsBack fs ops c (some d) old = elim (same_or_not d c) [
  | inl same ↦ inl (ap some same)
  | inr other ↦ let (digest, was) = old d refl in inr (d, (was, other, digest), refl)
]

-- A content that is put into a store, whatever was put there and deleted before, is read back under the hash
-- that the put returns, unless another content that was put before has the same digest, and then that one is
-- read. Digests have 64 hexadecimal digits, and no path of a hash below the root has a link.
pub put-get :
    (fs : HashFs) (ops : List Operation) (c : Text)
    → HasNoLinks fs
    → HasHexDigests fs
    → ReadsBack fs ops c (get fs (put fs c (run fs ops)).1 (put fs c (run fs ops)).0)
unfolding put run contents
put-get fs ops c plain hex = subst (ReadsBack fs ops c) (sym found) (
    kept-ReadsBack fs ops c (contents fs ops (fs.digest c)) (contents-IsSound fs ops (fs.digest c)))
  where
    found :
        get fs (put fs c (run fs ops)).1 (put fs c (run fs ops)).0
        ≡ kept_or (contents fs ops (fs.digest c)) c
    found =
        run_refines fs (Operation.put_content c ∷ ops) (compute_hash fs c) plain hex
        ∙ ap (found_in (contents fs (Operation.put_content c ∷ ops)))
            (normalize_hash-compute_hash fs c hex)
        ∙ rw (same_text_self (fs.digest c)) refl
