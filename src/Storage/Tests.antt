-- ===== src/Storage/Tests.antt =====
-- A store with a toy digest of 64 digits, and the theorems about it.
use agentchains.Base.{
  Text, same_text, ℕ, zero, suc, ◌≡◌, refl, false, some, List, [], ◌∷◌, ◌++◌, if◌then◌else◌,
  Bool-cases, inl, inr,
}
use agentchains.Storage.Store.{FilePath, HashFs, put, get, delete, exists, prefix, normalize_hash}
use agentchains.Storage.Names.{HasNoLinks, HasHexDigests}
use agentchains.Storage.Refine.{Operation, run, contents, found_in, run_refines}
use agentchains.Storage.RoundTrip.{ReadsBack, put-get}

abbrev zeros : ℕ → Text
zeros zero = []
zeros (suc n) = 48 ∷ zeros n

-- Ends in `a` for the one-byte text and in `b` for the others.
abbrev digest : Text → Text
digest c = zeros 63 ++ (if same_text c (1 ∷ []) then 97 else 98) ∷ []

-- The root is ".", and the program runs in the directory "a" of the root "/".
abbrev absolute : FilePath → FilePath
absolute [] = []
absolute (x ∷ p) = if same_text x (46 ∷ []) then (47 ∷ []) ∷ (97 ∷ []) ∷ p else x ∷ p

abbrev store : HashFs
store = record {
  root = (46 ∷ []) ∷ [];
  depth = 2;
  width = 2;
  digest = digest;
  resolve = λ p. some (absolute p);
  locate = absolute;
}

store-HasNoLinks : HasNoLinks store
store-HasNoLinks = record {
  base = (47 ∷ []) ∷ (97 ∷ []) ∷ [];
  root_resolves = refl;
  resolves = λ h hash. refl;
  opens = λ h hash. refl;
  reopens = λ h hash. refl;
}

store-HasHexDigests : HasHexDigests store
store-HasHexDigests c = elim (Bool-cases (same_text c (1 ∷ []))) [
  | inl e ↦ rw e (refl, refl)
  | inr e ↦ rw e (refl, refl)
]

-- "A" stands for the digit `a`.
abbrev shouted : Text
shouted = zeros 63 ++ 65 ∷ []

abbrev history : List Operation
history =
    Operation.put_content (1 ∷ [])
    ∷ Operation.delete_hash (digest [])
    ∷ Operation.put_content []
    ∷ []

read_back : get store shouted (run store history) ≡ some (1 ∷ [])
unfolding get run put delete
read_back = refl

gone : exists store (prefix ++ digest []) (run store history) ≡ false
unfolding exists run put delete
gone = refl

run_refines_example :
    get store shouted (run store history)
    ≡ found_in (contents store history) (normalize_hash shouted)
run_refines_example = run_refines store history shouted store-HasNoLinks store-HasHexDigests

put-get_example : ReadsBack store history (2 ∷ []) (
    get store (put store (2 ∷ []) (run store history)).1 (put store (2 ∷ []) (run store history)).0)
put-get_example = put-get store history (2 ∷ []) store-HasNoLinks store-HasHexDigests
