-- ===== src/CapabilityToken/Scopes.antt =====
-- How the comma-separated text of a token answers for its scopes.
use mathlib.Core.Path.{subst}
use ninai.Base.{
  Bool, Bool-cases, List, Text, [], all, ap, arith, false, inl, inr, is_clean, is_space, join, map,
  ok, raise, refl, same_text, same_text-eq, split, split-join, strip, strip_clean, true,
  value_error, ℕ, ◌++◌, ◌∙◌, ◌∷◌, ◌≡◌, ◌⊎◌,
}
use ninai.CapabilityToken.{CapabilityToken, comma, elem_text, has_scope, scopes_allow, valid_scopes}
use ninai.CapabilityToken.Service.{NewToken, check_scopes, issue_token, issued}

-- A text of a list has what all texts of the list have.
all_of_elem :
    (p : Text → Bool) (s : Text) (ts : List Text)
    → elem_text s ts ≡ true
    → all p ts ≡ true
    → p s ≡ true
all_of_elem p s [] e h = cc
all_of_elem p s (t ∷ ts) e h = elim (Bool-cases (same_text t s)) [
  | inl same ↦ subst (λ u. p u ≡ true) (same_text-eq t s same) (ground arith)
  | inr other ↦ all_of_elem p s ts (ground arith) (ground arith)
]

-- Neither empty, nor with a comma or white space in it.
abbrev is_word : Text → Bool
is_word [] = false
is_word (c ∷ cs) = is_clean comma (c ∷ cs)

valid_word : (s : Text) → elem_text s valid_scopes ≡ true → is_word s ≡ true
unfolding is_space
valid_word s h = all_of_elem is_word s valid_scopes h refl

word_clean : (s : Text) → is_word s ≡ true → is_clean comma s ≡ true
word_clean [] h = refl
word_clean (c ∷ cs) h = h

words_clean : (ss : List Text) → all is_word ss ≡ true → all (is_clean comma) ss ≡ true
words_clean [] h = refl
words_clean (s ∷ ss) h = ground (arith, word_clean s, words_clean ss)

map-strip : (ss : List Text) → all (is_clean comma) ss ≡ true → map strip ss ≡ ss
map-strip [] h = refl
map-strip (s ∷ ss) h =
    let head : strip s ≡ s = strip_clean comma s (ground arith) in
    let rest : map strip ss ≡ ss = map-strip ss (ground arith) in rw head (rw rest refl)

-- A text that is not empty is split.
joined :
    (s : Text) (ss : List Text) (scope : Text)
    → is_word s ≡ true
    → scopes_allow (join comma (s ∷ ss)) scope
      ≡ elem_text scope (map strip (split comma (join comma (s ∷ ss))))
joined [] ss scope h = cc
joined (c ∷ cs) [] scope h = refl
joined (c ∷ cs) (t ∷ ts) scope h = refl

allowed_joined :
    (ss : List Text) (scope : Text)
    → all is_word ss ≡ true
    → scopes_allow (join comma ss) scope ≡ elem_text scope ss
allowed_joined [] scope h = refl
allowed_joined (s ∷ ss) scope h =
    let clean = words_clean (s ∷ ss) h in
    joined s ss scope (ground arith)
    ∙ ap (λ ts. elem_text scope (map strip ts)) (split-join comma s ss clean)
    ∙ ap (elem_text scope) (map-strip (s ∷ ss) clean)

-- What issue_token accepts.
check_scopes-cases :
    (ss : List Text)
    → ((check_scopes ss ≡ ok tt) × (all is_word ss ≡ true))
      ⊎ ((check_scopes ss ≡ raise value_error) × (all (λ s. elem_text s valid_scopes) ss ≡ false))
unfolding check_scopes
check_scopes-cases [] = inl (refl, refl)
check_scopes-cases (s ∷ ss) = elim (Bool-cases (elem_text s valid_scopes)) [
  | inl e ↦ elim (check_scopes-cases ss) [
    | inl h ↦ rw e (inl (h.0, rw (valid_word s e) h.1))
    | inr h ↦ rw e (inr (h.0, h.1))
  ]
  | inr e ↦ rw e (inr (refl, refl))
]

-- A token that is issued allows exactly the scopes that it was issued with, read back from the
-- comma-separated text; when one of the scopes is not valid, no token is issued.
pub issue_token-has_scope :
    (org_id : ℕ) (n : NewToken) (now : ℕ) (db : List CapabilityToken)
    → ((r : CapabilityToken × List CapabilityToken) × (issue_token org_id n now db ≡ ok r)
        × ((scope : Text) → has_scope r.0 scope ≡ elem_text scope n.scopes))
      ⊎ ((issue_token org_id n now db ≡ raise value_error)
          × (all (λ s. elem_text s valid_scopes) n.scopes ≡ false))
unfolding issue_token has_scope issued
issue_token-has_scope org_id n now db = elim (check_scopes-cases n.scopes) [
  | inl h ↦ inl (
    (issued org_id n now, db ++ issued org_id n now ∷ []),
    rw h.0 refl,
    λ scope. allowed_joined n.scopes scope h.1,
  )
  | inr h ↦ inr (rw h.0 refl, h.1)
]
