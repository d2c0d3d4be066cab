-- ===== src/CapabilityToken/Tests.antt =====
-- Runs of the token service, and the theorems at concrete inputs.
use ninai.Base.{
  List, Text, [], all, false, is_space, none, ok, raise, refl, some, true, value_error, ℕ, ◌==◌,
  ◌∷◌, ◌≡◌, ◌⊎◌,
}
use ninai.CapabilityToken.{
  CapabilityToken, elem_text, has_scope, if_usable, is_usable, valid_scopes, validate_token,
}
use ninai.CapabilityToken.Lifecycle.{revoked_never_validates}
use ninai.CapabilityToken.Revocation.{Passes, validate_token-Passes}
use ninai.CapabilityToken.Scopes.{issue_token-has_scope}
use ninai.CapabilityToken.Service.{
  NewToken, check_scopes, get_token, issue_token, issued, issuing, revoke_token, revoked, run,
  serve,
}

abbrev reading : Text
reading = 114 ∷ 101 ∷ 97 ∷ 100 ∷ []

abbrev searching : Text
searching = 115 ∷ 101 ∷ 97 ∷ 114 ∷ 99 ∷ 104 ∷ []

abbrev for_agent : ℕ → ℕ → NewToken
for_agent id value = record {
  id = id;
  token = value;
  scopes = reading ∷ searching ∷ [];
  session_id = none;
  ttl_seconds = 60;
  max_tokens_per_month = some 500;
  max_storage_bytes = none;
  max_requests_per_minute = some 0;
}

-- The table after one token was issued, and after it was revoked.
abbrev one_token : List CapabilityToken
one_token = issued 1 (for_agent 10 777) 0 ∷ []

abbrev one_revoked : List CapabilityToken
one_revoked = revoked reading 5 (issued 1 (for_agent 10 777) 0) ∷ []

issue_reads_back : has_scope (issued 1 (for_agent 10 777) 0) searching ≡ true
unfolding has_scope issued is_space
issue_reads_back = refl

issue_token-has_scope_example :
    ((r : CapabilityToken × List CapabilityToken) × (issue_token 1 (for_agent 10 777) 0 [] ≡ ok r)
      × ((scope : Text) → has_scope r.0 scope ≡ elem_text scope (reading ∷ searching ∷ [])))
    ⊎ ((issue_token 1 (for_agent 10 777) 0 [] ≡ raise value_error)
        × (all (λ s. elem_text s valid_scopes) (reading ∷ searching ∷ []) ≡ false))
issue_token-has_scope_example = issue_token-has_scope 1 (for_agent 10 777) 0 []

validate_token-Passes_example : Passes 777 9 (issued 1 (for_agent 10 777) 0)
unfolding validate_token issued is_usable if_usable
validate_token-Passes_example =
    validate_token-Passes 777 9 one_token (issued 1 (for_agent 10 777) 0) refl

-- After the revocation another token is issued and validated.
revoked_never_validates_example : (20 == 10) ≡ false
unfolding revoke_token get_token issued revoked run serve issue_token check_scopes validate_token
    is_usable if_usable
revoked_never_validates_example =
    revoked_never_validates 1 10 reading 5 one_token
      (revoked reading 5 (issued 1 (for_agent 10 777) 0), one_revoked) refl
      (issuing 1 (for_agent 20 888) 6 ∷ []) (refl, tt) 888 9 (issued 1 (for_agent 20 888) 6) refl
