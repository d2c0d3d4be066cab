-- ===== src/Cognition/Redaction.antt =====
-- What `_summarize_payload` (backend/app/services/cognitive_tooling/tool_invoker.py) keeps of a
-- payload.
use ninai.Base.{
  Bool-cases, List, Text, [], any, ap, if◌then◌else◌, inl, inr, refl, same_text, sym, true, ◌∙◌,
  ◌∷◌, ◌≡◌, ◌⊎◌,
}
use ninai.Cognition.Invoker.{Environment, persisted, redact, redact_key, summarize}
use ninai.Cognition.Registry.{Payload}

module _ {V : Type 0} (mark : V) where
  redact_entry : List Text → Text × V → Text × V
  redact_entry [] e = e
  redact_entry (k ∷ ks) e = redact_entry ks (if same_text e.0 k then (e.0, mark) else e)

  redact-cons :
      (ks : List Text) (e : Text × V) (p : Payload V)
      → redact mark ks (e ∷ p) ≡ redact_entry ks e ∷ redact mark ks p
  unfolding redact redact_entry
  redact-cons [] e p = refl
  redact-cons (k ∷ ks) e p =
      redact-cons ks (if same_text e.0 k then (e.0, mark) else e) (redact_key mark k p)

  redact-nil : (ks : List Text) → redact mark ks [] ≡ []
  unfolding redact
  redact-nil [] = refl
  redact-nil (k ∷ ks) = redact-nil ks

  marked : (ks : List Text) (k : Text) → redact_entry ks (k, mark) ≡ (k, mark)
  unfolding redact_entry
  marked [] k = refl
  marked (j ∷ ks) k = elim (Bool-cases (same_text k j)) [
    | inl e ↦ rw e (marked ks k)
    | inr e ↦ rw e (marked ks k)
  ]

  hidden :
      (ks : List Text) (k : Text) (v : V)
      → any (λ j. same_text k j) ks ≡ true
      → redact_entry ks (k, v) ≡ (k, mark)
  unfolding redact_entry
  hidden [] k v = λ h. cc
  hidden (j ∷ ks) k v = elim (Bool-cases (same_text k j)) [
    | inl e ↦ rw e (λ h. marked ks k)
    | inr e ↦ rw e (λ h. hidden ks k v h)
  ]

  -- Two payloads with the same keys, whose values differ under the listed keys only.
  abbrev pub AgreeBeyond : List Text → Payload V → Payload V → Type 0
  AgreeBeyond ks [] [] = Unit
  AgreeBeyond ks [] ((k, v) ∷ q) = ⊥
  AgreeBeyond ks ((k, v) ∷ p) [] = ⊥
  AgreeBeyond ks ((k, v) ∷ p) ((j, w) ∷ q) =
      (k ≡ j) × ((v ≡ w) ⊎ (any (λ i. same_text k i) ks ≡ true)) × AgreeBeyond ks p q

  same_entry :
      (ks : List Text) (k j : Text) (v w : V)
      → k ≡ j
      → (v ≡ w) ⊎ (any (λ i. same_text k i) ks ≡ true)
      → redact_entry ks (k, v) ≡ redact_entry ks (j, w)
  same_entry ks k j v w e (inl h) = rw (e, h) refl
  same_entry ks k j v w e (inr h) =
      hidden ks k v h ∙ sym (hidden ks k w h) ∙ ap (λ x. redact_entry ks (x, w)) e

  redact-eq :
      (ks : List Text) (p q : Payload V) → AgreeBeyond ks p q → redact mark ks p ≡ redact mark ks q
  redact-eq ks [] [] h = refl
  redact-eq ks [] ((k, v) ∷ q) h = absurd h
  redact-eq ks ((k, v) ∷ p) [] h = absurd h
  redact-eq ks ((k, v) ∷ p) ((j, w) ∷ q) (e, d, r) =
      redact-cons ks (k, v) p
      ∙ ap (λ x. x ∷ redact mark ks p) (same_entry ks k j v w e d)
      ∙ ap (λ x. redact_entry ks (j, w) ∷ x) (redact-eq ks p q r)
      ∙ sym (redact-cons ks (j, w) q)

-- Where a tool lets its payload be kept in the log, what is kept does not depend on the values of
-- the redacted fields: payloads that differ in these only leave the same record.
pub summarize-eq :
    (env : Environment) (fields : List Text) (p q : Payload env.V)
    → AgreeBeyond env.redacted fields p q
    → summarize env p true fields ≡ summarize env q true fields
unfolding summarize
summarize-eq env fields p q h = ap (λ x. persisted x) (redact-eq env.redacted fields p q h)
