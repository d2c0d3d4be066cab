-- ===== src/Permissions/Segments.antt =====
-- `check_permission` against a reading of permissions by their segments.
use ninai.Base.{
  ==_iff, ==_refl, Bool, Bool-cases, List, Option, Text, [], all, ap, arith, false, inl, inr, join,
  not, onto_first, refl, same_text, split, sym, true, ℕ, ◌++◌, ◌==◌, ◌||◌, ◌↔◌, ◌∙◌, ◌∷◌, ◌≡◌,
}
use ninai.Permissions.{
  Database, Redis, all_of_admin, all_of_all, check_permission, colon, decision_on,
  get_effective_permissions, has_wildcard, holds, star,
}

abbrev pub free_of : ℕ → Text → Bool
free_of sep s = all (λ c. not (c == sep)) s

pub same_text_refl : (s : Text) → same_text s s ≡ true
same_text_refl [] = refl
same_text_refl (c ∷ cs) = ground (arith, same_text_refl cs, ==_refl c)

pub split_free : (sep : ℕ) (s : Text) → free_of sep s ≡ true → split sep s ≡ s ∷ []
split_free sep [] h = refl
split_free sep (c ∷ cs) h = ground (arith, split_free sep cs)

pub split_at :
    (sep : ℕ) (s t : Text) → free_of sep s ≡ true → split sep (s ++ sep ∷ t) ≡ s ∷ split sep t
split_at sep [] t h = ground (arith, ==_refl sep)
split_at sep (c ∷ cs) t h = ground (arith, split_at sep cs t)

onto_first-free :
    (sep c : ℕ) (ss : List Text)
    → (c == sep) ≡ false
    → all (free_of sep) ss ≡ true
    → all (free_of sep) (onto_first c ss) ≡ true
onto_first-free sep c [] e h = ground arith
onto_first-free sep c (s ∷ ss) e h = ground arith

split-free : (sep : ℕ) (s : Text) → all (free_of sep) (split sep s) ≡ true
split-free sep [] = refl
split-free sep (c ∷ cs) = elim (Bool-cases (c == sep)) [
  | inl e ↦ rw e (split-free sep cs)
  | inr e ↦ rw e (onto_first-free sep c (split sep cs) e (split-free sep cs))
]

join-onto_first : (sep c : ℕ) (ss : List Text) → join sep (onto_first c ss) ≡ c ∷ join sep ss
join-onto_first sep c [] = refl
join-onto_first sep c (s ∷ []) = refl
join-onto_first sep c (s ∷ t ∷ ts) = refl

join_empty_first : (sep : ℕ) (s : Text) → join sep ([] ∷ split sep s) ≡ sep ∷ join sep (split sep s)
join_empty_first sep [] = refl
join_empty_first sep (c ∷ cs) = elim (Bool-cases (c == sep)) [
  | inl e ↦ rw e refl
  | inr e ↦ rw e (nonempty sep c (split sep cs))
]
  where
    nonempty :
        (sep c : ℕ) (ss : List Text)
        → join sep ([] ∷ onto_first c ss) ≡ sep ∷ join sep (onto_first c ss)
    nonempty sep c [] = refl
    nonempty sep c (s ∷ ss) = refl

-- Joining undoes splitting, for every text.
pub join-split : (sep : ℕ) (s : Text) → join sep (split sep s) ≡ s
join-split sep [] = refl
join-split sep (c ∷ cs) = elim (Bool-cases (c == sep)) [
  | inl e ↦ rw e (
      join_empty_first sep cs
      ∙ ap (λ r. sep ∷ r) (join-split sep cs)
      ∙ ap (λ x. x ∷ cs) (sym ((==_iff c sep).0 e)))
  | inr e ↦ rw e (join-onto_first sep c (split sep cs) ∙ ap (λ r. c ∷ r) (join-split sep cs))
]

-- A granted permission covers a wanted one, segment by segment.
pub data Covers (granted wanted : List Text) : Type 0 where
  exact : granted ≡ wanted → Covers granted wanted
  resource :
      (a b : Text) (bs : List Text)
      → granted ≡ a ∷ star ∷ []
      → wanted ≡ a ∷ b ∷ bs
      → Covers granted wanted
  action :
      (a b c : Text) (cs : List Text)
      → granted ≡ a ∷ b ∷ star ∷ []
      → wanted ≡ a ∷ b ∷ c ∷ cs
      → Covers granted wanted
  everything : granted ≡ star ∷ star ∷ [] → Covers granted wanted
  all_admin : granted ≡ split colon all_of_admin → Covers granted wanted

abbrev CoveredBy : List Text → List Text → Type 0
CoveredBy permissions wanted =
    (g : Text) × (holds permissions g ≡ true) × Covers (split colon g) wanted

abbrev resource_wildcard : Text → Text
resource_wildcard a = a ++ colon ∷ star

abbrev action_wildcard : Text → Text → Text
action_wildcard a b = a ++ colon ∷ (b ++ colon ∷ star)

has_wildcard_sound :
    (permissions ss : List Text)
    → all (free_of colon) ss ≡ true
    → has_wildcard permissions ss ≡ true
    → CoveredBy permissions ss
has_wildcard_sound ps [] f h = cc
has_wildcard_sound ps (a ∷ []) f h = cc
has_wildcard_sound ps (a ∷ b ∷ []) f h =
    (resource_wildcard a, h, Covers.resource a b [] (split_at colon a star (ground arith)) refl)
has_wildcard_sound ps (a ∷ b ∷ c ∷ cs) f h = elim (Bool-cases (holds ps (resource_wildcard a))) [
  | inl e ↦ (
    resource_wildcard a,
    e,
    Covers.resource a b (c ∷ cs) (split_at colon a star (ground arith)) refl,
  )
  | inr e ↦ (
    action_wildcard a b,
    ground arith,
    Covers.action a b c cs
        (split_at colon a (b ++ colon ∷ star) (ground arith)
          ∙ ap (λ r. a ∷ r) (split_at colon b star (ground arith)))
        refl,
  )
]

text_of_segments : (g : Text) (ss : List Text) → split colon g ≡ ss → g ≡ join colon ss
text_of_segments g ss e = sym (join-split colon g) ∙ ap (λ r. join colon r) e

holds_of_eq : (ps : List Text) (g h : Text) → g ≡ h → holds ps g ≡ true → holds ps h ≡ true
holds_of_eq ps g h e k = rw (← e) k

allowed_exact : (ps : List Text) (p : Text) → holds ps p ≡ true → (decision_on ps p).allowed ≡ true
unfolding decision_on
allowed_exact ps p h = rw h refl

allowed_wildcard :
    (ps : List Text) (p : Text)
    → has_wildcard ps (split colon p) ≡ true
    → (decision_on ps p).allowed ≡ true
unfolding decision_on
allowed_wildcard ps p h = elim (Bool-cases (holds ps p)) [
  | inl e ↦ rw e refl
  | inr e ↦ rw e (rw h refl)
]

allowed_admin :
    (ps : List Text) (p : Text)
    → (holds ps all_of_all || holds ps all_of_admin) ≡ true
    → (decision_on ps p).allowed ≡ true
unfolding decision_on
allowed_admin ps p h = elim (Bool-cases (holds ps p)) [
  | inl e ↦ rw e refl
  | inr e ↦ elim (Bool-cases (has_wildcard ps (split colon p))) [
    | inl w ↦ rw e (rw w refl)
    | inr w ↦ rw e (rw w (rw h refl))
  ]
]

has_resource :
    (ps : List Text) (a b : Text) (bs : List Text)
    → holds ps (resource_wildcard a) ≡ true
    → has_wildcard ps (a ∷ b ∷ bs) ≡ true
has_resource ps a b [] h = h
has_resource ps a b (c ∷ cs) h = rw h refl

has_action :
    (ps : List Text) (a b c : Text) (cs : List Text)
    → holds ps (action_wildcard a b) ≡ true
    → has_wildcard ps (a ∷ b ∷ c ∷ cs) ≡ true
has_action ps a b c cs h = ground arith

allowed_if_covered :
    (ps : List Text) (p g : Text)
    → holds ps g ≡ true
    → Covers (split colon g) (split colon p)
    → (decision_on ps p).allowed ≡ true
allowed_if_covered ps p g h (Covers.exact e) =
    allowed_exact ps p
      (holds_of_eq ps g p (text_of_segments g (split colon p) e ∙ join-split colon p) h)
allowed_if_covered ps p g h (Covers.resource a b bs e w) = allowed_wildcard ps p (
    rw w
      (has_resource ps a b bs (holds_of_eq ps g (resource_wildcard a) (text_of_segments g _ e) h)))
allowed_if_covered ps p g h (Covers.action a b c cs e w) = allowed_wildcard ps p (
    rw w
      (has_action ps a b c cs (holds_of_eq ps g (action_wildcard a b) (text_of_segments g _ e) h)))
allowed_if_covered ps p g h (Covers.everything e) =
    allowed_admin ps p (rw (holds_of_eq ps g all_of_all (text_of_segments g _ e) h) refl)
allowed_if_covered ps p g h (Covers.all_admin e) =
    let k : holds ps all_of_admin ≡ true =
      holds_of_eq ps g all_of_admin (text_of_segments g _ e) h in
    allowed_admin ps p (ground arith)

covered_if_allowed :
    (ps : List Text) (p : Text) → (decision_on ps p).allowed ≡ true → CoveredBy ps (split colon p)
unfolding decision_on
covered_if_allowed ps p = elim (Bool-cases (holds ps p)) [
  | inl e ↦ λ _. (p, e, Covers.exact refl)
  | inr e ↦ rw e (elim (Bool-cases (has_wildcard ps (split colon p))) [
    | inl w ↦ λ _. has_wildcard_sound ps (split colon p) (split-free colon p) w
    | inr w ↦ rw w (elim (Bool-cases (holds ps all_of_all)) [
      | inl x ↦ λ _. (all_of_all, x, Covers.everything refl)
      | inr x ↦ rw x (elim (Bool-cases (holds ps all_of_admin)) [
        | inl y ↦ λ _. (all_of_admin, y, Covers.all_admin refl)
        | inr y ↦ rw y (λ h. cc)
      ])
    ])
  ])
]

-- `check_permission` allows a permission exactly when one of the effective permissions covers it,
-- segment by segment: being equal to it, `a:*` for a permission `a:…`, `a:b:*` for a permission
-- `a:b:…`, `*:*`, or `admin:*`.
pub check_permission-Covers :
    (redis : Redis) (ttl : Option ℕ) (db : Database) (now : ℕ) (user_id org_id p : Text)
    (s : redis.State)
    → ((check_permission redis ttl db now user_id org_id p s).0.allowed ≡ true) ↔ (
        (g : Text) × (holds (get_effective_permissions redis ttl db now user_id org_id s).0 g
          ≡ true)
        × Covers (split colon g) (split colon p))
unfolding check_permission
check_permission-Covers redis ttl db now user_id org_id p s =
    let ps = (get_effective_permissions redis ttl db now user_id org_id s).0 in
    (covered_if_allowed ps p, λ (g, h, c). allowed_if_covered ps p g h c)
