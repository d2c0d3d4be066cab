-- ===== src/Permissions/Memory.antt =====
-- A server kept in a list, newest entry first, that the tests run against.
use ninai.Base.{
  ==_refl, Bool, Bool-cases, List, Option, Text, [], ap, arith, false, if◌then◌else◌, inl, inr, map,
  none, refl, same_text, same_text-eq, select, some, true, unexpired, ℕ, ◌&&◌, ◌++◌, ◌+◌, ◌==◌, ◌∙◌,
  ◌∷◌, ◌≡◌,
}
use ninai.Permissions.{Redis, is_literal, mem_text, star}

pub record Entry : Type 0 where
  pub key : Text
  pub value : List Text
  pub expires : Option ℕ

abbrev read : Text → ℕ → List Entry → Option (List Text)
read k now [] = none
read k now (e ∷ es) =
    let rest = read k now es in
    if same_text e.key k then (if unexpired e.expires now then some e.value else none) else rest

abbrev remove : List Text → List Entry → List Entry
remove ks [] = []
remove ks (e ∷ es) = let rest = remove ks es in if mem_text e.key ks then rest else e ∷ rest

abbrev glob : Text → Text → Bool
glob [] k = same_text [] k
glob (c ∷ []) [] = c == 42
glob (c ∷ []) (d ∷ ds) = if c == 42 then true else same_text (c ∷ []) (d ∷ ds)
glob (c ∷ p ∷ ps) [] = false
glob (c ∷ p ∷ ps) (d ∷ ds) = c == d && glob (p ∷ ps) ds

abbrev scan : Text → List Entry → List Text
scan p es = select (glob p) (map (λ e. e.key) es)

pub read-remove :
    (ks : List Text) (j : Text) (now : ℕ) (s : List Entry)
    → read j now (remove ks s) ≡ (if mem_text j ks then none else read j now s)
read-remove ks j now [] = ground arith
read-remove ks j now (e ∷ es) = elim (Bool-cases (same_text e.key j)) [
  | inl k ↦
      let same : mem_text e.key ks ≡ mem_text j ks =
        ap (λ x. mem_text x ks) (same_text-eq e.key j k) in
      rw (same, k)
        (elim (Bool-cases (mem_text j ks)) [
          | inl m ↦ rw m (read-remove ks j now es ∙ rw m refl)
          | inr m ↦ rw m (rw k refl)
        ])
  | inr k ↦ rw k (elim (Bool-cases (mem_text e.key ks)) [
    | inl m ↦ rw m (read-remove ks j now es)
    | inr m ↦ rw m (rw k (read-remove ks j now es))
  ])
]

glob_prefix : (prefix rest : Text) → glob (prefix ++ star) (prefix ++ rest) ≡ true
glob_prefix [] [] = refl
glob_prefix [] (d ∷ ds) = refl
glob_prefix (c ∷ []) rest = ground (arith, ==_refl c, glob_prefix [] rest)
glob_prefix (c ∷ d ∷ ds) rest = ground (arith, ==_refl c, glob_prefix (d ∷ ds) rest)

scan-mem :
    (p k : Text) (now : ℕ) (s : List Entry) (v : List Text)
    → glob p k ≡ true
    → read k now s ≡ some v
    → mem_text k (scan p s) ≡ true
scan-mem p k now [] v g = λ e. cc
scan-mem p k now (x ∷ s) v g = elim (Bool-cases (same_text x.key k)) [
  | inl e ↦
      let fits : glob p x.key ≡ true = ap (λ y. glob p y) (same_text-eq x.key k e) ∙ g in
      λ h. rw fits (rw e refl)
  | inr e ↦ rw e (λ h. elim (Bool-cases (glob p x.key)) [
    | inl f ↦ rw f (rw e (scan-mem p k now s v g h))
    | inr f ↦ rw f (scan-mem p k now s v g h)
  ])
]

pub scan-mem_prefix :
    (prefix rest : Text) (now : ℕ) (s : List Entry) (v : List Text)
    → is_literal prefix ≡ true
    → read (prefix ++ rest) now s ≡ some v
    → mem_text (prefix ++ rest) (scan (prefix ++ star) s) ≡ true
scan-mem_prefix prefix rest now s v literal =
    scan-mem (prefix ++ star) (prefix ++ rest) now s v (glob_prefix prefix rest)

abbrev pub memory : Redis
memory = record {
  State = List Entry;
  Value = List Text;
  get = read;
  set = λ k v s. record { key = k; value = v; expires = none } ∷ s;
  setex = λ k ttl v now s. record { key = k; value = v; expires = some (now + ttl) } ∷ s;
  delete = remove;
  scan_iter = scan;
  falsy = λ v. false;
  dumps = λ l. l;
  loads = λ l. l;
  dumps_lem = λ l. refl;
  loads-dumps = λ l. refl;
  get-set = λ k j v now s. refl;
  get-setex = λ k j ttl v now later s le. refl;
  get-delete = read-remove;
  scan_iter_lem = scan-mem_prefix;
}
