-- ===== src/Base/Texts.antt =====
-- Strings as lists of code points: equality, and `split`, `strip` and `join` as Python has them.
use Prim.Native.Nat.{ℕ}
use mathlib.Core.Bool.{Bool, false, not, true, ◌&&◌, ◌||◌}
use mathlib.Core.List.{List, [], ◌++◌, ◌∷◌}
use mathlib.Core.Path.{ap, refl, ◌∙◌, ◌≡◌}
use native.Mathlib.Omega.{arith}
use ninai.Base.Rows.{all}
use ninai.Base.Tests.{==_refl, if◌then◌else◌, leb, ◌==◌}

abbrev pub Text : Type 0
Text = List ℕ

abbrev pub same_text : Text → Text → Bool
same_text [] [] = true
same_text [] (d ∷ ds) = false
same_text (c ∷ cs) [] = false
same_text (c ∷ cs) (d ∷ ds) = c == d && same_text cs ds

pub same_text-eq : (s t : Text) → same_text s t ≡ true → s ≡ t
same_text-eq [] [] h = refl
same_text-eq [] (d ∷ ds) h = cc
same_text-eq (c ∷ cs) [] h = cc
same_text-eq (c ∷ cs) (d ∷ ds) h =
    let heads : c ≡ d = ground arith in
    let tails : cs ≡ ds = same_text-eq cs ds (ground arith) in cc

-- `str.isspace` of one character.
unfoldable pub is_space : ℕ → Bool
is_space c =
    (leb 9 c && leb c 13)
    || ((leb 28 c && leb c 32)
        || (c == 133
            || (c == 160
                || (c == 5760
                    || ((leb 8192 c && leb c 8202)
                        || (c == 8232
                            || (c == 8233 || (c == 8239 || (c == 8287 || c == 12288)))))))))

abbrev pub lstrip : Text → Text
lstrip [] = []
lstrip (c ∷ cs) = let rest = lstrip cs in if is_space c then rest else c ∷ cs

abbrev pub unless_blank : Bool → ℕ → Text → Text
unless_blank blank c [] = if blank then [] else c ∷ []
unless_blank blank c (d ∷ ds) = c ∷ d ∷ ds

abbrev pub rstrip : Text → Text
rstrip [] = []
rstrip (c ∷ cs) = unless_blank (is_space c) c (rstrip cs)

abbrev pub strip : Text → Text
strip s = rstrip (lstrip s)

abbrev pub onto_first : ℕ → List Text → List Text
onto_first c [] = (c ∷ []) ∷ []
onto_first c (s ∷ ss) = (c ∷ s) ∷ ss

-- `text.split(sep)`
abbrev pub split : ℕ → Text → List Text
split sep [] = [] ∷ []
split sep (c ∷ cs) = let rest = split sep cs in if c == sep then [] ∷ rest else onto_first c rest

-- `sep.join(pieces)`
abbrev pub join : ℕ → List Text → Text
join sep [] = []
join sep (s ∷ []) = s
join sep (s ∷ t ∷ ts) = s ++ sep ∷ join sep (t ∷ ts)

-- A piece that survives being joined, split and stripped.
abbrev pub is_clean : ℕ → Text → Bool
is_clean sep s = all (λ c. not (c == sep) && not (is_space c)) s

unless_kept : (c : ℕ) (cs : Text) → unless_blank false c cs ≡ c ∷ cs
unless_kept c [] = refl
unless_kept c (d ∷ ds) = refl

rstrip_clean : (sep : ℕ) (s : Text) → is_clean sep s ≡ true → rstrip s ≡ s
rstrip_clean sep [] h = refl
rstrip_clean sep (c ∷ cs) h = ground (arith, rstrip_clean sep cs, unless_kept c cs)

pub strip_clean : (sep : ℕ) (s : Text) → is_clean sep s ≡ true → strip s ≡ s
strip_clean sep [] h = refl
strip_clean sep (c ∷ cs) h = ground (arith, rstrip_clean sep (c ∷ cs) h)

split_last : (sep : ℕ) (s : Text) → is_clean sep s ≡ true → split sep s ≡ s ∷ []
split_last sep [] h = refl
split_last sep (c ∷ cs) h = ground (arith, split_last sep cs)

split_first :
    (sep : ℕ) (s t : Text) → is_clean sep s ≡ true → split sep (s ++ sep ∷ t) ≡ s ∷ split sep t
split_first sep [] t h = ground (arith, ==_refl sep)
split_first sep (c ∷ cs) t h = ground (arith, split_first sep cs t)

-- Splitting undoes joining.
pub split-join :
    (sep : ℕ) (s : Text) (ss : List Text)
    → all (is_clean sep) (s ∷ ss) ≡ true
    → split sep (join sep (s ∷ ss)) ≡ s ∷ ss
split-join sep s [] h = split_last sep s (ground arith)
split-join sep s (t ∷ ts) h =
    split_first sep s (join sep (t ∷ ts)) (ground arith)
    ∙ ap (λ r. s ∷ r) (split-join sep t ts (ground arith))
