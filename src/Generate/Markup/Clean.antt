-- ===== src/Generate/Markup/Clean.antt =====
-- What `_URL_OR_MARKUP` finds, as a description that does not go by the list of its alternatives.
use automation_portfolio.Prelude.{
  ℕ, ◌+◌, ◌≤◌, ◌≡◌, refl, ap, ◌∙◌, Bool, true, false, List, [], ◌∷◌, ◌++◌, map, any, inl, inr,
  arith, Bool-cases,
}
use mathlib.Core.Path.{subst}
use automation_portfolio.Prelude.Text.{Text, codes, text_eq}
use automation_portfolio.Prelude.Text.Laws.{text_eq→eq}
use automation_portfolio.Prelude.Sort.{occurs}
use automation_portfolio.Generate.Markup.{
  fold_case, has_prefix, contains_text, patterns, has_markup,
}

-- The tags of Telegram's markup.
pub data IsTag : Text → Type 0 where
  bold : IsTag (codes "b")
  italic : IsTag (codes "i")
  underlined : IsTag (codes "u")
  preformatted : IsTag (codes "pre")
  monospaced : IsTag (codes "code")
  anchor : IsTag (codes "a")

-- What must not stand in a summary: the beginning of a web address, an angle bracket, a tag in
-- brackets that opens or closes, and the domain of Telegram's links.
pub data IsForbidden : Text → Type 0 where
  http : IsForbidden (codes "http://")
  https : IsForbidden (codes "https://")
  www : IsForbidden (codes "www.")
  less_than : IsForbidden (codes "<")
  greater_than : IsForbidden (codes ">")
  opening : {tag : Text} → IsTag tag → IsForbidden (codes "[" ++ (tag ++ codes "]"))
  closing : {tag : Text} → IsTag tag → IsForbidden (codes "[/" ++ (tag ++ codes "]"))
  telegram : IsForbidden (codes "telegram.me")

-- `s` is the text `t` with some of its small letters written as capitals.
pub data InAnyCase : Text → Text → Type 0 where
  end : InAnyCase [] []
  as_is : {s t : Text} (c : ℕ) → InAnyCase s t → InAnyCase (c ∷ s) (c ∷ t)
  capital :
      {s t : Text} (c : ℕ) → b'A' ≤ c → c ≤ b'Z' → InAnyCase s t → InAnyCase (c ∷ s) ((c + 32) ∷ t)

-- No part of the text is a forbidden one.
abbrev pub IsClean : Text → Type 0
IsClean text =
    (before part after forbidden : Text)
    → IsForbidden forbidden
    → InAnyCase part forbidden
    → text ≡ before ++ (part ++ after)
    → ⊥

fold_capital : (c : ℕ) → b'A' ≤ c → c ≤ b'Z' → fold_case c ≡ c + 32
fold_capital c low high = ground arith

head_eq : {x y : ℕ} {s t : Text} → Path Text (x ∷ s) (y ∷ t) → x ≡ y
head_eq h = cc

tail_eq : {x y : ℕ} {s t : Text} → Path Text (x ∷ s) (y ∷ t) → s ≡ t
tail_eq h = cc

cons_eq : {x y : ℕ} {s t : Text} → x ≡ y → s ≡ t → Path Text (x ∷ s) (y ∷ t)
cons_eq h k = cc

map-InAnyCase : {s t : Text} → InAnyCase s t → map fold_case t ≡ t → map fold_case s ≡ t
map-InAnyCase end h = refl
map-InAnyCase (as_is c rest) h = cons_eq (head_eq h) (map-InAnyCase rest (tail_eq h))
map-InAnyCase (capital c low high rest) h =
    cons_eq (fold_capital c low high) (map-InAnyCase rest (tail_eq h))

-- Each of them is an alternative of the expression, in small letters.
IsForbidden-occurs :
    {p : Text} → IsForbidden p → (occurs text_eq p patterns ≡ true) × (map fold_case p ≡ p)
unfolding occurs text_eq
IsForbidden-occurs http = (refl, refl)
IsForbidden-occurs https = (refl, refl)
IsForbidden-occurs www = (refl, refl)
IsForbidden-occurs less_than = (refl, refl)
IsForbidden-occurs greater_than = (refl, refl)
IsForbidden-occurs (opening bold) = (refl, refl)
IsForbidden-occurs (opening italic) = (refl, refl)
IsForbidden-occurs (opening underlined) = (refl, refl)
IsForbidden-occurs (opening preformatted) = (refl, refl)
IsForbidden-occurs (opening monospaced) = (refl, refl)
IsForbidden-occurs (opening anchor) = (refl, refl)
IsForbidden-occurs (closing bold) = (refl, refl)
IsForbidden-occurs (closing italic) = (refl, refl)
IsForbidden-occurs (closing underlined) = (refl, refl)
IsForbidden-occurs (closing preformatted) = (refl, refl)
IsForbidden-occurs (closing monospaced) = (refl, refl)
IsForbidden-occurs (closing anchor) = (refl, refl)
IsForbidden-occurs telegram = (refl, refl)

has_prefix-append : (p s : Text) → has_prefix p (p ++ s) ≡ true
unfolding has_prefix
has_prefix-append [] s = refl
has_prefix-append (c ∷ p) s = ground (arith, has_prefix-append p s)

contains_text-prefix : (p s : Text) → has_prefix p s ≡ true → contains_text p s ≡ true
unfolding contains_text
contains_text-prefix p [] h = h
contains_text-prefix p (c ∷ s) h = rw h refl

contains_text-append : (before p after : Text) → contains_text p (before ++ (p ++ after)) ≡ true
unfolding contains_text
contains_text-append [] p after = contains_text-prefix p (p ++ after) (has_prefix-append p after)
contains_text-append (c ∷ before) p after = ground (arith, contains_text-append before p after)

any-occurs :
    (test : Text → Bool) (p : Text) (ps : List Text)
    → occurs text_eq p ps ≡ true
    → test p ≡ true
    → any test ps ≡ true
unfolding occurs
any-occurs test p [] h k = cc
any-occurs test p (q ∷ ps) h k = elim (Bool-cases (text_eq p q)) [
  | inl e ↦ ground (arith, subst (λ x. test x ≡ true) (text_eq→eq p q e) k)
  | inr e ↦ ground (arith, e, h, any-occurs test p ps (ground (arith, e, h)) k)
]

map-append : (s t : Text) → map fold_case (s ++ t) ≡ map fold_case s ++ map fold_case t
map-append [] t = refl
map-append (c ∷ s) t = ap (λ u. fold_case c ∷ u) (map-append s t)

map-split :
    (before part after p : Text)
    → map fold_case part ≡ p
    → map fold_case (before ++ (part ++ after)) ≡ map fold_case before ++ (p ++ map fold_case after)
map-split before part after p h =
    map-append before (part ++ after)
    ∙ ap (λ u. map fold_case before ++ u)
        (map-append part after ∙ ap (λ u. u ++ map fold_case after) h)

-- A text in which the expression finds nothing is clean.
pub has_markup-IsClean : (text : Text) → has_markup text ≡ false → IsClean text
unfolding has_markup
has_markup-IsClean text h before part after p forbidden case same =
    let (listed, small) = IsForbidden-occurs forbidden in
    let folded : map fold_case text ≡ map fold_case before ++ (p ++ map fold_case after) =
      ap (map fold_case) same ∙ map-split before part after p (map-InAnyCase case small) in
    let found : contains_text p (map fold_case text) ≡ true =
      rw folded (contains_text-append (map fold_case before) p (map fold_case after)) in
    let any_found =
      any-occurs (λ q. contains_text q (map fold_case text)) p patterns listed found in
    cc
