-- ===== src/Generate/Markup.antt =====
-- `_URL_OR_MARKUP` and `_summary_clean`.
pub mod Clean
use automation_portfolio.Prelude.{
  ℕ, ◌+◌, Bool, true, false, not, ◌&&◌, ◌||◌, List, [], ◌∷◌, ◌++◌, map, leb, ◌==◌, if◌then◌else◌,
  length, any,
}
use automation_portfolio.Prelude.Text.{Text, codes}
use automation_portfolio.Messages.{Issue, summary_length_issue, summary_markup_issue}

-- What `re.IGNORECASE` identifies with the letters of the expression.
abbrev pub fold_case : ℕ → ℕ
fold_case c =
    if leb b'A' c && leb c b'Z'
    then c + 32
    else if c == 0x130
    then b'i'
    else if c == 0x131
    then b'i'
    else if c == 0x17f
    then b's'
    else if c == 0x212a
    then b'k'
    else c

unfoldable pub has_prefix : Text → Text → Bool
has_prefix [] s = true
has_prefix (c ∷ p) [] = false
has_prefix (c ∷ p) (d ∷ s) = (c == d) && has_prefix p s

unfoldable pub contains_text : Text → Text → Bool
unfolding has_prefix
contains_text p [] = has_prefix p []
contains_text p (c ∷ s) = has_prefix p (c ∷ s) || contains_text p s

-- The alternatives of the expression, one by one.
abbrev pub patterns : List Text
patterns =
    codes "http://"
    ∷ codes "https://"
    ∷ codes "www."
    ∷ codes "<"
    ∷ codes ">"
    ∷ codes "[b]"
    ∷ codes "[/b]"
    ∷ codes "[i]"
    ∷ codes "[/i]"
    ∷ codes "[u]"
    ∷ codes "[/u]"
    ∷ codes "[code]"
    ∷ codes "[/code]"
    ∷ codes "[pre]"
    ∷ codes "[/pre]"
    ∷ codes "[a]"
    ∷ codes "[/a]"
    ∷ codes "telegram.me"
    ∷ []

unfoldable pub has_markup : Text → Bool
unfolding contains_text
has_markup s = let folded = map fold_case s in any (λ p. contains_text p folded) patterns

abbrev pub issue_if : Bool → Issue → List Issue
issue_if true issue = issue ∷ []
issue_if false issue = []

unfoldable pub summary_clean : Text → List Issue
unfolding has_markup
summary_clean summary =
    issue_if (not (leb 80 (length summary) && leb (length summary) 280)) summary_length_issue
    ++ issue_if (has_markup summary) summary_markup_issue
