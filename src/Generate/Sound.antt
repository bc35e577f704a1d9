-- ===== src/Generate/Sound.antt =====
-- What `validate_model_output` lets through.
use automation_portfolio.Prelude.{
  ℕ, suc, ◌≤◌, ◌≡◌, refl, sym, ◌∙◌, ap, Bool, true, false, not, ◌&&◌, arith, Option, none, some,
  List, [], ◌∷◌, ◌++◌, length, any, is_nil, leb, if◌then◌else◌,
}
use mathlib.Core.Path.{subst}
use mathlib.Core.List.{append_assoc, append-nil}
use automation_portfolio.Prelude.Text.{Text, codes, strip, text_eq}
use automation_portfolio.Prelude.Int.{pos, leb_ℤ}
use automation_portfolio.Prelude.Decimal.{is_within}
use automation_portfolio.Prelude.Result.{
  Result, ok, raise_if, ◌>>=◌, >>=-eq-ok, ok-injective, raise-ne-ok,
}
use automation_portfolio.Messages.{
  Issue, unknown_candidate, duplicate_candidate, value_error, item_position_invalid,
  item_relevance_invalid, post_validation_error, item_count_issue, summary_length_issue,
  summary_markup_issue,
}
use automation_portfolio.Enums.{NewsItemStatus, tag_value, digest_tags}
use automation_portfolio.Validators.{ensure_non_negative_int, normalize_bounded_string}
use automation_portfolio.Net.{Net}
use automation_portfolio.News.{NewsItem}
use automation_portfolio.Digest.{DigestItem, item_post_init, find_tag}
use automation_portfolio.Generate.Output.{DigestModelItem, DigestModelOutput, CandidateContext}
use automation_portfolio.Generate.Markup.{issue_if, summary_clean, has_markup}
use automation_portfolio.Generate.Markup.Clean.{IsClean, has_markup-IsClean}
use automation_portfolio.Generate.Validate.{
  Progress, status_issues, get_context, duplicate_issues, add_item, check_item, check_items,
  validate_model_output,
}

item_post_init-keeps :
    (net : Net) (i : DigestItem) {j : DigestItem}
    → item_post_init net i ≡ ok j
    → (j.position ≡ i.position) × (j.news_item_id ≡ i.news_item_id)
unfolding item_post_init
item_post_init-keeps net i h =
    let (_, _, h₁) = >>=-eq-ok (ensure_non_negative_int i.position) _ h in
    let (_, _, h₂) =
      >>=-eq-ok
        (raise_if (not (leb_ℤ (pos 1) i.position && leb_ℤ i.position (pos 7)))
          (value_error item_position_invalid))
        _ h₁ in
    let (_, _, h₃) = >>=-eq-ok (normalize_bounded_string i.summary 80 280) _ h₂ in
    let (_, _, h₄) = >>=-eq-ok (find_tag (net.upper (strip i.tag)) digest_tags) _ h₃ in
    let (_, _, h₅) = >>=-eq-ok (normalize_bounded_string i.selection_reason 1 300) _ h₄ in
    let (_, _, h₆) =
      >>=-eq-ok
        (raise_if (not (is_within 1 i.relevance_score)) (value_error item_relevance_invalid)) _
        h₅ in
    (ap (λ x. x.position) (sym (ok-injective h₆)), ap (λ x. x.news_item_id) (sym (ok-injective h₆)))

append-empty {ℓ} : {A : Type ℓ} (xs ys : List A) → xs ++ ys ≡ [] → (xs ≡ []) × (ys ≡ [])
append-empty [] ys h = (refl, h)
append-empty (x ∷ xs) ys h = cc

status_issues-none :
    (id : Text) (status : NewsItemStatus)
    → status_issues id status ≡ []
    → status ≡ NewsItemStatus.candidate
unfolding status_issues
status_issues-none id NewsItemStatus.candidate h = refl
status_issues-none id _ h = cc

both-none :
    (a b : Bool) (x y : Issue) → issue_if a x ++ issue_if b y ≡ [] → (a ≡ false) × (b ≡ false)
both-none true b x y h = cc
both-none false true x y h = cc
both-none false false x y h = (refl, refl)

summary_clean-none :
    (s : Text) → summary_clean s ≡ [] → (80 ≤ length s) × (length s ≤ 280) × IsClean s
unfolding summary_clean
summary_clean-none s h =
    let in_range = leb 80 (length s) && leb (length s) 280 in
    let (fits, clean) =
      both-none (not in_range) (has_markup s) summary_length_issue summary_markup_issue h in
    (ground (arith, fits), ground (arith, fits), has_markup-IsClean s clean)

-- No id is one of those seen, or of an earlier item.
abbrev pub NoRepeat : List Text → List DigestModelItem → Type 0
NoRepeat seen [] = Unit
NoRepeat seen (i ∷ items) =
    (any (text_eq i.candidate_id) seen ≡ false) × NoRepeat (i.candidate_id ∷ seen) items

-- The item of the digest that the model's item became, at a position.
pub record Became {F : Type 0} (contexts : List (Text × CandidateContext F)) (position : ℕ)
    (o : DigestModelItem) (i : DigestItem) : Type 0 where
  pub context : CandidateContext F
  pub found : get_context o.candidate_id contexts ≡ some context
  pub is_candidate : context.news_item.status ≡ NewsItemStatus.candidate
  pub same_article : i.news_item_id ≡ context.news_item.id
  pub at_position : i.position ≡ pos position
  pub long_enough : 80 ≤ length o.summary
  pub short_enough : length o.summary ≤ 280
  pub clean : IsClean o.summary

abbrev pub AllBecame :
    {F : Type 0}
    → List (Text × CandidateContext F)
    → ℕ
    → List DigestModelItem
    → List DigestItem
    → Type 0
AllBecame contexts position [] [] = Unit
AllBecame contexts position [] (i ∷ items) = ⊥
AllBecame contexts position (o ∷ outputs) [] = ⊥
AllBecame contexts position (o ∷ outputs) (i ∷ items) =
    Became contexts position o i × AllBecame contexts (suc position) outputs items

if-empty :
    {A : Type 0} (errors : List Issue) (x y : Result A) {a : A}
    → (if is_nil errors then x else y) ≡ ok a
    → (y ≡ ok a → errors ≡ [])
    → (errors ≡ []) × (x ≡ ok a)
if-empty [] x y h k = (refl, h)
if-empty (i ∷ errors) x y h k = cc (k h)

-- Which branch was taken, if the other one ends with an error left.
if-nil :
    (p : Progress) (added : Result Progress) {q : Progress}
    → (if is_nil p.errors then added else ok p) ≡ ok q
    → q.errors ≡ []
    → (p.errors ≡ []) × (added ≡ ok q)
if-nil p added {q = q} h e =
    if-empty p.errors added (ok p) h (λ k. ap (λ x. x.errors) (ok-injective k) ∙ e)

duplicate_issues-none :
    (id : Text) (seen : List Text) → duplicate_issues id seen ≡ [] → any (text_eq id) seen ≡ false
duplicate_issues-none id seen h = none_of (any (text_eq id) seen) h
  where
    none_of : (test : Bool) → (if test then duplicate_candidate id ∷ [] else []) ≡ [] → test ≡ false
    none_of true h = cc
    none_of false h = refl

nil_of : (errors : List Issue) → is_nil errors ≡ true → errors ≡ []
nil_of [] h = refl
nil_of (i ∷ errors) h = cc

-- The end of the function.
passed :
    (test : Bool) (p : Progress) {items : List DigestItem}
    → (raise_if (not test) (post_validation_error p.errors) >>= λ _. ok p.digest_items) ≡ ok items
    → (test ≡ true) × (p.digest_items ≡ items)
passed true p h = (refl, ok-injective h)
passed false p h = absurd (raise-ne-ok h)

range_of :
    (low high count : ℕ)
    → (if leb low count && leb count high then [] else item_count_issue ∷ []) ≡ []
    → (low ≤ count) × (count ≤ high)
range_of low high count h = ground arith

module _ {F : Type 0} (net : Net) (contexts : List (Text × CandidateContext F)) where
  add_item_sound :
      (position : ℕ) (o : DigestModelItem) (news : NewsItem) (p : Progress) {q : Progress}
      → add_item net position o news p ≡ ok q
      → q.errors ≡ []
      → (p.errors ≡ [])
        × (q.seen ≡ p.seen)
        × (i : DigestItem) × (q.digest_items ≡ p.digest_items ++ (i ∷ []))
        × (i.position ≡ pos position)
        × (i.news_item_id ≡ news.id)
  unfolding add_item
  add_item_sound position o news p h e =
      let built = item_post_init net (record {
        news_item_id = news.id;
        position = pos position;
        summary = o.summary;
        tag = codes (tag_value o.tag);
        relevance_score = o.relevance_score;
        selection_reason = o.selection_reason;
      }) in
      let rest : DigestItem → Result Progress =
        λ i. ok (record p { digest_items = p.digest_items ++ (i ∷ []) }) in
      let (none_left, added) = if-nil p (built >>= rest) h e in
      let (i, e₁, e₂) = >>=-eq-ok built rest added in
      let (place, article) = item_post_init-keeps net _ e₁ in
      (
        none_left,
        ap (λ x. x.seen) (sym (ok-injective e₂)),
        i,
        ap (λ x. x.digest_items) (sym (ok-injective e₂)),
        place,
        article,
      )

  check_item_sound :
      (position : ℕ) (o : DigestModelItem) (c : Option (CandidateContext F)) (p : Progress)
      {q : Progress}
      → get_context o.candidate_id contexts ≡ c
      → check_item net position o c p ≡ ok q
      → q.errors ≡ []
      → (p.errors ≡ [])
        × (q.seen ≡ p.seen)
        × (i : DigestItem) × (q.digest_items ≡ p.digest_items ++ (i ∷ []))
        × Became contexts position o i
  unfolding check_item
  check_item_sound position o none p at h e =
      cc
        (append-empty p.errors (unknown_candidate o.candidate_id ∷ [])
          (ap (λ x. x.errors) (ok-injective h) ∙ e)).1
  check_item_sound position o (some context) p at h e =
      let news = context.news_item in
      let issues = status_issues o.candidate_id news.status ++ summary_clean o.summary in
      let (none_left, same, i, items, place, article) =
        add_item_sound position o news (record p { errors = p.errors ++ issues }) h e in
      let (before, here) = append-empty p.errors issues none_left in
      let (status, summary) =
        append-empty (status_issues o.candidate_id news.status) (summary_clean o.summary) here in
      let (long_enough, short_enough, clean) = summary_clean-none o.summary summary in
      (
        before,
        same,
        i,
        items,
        record {
          context = context;
          found = at;
          is_candidate = status_issues-none o.candidate_id news.status status;
          same_article = article;
          at_position = place;
          long_enough = long_enough;
          short_enough = short_enough;
          clean = clean;
        },
      )

  check_items_sound :
      (position : ℕ) (items : List DigestModelItem) (p : Progress) {q : Progress}
      → check_items net contexts position items p ≡ ok q
      → q.errors ≡ []
      → (p.errors ≡ [])
        × NoRepeat p.seen items
        × (built : List DigestItem) × (q.digest_items ≡ p.digest_items ++ built)
        × AllBecame contexts position items built
  unfolding check_items
  check_items_sound position [] p h e =
      let same = ok-injective h in
      (
        ap (λ x. x.errors) same ∙ e,
        tt,
        [],
        ap (λ x. x.digest_items) (sym same) ∙ sym (append-nil p.digest_items),
        tt,
      )
  check_items_sound position (o ∷ items) p h e =
      let id = o.candidate_id in
      let marked = record p {
        errors = p.errors ++ duplicate_issues id p.seen;
        seen = id ∷ p.seen;
      } in
      let (next, h₁, h₂) =
        >>=-eq-ok (check_item net position o (get_context id contexts) marked)
          (check_items net contexts (suc position) items) h in
      let (e₁, fresh, built, added, became) = check_items_sound (suc position) items next h₂ e in
      let (e₂, same, i, one, here) =
        check_item_sound position o (get_context id contexts) marked refl h₁ e₁ in
      let (before, unseen) = append-empty p.errors (duplicate_issues id p.seen) e₂ in
      (
        before,
        (duplicate_issues-none id p.seen unseen, subst (λ seen. NoRepeat seen items) same fresh),
        i ∷ built,
        added ∙ ap (λ x. x ++ built) one ∙ append_assoc p.digest_items (i ∷ []) built,
        (here, became),
      )

  -- What the checks let through.
  pub record IsSelection (output : DigestModelOutput) (low high : ℕ) (items : List DigestItem)
      : Type 0 where
    pub at_least : low ≤ length output.items
    pub at_most : length output.items ≤ high
    pub no_repeat : NoRepeat [] output.items
    pub became : AllBecame contexts 1 output.items items

  -- Of an answer of the model that validate_model_output lets through, the number of items is
  -- within the limits, no candidate id is repeated, and the item at each place of the answer
  -- became the item of the digest at that position, for the article of the context of its
  -- candidate id, which is a candidate; every summary of the answer has 80 to 280 characters, and
  -- no part of it is http://, https://, www., an angle bracket, one of b, i, u, code, pre and a in
  -- square brackets, with or without a slash before it, or telegram.me, in small letters or
  -- capitals.
  pub validate_model_output-IsSelection :
      (output : DigestModelOutput) (low high : ℕ) {items : List DigestItem}
      → validate_model_output net output contexts low high ≡ ok items
      → IsSelection output low high items
  unfolding validate_model_output
  validate_model_output-IsSelection output low high h =
      let count = length output.items in
      let in_range = leb low count && leb count high in
      let start : Progress = record {
        errors = if in_range then [] else item_count_issue ∷ [];
        seen = [];
        digest_items = [];
      } in
      let (p, h₁, h₂) = >>=-eq-ok (check_items net contexts 1 output.items start) _ h in
      let (e, done) = passed (is_nil p.errors) p h₂ in
      let (before, fresh, built, added, became) =
        check_items_sound 1 output.items start h₁ (nil_of p.errors e) in
      let range = range_of low high count before in
      record {
        at_least = range.0;
        at_most = range.1;
        no_repeat = fresh;
        became = subst (AllBecame contexts 1 output.items) (sym added ∙ done) became;
      }
