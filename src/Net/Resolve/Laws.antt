-- ===== src/Net/Resolve/Laws.antt =====
-- The addresses that `resolve_public_addresses` of app/infrastructure/feeds/dns.py gives are public.
use automation_portfolio.Prelude.{
  ◌≡◌, refl, sym, inl, inr, Bool, true, false, Option, none, some, List, [], ◌∷◌, arith,
  Option-cases, Bool-cases, All, is_nil,
}
use automation_portfolio.Prelude.Sort.{occurs, sort, insert, sort-All}
use automation_portfolio.Prelude.Text.{Text, text_eq}
use automation_portfolio.Prelude.Text.Laws.{text_eq→eq}
use automation_portfolio.Prelude.Result.{ok, >>=-eq-ok, ok-injective, raise_if, ◌>>=◌}
use automation_portfolio.Messages.{dns_error, feed_dns_result_empty}
use automation_portfolio.Net.{Address, Net}
use automation_portfolio.Net.Hosts.{normalize_hostname}
use automation_portfolio.Net.Policy.{ensure_public_ip, has_scope, is_not_public, tested_flags}
use automation_portfolio.Net.Resolve.{
  text_of, add_to_set, addresses_of, ensure_all_public, public_addresses, resolve_name,
  resolve_normalized, resolve_public_addresses,
}
use mathlib.Core.Path.{subst}

pub record IsPublic (net : Net) (text : Text) : Type 0 where
  pub address : Address
  pub parsed : net.ip_address text ≡ some address
  pub no_scope : has_scope address ≡ false
  pub public : is_not_public (tested_flags address) ≡ false

-- What is asked of an answer of the DNS: where it holds a text, this is that of a public address.
pub record IsPublicAnswer (net : Net) (answer : Option Text) : Type 0 where
  pub at :
      (text : Text)
      → answer ≡ some text
      → (address : Address) × (net.ip_address text ≡ some address) × IsPublic net (text_of address)

module _ (net : Net) where
  ensure_public_ip-IsPublic : (text : Text) → ensure_public_ip net text ≡ ok tt → IsPublic net text
  unfolding ensure_public_ip
  ensure_public_ip-IsPublic text h = elim (Option-cases (net.ip_address text)) [
    | inl e ↦ ground (arith, e)
    | inr (address, e) ↦ record {
      address = address;
      parsed = e;
      no_scope = ground (arith, e);
      public = ground (arith, e);
    }
  ]

  occurs-All :
      (P : Text → Type 0) (text : Text) (texts : List Text)
      → occurs text_eq text texts ≡ true
      → All P texts
      → P text
  unfolding occurs
  occurs-All P text [] h p = cc
  occurs-All P text (t ∷ texts) h p = elim (Bool-cases (text_eq text t)) [
    | inl e ↦ subst P (sym (text_eq→eq text t e)) p.0
    | inr e ↦ occurs-All P text texts (ground (arith, e)) p.1
  ]

  add_to_set-All :
      (P : Text → Type 0) (text : Text) (texts : List Text)
      → All P (add_to_set text texts)
      → P text × All P texts
  unfolding add_to_set
  add_to_set-All P text texts = elim (Bool-cases (occurs text_eq text texts)) [
    | inl e ↦ rw e (λ h. (occurs-All P text texts e h, h))
    | inr e ↦ rw e (λ h. h)
  ]

  ensure_all_public-All :
      (texts : List Text) → ensure_all_public net texts ≡ ok tt → All (IsPublic net) texts
  unfolding ensure_all_public
  ensure_all_public-All [] h = tt
  ensure_all_public-All (t ∷ texts) h =
      let (_, e, h₁) = >>=-eq-ok (ensure_public_ip net t) _ h in
      (ensure_public_ip-IsPublic t e, ensure_all_public-All texts h₁)

  addresses_of-All :
      (answers : List (Option Text)) (texts : List Text)
      → addresses_of net answers ≡ ok texts
      → All (IsPublic net) texts
      → All (IsPublicAnswer net) answers
  unfolding addresses_of
  addresses_of-All [] texts h p = tt
  addresses_of-All (none ∷ answers) texts h p =
      (record { at = λ text e. cc }, addresses_of-All answers texts h p)
  addresses_of-All (some text ∷ answers) texts h p = elim (Option-cases (net.ip_address text)) [
    | inl e ↦ ground (arith, e)
    | inr (address, e) ↦
        let parsed : (t : Text) → some text ≡ some t → net.ip_address t ≡ some address =
          λ t same. cc in
        let (rest, e₁, h₁) =
          >>=-eq-ok (addresses_of net answers) (λ rest. ok (add_to_set (text_of address) rest))
            (ground (arith, e)) in
        let (first, others) =
          add_to_set-All (IsPublic net) (text_of address) rest
            (subst (All (IsPublic net)) (sym (ok-injective h₁)) p) in
        (
          record { at = λ t same. (address, parsed t same, first) },
          addresses_of-All answers rest e₁ others,
        )
  ]

  ensure_public_ip-single :
      (text : Text) (texts : List Text)
      → (ensure_public_ip net text >>= λ _. ok (text ∷ [])) ≡ ok texts
      → (is_nil texts ≡ false) × All (IsPublic net) texts
  ensure_public_ip-single text texts h =
      let (_, e, h₁) = >>=-eq-ok (ensure_public_ip net text) (λ _. ok (text ∷ [])) h in
      subst (λ ts. (is_nil ts ≡ false) × All (IsPublic net) ts) (ok-injective h₁)
        (refl, (ensure_public_ip-IsPublic text e, tt))

-- What a host resolves to: the addresses are there and public, and if the host is a name, so is
-- every address that the DNS answered.
pub record IsResolved (net : Net) (getaddrinfo : Text → Option (List (Option Text)))
    (hostname : Text) (texts : List Text) : Type 0 where
  pub name : Text
  pub normal : normalize_hostname net hostname ≡ ok name
  pub found : is_nil texts ≡ false
  pub public : All (IsPublic net) texts
  pub answered :
      net.ip_address name ≡ none
      → (answers : List (Option Text)) × (getaddrinfo name ≡ some answers)
        × All (IsPublicAnswer net) answers

module _ (net : Net) (before : Text → Text → Bool) where
  insert-found : (t : Text) (ts : List Text) → is_nil (insert before t ts) ≡ false
  unfolding insert
  insert-found t [] = refl
  insert-found t (x ∷ xs) = elim (Bool-cases (before t x)) [ inl e ↦ rw e refl | inr e ↦ rw e refl ]

  sort-found : (texts : List Text) → is_nil texts ≡ false → is_nil (sort before texts) ≡ false
  unfolding sort
  sort-found [] h = h
  sort-found (t ∷ texts) h = insert-found t (sort before texts)

  public_addresses-All :
      (answers : List (Option Text)) (texts : List Text)
      → public_addresses net before answers ≡ ok texts
      → (is_nil texts ≡ false) × All (IsPublic net) texts × All (IsPublicAnswer net) answers
  unfolding public_addresses
  public_addresses-All answers texts h =
      let (set, e, h₁) = >>=-eq-ok (addresses_of net answers) _ h in
      let (_, some_there, h₂) =
        >>=-eq-ok (raise_if (is_nil set) (dns_error feed_dns_result_empty)) _ h₁ in
      let (_, checked, h₃) = >>=-eq-ok (ensure_all_public net set) (λ _. ok (sort before set)) h₂ in
      let all = ensure_all_public-All net set checked in
      let (found, public) : (is_nil texts ≡ false) × All (IsPublic net) texts =
        subst (λ ts. (is_nil ts ≡ false) × All (IsPublic net) ts) (ok-injective h₃)
          (sort-found set (ground (arith, some_there)), sort-All before (IsPublic net) set all) in
      (found, public, addresses_of-All net answers set e all)

module _ (net : Net) (before : Text → Text → Bool)
    (getaddrinfo : Text → Option (List (Option Text))) where
  resolve_normalized-IsResolved :
      (hostname name : Text) (texts : List Text) (literal : Option Address)
      → normalize_hostname net hostname ≡ ok name
      → net.ip_address name ≡ literal
      → resolve_normalized net before getaddrinfo name literal ≡ ok texts
      → IsResolved net getaddrinfo hostname texts
  unfolding resolve_normalized resolve_name
  resolve_normalized-IsResolved hostname name texts (some literal) normal is h =
      let (found, public) = ensure_public_ip-single net (text_of literal) texts h in
      record { name = name; normal = normal; found = found; public = public; answered = λ no. cc }
  resolve_normalized-IsResolved hostname name texts none normal is h =
      elim (Option-cases (getaddrinfo name)) [
        | inl e ↦ ground (arith, e)
        | inr (answers, e) ↦
            let (found, public, answered) =
              public_addresses-All net before answers texts (ground (arith, e)) in
            record {
              name = name;
              normal = normal;
              found = found;
              public = public;
              answered = λ no. (answers, e, answered);
            }
      ]

  -- The addresses that resolve_public_addresses gives for a host are at least one and all public,
  -- and where the normalized host is not itself an address, every address that the DNS answered
  -- for it is public.
  pub resolve_public_addresses-IsResolved :
      (hostname : Text) (texts : List Text)
      → resolve_public_addresses net before getaddrinfo hostname ≡ ok texts
      → IsResolved net getaddrinfo hostname texts
  unfolding resolve_public_addresses
  resolve_public_addresses-IsResolved hostname texts h =
      let (name, e, h₁) = >>=-eq-ok (normalize_hostname net hostname) _ h in
      resolve_normalized-IsResolved hostname name texts (net.ip_address name) e refl h₁
