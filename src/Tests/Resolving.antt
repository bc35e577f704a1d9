-- ===== src/Tests/Resolving.antt =====
-- The addresses of a concrete host.
use automation_portfolio.Prelude.{refl, true, false, Option, none, some, List, [], ◌∷◌}
use automation_portfolio.Prelude.{if◌then◌else◌}
use automation_portfolio.Prelude.Text.{Text, codes, text_eq}
use automation_portfolio.Net.{v4, Net}
use automation_portfolio.Net.Resolve.{resolve_public_addresses}
use automation_portfolio.Net.Resolve.Laws.{IsResolved, resolve_public_addresses-IsResolved}
use automation_portfolio.Tests.Samples.{one_url}

abbrev public_ip : Text
public_ip = codes "93.184.215.14"

-- A network with one address.
abbrev one_address : Net
one_address = record one_url {
  ip_address = λ text.
      if text_eq text public_ip
      then some (
          v4 (record {
            compressed = public_ip;
            is_private = false;
            is_loopback = false;
            is_link_local = false;
            is_multicast = false;
            is_unspecified = false;
            is_reserved = false;
            is_global = true;
          }))
      else none;
}

abbrev answers : List (Option Text)
answers = some public_ip ∷ none ∷ some public_ip ∷ []

resolve_public_addresses-IsResolved_example :
    IsResolved one_address (λ _. some answers) (codes "a.org") (public_ip ∷ [])
unfolding resolve_public_addresses
resolve_public_addresses-IsResolved_example =
    resolve_public_addresses-IsResolved one_address (λ a b. true) (λ _. some answers)
      (codes "a.org") (public_ip ∷ []) refl
