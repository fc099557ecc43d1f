-- ===== src/Tests/Subscriptions.antt =====
-- Runs of crates/vesc-mcp-core/src/resources/subscriptions.rs.
use vesc_mcp.Prelude.{◌≡◌, refl, true, List, [], ◌∷◌, not, strictly_sorted}
use vesc_mcp.Text.{Text, codes, text_eq, text_cmp}
use vesc_mcp.Knowledge.Investigation.Audit.{sort, insert_sorted}
use vesc_mcp.Resources.Subscriptions.{
  contains, without, new_subscriptions, subscribe, unsubscribe, is_subscribed, subscribed_uris,
  Request, serve, is_wanted,
}
use vesc_mcp.Resources.Subscriptions.Served.{serve-subscribed_uris}

abbrev abi : Text
abi = codes "vesc://catalog/abi/minimal-test-package"

abbrev manifest : Text
manifest = codes "vescpkg://fixture/refloat-minimal/manifest"

-- The latest request first.
abbrev requests : List Request
requests =
    Request.subscribing abi
    ∷ Request.unsubscribing abi
    ∷ Request.subscribing manifest
    ∷ Request.subscribing abi
    ∷ []

uris_test : subscribed_uris (serve requests) ≡ abi ∷ manifest ∷ []
unfolding subscribed_uris serve subscribe unsubscribe new_subscriptions without sort insert_sorted
    text_cmp text_eq
uris_test = refl

serve-subscribed_uris_example :
    let self = serve requests in
    (strictly_sorted text_cmp (subscribed_uris self) ≡ true)
    × ((uri : Text)
        → (contains uri (subscribed_uris self) ≡ is_wanted uri requests)
          × (is_subscribed uri self ≡ is_wanted uri requests)
          × ((subscribe uri self).0 ≡ not (is_wanted uri requests))
          × ((unsubscribe uri self).0 ≡ is_wanted uri requests))
serve-subscribed_uris_example = serve-subscribed_uris requests
