-- ===== src/Resources/Subscriptions.antt =====
-- crates/vesc-mcp-core/src/resources/subscriptions.rs: the URIs that clients are subscribed to.
-- The operations hold the lock of the set from start to end, so they run one after the other, and the
-- set is a list whose order only `subscribed_uris` shows. A poisoned lock is not modelled: no
-- operation panics while it holds the lock.
use vesc_mcp.Prelude.{Bool, true, false, not, ◌&&◌, ◌||◌, List, [], ◌∷◌, any, if◌then◌else◌}
use vesc_mcp.Text.{Text, text_eq, text_cmp}
use vesc_mcp.Knowledge.Investigation.Audit.{sort}
pub mod Served

pub record ResourceSubscriptions : Type 0 where
  pub uris : List Text

abbrev pub contains : Text → List Text → Bool
contains uri [] = false
contains uri (u ∷ us) = text_eq u uri || contains uri us

unfoldable pub without : Text → List Text → List Text
without uri [] = []
without uri (u ∷ us) = let rest = without uri us in if text_eq u uri then rest else u ∷ rest

unfoldable pub new_subscriptions : ResourceSubscriptions
new_subscriptions = record { uris = [] }

unfoldable pub subscribe : Text → ResourceSubscriptions → Bool × ResourceSubscriptions
subscribe uri self =
    if contains uri self.uris then (false, self) else (true, record { uris = uri ∷ self.uris })

unfoldable pub unsubscribe : Text → ResourceSubscriptions → Bool × ResourceSubscriptions
unsubscribe uri self = (contains uri self.uris, record { uris = without uri self.uris })

unfoldable pub is_subscribed : Text → ResourceSubscriptions → Bool
is_subscribed uri self = contains uri self.uris

unfoldable pub subscribed_uris : ResourceSubscriptions → List Text
subscribed_uris self = sort text_cmp self.uris

-- `resources/subscribe` and `resources/unsubscribe`
pub data Request : Type 0 where
  subscribing unsubscribing : Text → Request

abbrev pub handle : Request → ResourceSubscriptions → Bool × ResourceSubscriptions
handle (Request.subscribing uri) = subscribe uri
handle (Request.unsubscribing uri) = unsubscribe uri

-- The state after some requests, the latest of them first.
unfoldable pub serve : List Request → ResourceSubscriptions
serve [] = new_subscriptions
serve (request ∷ requests) = (handle request (serve requests)).1

-- The latest request for the URI is a subscription.
abbrev pub is_wanted : Text → List Request → Bool
is_wanted uri [] = false
is_wanted uri (Request.subscribing u ∷ requests) = text_eq u uri || is_wanted uri requests
is_wanted uri (Request.unsubscribing u ∷ requests) = not (text_eq u uri) && is_wanted uri requests
