-- ===== src/Resources/Subscriptions/Served.antt =====
-- What crates/vesc-mcp-core/src/resources/subscriptions.rs answers after any requests.
use vesc_mcp.Prelude.{
  ◌≡◌, refl, ap, ◌∙◌, Bool, true, false, not, ◌&&◌, ◌||◌, List, [], ◌∷◌, arith, strictly_sorted,
}
use vesc_mcp.Text.{Text, text_eq, text_eq_iff, text_cmp, text_cmp_iff, text_cmp-IsOrder}
use vesc_mcp.Knowledge.Investigation.Audit.{sort, insert_sorted}
use vesc_mcp.Resources.Subscriptions.{
  contains, without, new_subscriptions, subscribe, unsubscribe, is_subscribed, subscribed_uris,
  Request, serve, is_wanted,
}

contains-without :
    (u v : Text) (us : List Text) → contains v (without u us) ≡ not (text_eq u v) && contains v us
unfolding without
contains-without u v [] = ground arith
contains-without u v (w ∷ us) =
    ground (arith, contains-without u v us, text_eq_iff w u, text_eq_iff w v, text_eq_iff u v)

abbrev distinct : List Text → Bool
distinct [] = true
distinct (u ∷ us) = not (contains u us) && distinct us

distinct-without : (u : Text) (us : List Text) → distinct us ≡ true → distinct (without u us) ≡ true
unfolding without
distinct-without u [] h = refl
distinct-without u (w ∷ us) h = ground (arith, h, distinct-without u us, contains-without u w us)

contains-cong : (u v : Text) (us : List Text) → text_eq u v ≡ true → contains u us ≡ contains v us
contains-cong u v us same = ap (λ t. contains t us) ((text_eq_iff u v).0 same)

-- The state has exactly the wanted URIs, each once.
serve_lem :
    (requests : List Request)
    → (distinct (serve requests).uris ≡ true)
      × ((uri : Text) → contains uri (serve requests).uris ≡ is_wanted uri requests)
unfolding serve new_subscriptions subscribe unsubscribe
serve_lem [] = (refl, λ uri. refl)
serve_lem (Request.subscribing u ∷ requests) =
    let (once, wanted) = serve_lem requests in
    let us = (serve requests).uris in
    (ground (arith, once), λ uri. ground (arith, wanted uri, contains-cong u uri us))
serve_lem (Request.unsubscribing u ∷ requests) =
    let (once, wanted) = serve_lem requests in
    let us = (serve requests).uris in
    (
      distinct-without u us once,
      λ uri. contains-without u uri us ∙ ap (λ b. not (text_eq u uri) && b) (wanted uri),
    )

contains-insert_sorted :
    (u v : Text) (us : List Text)
    → contains v (insert_sorted text_cmp u us) ≡ text_eq u v || contains v us
unfolding insert_sorted
contains-insert_sorted u v [] = refl
contains-insert_sorted u v (w ∷ us) = ground (arith, contains-insert_sorted u v us)

contains-sort : (v : Text) (us : List Text) → contains v (sort text_cmp us) ≡ contains v us
unfolding sort
contains-sort v [] = refl
contains-sort v (u ∷ us) =
    contains-insert_sorted u v (sort text_cmp us) ∙ ap (λ b. text_eq u v || b) (contains-sort v us)

insert_sorted-strictly_sorted :
    (u : Text) (us : List Text)
    → strictly_sorted text_cmp us ≡ true
    → contains u us ≡ false
    → strictly_sorted text_cmp (insert_sorted text_cmp u us) ≡ true
unfolding insert_sorted
insert_sorted-strictly_sorted u [] h new = refl
insert_sorted-strictly_sorted u (w ∷ []) h new =
    ground (arith, new, text_eq_iff w u, text_cmp_iff w u, text_cmp-IsOrder.reversed u w)
insert_sorted-strictly_sorted u (w ∷ x ∷ us) h new = ground (
  arith,
  h,
  new,
  insert_sorted-strictly_sorted u (x ∷ us),
  text_eq_iff w u,
  text_cmp_iff w u,
  text_cmp-IsOrder.reversed u w,
)

sort-strictly_sorted :
    (us : List Text) → distinct us ≡ true → strictly_sorted text_cmp (sort text_cmp us) ≡ true
unfolding sort
sort-strictly_sorted [] h = refl
sort-strictly_sorted (u ∷ us) h =
    insert_sorted-strictly_sorted u (sort text_cmp us) (sort-strictly_sorted us (ground (arith, h)))
      (contains-sort u us ∙ ground (arith, h))

-- After any requests, the URIs are listed in strictly ascending order, so none of them twice; the
-- list has a URI, and `is_subscribed` finds it, when the latest request for it was a subscription;
-- and the next request is answered with whether it changes that.
pub serve-subscribed_uris :
    (requests : List Request)
    → let self = serve requests in
      (strictly_sorted text_cmp (subscribed_uris self) ≡ true)
      × ((uri : Text)
          → (contains uri (subscribed_uris self) ≡ is_wanted uri requests)
            × (is_subscribed uri self ≡ is_wanted uri requests)
            × ((subscribe uri self).0 ≡ not (is_wanted uri requests))
            × ((unsubscribe uri self).0 ≡ is_wanted uri requests))
unfolding subscribed_uris is_subscribed subscribe unsubscribe
serve-subscribed_uris requests =
    let (once, wanted) = serve_lem requests in
    let us = (serve requests).uris in
    (
      sort-strictly_sorted us once,
      λ uri.
          (contains-sort uri us ∙ wanted uri, wanted uri, ground (arith, wanted uri), wanted uri),
    )
