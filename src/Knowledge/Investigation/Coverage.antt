-- ===== src/Knowledge/Investigation/Coverage.antt =====
-- What the audit of crates/vesc-knowledge-index/src/investigation.rs finds, against the evidence.
use vesc_mcp.Prelude.{
  ◌≡◌, refl, ap, ◌∙◌, Bool, true, false, not, ◌&&◌, ◌||◌, List, [], ◌∷◌, ◌++◌, any, any-filter,
  any-append, Ordering, Bool-cases, inl, inr, arith,
}
use mathlib.Core.Path.{subst}
use vesc_mcp.Text.{Text, text_eq, text_cmp, text_eq_iff}
use vesc_mcp.Map.{Map, get, contains_key, values, get-insert}
use vesc_mcp.Knowledge.Investigation.{
  FacetRequirement, InvestigationContract, Evidence, repository_eq, stage_eq, matches,
}
use vesc_mcp.Knowledge.Investigation.Contract.{is_blank}
use vesc_mcp.Knowledge.Investigation.Audit.{
  insert_sorted, sort, dedup, push_entry, push_entries, repository_matches, stage_matches,
  era_matches, no_facet, sorted_ids, or_default,
}

-- The item is decisive, has a path, and matches a facet of the contract with this id.
unfoldable pub qualifies : InvestigationContract → Text → Evidence → Bool
qualifies c k item =
    item.decisive
    && not (is_blank item.path)
    && any
        (λ facet.
          repository_eq facet.repository item.repository
          && (stage_eq facet.stage item.stage
              && (matches facet.era item.revision && text_eq facet.id k)))
        (values c.facets)

module _ (p : Text → Bool) where
  any-insert_sorted :
      (cmp : Text → Text → Ordering) (a : Text) (bs : List Text)
      → any p (insert_sorted cmp a bs) ≡ (p a || any p bs)
  unfolding insert_sorted
  any-insert_sorted cmp a [] = refl
  any-insert_sorted cmp a (b ∷ bs) = ground (arith, any-insert_sorted cmp a bs)

  any-sort : (cmp : Text → Text → Ordering) (as' : List Text) → any p (sort cmp as') ≡ any p as'
  unfolding sort
  any-sort cmp [] = refl
  any-sort cmp (a ∷ as') =
      any-insert_sorted cmp a (sort cmp as') ∙ ap (λ b. p a || b) (any-sort cmp as')

  any-dedup : (as' : List Text) → any p (dedup as') ≡ any p as'
  unfolding dedup
  any-dedup [] = refl
  any-dedup (a ∷ []) = refl
  any-dedup (a ∷ b ∷ bs) =
      let same : text_eq a b ≡ true → p a ≡ p b = λ h. ap p ((text_eq_iff a b).0 h) in
      ground (arith, any-dedup (b ∷ bs), same)

  -- Some id under the key satisfies `p`.
  abbrev pub under : Text → Map (List Text) → Bool
  under k m = any p (or_default (get k m))

  under-push_entry :
      (k : Text) (m : Map (List Text)) (facet id : Text)
      → under k (push_entry m facet id) ≡ (under k m || (text_eq facet k && p id))
  unfolding push_entry
  under-push_entry k m facet id =
      ap (λ o. any p (or_default o)) (get-insert facet k _ m)
      ∙ elim (Bool-cases (text_eq facet k)) [
        | inl h ↦ rw h (
            subst (λ i. any p (or_default (get facet m) ++ id ∷ []) ≡ (under i m || p id))
              ((text_eq_iff facet k).0 h)
              (any-append p (or_default (get facet m)) (id ∷ []) ∙ ground arith))
        | inr h ↦ rw h (ground arith)
      ]

  pub under-push_entries :
      (k : Text) (m : Map (List Text)) (facets : List FacetRequirement) (id : Text)
      → under k (push_entries m facets id)
        ≡ (under k m || (any (λ facet. text_eq facet.id k) facets && p id))
  unfolding push_entries
  under-push_entries k m [] id = ground arith
  under-push_entries k m (facet ∷ facets) id =
      under-push_entries k (push_entry m facet.id id) facets id
      ∙ ground (arith, under-push_entry k m facet.id id)

  pub under-sorted_ids : (k : Text) (m : Map (List Text)) → under k (sorted_ids m) ≡ under k m
  unfolding get sorted_ids
  under-sorted_ids k [] = refl
  under-sorted_ids k ((j, ids) ∷ m) =
      ground (arith, under-sorted_ids k m, any-dedup (sort text_cmp ids), any-sort text_cmp ids)

pub contains_key-sorted_ids :
    (k : Text) (m : Map (List Text)) → contains_key k (sorted_ids m) ≡ contains_key k m
unfolding get sorted_ids contains_key
contains_key-sorted_ids k [] = refl
contains_key-sorted_ids k ((j, ids) ∷ m) = ground (arith, contains_key-sorted_ids k m)

contains_key-push_entry :
    (k : Text) (m : Map (List Text)) (facet id : Text)
    → contains_key k (push_entry m facet id) ≡ (contains_key k m || text_eq facet k)
unfolding push_entry contains_key
contains_key-push_entry k m facet id =
    ground (arith, get-insert facet k (or_default (get facet m) ++ id ∷ []) m)

pub contains_key-push_entries :
    (k : Text) (m : Map (List Text)) (facets : List FacetRequirement) (id : Text)
    → contains_key k (push_entries m facets id)
      ≡ (contains_key k m || any (λ facet. text_eq facet.id k) facets)
unfolding push_entries
contains_key-push_entries k m [] id = ground arith
contains_key-push_entries k m (facet ∷ facets) id =
    contains_key-push_entries k (push_entry m facet.id id) facets id
    ∙ ground (arith, contains_key-push_entry k m facet.id id)

-- The facets that an item matches are those of `qualifies`.
pub any-era_matches :
    (c : InvestigationContract) (item : Evidence) (k : Text)
    → (item.decisive
        && not (is_blank item.path)
        && any (λ facet. text_eq facet.id k) (era_matches c item))
      ≡ qualifies c k item
unfolding era_matches stage_matches repository_matches qualifies
any-era_matches c item k =
    ap (λ b. item.decisive && not (is_blank item.path) && b)
      (any-filter (λ facet. text_eq facet.id k) (λ facet. matches facet.era item.revision) _
        ∙ any-filter (λ facet. matches facet.era item.revision && text_eq facet.id k)
            (λ facet. stage_eq facet.stage item.stage) _
        ∙ any-filter _ (λ facet. repository_eq facet.repository item.repository) (values c.facets))

pub no_facet-any :
    (p : FacetRequirement → Bool) (fs : List FacetRequirement)
    → no_facet fs ≡ true
    → any p fs ≡ false
no_facet-any p [] h = refl
no_facet-any p (f ∷ fs) h = cc h
