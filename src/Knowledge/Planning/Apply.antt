-- ===== src/Knowledge/Planning/Apply.antt =====
-- When `apply` of crates/vesc-knowledge-index/src/planning.rs accepts a proposal, and what it makes of the
-- contract.
use vesc_mcp.Prelude.{
  ◌≤◌, ◌≡◌, refl, ◌↔◌, Bool, true, false, not, ◌||◌, List, [], ◌∷◌, ◌==◌, ltb, any, All, map,
  length, Result, ok, err, map_err, guard, ◌>>=◌, ◌>>◌, arith,
}
use vesc_mcp.Text.{Text, is_control}
use vesc_mcp.Text.Utf8.{byte_len}
use vesc_mcp.Map.{values}
use vesc_mcp.Knowledge.Investigation.{InvestigationContract, PlannerExtension, contains}
use vesc_mcp.Knowledge.Investigation.Contract.{ContractError, extend, is_blank}
use vesc_mcp.Knowledge.Investigation.Extend.{IsExtension, extend_lem}
use vesc_mcp.Knowledge.Planning.{
  SearchQuery, PlannerProposal, CriticProposal, PlannerProposalError, contract_error, too_many,
  query_eq, is_bad_text, check_queries, apply, critic_apply, invalid_query, unknown_query_facet,
  invalid_schema, invalid_concern, planner_schema, max_additions, max_search_queries,
}

-- A text within the bounds: not blank, at most 256 bytes, no control character.
abbrev pub IsBoundedText : Text → Type 0
IsBoundedText t = (is_blank t ≡ false) × (byte_len t ≤ 256) × (any is_control t ≡ false)

is_bad_text_iff : (t : Text) → (is_bad_text t ≡ false) ↔ IsBoundedText t
unfolding is_bad_text
is_bad_text_iff t = ground arith

-- No query is made twice.
abbrev pub Distinct : List SearchQuery → Type 0
Distinct [] = Unit
Distinct (q ∷ qs) = All (λ r. query_eq r q ≡ false) qs × Distinct qs

abbrev pub AreQueries : List Text → List SearchQuery → Type 0
AreQueries known qs =
    All (λ q. (contains q.facet_id known ≡ true) × IsBoundedText q.query) qs × Distinct qs

-- None of the queries is among those before.
abbrev AreNew : List SearchQuery → List SearchQuery → Type 0
AreNew seen qs = All (λ r. any (query_eq r) seen ≡ false) qs

AreNew-cons :
    (q : SearchQuery) (seen qs : List SearchQuery)
    → AreNew (q ∷ seen) qs ↔ (All (λ r. query_eq r q ≡ false) qs × AreNew seen qs)
AreNew-cons q seen [] = ground arith
AreNew-cons q seen (r ∷ qs) = ground (arith, AreNew-cons q seen qs)

not_or_iff : (a b : Bool) → (not (a || b) ≡ true) ↔ ((a ≡ false) × (b ≡ false))
not_or_iff a b = ground arith

guards_iff :
    (a b : Bool) (e e' : PlannerProposalError) (m : Result PlannerProposalError (Unit {0}))
    → ((guard a e >> (guard b e' >> m)) ≡ ok tt) ↔ ((a ≡ true) × (b ≡ true) × (m ≡ ok tt))
guards_iff a b e e' m = ground arith

check_queries_iff :
    (known : List Text) (seen qs : List SearchQuery)
    → (check_queries known seen qs ≡ ok tt) ↔ (AreQueries known qs × AreNew seen qs)
unfolding check_queries
check_queries_iff known seen [] = ground arith
check_queries_iff known seen (q ∷ qs) =
    let step =
      guards_iff (contains q.facet_id known) (not (is_bad_text q.query || any (query_eq q) seen))
        unknown_query_facet invalid_query (check_queries known (q ∷ seen) qs) in
    let text = is_bad_text_iff q.query in
    let test = not_or_iff (is_bad_text q.query) (any (query_eq q) seen) in
    let rest = check_queries_iff known (q ∷ seen) qs in
    let new = AreNew-cons q seen qs in
    (
      λ h.
          let (facet, tested, run) = step.0 h in
          let (bad, unseen) = test.0 tested in
          let (queries, later) = rest.0 run in
          let (fresh, old) = new.0 later in
          ((((facet, text.0 bad), queries.0), (fresh, queries.1)), (unseen, old)),
      λ h. step.1 (
        h.0.0.0.0,
        test.1 (text.1 h.0.0.0.1, h.1.0),
        rest.1 ((h.0.0.1, h.0.1.1), new.1 (h.0.1.0, h.1.1)),
      ),
    )

AreNew-nil : (qs : List SearchQuery) → AreNew [] qs
AreNew-nil [] = tt
AreNew-nil (q ∷ qs) = (refl, AreNew-nil qs)

-- The result of the checks and of an extension between them.
run_iff :
    (e e' : PlannerProposalError) (a b : Bool) (r : Result ContractError InvestigationContract)
    (check : InvestigationContract → Result PlannerProposalError (Unit {0}))
    (new : InvestigationContract)
    → ((guard a e >> (guard b e' >> (map_err contract_error r >>= λ x. check x >> ok x))) ≡ ok new)
      ↔ ((a ≡ true) × (b ≡ true) × (r ≡ ok new) × (check new ≡ ok tt))
run_iff e e' a b (err f) check new = ground arith
run_iff e e' a b (ok x) check new = (λ h. ground (arith, h), λ h. ground (arith, h))

abbrev pub additions : PlannerProposal → PlannerExtension
additions p = record { facets = p.facet_additions; relationships = p.relationship_additions }

abbrev pub ids_of : InvestigationContract → List Text
ids_of c = map (λ facet. facet.id) (values c.facets)

-- The bounds of a proposal.
abbrev pub IsBounded : PlannerProposal → Type 0
IsBounded p =
    (p.schema ≡ 1)
    × (length p.facet_additions ≤ 8)
    × (length p.relationship_additions ≤ 8)
    × (length p.search_queries ≤ 8)

bounds_iff :
    (p : PlannerProposal)
    → (((p.schema == planner_schema) ≡ true)
        × (not (
              ltb max_additions (length p.facet_additions)
              || ltb max_additions (length p.relationship_additions)
              || ltb max_search_queries (length p.search_queries))
            ≡ true))
      ↔ IsBounded p
bounds_iff p = ground arith

-- A proposal is accepted, with the contract `new`, exactly when it has the schema 1, at most eight
-- additions of each sort and eight queries, its additions extend the contract to `new`, and its queries
-- are distinct, each for a facet of `new` with a text that is not blank, has at most 256 bytes and no
-- control character.
pub apply_iff :
    (p : PlannerProposal) (contract new : InvestigationContract)
    → (apply p contract ≡ ok new) ↔ (
        IsBounded p
        × (extend contract (additions p) ≡ ok new)
        × AreQueries (ids_of new) p.search_queries)
unfolding apply
apply_iff p contract new =
    let run =
      run_iff invalid_schema too_many (p.schema == planner_schema) _ (extend contract (additions p))
        (λ x. check_queries (ids_of x) [] p.search_queries) new in
    let queries = check_queries_iff (ids_of new) [] p.search_queries in
    (
      λ h.
          let (schema, bounds, extended, checked) = run.0 h in
          ((bounds_iff p).0 (schema, bounds), extended, (queries.0 checked).0),
      λ h.
          let (schema, bounds) = (bounds_iff p).1 h.0 in
          run.1 (schema, bounds, h.1, queries.1 (h.2, AreNew-nil p.search_queries)),
    )

bad_texts_iff : (ts : List Text) → (any is_bad_text ts ≡ false) ↔ All IsBoundedText ts
bad_texts_iff [] = ground arith
bad_texts_iff (t ∷ ts) =
    let text = is_bad_text_iff t in
    let texts = bad_texts_iff ts in
    (
      λ h. (text.0 (ground (arith, h)), texts.0 (ground (arith, h))),
      λ h. rw (text.1 h.0, texts.1 h.1) refl,
    )

-- The proposal of a critic, as one of a planner.
abbrev pub planner_of : CriticProposal → PlannerProposal
planner_of p = record {
  schema = p.schema;
  facet_additions = p.facet_additions;
  relationship_additions = p.relationship_additions;
  search_queries = p.search_queries;
  request_critic = false;
}

guard_iff :
    {A : Type 0} (a : Bool) (e : PlannerProposalError) (m : Result PlannerProposalError A) (x : A)
    → ((guard a e >> m) ≡ ok x) ↔ ((a ≡ true) × (m ≡ ok x))
guard_iff true e m x = ground arith
guard_iff false e m x = ground arith

-- When the proposal of a critic is accepted, it has at most eight concerns, each a text within the
-- bounds, and the new contract is valid and is the old one with the additions, every requirement of
-- the old one kept.
pub critic_apply-IsExtension :
    (p : CriticProposal) (contract new : InvestigationContract)
    → critic_apply p contract ≡ ok new
    → (length p.concerns ≤ 8)
      × All IsBoundedText p.concerns
      × IsExtension contract (additions (planner_of p)) new
unfolding critic_apply
critic_apply-IsExtension p contract new h =
    let (tested, run) = (guard_iff _ invalid_concern (apply (planner_of p) contract) new).0 h in
    let (few, texts) =
      (not_or_iff (ltb max_additions (length p.concerns)) (any is_bad_text p.concerns)).0 tested in
    (
      ground (arith, few),
      (bad_texts_iff p.concerns).0 texts,
      extend_lem contract (additions (planner_of p)) new
          ((apply_iff (planner_of p) contract new).0 run).1,
    )
