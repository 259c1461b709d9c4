-- ===== src/Dispatch/Chains.antt =====
-- `serve` of cmd/main/main.go: when the code of a route runs.
use Prim.Native.Nat.{bit_and}
use web_spa.Base.{
  ℕ, ◌≡◌, refl, sym, ap, ◌∙◌, ◌⊎◌, inl, inr, Bool, true, false, List, [], ◌∷◌, Option, none, some,
  ◌==◌, get_elem?, Bytes, Bool-cases, Option-cases,
}
use web_spa.Router.Trie.{Param, Found, match}
use web_spa.Router.Manifest.{RouteEntry, Manifest}
use web_spa.OutputCache.{OutputCache, Site}
use web_spa.Gogohttp.Response.{Resp}
use web_spa.Gogohttp.Types.{Req}
use web_spa.Dispatch.{
  RouteCtx, Ran, ran, crashed, Hook, run_chain, AppState, manifest_for, chain_of, run_action,
  after_chain, refuse_method, serve_entry, serve_found, serve, method_bit_for,
}

module _ (U : Type 0) where
  -- Every middleware of the chain, in order, has let the context pass on to the next.
  abbrev pub Passes : List (Hook U) → RouteCtx U → RouteCtx U → Type 0
  Passes [] c c' = c' ≡ c
  Passes (mw ∷ chain) c c' = (c1 : RouteCtx U) × (mw c ≡ ran true c1) × Passes chain c1 c'

  Ran-cases :
      (r : Ran U)
      → ((c : RouteCtx U) × (r ≡ ran true c))
        ⊎ (((c : RouteCtx U) × (r ≡ ran false c))
            ⊎ ((u : U) × (oc : OutputCache) × (r ≡ crashed u oc)))
  Ran-cases (ran true c) = inl (c, refl)
  Ran-cases (ran false c) = inr (inl (c, refl))
  Ran-cases (crashed u oc) = inr (inr (u, oc, refl))

  context : RouteCtx U → Ran U → RouteCtx U
  context other (ran goes_on c) = c
  context other (crashed u oc) = other

  goes_on : Ran U → Bool
  goes_on (ran b c) = b
  goes_on (crashed u oc) = false

  run_chain-Passes :
      (chain : List (Hook U)) (c c' : RouteCtx U)
      → run_chain chain c ≡ ran true c'
      → Passes chain c c'
  unfolding run_chain context goes_on
  run_chain-Passes [] c c' h = sym (ap (context c) h)
  run_chain-Passes (mw ∷ chain) c c' h = elim (Ran-cases (mw c)) [
    | inl (c1, passed) ↦ (c1, passed, run_chain-Passes chain c1 c' (rw passed at h))
    | inr (inl (c1, stopped)) ↦ let e : false ≡ true = ap goes_on (rw stopped at h) in absurd (cc e)
    | inr (inr (u, oc, died)) ↦ let e : false ≡ true = ap goes_on (rw died at h) in absurd (cc e)
  ]

  -- What runs for a route, apart from its middleware.
  pub record Actions : Type 0 where
    pub action_table : ℕ → Option (Hook U)
    pub page_site : Site
    pub compose_hole_body : U → Manifest → RouteEntry → List Param → Option Bytes
    pub serve_file : U → Req → RouteEntry → Manifest → Resp → Option Resp

  abbrev pub with_actions : Actions → AppState U → AppState U
  with_actions a st = record st {
    action_table = a.action_table;
    page_site = a.page_site;
    compose_hole_body = a.compose_hole_body;
    serve_file = a.serve_file;
  }

  -- The path matches a route, the route admits the method, and its middleware lets the request pass.
  pub record IsAdmitted (st : AppState U) (c : RouteCtx U) : Type 0 where
    pub idx : ℕ
    pub params : List Param
    pub entry : RouteEntry
    pub passed : RouteCtx U
    pub matched : match (manifest_for st c.req.host).trie c.req.path ≡ some (some idx, params)
    pub found : get_elem? (manifest_for st c.req.host).table idx ≡ some entry
    pub allowed : (bit_and entry.methods (method_bit_for c.req.method) == 0) ≡ false
    pub chain :
        Passes
          (chain_of st (manifest_for st c.req.host) idx entry)
          (record c { bindings = params })
          passed

  -- The answer does not depend on the actions, or the request is admitted and the answer is that of
  -- the route's action.
  abbrev pub IsGuarded : AppState U → RouteCtx U → Type 0
  IsGuarded st c =
      ((a b : Actions) → serve (with_actions a st) c ≡ serve (with_actions b st) c)
      ⊎ ((x : IsAdmitted st c) × ((a : Actions)
            → serve (with_actions a st) c
              ≡ run_action (with_actions a st) (manifest_for st c.req.host) x.entry x.params
                  x.passed))

  module _ (st : AppState U) (c : RouteCtx U) where
    abbrev site : Manifest
    site = manifest_for st c.req.host

    abbrev chain_from : ℕ → List Param → RouteEntry → Ran U
    chain_from idx params entry =
        run_chain (chain_of st site idx entry) (record c { bindings = params })

    -- The chain stops on its own, whatever comes after it.
    stops :
        (r : Ran U)
        → ((passed : RouteCtx U) × (r ≡ ran true passed))
          ⊎ ((f g : RouteCtx U → Ran U) → after_chain f r ≡ after_chain g r)
    stops (ran true passed) = inl (passed, refl)
    stops (ran false c') = inr (λ f g. refl)
    stops (crashed u oc) = inr (λ f g. refl)

    serve-match :
        (a : Actions) (o : Found)
        → match site.trie c.req.path ≡ o
        → serve (with_actions a st) c ≡ serve_found (with_actions a st) site c o
    unfolding serve manifest_for
    serve-match a o h = ap (serve_found (with_actions a st) site c) h

    module _ (idx : ℕ) (params : List Param)
        (matched : match site.trie c.req.path ≡ some (some idx, params)) where
      serve-outside :
          (a : Actions)
          → get_elem? site.table idx ≡ none
          → serve (with_actions a st) c ≡ crashed c.world c.cache
      unfolding serve_found serve_entry
      serve-outside a outside = serve-match a _ matched ∙ (rw outside refl)

      serve-refused :
          (a : Actions) (entry : RouteEntry)
          → get_elem? site.table idx ≡ some entry
          → (bit_and entry.methods (method_bit_for c.req.method) == 0) ≡ true
          → serve (with_actions a st) c ≡ refuse_method st entry c
      unfolding serve_found serve_entry
      serve-refused a entry found refused = serve-match a _ matched ∙ (rw found (rw refused refl))

      serve-allowed :
          (a : Actions) (entry : RouteEntry)
          → get_elem? site.table idx ≡ some entry
          → (bit_and entry.methods (method_bit_for c.req.method) == 0) ≡ false
          → serve (with_actions a st) c
            ≡ after_chain
                (run_action (with_actions a st) site entry params)
                (chain_from idx params entry)
      unfolding serve_found serve_entry
      serve-allowed a entry found allowed = serve-match a _ matched ∙ (rw found (rw allowed refl))

    admitted :
        (idx : ℕ) (params : List Param) (entry : RouteEntry)
        → match site.trie c.req.path ≡ some (some idx, params)
        → get_elem? site.table idx ≡ some entry
        → (bit_and entry.methods (method_bit_for c.req.method) == 0) ≡ false
        → IsGuarded st c
    admitted idx params entry matched found allowed = elim (stops (chain_from idx params entry)) [
      | inl (passed, through) ↦ inr (
        record {
          idx = idx;
          params = params;
          entry = entry;
          passed = passed;
          matched = matched;
          found = found;
          allowed = allowed;
          chain = run_chain-Passes _ _ passed through;
        },
        λ a.
            serve-allowed idx params matched a entry found allowed
            ∙ ap (after_chain (run_action (with_actions a st) site entry params)) through,
      )
      | inr same ↦ inl (λ a b.
          serve-allowed idx params matched a entry found allowed
          ∙ (same _ _ ∙ sym (serve-allowed idx params matched b entry found allowed)))
    ]

    -- Whatever the actions, pages and files of the routes are, a request gets the same answer without
    -- them; or its path matches a route whose mask has its method, every middleware of that route has
    -- in turn let it pass, and the answer is that of the route's action on the context that the last
    -- of them has left.
    pub serve-IsGuarded : IsGuarded st c
    unfolding serve_found
    serve-IsGuarded = elim (Option-cases (match site.trie c.req.path)) [
      | inl broken ↦ inl (λ a b. serve-match a none broken ∙ sym (serve-match b none broken))
      | inr ((none, params), missing) ↦
          inl (λ a b. serve-match a _ missing ∙ sym (serve-match b _ missing))
      | inr ((some idx, params), matched) ↦ elim (Option-cases (get_elem? site.table idx)) [
        | inl outside ↦ inl (λ a b.
            serve-outside idx params matched a outside
            ∙ sym (serve-outside idx params matched b outside))
        | inr (entry, found) ↦
            elim (Bool-cases (bit_and entry.methods (method_bit_for c.req.method) == 0)) [
              | inl refused ↦ inl (λ a b.
                  serve-refused idx params matched a entry found refused
                  ∙ sym (serve-refused idx params matched b entry found refused))
              | inr allowed ↦ admitted idx params entry matched found allowed
            ]
      ]
    ]
