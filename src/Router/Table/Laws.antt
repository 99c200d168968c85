-- ===== src/Router/Table/Laws.antt =====
-- The table under registrations, and what every response of the router carries.
use web3signer_go.Base.{
  if◌then◌else◌, Option-cases, str_eq, Result, ok, err, Result-cases, ℕ, String, ◌≡◌, refl, sym, ap,
  subst, ◌∙◌, ◌≢◌, inl, inr, false, Option, none, some, List, [], ◌∷◌, arith, eq_iff,
}
use web3signer_go.Base.Dict.{
  lookup, insert, lookup-insert, lookup-delete, Distinct, Distinct-insert, Distinct-delete, Entries,
  Entries-insert, Entries-delete,
}
use web3signer_go.Errors.Types.{GoError}
use web3signer_go.Jsonrpc.Types.{jsonrpc_version, Request, Response, new_error_response}
use web3signer_go.Router.Node.{Libraries}
use web3signer_go.Router.Table.{
  Handler, method_of, Router, new_router, set_default_handler, register, unregister, get_handler,
  has_handler, select_handler, finish_response, route_request, route, handle,
}

pub data Change (W : Type 0) : Type 0 where
  registers defaults : Handler W → Change W
  unregisters : String → Change W

module _ {W : Type 0} where
  -- A registration that fails leaves the table as it was.
  abbrev pub kept : Router W → Result GoError (Router W) → Router W
  kept r (ok r') = r'
  kept r (err e) = r

  abbrev pub change : Router W → Change W → Router W
  change r (registers h) = kept r (register h r)
  change r (defaults h) = set_default_handler h r
  change r (unregisters method) = unregister method r

  abbrev pub changes : Router W → List (Change W) → Router W
  changes r [] = r
  changes r (c ∷ cs) = changes (change r c) cs

  -- No method twice, none empty, and each handler under the method that it names.
  pub record IsTable (r : Router W) : Type 0 where
    pub distinct : Distinct r.handlers
    pub named : lookup "" r.handlers ≡ none
    pub own_method : Entries (λ k h. method_of h ≡ k) r.handlers

  with_handler : Handler W → Router W → Router W
  with_handler h r = record r { handlers = insert (method_of h) h r.handlers }

  register-ok :
      (h : Handler W) (r r' : Router W)
      → register h r ≡ ok r'
      → (method_of h ≢ "") × (lookup (method_of h) r.handlers ≡ none) × (r' ≡ with_handler h r)
  unfolding register with_handler
  register-ok h r r' e = elim (Option-cases (lookup (method_of h) r.handlers)) [
    | inr (old, g) ↦ absurd (ground arith)
    | inl g ↦ ((λ x. ground (arith, eq_iff (method_of h) "")), g, ground arith)
  ]

  with_handler-IsTable :
      (h : Handler W) (r : Router W) → method_of h ≢ "" → IsTable r → IsTable (with_handler h r)
  unfolding with_handler
  with_handler-IsTable h r given t = record {
    distinct = Distinct-insert (method_of h) h r.handlers t.distinct;
    named =
        ground
          (arith, lookup-insert (method_of h) "" h r.handlers, eq_iff (method_of h) "", t.named);
    own_method =
        Entries-insert (λ k x. method_of x ≡ k) (method_of h) h r.handlers refl t.own_method;
  }

  change-IsTable : (r : Router W) (c : Change W) → IsTable r → IsTable (change r c)
  unfolding unregister set_default_handler
  change-IsTable r (registers h) t = elim (Result-cases (register h r)) [
    | inr (x, e) ↦ subst IsTable (sym (ap (kept r) e)) t
    | inl (r', e) ↦
        let (given, fresh, same) = register-ok h r r' e in
        subst IsTable (sym (ap (kept r) e ∙ same)) (with_handler-IsTable h r given t)
  ]
  change-IsTable r (defaults h) t = record {
    distinct = t.distinct;
    named = t.named;
    own_method = t.own_method;
  }
  change-IsTable r (unregisters method) t = record {
    distinct = Distinct-delete method r.handlers t.distinct;
    named = ground (arith, lookup-delete method "" r.handlers, t.named);
    own_method = Entries-delete (λ k x. method_of x ≡ k) method r.handlers t.own_method;
  }

  changes-IsTable : (r : Router W) (cs : List (Change W)) → IsTable r → IsTable (changes r cs)
  changes-IsTable r [] t = t
  changes-IsTable r (c ∷ cs) t = changes-IsTable (change r c) cs (change-IsTable r c t)

  -- However handlers are registered and removed, a new router's table holds no method twice,
  -- none that is empty, and each handler under the method that it names.
  pub new_router-IsTable :
      (max_request_size : ℕ) (cs : List (Change W))
      → IsTable (changes (new_router max_request_size) cs)
  unfolding new_router lookup
  new_router-IsTable max_request_size cs =
      changes-IsTable _ cs (record { distinct = tt; named = refl; own_method = tt })

  -- A handler is registered only under a method that is not empty and had none; it is then
  -- found under it, every other method finds what it found before, and the default handler
  -- stays.
  pub get_handler-register :
      (h : Handler W) (r r' : Router W) (method : String)
      → register h r ≡ ok r'
      → (method_of h ≢ "")
        × (get_handler (method_of h) r ≡ none)
        × (get_handler method r'
            ≡ (if str_eq (method_of h) method then some h else get_handler method r))
        × (r'.default_handler ≡ r.default_handler)
  unfolding with_handler get_handler
  get_handler-register h r r' method e =
      let (given, fresh, same) = register-ok h r r' e in
      (
        given,
        fresh,
        ap (λ x. lookup method x.handlers) same ∙ lookup-insert (method_of h) method h r.handlers,
        ap (λ x. x.default_handler) same,
      )

  -- After a method is unregistered no handler is found for it and it goes to the default
  -- handler, and every other method goes where it went before.
  pub select_handler-unregister :
      (method other : String) (r : Router W)
      → (select_handler other (unregister method r)
          ≡ (if str_eq method other then r.default_handler else select_handler other r))
        × (has_handler method (unregister method r) ≡ false)
  unfolding select_handler get_handler unregister has_handler
  select_handler-unregister method other r = (
    ground (arith, lookup-delete method other r.handlers),
    ground (arith, lookup-delete method method r.handlers, eq_iff method method),
  )

module _ (libs : Libraries) where
  pub finish_response-id :
      (req : Request) (got : Result GoError (Option Response))
      → ((finish_response libs req got).id ≡ req.id)
        × ((finish_response libs req got).jsonrpc ≡ jsonrpc_version)
  unfolding finish_response new_error_response
  finish_response-id req (err e) = (refl, refl)
  finish_response-id req (ok none) = (refl, refl)
  finish_response-id req (ok (some r)) = (refl, refl)

module _ (libs : Libraries) {W : Type 0} where
  -- Whatever the router's table and whatever a handler returns, the response to a request
  -- carries its id and version 2.0.
  pub route-id :
      (r : Router W) (req : Request) (w : W)
      → ((route libs r (some req) w).0.id ≡ req.id)
        × ((route libs r (some req) w).0.jsonrpc ≡ jsonrpc_version)
  unfolding route route_request new_error_response
  route-id r req w = elim (Option-cases (select_handler req.method r)) [
    | inl e ↦ (ground arith, ground arith)
    | inr (h, e) ↦
        let (same, version) = finish_response-id libs req (handle libs h req w).0 in
        (ground arith, ground arith)
  ]
