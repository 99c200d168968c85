-- ===== src/Errors/Logger/Laws.antt =====
-- Loggers derived from one another do not disturb one another, and which value a call of logrus has
-- under a key.
use web3signer_go.Base.{
  get_elem?-All, lt_of_get_elem?, length, get_elem?, All, ℕ, zero, suc, ◌≤◌, ◌<◌, String, ◌≡◌, ◌∙◌,
  refl, sym, ap, subst, Option, none, some, List, [], ◌∷◌, ◌++◌, arith, length-append, length-set,
  get_elem?-set_ne,
}
use web3signer_go.Errors.Types.{GoError}
use web3signer_go.Jsonrpc.Value.{Value}
use web3signer_go.Errors.Context.{Context, Fields}
use web3signer_go.Errors.Logger.{
  LogLevel, StructuredLogger, Store, own_fields, put_all, clone, write, with_fields,
  with_request_id, with_operation, with_context, error_fields, with_error, call_fields,
  log_with_fields, log_error,
}

get_elem?-append_left {ℓ} :
    {A : Type ℓ} (xs ys : List A) (i : ℕ) → i < length xs → get_elem? (xs ++ ys) i ≡ get_elem? xs i
get_elem?-append_left [] ys i h = elim h [ ]
get_elem?-append_left (x ∷ xs) ys zero h = refl
get_elem?-append_left (x ∷ xs) ys (suc i) h = get_elem?-append_left xs ys i (omega arith)

-- The maps that a store has stay in the next one.
pub record Extends (st st' : Store) : Type 0 where
  pub longer : length st.maps ≤ length st'.maps
  pub same : (i : ℕ) → i < length st.maps → get_elem? st'.maps i ≡ get_elem? st.maps i

Extends-trans : (a b c : Store) → Extends a b → Extends b c → Extends a c
Extends-trans a b c p q = record {
  longer = omega (arith, p.longer, q.longer);
  same = λ i h. q.same i (omega (arith, p.longer)) ∙ p.same i h;
}

Extends-clone : (l : StructuredLogger) (st : Store) → Extends st (clone l st).1
unfolding clone
Extends-clone l st = record {
  longer = omega (arith, length-append st.maps (put_all (own_fields l st) [] ∷ []));
  same = λ i h. get_elem?-append_left st.maps _ i h;
}

Extends-with_fields :
    (more : Fields) (l : StructuredLogger) (st : Store) → Extends st (with_fields more l st).1
unfolding with_fields write clone
Extends-with_fields more l st = record {
  longer = omega (
    arith,
    length-append st.maps (put_all (own_fields l st) [] ∷ []),
    length-set (st.maps ++ put_all (own_fields l st) [] ∷ []) (length st.maps)
        (put_all more (own_fields (clone l st).0 (clone l st).1)),
  );
  same = λ i h.
      get_elem?-set_ne (st.maps ++ put_all (own_fields l st) [] ∷ []) (length st.maps) i _
        (λ e. absurd (omega arith))
      ∙ get_elem?-append_left st.maps _ i h;
}

-- What can be done with a logger.
pub data Action : Type 0 where
  adds : Fields → Action
  names_request names_operation : String → Action
  takes : Context → Action
  takes_error : GoError → Action
  logs : LogLevel → String → List Value → Action
  logs_error : GoError → List Value → Action

pub record Session : Type 0 where
  pub loggers : List StructuredLogger
  pub store : Store

module _ (fmt_v : Value → String) where
  abbrev derived : StructuredLogger × Store → Session → Session
  derived (l, st) s = record { loggers = s.loggers ++ l ∷ []; store = st }

  abbrev perform : Action → StructuredLogger → Session → Session
  perform (adds more) l s = derived (with_fields more l s.store) s
  perform (names_request id) l s = derived (with_request_id id l s.store) s
  perform (names_operation name) l s = derived (with_operation name l s.store) s
  perform (takes ctx) l s = derived (with_context ctx l s.store) s
  perform (takes_error e) l s = derived (with_error fmt_v e l s.store) s
  perform (logs level message pairs) l s = record s {
    store = log_with_fields level message pairs l s.store;
  }
  perform (logs_error e context) l s = record s { store = log_error fmt_v e context l s.store }

  abbrev act : Option StructuredLogger → Action → Session → Session
  act none action s = s
  act (some l) action s = perform action l s

  -- Each action is done with the logger at an index, if there is one.
  abbrev pub acts : List (ℕ × Action) → Session → Session
  acts [] s = s
  acts ((k, action) ∷ more) s = acts more (act (get_elem? s.loggers k) action s)

  -- Each logger has its fields in the store.
  abbrev pub Held : Session → Type 0
  Held s = All (λ l. l.fields < length s.store.maps) s.loggers

  record Next (s t : Session) : Type 0 where
    extends : Extends s.store t.store
    held : Held t
    kept :
        (j : ℕ) {l : StructuredLogger}
        → get_elem? s.loggers j ≡ some l
        → get_elem? t.loggers j ≡ some l

  held_on :
      (n m : ℕ) (ls : List StructuredLogger)
      → n ≤ m
      → All (λ l. l.fields < n) ls
      → All (λ l. l.fields < m) ls
  held_on n m [] le h = tt
  held_on n m (l ∷ ls) le h = (omega arith, held_on n m ls le h.1)

  held_one_more :
      (n : ℕ) (ls : List StructuredLogger) (l : StructuredLogger)
      → All (λ x. x.fields < n) ls
      → l.fields < n
      → All (λ x. x.fields < n) (ls ++ l ∷ [])
  held_one_more n [] l h lt = (lt, tt)
  held_one_more n (x ∷ ls) l h lt = (h.0, held_one_more n ls l h.1 lt)

  Next-derived :
      (made : StructuredLogger × Store) (s : Session)
      → Held s
      → Extends s.store made.1
      → made.0.fields < length made.1.maps
      → Next s (derived made s)
  Next-derived (l, st) s h ext lt = record {
    extends = ext;
    held = held_one_more _ s.loggers l (held_on _ _ s.loggers ext.longer h) lt;
    kept = λ j e. get_elem?-append_left s.loggers (l ∷ []) j (lt_of_get_elem? s.loggers j e) ∙ e;
  }

  Next-store :
      (st : Store) (s : Session)
      → Held s
      → st.maps ≡ s.store.maps
      → Next s (record s { store = st })
  Next-store st s h e = record {
    extends = record {
      longer = omega (arith, ap length e);
      same = λ i lt. ap (λ ms. get_elem? ms i) e;
    };
    held = held_on _ _ s.loggers (omega (arith, ap length e)) h;
    kept = λ j q. q;
  }

  with_fields-held :
      (more : Fields) (l : StructuredLogger) (st : Store)
      → (with_fields more l st).0.fields < length (with_fields more l st).1.maps
  unfolding with_fields write clone
  with_fields-held more l st = omega (
    arith,
    length-append st.maps (put_all (own_fields l st) [] ∷ []),
    length-set (st.maps ++ put_all (own_fields l st) [] ∷ []) (length st.maps)
        (put_all more (own_fields (clone l st).0 (clone l st).1)),
  )

  clone-held : (l : StructuredLogger) (st : Store) → length st.maps < length (clone l st).1.maps
  unfolding clone
  clone-held l st = omega (arith, length-append st.maps (put_all (own_fields l st) [] ∷ []))

  with_context-fields :
      (ctx : Context) (l : StructuredLogger) (st : Store)
      → ((with_context ctx l st).0.fields ≡ length st.maps)
        × ((with_context ctx l st).1 ≡ (clone l st).1)
  unfolding with_context clone
  with_context-fields ctx l st = ground arith

  Next-perform :
      (action : Action) (l : StructuredLogger) (s : Session) → Held s → Next s (perform action l s)
  unfolding with_request_id with_operation with_error log_with_fields log_error clone
  Next-perform (adds more) l s h =
      Next-derived _ s h (Extends-with_fields more l s.store) (with_fields-held more l s.store)
  Next-perform (takes_error e) l s h =
      Next-derived _ s h (Extends-with_fields (error_fields fmt_v e) l s.store)
        (with_fields-held (error_fields fmt_v e) l s.store)
  Next-perform (names_request id) l s h =
      Next-derived _ s h (Extends-clone l s.store) (clone-held l s.store)
  Next-perform (names_operation name) l s h =
      Next-derived _ s h (Extends-clone l s.store) (clone-held l s.store)
  Next-perform (takes ctx) l s h =
      let (place, made) = with_context-fields ctx l s.store in
      Next-derived _ s h (subst (Extends s.store) (sym made) (Extends-clone l s.store))
        (omega (arith, place, ap (λ st. length st.maps) made, clone-held l s.store))
  Next-perform (logs level message pairs) l s h = Next-store _ s h refl
  Next-perform (logs_error e context) l s h = Next-store _ s h refl

  Next-act :
      (o : Option StructuredLogger) (action : Action) (s : Session)
      → Held s
      → Next s (act o action s)
  Next-act none action s h = Next-store s.store s h refl
  Next-act (some l) action s h = Next-perform action l s h

  Next-acts : (steps : List (ℕ × Action)) (s : Session) → Held s → Next s (acts steps s)
  Next-acts [] s h = Next-store s.store s h refl
  Next-acts ((k, action) ∷ more) s h =
      let one = Next-act (get_elem? s.loggers k) action s h in
      let rest = Next-acts more (act (get_elem? s.loggers k) action s) one.held in
      record {
        extends = Extends-trans _ _ _ one.extends rest.extends;
        held = rest.held;
        kept = λ j e. rest.kept j (one.kept j e);
      }

  -- Whatever is derived from the loggers of a session and logged with them, each stays what it
  -- was, and so do the fields of what it logs.
  pub acts-call_fields :
      (steps : List (ℕ × Action)) (s : Session) (j : ℕ) (l : StructuredLogger) (pairs : List Value)
      → Held s
      → get_elem? s.loggers j ≡ some l
      → (get_elem? (acts steps s).loggers j ≡ some l)
        × (call_fields l pairs (acts steps s).store ≡ call_fields l pairs s.store)
  unfolding call_fields own_fields
  acts-call_fields steps s j l pairs h e =
      let after = Next-acts steps s h in
      let place =
        after.extends.same l.fields
          (get_elem?-All (λ x. x.fields < length s.store.maps) s.loggers j h e) in
      (after.kept j e, rw place refl)
