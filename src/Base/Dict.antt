-- ===== src/Base/Dict.antt =====
-- A Go map from strings, as an association list that holds a key at most once.
use Prim.Native.String.{String}
use mathlib.Core.Path.{◌≡◌, refl}
use mathlib.Core.Option.{Option, none, some}
use mathlib.Core.List.{List, [], ◌∷◌}
use native.Mathlib.Omega.{arith}
use text.Mathlib.TextEquality.{eq_iff}
use web3signer_go.Base.Tests.{if◌then◌else◌}
use web3signer_go.Base.Text.{str_eq}

module _ {ℓ} {V : Type ℓ} where
  unfoldable pub lookup : String → List (String × V) → Option V
  lookup key [] = none
  lookup key ((asked, value) ∷ es) = if str_eq asked key then some value else lookup key es

  -- m[k] = v
  unfoldable pub insert : String → V → List (String × V) → List (String × V)
  insert key value [] = (key, value) ∷ []
  insert key value ((asked, old) ∷ es) =
      if str_eq asked key then (key, value) ∷ es else (asked, old) ∷ insert key value es

  -- delete(m, k)
  unfoldable pub delete : String → List (String × V) → List (String × V)
  delete key [] = []
  delete key ((asked, value) ∷ es) =
      if str_eq asked key then delete key es else (asked, value) ∷ delete key es

  abbrev pub keys : List (String × V) → List String
  keys [] = []
  keys ((asked, value) ∷ es) = asked ∷ keys es

  pub lookup-insert :
      (key asked : String) (value : V) (es : List (String × V))
      → lookup asked (insert key value es)
        ≡ (if str_eq key asked then some value else lookup asked es)
  unfolding lookup insert
  lookup-insert key asked value [] = refl
  lookup-insert key asked value ((here, old) ∷ es) = ground (
    arith,
    eq_iff key asked,
    eq_iff here key,
    eq_iff here asked,
    lookup-insert key asked value es,
  )

  pub lookup-delete :
      (key asked : String) (es : List (String × V))
      → lookup asked (delete key es) ≡ (if str_eq key asked then none else lookup asked es)
  unfolding lookup delete
  lookup-delete key asked [] = ground arith
  lookup-delete key asked ((here, old) ∷ es) =
      ground
        (arith, eq_iff key asked, eq_iff here key, eq_iff here asked, lookup-delete key asked es)

  -- A predicate on the entries.
  abbrev pub Entries {κ} : (String → V → Type κ) → List (String × V) → Type κ
  Entries P [] = Unit
  Entries P ((key, value) ∷ es) = P key value × Entries P es

  pub Entries-insert {κ} :
      (P : String → V → Type κ) (key : String) (value : V) (es : List (String × V))
      → P key value
      → Entries P es
      → Entries P (insert key value es)
  unfolding insert
  Entries-insert P key value [] p h = (p, tt)
  Entries-insert P key value ((asked, old) ∷ es) p h =
      ground (arith, Entries-insert P key value es p h.1)

  pub Entries-delete {κ} :
      (P : String → V → Type κ) (key : String) (es : List (String × V))
      → Entries P es
      → Entries P (delete key es)
  unfolding delete
  Entries-delete P key [] h = tt
  Entries-delete P key ((asked, old) ∷ es) h = ground (arith, Entries-delete P key es h.1)

  -- No key occurs twice.
  abbrev pub Distinct : List (String × V) → Type ℓ
  Distinct [] = Unit
  Distinct ((key, value) ∷ es) = (lookup key es ≡ none) × Distinct es

  pub Distinct-insert :
      (key : String) (value : V) (es : List (String × V))
      → Distinct es
      → Distinct (insert key value es)
  unfolding insert lookup
  Distinct-insert key value [] h = (refl, tt)
  Distinct-insert key value ((asked, old) ∷ es) h = ground (
    arith,
    eq_iff asked key,
    eq_iff key asked,
    lookup-insert key asked value es,
    Distinct-insert key value es h.1,
  )

  pub Distinct-delete :
      (key : String) (es : List (String × V)) → Distinct es → Distinct (delete key es)
  unfolding delete
  Distinct-delete key [] h = tt
  Distinct-delete key ((asked, old) ∷ es) h =
      ground (arith, eq_iff key asked, lookup-delete key asked es, Distinct-delete key es h.1)
