-- ===== src/Jsonrpc/Interface/Laws.antt =====
-- What an interface{} can hold is kept as it is.
use web3signer_go.Base.{ap, ◌^◌, some, ◌≤◌, refl, arith, true, ◌≡◌, String}
use web3signer_go.Jsonrpc.Value.{
  Value, null, bool, int, float, rounded, str, arr, obj, Items, nil, cons, Fields, end, field,
}
use web3signer_go.Jsonrpc.Interface.{
  magnitude, before, put_first, as_interface, as_items, as_fields,
}

-- The key comes before the others.
abbrev Leads : String → Fields → Type 0
Leads k end = Unit {0}
Leads k (field k' v fs) = before k k' ≡ true

-- No integer beyond 2^53 and no other literal, and the keys of an object in order, each once.
unfoldable mutual
  pub IsHeld : Value → Type 0
  IsHeld null = Unit {0}
  IsHeld (bool b) = Unit {0}
  IsHeld (int n) = magnitude n ≤ 2 ^ 53
  IsHeld (float s) = ⊥
  IsHeld (rounded s) = Unit {0}
  IsHeld (str s) = Unit {0}
  IsHeld (arr vs) = HeldItems vs
  IsHeld (obj fs) = HeldFields fs

  HeldItems : Items → Type 0
  HeldItems nil = Unit {0}
  HeldItems (cons v vs) = IsHeld v × HeldItems vs

  HeldFields : Fields → Type 0
  HeldFields end = Unit {0}
  HeldFields (field k v fs) = Leads k fs × IsHeld v × HeldFields fs

put_first-Leads :
    (k : String) (v : Value) (fs : Fields) → Leads k fs → put_first k v fs ≡ field k v fs
unfolding put_first
put_first-Leads k v end h = refl
put_first-Leads k v (field k' v' fs) h = ground arith

mutual
  unfolding as_interface IsHeld

  pub as_interface-IsHeld : (v : Value) → IsHeld v → as_interface v ≡ some v
  as_interface-IsHeld null h = refl
  as_interface-IsHeld (bool b) h = refl
  as_interface-IsHeld (int n) h = ground arith
  as_interface-IsHeld (float s) h = absurd h
  as_interface-IsHeld (rounded s) h = refl
  as_interface-IsHeld (str s) h = refl
  as_interface-IsHeld (arr vs) h = rw (as_items-Held vs h) refl
  as_interface-IsHeld (obj fs) h = rw (as_fields-Held fs h) refl

  as_items-Held : (vs : Items) → HeldItems vs → as_items vs ≡ some vs
  as_items-Held nil h = refl
  as_items-Held (cons v vs) h = rw (as_interface-IsHeld v h.0, as_items-Held vs h.1) refl

  as_fields-Held : (fs : Fields) → HeldFields fs → as_fields fs ≡ some fs
  as_fields-Held end h = refl
  as_fields-Held (field k v fs) h =
      rw (as_interface-IsHeld v h.1, as_fields-Held fs h.2) (ap some (put_first-Leads k v fs h.0))

pub as_interface-null : as_interface null ≡ some null
unfolding as_interface
as_interface-null = refl

-- A text is kept from a text alone.
pub as_interface-str : (v : Value) (s : String) → as_interface v ≡ some (str s) → v ≡ str s
unfolding as_interface
as_interface-str null s h = absurd (ground arith)
as_interface-str (bool b) s h = absurd (ground arith)
as_interface-str (int n) s h = absurd (ground arith)
as_interface-str (float t) s h = absurd (ground arith)
as_interface-str (rounded t) s h = absurd (ground arith)
as_interface-str (str t) s h = ground arith
as_interface-str (arr vs) s h = absurd (ground arith)
as_interface-str (obj fs) s h = absurd (ground arith)

pub as_items-texts :
    (vs xs : Items) (a text : String)
    → as_items vs ≡ some (cons (str a) (cons (str text) xs))
    → (rest : Items) × (vs ≡ cons (str a) (cons (str text) rest))
unfolding as_interface
as_items-texts nil xs a text h = absurd (ground arith)
as_items-texts (cons v nil) xs a text h = absurd (ground arith)
as_items-texts (cons v (cons v' vs)) xs a text h =
    let e = as_interface-str v a (ground arith) in
    let e' = as_interface-str v' text (ground arith) in (vs, cc)
