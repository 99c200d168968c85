-- ===== src/Downstream/Ids/Laws.antt =====
-- The comparison of ids is symmetric, and ids of other types are compared by their texts.
use web3signer_go.Base.{sym, ℤ, eqb_ℤ, str_eq, String, ◌≡◌, refl, arith, eq_iff}
use web3signer_go.Downstream.Ids.{
  Floats, DynamicId, no_id, text_id, int_id, float_id, to_string, compare_ids,
}

str_eq_sym : (s t : String) → str_eq s t ≡ str_eq t s
str_eq_sym s t = ground (arith, eq_iff s t, eq_iff t s)

eqb_ℤ_sym : (m n : ℤ) → eqb_ℤ m n ≡ eqb_ℤ n m
eqb_ℤ_sym m n = ground arith

with_no_id : (fs : Floats) (b : DynamicId fs) → compare_ids fs no_id b ≡ compare_ids fs b no_id
unfolding compare_ids
with_no_id fs no_id = refl
with_no_id fs b = refl

pub compare_ids_sym :
    (fs : Floats)
    → ((x y : fs.Float) → fs.same x y ≡ fs.same y x)
    → (a b : DynamicId fs) → compare_ids fs a b ≡ compare_ids fs b a
unfolding compare_ids
compare_ids_sym fs h no_id b = with_no_id fs b
compare_ids_sym fs h a no_id = sym (with_no_id fs a)
compare_ids_sym fs h (text_id s) (text_id t) = str_eq_sym s t
compare_ids_sym fs h (int_id m) (int_id n) = eqb_ℤ_sym m n
compare_ids_sym fs h (float_id x) (float_id y) = h x y
compare_ids_sym fs h a b = str_eq_sym (to_string fs a) (to_string fs b)
