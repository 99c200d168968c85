-- ===== src/Cli/Flags/Laws.antt =====
-- What the registration of flags leaves.
use web3signer_go.Base.{
  if◌then◌else◌, All, ok, String, ◌≡◌, ◌∙◌, refl, sym, ap, Bool, true, false, Bool-cases, none,
  List, [], ◌∷◌, ◌++◌, map, inl, inr,
}
use mathlib.Core.List.{append-nil, append_assoc}
use web3signer_go.Cli.Flags.{
  register_flag, Default, text, int, int64, switch, texts, unsupported, Flag, Command, Binding,
  declare, mark, register_flags,
}

abbrev pub IsSupported : Default → Type 0
IsSupported (unsupported t) = ⊥
IsSupported _ = Unit {0}

abbrev required_names : List Flag → List String
required_names [] = []
required_names (f ∷ fs) = if f.required then f.name ∷ required_names fs else required_names fs

-- Every flag under its name, behind its key, and the required ones marked, all in their order.
abbrev pub registered : List Flag → Command → Command
registered fs c = record {
  flags = c.flags ++ map (λ f. (f.name, f.default_value)) fs;
  bound = c.bound ++ map (λ f. (f.bind_to, f.name)) fs;
  required = c.required ++ required_names fs;
}

with_flag : Flag → Command → Command
with_flag f c = record {
  flags = c.flags ++ (f.name, f.default_value) ∷ [];
  bound = c.bound ++ (f.bind_to, f.name) ∷ [];
  required = c.required ++ (if f.required then f.name ∷ [] else []);
}

declare-ok :
    (b : Binding) (d : Default) (name : String) (c : Command)
    → IsSupported d
    → declare b d name c ≡ ok (record c { flags = c.flags ++ (name, d) ∷ [] })
declare-ok b (text s) name c h = refl
declare-ok b (int n) name c h = refl
declare-ok b (int64 n) name c h = refl
declare-ok b (switch t) name c h = refl
declare-ok b (texts ts) name c h = refl
declare-ok b (unsupported t) name c h = absurd h

required_one :
    (test : Bool) (name : String) (names : List String)
    → (if test then name ∷ [] else []) ++ names ≡ (if test then name ∷ names else names)
required_one true name names = refl
required_one false name names = refl

registered_one :
    (f : Flag) (fs : List Flag) (c : Command)
    → registered fs (with_flag f c) ≡ registered (f ∷ fs) c
unfolding with_flag
registered_one f fs c i = record {
  flags =
      append_assoc c.flags ((f.name, f.default_value) ∷ [])
        (map (λ f. (f.name, f.default_value)) fs) i;
  bound = append_assoc c.bound ((f.bind_to, f.name) ∷ []) (map (λ f. (f.bind_to, f.name)) fs) i;
  required =
      (append_assoc c.required (if f.required then f.name ∷ [] else []) (required_names fs)
          ∙ ap (λ x. c.required ++ x) (required_one f.required f.name (required_names fs)))
        i;
}

mark-ok :
    (b : Binding) (f : Flag) (c : Command)
    → b.mark_failure f.name ≡ none
    → mark b f c
      ≡ ok (record c { required = c.required ++ (if f.required then f.name ∷ [] else []) })
mark-ok b f c e = elim (Bool-cases f.required) [
  | inl wanted ↦ rw (wanted, e) refl
  | inr free ↦ rw free (ap (λ x. ok (record c { required = x })) (sym (append-nil c.required)))
]

register_flag-ok :
    (b : Binding) (f : Flag) (c : Command)
    → IsSupported f.default_value
    → b.bind_failure f.bind_to f.name ≡ none
    → b.mark_failure f.name ≡ none
    → register_flag b f c ≡ ok (with_flag f c)
unfolding register_flag with_flag
register_flag-ok b f c h binds marks =
    rw (declare-ok b f.default_value f.name c h) (rw binds (mark-ok b f _ marks))

-- Where viper and cobra take every flag, and each default has one of the types that are known, every
-- flag is declared with its default and bound to its key, and the required ones are marked, in the
-- order of the table.
pub register_flags_lem :
    (b : Binding) (fs : List Flag) (c : Command)
    → All (λ f. IsSupported f.default_value) fs
    → ((key name : String) → b.bind_failure key name ≡ none)
    → ((name : String) → b.mark_failure name ≡ none)
    → register_flags b fs c ≡ ok (registered fs c)
unfolding register_flags
register_flags_lem b [] c h binds marks = simp (append-nil)
register_flags_lem b (f ∷ fs) c h binds marks =
    rw (register_flag-ok b f c h.0 (binds f.bind_to f.name) (marks f.name))
      (register_flags_lem b fs (with_flag f c) h.1 binds marks ∙ ap ok (registered_one f fs c))
