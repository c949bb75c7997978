-- ===== src/Config/Env/Precedence.antt =====
-- In which order config.go reads the variables, and what a malformed one does.
use lib_service_discovery.Common.{
  String, ◌≡◌, refl, inl, inr, Option, none, some, List, [], ◌∷◌, is_empty, Option-cases,
  Bool-cases, subst, ◌↔◌,
}
use lib_service_discovery.Common.Int.{ℤ, pos}
use lib_service_discovery.Decimal.{atoi}
use lib_service_discovery.Platform.{Platform}
use lib_service_discovery.Config.Env.{Env, first_env, parsed_env, first_env_int, first_env_duration}

-- The first key with a value decides; keys without one are passed over.
pub data Picks {ℓ} {A : Type ℓ} (value : String → Option A) (fallback : A)
    : List String → A → Type ℓ where
  nothing : Picks value fallback [] fallback
  here :
      {k : String} {ks : List String} {a : A} → value k ≡ some a → Picks value fallback (k ∷ ks) a
  later :
      {k : String} {ks : List String} {a : A}
      → value k ≡ none
      → Picks value fallback ks a
      → Picks value fallback (k ∷ ks) a

-- A derivation determines the value.
Picks-unique {ℓ} :
    {A : Type ℓ} {value : String → Option A} {fallback : A} {ks : List String} {a b : A}
    → Picks value fallback ks a
    → Picks value fallback ks b
    → a ≡ b
Picks-unique nothing nothing = refl
Picks-unique (here p) (here q) = cc
Picks-unique (here p) (later q r) = cc
Picks-unique (later p r) (here q) = cc
Picks-unique (later p r) (later q s) = Picks-unique r s

-- A text variable has a value where it is not empty.
pub text_value : Env → String → Option String
text_value env = parsed_env env some

first_env-Picks :
    (env : Env) (fallback : String) (ks : List String)
    → Picks (text_value env) fallback ks (first_env env fallback ks)
unfolding first_env text_value parsed_env
first_env-Picks env fallback [] = nothing
first_env-Picks env fallback (k ∷ ks) = elim (Bool-cases (is_empty (env k))) [
  | inl empty ↦ rw empty (later (rw empty) (first_env-Picks env fallback ks))
  | inr given ↦ rw given (here (rw given))
]

first_env_int-Picks :
    (env : Env) (fallback : ℤ) (ks : List String)
    → Picks (parsed_env env atoi) fallback ks (first_env_int env fallback ks)
unfolding first_env_int
first_env_int-Picks env fallback [] = nothing
first_env_int-Picks env fallback (k ∷ ks) = elim (Option-cases (parsed_env env atoi k)) [
  | inl missing ↦ rw (missing, first_env_int) (later missing (first_env_int-Picks env fallback ks))
  | inr (n, found) ↦ rw (found, first_env_int) (here found)
]

first_env_duration-Picks :
    (p : Platform) (env : Env) (ks : List String)
    → Picks (parsed_env env p.parse_duration) (pos 0) ks (first_env_duration p env ks)
unfolding first_env_duration
first_env_duration-Picks p env [] = nothing
first_env_duration-Picks p env (k ∷ ks) = elim (Option-cases (parsed_env env p.parse_duration k)) [
  | inl missing ↦
      rw (missing, first_env_duration) (later missing (first_env_duration-Picks p env ks))
  | inr (n, found) ↦ rw (found, first_env_duration) (here found)
]

iff_of_Picks {ℓ} :
    {A : Type ℓ} {value : String → Option A} {fallback : A} {ks : List String} {a b : A}
    → Picks value fallback ks a
    → (a ≡ b) ↔ Picks value fallback ks b
iff_of_Picks {value = value} {fallback} {ks} r =
    (λ e. subst (Picks value fallback ks) e r, λ s. Picks-unique r s)

-- The three readers return the value of the first key that has one, and the fallback where none has:
-- a text variable has a value where it is not empty, a number or a duration where it is not empty
-- and well formed, so a malformed variable is passed over like one that is not set.
pub readers-Picks :
    (p : Platform) (env : Env) (ks : List String)
    → ((fallback s : String)
        → (first_env env fallback ks ≡ s) ↔ Picks (text_value env) fallback ks s)
      × ((fallback n : ℤ)
          → (first_env_int env fallback ks ≡ n) ↔ Picks (parsed_env env atoi) fallback ks n)
      × ((d : ℤ)
          → (first_env_duration p env ks ≡ d)
            ↔ Picks (parsed_env env p.parse_duration) (pos 0) ks d)
readers-Picks p env ks = (
  λ fallback s. iff_of_Picks (first_env-Picks env fallback ks),
  λ fallback n. iff_of_Picks (first_env_int-Picks env fallback ks),
  λ d. iff_of_Picks (first_env_duration-Picks p env ks),
)
