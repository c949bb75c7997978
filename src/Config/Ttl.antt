-- ===== src/Config/Ttl.antt =====
-- What `ttlWithDefaults` of config.go returns.
use lib_service_discovery.Common.{
  arith, String, ◌≡◌, refl, ◌⊎◌, inl, inr, subst, true, false, none, some, is_empty, is_some,
  Bool-cases, Option-cases,
}
use lib_service_discovery.Common.Int.{ℤ, ltb_ℤ}
use lib_service_discovery.Decimal.{IsInt}
use lib_service_discovery.Errors.{ok, err, sentinel, wrap, invalid_ttl}
use lib_service_discovery.Platform.{Platform, IsGo, trim_space}
use lib_service_discovery.Config.{ttl_floor, default_ttl, ttl_with_defaults}

module _ (p : Platform) (go : IsGo p) where
  -- A TTL that a check can run on: its text is that of a duration at or above the floor.
  pub data IsSafeTtl (t : String) : Type 0 where
    safe : (d : ℤ) → IsInt d → ltb_ℤ d ttl_floor ≡ false → t ≡ p.duration_string d → IsSafeTtl t

  string_nonempty : (d : ℤ) → IsInt d → is_empty (p.duration_string d) ≡ false
  string_nonempty d fits = elim (Bool-cases (is_empty (p.duration_string d))) [
    | inl empty ↦ absurd (no_text (p.duration_string d) empty (go.parse-string d fits))
    | inr text ↦ text
  ]
    where
      no_text : (s : String) → is_empty s ≡ true → p.parse_duration s ≡ some d → ⊥
      no_text String.[] h e = cc (go.parse_empty)
      no_text (String.◌∷◌ c s) h e = cc

  -- Every TTL that is accepted becomes one at or above the floor of 15 seconds; the error is
  -- `ErrInvalidTTL` around the trimmed text, and comes exactly where that text is neither empty nor a
  -- duration.
  pub ttl_with_defaults_cases :
      (raw : String)
      → ((t : String) × (ttl_with_defaults p raw ≡ ok t)
          × IsSafeTtl t
          × ((trim_space raw ≡ "") ⊎ (is_some (p.parse_duration (trim_space raw)) ≡ true)))
        ⊎ ((ttl_with_defaults p raw ≡ err (wrap (trim_space raw) (sentinel invalid_ttl)))
            × (is_empty (trim_space raw) ≡ false)
            × (p.parse_duration (trim_space raw) ≡ none))
  unfolding ttl_with_defaults
  ttl_with_defaults_cases raw = elim (Bool-cases (is_empty (trim_space raw))) [
    | inl empty ↦ inl (
      p.duration_string default_ttl,
      rw empty,
      safe default_ttl (omega arith) refl refl,
      inl (empty_text _ empty),
    )
    | inr text ↦ elim (Option-cases (p.parse_duration (trim_space raw))) [
      | inl bad ↦ inr (rw (text, bad), text, bad)
      | inr (d, good) ↦ elim (Bool-cases (ltb_ℤ d ttl_floor)) [
        | inl low ↦ inl (
          p.duration_string ttl_floor,
          rw (text, good, low),
          safe ttl_floor (omega arith) refl refl,
          inr (rw good),
        )
        | inr high ↦ inl (
          p.duration_string d,
          rw (text, good, high),
          safe d (go.parse-IsInt _ d good) high refl,
          inr (rw good),
        )
      ]
    ]
  ]
    where
      empty_text : (s : String) → is_empty s ≡ true → s ≡ ""
      empty_text String.[] h = refl
      empty_text (String.◌∷◌ c s) h = cc

  ttl_with_defaults_of_IsSafeTtl : {t : String} → IsSafeTtl t → ttl_with_defaults p t ≡ ok t
  unfolding ttl_with_defaults
  ttl_with_defaults_of_IsSafeTtl (safe d fits high e) = rw e (
      rw (go.trim-string d fits)
        (rw (string_nonempty d fits) (rw (go.parse-string d fits) (rw high))))

  -- A TTL that was accepted once is accepted again, unchanged.
  pub ttl_with_defaults_idem :
      (raw : String) {t : String} → ttl_with_defaults p raw ≡ ok t → ttl_with_defaults p t ≡ ok t
  ttl_with_defaults_idem raw {t} h = elim (ttl_with_defaults_cases raw) [
    | inl (u, good, s, _) ↦ ttl_with_defaults_of_IsSafeTtl (ground_ttl u good s)
    | inr (bad, _, _) ↦ cc
  ]
    where
      ground_ttl : (u : String) → ttl_with_defaults p raw ≡ ok u → IsSafeTtl u → IsSafeTtl t
      ground_ttl u good s = subst IsSafeTtl (cc) s
