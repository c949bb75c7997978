-- ===== src/Logger.antt =====
-- logger.go: the adapter from the consumer's logger to the internal one. The internal logger's
-- interface and its silent implementation are lib-observability's: a value of a field is a parameter.
pub mod Reference
use lib_service_discovery.Common.{
  ℕ, String, ◌<>◌, Bool, true, false, Option, none, some, List, [], ◌∷◌, ◌++◌, is_empty,
  if◌then◌else◌,
}
use lib_service_discovery.Context.{Ctx}
use lib_service_discovery.Errors.{Error}

-- `log.Level`, a number with four names.
pub data Level : Type 0 where
  level_error level_warn level_info level_debug : Level
  level_other : ℕ → Level

-- A `reflect.Kind`, as far as the kinds are told apart.
pub data Kind : Type 0 where
  pointer_kind map_kind func_kind chan_kind slice_kind interface_kind : Kind
  other_kind : Kind

-- `strings.Join`
unfoldable pub join : String → List String → String
join sep [] = ""
join sep (s ∷ []) = s
join sep (s ∷ t ∷ ss) = s <> (sep <> join sep (t ∷ ss))

-- What reflection tells of the value in the interface; a nil interface has none.
pub record Reflected : Type 0 where
  pub kind : Kind
  pub value_is_nil : Bool

unfoldable pub is_nil_logger : Option Reflected → Bool
is_nil_logger none = true
is_nil_logger (some v) = elim v.kind [ other_kind ↦ false | _ ↦ v.value_is_nil ]

module _ (V : Type 0) where
  -- `log.Field`
  pub record Field : Type 0 where
    pub key : String
    pub value : V

  -- An element of the `...any` that the consumer's logger gets.
  pub data Arg : Type 0 where
    key_arg : String → Arg
    value_arg : V → Arg

  -- `Logger`: the consumer's four methods, over whatever they write to.
  pub record Logger : Type 1 where
    pub Sink : Type 0
    pub info : Ctx → String → List Arg → Sink → Sink
    pub warn : Ctx → String → List Arg → Sink → Sink
    pub error : Ctx → String → List Arg → Sink → Sink
    pub debug : Ctx → String → List Arg → Sink → Sink

  -- `obsLoggerAdapter`, without the logger that it wraps.
  pub record Adapter : Type 0 where
    pub attrs : List Arg
    pub groups : List String

  -- The internal logger: lib-observability's `NewNop`, or the adapter.
  pub data ObsLogger : Type 0 where
    no_op : ObsLogger
    adapted : Adapter → ObsLogger

  unfoldable pub to_obs_logger : Option Reflected → ObsLogger
  to_obs_logger l = if is_nil_logger l then no_op else adapted (record { attrs = []; groups = [] })

  unfoldable pub fields_to_args : String → List Field → List Arg
  fields_to_args prefix [] = []
  fields_to_args prefix (f ∷ fs) =
      key_arg (if is_empty prefix then f.key else prefix <> ("." <> f.key))
      ∷ value_arg f.value
      ∷ fields_to_args prefix fs

  -- `With` and `WithGroup`
  unfoldable pub with_fields : List Field → Adapter → Adapter
  with_fields fields a = record a { attrs = a.attrs ++ fields_to_args (join "." a.groups) fields }

  unfoldable pub with_group : String → Adapter → Adapter
  with_group name a = if is_empty name then a else record a { groups = a.groups ++ (name ∷ []) }

  -- `Log`
  unfoldable pub log : (l : Logger) → Ctx → Level → String → List Field → Adapter → l.Sink → l.Sink
  log l ctx level msg fields a s =
      let args = a.attrs ++ fields_to_args (join "." a.groups) fields in
      elim level [
        | level_error ↦ l.error ctx msg args s
        | level_warn ↦ l.warn ctx msg args s
        | level_debug ↦ l.debug ctx msg args s
        | level_info ↦ l.info ctx msg args s
        | level_other n ↦ l.info ctx msg args s
      ]

  -- `Enabled` and `Sync`
  unfoldable pub enabled : Level → Adapter → Bool
  enabled level a = true

  unfoldable pub sync : Ctx → Adapter → Option Error
  sync ctx a = none
