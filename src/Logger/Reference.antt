-- ===== src/Logger/Reference.antt =====
-- What the adapter of logger.go writes, against a description without its lists of attributes and
-- groups.
use lib_service_discovery.Common.{
  String, ◌<>◌, ◌≡◌, ◌⊎◌, refl, sym, ap, ◌∙◌, inl, inr, true, false, Bool, Option, none, some, List,
  [], ◌∷◌, ◌++◌, is_empty, if◌then◌else◌, Bool-cases, All,
}
use mathlib.Core.List.{append_assoc as list_assoc}
use text.Mathlib.TextLemmas.{cons-append, append_assoc}
use lib_service_discovery.Context.{Ctx}
use lib_service_discovery.Logger.{
  Level, level_error, level_warn, level_info, level_debug, level_other, join, Field, Arg, key_arg,
  value_arg, Logger, Kind, pointer_kind, map_kind, func_kind, chan_kind, slice_kind, interface_kind,
  other_kind, Reflected, is_nil_logger, Adapter, no_op, adapted, to_obs_logger, fields_to_args,
  with_fields, with_group, log,
}

-- A dotted path one group deeper.
unfoldable pub deeper : String → String → String
deeper path name =
    if is_empty name then path else if is_empty path then name else path <> ("." <> name)

append-nonempty : (s t : String) → is_empty s ≡ false → is_empty (s <> t) ≡ false
append-nonempty String.[] t h = cc
append-nonempty (String.◌∷◌ c s) t h = rw (cons-append c s t) refl

join-nonempty :
    (g : String) (gs : List String) → is_empty g ≡ false → is_empty (join "." (g ∷ gs)) ≡ false
unfolding join
join-nonempty g [] h = h
join-nonempty g (k ∷ gs) h = append-nonempty g _ h

-- Another group behind at least one.
join-snoc :
    (g : String) (gs : List String) (name : String)
    → join "." ((g ∷ gs) ++ (name ∷ [])) ≡ join "." (g ∷ gs) <> ("." <> name)
unfolding join
join-snoc g [] name = refl
join-snoc g (k ∷ gs) name =
    ap (λ t. g <> ("." <> t)) (join-snoc k gs name)
    ∙ ap (λ t. g <> t) (sym (append_assoc "." (join "." (k ∷ gs)) ("." <> name)))
    ∙ sym (append_assoc g ("." <> join "." (k ∷ gs)) ("." <> name))

abbrev pub Named : List String → Type 0
Named gs = All (λ g. is_empty g ≡ false) gs

Named-snoc :
    (gs : List String) (name : String)
    → Named gs
    → is_empty name ≡ false
    → Named (gs ++ (name ∷ []))
Named-snoc [] name hs h = (h, tt)
Named-snoc (g ∷ gs) name (k, hs) h = (k, Named-snoc gs name hs h)

join-deeper :
    (gs : List String) (name : String)
    → Named gs
    → is_empty name ≡ false
    → join "." (gs ++ (name ∷ [])) ≡ deeper (join "." gs) name
unfolding deeper join
join-deeper [] name hs h = rw h refl
join-deeper (g ∷ gs) name (k, hs) h = rw (h, join-nonempty g gs k) (join-snoc g gs name)

-- The kinds of values that can be nil.
pub data HasNil : Kind → Type 0 where
  a_pointer : HasNil pointer_kind
  a_map : HasNil map_kind
  a_func : HasNil func_kind
  a_chan : HasNil chan_kind
  a_slice : HasNil slice_kind
  an_interface : HasNil interface_kind

-- A nil logger: no value in the interface, or a nil value.
pub data IsNil : Option Reflected → Type 0 where
  no_value : IsNil none
  nil_value : (k : Kind) → HasNil k → IsNil (some (record { kind = k; value_is_nil = true }))

is_nil_logger_of_value :
    (k : Kind) → is_nil_logger (some (record { kind = k; value_is_nil = false })) ≡ false
unfolding is_nil_logger
is_nil_logger_of_value pointer_kind = refl
is_nil_logger_of_value map_kind = refl
is_nil_logger_of_value func_kind = refl
is_nil_logger_of_value chan_kind = refl
is_nil_logger_of_value slice_kind = refl
is_nil_logger_of_value interface_kind = refl
is_nil_logger_of_value other_kind = refl

is_nil_logger-IsNil : (o : Option Reflected) → is_nil_logger o ≡ true → IsNil o
unfolding is_nil_logger
is_nil_logger-IsNil none h = no_value
is_nil_logger-IsNil (some v) h = go v.kind v.value_is_nil h
  where
    go :
        (k : Kind) (b : Bool)
        → is_nil_logger (some (record { kind = k; value_is_nil = b })) ≡ true
        → IsNil (some (record { kind = k; value_is_nil = b }))
    go pointer_kind true h = nil_value pointer_kind a_pointer
    go map_kind true h = nil_value map_kind a_map
    go func_kind true h = nil_value func_kind a_func
    go chan_kind true h = nil_value chan_kind a_chan
    go slice_kind true h = nil_value slice_kind a_slice
    go interface_kind true h = nil_value interface_kind an_interface
    go other_kind true h = cc
    go k false h = let live = is_nil_logger_of_value k in cc

is_nil_logger-not_IsNil : (o : Option Reflected) → is_nil_logger o ≡ false → ¬ IsNil o
unfolding is_nil_logger
is_nil_logger-not_IsNil none h no_value = cc
is_nil_logger-not_IsNil (some v) h (nil_value k n) = go k n h
  where
    go :
        (k : Kind)
        → HasNil k
        → is_nil_logger (some (record { kind = k; value_is_nil = true })) ≡ false
        → ⊥
    go _ a_pointer h = cc
    go _ a_map h = cc
    go _ a_func h = cc
    go _ a_chan h = cc
    go _ a_slice h = cc
    go _ an_interface h = cc

module _ (V : Type 0) where
  -- What a caller binds before it logs.
  pub data Binding : Type 0 where
    fields_bound : List (Field V) → Binding
    group_bound : String → Binding

  unfoldable pub bind : List Binding → Adapter V → Adapter V
  bind [] a = a
  bind (fields_bound fs ∷ bs) a = bind bs (with_fields V fs a)
  bind (group_bound g ∷ bs) a = bind bs (with_group V g a)

  -- A field's key under a path, and the arguments of a list of fields.
  unfoldable pub qualified : String → Field V → Field V
  qualified path f = record f { key = if is_empty path then f.key else path <> ("." <> f.key) }

  unfoldable pub all_qualified : String → List (Field V) → List (Field V)
  all_qualified path [] = []
  all_qualified path (f ∷ fs) = qualified path f ∷ all_qualified path fs

  unfoldable pub pairs : List (Field V) → List (Arg V)
  pairs [] = []
  pairs (f ∷ fs) = key_arg f.key ∷ value_arg f.value ∷ pairs fs

  -- What is to be written: each field under the groups that were open where it was bound, in order.
  unfoldable pub described : String → List Binding → List (Field V) → List (Field V)
  described path [] fields = all_qualified path fields
  described path (fields_bound fs ∷ bs) fields = all_qualified path fs ++ described path bs fields
  described path (group_bound g ∷ bs) fields = described (deeper path g) bs fields

  -- The consumer's method for a level.
  unfoldable pub method : (l : Logger V) → Level → Ctx → String → List (Arg V) → l.Sink → l.Sink
  method l level_error = l.error
  method l level_warn = l.warn
  method l level_info = l.info
  method l level_debug = l.debug
  method l (level_other n) = l.info

  pairs-append : (fs gs : List (Field V)) → pairs (fs ++ gs) ≡ pairs fs ++ pairs gs
  unfolding pairs
  pairs-append [] gs = refl
  pairs-append (f ∷ fs) gs = ap (λ l. key_arg f.key ∷ value_arg f.value ∷ l) (pairs-append fs gs)

  fields_to_args-pairs :
      (path : String) (fs : List (Field V))
      → fields_to_args V path fs ≡ pairs (all_qualified path fs)
  unfolding fields_to_args pairs all_qualified qualified
  fields_to_args-pairs path [] = refl
  fields_to_args-pairs path (f ∷ fs) =
      ap
        (λ l.
          key_arg (if is_empty path then f.key else path <> ("." <> f.key)) ∷ value_arg f.value ∷ l)
        (fields_to_args-pairs path fs)

  deeper_none : (path name : String) → is_empty name ≡ true → deeper path name ≡ path
  unfolding deeper
  deeper_none path name h = rw h refl

  -- What an adapter writes of fields that are logged on it.
  args_of : List (Field V) → Adapter V → List (Arg V)
  args_of fields a = a.attrs ++ fields_to_args V (join "." a.groups) fields

  args_of-bind :
      (bs : List Binding) (fields : List (Field V)) (a : Adapter V)
      → Named a.groups
      → args_of fields (bind bs a) ≡ a.attrs ++ pairs (described (join "." a.groups) bs fields)
  unfolding bind args_of described with_fields with_group
  args_of-bind [] fields a hs = ap (λ l. a.attrs ++ l) (fields_to_args-pairs _ fields)
  args_of-bind (fields_bound fs ∷ bs) fields a hs =
      let path : String = join "." a.groups in
      args_of-bind bs fields (with_fields V fs a) hs
      ∙ list_assoc a.attrs (fields_to_args V path fs) _
      ∙ ap (λ l. a.attrs ++ (l ++ pairs (described path bs fields))) (fields_to_args-pairs path fs)
      ∙ ap (λ l. a.attrs ++ l)
          (sym (pairs-append (all_qualified path fs) (described path bs fields)))
  args_of-bind (group_bound g ∷ bs) fields a hs = elim (Bool-cases (is_empty g)) [
    | inl empty ↦
        ap (λ b. args_of fields (bind bs b)) (with_group_none g a empty)
        ∙ args_of-bind bs fields a hs
        ∙ ap (λ p. a.attrs ++ pairs (described p bs fields)) (sym (deeper_none _ g empty))
    | inr name ↦
        let deep : Adapter V = record a { groups = a.groups ++ (g ∷ []) } in
        ap (λ b. args_of fields (bind bs b)) (with_group_some g a name)
        ∙ args_of-bind bs fields deep (Named-snoc a.groups g hs name)
        ∙ ap (λ p. a.attrs ++ pairs (described p bs fields)) (join-deeper a.groups g hs name)
  ]
    where
      with_group_none : (g : String) (a : Adapter V) → is_empty g ≡ true → with_group V g a ≡ a
      with_group_none g a h = rw h refl

      with_group_some :
          (g : String) (a : Adapter V)
          → is_empty g ≡ false
          → with_group V g a ≡ record a { groups = a.groups ++ (g ∷ []) }
      with_group_some g a h = rw h refl

  log-method :
      (l : Logger V) (ctx : Ctx) (level : Level) (msg : String) (fields : List (Field V))
      (a : Adapter V) (s : l.Sink)
      → log V l ctx level msg fields a s ≡ method l level ctx msg (args_of fields a) s
  unfolding log method args_of
  log-method l ctx level_error msg fields a s = refl
  log-method l ctx level_warn msg fields a s = refl
  log-method l ctx level_info msg fields a s = refl
  log-method l ctx level_debug msg fields a s = refl
  log-method l ctx (level_other n) msg fields a s = refl

  -- A logger that is not nil is wrapped; after any calls of `With` and `WithGroup` a
  -- log call asks the consumer's method of its level once, the one for info where the level is
  -- unknown, with the fields in the order in which they were bound, each under the groups that were
  -- open then. A logger that is nil, as an interface or as a value of a kind that has nils, is never
  -- wrapped.
  pub log-described :
      (l : Logger V) (o : Option Reflected) (ctx : Ctx) (level : Level) (msg : String)
      (bs : List Binding) (fields : List (Field V)) (s : l.Sink)
      → (IsNil o × (to_obs_logger V o ≡ no_op))
        ⊎ ((¬ IsNil o)
            × ((a : Adapter V) × (to_obs_logger V o ≡ adapted a)
                × (log V l ctx level msg fields (bind bs a) s
                    ≡ method l level ctx msg (pairs (described "" bs fields)) s)))
  unfolding to_obs_logger
  log-described l o ctx level msg bs fields s = elim (Bool-cases (is_nil_logger o)) [
    | inl nil ↦ inl (is_nil_logger-IsNil o nil, rw nil refl)
    | inr live ↦ inr (
      is_nil_logger-not_IsNil o live,
      (
        record { attrs = []; groups = [] },
        rw live refl,
        log-method l ctx level msg fields (bind bs (record { attrs = []; groups = [] })) s
            ∙ ap (λ args. method l level ctx msg args s)
                (unfold join in args_of-bind bs fields (record { attrs = []; groups = [] }) tt),
      ),
    )
  ]
