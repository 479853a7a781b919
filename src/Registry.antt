-- ===== src/Registry.antt =====
-- src/common/registry.py: implementations by name, resolved on first use, and the ids of
-- src/algorithms/ids.py. Importing a module is a parameter,
-- with the state of the interpreter.
pub mod Spelling
pub mod Resolved
mod Tests
use Prim.Native.Char.{code}
use robo_trade.Base.{
  String, Bool, true, false, ◌||◌, Option, none, some, List, [], ◌∷◌, if◌then◌else◌, Result, ok,
  err, get_or_else, str_eq, ◌==◌,
}
use robo_trade.Base.Dict.{Dict, lookup, insert, has_key, keys}
use robo_trade.Base.Exec.{Exec, pure, raise}
use robo_trade.Base.Sort.{add_names}
use robo_trade.Text.{lower_text, strip_text}

-- An entry: a class, or the path of one that is not imported yet.
pub data Implementation (C : Type 0) : Type 0 where
  loaded : C → Implementation C
  path : String → Implementation C

pub record Registry (C : Type 0) : Type 0 where
  pub entries : Dict (Implementation C)
  pub aliases : Dict String

-- `import_module` with `getattr`, which may change the state of the interpreter and answer another time
-- otherwise, and the test that what was found is a subclass of the base.
pub record Imports (C W : Type 0) : Type 0 where
  pub import_class : String → String → Exec String W C
  pub is_subclass : C → Bool

pub data RegistryError : Type 0 where
  name_required : RegistryError
  unknown_name : String → List String → RegistryError
  invalid_path : String → RegistryError
  import_failed : String → RegistryError
  wrong_type : String → RegistryError

-- `name.strip().lower()`.
unfoldable pub normalize : String → String
normalize name = lower_text (strip_text name)

-- `path.partition(":")`, without the separator.
unfoldable pub partition_colon : String → String × String
partition_colon String.[] = (String.[], String.[])
partition_colon (String.◌∷◌ c s) =
    let (before, after) = partition_colon s in
    if code c == b':' then (String.[], s) else (String.◌∷◌ c before, after)

module _ {C : Type 0} where
  -- `Registry(...)`.
  abbrev pub new_registry : Dict (Implementation C) → Registry C
  new_registry entries = record { entries = entries; aliases = [] }

  -- `register`.
  unfoldable pub register : String → Implementation C → Exec RegistryError (Registry C) (Unit {0})
  unfolding normalize
  register name entry r =
      if str_eq (normalize name) ""
      then (err name_required, r)
      else (ok tt, record r { entries = insert (normalize name) entry r.entries })

  -- `alias`.
  unfoldable pub alias : String → String → Registry C → Registry C
  alias retired current r = record r {
    aliases = insert (normalize retired) (normalize current) r.aliases;
  }

  -- `canonical`.
  unfoldable pub canonical : Registry C → String → String
  canonical r name = get_or_else (lookup (normalize name) r.aliases) (normalize name)

  -- `name in registry`, and `names`.
  abbrev pub contains_name : Registry C → String → Bool
  contains_name r name = has_key (canonical r name) r.entries

  abbrev pub names : Registry C → List String
  names r = add_names (keys r.entries) []

  module _ {W : Type 0} (imports : Imports C W) where
    abbrev pub check_class : String → C → Exec RegistryError W C
    check_class where_from cls =
        if imports.is_subclass cls then pure cls else raise (wrong_type where_from)

    abbrev pub check_import : String → Result String C × W → Result RegistryError C × W
    check_import where_from (err reason, w) = (err (import_failed reason), w)
    check_import where_from (ok cls, w) = check_class where_from cls w

    -- `_load`.
    unfoldable pub load : String → Exec RegistryError W C
    unfolding partition_colon
    load where_from w =
        let (module_path, class_name) = partition_colon where_from in
        if str_eq module_path "" || str_eq class_name ""
        then (err (invalid_path where_from), w)
        else check_import where_from (imports.import_class module_path class_name w)

    -- What a class that was loaded is kept as.
    abbrev pub keep_class :
        String → Registry C → Result RegistryError C × W → Result RegistryError C × (Registry C × W)
    keep_class key r (err raised, w) = (err raised, (r, w))
    keep_class key r (ok cls, w) =
        (ok cls, (record r { entries = insert key (loaded cls) r.entries }, w))

    abbrev pub resolve :
        String → String → Option (Implementation C) → Exec RegistryError (Registry C × W) C
    resolve name key none (r, w) = (err (unknown_name name (names r)), (r, w))
    resolve name key (some (loaded cls)) (r, w) = (ok cls, (r, w))
    resolve name key (some (path where_from)) (r, w) = keep_class key r (load where_from w)

    -- `get`, on the registry and the state of the interpreter.
    unfoldable pub get : String → Exec RegistryError (Registry C × W) C
    unfolding canonical load
    get name (r, w) = resolve name (canonical r name) (lookup (canonical r name) r.entries) (r, w)

-- `ALGORITHM_ALIASES` and `canonical_algorithm_id` of src/algorithms/ids.py.
abbrev pub algorithm_aliases : Dict String
algorithm_aliases = ("none", "bursty_dca") ∷ ("intraday_pick", "options_flip") ∷ []

unfoldable pub canonical_algorithm_id : String → String
canonical_algorithm_id id = get_or_else (lookup (normalize id) algorithm_aliases) (normalize id)

-- The entries of `ALGORITHMS` in src/algorithms/registry.py.
abbrev pub algorithm_entries : {C : Type 0} → Dict (Implementation C)
algorithm_entries =
    ("bursty_dca", path "src.algorithms.bursty_dca.algorithm:BurstyDCAAlgorithm")
    ∷ ("rally_rotation", path "src.algorithms.rally_rotation.algorithm:RallyRotationAlgorithm")
    ∷ ("options_flip", path "src.algorithms.options_flip.algorithm:OptionsFlipAlgorithm")
    ∷ []

-- `for _retired, _current in ALGORITHM_ALIASES.items(): ALGORITHMS.alias(...)`.
abbrev pub add_aliases : {C : Type 0} → Dict String → Registry C → Registry C
add_aliases [] r = r
add_aliases ((retired, current) ∷ more) r = add_aliases more (alias retired current r)

unfoldable pub algorithms : {C : Type 0} → Registry C
unfolding alias
algorithms = add_aliases algorithm_aliases (new_registry algorithm_entries)
