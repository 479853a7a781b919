-- ===== src/Registry/Tests.antt =====
-- The registry of the algorithms, with imports that find what they are asked for.
use robo_trade.Base.{ℕ, zero, suc, String, ◌≡◌, refl, inl, inr, true, none, [], ◌∷◌, ok, err}
use robo_trade.Base.Exec.{Exec}
use robo_trade.Base.Dict.{lookup}
use robo_trade.Text.{is_space, lower_text, strip_text}
use robo_trade.Registry.{
  Registry, Imports, path, loaded, normalize, register, alias, get, algorithms,
  canonical_algorithm_id, partition_colon, canonical,
}
use robo_trade.Registry.Spelling.{Spells}
use robo_trade.Registry.Resolved.{get-get, get-register}

-- A class is its name, and the interpreter counts its imports; from the second on they fail.
abbrev import_once : String → Exec String ℕ String
import_once class_name zero = (ok class_name, 1)
import_once class_name (suc n) = (err "already imported", suc (suc n))

abbrev imports : Imports String ℕ
imports = record {
  import_class = λ module_path class_name. import_once class_name;
  is_subclass = λ cls. true;
}

ids_are_canonical :
    (canonical_algorithm_id " Intraday_Pick " ≡ "options_flip")
    × (canonical_algorithm_id "rally_rotation" ≡ "rally_rotation")
unfolding canonical_algorithm_id normalize lower_text strip_text
ids_are_canonical = (refl, refl)

-- The algorithms, with the class that is found kept in the place of its path.
abbrev resolved : Registry String
resolved = record (algorithms {C = String}) {
  entries =
      ("bursty_dca", loaded "BurstyDCAAlgorithm")
      ∷ ("rally_rotation", path "src.algorithms.rally_rotation.algorithm:RallyRotationAlgorithm")
      ∷ ("options_flip", path "src.algorithms.options_flip.algorithm:OptionsFlipAlgorithm")
      ∷ [];
}

class_is_found :
    get imports "None" (algorithms {C = String}, 0) ≡ (ok "BurstyDCAAlgorithm", (resolved, 1))
unfolding get algorithms normalize lower_text strip_text partition_colon canonical alias
class_is_found = refl

get-get_example : get imports "None" (resolved, 1) ≡ (ok "BurstyDCAAlgorithm", (resolved, 1))
get-get_example =
    get-get imports "None" (ok "BurstyDCAAlgorithm") (algorithms {C = String}) resolved 0 1 1
      class_is_found

names_stand : (normalize "Ab" ≡ "ab") × (normalize "C" ≡ "c")
unfolding normalize lower_text strip_text
names_stand = (refl, refl)

name_is_current : lookup (normalize "Ab") (algorithms {C = String}).aliases ≡ none
unfolding normalize lower_text strip_text algorithms alias
name_is_current = refl

name_spelled : Spells " aB" "Ab"
unfolding is_space
name_spelled =
    inr (refl, inl (inr (inr (inl (refl, refl))), (inr (inl (inr (inl (refl, refl)))), tt)))

alias_spelled : Spells "c " "C"
unfolding is_space
alias_spelled = inl (inr (inr (inr (inr (inl (refl, refl))))), (refl, tt))

get-register_example :
    let r' = alias "C" "Ab" (register "Ab" (loaded "Stub") (algorithms {C = String})).1 in
    (get imports " aB" (r', 0) ≡ (ok "Stub", (r', 0)))
    × (get imports "c " (r', 0) ≡ (ok "Stub", (r', 0)))
unfolding normalize lower_text strip_text
get-register_example =
    get-register imports "Ab" "C" " aB" "c " "Stub" (algorithms {C = String}) 0 refl name_is_current
      refl name_spelled alias_spelled
