-- ===== src/Registry/Resolved.antt =====
-- src/common/registry.py: what is found under a name, and what a look-up leaves behind.
use mathlib.Core.Path.{subst}
use robo_trade.Base.{
  String, ◌≡◌, refl, ap, ◌∙◌, false, Option, none, some, Result, ok, err, eq_iff, str_eq,
  get_or_else,
}
use robo_trade.Base.Dict.{Dict, lookup, insert, lookup-insert}
use robo_trade.Registry.Spelling.{Spells, normalize-Spells}
use robo_trade.Registry.{
  Registry, Implementation, loaded, path, Imports, RegistryError, normalize, canonical, register,
  alias, resolve, keep_class, load, get,
}

module _ {C : Type 0} where
  lookup_put :
      (k : String) (v : Implementation C) (d : Dict (Implementation C))
      → lookup k (insert k v d) ≡ some v
  lookup_put k v d = lookup-insert k k v d ∙ rw ((eq_iff k k).1 refl) refl

  module _ {W : Type 0} (imports : Imports C W) where
    -- What a look-up leaves: the class that was found under the key, and the aliases as they were; or
    -- after a raise the registry as it was.
    abbrev Settled : String → Result RegistryError C → Registry C → Registry C → Type 0
    Settled key (ok cls) r r' =
        (lookup key r'.entries ≡ some (loaded cls)) × (r'.aliases ≡ r.aliases)
    Settled key (err raised) r r' = r' ≡ r

    keep_class-Settled :
        (key : String) (r : Registry C) (answer : Result RegistryError C × W)
        → let (result, (r', w')) = keep_class imports key r answer in Settled key result r r'
    keep_class-Settled key r (err raised, w) = refl
    keep_class-Settled key r (ok cls, w) = (lookup_put key (loaded cls) r.entries, refl)

    resolve-Settled :
        (name key : String) (entry : Option (Implementation C)) (r : Registry C) (w : W)
        → lookup key r.entries ≡ entry
        → let (result, (r', w')) = resolve imports name key entry (r, w) in Settled key result r r'
    resolve-Settled name key none r w found = refl
    resolve-Settled name key (some (loaded cls)) r w found = (found, refl)
    resolve-Settled name key (some (path where_from)) r w found =
        keep_class-Settled key r (load imports where_from w)

    resolve_found :
        (name key : String) (entry : Option (Implementation C)) (cls : C) (r : Registry C) (w : W)
        → entry ≡ some (loaded cls)
        → resolve imports name key entry (r, w) ≡ (ok cls, (r, w))
    resolve_found name key none cls r w h = cc
    resolve_found name key (some (path where_from)) cls r w h = cc
    resolve_found name key (some (loaded other)) cls r w h = cc

    -- What a look-up that is repeated in any state of the interpreter gives: the class that was found,
    -- with nothing imported and nothing changed. A look-up that raised left the registry as it was.
    abbrev pub Repeats : String → Result RegistryError C → Registry C → Registry C → W → Type 0
    Repeats name (ok cls) r r' v = get imports name (r', v) ≡ (ok cls, (r', v))
    Repeats name (err raised) r r' v = r' ≡ r

    Settled-Repeats :
        (name : String) (result : Result RegistryError C) (r r' : Registry C) (v : W)
        → Settled (canonical r name) result r r'
        → Repeats name result r r' v
    unfolding get canonical
    Settled-Repeats name (err raised) r r' v h = h
    Settled-Repeats name (ok cls) r r' v (found, aliases) =
        let same_key : canonical r' name ≡ canonical r name =
          ap (λ d. get_or_else (lookup (normalize name) d) (normalize name)) aliases in
        resolve_found name (canonical r' name) _ cls r' v
          (ap (λ k. lookup k r'.entries) same_key ∙ found)

    -- A class that was found is found again, by a look-up that imports nothing and changes nothing, in
    -- whatever state the interpreter is by then and whatever an import would answer in it. A look-up that
    -- raises leaves the registry as it was.
    pub get-get :
        (name : String) (result : Result RegistryError C) (r r' : Registry C) (w w' v : W)
        → get imports name (r, w) ≡ (result, (r', w'))
        → Repeats name result r r' v
    unfolding get
    get-get name result r r' w w' v h =
        let settled = resolve-Settled name (canonical r name) _ r w refl in
        Settled-Repeats name result r r' v (
          subst
            (λ (x : Result RegistryError C × (Registry C × W)).
              Settled (canonical r name) x.0 r x.1.0)
            h settled)

    -- A class that was registered is found by any spelling of its own name and of an alias of it, with
    -- the letters in either case and white space before and behind, in any state of the interpreter: for
    -- a name that is not empty and not itself retired, and an alias that is not the name again.
    pub get-register :
        (name retired spelled spelled_retired : String) (cls : C) (r : Registry C) (w : W)
        → str_eq (normalize name) "" ≡ false
        → lookup (normalize name) r.aliases ≡ none
        → str_eq (normalize retired) (normalize name) ≡ false
        → Spells spelled name
        → Spells spelled_retired retired
        → let r' = alias retired name (register name (loaded cls) r).1 in
          (get imports spelled (r', w) ≡ (ok cls, (r', w)))
          × (get imports spelled_retired (r', w) ≡ (ok cls, (r', w)))
    unfolding get canonical register alias
    get-register name retired spelled spelled_retired cls r w nonempty current apart s t =
        let own = lookup_put (normalize name) (loaded cls) r.entries in
        (
          rw (normalize-Spells spelled name s, nonempty, lookup-insert, apart, current)
              (resolve_found spelled (normalize name) _ cls _ w own),
          rw
              (
                normalize-Spells spelled_retired retired t,
                nonempty,
                lookup-insert,
                (eq_iff (normalize retired) (normalize retired)).1 refl,
              )
              (resolve_found spelled_retired (normalize name) _ cls _ w own),
        )
