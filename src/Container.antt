-- ===== src/Container.antt =====
-- container.go: the providers of the dependency container. A reflect.Type is a number, of which the
-- first five are the built-in types and `error`; a value is a number. A Go map from types is a
-- function. A *provider in the container is known by its type, since there is one for each.
pub mod Graph
pub mod Build
pub mod Cycle
pub mod Register
mod Tests
use torge.Base.{
  ℕ, zero, suc, ◌+◌, Bool, true, false, not, ◌&&◌, ◌||◌, List, [], ◌∷◌, ◌++◌, Option, none, some,
  ltb, ◌==◌, if◌then◌else◌,
}

abbrev pub context_type : ℕ
context_type = 0

abbrev pub ctx_ptr_type : ℕ
ctx_ptr_type = 1

abbrev pub logger_type : ℕ
logger_type = 2

abbrev pub env_type : ℕ
env_type = 3

abbrev pub error_type : ℕ
error_type = 4

-- `builtinDepType`.
abbrev pub is_builtin : ℕ → Bool
is_builtin t = ltb t 4

pub data Scope : Type 0 where
  singleton_scope request_scope : Scope

abbrev pub is_singleton : Scope → Bool
is_singleton singleton_scope = true
is_singleton request_scope = false

-- `fn` is the constructor, which only `Container.Build` calls; `value` is that of a supplied provider.
pub record Provider : Type 0 where
  pub out : ℕ
  pub fn : ℕ
  pub params : List ℕ
  pub returns_err : Bool
  pub scope : Scope
  pub supplied : Bool
  pub value : ℕ

-- A lifecycle hook of a constructed value: with `Start` and `Stop`, or with `Close` alone.
pub data Hook : Type 0 where
  lifecycle closer : (out value : ℕ) → Hook

pub record Container : Type 0 where
  pub providers : ℕ → Option Provider
  pub order : List Provider
  pub singletons : ℕ → Option ℕ
  pub hooks : List Hook
  pub built : Bool

abbrev pub new_container : Container
new_container = record {
  providers = λ t. none;
  order = [];
  singletons = λ t. none;
  hooks = [];
  built = false;
}

-- `m[k] = v`.
abbrev pub update {ℓ} : {V : Type ℓ} → (ℕ → Option V) → ℕ → V → ℕ → Option V
update m k v j = if j == k then some v else m j

-- The type of a function that is passed to `Provide`, as reflection shows it.
pub record Signature : Type 0 where
  pub is_func : Bool
  pub is_nil : Bool
  pub variadic : Bool
  pub inputs : List ℕ
  pub outputs : List ℕ

pub data Refused : Type 0 where
  not_a_function no_variadic bad_results built_in duplicate : Refused

-- The panic of `reflect.Value.Type` on a nil constructor, that of `addProvider`, the diagnostics, and
-- success.
pub data Added : Type 0 where
  crashed late added : Added
  refused : Refused → Added

-- `func(deps...) T` or `func(deps...) (T, error)`: the type provided, and whether there is an error.
abbrev pub results_of : List ℕ → Option (ℕ × Bool)
results_of (out ∷ []) = some (out, false)
results_of (out ∷ e ∷ []) = if e == error_type then some (out, true) else none
results_of outs = none

unfoldable pub remove_from : ℕ → List Provider → List Provider
remove_from t [] = []
remove_from t (p ∷ ps) = if p.out == t then ps else p ∷ remove_from t ps

abbrev pub insert : Provider → Container → Container
insert p ct = record ct { providers = update ct.providers p.out p; order = ct.order ++ p ∷ [] }

abbrev pub add_over : Provider → (replace : Bool) → Container → Option Provider → Container × Added
add_over p replace ct none = (insert p ct, added)
add_over p true ct (some existing) =
    (insert p (record ct { order = remove_from existing.out ct.order }), added)
add_over p false ct (some existing) = (ct, refused duplicate)

-- `addProvider`; `frozen` is the application's.
unfoldable pub add_provider :
    (frozen : Bool) → Provider → (replace : Bool) → Container → Container × Added
unfolding remove_from
add_provider frozen p replace ct =
    if frozen || ct.built then (ct, late) else add_over p replace ct (ct.providers p.out)

abbrev pub provide_result :
    (frozen : Bool) (fn : ℕ)
    → List ℕ
    → Scope
    → (replace : Bool) → Container
    → Option (ℕ × Bool)
    → Container × Added
provide_result frozen fn inputs scope replace ct none = (ct, refused bad_results)
provide_result frozen fn inputs scope replace ct (some (out, returns_err)) =
    if (out == error_type) || is_builtin out
    then (ct, refused built_in)
    else add_provider frozen
        (record {
          out = out;
          fn = fn;
          params = inputs;
          returns_err = returns_err;
          scope = scope;
          supplied = false;
          value = 0;
        })
        replace ct

-- `register`, for `Provide` and `Replace`; the scope is what the options make it. An untyped nil has no
-- signature: `fn.Type()` stands before the test for it.
unfoldable pub register :
    (frozen : Bool) (fn : ℕ)
    → Option Signature
    → Scope
    → (replace : Bool) → Container
    → Container × Added
unfolding add_provider
register frozen fn none scope replace ct = (ct, crashed)
register frozen fn (some s) scope replace ct =
    if not s.is_func || s.is_nil
    then (ct, refused not_a_function)
    else if s.variadic
    then (ct, refused no_variadic)
    else provide_result frozen fn s.inputs scope replace ct (results_of s.outputs)

-- `supply`, for `Supply`, `SupplyAs` and `ReplaceValue`.
unfoldable pub supply :
    (frozen : Bool) (t value : ℕ) → (replace : Bool) → Container → Container × Added
unfolding add_provider
supply frozen t value replace ct =
    add_provider frozen
      (record {
        out = t;
        fn = 0;
        params = [];
        returns_err = false;
        scope = singleton_scope;
        supplied = true;
        value = value;
      })
      replace ct
