-- ===== src/Container/Graph.antt =====
-- container.go: `validate` and `findCycle`, on the graph of the providers.
use torge.Base.{
  ℕ, zero, suc, not, ◌&&◌, List, [], ◌∷◌, ◌++◌, Option, none, some, length, ◌==◌, if◌then◌else◌,
}
use torge.Container.{Provider, Container, is_singleton, is_builtin, ctx_ptr_type}

-- The colours of the search; the map has the zero value `unvisited` for a provider without an entry.
pub data Color : Type 0 where
  unvisited visiting done : Color

abbrev pub Colors : Type 0
Colors = ℕ → Color

abbrev pub paint : ℕ → Color → Colors → Colors
paint t c s j = if j == t then c else s j

-- `visit` returns a cycle, or nil with the colours changed. `no_fuel` is the model's.
pub data Search : Type 0 where
  no_fuel : Search
  cycle : List Provider → Search
  clear : Colors → Search

abbrev pub then_search : Search → (Colors → Search) → Search
then_search no_fuel k = no_fuel
then_search (cycle c) k = cycle c
then_search (clear s) k = k s

-- The part of the stack from the provider of type `t` on; none if it is not on the stack.
unfoldable pub stack_from : ℕ → List Provider → Option (List Provider)
stack_from t [] = none
stack_from t (p ∷ ps) = if p.out == t then some (p ∷ ps) else stack_from t ps

abbrev pub close_cycle : Provider → Option (List Provider) → Search → Search
close_cycle q none rest = rest
close_cycle q (some ps) rest = cycle (ps ++ q ∷ [])

-- The colour of a dependency decides.
abbrev pub on_color : Color → Search → Search → Search → Search
on_color visiting at_visiting at_unvisited rest = at_visiting
on_color unvisited at_visiting at_unvisited rest = at_unvisited
on_color done at_visiting at_unvisited rest = rest

-- The loop of `visit` over the parameters. The stack is the argument `path`: a visit pushes its
-- provider and pops it when it returns nil.
unfoldable pub visit_params :
    (Provider → List Provider → Colors → Search)
    → (ℕ → Option Provider)
    → List ℕ
    → List Provider
    → Colors
    → Search
unfolding stack_from
visit_params go providers [] path s = clear s
visit_params go providers (dep ∷ deps) path s =
    let rest = visit_params go providers deps path s in
    elim (providers dep) [
      | none ↦ rest
      | some q ↦
          on_color (s q.out) (close_cycle q (stack_from q.out path) rest)
            (then_search (go q path s) (visit_params go providers deps path)) rest
    ]

unfoldable pub visit : ℕ → (ℕ → Option Provider) → Provider → List Provider → Colors → Search
unfolding visit_params
visit zero providers p path s = no_fuel
visit (suc fuel) providers p path s =
    then_search
      (visit_params (visit fuel providers) providers p.params (path ++ p ∷ [])
        (paint p.out visiting s))
      (λ t. clear (paint p.out done t))

abbrev pub if_unvisited : Color → Search → Search → Search
if_unvisited unvisited a b = a
if_unvisited visiting a b = b
if_unvisited done a b = b

-- The loop of `findCycle` over the order.
unfoldable pub visit_all : ℕ → (ℕ → Option Provider) → List Provider → Colors → Search
unfolding visit
visit_all fuel providers [] s = clear s
visit_all fuel providers (p ∷ ps) s =
    if_unvisited (s p.out) (then_search (visit fuel providers p [] s) (visit_all fuel providers ps))
      (visit_all fuel providers ps s)

unfoldable pub find_cycle : Container → Search
unfolding visit_all
find_cycle ct = visit_all (length ct.order) ct.providers ct.order (λ t. unvisited)

-- The diagnostics of `validate`, with what they name.
pub data Fault : Type 0 where
  uses_context : Provider → Fault
  missing : Provider → (dep : ℕ) → Fault
  outlived : Provider → (dep : ℕ) → Fault
  in_cycle : List Provider → Fault

abbrev pub scope_faults : Provider → ℕ → Provider → List Fault
scope_faults p dep q =
    if is_singleton p.scope && not (is_singleton q.scope) then outlived p dep ∷ [] else []

abbrev provider_faults : Provider → ℕ → Option Provider → List Fault
provider_faults p dep none = missing p dep ∷ []
provider_faults p dep (some q) = scope_faults p dep q

-- The switch of `validate` for one parameter.
unfoldable pub param_faults : (ℕ → Option Provider) → Provider → ℕ → List Fault
param_faults providers p dep =
    if dep == ctx_ptr_type
    then (if is_singleton p.scope then uses_context p ∷ [] else [])
    else if is_builtin dep
    then []
    else provider_faults p dep (providers dep)

unfoldable pub params_faults : (ℕ → Option Provider) → Provider → List ℕ → List Fault
unfolding param_faults
params_faults providers p [] = []
params_faults providers p (dep ∷ deps) =
    param_faults providers p dep ++ params_faults providers p deps

unfoldable pub order_faults : (ℕ → Option Provider) → List Provider → List Fault
unfolding params_faults
order_faults providers [] = []
order_faults providers (p ∷ ps) = params_faults providers p p.params ++ order_faults providers ps

abbrev pub cycle_faults : Search → List Fault
cycle_faults no_fuel = []
cycle_faults (cycle c) = in_cycle c ∷ []
cycle_faults (clear s) = []

unfoldable pub validate : Container → List Fault
unfolding order_faults find_cycle
validate ct = order_faults ct.providers ct.order ++ cycle_faults (find_cycle ct)
