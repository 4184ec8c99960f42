-- ===== src/Container/Tests.antt =====
-- container.go: three providers, a replacement and a cycle, and the theorems at these containers.
use torge.Base.{
  ℕ, ◌+◌, ◌*◌, ◌≤◌, ◌≡◌, refl, true, false, List, [], ◌∷◌, Option, none, some, ◌==◌, if◌then◌else◌,
}
use torge.Container.{
  Provider, Container, singleton_scope, request_scope, new_container, Signature, register,
  remove_from,
}
use torge.Container.Graph.{validate, find_cycle, cycle}
use torge.Container.Cycle.{Registered, IsCycle}
use torge.Container.Cycle.Search.{find_cycle-IsCycle}
use torge.Container.Register.{
  new_container-Registered, register-Registered, Registration, registers, supplies, perform_all,
  perform_all-Registered,
}
use torge.Container.Build.{World, unmanaged, is_closer, build, ready, BuildResult}
use torge.Container.Build.Total.{Finishes, build-Finishes}

abbrev constructor : List ℕ → List ℕ → Option Signature
constructor inputs outputs = some (record {
  is_func = true;
  is_nil = false;
  variadic = false;
  inputs = inputs;
  outputs = outputs;
})

abbrev with_provider : (fn : ℕ) → List ℕ → List ℕ → Container → Container
with_provider fn inputs outputs ct =
    (register false fn (constructor inputs outputs) singleton_scope false ct).0

-- A service on a repository and the logger, the repository on a database.
abbrev services : Container
services =
    with_provider 1 [] (10 ∷ 4 ∷ [])
      (with_provider 2 (10 ∷ []) (11 ∷ []) (with_provider 3 (11 ∷ 2 ∷ []) (12 ∷ []) new_container))

-- The database on the service.
abbrev circular : Container
circular =
    with_provider 1 (12 ∷ []) (10 ∷ [])
      (with_provider 2 (10 ∷ []) (11 ∷ []) (with_provider 3 (11 ∷ 2 ∷ []) (12 ∷ []) new_container))

program : Unit {0}
unfolding register validate find_cycle build remove_from
program = tt

provider_of : (fn out : ℕ) → List ℕ → Provider
provider_of fn out params = record {
  out = out;
  fn = fn;
  params = params;
  returns_err = false;
  scope = singleton_scope;
  supplied = false;
  value = 0;
}

with_provider-Registered :
    (fn : ℕ) (inputs outputs : List ℕ) (ct : Container)
    → Registered ct
    → Registered (with_provider fn inputs outputs ct)
with_provider-Registered fn inputs outputs ct reg =
    register-Registered false fn (constructor inputs outputs) singleton_scope false ct reg

services-Registered : Registered services
services-Registered = with_provider-Registered 1 [] (10 ∷ 4 ∷ []) _ (
    with_provider-Registered 2 (10 ∷ []) (11 ∷ []) _
      (with_provider-Registered 3 (11 ∷ 2 ∷ []) (12 ∷ []) new_container new_container-Registered))

circular-Registered : Registered circular
circular-Registered = with_provider-Registered 1 (12 ∷ []) (10 ∷ []) _ (
    with_provider-Registered 2 (10 ∷ []) (11 ∷ []) _
      (with_provider-Registered 3 (11 ∷ 2 ∷ []) (12 ∷ []) new_container new_container-Registered))

services_valid : validate services ≡ []
unfolding program
services_valid = refl

circular_found :
    find_cycle circular
    ≡ cycle (
        provider_of 3 12 (11 ∷ 2 ∷ [])
        ∷ provider_of 2 11 (10 ∷ [])
        ∷ provider_of 1 10 (12 ∷ [])
        ∷ provider_of 3 12 (11 ∷ 2 ∷ [])
        ∷ [])
unfolding program provider_of
circular_found = refl

-- Values are sums of what the constructors take; the database has a Close.
abbrev world : World
world = record {
  call = λ fn args. (elim args [ [] ↦ fn | a ∷ rest ↦ a * 10 + fn ], false);
  kind = λ v. if v == 1 then is_closer else unmanaged;
  builtin = λ t. 99;
}

abbrev value_of : ℕ → BuildResult → Option ℕ
value_of t (ready ct) = ct.singletons t
value_of t r = none

services_built : value_of 12 (build world 3 services) ≡ some 123
unfolding program
services_built = refl

-- A value for a type that has a provider is refused, and replaces it if it is told to.
abbrev registrations : List Registration
registrations =
    supplies false 10 7 false
    ∷ supplies false 10 8 true
    ∷ registers false 9 (constructor [] (13 ∷ [])) request_scope false
    ∷ []

perform_all-Registered_example : Registered (perform_all registrations services)
perform_all-Registered_example = perform_all-Registered registrations services services-Registered

find_cycle-IsCycle_example :
    ((c : List Provider) → find_cycle circular ≡ cycle c → IsCycle circular.providers c)
    × ((c : List Provider)
        → IsCycle circular.providers c
        → (d : List Provider) × (find_cycle circular ≡ cycle d))
find_cycle-IsCycle_example = find_cycle-IsCycle circular circular-Registered

build-Finishes_example :
    (n : ℕ) × ((w : World) (fuel : ℕ) → n ≤ fuel → Finishes services (build w fuel services))
build-Finishes_example = build-Finishes services services-Registered services_valid
